-- ===== src/Languages/Totals.antt =====
-- Sums over the entries of backend/app/agents/language_detector.py: a file of the walk adds to its own entry, and the manifests
-- and the sort add nothing.
use ai_project.Prelude.{
  ℕ, ◌+◌, ◌≡◌, refl, ◌∙◌, inl, inr, String, Bool, true, none, some, List, [], ◌∷◌, ◌++◌, any,
  any-append, lower, str_eq, eq_iff, total_of, if◌then◌else◌, Bool-cases, Option-cases, arith,
}
use ai_project.Mapper.{Item, language_of}
use ai_project.Languages.{
  LanguageInfo, no_files, walk, ensure, change, add_file, count_files, Marks, with_frameworks,
  Manifest, read_manifest, read_package, read_all, Manifests, detect_frameworks,
  detect_from_manifests, insert_info, sort_infos, detect, java_marks, python_marks, php_marks,
  js_marks,
}

abbrev has : String → List LanguageInfo → Bool
has lang infos = any (λ (i : LanguageInfo). str_eq i.language lang) infos

ensure-has : (lang : String) (infos : List LanguageInfo) → has lang (ensure lang infos) ≡ true
unfolding ensure
ensure-has lang infos = elim (Bool-cases (has lang infos)) [
  | inl there ↦ rw (ensure, there) there
  | inr missing ↦
      rw (ensure, missing)
        (any-append (λ (i : LanguageInfo). str_eq i.language lang) infos (no_files lang ∷ [])
          ∙ rw (missing, (eq_iff lang lang).1 refl) refl)
]

total_of-append {ℓ} :
    {A : Type ℓ} (f : A → ℕ) (xs ys : List A)
    → total_of f (xs ++ ys) ≡ total_of f xs + total_of f ys
total_of-append f [] ys = omega arith
total_of-append f (x ∷ xs) ys = omega (arith, total_of-append f xs ys)

-- What a file of the walk adds, where its suffix stands for a language.
abbrev pub gain_of : (String → Item → ℕ) → Item → ℕ
gain_of gain item = elim (language_of item) [ none ↦ 0 | some lang ↦ gain lang item ]

pub total_of-same {ℓ} :
    {A : Type ℓ} (f g : A → ℕ) (xs : List A) → ((x : A) → f x ≡ g x) → total_of f xs ≡ total_of g xs
total_of-same f g [] same = refl
total_of-same f g (x ∷ xs) same = omega (arith, same x, total_of-same f g xs same)

-- A quantity of an entry that a new entry does not have, that frameworks do not change, and to which
-- a file adds what `gain` says.
module _ (f : LanguageInfo → ℕ) (count_lines : Item → ℕ) (gain : String → Item → ℕ)
    (new : (lang : String) → f (no_files lang) ≡ 0)
    (frameworks : (marks : Marks) (text : String) (i : LanguageInfo)
      → f (with_frameworks marks text i) ≡ f i)
    (adds : (lang : String) (item : Item) (i : LanguageInfo)
      → str_eq i.language lang ≡ true
      → f (add_file (lower item.suffix) (count_lines item) i) ≡ f i + gain lang item) where
  ensure-total :
      (lang : String) (infos : List LanguageInfo)
      → total_of f (ensure lang infos) ≡ total_of f infos
  unfolding ensure
  ensure-total lang infos = elim (Bool-cases (has lang infos)) [
    | inl there ↦ rw (ensure, there) refl
    | inr missing ↦
        rw (ensure, missing) (omega (arith, total_of-append f infos (no_files lang ∷ []), new lang))
  ]

  change-keeps :
      (lang : String) (g : LanguageInfo → LanguageInfo) (infos : List LanguageInfo)
      → ((i : LanguageInfo) → f (g i) ≡ f i)
      → total_of f (change lang g infos) ≡ total_of f infos
  unfolding change
  change-keeps lang g [] same = refl
  change-keeps lang g (i ∷ infos) same = ground (arith, change-keeps lang g infos same, same i)

  change-adds :
      (lang : String) (item : Item) (infos : List LanguageInfo)
      → has lang infos ≡ true
      → total_of f (change lang (add_file (lower item.suffix) (count_lines item)) infos)
        ≡ total_of f infos + gain lang item
  unfolding change
  change-adds lang item [] h = absurd (cc)
  change-adds lang item (i ∷ infos) h = elim (Bool-cases (str_eq i.language lang)) [
    | inl here ↦ rw (change, here) (omega (arith, adds lang item i here))
    | inr there ↦ rw (change, there) (omega (arith, change-adds lang item infos (rw there at h)))
  ]

  count_files-total :
      (items : List Item) (infos : List LanguageInfo)
      → total_of f (count_files count_lines items infos)
        ≡ total_of f infos + total_of (gain_of gain) items
  unfolding count_files
  count_files-total [] infos = omega arith
  count_files-total (item ∷ items) infos = elim (Option-cases (language_of item)) [
    | inl unknown ↦
        rw (count_files, gain_of, unknown) (omega (arith, count_files-total items infos))
    | inr (lang, known) ↦
        let after =
          change lang (add_file (lower item.suffix) (count_lines item)) (ensure lang infos) in
        let e = change-adds lang item (ensure lang infos) (ensure-has lang infos) in
        rw (count_files, gain_of, known)
          (omega (arith, count_files-total items after, e, ensure-total lang infos))
  ]

  read_manifest-keeps :
      (lang : String) (marks : Marks) (m : Manifest) (infos : List LanguageInfo)
      → total_of f (read_manifest lang marks m infos) ≡ total_of f infos
  unfolding read_manifest
  read_manifest-keeps lang marks none infos = refl
  read_manifest-keeps lang marks (some none) infos = ensure-total lang infos
  read_manifest-keeps lang marks (some (some text)) infos =
      change-keeps lang (with_frameworks marks text) (ensure lang infos) (frameworks marks text)
      ∙ ensure-total lang infos

  read_all-keeps :
      (lang : String) (marks : Marks) (manifests : List Manifest) (infos : List LanguageInfo)
      → total_of f (read_all lang marks manifests infos) ≡ total_of f infos
  unfolding read_all
  read_all-keeps lang marks [] infos = refl
  read_all-keeps lang marks (m ∷ manifests) infos =
      read_all-keeps lang marks manifests (read_manifest lang marks m infos)
      ∙ read_manifest-keeps lang marks m infos

  read_package-keeps :
      (m : Manifest) (infos : List LanguageInfo)
      → total_of f (read_package m infos) ≡ total_of f infos
  unfolding read_package
  read_package-keeps none infos = refl
  read_package-keeps (some none) infos = refl
  read_package-keeps (some (some text)) infos =
      let g = with_frameworks js_marks text in
      change-keeps "typescript" g (change "javascript" g infos) (frameworks js_marks text)
      ∙ change-keeps "javascript" g infos (frameworks js_marks text)

  detect-keeps :
      (m : Manifests) (infos : List LanguageInfo)
      → total_of f (detect_from_manifests m (detect_frameworks m infos)) ≡ total_of f infos
  unfolding detect_frameworks detect_from_manifests
  detect-keeps m infos =
      let java = read_manifest "java" java_marks m.pom infos in
      let python = read_all "python" python_marks m.python java in
      let php = read_manifest "php" php_marks m.composer python in
      let js = read_package m.package_json php in
      let e =
        read_package-keeps m.package_json php
        ∙ read_manifest-keeps "php" php_marks m.composer python
        ∙ read_all-keeps "python" python_marks m.python java
        ∙ read_manifest-keeps "java" java_marks m.pom infos in
      let g : total_of f (if m.has_gradle then ensure "java" js else js) ≡ total_of f js =
        elim (Bool-cases m.has_gradle) [
          | inl there ↦ rw there (ensure-total "java" js)
          | inr not_there ↦ rw not_there refl
        ] in
      elim (Bool-cases m.has_tsconfig) [
        | inl there ↦
            rw there
              (ensure-total "typescript" (if m.has_gradle then ensure "java" js else js) ∙ g ∙ e)
        | inr not_there ↦ rw not_there (g ∙ e)
      ]

  insert_info-total :
      (i : LanguageInfo) (infos : List LanguageInfo)
      → total_of f (insert_info i infos) ≡ f i + total_of f infos
  unfolding insert_info
  insert_info-total i [] = refl
  insert_info-total i (j ∷ infos) = ground (arith, insert_info-total i infos)

  sort_infos-total : (infos : List LanguageInfo) → total_of f (sort_infos infos) ≡ total_of f infos
  unfolding sort_infos
  sort_infos-total [] = refl
  sort_infos-total (i ∷ infos) =
      omega (arith, insert_info-total i (sort_infos infos), sort_infos-total infos)

  pub counted-total :
      (items : List Item) (m : Manifests)
      → total_of f
          (detect_from_manifests m (detect_frameworks m (count_files count_lines items [])))
        ≡ total_of (gain_of gain) items
  counted-total items m =
      let e = detect-keeps m (count_files count_lines items []) ∙ count_files-total items [] in
      omega (arith, e)

  pub run-total :
      (root : List String) (items : List Item) (m : Manifests)
      → total_of f (detect count_lines root items m).languages
        ≡ total_of (gain_of gain) (walk root items)
  unfolding detect
  run-total root items m = sort_infos-total _ ∙ counted-total (walk root items) m
