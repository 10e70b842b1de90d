-- ===== src/Mapper/Files.antt =====
-- The walk over the repository and the files of each language.
use ai_project.Prelude.{
  ◌≡◌, refl, sym, ap, ◌∙◌, inl, inr, String, Bool, true, false, none, some, List, [], ◌∷◌, ◌++◌,
  keep, str_eq, eq_iff, str_eq_sym, Option-cases, any-append, one_of, Bool-cases, if◌then◌else◌,
  any,
}
use mathlib.Core.List.{append-nil, append_assoc}
use ai_project.Mapper.{skip_dirs, walk_source_files, Item, get, file_under, group, language_of}

-- A file is of a language when its suffix stands for it.
abbrev pub is_in : String → Item → Bool
is_in l i = elim (language_of i) [ none ↦ false | some k ↦ str_eq k l ]

abbrev Files : Type 0
Files = List (String × List Item)

abbrev pub has : String → Files → Bool
has l d = any (λ e. str_eq e.0 l) d

get-file_under :
    (l lang : String) (i : Item) (d : Files)
    → has l d ≡ true
    → get [] l (file_under lang i d) ≡ get [] l d ++ (if str_eq lang l then i ∷ [] else [])
unfolding get file_under
get-file_under l lang i [] h = absurd (cc)
get-file_under l lang i ((j, files) ∷ d) h = elim (Bool-cases (str_eq j l)) [
  | inr q ↦
      let later = get-file_under l lang i d (rw q at h) in
      elim (Bool-cases (str_eq j lang)) [
        | inl e ↦
            let other : str_eq lang l ≡ false =
              ap (λ t. str_eq t l) (sym ((eq_iff j lang).0 e)) ∙ q in
            rw (e, other, q) (sym (append-nil (get [] l d)))
        | inr e ↦ rw (e, q) later
      ]
  | inl q ↦ elim (Bool-cases (str_eq j lang)) [
    | inl e ↦
        let same : str_eq lang l ≡ true = ap (λ t. str_eq t l) (sym ((eq_iff j lang).0 e)) ∙ q in
        rw (e, same, q) refl
    | inr e ↦
        let other : str_eq lang l ≡ false =
          ap (str_eq lang) (sym ((eq_iff j l).0 q)) ∙ str_eq_sym lang j ∙ e in
        rw (e, other, q) (sym (append-nil files))
  ]
]

has-file_under : (l lang : String) (i : Item) (d : Files) → has l (file_under lang i d) ≡ has l d
unfolding file_under
has-file_under l lang i [] = refl
has-file_under l lang i ((j, files) ∷ d) = elim (Bool-cases (str_eq j lang)) [
  | inl e ↦ rw e refl
  | inr e ↦ rw (e, has-file_under l lang i d) refl
]

-- Grouping adds to the files of a language those of that language, in their order.
pub get-group :
    (l : String) (items : List Item) (d : Files)
    → has l d ≡ true
    → get [] l (group items d) ≡ get [] l d ++ keep (is_in l) items
unfolding group
get-group l [] d h = sym (append-nil (get [] l d))
get-group l (i ∷ items) d h = elim (Option-cases (language_of i)) [
  | inl unknown ↦ rw (is_in, unknown) (get-group l items d h)
  | inr (lang, known) ↦
      let earlier =
        get-group l items (file_under lang i d) (has-file_under l lang i d ∙ h)
        ∙ ap (λ files. files ++ keep (is_in l) items) (get-file_under l lang i d h) in
      elim (Bool-cases (str_eq lang l)) [
        | inl e ↦ rw (is_in, known, e) ((rw e at earlier) ∙ append_assoc (get [] l d) (i ∷ []) _)
        | inr e ↦
            rw (is_in, known, e)
              ((rw e at earlier) ∙ ap (λ files. files ++ keep (is_in l) items) (append-nil _))
      ]
]

abbrev pub skips : String → Bool
skips part = one_of part skip_dirs

-- Where the repository lies matters to the walk: when a part of the root's own path is the name of
-- a skipped directory, no file is yielded, whatever the repository holds; otherwise the yielded
-- files are those that would be yielded of the same repository at the top of the file system.
pub walk_source_files-root :
    (root : List String) (items : List Item)
    → (any skips root ≡ true → walk_source_files root items ≡ [])
      × (any skips root ≡ false → walk_source_files root items ≡ walk_source_files [] items)
unfolding walk_source_files
walk_source_files-root root [] = (λ h. refl, λ h. refl)
walk_source_files-root root (i ∷ items) =
    let e = any-append skips root i.relative in
    let (inside, outside) = walk_source_files-root root items in
    (
      λ h. elim (Bool-cases i.is_file) [
        | inl f ↦ rw (e, h, f) (inside h)
        | inr f ↦ rw (e, h, f) (inside h)
      ],
      λ h. rw (e, h, outside h) refl,
    )
