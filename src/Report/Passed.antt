-- ===== src/Report/Passed.antt =====
-- The patches that passed, as a report counts them from the rows of its join.
use mathlib.Core.List.{Memᴰ}
use ai_project.Prelude.{
  Memᴰ-All, ℕ, suc, ◌+◌, ◌≡◌, refl, sym, ◌∙◌, subst, inl, inr, Bool, true, false, ◌&&◌, none, some,
  List, [], ◌∷◌, ◌==◌, ==_iff, keep, map, elem, count_if, length, ltb, All, arith, Bool-cases,
  Option-cases, if◌then◌else◌,
}
use ai_project.Patches.{Patch, ValidationResult, latest_result, is_latest, get_validation_passed}
use ai_project.Patches.Views.{
  Apart, Distinct, latest_result-Mem, latest_result-absent, is_latest_iff,
}
use ai_project.Report.{patches_passed_of}

-- The latest result of the patch says that it passed.
abbrev pub is_passed : List ValidationResult → ℕ → Bool
is_passed results k = elim (get_validation_passed k results) [ none ↦ false | some b ↦ b ]

abbrev pub id_of : Patch → ℕ
id_of p = p.id

-- No identifier comes twice.
abbrev pub Unique : List ℕ → Type 0
Unique [] = Unit
Unique (i ∷ ids) = (elem i ids ≡ false) × Unique ids

pub test_counts : (b : Bool) (n : ℕ) → (if b then suc n else n) ≡ (if b then 1 else 0) + n
test_counts true n = omega arith
test_counts false n = omega arith

module _ {ℓ} {A : Type ℓ} where
  count_if-same :
      (f g : A → Bool) → ((x : A) → f x ≡ g x) → (xs : List A) → count_if f xs ≡ count_if g xs
  count_if-same f g e [] = refl
  count_if-same f g e (x ∷ xs) = rw (e x, count_if-same f g e xs) refl

  count_if-keep :
      (p f : A → Bool) (xs : List A) → count_if p (keep f xs) ≡ count_if (λ x. f x && p x) xs
  count_if-keep p f [] = refl
  count_if-keep p f (x ∷ xs) = ground (arith, count_if-keep p f xs)

-- Among rows of a patch k that all differ from its row b in their time stamps, none is at that time.
module _ (k : ℕ) (b : ValidationResult) (own : b.patch_id ≡ k) where
  -- The row is of the patch, has the time stamp of the latest one, and passed.
  abbrev is_chosen : ValidationResult → Bool
  is_chosen r = (r.patch_id == k) && ((r.created_at == b.created_at) && r.passed)

  not_chosen :
      (r : ValidationResult)
      → ¬ ((r.patch_id ≡ k) × (r.created_at ≡ b.created_at))
      → is_chosen r ≡ false
  not_chosen r h = ground arith

  chosen-none : (rs : List ValidationResult) → All (Apart b) rs → count_if is_chosen rs ≡ 0
  chosen-none [] apart = refl
  chosen-none (r ∷ rs) (off, apart) =
      let out = not_chosen r (λ (same, t). elim off [ inl n ↦ n (same ∙ sym own) | inr n ↦ n t ]) in
      rw out (chosen-none rs apart)

  chosen-once :
      (rs : List ValidationResult)
      → Distinct rs
      → Memᴰ b rs
      → count_if is_chosen rs ≡ (if b.passed then 1 else 0)
  chosen-once [] distinct m = elim m [ ]
  chosen-once (r ∷ rs) distinct (Memᴰ.head e) =
      let rest = chosen-none rs (subst (λ x. All (Apart x) rs) (sym e) distinct.0) in
      let at : (b.created_at == b.created_at) ≡ true = ground arith in
      rw (sym e, (==_iff b.patch_id k).1 own, at, rest) refl
  chosen-once (r ∷ rs) distinct (Memᴰ.tail m) =
      let off = Memᴰ-All (Apart r) b rs m distinct.0 in
      let out =
        not_chosen r (λ (same, t). elim off [ inl n ↦ n (own ∙ sym same) | inr n ↦ n (sym t) ]) in
      rw out (chosen-once rs distinct.1 m)

-- A patch without a result has no row.
absent-none :
    (k : ℕ) (q : ValidationResult → Bool) (rs : List ValidationResult)
    → latest_result k rs ≡ none
    → count_if (λ r. (r.patch_id == k) && q r) rs ≡ 0
absent-none k q [] h = refl
absent-none k q (r ∷ rs) h =
    let (other, rest) = latest_result-absent k r rs h in rw other (absent-none k q rs rest)

-- Of the latest rows of one patch, at most one passed, and it does when the patch is passed.
passed-once :
    (results : List ValidationResult) (k : ℕ)
    → Distinct results
    → count_if (λ r. (r.patch_id == k) && (is_latest results r && r.passed)) results
      ≡ (if is_passed results k then 1 else 0)
unfolding get_validation_passed
passed-once results k distinct = elim (Option-cases (latest_result k results)) [
  | inl nothing ↦
      rw (is_passed, get_validation_passed, nothing)
        (absent-none k (λ r. is_latest results r && r.passed) results nothing)
  | inr (b, found) ↦
      let (m, own) = latest_result-Mem k b results found in
      let same : (r : ValidationResult)
          → ((r.patch_id == k) && (is_latest results r && r.passed)) ≡ is_chosen k b own r =
        λ r. elim (Bool-cases (r.patch_id == k)) [
          | inr other ↦ rw other refl
          | inl mine ↦
              rw (mine, is_latest_iff results k b r found ((==_iff r.patch_id k).0 mine)) refl
        ] in
      rw (is_passed, get_validation_passed, found)
        (count_if-same (λ r. (r.patch_id == k) && (is_latest results r && r.passed))
            (is_chosen k b own) same results
          ∙ chosen-once k b own results distinct m)
]

-- The rows of several patches, one patch after the other.
elem-first :
    (i : ℕ) (ids : List ℕ) (q : ValidationResult → Bool) (rs : List ValidationResult)
    → elem i ids ≡ false
    → count_if (λ r. elem r.patch_id (i ∷ ids) && q r) rs
      ≡ count_if (λ r. (r.patch_id == i) && q r) rs + count_if (λ r. elem r.patch_id ids && q r) rs
elem-first i ids q [] new = omega arith
elem-first i ids q (r ∷ rs) new =
    let ih = elem-first i ids q rs new in
    elim (Bool-cases (r.patch_id == i)) [
      | inl mine ↦
          let out = subst (λ j. elem j ids ≡ false) (sym ((==_iff r.patch_id i).0 mine)) new in
          rw (mine, out) (ground (arith, ih))
      | inr other ↦ rw other (ground (arith, ih))
    ]

none_asked :
    (q : ValidationResult → Bool) (rs : List ValidationResult) → count_if (λ r. false && q r) rs ≡ 0
none_asked q [] = refl
none_asked q (r ∷ rs) = none_asked q rs

-- The join, as one count over the results.
patches_passed_of_sum :
    (ids : List ℕ) (results : List ValidationResult)
    → patches_passed_of ids results
      ≡ count_if (λ r. elem r.patch_id ids && (is_latest results r && r.passed)) results
unfolding patches_passed_of
patches_passed_of_sum ids results =
    let asked = λ (r : ValidationResult). elem r.patch_id ids in
    count_if-keep (λ (r : ValidationResult). r.passed) (is_latest results) (keep asked results)
    ∙ count_if-keep (λ (r : ValidationResult). is_latest results r && r.passed) asked results

each-once :
    (patches : List Patch) (results : List ValidationResult)
    → Distinct results
    → Unique (map id_of patches)
    → count_if
        (λ r. elem r.patch_id (map id_of patches) && (is_latest results r && r.passed))
        results
      ≡ count_if (λ p. is_passed results p.id) patches
each-once [] results distinct unique = none_asked (λ r. is_latest results r && r.passed) results
each-once (p ∷ patches) results distinct (new, unique) =
    let q = λ (r : ValidationResult). is_latest results r && r.passed in
    omega (
      arith,
      elem-first p.id (map id_of patches) q results new,
      passed-once results p.id distinct,
      each-once patches results distinct unique,
      test_counts (is_passed results p.id)
          (count_if (λ (p : Patch). is_passed results p.id) patches),
    )

absent-keep :
    (i : ℕ) (f : Patch → Bool) (patches : List Patch)
    → elem i (map id_of patches) ≡ false
    → elem i (map id_of (keep f patches)) ≡ false
absent-keep i f [] new = refl
absent-keep i f (p ∷ patches) new = elim (Bool-cases (i == p.id)) [
  | inl same ↦ cc (rw same at new)
  | inr other ↦
      let ih = absent-keep i f patches (rw other at new) in
      elim (Bool-cases (f p)) [ inl kept ↦ rw (kept, other) ih | inr left ↦ rw left ih ]
]

pub Unique-keep :
    (f : Patch → Bool) (patches : List Patch)
    → Unique (map id_of patches)
    → Unique (map id_of (keep f patches))
Unique-keep f [] unique = tt
Unique-keep f (p ∷ patches) (new, unique) = elim (Bool-cases (f p)) [
  | inl kept ↦ rw kept (absent-keep p.id f patches new, Unique-keep f patches unique)
  | inr left ↦ rw left (Unique-keep f patches unique)
]

-- The number that passed, with its guard for a job without patches.
pub guarded_passed :
    (patches : List Patch) (results : List ValidationResult)
    → Distinct results
    → Unique (map id_of patches)
    → (if ltb 0 (length patches) then patches_passed_of (map id_of patches) results else 0)
      ≡ count_if (λ p. is_passed results p.id) patches
guarded_passed [] results distinct unique = refl
guarded_passed (p ∷ patches) results distinct unique =
    let pos : ltb 0 (length (p ∷ patches)) ≡ true = ground arith in
    rw pos (
      patches_passed_of_sum (map id_of (p ∷ patches)) results
      ∙ each-once (p ∷ patches) results distinct unique)
