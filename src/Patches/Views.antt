-- ===== src/Patches/Views.antt =====
-- What the listing, the export and the push show of the stored patches and results.
use mathlib.Core.List.{Memᴰ}
use ai_project.Prelude.{
  ℕ, ◌≡◌, ◌≢◌, refl, ap, sym, ◌∙◌, subst, ◌⊎◌, inl, inr, Bool, true, false, ◌&&◌, none, some, List,
  [], ◌∷◌, ◌==◌, ltb, arith, elem, keep, All, keep-keep, keep-within, Bool-cases, Option-cases,
  ==_iff,
}
use ai_project.Patches.{
  Patch, ValidationResult, latest_result, get_validation_passed, max_created_at, is_latest,
  last_row, batch_get_validation_passed, patches_to_push, export_patches,
}

-- The other result is of another patch, or of another time.
abbrev pub Apart : ValidationResult → ValidationResult → Type 0
Apart r s = (s.patch_id ≢ r.patch_id) ⊎ (s.created_at ≢ r.created_at)

-- No two results of the same patch have the same time stamp.
abbrev pub Distinct : List ValidationResult → Type 0
Distinct [] = Unit
Distinct (r ∷ rs) = All (Apart r) rs × Distinct rs

module _ (k : ℕ) where
  -- The time stamp of the latest result is the greatest one.
  latest_result-max :
      (rs : List ValidationResult)
      → max_created_at k rs ≡ elim (latest_result k rs) [ none ↦ none | some r ↦ some r.created_at ]
  unfolding latest_result max_created_at
  latest_result-max [] = refl
  latest_result-max (r ∷ rs) = ground (arith, latest_result-max rs)

  -- The latest result is one of the results of the patch.
  pub latest_result-Mem :
      (b : ValidationResult) (rs : List ValidationResult)
      → latest_result k rs ≡ some b
      → Memᴰ b rs × (b.patch_id ≡ k)
  unfolding latest_result
  latest_result-Mem b [] h = cc
  latest_result-Mem b (r ∷ rs) h = elim (Bool-cases (r.patch_id == k)) [
    | inr other ↦ let (m, own) = latest_result-Mem b rs (rw other at h) in (Memᴰ.tail m, own)
    | inl same ↦ elim (Option-cases (latest_result k rs)) [
      | inl nothing ↦
          let e : r ≡ b = cc (rw (same, nothing) at h) in
          (
            Memᴰ.head (sym e),
            ap (λ (x : ValidationResult). x.patch_id) (sym e) ∙ (==_iff r.patch_id k).0 same,
          )
      | inr (c, found) ↦ elim (Bool-cases (ltb r.created_at c.created_at)) [
        | inl later ↦
            let e : c ≡ b = cc (rw (same, found, later) at h) in
            let (m, own) = latest_result-Mem b rs (found ∙ ap some e) in (Memᴰ.tail m, own)
        | inr first ↦
            let e : r ≡ b = cc (rw (same, found, first) at h) in
            (
              Memᴰ.head (sym e),
              ap (λ (x : ValidationResult). x.patch_id) (sym e) ∙ (==_iff r.patch_id k).0 same,
            )
      ]
    ]
  ]

  module _ (f : ValidationResult → Bool) (b : ValidationResult) (own : b.patch_id ≡ k)
      (test : (r : ValidationResult) → r.patch_id ≡ k → f r ≡ (r.created_at == b.created_at)) where
    -- No result behind the chosen one passes the test.
    last_row-none : (rs : List ValidationResult) → All (Apart b) rs → last_row k (keep f rs) ≡ none
    unfolding last_row
    last_row-none [] apart = refl
    last_row-none (r ∷ rs) (off, apart) =
        let ih = last_row-none rs apart in
        elim (Bool-cases (f r)) [
          | inr fails ↦ rw fails ih
          | inl passes ↦ elim (Bool-cases (r.patch_id == k)) [
            | inr other ↦ rw (passes, ih, other)
            | inl same ↦ absurd (
                let e = (==_iff r.patch_id k).0 same in
                let t = (==_iff r.created_at b.created_at).0 (sym (test r e) ∙ passes) in
                elim off [ inl n ↦ n (e ∙ sym own) | inr n ↦ n t ])
          ]
        ]

    -- The chosen result is the one that the dictionary keeps.
    last_row-picks :
        (rs : List ValidationResult)
        → Distinct rs
        → Memᴰ b rs
        → last_row k (keep f rs) ≡ some b.passed
    unfolding last_row
    last_row-picks [] distinct m = elim m [ ]
    last_row-picks (r ∷ rs) distinct (Memᴰ.head e) =
        let passes : f b ≡ true = test b own ∙ (==_iff b.created_at b.created_at).1 refl in
        let behind = last_row-none rs (subst (λ x. All (Apart x) rs) (sym e) distinct.0) in
        rw (sym e, passes, behind, (==_iff b.patch_id k).1 own)
    last_row-picks (r ∷ rs) distinct (Memᴰ.tail m) =
        let ih = last_row-picks rs distinct.1 m in
        elim (Bool-cases (f r)) [ inl passes ↦ rw (passes, ih) | inr fails ↦ rw (fails, ih) ]

  -- Where there is no latest result, no row is of the patch.
  pub latest_result-absent :
      (r : ValidationResult) (rs : List ValidationResult)
      → latest_result k (r ∷ rs) ≡ none
      → ((r.patch_id == k) ≡ false) × (latest_result k rs ≡ none)
  unfolding latest_result
  latest_result-absent r rs h = elim (Bool-cases (r.patch_id == k)) [
    | inr other ↦ (other, rw other at h)
    | inl same ↦ elim (Option-cases (latest_result k rs)) [
      | inl nothing ↦ absurd (let bad : some r ≡ none = rw (same, nothing) at h in cc)
      | inr (c, found) ↦ elim (Bool-cases (ltb r.created_at c.created_at)) [
        | inl later ↦ absurd (let bad : some c ≡ none = rw (same, found, later) at h in cc)
        | inr first ↦ absurd (let bad : some r ≡ none = rw (same, found, first) at h in cc)
      ]
    ]
  ]

  -- A patch without a result has no row in any selection.
  last_row-absent :
      (f : ValidationResult → Bool) (rs : List ValidationResult)
      → latest_result k rs ≡ none
      → last_row k (keep f rs) ≡ none
  unfolding last_row
  last_row-absent f [] h = refl
  last_row-absent f (r ∷ rs) h =
      let (other, rest) = latest_result-absent r rs h in
      let ih = last_row-absent f rs rest in
      elim (Bool-cases (f r)) [ inl passes ↦ rw (passes, ih, other) | inr fails ↦ rw fails ih ]

-- The join of `_batch_get_validation_passed`, as one selection.
abbrev joined : List ℕ → List ValidationResult → ValidationResult → Bool
joined ids results r = elem r.patch_id ids && is_latest results r

-- A row is a latest one when its time stamp is that of the latest result.
pub is_latest_iff :
    (results : List ValidationResult) (k : ℕ) (b r : ValidationResult)
    → latest_result k results ≡ some b
    → r.patch_id ≡ k
    → is_latest results r ≡ (r.created_at == b.created_at)
unfolding is_latest
is_latest_iff results k b r found own =
    let m : max_created_at k results ≡ some b.created_at =
      rw found at (latest_result-max k results) in
    let m' = subst (λ j. max_created_at j results ≡ some b.created_at) (sym own) m in
    rw (is_latest, m') refl

joined-test :
    (ids : List ℕ) (results : List ValidationResult) (k : ℕ) (b r : ValidationResult)
    → elem k ids ≡ true
    → latest_result k results ≡ some b
    → r.patch_id ≡ k
    → joined ids results r ≡ (r.created_at == b.created_at)
joined-test ids results k b r asked found own =
    rw (subst (λ j. elem j ids ≡ true) (sym own) asked) (is_latest_iff results k b r found own)

-- The validation flag that the listing shows for a patch of the page, from one query for the whole
-- page, is the one that the detail view shows for it, where no two results of a patch have the same
-- time stamp.
batch_get-agrees :
    (ids : List ℕ) (results : List ValidationResult) (k : ℕ)
    → Distinct results
    → elem k ids ≡ true
    → batch_get_validation_passed ids results k ≡ get_validation_passed k results
unfolding batch_get_validation_passed get_validation_passed
batch_get-agrees ids results k distinct asked =
    let e = ap (last_row k) (keep-keep (is_latest results) (λ r. elem r.patch_id ids) results) in
    elim (Option-cases (latest_result k results)) [
      | inl nothing ↦
          rw (get_validation_passed, nothing)
            (e ∙ last_row-absent k (joined ids results) results nothing)
      | inr (b, found) ↦
          let (m, own) = latest_result-Mem k b results found in
          rw (get_validation_passed, found)
            (e
              ∙ last_row-picks k (joined ids results) b own
                  (λ r mine. joined-test ids results k b r asked found mine) results distinct m)
    ]

-- Pushing and exporting agree: the patches that are pushed are, whether chosen by identifiers or
-- not, a selection from the exported patches of the job.
patches_to_push-from-export :
    (ids : List ℕ) (job_id : ℕ) (patches : List Patch)
    → patches_to_push ids job_id (export_patches job_id patches)
      ≡ patches_to_push ids job_id patches
unfolding patches_to_push export_patches
patches_to_push-from-export [] job_id patches = keep-within _ _ patches (λ p. ground arith)
patches_to_push-from-export (i ∷ ids) job_id patches = keep-within _ _ patches (λ p. ground arith)
