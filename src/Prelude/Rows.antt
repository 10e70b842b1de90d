-- ===== src/Prelude/Rows.antt =====
-- Tables: lists of rows with a number for a key. An update of a loaded object rewrites its row.
use ai_project.Prelude.Tests.{◌==◌, ==_iff, if◌then◌else◌, Bool-cases}
use ai_project.Prelude.Lists.{All, total_of, count_if}
use Prim.Native.Nat.{ℕ, ◌+◌, ◌<◌}
use mathlib.Core.Path.{◌≡◌, refl, ◌∙◌, subst}
use mathlib.Core.Logic.{inl, inr}
use mathlib.Core.Bool.{Bool, true, false}
use mathlib.Core.List.{List, [], ◌∷◌}
use mathlib.Core.Option.{Option, none, some}
use native.Mathlib.Omega.{arith}

module _ {ℓ} {A : Type ℓ} where
  if_twice : (b : Bool) (x y z : A) → (if b then x else z) ≡ (if b then x else (if b then y else z))
  if_twice true x y z = refl
  if_twice false x y z = refl

  if_swap :
      (b c : Bool) (x y z : A)
      → ¬ ((b ≡ true) × (c ≡ true))
      → (if b then x else (if c then y else z)) ≡ (if c then y else (if b then x else z))
  if_swap true true x y z h = absurd (h (refl, refl))
  if_swap true false x y z h = refl
  if_swap false c x y z h = refl

module _ {ℓ} {A : Type ℓ} (key : A → ℕ) where
  -- `select(A).where(A.id == k)`, at most one row
  abbrev pub find_row : ℕ → List A → Option A
  find_row k [] = none
  find_row k (r ∷ rs) = let later = find_row k rs in if key r == k then some r else later

  abbrev pub replace_row : A → List A → List A
  replace_row v [] = []
  replace_row v (r ∷ rs) =
      let later = replace_row v rs in if key r == key v then v ∷ rs else r ∷ later

  pub find_row-key : (k : ℕ) (rs : List A) (r : A) → find_row k rs ≡ some r → key r ≡ k
  find_row-key k [] r h = cc
  find_row-key k (x ∷ rs) r h = elim (Bool-cases (key x == k)) [
    | inl same ↦ let e : key r ≡ key x = cc (rw same at h) in e ∙ (==_iff (key x) k).0 same
    | inr other ↦ find_row-key k rs r (rw other at h)
  ]

  -- A look-up after an update finds the new row at its key, and the old row at any other.
  pub find_row-replace_row :
      (v : A) (k : ℕ) (rs : List A) (r : A)
      → find_row (key v) rs ≡ some r
      → find_row k (replace_row v rs) ≡ (if key v == k then some v else find_row k rs)
  find_row-replace_row v k [] r h = cc
  find_row-replace_row v k (x ∷ rs) r h = elim (Bool-cases (key x == key v)) [
    | inl same ↦
        rw (same, (==_iff (key x) (key v)).0 same)
          (if_twice (key v == k) (some v) (some x) (find_row k rs))
    | inr other ↦
        let ih = find_row-replace_row v k rs r (rw other at h) in
        rw (other, ih)
          (if_swap (key x == k) (key v == k) (some x) (some v) (find_row k rs)
            (λ (p, q). ground arith))
  ]

  pub All-replace_row {κ} :
      (P : A → Type κ) (v : A) (rs : List A) → P v → All P rs → All P (replace_row v rs)
  All-replace_row P v [] p h = tt
  All-replace_row P v (x ∷ rs) p h = elim (Bool-cases (key x == key v)) [
    | inl same ↦ rw same (p, h.1)
    | inr other ↦ rw other (h.0, All-replace_row P v rs p h.1)
  ]

  -- An update takes the old row out of a sum, and puts the new one in.
  pub total_of-replace_row :
      (f : A → ℕ) (v : A) (rs : List A) (r : A)
      → find_row (key v) rs ≡ some r
      → total_of f (replace_row v rs) + f r ≡ total_of f rs + f v
  total_of-replace_row f v [] r h = cc
  total_of-replace_row f v (x ∷ rs) r h = elim (Bool-cases (key x == key v)) [
    | inl same ↦ let e : x ≡ r = cc (rw same at h) in rw (same, e) (omega arith)
    | inr other ↦
        let later = total_of-replace_row f v rs r (rw other at h) in rw other (omega (arith, later))
  ]

  pub All-find_row {κ} :
      (P : A → Type κ) (k : ℕ) (rs : List A) (r : A) → find_row k rs ≡ some r → All P rs → P r
  All-find_row P k [] r found h = cc
  All-find_row P k (x ∷ rs) r found h = elim (Bool-cases (key x == k)) [
    | inl same ↦ let e : x ≡ r = cc (rw same at found) in subst P e h.0
    | inr other ↦ All-find_row P k rs r (rw other at found) h.1
  ]

  -- A key above all the others is that of no row.
  pub count_if-above :
      (k : ℕ) (rs : List A) → All (λ r. key r < k) rs → count_if (λ r. key r == k) rs ≡ 0
  count_if-above k [] h = refl
  count_if-above k (r ∷ rs) h = ground (arith, h.0, count_if-above k rs h.1)

  pub count_if-replace_row :
      (k : ℕ) (v : A) (rs : List A) (r : A)
      → find_row (key v) rs ≡ some r
      → count_if (λ x. key x == k) (replace_row v rs) ≡ count_if (λ x. key x == k) rs
  count_if-replace_row k v [] r found = cc
  count_if-replace_row k v (x ∷ rs) r found = elim (Bool-cases (key x == key v)) [
    | inl same ↦ rw (same, (==_iff (key x) (key v)).0 same) refl
    | inr other ↦
        let later = count_if-replace_row k v rs r (rw other at found) in
        rw other (ground (arith, later))
  ]
