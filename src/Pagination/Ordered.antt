-- ===== src/Pagination/Ordered.antt =====
-- What a database promises of `ORDER BY`, and when that settles the order of the rows.
use mathlib.Core.List.{Memᴰ, Permᴰ}
use mathlib.Core.List.Memᴰ
use mathlib.Core.List.Permᴰ
use ai_project.Prelude.{
  ℕ, suc, length, ◌≤◌, ◌<◌, ◌≡◌, refl, sym, ap, ◌∙◌, subst, inl, inr, true, List, [], ◌∷◌, ◌==◌,
  ==_iff, All, Memᴰ-All, count_if, Bool-cases, arith,
}

module _ {ℓ} {A : Type ℓ} where
  pub length-Perm : {xs ys : List A} → Permᴰ xs ys → length xs ≡ length ys
  length-Perm Permᴰ.nil = refl
  length-Perm (Permᴰ.cons e p) = ap suc (length-Perm p)
  length-Perm (Permᴰ.swap e f) = refl
  length-Perm (Permᴰ.trans p q) = length-Perm p ∙ length-Perm q

module _ {ℓ} {A : Type ℓ} (rank : A → ℕ) where
  abbrev pub IsAscending : List A → Type 0
  IsAscending [] = Unit
  IsAscending (x ∷ xs) = All (λ y. rank x ≤ rank y) xs × IsAscending xs

  -- The rows as a query sorts them by a key: all of them, each as often as it is there, with ascending
  -- keys. In which order rows of equal keys come is left open. `rank` numbers the keys.
  abbrev pub IsSorted : (rows sorted : List A) → Type ℓ
  IsSorted rows sorted = Permᴰ sorted rows × IsAscending sorted

  -- No two rows have the same key.
  abbrev pub IsUntied : List A → Type 0
  IsUntied rows = (n : ℕ) → count_if (λ x. rank x == n) rows ≤ 1

  abbrev Strict : List A → Type 0
  Strict [] = Unit
  Strict (x ∷ xs) = All (λ y. rank x < rank y) xs × Strict xs

  count_if-Perm :
      (n : ℕ) {xs ys : List A}
      → Permᴰ xs ys
      → count_if (λ x. rank x == n) xs ≡ count_if (λ x. rank x == n) ys
  count_if-Perm n Permᴰ.nil = refl
  count_if-Perm n (Permᴰ.cons e p) = rw (ap rank e) (ground (arith, count_if-Perm n p))
  count_if-Perm n (Permᴰ.swap e f) = rw (ap rank e, ap rank f) (ground arith)
  count_if-Perm n (Permᴰ.trans p q) = count_if-Perm n p ∙ count_if-Perm n q

  Perm-Memᴰ : (a : A) {xs ys : List A} → Permᴰ xs ys → Memᴰ a xs → Memᴰ a ys
  Perm-Memᴰ a Permᴰ.nil m = m
  Perm-Memᴰ a (Permᴰ.cons e p) m = elim (Memᴰ.cases_cons m) [
    | inl first ↦ Memᴰ.head (first ∙ e)
    | inr later ↦ Memᴰ.tail (Perm-Memᴰ a p later)
  ]
  Perm-Memᴰ a (Permᴰ.swap e f) m = elim (Memᴰ.cases_cons m) [
    | inl first ↦ Memᴰ.tail (Memᴰ.head (first ∙ e))
    | inr later ↦ elim (Memᴰ.cases_cons later) [
      | inl second ↦ Memᴰ.head (second ∙ f)
      | inr behind ↦ Memᴰ.tail (Memᴰ.tail behind)
    ]
  ]
  Perm-Memᴰ a (Permᴰ.trans p q) m = Perm-Memᴰ a q (Perm-Memᴰ a p m)

  above :
      (x : A) (ys : List A)
      → All (λ y. rank x ≤ rank y) ys
      → count_if (λ y. rank y == rank x) ys ≡ 0
      → All (λ y. rank x < rank y) ys
  above x [] h c = tt
  above x (y ∷ ys) h c = elim (Bool-cases (rank y == rank x)) [
    | inl same ↦ absurd (let bad = rw same at c in omega (arith, bad))
    | inr other ↦ (ground (arith, h.0, other), above x ys h.1 (rw other at c))
  ]

  ascending-Strict : (xs : List A) → IsAscending xs → IsUntied xs → Strict xs
  ascending-Strict [] h u = tt
  ascending-Strict (x ∷ xs) h u =
      let one = u (rank x) in
      let self : (rank x == rank x) ≡ true = (==_iff (rank x) (rank x)).1 refl in
      let none_other : count_if (λ y. rank y == rank x) xs ≡ 0 = omega (arith, rw self at one) in
      (above x xs h.0 none_other, ascending-Strict xs h.1 (λ n. ground (arith, u n)))

  Strict-equal :
      (xs ys : List A)
      → Strict xs
      → Strict ys
      → ((a : A) → Memᴰ a xs → Memᴰ a ys)
      → ((a : A) → Memᴰ a ys → Memᴰ a xs)
      → xs ≡ ys
  Strict-equal [] [] h k f g = refl
  Strict-equal [] (y ∷ ys) h k f g = absurd (Memᴰ.not-nil (g y (Memᴰ.head refl)))
  Strict-equal (x ∷ xs) [] h k f g = absurd (Memᴰ.not-nil (f x (Memᴰ.head refl)))
  Strict-equal (x ∷ xs) (y ∷ ys) h k f g =
      let e : x ≡ y = elim (Memᴰ.cases_cons (f x (Memᴰ.head refl))) [
        | inl same ↦ same
        | inr later ↦ elim (Memᴰ.cases_cons (g y (Memᴰ.head refl))) [
          | inl same ↦ sym same
          | inr behind ↦
              let lt = Memᴰ-All (λ z. rank y < rank z) x ys later k.0 in
              let gt = Memᴰ-All (λ z. rank x < rank z) y xs behind h.0 in
              absurd (omega (arith, lt, gt))
        ]
      ] in
      let tails : xs ≡ ys =
        Strict-equal xs ys h.1 k.1
          (λ a m. elim (Memᴰ.cases_cons (f a (Memᴰ.tail m))) [
            | inr later ↦ later
            | inl same ↦
                let lt = Memᴰ-All (λ z. rank x < rank z) a xs m h.0 in
                absurd (omega (arith, lt, ap rank same, ap rank e))
          ])
          (λ a m. elim (Memᴰ.cases_cons (g a (Memᴰ.tail m))) [
            | inr later ↦ later
            | inl same ↦
                let lt = Memᴰ-All (λ z. rank y < rank z) a ys m k.0 in
                absurd (omega (arith, lt, ap rank same, ap rank e))
          ]) in
      ap (λ z. z ∷ xs) e ∙ ap (λ zs. y ∷ zs) tails

  -- Without ties there is one way to sort.
  pub sorted_unique :
      (rows xs ys : List A) → IsUntied rows → IsSorted rows xs → IsSorted rows ys → xs ≡ ys
  sorted_unique rows xs ys untied (p, a) (q, b) =
      let untied_by : (zs : List A) → Permᴰ zs rows → IsUntied zs =
        λ zs r n. subst (λ c. c ≤ 1) (sym (count_if-Perm n r)) (untied n) in
      Strict-equal xs ys (ascending-Strict xs a (untied_by xs p))
        (ascending-Strict ys b (untied_by ys q))
        (λ z m. Perm-Memᴰ z (Permᴰ.symm q) (Perm-Memᴰ z p m))
        (λ z m. Perm-Memᴰ z (Permᴰ.symm p) (Perm-Memᴰ z q m))
