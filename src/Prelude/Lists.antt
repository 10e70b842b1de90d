-- ===== src/Prelude/Lists.antt =====
-- Lists under native indices, and the Boolean list tests of the source (`in`, `any`, `all`).
use ai_project.Prelude.Tests.{◌==◌, if◌then◌else◌, Bool-cases}
use mathlib.Core.Logic.{◌⊎◌, inl, inr}
use Prim.Native.Nat.{ℕ, zero, suc, ◌+◌, ◌-◌, ◌≤◌, min}
use mathlib.Core.Path.{◌≡◌, refl, sym, ap, ◌∙◌, subst}
use mathlib.Core.Bool.{Bool, true, false, ◌&&◌, ◌||◌}
use mathlib.Core.List.{Memᴰ}
use mathlib.Core.List.Memᴰ
use mathlib.Core.List.{List, [], ◌∷◌, ◌++◌, map}
use native.Mathlib.Omega.{arith}

module _ {ℓ} {A : Type ℓ} where
  abbrev pub length : List A → ℕ
  length [] = 0
  length (x ∷ xs) = suc (length xs)

  abbrev pub take : ℕ → List A → List A
  take zero xs = []
  take (suc n) [] = []
  take (suc n) (x ∷ xs) = x ∷ take n xs

  abbrev pub drop : ℕ → List A → List A
  drop zero xs = xs
  drop (suc n) [] = []
  drop (suc n) (x ∷ xs) = drop n xs

  -- `[x for x in xs if p x]`
  abbrev pub keep : (A → Bool) → List A → List A
  keep p [] = []
  keep p (x ∷ xs) = if p x then x ∷ keep p xs else keep p xs

  -- `sum(1 for x in xs if p x)`
  abbrev pub count_if : (A → Bool) → List A → ℕ
  count_if p [] = 0
  count_if p (x ∷ xs) = if p x then suc (count_if p xs) else count_if p xs

  abbrev pub any : (A → Bool) → List A → Bool
  any p [] = false
  any p (x ∷ xs) = p x || any p xs

  abbrev pub all : (A → Bool) → List A → Bool
  all p [] = true
  all p (x ∷ xs) = p x && all p xs

  abbrev pub All {κ} : (A → Type κ) → List A → Type κ
  All P [] = Unit
  All P (x ∷ xs) = P x × All P xs

  -- the lists one after the other
  abbrev pub concat : List (List A) → List A
  concat [] = []
  concat (xs ∷ xss) = xs ++ concat xss

  pub length-append : (xs ys : List A) → length (xs ++ ys) ≡ length xs + length ys
  length-append [] ys = omega arith
  length-append (x ∷ xs) ys = omega (arith, length-append xs ys)

  pub take-append-drop : (n : ℕ) (xs : List A) → take n xs ++ drop n xs ≡ xs
  take-append-drop zero xs = refl
  take-append-drop (suc n) [] = refl
  take-append-drop (suc n) (x ∷ xs) = ap (λ ys. x ∷ ys) (take-append-drop n xs)

  pub length-take : (n : ℕ) (xs : List A) → length (take n xs) ≡ min n (length xs)
  length-take zero xs = omega arith
  length-take (suc n) [] = omega arith
  length-take (suc n) (x ∷ xs) = omega (arith, length-take n xs)

  pub length-drop : (n : ℕ) (xs : List A) → length (drop n xs) ≡ length xs - n
  length-drop zero xs = omega arith
  length-drop (suc n) [] = omega arith
  length-drop (suc n) (x ∷ xs) = omega (arith, length-drop n xs)

  pub length-keep : (p : A → Bool) (xs : List A) → length (keep p xs) ≡ count_if p xs
  length-keep p [] = refl
  length-keep p (x ∷ xs) = ground (arith, length-keep p xs)

  pub count_if-le-length : (p : A → Bool) (xs : List A) → count_if p xs ≤ length xs
  count_if-le-length p [] = omega arith
  count_if-le-length p (x ∷ xs) = ground (arith, count_if-le-length p xs)

  pub count_if-append :
      (p : A → Bool) (xs ys : List A) → count_if p (xs ++ ys) ≡ count_if p xs + count_if p ys
  count_if-append p [] ys = omega arith
  count_if-append p (x ∷ xs) ys = ground (arith, count_if-append p xs ys)

  pub any-append : (p : A → Bool) (xs ys : List A) → any p (xs ++ ys) ≡ (any p xs || any p ys)
  any-append p [] ys = refl
  any-append p (x ∷ xs) ys = ground (arith, any-append p xs ys)

-- `x in xs`, over identifiers
abbrev pub elem : ℕ → List ℕ → Bool
elem x [] = false
elem x (y ∷ ys) = x == y || elem x ys

pub elem-append : (x : ℕ) (xs ys : List ℕ) → elem x (xs ++ ys) ≡ (elem x xs || elem x ys)
elem-append x [] ys = refl
elem-append x (y ∷ xs) ys = ground (arith, elem-append x xs ys)

module _ {ℓ} {A : Type ℓ} (p : A → Bool) where
  abbrev pub Holds : A → Type 0
  Holds x = p x ≡ true

  pub keep-append : (xs ys : List A) → keep p (xs ++ ys) ≡ keep p xs ++ keep p ys
  keep-append [] ys = refl
  keep-append (x ∷ xs) ys = elim (Bool-cases (p x)) [
    | inl e ↦ rw e (ap (λ zs. x ∷ zs) (keep-append xs ys))
    | inr e ↦ rw e (keep-append xs ys)
  ]

module _ {ℓ} {A : Type ℓ} (f g : A → Bool) where
  pub keep-keep : (xs : List A) → keep f (keep g xs) ≡ keep (λ x. g x && f x) xs
  keep-keep [] = refl
  keep-keep (x ∷ xs) = elim (Bool-cases (g x)) [
    | inr e ↦ rw e (keep-keep xs)
    | inl e ↦ elim (Bool-cases (f x)) [
      | inl q ↦ rw (e, q) (ap (λ zs. x ∷ zs) (keep-keep xs))
      | inr q ↦ rw (e, q) (keep-keep xs)
    ]
  ]

  -- A selection is unchanged by one that it is stricter than.
  pub keep-within :
      (xs : List A) → ((x : A) → (f x ≡ false) ⊎ (g x ≡ true)) → keep f (keep g xs) ≡ keep f xs
  keep-within [] h = refl
  keep-within (x ∷ xs) h = elim (Bool-cases (g x)) [
    | inl e ↦ elim (Bool-cases (f x)) [
      | inl q ↦ rw (e, q) (ap (λ zs. x ∷ zs) (keep-within xs h))
      | inr q ↦ rw (e, q) (keep-within xs h)
    ]
    | inr e ↦ elim (h x) [ inl q ↦ rw (e, q) (keep-within xs h) | inr q ↦ absurd (cc) ]
  ]

module _ {ℓ} {A : Type ℓ} (p : A → Bool) where
  -- The elements of a selection are those of the list that pass its test.
  pub Mem-keep : (k : A) (keys : List A) → Memᴰ k (keep p keys) → Memᴰ k keys × (p k ≡ true)
  Mem-keep k [] m = absurd (Memᴰ.not-nil m)
  Mem-keep k (j ∷ keys) m = elim (Bool-cases (p j)) [
    | inr dropped ↦ let (m', e) = Mem-keep k keys (rw (keep, dropped) at m) in (Memᴰ.tail m', e)
    | inl kept ↦
        let n : Memᴰ k (j ∷ keep p keys) = rw (keep, kept) at m in
        elim (Memᴰ.cases_cons n) [
          | inl e ↦ (Memᴰ.head e, ap p e ∙ kept)
          | inr later ↦ let (m', e) = Mem-keep k keys later in (Memᴰ.tail m', e)
        ]
  ]

  pub Mem-kept : (k : A) (keys : List A) → Memᴰ k keys → p k ≡ true → Memᴰ k (keep p keys)
  Mem-kept k [] m h = m
  Mem-kept k (j ∷ keys) m h = elim (Memᴰ.cases_cons m) [
    | inl e ↦ rw (keep, sym (ap p e) ∙ h) (Memᴰ.head e)
    | inr later ↦ elim (Bool-cases (p j)) [
      | inl kept ↦ rw (keep, kept) (Memᴰ.tail (Mem-kept k keys later h))
      | inr dropped ↦ rw (keep, dropped) (Mem-kept k keys later h)
    ]
  ]

module _ {ℓ κ} {A : Type ℓ} (P : A → Type κ) where
  pub All-append : (xs ys : List A) → All P xs → All P ys → All P (xs ++ ys)
  All-append [] ys h k = k
  All-append (x ∷ xs) ys h k = (h.0, All-append xs ys h.1 k)

module _ {ℓ κ} {A : Type ℓ} {B : Type κ} where
  pub length-map : (f : A → B) (xs : List A) → length (map f xs) ≡ length xs
  length-map f [] = refl
  length-map f (x ∷ xs) = ap suc (length-map f xs)

module _ {ℓ κ μ} {A : Type ℓ} (P : A → Type κ) (Q : A → Type μ) where
  pub All-imply : ((x : A) → P x → Q x) → (xs : List A) → All P xs → All Q xs
  All-imply f [] h = tt
  All-imply f (x ∷ xs) h = (f x h.0, All-imply f xs h.1)

module _ {ℓ κ} {A : Type ℓ} {B : Type κ} (f : A → B) where
  pub map-append : (xs ys : List A) → map f (xs ++ ys) ≡ map f xs ++ map f ys
  map-append [] ys = refl
  map-append (x ∷ xs) ys = ap (λ zs. f x ∷ zs) (map-append xs ys)

  pub map-concat : (xss : List (List A)) → concat (map (map f) xss) ≡ map f (concat xss)
  map-concat [] = refl
  map-concat (xs ∷ xss) =
      ap (λ ys. map f xs ++ ys) (map-concat xss) ∙ sym (map-append xs (concat xss))

-- `sum(f(x) for x in xs)`
abbrev pub total_of {ℓ} : {A : Type ℓ} → (A → ℕ) → List A → ℕ
total_of f [] = 0
total_of f (x ∷ xs) = f x + total_of f xs

module _ {ℓ} {A : Type ℓ} where
  pub total_of-keep :
      (f : A → ℕ) (p : A → Bool) (xs : List A)
      → total_of f (keep p xs) ≡ total_of (λ x. if p x then f x else 0) xs
  total_of-keep f p [] = refl
  total_of-keep f p (x ∷ xs) = ground (arith, total_of-keep f p xs)

  pub length-total_of : (xs : List A) → length xs ≡ total_of (λ x. 1) xs
  length-total_of [] = refl
  length-total_of (x ∷ xs) = omega (arith, length-total_of xs)

  pub count_if-total_of :
      (p : A → Bool) (xs : List A) → count_if p xs ≡ total_of (λ x. if p x then 1 else 0) xs
  count_if-total_of p [] = refl
  count_if-total_of p (x ∷ xs) = ground (arith, count_if-total_of p xs)

pub Memᴰ-All {ℓ κ} :
    {A : Type ℓ} (P : A → Type κ) (x : A) (xs : List A) → Memᴰ x xs → All P xs → P x
Memᴰ-All P x [] m h = absurd (Memᴰ.not-nil m)
Memᴰ-All P x (y ∷ xs) m h = elim (Memᴰ.cases_cons m) [
  | inl e ↦ subst P (sym e) h.0
  | inr later ↦ Memᴰ-All P x xs later h.1
]
