-- ===== src/Mapper/Batches.antt =====
-- Batches and chunks: `range(0, len(xs), size)` with slices, in the two insertions and in the loop
-- over the files of a language.
use Prim.Native.Nat.add
use ai_project.Prelude.{
  ℕ, zero, suc, ◌+◌, ◌-◌, ◌*◌, ◌/◌, ◌≤◌, ◌<◌, ◌≡◌, refl, sym, ap, ◌∙◌, List, [], ◌∷◌, ◌++◌, arith,
  take, drop, length, All, concat, take-append-drop, length-take, length-drop, min,
}
use ai_project.Mapper.{chunks_from, chunks}

module _ {ℓ} {A : Type ℓ} where
  drop_all : (n : ℕ) (xs : List A) → length xs ≤ n → drop n xs ≡ []
  drop_all zero [] h = refl
  drop_all zero (x ∷ xs) h = absurd (omega arith)
  drop_all (suc n) [] h = refl
  drop_all (suc n) (x ∷ xs) h = drop_all n xs (omega arith)

  drop-drop : (m n : ℕ) (xs : List A) → drop n (drop m xs) ≡ drop (m + n) xs
  drop-drop zero n xs = ap (λ k. drop k xs) (omega arith)
  drop-drop (suc m) zero [] = rw add.suc refl
  drop-drop (suc m) (suc n) [] = rw add.suc refl
  drop-drop (suc m) n (x ∷ xs) = rw add.suc (drop-drop m n xs)

  -- A chunk is not empty and not above the size.
  abbrev pub Fits : ℕ → List A → Type 0
  Fits size xs = (0 < length xs) × (length xs ≤ size)

  module _ (size : ℕ) (positive : 0 < size) where
    concat-chunks_from :
        (start steps : ℕ) (xs : List A)
        → length xs ≤ start + steps * size
        → concat (chunks_from size start steps xs) ≡ drop start xs
    unfolding chunks_from
    concat-chunks_from start zero xs h = sym (drop_all start xs (omega (arith, h)))
    concat-chunks_from start (suc steps) xs h =
        ap (λ ys. take size (drop start xs) ++ ys)
          (concat-chunks_from (start + size) steps xs (omega (arith, h))
            ∙ sym (drop-drop start size xs))
        ∙ take-append-drop size (drop start xs)

    chunks_from-Fits :
        (start steps : ℕ) (xs : List A)
        → start + steps * size < length xs + size
        → All (Fits size) (chunks_from size start steps xs)
    unfolding chunks_from
    chunks_from-Fits start zero xs h = tt
    chunks_from-Fits start (suc steps) xs h =
        let n : length (take size (drop start xs)) ≡ min size (length xs - start) =
          length-take size (drop start xs) ∙ ap (min size) (length-drop start xs) in
        let step : suc steps * size ≡ steps * size + size = omega arith in
        (
          omega (arith, n, step, h, positive),
          chunks_from-Fits (start + size) steps xs (omega (arith, step, h)),
        )

    -- The chunks of a list, one after the other, are the list: no element is left out, none stands in
    -- two chunks, and the order is kept. No chunk is empty, and none has more elements than the size.
    -- This holds for every size above 0.
    pub chunks-cover :
        (xs : List A) → (concat (chunks size xs) ≡ xs) × All (Fits size) (chunks size xs)
    unfolding chunks
    chunks-cover xs =
        let steps = (length xs + size - 1) / size in
        let enough : length xs ≤ steps * size = grind arith in
        let below : steps * size < length xs + size = grind arith in
        (
          concat-chunks_from 0 steps xs (omega (arith, enough)),
          chunks_from-Fits 0 steps xs (omega (arith, below)),
        )
