-- ===== src/Pagination/Cover.antt =====
-- The pages of a listing cover its rows.
use Prim.Native.Nat.add
use native.Mathlib.Nat.{le-div_iff_mul-le}
use Prim.Native.Nat.mul
use ai_project.Prelude.{
  ℕ, zero, suc, ◌+◌, ◌-◌, ◌*◌, ◌/◌, ◌≤◌, ◌<◌, ◌≡◌, refl, ap, ◌∙◌, ◌↔◌, List, [], ◌∷◌, ◌++◌, true,
  length, take, drop, ltb, arith, length-take,
}
use ai_project.Pagination.{
  QueryInt, pos, negsuc, at_least_one, clamp_size, total_pages_of, meta_of, page_rows,
}

-- The rows of the pages 1, …, k, in this order.
abbrev pub first_pages {ℓ} : {A : Type ℓ} → ℕ → ℕ → List A → List A
first_pages zero size rows = []
first_pages (suc k) size rows = first_pages k size rows ++ page_rows (suc k) size rows

module _ {ℓ} {A : Type ℓ} where
  pub take_add : (m n : ℕ) (xs : List A) → take (m + n) xs ≡ take m xs ++ take n (drop m xs)
  take_add zero n xs = rw add.zero
  take_add (suc m) zero [] = rw add.suc
  take_add (suc m) (suc n) [] = rw add.suc
  take_add (suc m) n (x ∷ xs) = rw add.suc (ap (λ ys. x ∷ ys) (take_add m n xs))

  pub take_all : (n : ℕ) (xs : List A) → length xs ≤ n → take n xs ≡ xs
  take_all zero [] h = refl
  take_all zero (x ∷ xs) h = elim h [ ]
  take_all (suc n) [] h = refl
  take_all (suc n) (x ∷ xs) h = ap (λ ys. x ∷ ys) (take_all n xs (omega arith))

  first_pages_lem : (k size : ℕ) (rows : List A) → first_pages k size rows ≡ take (k * size) rows
  unfolding page_rows
  first_pages_lem zero size rows = rw mul.zero
  first_pages_lem (suc k) size rows =
      let e : suc k - 1 ≡ k = omega arith in
      let s : suc k * size ≡ k * size + size = omega arith in
      rw (e, s, take_add (k * size) size rows, first_pages_lem k size rows)

total_pages_of-le : (total size : ℕ) → 0 < size → total ≤ total_pages_of total size * size
unfolding total_pages_of
total_pages_of-le total size h = grind arith

-- Rounding up: `p` whole pages leave rows over exactly when `p` is below the page count.
lt-ceil_iff : (t s p : ℕ) → 0 < s → (p < (t + s - 1) / s) ↔ (p * s < t)
lt-ceil_iff t s p h =
    let e : suc p * s ≡ p * s + s = omega arith in
    let half = le-div_iff_mul-le {x = suc p} {y = t + s - 1} h in
    (λ lt. omega (arith, e, half.0 lt), λ lt. half.1 (omega (arith, e)))

lt-total_pages_of_iff :
    (t s p : ℕ) → 0 < s → 0 < p → (ltb p (total_pages_of t s) ≡ true) ↔ (p * s < t)
unfolding total_pages_of
lt-total_pages_of_iff zero s p h q = (λ lt. ground arith, λ lt. absurd (omega arith))
lt-total_pages_of_iff (suc t) s p h q = ground (arith, lt-ceil_iff (suc t) s p h)

at_least_one_pos : (n : QueryInt) → 0 < at_least_one n
unfolding at_least_one
at_least_one_pos (pos n) = omega arith
at_least_one_pos (negsuc n) = omega arith

pub clamp_size_bounds :
    (limit : ℕ) (n : QueryInt) → 0 < limit → (0 < clamp_size limit n) × (clamp_size limit n ≤ limit)
unfolding clamp_size
clamp_size_bounds limit (pos n) h = omega arith
clamp_size_bounds limit (negsuc n) h = omega arith

-- The pages 1 to total_pages, put one after the other, are the selected rows: no row is missing,
-- none is shown twice, and their order is kept. This holds for every page size above 0.
pub first_pages-cover {ℓ} :
    {A : Type ℓ} (size : ℕ) (rows : List A)
    → 0 < size
    → first_pages (total_pages_of (length rows) size) size rows ≡ rows
first_pages-cover size rows h =
    first_pages_lem (total_pages_of (length rows) size) size rows
    ∙ take_all (total_pages_of (length rows) size * size) rows
        (total_pages_of-le (length rows) size h)

-- For every page number and page size that a client sends, negative ones included, the served page
-- holds at most `limit` rows (and the limit is at least 1), and `has_next` is set exactly when
-- rows remain behind the served page.
served_page_bounds {ℓ} :
    {A : Type ℓ} (limit : ℕ) (page size : QueryInt) (rows : List A)
    → 0 < limit
    → let p = at_least_one page in
      let n = clamp_size limit size in
      (length (page_rows p n rows) ≤ limit)
      × (((meta_of p n (length rows)).has_next ≡ true) ↔ (p * n < length rows))
unfolding page_rows meta_of
served_page_bounds limit page size rows h =
    let p = at_least_one page in
    let n = clamp_size limit size in
    let b = clamp_size_bounds limit size h in
    (
      omega (arith, b, length-take n (drop ((p - 1) * n) rows)),
      lt-total_pages_of_iff (length rows) n p b.0 (at_least_one_pos page),
    )
