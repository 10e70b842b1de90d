-- ===== src/Inserts/Refine.antt =====
-- What writing rows promises, whatever the database refuses: rows are appended, in order, and none
-- is left out that the database would accept by itself.
use mathlib.Core.List.{Sublistᴰ, append-nil, append_assoc}
use mathlib.Core.List.Sublistᴰ
use ai_project.Prelude.{
  ℕ, suc, ◌+◌, ◌≡◌, refl, sym, ap, ◌∙◌, inl, inr, Bool, true, false, List, [], ◌∷◌, ◌++◌, length,
  arith, length-append, Bool-cases, keep, concat, keep-append,
}
use ai_project.Inserts.{add_each, add_rows, add_chunks}

keep-Sublist {ℓ} : {A : Type ℓ} (p : A → Bool) (xs : List A) → Sublistᴰ (keep p xs) xs
keep-Sublist p [] = Sublistᴰ.slnil
keep-Sublist p (x ∷ xs) = elim (Bool-cases (p x)) [
  | inl e ↦ rw e (Sublistᴰ.cons-cons refl (keep-Sublist p xs))
  | inr e ↦ rw e (Sublistᴰ.cons (keep-Sublist p xs))
]

module _ {R : Type 0} (sure : R → Bool) where
  -- The table has grown by some of the rows, in their order, among them all that are `sure`, and
  -- their number is the count.
  abbrev pub Grows : List R → List R → ℕ × List R → Type 0
  Grows rows table (count, after) =
      (stored : List R) × Sublistᴰ (keep sure rows) stored
      × Sublistᴰ stored rows
      × (after ≡ table ++ stored)
      × (count ≡ length stored)

  module _ (accepts : List R → List R → Bool)
      (takes : (r : R) (table : List R) → sure r ≡ true → accepts table (r ∷ []) ≡ true) where
    keep-Sublist_cons :
        (r : R) (rows stored : List R)
        → Sublistᴰ (keep sure rows) stored
        → Sublistᴰ (keep sure (r ∷ rows)) (r ∷ stored)
    keep-Sublist_cons r rows stored s = elim (Bool-cases (sure r)) [
      | inl e ↦ rw e (Sublistᴰ.cons-cons refl s)
      | inr e ↦ rw e (Sublistᴰ.cons s)
    ]

    add_each-Grows : (rows table : List R) → Grows rows table (add_each accepts rows table)
    unfolding add_each
    add_each-Grows [] table = ([], Sublistᴰ.slnil, Sublistᴰ.slnil, sym (append-nil table), refl)
    add_each-Grows (r ∷ rows) table = elim (Bool-cases (accepts table (r ∷ []))) [
      | inl accepted ↦
          let (stored, below, above, grown, counted) = add_each-Grows rows (table ++ r ∷ []) in
          rw accepted (
            r ∷ stored,
            keep-Sublist_cons r rows stored below,
            Sublistᴰ.cons-cons refl above,
            grown ∙ append_assoc table (r ∷ []) stored,
            ap suc counted,
          )
      | inr refused ↦
          let (stored, below, above, grown, counted) = add_each-Grows rows table in
          let unsure : sure r ≡ false = elim (Bool-cases (sure r)) [
            | inl e ↦ absurd (cc (takes r table e))
            | inr e ↦ e
          ] in
          rw (refused, unsure) (stored, below, Sublistᴰ.cons above, grown, counted)
    ]

    pub add_rows-Grows : (rows table : List R) → Grows rows table (add_rows accepts rows table)
    unfolding add_rows
    add_rows-Grows rows table = elim (Bool-cases (accepts table rows)) [
      | inl whole ↦ rw whole (rows, keep-Sublist sure rows, Sublistᴰ.refl rows, refl, refl)
      | inr refused ↦ rw refused (add_each-Grows rows table)
    ]

    append-Grows :
        (xs ys table : List R) (first : ℕ × List R) (second : ℕ × List R)
        → Grows xs table first
        → Grows ys first.1 second
        → Grows (xs ++ ys) table (first.0 + second.0, second.1)
    append-Grows xs ys table first second (s, below, above, grown, counted)
          (t, below', above', grown', counted') =
        (
          s ++ t,
          rw (keep-append sure xs ys) (Sublistᴰ.append below below'),
          Sublistᴰ.append above above',
          grown' ∙ ap (λ u. u ++ t) grown ∙ append_assoc table s t,
          omega (arith, counted, counted', length-append s t),
        )

    -- Whatever statements the database refuses, writing the chunks appends rows of the chunks to the
    -- table, in their order; the count returned is the number of rows appended; and every row that the
    -- database takes by itself, whatever the table holds, is among them.
    pub add_chunks-Grows :
        (chunks : List (List R)) (table : List R)
        → Grows (concat chunks) table (add_chunks accepts chunks table)
    unfolding add_chunks
    add_chunks-Grows [] table = ([], Sublistᴰ.slnil, Sublistᴰ.slnil, sym (append-nil table), refl)
    add_chunks-Grows ([] ∷ chunks) table = add_chunks-Grows chunks table
    add_chunks-Grows ((r ∷ rows) ∷ chunks) table =
        let between = add_rows accepts (r ∷ rows) table in
        append-Grows (r ∷ rows) (concat chunks) table between (add_chunks accepts chunks between.1)
          (add_rows-Grows (r ∷ rows) table) (add_chunks-Grows chunks between.1)
