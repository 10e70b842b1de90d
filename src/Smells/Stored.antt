-- ===== src/Smells/Stored.antt =====
-- What is stored of the detected smells.
use mathlib.Core.List.{append-nil, append_assoc}
use ai_project.Prelude.{
  ℕ, ◌+◌, ◌≡◌, refl, sym, ap, ◌∙◌, inl, inr, Bool, Option, some, List, [], ◌∷◌, ◌++◌, ◌==◌, keep,
  map, length, count_if, arith, count_if-append, Bool-cases, if◌then◌else◌,
}
use ai_project.Smells.{SmellResult}
use ai_project.Smells.Agent.{Smell, new_row, insert_each, persist_smells, store_smells}

module _ (row : SmellResult → Bool) (job_id : ℕ) where
  insert_each_lem :
      (candidates : List SmellResult) (table : List Smell)
      → insert_each row job_id candidates table
        ≡ (keep row candidates, table ++ map (new_row job_id) (keep row candidates))
  unfolding insert_each
  insert_each_lem [] table = ap (λ t. ([], t)) (sym (append-nil table))
  insert_each_lem (s ∷ candidates) table = elim (Bool-cases (row s)) [
    | inl accepted ↦
        rw (accepted, insert_each_lem candidates (table ++ new_row job_id s ∷ []))
          (ap (λ t. (s ∷ keep row candidates, t)) (append_assoc table (new_row job_id s ∷ []) _))
    | inr skipped ↦ rw skipped (insert_each_lem candidates table)
  ]

-- The number of rows that a job has in the table.
abbrev pub rows_of : ℕ → List Smell → ℕ
rows_of job_id table = count_if (λ (r : Smell). r.job_id == job_id) table

rows_of-new :
    (k job_id : ℕ) (found : List SmellResult)
    → rows_of k (map (new_row job_id) found) ≡ (if job_id == k then length found else 0)
rows_of-new k job_id [] = ground arith
rows_of-new k job_id (s ∷ found) = ground (arith, rows_of-new k job_id found)

module _ (bulk : List SmellResult → Bool) (row : SmellResult → Bool) (job_id : ℕ) where
  -- The results that the database accepts, in one insertion or one by one.
  abbrev pub accepted : List SmellResult → List SmellResult
  accepted [] = []
  accepted (s ∷ candidates) =
      if bulk (s ∷ candidates) then s ∷ candidates else keep row (s ∷ candidates)

  pub persist_smells_lem :
      (candidates : List SmellResult) (table : List Smell)
      → persist_smells bulk row job_id candidates table
        ≡ (accepted candidates, table ++ map (new_row job_id) (accepted candidates))
  unfolding persist_smells
  persist_smells_lem [] table = ap (λ t. ([], t)) (sym (append-nil table))
  persist_smells_lem (s ∷ candidates) table = elim (Bool-cases (bulk (s ∷ candidates))) [
    | inl whole ↦ rw whole
    | inr refused ↦ rw refused (insert_each_lem row job_id (s ∷ candidates) table)
  ]

-- Whichever insertions the database refuses, the count that the agent returns is the number of rows
-- that the job has gained in the table, the other jobs' rows are as many as before, the results
-- that were accepted are stored, undismissed, in their order, and the column of the job is that
-- count unless its own update is refused.
store_smells-counts :
    (bulk : List SmellResult → Bool) (row : SmellResult → Bool) (counts : Bool) (job_id : ℕ)
    (candidates : List SmellResult) (old : Option ℕ) (table table' : List Smell) (count : ℕ)
    (column : Option ℕ)
    → store_smells bulk row counts job_id candidates old table ≡ (count, column, table')
    → (k : ℕ)
    → (rows_of k table' ≡ rows_of k table + (if job_id == k then count else 0))
      × (table' ≡ table ++ map (new_row job_id) (accepted bulk row job_id candidates))
      × (column ≡ (if counts then some count else old))
unfolding store_smells
store_smells-counts bulk row counts job_id candidates old table table' count column h k =
    let found = accepted bulk row job_id candidates in
    let e : store_smells bulk row counts job_id candidates old table ≡ (
      length found,
      (if counts then some (length found) else old),
      table ++ map (new_row job_id) found,
    ) =
      rw (store_smells, persist_smells_lem bulk row job_id candidates table) refl in
    let n : length found ≡ count = cc in
    let t : table ++ map (new_row job_id) found ≡ table' = cc in
    let c : (if counts then some (length found) else old) ≡ column = cc in
    (
      rw (sym t, sym n)
          (count_if-append (λ (r : Smell). r.job_id == k) table (map (new_row job_id) found)
            ∙ ap (λ m. rows_of k table + m) (rows_of-new k job_id found)),
      sym t,
      sym c ∙ ap (λ m. if counts then some m else old) n,
    )
