-- ===== src/Validator/Reported.antt =====
-- What the validator reports of a job's pending patches, and what it stores.
use mathlib.Core.List.{append-nil, append_assoc, Sublistᴰ}
use ai_project.Prelude.{
  ℕ, suc, ◌+◌, ◌==◌, ◌≡◌, refl, sym, ◌∙◌, inl, inr, String, Bool, true, ◌&&◌, Option, List, [], ◌∷◌,
  ◌++◌, keep, map, length, count_if, str_eq, if◌then◌else◌, Option-cases, arith, subst,
}
use ai_project.Patches.{Patch}
use ai_project.Inserts.{add_rows}
use ai_project.Inserts.Refine.{Grows, add_rows-Grows}
use ai_project.Validator.{Tools}
use ai_project.Validator.Run.{
  ValidationRow, Summary, validate_patch, row_of, validate_each, run_pending, run,
}

-- The patches that a run validates.
abbrev pub pending_of : ℕ → List Patch → List Patch
pending_of job_id patches =
    keep (λ (p : Patch). (p.job_id == job_id) && str_eq p.status "pending") patches

abbrev pub passes : ValidationRow → Bool
passes row = row.passed

module _ (tools : Tools) (raises : Patch → Option String) (job_id : ℕ) where
  -- The rows of some patches.
  abbrev pub rows_of : List Patch → List ValidationRow
  rows_of patches = map (row_of tools raises job_id) patches

  row_of-patch_id : (patch : Patch) → (row_of tools raises job_id patch).patch_id ≡ patch.id
  unfolding validate_patch
  row_of-patch_id patch = elim (Option-cases (raises patch)) [
    | inl fine ↦ rw (row_of, fine) refl
    | inr (message, e) ↦ rw (row_of, e) refl
  ]

  rows_of-patch_ids :
      (patches : List Patch) → map (λ r. r.patch_id) (rows_of patches) ≡ map (λ p. p.id) patches
  rows_of-patch_ids [] = refl
  rows_of-patch_ids (p ∷ patches) = rw (row_of-patch_id p, rows_of-patch_ids patches) refl

  validate_each_lem :
      (patches : List Patch) (passed failed : ℕ) (rows : List ValidationRow)
      → let (passed', failed', rows') =
          validate_each tools raises job_id patches (passed, failed, rows) in
        (passed' ≡ passed + count_if passes (rows_of patches))
        × (passed' + failed' ≡ passed + failed + length patches)
        × (rows' ≡ rows ++ rows_of patches)
  unfolding validate_each
  validate_each_lem [] passed failed rows = (omega arith, omega arith, sym (append-nil rows))
  validate_each_lem (p ∷ patches) passed failed rows =
      let row = row_of tools raises job_id p in
      let (counted, total, collected) =
        validate_each_lem patches (if row.passed then suc passed else passed)
          (if row.passed then failed else suc failed) (rows ++ row ∷ []) in
      (
        ground (arith, counted),
        ground (arith, total),
        collected ∙ append_assoc rows (row ∷ []) (rows_of patches),
      )

  -- What a run reports of the patches that it validates, and stores for them.
  abbrev pub Reports :
      (ValidationRow → Bool)
      → List Patch
      → List ValidationRow
      → Summary × List ValidationRow
      → Type 0
  Reports sure pending table (summary, after) =
      (summary.patches_validated ≡ length pending)
      × (summary.passed + summary.failed ≡ length pending)
      × (summary.passed ≡ count_if passes (rows_of pending))
      × ((count : ℕ) × Grows sure (rows_of pending) table (count, after))

  module _ (sure : ValidationRow → Bool) (accepts : List ValidationRow → List ValidationRow → Bool)
      (takes : (r : ValidationRow) (table : List ValidationRow)
        → sure r ≡ true
        → accepts table (r ∷ []) ≡ true) where
    run_pending-Reports :
        (pending : List Patch) (table : List ValidationRow)
        → Reports sure pending table (run_pending tools raises job_id accepts pending table)
    unfolding run_pending
    run_pending-Reports [] table = (
      refl,
      omega arith,
      refl,
      (0, ([], Sublistᴰ.slnil, Sublistᴰ.slnil, sym (append-nil table), refl)),
    )
    run_pending-Reports (p ∷ ps) table =
        let (counted, total, collected) = validate_each_lem (p ∷ ps) 0 0 [] in
        let (passed, failed, rows) = validate_each tools raises job_id (p ∷ ps) (0, 0, []) in
        (
          refl,
          omega (arith, total),
          omega (arith, counted),
          (
            (add_rows accepts rows table).0,
            subst (λ (rs : List ValidationRow). Grows sure rs table (add_rows accepts rows table))
                collected (add_rows-Grows sure accepts takes rows table),
          ),
        )

    -- A run validates every pending patch of the job, once and in the table's order: the number that it
    -- reports is theirs, each of them is counted as passed or as failed, and the passed ones are those
    -- whose row says so. A validation that raises counts as failed and stops no other. Whatever the
    -- database refuses, the table gains rows of these patches only, in their order, among them every
    -- row that the database takes by itself.
    pub run-Reports :
        (patches : List Patch) (table : List ValidationRow)
        → Reports sure
            (pending_of job_id patches)
            table
            (run tools raises job_id accepts patches table)
          × (map (λ r. r.patch_id) (rows_of (pending_of job_id patches))
              ≡ map (λ p. p.id) (pending_of job_id patches))
    unfolding run
    run-Reports patches table = (
      run_pending-Reports (pending_of job_id patches) table,
      rows_of-patch_ids (pending_of job_id patches),
    )
