-- ===== src/Inserts.antt =====
-- How the agents of backend/app/agents (mapper.py, transformer.py, validator.py) write their rows:
-- all in one statement, and one by one when the database refuses that statement. Whether the
-- database accepts a statement is its own affair and depends on what the table holds: `accepts` is
-- a parameter. A refused statement is rolled back, so the table stays as it was.
pub mod Refine
use ai_project.Prelude.{ℕ, suc, ◌+◌, Bool, List, [], ◌∷◌, ◌++◌, length, if◌then◌else◌}

module _ {R : Type 0} (accepts : List R → List R → Bool) where
  -- the fallback loop `for row in rows`: how many rows were accepted, and the table
  unfoldable pub add_each : List R → List R → ℕ × List R
  add_each [] table = (0, table)
  add_each (r ∷ rows) table =
      let ok = accepts table (r ∷ []) in
      let (count, after) = add_each rows (if ok then table ++ r ∷ [] else table) in
      ((if ok then suc count else count), after)

  -- one statement for all rows, with the fallback
  unfoldable pub add_rows : List R → List R → ℕ × List R
  unfolding add_each
  add_rows rows table =
      if accepts table rows then (length rows, table ++ rows) else add_each rows table

  -- the statements of several chunks, one after the other: an empty chunk sends none
  unfoldable pub add_chunks : List (List R) → List R → ℕ × List R
  unfolding add_rows
  add_chunks [] table = (0, table)
  add_chunks ([] ∷ chunks) table = add_chunks chunks table
  add_chunks ((r ∷ rows) ∷ chunks) table =
      let (count, between) = add_rows (r ∷ rows) table in
      let (more, after) = add_chunks chunks between in (count + more, after)
