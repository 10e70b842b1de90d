-- ===== src/Smells/Agent.antt =====
-- The second half of the smell detector: the pass through the language model, and the insertion of the
-- results. The answers of the model and of the database are arguments: `complete` is none where the
-- call of the model raises, `bulk` and `row` say which insertions the database accepts.
use ai_project.Prelude.{
  ℕ, ◌+◌, String, Bool, false, not, Option, none, some, List, [], ◌∷◌, ◌++◌, one_of, keep, map,
  length, min, if◌then◌else◌,
}
use ai_project.Smells.{UcgNode, SmellResult, node_by_id}

abbrev pub is_high_priority : SmellResult → Bool
is_high_priority s = one_of s.severity ("critical" ∷ "high" ∷ [])

-- `_enrich_one`
unfoldable pub enrich_one : (SmellResult → Option String) → SmellResult → SmellResult
enrich_one complete s = elim (complete s) [
  | none ↦ s
  | some text ↦ record s { llm_rationale = some text; confidence = min (s.confidence + 5) 100 }
]

-- `_enrich_with_llm`
unfoldable pub enrich_with_llm : (SmellResult → Option String) → List SmellResult → List SmellResult
unfolding enrich_one
enrich_with_llm complete candidates =
    map (enrich_one complete) (keep is_high_priority candidates)
    ++ keep (λ s. not (is_high_priority s)) candidates

-- the loop of `run` that adds the file of the first node to the evidence
unfoldable pub with_file : List UcgNode → SmellResult → SmellResult
with_file nodes s = elim s.affected_node_ids [
  | [] ↦ s
  | i ∷ _ ↦ elim (node_by_id nodes i) [
    | none ↦ s
    | some n ↦ elim n.file_path [
      | none ↦ s
      | some path ↦ record s { evidence = record s.evidence { file_path = some path } }
    ]
  ]
]

-- A row of the table `smells`.
pub record Smell : Type 0 where
  pub job_id : ℕ
  pub result : SmellResult
  pub dismissed : Bool

abbrev pub new_row : ℕ → SmellResult → Smell
new_row job_id s = record { job_id = job_id; result = s; dismissed = false }

-- the loop that inserts row by row: the results of the rows that were accepted, and the table
unfoldable pub insert_each :
    (SmellResult → Bool) → ℕ → List SmellResult → List Smell → List SmellResult × List Smell
insert_each row job_id [] table = ([], table)
insert_each row job_id (s ∷ candidates) table =
    if row s
    then (let (successful, table') =
          insert_each row job_id candidates (table ++ new_row job_id s ∷ []) in
        (s ∷ successful, table'))
    else insert_each row job_id candidates table

-- `_persist_smells`
unfoldable pub persist_smells :
    (List SmellResult → Bool)
    → (SmellResult → Bool)
    → ℕ
    → List SmellResult
    → List Smell
    → List SmellResult × List Smell
unfolding insert_each
persist_smells bulk row job_id [] table = ([], table)
persist_smells bulk row job_id (s ∷ candidates) table =
    if bulk (s ∷ candidates)
    then (s ∷ candidates, table ++ map (new_row job_id) (s ∷ candidates))
    else insert_each row job_id (s ∷ candidates) table

-- `_persist_smells`, then `_update_job_smell_count`, whose update may be refused: the count that the
-- agent returns, the column of the job, and the table
unfoldable pub store_smells :
    (List SmellResult → Bool)
    → (SmellResult → Bool)
    → Bool
    → ℕ
    → List SmellResult
    → Option ℕ
    → List Smell
    → ℕ × Option ℕ × List Smell
unfolding persist_smells
store_smells bulk row counts job_id candidates smell_count table =
    let (smell_records, table') = persist_smells bulk row job_id candidates table in
    let count = length smell_records in
    (count, (if counts then some count else smell_count), table')
