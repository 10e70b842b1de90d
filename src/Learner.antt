-- ===== src/Learner.antt =====
-- The learner of backend/app/agents/learner.py: what is embedded, the batches, the rows of the table of
-- embeddings (backend/app/models/ucg.py) and the search for similar jobs. `V` are vectors. The model's
-- answers, what the database accepts and the answer of the similarity query, with similarities in
-- thousandths, are parameters. A column that a text shows by Python's `str` is that text.
-- A rollback that ends a transaction expires the loaded objects, and reading an expired one raises under
-- an asynchronous session; a commit leaves them as they are (`expire_on_commit=False`).

pub mod Embedded
pub mod Written
pub mod Unhindered
mod Examples
use ai_project.Prelude.{
  ℕ, ◌+◌, ◌&&◌, ◌==◌, String, Bool, true, false, Option, none, some, List, [], ◌∷◌, ◌++◌, join_text,
  first_chars, keep, length, ltb, map, one_of, take, if◌then◌else◌,
}
use ai_project.Mapper.{chunks}

abbrev pub embed_batch_size : ℕ
embed_batch_size = 100

-- The columns that the agent reads.
pub record NodeColumns : Type 0 where
  pub id : ℕ
  pub job_id : ℕ
  pub node_type : String
  pub language : String
  pub qualified_name : String
  pub file_path : Option String
  pub bases : String
  pub is_abstract : String
  pub visibility : String

pub record SmellColumns : Type 0 where
  pub id : ℕ
  pub job_id : ℕ
  pub smell_type : String
  pub severity : String
  pub description : String
  pub evidence_json : String

pub record TaskColumns : Type 0 where
  pub id : ℕ
  pub job_id : ℕ
  pub title : String
  pub refactor_pattern : String
  pub description : String
  pub automated : String
  pub estimated_hours : String

-- A row of the table of embeddings.
pub record Embedding (V : Type 0) : Type 0 where
  pub job_id : ℕ
  pub entity_type : String
  pub entity_id : ℕ
  pub content_text : String
  pub embedding : V
  pub model_used : String

-- the texts, each behind its label and followed by a blank but the last
unfoldable pub labelled : List (String × String) → String
labelled [] = ""
labelled ((label, text) ∷ []) = join_text label text
labelled ((label, text) ∷ next ∷ rest) =
    join_text label (join_text text (join_text " " (labelled (next ∷ rest))))

unfoldable pub node_text : NodeColumns → String
unfolding labelled
node_text n = labelled (
    ("language:", n.language)
    ∷ ("type:", n.node_type)
    ∷ ("name:", n.qualified_name)
    ∷ ("file:", elim n.file_path [ none ↦ "" | some path ↦ path ])
    ∷ ("bases:", n.bases)
    ∷ ("is_abstract:", n.is_abstract)
    ∷ ("visibility:", n.visibility)
    ∷ [])

unfoldable pub smell_text : SmellColumns → String
unfolding labelled first_chars
smell_text s = labelled (
    ("smell_type:", s.smell_type)
    ∷ ("severity:", s.severity)
    ∷ ("description:", s.description)
    ∷ ("evidence:", first_chars 500 s.evidence_json)
    ∷ [])

unfoldable pub task_text : TaskColumns → String
unfolding labelled first_chars
task_text t = labelled (
    ("title:", t.title)
    ∷ ("pattern:", t.refactor_pattern)
    ∷ ("description:", first_chars 500 t.description)
    ∷ ("automated:", t.automated)
    ∷ ("effort:", t.estimated_hours)
    ∷ [])

-- The tables that the agent reads.
pub record Artifacts : Type 0 where
  pub nodes : List NodeColumns
  pub smells : List SmellColumns
  pub tasks : List TaskColumns

abbrev pub embedded_types : List String
embedded_types = "CLASS" ∷ "FUNCTION" ∷ "METHOD" ∷ []

abbrev pub job_nodes : ℕ → Artifacts → List NodeColumns
job_nodes job_id a =
    keep (λ (n : NodeColumns). n.job_id == job_id && one_of n.node_type embedded_types) a.nodes

abbrev pub job_smells : ℕ → Artifacts → List SmellColumns
job_smells job_id a = keep (λ (s : SmellColumns). s.job_id == job_id) a.smells

abbrev pub job_tasks : ℕ → Artifacts → List TaskColumns
job_tasks job_id a = keep (λ (t : TaskColumns). t.job_id == job_id) a.tasks

-- `" ".join(f"{s.smell_type}:{s.severity}" for s in smells[:20])`
unfoldable pub profile_text : List SmellColumns → String
unfolding labelled
profile_text smells =
    labelled (map (λ (s : SmellColumns). (join_text s.smell_type ":", s.severity)) (take 20 smells))

pub record LearnerOutput : Type 0 where
  pub embeddings_created : ℕ
  pub patterns_indexed : ℕ
  pub similar_jobs : List ℕ

-- The session: a transaction is open, none is since the last commit, or the loaded objects are expired.
pub data DbSession : Type 0 where
  in_transaction committed expired : DbSession

-- `rollback`
unfoldable pub rollback : DbSession → DbSession
rollback in_transaction = expired
rollback committed = committed
rollback expired = expired

abbrev pub has_expired : DbSession → Bool
has_expired in_transaction = false
has_expired committed = false
has_expired expired = true

-- Building the texts of some entities raises.
abbrev pub is_stale {ℓ} : {A : Type ℓ} → DbSession → List A → Bool
is_stale session [] = false
is_stale session (e ∷ entries) = has_expired session

module _ (V : Type 0) (job_id : ℕ) where
  -- `zip` of the entities of a batch with the vectors
  unfoldable pub rows_for : String → String → List (ℕ × String) → List V → List (Embedding V)
  unfolding first_chars
  rows_for entity_type model [] vectors = []
  rows_for entity_type model ((id, text) ∷ batch) [] = []
  rows_for entity_type model ((id, text) ∷ batch) (v ∷ vectors) =
      record {
        job_id = job_id;
        entity_type = entity_type;
        entity_id = id;
        content_text = first_chars 4000 text;
        embedding = v;
        model_used = model;
      }
      ∷ rows_for entity_type model batch vectors

  module _ (embed : List String → Option (List V × String))
      (accepts : List (Embedding V) → List (Embedding V) → Bool) where
    -- the insertion of a batch: how many rows were added, the table and the session
    unfoldable pub insert_embeddings :
        List (Embedding V) → List (Embedding V) → DbSession → ℕ × List (Embedding V) × DbSession
    unfolding rollback
    insert_embeddings [] table session = (0, table, session)
    insert_embeddings (r ∷ rows) table session =
        if accepts table (r ∷ rows)
        then (length (r ∷ rows), table ++ r ∷ rows, committed)
        else (0, table, rollback in_transaction)

    -- one batch; an exception of the model, or of reading the identifiers of expired objects, leaves the
    -- table as it is
    unfoldable pub embed_batch :
        String
        → List (ℕ × String)
        → List (Embedding V)
        → DbSession
        → ℕ × List (Embedding V) × DbSession
    unfolding rows_for insert_embeddings
    embed_batch entity_type batch table session =
        elim (embed (map (λ (e : ℕ × String). e.1) batch)) [
          | none ↦ (0, table, rollback session)
          | some (vectors, model) ↦
              if has_expired session
              then (0, table, session)
              else insert_embeddings (rows_for entity_type model batch vectors) table session
        ]

    -- the loop over the batches
    unfoldable pub embed_batches :
        String
        → List (List (ℕ × String))
        → List (Embedding V)
        → DbSession
        → ℕ × List (Embedding V) × DbSession
    unfolding embed_batch
    embed_batches entity_type [] table session = (0, table, session)
    embed_batches entity_type (batch ∷ batches) table session =
        let (count, between, between_session) = embed_batch entity_type batch table session in
        let (more, after, last) = embed_batches entity_type batches between between_session in
        (count + more, after, last)

    -- `_embed_nodes`, `_embed_smells` and `_embed_tasks`, over the identifiers and texts
    unfoldable pub embed_entities :
        String
        → List (ℕ × String)
        → List (Embedding V)
        → DbSession
        → ℕ × List (Embedding V) × DbSession
    unfolding embed_batches chunks
    embed_entities entity_type entries table session =
        embed_batches entity_type (chunks embed_batch_size entries) table session

    module _ (similar : V → Option (List (ℕ × ℕ))) where
      -- `_find_similar_jobs`; `similar` are the rows of the query, or nothing where it fails
      unfoldable pub find_similar_jobs : List SmellColumns → List ℕ
      unfolding profile_text
      find_similar_jobs [] = []
      find_similar_jobs (s ∷ smells) = elim (embed (profile_text (s ∷ smells) ∷ [])) [
        | none ↦ []
        | some (vectors, model) ↦ elim vectors [
          | [] ↦ []
          | v ∷ vs ↦ elim (similar v) [
            | none ↦ []
            | some rows ↦ map (λ (r : ℕ × ℕ). r.0) (keep (λ (r : ℕ × ℕ). ltb 700 r.1) rows)
          ]
        ]
      ]

      -- `run`, where a model is configured, behind the three queries; `none` where it raises
      unfoldable pub learn :
          Artifacts → List (Embedding V) → Option LearnerOutput × List (Embedding V)
      unfolding embed_entities find_similar_jobs node_text smell_text task_text
      learn a table =
          let nodes = job_nodes job_id a in
          let smells = job_smells job_id a in
          let tasks = job_tasks job_id a in
          let (n, with_nodes, first) =
            embed_entities "ucg_node" (map (λ (x : NodeColumns). (x.id, node_text x)) nodes) table
              in_transaction in
          let (m, with_smells, second) =
            embed_entities "smell" (map (λ (x : SmellColumns). (x.id, smell_text x)) smells)
              with_nodes first in
          let (k, with_tasks, third) =
            embed_entities "plan_task" (map (λ (x : TaskColumns). (x.id, task_text x)) tasks)
              with_smells second in
          if is_stale first smells
          then (none, with_nodes)
          else if is_stale second tasks
          then (none, with_smells)
          else if is_stale third smells
          then (none, with_tasks)
          else (
            some record {
              embeddings_created = n + m + k;
              patterns_indexed = length nodes + length smells + length tasks;
              similar_jobs = find_similar_jobs smells;
            },
            with_tasks,
          )

      -- `run`; without a configured model nothing is done
      unfoldable pub run :
          Bool → Artifacts → List (Embedding V) → Option LearnerOutput × List (Embedding V)
      unfolding learn
      run has_llm a table = if has_llm then learn a table else (
        some record { embeddings_created = 0; patterns_indexed = 0; similar_jobs = [] },
        table,
      )
