-- ===== src/Learner/Written.antt =====
-- What a run of the learner (backend/app/agents/learner.py) writes to the table of embeddings.
use mathlib.Core.List.{Sublistᴰ, append-nil, append_assoc}
use mathlib.Core.List.Sublistᴰ
use ai_project.Prelude.{
  ℕ, ◌+◌, ◌≡◌, refl, sym, subst, if◌then◌else◌, inl, inr, String, Bool, true, false, Option, none,
  some, List, [], ◌∷◌, ◌++◌, length, map, Bool-cases, Option-cases,
}
use ai_project.Learner.{
  NodeColumns, SmellColumns, TaskColumns, Artifacts, Embedding, node_text, smell_text, task_text,
  DbSession, in_transaction, has_expired, is_stale, LearnerOutput, job_nodes, job_smells, job_tasks,
  rows_for, insert_embeddings, embed_batch, embed_entities, learn, run,
}
use ai_project.Learner.Embedded.{
  Key, key_of, entry_key, nil-Sublist, Composes, Gains, append-Gains, entities-Gains,
}

Sublist-Composes : Composes (λ xs ys. Sublistᴰ xs ys)
Sublist-Composes = record {
  nothing = Sublistᴰ.slnil;
  append = λ xs ys us vs a b. Sublistᴰ.append a b;
}

either {ℓ κ} :
    {A : Type ℓ} (P : A → Type κ) (b : Bool) (x y : A) → P x → P y → P (if b then x else y)
either P true x y p q = p
either P false x y p q = q

widen : (xs us vs : List Key) → Sublistᴰ xs us → Sublistᴰ xs (us ++ vs)
widen xs us vs s =
    subst (λ zs. Sublistᴰ zs (us ++ vs)) (append-nil xs) (Sublistᴰ.append s (nil-Sublist vs))

-- The entities of a job that are embedded, by their keys: its nodes, smells and tasks.
abbrev pub node_entries : List NodeColumns → List (ℕ × String)
node_entries nodes = map (λ (x : NodeColumns). (x.id, node_text x)) nodes

abbrev pub smell_entries : List SmellColumns → List (ℕ × String)
smell_entries smells = map (λ (x : SmellColumns). (x.id, smell_text x)) smells

abbrev pub task_entries : List TaskColumns → List (ℕ × String)
task_entries tasks = map (λ (x : TaskColumns). (x.id, task_text x)) tasks

abbrev pub entities_of : ℕ → Artifacts → List Key
entities_of job_id a =
    map (entry_key "ucg_node") (node_entries (job_nodes job_id a))
    ++ (map (entry_key "smell") (smell_entries (job_smells job_id a))
        ++ map (entry_key "plan_task") (task_entries (job_tasks job_id a)))

module _ (V : Type 0) (job_id : ℕ) where
  rows_for-Sublist :
      (entity_type model : String) (batch : List (ℕ × String)) (vectors : List V)
      → Sublistᴰ
          (map key_of (rows_for V job_id entity_type model batch vectors))
          (map (entry_key entity_type) batch)
  unfolding rows_for
  rows_for-Sublist entity_type model [] vectors = Sublistᴰ.slnil
  rows_for-Sublist entity_type model (e ∷ batch) [] = nil-Sublist _
  rows_for-Sublist entity_type model (e ∷ batch) (v ∷ vectors) =
      Sublistᴰ.cons-cons refl (rows_for-Sublist entity_type model batch vectors)

  module _ (embed : List String → Option (List V × String))
      (accepts : List (Embedding V) → List (Embedding V) → Bool) where
    insert-Sublist :
        (expected : List Key) (rows table : List (Embedding V)) (session : DbSession)
        → Sublistᴰ (map key_of rows) expected
        → Gains V job_id
            (λ xs ys. Sublistᴰ xs ys)
            expected
            table
            (insert_embeddings V job_id embed accepts rows table session)
    unfolding insert_embeddings
    insert-Sublist expected [] table session h =
        ([], nil-Sublist expected, sym (append-nil table), refl)
    insert-Sublist expected (r ∷ rows) table session h =
        elim (Bool-cases (accepts table (r ∷ rows))) [
          | inl taken ↦ rw (insert_embeddings, taken) (r ∷ rows, h, refl, refl)
          | inr refused ↦
              rw (insert_embeddings, refused)
                ([], nil-Sublist expected, sym (append-nil table), refl)
        ]

    batch-Sublist :
        (entity_type : String) (batch : List (ℕ × String)) (table : List (Embedding V))
        (session : DbSession)
        → Gains V job_id
            (λ xs ys. Sublistᴰ xs ys)
            (map (entry_key entity_type) batch)
            table
            (embed_batch V job_id embed accepts entity_type batch table session)
    unfolding embed_batch
    batch-Sublist entity_type batch table session =
        elim (Option-cases (embed (map (λ (e : ℕ × String). e.1) batch))) [
          | inl raised ↦ rw (embed_batch, raised) ([], nil-Sublist _, sym (append-nil table), refl)
          | inr ((vectors, model), answered) ↦ elim (Bool-cases (has_expired session)) [
            | inl lost ↦
                rw (embed_batch, answered, lost) ([], nil-Sublist _, sym (append-nil table), refl)
            | inr live ↦
                rw (embed_batch, answered, live)
                  (insert-Sublist (map (entry_key entity_type) batch)
                    (rows_for V job_id entity_type model batch vectors) table session
                    (rows_for-Sublist entity_type model batch vectors))
          ]
        ]

    kind-Sublist :
        (entity_type : String) (entries : List (ℕ × String)) (table : List (Embedding V))
        (session : DbSession)
        → Gains V job_id
            (λ xs ys. Sublistᴰ xs ys)
            (map (entry_key entity_type) entries)
            table
            (embed_entities V job_id embed accepts entity_type entries table session)
    kind-Sublist =
        entities-Gains V job_id (λ xs ys. Sublistᴰ xs ys) Sublist-Composes embed accepts
          batch-Sublist

    module _ (similar : V → Option (List (ℕ × ℕ))) where
      -- The run adds rows for some of the entities, in their order, and where it returns it reports their
      -- number.
      abbrev pub Embeds :
          Artifacts → List (Embedding V) → Option LearnerOutput × List (Embedding V) → Type 0
      Embeds a table (reply, after) =
          (stored : List (Embedding V)) × Sublistᴰ (map key_of stored) (entities_of job_id a)
          × (after ≡ table ++ stored)
          × (elim reply [ none ↦ Unit | some output ↦ output.embeddings_created ≡ length stored ])

      learn-Embeds :
          (a : Artifacts) (table : List (Embedding V))
          → Embeds a table (learn V job_id embed accepts similar a table)
      unfolding learn
      learn-Embeds a table =
          let smells = job_smells job_id a in
          let tasks = job_tasks job_id a in
          let ns = node_entries (job_nodes job_id a) in
          let ss = smell_entries smells in
          let ts = task_entries tasks in
          let kn = map (entry_key "ucg_node") ns in
          let ks = map (entry_key "smell") ss in
          let kt = map (entry_key "plan_task") ts in
          let first = embed_entities V job_id embed accepts "ucg_node" ns table in_transaction in
          let second = embed_entities V job_id embed accepts "smell" ss first.1 first.2 in
          let third = embed_entities V job_id embed accepts "plan_task" ts second.1 second.2 in
          let g = kind-Sublist "ucg_node" ns table in_transaction in
          let h = kind-Sublist "smell" ss first.1 first.2 in
          let k = kind-Sublist "plan_task" ts second.1 second.2 in
          let two =
            append-Gains V job_id (λ xs ys. Sublistᴰ xs ys) Sublist-Composes kn ks table first
              second g h in
          let all =
            append-Gains V job_id (λ xs ys. Sublistᴰ xs ys) Sublist-Composes (kn ++ ks) kt table
              (first.0 + second.0, second.1, second.2) third two k in
          let (s₁, sub₁, grown₁, _) = g in
          let (s₂, sub₂, grown₂, _) = two in
          let (s₃, sub₃, grown₃, counted) = all in
          let whole = append_assoc kn ks kt in
          let sub = subst (λ keys. Sublistᴰ (map key_of s₃) keys) whole sub₃ in
          let some_kinds : Sublistᴰ (map key_of s₂) (kn ++ (ks ++ kt)) =
            subst (λ keys. Sublistᴰ (map key_of s₂) keys) whole
              (widen (map key_of s₂) (kn ++ ks) kt sub₂) in
          either (Embeds a table) (is_stale first.2 smells) _ _
            (s₁, widen (map key_of s₁) kn (ks ++ kt) sub₁, grown₁, tt)
            (either (Embeds a table) (is_stale second.2 tasks) _ _ (s₂, some_kinds, grown₂, tt)
              (either (Embeds a table) (is_stale third.2 smells) _ _ (s₃, sub, grown₃, tt)
                (s₃, sub, grown₃, counted)))

      -- Whatever the model answers, raises or leaves out, and whatever statements the database refuses,
      -- and whether the run returns or raises: it only adds rows to the table, each for an entity of the
      -- job, with its kind, its identifier and the beginning of its text, in the order of the entities
      -- and none twice. Where it returns, the number of embeddings that it reports is the number of
      -- these rows.
      pub run-Embeds :
          (has_llm : Bool) (a : Artifacts) (table : List (Embedding V))
          → Embeds a table (run V job_id embed accepts similar has_llm a table)
      unfolding run
      run-Embeds true a table = learn-Embeds a table
      run-Embeds false a table = ([], nil-Sublist _, sym (append-nil table), refl)
