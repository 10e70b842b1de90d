-- ===== src/Learner/Embedded.antt =====
-- How the learner (backend/app/agents/learner.py) writes batches to the table of embeddings.
use mathlib.Core.List.{Sublistᴰ, append-nil, append_assoc}
use ai_project.Prelude.{
  ℕ, ◌+◌, ◌≡◌, refl, sym, ap, ◌∙◌, subst, String, Bool, Option, List, [], ◌∷◌, ◌++◌, concat,
  first_chars, length, length-append, map, map-append, arith,
}
use ai_project.Mapper.{chunks}
use ai_project.Mapper.Batches.{chunks-cover}
use ai_project.Learner.{
  Embedding, DbSession, embed_batch_size, embed_batch, embed_batches, embed_entities,
}

-- What an embedding is of: the kind of entity, its identifier, and its text.
abbrev pub Key : Type 0
Key = String × ℕ × String

abbrev pub key_of : {V : Type 0} → Embedding V → Key
key_of r = (r.entity_type, r.entity_id, r.content_text)

abbrev pub entry_key : String → ℕ × String → Key
entry_key entity_type e = (entity_type, e.0, first_chars 4000 e.1)

pub nil-Sublist {ℓ} : {A : Type ℓ} (xs : List A) → Sublistᴰ [] xs
nil-Sublist [] = Sublistᴰ.slnil
nil-Sublist (x ∷ xs) = Sublistᴰ.cons (nil-Sublist xs)

-- What a relation must allow to hold of the keys that are stored and of those that were to be.
pub record Composes (R : List Key → List Key → Type 0) : Type 0 where
  pub nothing : R [] []
  pub append : (xs ys us vs : List Key) → R xs us → R ys vs → R (xs ++ ys) (us ++ vs)

module _ (V : Type 0) (job_id : ℕ) (R : List Key → List Key → Type 0) where
  -- The table has grown by rows of the job whose keys are so related to the expected ones, and their
  -- number is the count.
  abbrev pub Gains : List Key → List (Embedding V) → ℕ × List (Embedding V) × DbSession → Type 0
  Gains expected table (count, after, session) =
      (stored : List (Embedding V)) × R (map key_of stored) expected
      × (after ≡ table ++ stored)
      × (count ≡ length stored)

  module _ (composes : Composes R) where
    pub nothing-Gains :
        (table : List (Embedding V)) (session : DbSession) → Gains [] table (0, table, session)
    nothing-Gains table session = ([], composes.nothing, sym (append-nil table), refl)

    pub append-Gains :
        (us vs : List Key) (table : List (Embedding V))
        (first second : ℕ × List (Embedding V) × DbSession)
        → Gains us table first
        → Gains vs first.1 second
        → Gains (us ++ vs) table (first.0 + second.0, second.1, second.2)
    append-Gains us vs table first second (s, r, grown, counted) (t, r', grown', counted') = (
      s ++ t,
      rw (map-append key_of s t) (composes.append (map key_of s) (map key_of t) us vs r r'),
      grown' ∙ ap (λ u. u ++ t) grown ∙ append_assoc table s t,
      omega (arith, counted, counted', length-append s t),
    )

    module _ (embed : List String → Option (List V × String))
        (accepts : List (Embedding V) → List (Embedding V) → Bool)
        (batch-Gains : (entity_type : String) (batch : List (ℕ × String))
            (table : List (Embedding V)) (session : DbSession)
          → Gains
              (map (entry_key entity_type) batch)
              table
              (embed_batch V job_id embed accepts entity_type batch table session)) where
      batches-Gains :
          (entity_type : String) (batches : List (List (ℕ × String))) (table : List (Embedding V))
          (session : DbSession)
          → Gains
              (map (entry_key entity_type) (concat batches))
              table
              (embed_batches V job_id embed accepts entity_type batches table session)
      unfolding embed_batches
      batches-Gains entity_type [] table session = nothing-Gains table session
      batches-Gains entity_type (batch ∷ batches) table session =
          let first = embed_batch V job_id embed accepts entity_type batch table session in
          rw (map-append (entry_key entity_type) batch (concat batches)) (
            append-Gains (map (entry_key entity_type) batch)
              (map (entry_key entity_type) (concat batches)) table first
              (embed_batches V job_id embed accepts entity_type batches first.1 first.2)
              (batch-Gains entity_type batch table session)
              (batches-Gains entity_type batches first.1 first.2))

      pub entities-Gains :
          (entity_type : String) (entries : List (ℕ × String)) (table : List (Embedding V))
          (session : DbSession)
          → Gains
              (map (entry_key entity_type) entries)
              table
              (embed_entities V job_id embed accepts entity_type entries table session)
      unfolding embed_entities
      entities-Gains entity_type entries table session =
          subst
            (λ es.
              Gains (map (entry_key entity_type) es) table
                (embed_entities V job_id embed accepts entity_type entries table session))
            (chunks-cover embed_batch_size (omega arith) entries).0
            (batches-Gains entity_type (chunks embed_batch_size entries) table session)
