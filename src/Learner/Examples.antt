-- ===== src/Learner/Examples.antt =====
-- A job with a class and a smell, a model that answers for every text, and one that leaves texts out.
use ai_project.Prelude.{
  ℕ, ◌≡◌, refl, String, true, false, Bool, Option, none, some, List, [], ◌∷◌, map,
}
use ai_project.Mapper.{chunks, chunks_from}
use ai_project.Learner.{
  Artifacts, Embedding, run, learn, embed_entities, embed_batches, embed_batch, insert_embeddings,
  rows_for, rollback, node_text, labelled, find_similar_jobs,
}
use ai_project.Learner.Written.{Embeds, run-Embeds}

abbrev artifacts : Artifacts
artifacts = record {
  nodes =
      record {
        id = 1;
        job_id = 7;
        node_type = "CLASS";
        language = "php";
        qualified_name = "Cart";
        file_path = none;
        bases = "[]";
        is_abstract = "False";
        visibility = "public";
      }
      ∷ record {
        id = 2;
        job_id = 7;
        node_type = "FILE";
        language = "php";
        qualified_name = "cart.php";
        file_path = some "cart.php";
        bases = "[]";
        is_abstract = "False";
        visibility = "public";
      }
      ∷ [];
  smells =
      record {
        id = 3;
        job_id = 7;
        smell_type = "god_class";
        severity = "high";
        description = "big";
        evidence_json = "{}";
      }
      ∷ [];
  tasks = [];
}

-- A vector is a number here.
abbrev answering : List String → Option (List ℕ × String)
answering texts = some (map (λ (s : String). 1) texts, "ada")

-- A model that answers with one vector, whatever it is asked.
abbrev short : List String → Option (List ℕ × String)
short texts = some (1 ∷ [], "ada")

abbrev always : List (Embedding ℕ) → List (Embedding ℕ) → Bool
always table rows = true

abbrev never_two : List (Embedding ℕ) → List (Embedding ℕ) → Bool
never_two [] rows = true
never_two (r ∷ table) rows = false

abbrev similar : ℕ → Option (List (ℕ × ℕ))
similar v = some ((4, 900) ∷ (5, 600) ∷ [])

learned :
    (run ℕ 7 answering always similar true artifacts []).0
    ≡ some record { embeddings_created = 2; patterns_indexed = 2; similar_jobs = 4 ∷ [] }
unfolding run learn embed_entities embed_batches embed_batch insert_embeddings rows_for chunks
    chunks_from find_similar_jobs
learned = refl

named :
    node_text (record {
      id = 1;
      job_id = 7;
      node_type = "CLASS";
      language = "php";
      qualified_name = "Cart";
      file_path = none;
      bases = "[]";
      is_abstract = "False";
      visibility = "public";
    })
    ≡ "language:php type:CLASS name:Cart file: bases:[] is_abstract:False visibility:public"
unfolding node_text labelled
named = refl

abbrev never : List (Embedding ℕ) → List (Embedding ℕ) → Bool
never table rows = false

-- When the rows of the nodes are refused, the run raises at the texts of the smells.
refused_raises : (run ℕ 7 answering never similar true artifacts []).0 ≡ none
unfolding run learn embed_entities embed_batches embed_batch insert_embeddings rollback rows_for
    chunks chunks_from find_similar_jobs
refused_raises = refl

run-Embeds_example :
    Embeds ℕ 7 short never_two similar artifacts []
      (run ℕ 7 short never_two similar true artifacts [])
run-Embeds_example = run-Embeds ℕ 7 short never_two similar true artifacts []
