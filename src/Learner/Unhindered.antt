-- ===== src/Learner/Unhindered.antt =====
-- A run of the learner (backend/app/agents/learner.py) in which nothing fails.
use ai_project.Prelude.{ℕ, ◌≡◌, false, List}
use ai_project.Learner.{Embedding, DbSession, has_expired}
use ai_project.Learner.Embedded.{Key, Gains}

module _ (V : Type 0) (job_id : ℕ) where
  -- All that was expected is stored, and the loaded objects are not expired.
  abbrev Whole : List Key → List (Embedding V) → ℕ × List (Embedding V) × DbSession → Type 0
  Whole expected table outcome =
      Gains V job_id (λ xs ys. xs ≡ ys) expected table outcome × (has_expired outcome.2 ≡ false)
