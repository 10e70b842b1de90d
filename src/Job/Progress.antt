-- ===== src/Job/Progress.antt =====
-- What the stage display shows.
use ai_project.Prelude.{
  ℕ, zero, suc, ◌-◌, ◌<◌, ◌≡◌, String, false, some, List, [], ◌∷◌, ◌++◌, arith, str_eq,
}
use ai_project.Job.{Job, current_of, deferred_of, stage_progress}

abbrev pub copies : ℕ → String → List String
copies zero s = []
copies (suc n) s = s ∷ copies n s

-- The display of a job that reached the stage at position `k`: the stages before it are
-- complete, it shows `state`, and those behind it are pending.
abbrev pub reached : ℕ → String → List String
reached k state = copies k "complete" ++ state ∷ copies (4 - k) "pending"

abbrev pub stage_at : ℕ → String
stage_at zero = "detecting"
stage_at (suc zero) = "mapping"
stage_at (suc (suc zero)) = "analyzing"
stage_at (suc (suc (suc zero))) = "planning"
stage_at n = "validating"

-- The same display from the text that `stage_progress` compares.
progress-running :
    (job : Job) (k : ℕ)
    → k < 5
    → current_of job ≡ stage_at k
    → deferred_of job ≡ []
    → str_eq job.status "failed" ≡ false
    → str_eq job.status "complete" ≡ false
    → stage_progress job ≡ reached k "running"
unfolding stage_progress
progress-running job zero lt at plain f c = simp (at, plain, f, c)
progress-running job (suc zero) lt at plain f c = simp (at, plain, f, c)
progress-running job (suc (suc zero)) lt at plain f c = simp (at, plain, f, c)
progress-running job (suc (suc (suc zero))) lt at plain f c = simp (at, plain, f, c)
progress-running job (suc (suc (suc (suc zero)))) lt at plain f c = simp (at, plain, f, c)
progress-running job (suc (suc (suc (suc (suc k))))) lt at plain f c = absurd (omega arith)

progress-failed :
    (job : Job) (k : ℕ)
    → k < 5
    → current_of job ≡ stage_at k
    → deferred_of job ≡ []
    → job.status ≡ "failed"
    → stage_progress job ≡ reached k "failed"
unfolding stage_progress
progress-failed job zero lt at plain f = simp (at, plain, f)
progress-failed job (suc zero) lt at plain f = simp (at, plain, f)
progress-failed job (suc (suc zero)) lt at plain f = simp (at, plain, f)
progress-failed job (suc (suc (suc zero))) lt at plain f = simp (at, plain, f)
progress-failed job (suc (suc (suc (suc zero)))) lt at plain f = simp (at, plain, f)
progress-failed job (suc (suc (suc (suc (suc k))))) lt at plain f = absurd (omega arith)

-- A job at one of the five stages, with no stage skipped, shows the stages before it as complete,
-- its own as running, and the later ones as pending, unless its status says failed or complete.
stage_progress-running :
    (job : Job) (k : ℕ)
    → k < 5
    → job.current_stage ≡ some (stage_at k)
    → deferred_of job ≡ []
    → str_eq job.status "failed" ≡ false
    → str_eq job.status "complete" ≡ false
    → stage_progress job ≡ reached k "running"
stage_progress-running job k lt at = progress-running job k lt (rw at)

-- A failed job that keeps its stage, with no stage skipped, shows that stage as failed, the stages
-- before it as complete and the later ones as pending.
pub stage_progress-failed :
    (job : Job) (k : ℕ)
    → k < 5
    → job.current_stage ≡ some (stage_at k)
    → deferred_of job ≡ []
    → job.status ≡ "failed"
    → stage_progress job ≡ reached k "failed"
stage_progress-failed job k lt at = progress-failed job k lt (rw at)
