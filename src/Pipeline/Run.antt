-- ===== src/Pipeline/Run.antt =====
-- How a run of the pipeline ends.
use ai_project.Prelude.{
  ℕ, ◌<◌, ◌≡◌, refl, String, Bool, false, Option, none, some, List, [], ◌∷◌, arith, ap, ◌∙◌, subst,
  str_eq, if◌then◌else◌,
}
use ai_project.Job.{Job, JobConfig, deferred_of, stage_progress}
use ai_project.Job.Progress.{stage_at, reached, stage_progress-failed}
use ai_project.Pipeline.{
  Agents, Attempt, completed, failed, World, Ended, not_found, cancelled_error, finished, Session,
  run_language_detector, run_mapper, run_smell_detector, run_planner, run_validator, stop_row,
  update_status, on_exception, complete_job, run_stage, run,
}
use ai_project.Pipeline.Outcomes.{
  KeepsLoaded, raises, fail_or, first_failure, IsFailedAt, EndsAs, attempt_error, IsAgent,
  run_language_detector-IsAgent, run_mapper-IsAgent, run_smell_detector-IsAgent,
  run_planner-IsAgent, run_validator-IsAgent, stop_row-job, stage_at-live,
}

module _ (db : Session) (keeps : KeepsLoaded db) (now : ℕ) where
  on_exception-IsFailedAt :
      (k : ℕ) (message : String) (w : World)
      → str_eq w.job.status "cancelled" ≡ false
      → w.job.current_stage ≡ some (stage_at k)
      → (w' : World) × (on_exception db now message w ≡ finished w')
        × IsFailedAt k message w.job.config w'
  unfolding on_exception
  on_exception-IsFailedAt k message w live at =
      let job : Job = record w.job {
        status = "failed";
        error_message = some message;
        error_stage = w.job.current_stage;
      } in
      let e : (db.commit job w.row).job ≡ job = keeps.same_object job w.row in
      (
        db.commit job w.row,
        rw (keeps.same_query w, on_exception, live),
        record {
          status = ap (λ j. j.status) e;
          row_status = keeps.writes_status job w.row;
          stage = ap (λ j. j.current_stage) e ∙ at;
          error_stage = ap (λ j. j.error_stage) e ∙ at;
          error_message = ap (λ j. j.error_message) e;
          same_config = ap (λ j. j.config) e;
        },
      )

  -- Entering a stage: the object after the status update and a possible stop request.
  record IsEntered (stage : String) (config : JobConfig) (w : World) : Type 0 where
    status : w.job.status ≡ stage
    current : w.job.current_stage ≡ some stage
    same_config : w.job.config ≡ config

  enter-IsEntered :
      (stage : String) (stopped : Bool) (w : World)
      → str_eq w.job.status "cancelled" ≡ false
      → (w' : World) × (update_status db now stage stage w ≡ some w')
        × IsEntered stage w.job.config (stop_row stopped w')
  unfolding update_status
  enter-IsEntered stage stopped w live =
      let job : Job = record w.job {
        status = stage;
        current_stage = some stage;
        started_at = elim w.job.started_at [ none ↦ some now | some t ↦ some t ];
      } in
      let e : (stop_row stopped (db.commit job w.row)).job ≡ job =
        stop_row-job stopped (db.commit job w.row) ∙ keeps.same_object job w.row in
      (
        db.commit job w.row,
        rw live,
        record {
          status = ap (λ j. j.status) e;
          current = ap (λ j. j.current_stage) e;
          same_config = ap (λ j. j.config) e;
        },
      )

  EndsAs-subst :
      {c d : JobConfig} (f : Option (ℕ × String)) (r : Ended) → c ≡ d → EndsAs c f r → EndsAs d f r
  EndsAs-subst f r e h = subst (λ x. EndsAs x f r) e h

  agent-EndsAs :
      (k : ℕ) (later : Option (ℕ × String)) (next : World → Ended) (w : World) (a : Attempt)
      → str_eq w.job.status "cancelled" ≡ false
      → w.job.current_stage ≡ some (stage_at k)
      → ((job : Job)
          → a ≡ completed job
          → EndsAs w.job.config later (next (record w { job = job })))
      → EndsAs w.job.config (fail_or k (attempt_error a) later) (elim a [
        | failed m ↦ on_exception db now m w
        | completed job ↦ next (record w { job = job })
      ])
  agent-EndsAs k later next w (completed job) live at rest = rest job refl
  agent-EndsAs k later next w (failed m) live at rest =
      let (w', e, h) = on_exception-IsFailedAt k m w live at in rw (e, EndsAs) h

  run_stage-EndsAs :
      (k : ℕ) (agent : Job → Attempt) (error : Option String) (later : Option (ℕ × String))
      (stopped : Bool) (next : World → Ended) (w : World)
      → IsAgent agent error
      → str_eq w.job.status "cancelled" ≡ false
      → ((w' : World) → w'.job.status ≡ stage_at k → EndsAs w'.job.config later (next w'))
      → EndsAs w.job.config
          (fail_or k error later)
          (run_stage db now (stage_at k) agent stopped next w)
  unfolding run_stage
  run_stage-EndsAs k agent error later stopped next w ok live rest =
      let (w', e, h) = enter-IsEntered (stage_at k) stopped w live in
      let v = stop_row stopped w' in
      let ends =
        agent-EndsAs k later next v (agent v.job) (rw h.status (stage_at-live k)) h.current
          (λ job done.
            let (same_status, same_config) = ok.leaves v.job job done in
            EndsAs-subst later (next (record v { job = job })) same_config
              (rest (record v { job = job }) (same_status ∙ h.status))) in
      rw (e, EndsAs, run_stage) (EndsAs-subst _ _ h.same_config (rw (ok.errs v.job) at ends))

  complete_job-IsComplete : (w : World) → EndsAs w.job.config none (complete_job db now w)
  unfolding complete_job
  complete_job-IsComplete w =
      let config =
        if w.job.config.eager_embeddings
        then w.job.config
        else record w.job.config { deferred_stages = some ("learning" ∷ []) } in
      let job : Job = record w.job {
        config = config;
        status = "complete";
        current_stage = none;
        completed_at = some now;
      } in
      let e = keeps.same_object job w.row in
      record {
        status = ap (λ j. j.status) e;
        row_status = keeps.writes_status job w.row;
        stage = ap (λ j. j.current_stage) e;
      }

  live_of :
      (k : ℕ) (w : World) → w.job.status ≡ stage_at k → str_eq w.job.status "cancelled" ≡ false
  live_of k w e = rw e (stage_at-live k)

-- Whatever stop requests are committed while the agents run, the run of a job that is not cancelled
-- when it starts ends by the agents' outcomes alone. If no agent raises, the job and its
-- row are "complete". Otherwise they are "failed", the job keeps the stage of the first agent
-- that raised as its current stage and its error stage, with that agent's message, and its
-- configuration is unchanged. The session keeps loaded objects as they are.
pub run-ignores-stop :
    (db : Session) (now : ℕ) (agents : Agents) (stopped : String → Bool) (w : World)
    → KeepsLoaded db
    → str_eq w.job.status "cancelled" ≡ false
    → EndsAs w.job.config (first_failure agents) (run db now agents stopped (some w))
unfolding run
run-ignores-stop db now agents stopped w keeps live =
    let next5 = complete_job db now in
    let next4 = run_stage db now "validating" (run_validator agents) (stopped "validating") next5 in
    let next3 = run_stage db now "planning" (run_planner agents) (stopped "planning") next4 in
    let next2 =
      run_stage db now "analyzing" (run_smell_detector agents) (stopped "analyzing") next3 in
    let next1 = run_stage db now "mapping" (run_mapper agents) (stopped "mapping") next2 in
    let fail4 = fail_or 4 (raises agents.validator) none in
    let fail3 = fail_or 3 (raises agents.planner) fail4 in
    let fail2 = fail_or 2 (raises agents.smell_detector) fail3 in
    let fail1 = fail_or 1 (raises agents.mapper) fail2 in
    run_stage-EndsAs db keeps now 0 (run_language_detector agents) (raises agents.language_detector)
      fail1 (stopped "detecting") next1 w (run_language_detector-IsAgent agents) live
      λ w1 e1.
        run_stage-EndsAs db keeps now 1 (run_mapper agents) (raises agents.mapper) fail2
          (stopped "mapping") next2 w1 (run_mapper-IsAgent agents) (live_of db keeps now 0 w1 e1)
          λ w2 e2.
            run_stage-EndsAs db keeps now 2 (run_smell_detector agents)
              (raises agents.smell_detector) fail3 (stopped "analyzing") next3 w2
              (run_smell_detector-IsAgent agents) (live_of db keeps now 1 w2 e2)
              λ w3 e3.
                run_stage-EndsAs db keeps now 3 (run_planner agents) (raises agents.planner) fail4
                  (stopped "planning") next4 w3 (run_planner-IsAgent agents)
                  (live_of db keeps now 2 w3 e3)
                  λ w4 e4.
                    run_stage-EndsAs db keeps now 4 (run_validator agents) (raises agents.validator)
                      none (stopped "validating") next5 w4 (run_validator-IsAgent agents)
                      (live_of db keeps now 3 w4 e4)
                      λ w5 e5. complete_job-IsComplete db keeps now w5

first_failure-lt :
    (agents : Agents) (k : ℕ) (m : String) → first_failure agents ≡ some (k, m) → k < 5
first_failure-lt agents k m h = ground arith

failed_world :
    (config : JobConfig) (k : ℕ) (m : String) (r : Ended)
    → EndsAs config (some (k, m)) r
    → (w : World) × (r ≡ finished w) × IsFailedAt k m config w
failed_world config k m (finished w) h = (w, refl, h)
failed_world config k m not_found h = elim h [ ]
failed_world config k m (cancelled_error w) h = elim h [ ]

-- When an agent raises, the run returns, and the job's stage display shows the stage of the first
-- agent that raised as failed, the stages before it as complete and the later ones as
-- pending. The job is not cancelled when it starts, its configuration defers no stage, and the
-- session keeps loaded objects.
pub run-shows-failed-stage :
    (db : Session) (now : ℕ) (agents : Agents) (stopped : String → Bool) (w : World) (k : ℕ)
    (message : String)
    → KeepsLoaded db
    → str_eq w.job.status "cancelled" ≡ false
    → deferred_of w.job ≡ []
    → first_failure agents ≡ some (k, message)
    → (w' : World) × (run db now agents stopped (some w) ≡ finished w')
      × (stage_progress w'.job ≡ reached k "failed")
run-shows-failed-stage db now agents stopped w k message keeps live plain fails =
    let ends =
      subst (λ f. EndsAs w.job.config f (run db now agents stopped (some w))) fails
        (run-ignores-stop db now agents stopped w keeps live) in
    let (w', e, h) =
      failed_world w.job.config k message (run db now agents stopped (some w)) ends in
    (
      w',
      e,
      stage_progress-failed w'.job k (first_failure-lt agents k message fails) h.stage
          (ap deferred_in h.same_config ∙ plain) h.status,
    )
  where
    deferred_in : JobConfig → List String
    deferred_in c = elim c.deferred_stages [ none ↦ [] | some l ↦ l ]
