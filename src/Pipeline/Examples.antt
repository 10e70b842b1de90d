-- ===== src/Pipeline/Examples.antt =====
-- A run in which the user stops the job while the graph is built, and one whose planner fails.
use ai_project.Prelude.{◌≡◌, refl, String, Bool, false, none, some, [], ◌∷◌, str_eq}
use ai_project.Job.{Job, stage_progress}
use ai_project.Job.Progress.{reached}
use ai_project.Pipeline.{Agents, returned, unavailable, raised, World, Session, finished, run}
use ai_project.Pipeline.Run.{run-ignores-stop, run-shows-failed-stage}
use ai_project.Pipeline.Outcomes.{KeepsLoaded, EndsAs}

abbrev fresh : Job
fresh = record {
  status = "pending";
  current_stage = none;
  languages = [];
  file_count = none;
  total_lines = none;
  config = record { eager_embeddings = false; deferred_stages = none };
  ucg_node_count = none;
  ucg_edge_count = none;
  smell_count = none;
  patch_count = none;
  error_message = none;
  error_stage = none;
  started_at = none;
  completed_at = none;
}

-- A commit writes the whole object to the row, and a query returns the loaded object.
abbrev simple : Session
simple = record { commit = λ job row. record { job = job; row = job }; requery = λ w. some w.job }

simple-KeepsLoaded : KeepsLoaded simple
simple-KeepsLoaded = record {
  same_object = λ job row. refl;
  writes_status = λ job row. refl;
  same_query = λ w. refl;
}

abbrev well : Agents
well = record {
  language_detector =
      returned (record { language = "python"; file_count = 2; total_lines = 30 } ∷ []);
  fallback = ([], 0);
  mapper = returned none;
  smell_detector = returned 4;
  planner = returned tt;
  validator = unavailable;
  learner = unavailable;
}

abbrev bad_planner : Agents
bad_planner = record well { planner = raised "Failed to insert plan" }

abbrev start : World
start = record { job = fresh; row = fresh }

abbrev stopped_in_mapping : String → Bool
stopped_in_mapping stage = str_eq stage "mapping"

run-ignores-stop_example :
    EndsAs fresh.config none (run simple 7 well stopped_in_mapping (some start))
run-ignores-stop_example =
    run-ignores-stop simple 7 well stopped_in_mapping start simple-KeepsLoaded refl

run-shows-failed-stage_example :
    (w : World) × (run simple 7 bad_planner stopped_in_mapping (some start) ≡ finished w)
    × (stage_progress w.job ≡ reached 3 "failed")
run-shows-failed-stage_example =
    run-shows-failed-stage simple 7 bad_planner stopped_in_mapping start 3 "Failed to insert plan"
      simple-KeepsLoaded refl refl refl
