-- ===== src/Transformer/Generated.antt =====
-- What a request for patches comes to.
use mathlib.Core.List.{Sublistᴰ, append-nil}
use ai_project.Prelude.{
  ℕ, ◌==◌, ◌≡◌, ◌≢◌, refl, sym, ap, ◌∙◌, inl, inr, String, Bool, true, Option, none, some, List, [],
  ◌∷◌, keep, map, length, count_if, str_eq, subst, Bool-cases, Option-cases,
}
use ai_project.Plans.{PlanTask}
use ai_project.Patches.{Patch}
use ai_project.Inserts.{add_rows}
use ai_project.Inserts.Refine.{Grows, add_rows-Grows}
use ai_project.Transformer.{Environment, is_selected, patches_of, run_tasks, run}
use ai_project.Transformer.Endpoint.{
  JobRow, Tables, Reply, ok, err, crashed, respond, generate, guarded, path_error, generate_patches,
  job_not_found,
}

module _ (env : Environment) (sure : Patch → Bool) where
  -- The tasks that a request selects.
  abbrev pub selected : Option (List ℕ) → Tables → List PlanTask
  selected task_ids tables = keep (is_selected env task_ids) tables.tasks

  -- The counter of the job is the number of its patches.
  abbrev pub Counted : Tables → Type 0
  Counted after =
      (job : JobRow) × (after.job ≡ some job)
      × (job.patch_count ≡ some (count_if (λ (p : Patch). p.job_id == env.job_id) after.patches))

  -- A refused request changes nothing. One that selects no task fails, without a patch; any other
  -- answers with the drafts of the selected tasks, and the table has gained some of them, in their
  -- order, among them all that are sure. The counter is right in both cases.
  abbrev pub Serves : Option (List ℕ) → Tables → Reply × Tables → Type 0
  Serves task_ids tables (err e, after) = after ≡ tables
  Serves task_ids tables (crashed, after) =
      (selected task_ids tables ≡ []) × (after.patches ≡ tables.patches) × Counted after
  Serves task_ids tables (ok patches_created patch_ids, after) =
      let drafts = patches_of env (selected task_ids tables) in
      (selected task_ids tables ≢ [])
      × (patches_created ≡ length drafts)
      × (patch_ids ≡ map (λ (p : Patch). p.id) drafts)
      × ((count : ℕ) × Grows sure drafts tables.patches (count, after.patches))
      × Counted after

  module _ (accepts : List Patch → List Patch → Bool)
      (takes : (p : Patch) (table : List Patch)
        → sure p ≡ true
        → accepts table (p ∷ []) ≡ true) where
    rows-Grow :
        (rows table : List Patch)
        → (count : ℕ) × Grows sure rows table (
          count,
          elim rows as (λ _. List Patch) [
            | [] ↦ table
            | r ∷ rs ↦ (let (n, after) = add_rows accepts (r ∷ rs) table in after)
          ],
        )
    rows-Grow [] table = (0, ([], Sublistᴰ.slnil, Sublistᴰ.slnil, sym (append-nil table), refl))
    rows-Grow (r ∷ rows) table =
        ((add_rows accepts (r ∷ rows) table).0, add_rows-Grows sure accepts takes (r ∷ rows) table)

    -- The answer to a selection, and the table behind it.
    respond-Serves :
        (task_ids : Option (List ℕ)) (tables : Tables) (tasks : List PlanTask) (job : JobRow)
        → selected task_ids tables ≡ tasks
        → let (result, patches) = run_tasks env accepts tasks tables.patches in
          Serves task_ids tables (
            respond result,
            record tables {
              job = some (record job {
                patch_count = some (count_if (λ (p : Patch). p.job_id == env.job_id) patches);
              });
              patches = patches;
            },
          )
    unfolding run_tasks respond
    respond-Serves task_ids tables [] job e = (e, refl, (_, refl, refl))
    respond-Serves task_ids tables (t ∷ tasks) job e =
        let after = (run_tasks env accepts (t ∷ tasks) tables.patches).1 in
        (
          λ empty. absurd (cc (sym e ∙ empty)),
          ap (λ ts. length (patches_of env ts)) (sym e),
          ap (λ ts. map (λ (p : Patch). p.id) (patches_of env ts)) (sym e),
          subst (λ ts. (count : ℕ) × Grows sure (patches_of env ts) tables.patches (count, after))
              (sym e) (rows-Grow (patches_of env (t ∷ tasks)) tables.patches),
          (_, refl, refl),
        )

    generate-Serves :
        (task_ids : Option (List ℕ)) (job : JobRow) (tables : Tables)
        → Serves task_ids tables (generate env accepts task_ids job tables)
    unfolding generate run
    generate-Serves task_ids job tables =
        respond-Serves task_ids tables (selected task_ids tables) job refl

    guarded-Serves :
        (path_exists : String → Bool) (task_ids : Option (List ℕ)) (job : JobRow) (tables : Tables)
        → Serves task_ids tables (guarded env accepts path_exists task_ids job tables)
    unfolding guarded
    guarded-Serves path_exists task_ids job tables =
        elim (Bool-cases (str_eq job.status "complete")) [
          | inr running ↦ rw (guarded, running) refl
          | inl complete ↦ elim (Option-cases (path_error path_exists job.repo_path)) [
            | inr (error, bad) ↦ rw (guarded, complete, bad) refl
            | inl fine ↦ rw (guarded, complete, fine) (generate-Serves task_ids job tables)
          ]
        ]

    -- A request for patches that is refused changes nothing. One for a complete job whose repository is
    -- there answers with a draft for each selected task whose drafting raises nothing, in their order,
    -- and the table gains some of these, among them all that the database takes by themselves; but one
    -- that selects no task ends with an error of the server, and no patch. In both cases the counter of
    -- the job is the number of its patches in the table.
    pub generate_patches-Serves :
        (path_exists : String → Bool) (task_ids : Option (List ℕ)) (tables : Tables)
        → Serves task_ids tables (generate_patches env accepts path_exists task_ids tables)
    unfolding generate_patches
    generate_patches-Serves path_exists task_ids tables =
        elim tables.job
          as (λ (found : Option JobRow).
            Serves task_ids tables (elim found as (λ _. Reply × Tables) [
              | none ↦ (err job_not_found, tables)
              | some job ↦ guarded env accepts path_exists task_ids job tables
            ])) [ none ↦ refl | some job ↦ guarded-Serves path_exists task_ids job tables ]
