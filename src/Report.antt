-- ===== src/Report.antt =====
-- The modernization score of a report (backend/app/api/v1/report.py). `penalty p g` is Python's
-- `int((1 - p / g) * 20)` on floats, for p up to g. A subtraction stops at 0, where the final
-- `max(0, …)` would lift the score to, and no term raises it above 100. The statistics are those of
-- `_build_report_json`, without its texts and recommendations; hours are counted in tenths, and
-- `rate p g` is Python's `round(p / g, 3)` in thousandths.
pub mod Score
mod Passed
pub mod Counted
mod Examples
use ai_project.Prelude.{
  ℕ, ◌+◌, ◌-◌, ◌*◌, min, String, Bool, not, ◌&&◌, Option, none, some, List, [], ◌∷◌, map, elem,
  ◌==◌, str_eq, keep, count_if, length, ltb, if◌then◌else◌,
}
use ai_project.Planner.{Smell}
use ai_project.Mapper.{get, bump}
use ai_project.Plans.{Plan, PlanTask, get_latest_plan, tasks_of}
use ai_project.Patches.{Patch, ValidationResult, is_latest}
use ai_project.Job.{Job}

module _ (penalty : ℕ → ℕ → ℕ) where
  -- `_compute_modernization_score`
  unfoldable pub compute_modernization_score : ℕ → ℕ → ℕ → ℕ → ℕ → ℕ
  compute_modernization_score total_smells critical_smells high_smells patches_generated
        patches_passed =
      let others = total_smells - critical_smells - high_smells in
      let score = 100 - critical_smells * 10 - high_smells * 4 - others in
      let validated =
        if ltb 0 patches_generated
        then score - penalty patches_passed patches_generated
        else score in
      min 100 validated

  -- the statistics of `_build_report_json` that the score is computed from
  unfoldable pub score_of : ℕ → List Smell → ℕ → ℕ → ℕ
  unfolding compute_modernization_score
  score_of job_id table patches_generated patches_passed =
      let smells = keep (λ (s : Smell). (s.job_id == job_id) && not s.dismissed) table in
      compute_modernization_score (length smells)
        (count_if (λ (s : Smell). str_eq s.severity "critical") smells)
        (count_if (λ (s : Smell). str_eq s.severity "high") smells) patches_generated patches_passed

-- A dictionary that counts the rows by one of their texts, as in the two loops.
unfoldable pub count_by {ℓ} :
    {A : Type ℓ} → (A → String) → List A → List (String × ℕ) → List (String × ℕ)
unfolding bump
count_by text [] counts = counts
count_by text (x ∷ xs) counts = count_by text xs (bump (text x) counts)

abbrev pub no_severities : List (String × ℕ)
no_severities = ("critical", 0) ∷ ("high", 0) ∷ ("medium", 0) ∷ ("low", 0) ∷ []

-- `plan_summary`; the numbers of a job without a plan are the initial ones.
pub record PlanSummary : Type 0 where
  pub total_tasks : ℕ
  pub automated_tasks : ℕ
  pub estimated_effort_hours : ℕ
  pub risk_level : String

abbrev pub or_zero : Option ℕ → ℕ
or_zero none = 0
or_zero (some hours) = hours

abbrev pub or_low : Option String → String
or_low none = "low"
or_low (some level) = if str_eq level "" then "low" else level

unfoldable pub plan_summary : ℕ → List Plan → List PlanTask → PlanSummary
unfolding get_latest_plan
plan_summary job_id plans tasks = elim (get_latest_plan job_id plans) [
  | none ↦ record {
    total_tasks = 0;
    automated_tasks = 0;
    estimated_effort_hours = 0;
    risk_level = "low";
  }
  | some plan ↦
      let own = tasks_of plan.id tasks in
      record {
        total_tasks = length own;
        automated_tasks = count_if (λ (t : PlanTask). t.automated) own;
        estimated_effort_hours = or_zero plan.estimated_effort_hours;
        risk_level = or_low plan.risk_level;
      }
]

-- The rows of the join on the latest time stamp of each patch, and those of them that passed.
unfoldable pub patches_passed_of : List ℕ → List ValidationResult → ℕ
unfolding is_latest
patches_passed_of patch_ids results =
    count_if (λ (r : ValidationResult). r.passed)
      (keep (is_latest results)
        (keep (λ (r : ValidationResult). elem r.patch_id patch_ids) results))

pub record ReportJson : Type 0 where
  pub total_files_analyzed : ℕ
  pub total_lines_analyzed : ℕ
  pub languages : List String
  pub smells_found : ℕ
  pub smells_critical : ℕ
  pub patches_generated : ℕ
  pub patches_passed_validation : ℕ
  pub modernization_score : ℕ
  pub by_severity : List (String × ℕ)
  pub by_type : List (String × ℕ)
  pub plan : PlanSummary
  pub by_language : List (String × ℕ)
  pub by_patch_type : List (String × ℕ)
  pub validation_pass_rate : ℕ

-- The tables that the report reads.
pub record ReportTables : Type 0 where
  pub smells : List Smell
  pub plans : List Plan
  pub tasks : List PlanTask
  pub patches : List Patch
  pub results : List ValidationResult

module _ (penalty rate : ℕ → ℕ → ℕ) where
  -- `_build_report_json` of the job with this identifier and this row
  unfoldable pub build_report_json : ℕ → Job → ReportTables → ReportJson
  unfolding compute_modernization_score count_by plan_summary patches_passed_of get
  build_report_json job_id job t =
      let smells = keep (λ (s : Smell). (s.job_id == job_id) && not s.dismissed) t.smells in
      let patches = keep (λ (p : Patch). p.job_id == job_id) t.patches in
      let by_severity = count_by (λ (s : Smell). s.severity) smells no_severities in
      let generated = length patches in
      let passed =
        if ltb 0 generated
        then patches_passed_of (map (λ (p : Patch). p.id) patches) t.results
        else 0 in
      record {
        total_files_analyzed = or_zero job.file_count;
        total_lines_analyzed = or_zero job.total_lines;
        languages = job.languages;
        smells_found = length smells;
        smells_critical = get 0 "critical" by_severity;
        patches_generated = generated;
        patches_passed_validation = passed;
        modernization_score =
            compute_modernization_score penalty (length smells) (get 0 "critical" by_severity)
              (get 0 "high" by_severity) generated passed;
        by_severity = by_severity;
        by_type = count_by (λ (s : Smell). s.smell_type) smells [];
        plan = plan_summary job_id t.plans t.tasks;
        by_language = count_by (λ (p : Patch). p.language) patches [];
        by_patch_type = count_by (λ (p : Patch). p.patch_type) patches [];
        validation_pass_rate = if ltb 0 generated then rate passed generated else 0;
      }
