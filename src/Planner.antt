-- ===== src/Planner.antt =====
-- The planner (backend/app/agents/planner.py): the order of the smells, the task that is made of
-- each, and the insertion of the plan and its tasks. Hours are counted in tenths. Titles,
-- descriptions and the language model, which only rewrites descriptions, are left out.
-- `round_tenths n d` is Python's `round(n / d, 1)`, in tenths; `plan_ok`, `bulk`, `row` and `order_ok`
-- say which statements the database accepts, and `fresh i` is the i-th identifier that is drawn.
pub mod Order
pub mod Stored
mod Examples
use ai_project.Prelude.{
  ℕ, suc, ◌+◌, ◌*◌, max, String, Bool, true, false, not, Option, none, some, List, [], ◌∷◌, ◌++◌,
  ◌==◌, ◌&&◌, str_eq, keep, any, map, length, leb, if◌then◌else◌,
}

pub record Smell : Type 0 where
  pub id : ℕ
  pub job_id : ℕ
  pub smell_type : String
  pub severity : String
  pub method_count : Option ℕ
  pub loc : Option ℕ
  pub file_path : Option String
  pub llm_rationale : Option String
  pub dismissed : Bool

-- `SEVERITY_RANK.get(severity, 9)`
unfoldable pub severity_rank : String → ℕ
severity_rank severity =
    if str_eq severity "critical"
    then 0
    else if str_eq severity "high"
    then 1
    else if str_eq severity "medium"
    then 2
    else if str_eq severity "low"
    then 3
    else 9

-- `smells.sort(key=…)`, which is stable
unfoldable pub insert_smell : Smell → List Smell → List Smell
insert_smell s [] = s ∷ []
insert_smell s (t ∷ ts) =
    let rest = insert_smell s ts in
    if leb (severity_rank s.severity) (severity_rank t.severity) then s ∷ t ∷ ts else t ∷ rest

unfoldable pub sort_smells : List Smell → List Smell
unfolding insert_smell
sort_smells [] = []
sort_smells (s ∷ smells) = insert_smell s (sort_smells smells)

abbrev pub Mapping : Type 0
Mapping = String × ℕ × Bool

-- `SMELL_TASK_MAP`, with the default of `_smell_to_task`
abbrev pub smell_task_map : List (String × Mapping)
smell_task_map =
    ("god_class", ("extract_class", 80, true))
    ∷ ("large_class", ("extract_class", 60, true))
    ∷ ("long_method", ("extract_method", 20, true))
    ∷ ("feature_envy", ("move_method", 40, true))
    ∷ ("tight_coupling", ("introduce_interface", 50, true))
    ∷ ("circular_dependency", ("break_circular_dependency", 80, false))
    ∷ ("dead_code", ("remove_dead_code", 10, true))
    ∷ ("anemic_domain_model", ("introduce_interface", 40, false))
    ∷ ("data_clumps", ("introduce_parameter_object", 30, true))
    ∷ ("shotgun_surgery", ("introduce_facade", 60, false))
    ∷ ("divergent_change", ("extract_class", 50, false))
    ∷ ("primitive_obsession", ("replace_magic_numbers", 20, true))
    ∷ ("long_parameter_list", ("introduce_parameter_object", 20, true))
    ∷ ("spaghetti_code", ("decompose_conditional", 60, false))
    ∷ ("lava_flow", ("remove_dead_code", 40, false))
    ∷ ("missing_abstraction", ("introduce_interface", 50, false))
    ∷ ("singleton_abuse", ("introduce_facade", 30, false))
    ∷ []

unfoldable pub mapping_in : List (String × Mapping) → String → Mapping
mapping_in [] smell_type = ("introduce_interface", 30, false)
mapping_in ((name, mapping) ∷ rows) smell_type =
    if str_eq name smell_type then mapping else mapping_in rows smell_type

-- `evidence.get(key, default)`
abbrev pub get_or : ℕ → Option ℕ → ℕ
get_or d none = d
get_or d (some n) = n

pub record Task : Type 0 where
  pub smell_ids : List ℕ
  pub affected_files : List String
  pub refactor_pattern : String
  pub estimated_hours : ℕ
  pub automated : Bool
  pub notes : Option String
  pub severity : String
  pub dependencies : List ℕ

abbrev pub files_of : Option String → List String
files_of none = []
files_of (some path) = if str_eq path "" then [] else path ∷ []

-- `_compute_risk_level`
unfoldable pub compute_risk_level : List Smell → String
compute_risk_level smells =
    if any (λ s. str_eq s.severity "critical") smells
    then "critical"
    else if any (λ s. str_eq s.severity "high") smells
    then "high"
    else if any (λ s. str_eq s.severity "medium") smells
    then "medium"
    else "low"

pub record Plan : Type 0 where
  pub id : ℕ
  pub job_id : ℕ
  pub version : ℕ
  pub estimated_effort_hours : ℕ
  pub risk_level : String
  pub priority_order : List ℕ

pub record TaskRow : Type 0 where
  pub id : ℕ
  pub plan_id : ℕ
  pub job_id : ℕ
  pub task : Task
  pub status : String

pub record Db : Type 0 where
  pub plans : List Plan
  pub tasks : List TaskRow

pub data Result : Type 0 where
  -- `{"tasks_created": 0, "plan_id": None}`
  nothing_to_plan : Result
  planned : ℕ → ℕ → ℕ → String → Result
  failed_to_insert : Result

abbrev pub total : List Task → ℕ
total [] = 0
total (t ∷ tasks) = t.estimated_hours + total tasks

-- the rows of the tasks, the n-th identifier for the first
unfoldable pub task_rows : (ℕ → ℕ) → ℕ → ℕ → ℕ → List Task → List TaskRow
task_rows fresh n plan_id job_id [] = []
task_rows fresh n plan_id job_id (t ∷ tasks) =
    record { id = fresh n; plan_id = plan_id; job_id = job_id; task = t; status = "pending" }
    ∷ task_rows fresh (suc n) plan_id job_id tasks

module _ (round_tenths : ℕ → ℕ → ℕ) where
  -- the effort of `_smell_to_task`, rounded; `base` is in tenths, so the larger of two is taken after
  -- rounding, which keeps their order
  unfoldable pub effort_of : Smell → ℕ → ℕ
  effort_of s base =
      if str_eq s.smell_type "god_class"
      then max base (round_tenths (get_or 10 s.method_count) 5)
      else if str_eq s.smell_type "large_class"
      then max base (round_tenths (get_or 300 s.loc) 60)
      else if str_eq s.smell_type "long_method"
      then max 10 (round_tenths (get_or 50 s.loc) 25)
      else base

  -- `_smell_to_task`, with the dependencies of `_assign_dependencies`
  unfoldable pub smell_to_task : Smell → Task
  unfolding mapping_in effort_of
  smell_to_task s =
      let (pattern, base_effort, automated) = mapping_in smell_task_map s.smell_type in
      record {
        smell_ids = s.id ∷ [];
        affected_files = files_of s.file_path;
        refactor_pattern = pattern;
        estimated_hours = effort_of s base_effort;
        automated = automated;
        notes = s.llm_rationale;
        severity = s.severity;
        dependencies = [];
      }

  module _ (plan_ok bulk order_ok : Bool) (row : Task → Bool) (fresh : ℕ → ℕ) where
    -- `run`, from the smells of the table
    unfoldable pub run : ℕ → List Smell → Db → Result × Db
    unfolding sort_smells smell_to_task task_rows
    run job_id table db =
        let smells = sort_smells (keep (λ s. (s.job_id == job_id) && not s.dismissed) table) in
        let tasks = map smell_to_task smells in
        let plan_id = fresh 0 in
        let rows = task_rows fresh 1 plan_id job_id tasks in
        let task_ids = map (λ (r : TaskRow). r.id) rows in
        let plan : Plan = record {
          id = plan_id;
          job_id = job_id;
          version = 1;
          estimated_effort_hours = total tasks;
          risk_level = compute_risk_level smells;
          priority_order = if order_ok then task_ids else [];
        } in
        let stored = if bulk then rows else keep (λ (r : TaskRow). row r.task) rows in
        if length tasks == 0
        then (nothing_to_plan, db)
        else if plan_ok
        then (
          planned plan_id (length rows) (total tasks) (compute_risk_level smells),
          record { plans = db.plans ++ plan ∷ []; tasks = db.tasks ++ stored },
        )
        else (failed_to_insert, db)
