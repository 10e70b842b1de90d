-- ===== src/Triage.antt =====
-- The smells of a job as users see and dismiss them: the summary and the dismissal of
-- backend/app/api/v1/smells.py, over the rows of backend/app/models/smell.py. Tables are in the order
-- of creation; hours are counted in tenths, a time stamp is a number; the cache is left out.
pub mod Totals
pub mod Dismissal
mod Examples
use ai_project.Prelude.{
  ℕ, suc, ◌+◌, ◌-◌, ◌==◌, ◌&&◌, ◌||◌, String, Bool, true, false, not, Option, none, some, List, [],
  ◌∷◌, ◌++◌, keep, map, length, elem, concat, count_if, lower, one_of, str_eq, find_row,
  replace_row, if◌then◌else◌,
}
use ai_project.Smells.Names.{insert_new}
use ai_project.Mapper.{bump}

pub record SmellRow : Type 0 where
  pub id : ℕ
  pub job_id : ℕ
  pub smell_type : String
  pub severity : String
  pub affected_node_ids : List ℕ
  pub evidence_file : Option String
  pub dismissed : Bool
  pub dismissed_at : Option ℕ
  pub dismissed_by : Option String
  pub dismissed_reason : Option String

pub record NodeFile : Type 0 where
  pub id : ℕ
  pub file_path : Option String

-- `_severity_hours.get(severity, 1.0)`
unfoldable pub severity_hours : String → ℕ
severity_hours severity =
    if str_eq severity "critical"
    then 80
    else if str_eq severity "high"
    then 40
    else if str_eq severity "medium"
    then 20
    else if str_eq severity "low"
    then 5
    else 10

-- What the loop over the smells collects.
pub record Counts : Type 0 where
  pub by_severity : List (String × ℕ)
  pub by_type : List (String × ℕ)
  pub affected_files : List String
  pub hours : ℕ

abbrev pub no_counts : Counts
no_counts = record {
  by_severity = ("critical", 0) ∷ ("high", 0) ∷ ("medium", 0) ∷ ("low", 0) ∷ [];
  by_type = [];
  affected_files = [];
  hours = 0;
}

-- the body of the loop
unfoldable pub count_smell : SmellRow → Counts → Counts
unfolding severity_hours bump
count_smell s c = if s.dismissed then c else record {
  by_severity = bump s.severity c.by_severity;
  by_type = bump s.smell_type c.by_type;
  affected_files = elim s.evidence_file [
    | none ↦ c.affected_files
    | some path ↦ insert_new path c.affected_files
  ];
  hours = c.hours + severity_hours s.severity;
}

unfoldable pub count_smells : List SmellRow → Counts → Counts
unfolding count_smell
count_smells [] c = c
count_smells (s ∷ smells) c = count_smells smells (count_smell s c)

-- the files of the affected nodes
unfoldable pub add_files : List NodeFile → List String → List String
add_files [] files = files
add_files (n ∷ nodes) files = add_files nodes (elim n.file_path [
  | none ↦ files
  | some path ↦ if str_eq path "" then files else insert_new path files
])

pub record Summary : Type 0 where
  pub total_smells : ℕ
  pub dismissed_smells : ℕ
  pub active_smells : ℕ
  pub by_severity : List (String × ℕ)
  pub by_type : List (String × ℕ)
  pub affected_files : ℕ
  pub estimated_tech_debt_hours : ℕ

-- the smells of a job
abbrev pub smells_of : ℕ → List SmellRow → List SmellRow
smells_of job_id table = keep (λ (s : SmellRow). s.job_id == job_id) table

-- `get_smell_summary`, for a job that exists
unfoldable pub get_smell_summary : ℕ → List SmellRow → List NodeFile → Summary
unfolding count_smells add_files
get_smell_summary job_id table nodes =
    let all_smells = smells_of job_id table in
    let active = keep (λ (s : SmellRow). not s.dismissed) all_smells in
    let node_ids = concat (map (λ (s : SmellRow). s.affected_node_ids) active) in
    let c = count_smells all_smells no_counts in
    let total = length all_smells in
    let dismissed = count_if (λ (s : SmellRow). s.dismissed) all_smells in
    record {
      total_smells = total;
      dismissed_smells = dismissed;
      active_smells = total - dismissed;
      by_severity = c.by_severity;
      by_type = c.by_type;
      affected_files =
          length (add_files (keep (λ (n : NodeFile). elem n.id node_ids) nodes) c.affected_files);
      estimated_tech_debt_hours = c.hours;
    }

pub record SmellDismissRequest : Type 0 where
  pub reason : String
  pub dismissed_by : Option String

pub data Reply : Type 0 where
  done : SmellRow → Reply
  job_not_found : Reply
  smell_not_found : Reply

-- the statement of `dismiss_smell` on the loaded smell
unfoldable pub dismiss : ℕ → SmellDismissRequest → SmellRow → SmellRow
dismiss now body s = record s {
  dismissed = true;
  dismissed_at = some now;
  dismissed_by = body.dismissed_by;
  dismissed_reason = some body.reason;
}

-- `dismiss_smell`
unfoldable pub dismiss_smell :
    List ℕ → ℕ → ℕ → ℕ → SmellDismissRequest → List SmellRow → Reply × List SmellRow
unfolding dismiss
dismiss_smell jobs now job_id smell_id body table =
    if elem job_id jobs
    then (elim (find_row (λ (s : SmellRow). s.id) smell_id table) [
      | none ↦ (smell_not_found, table)
      | some s ↦
          if s.job_id == job_id
          then (
            done (dismiss now body s),
            replace_row (λ (r : SmellRow). r.id) (dismiss now body s) table,
          )
          else (smell_not_found, table)
    ])
    else (job_not_found, table)
