-- ===== src/Triage/Examples.antt =====
-- A job with three smells, one of them dismissed, and the dismissal of the critical one.
use ai_project.Prelude.{ℕ, ◌+◌, ◌≡◌, ◌≢◌, refl, true, false, none, some, List, [], ◌∷◌, find_row}
use ai_project.Mapper.{get}
use ai_project.Triage.{
  SmellRow, NodeFile, SmellDismissRequest, done, dismiss, dismiss_smell, get_smell_summary,
  count_smells, count_smell, severity_hours, add_files,
}
use ai_project.Triage.Totals.{
  active, of_severity, of_type, hours_of, is_dismissed, over_job, get_smell_summary-adds_up,
}
use ai_project.Triage.Dismissal.{dismiss_smell-moves}

abbrev large : SmellRow
large = record {
  id = 1;
  job_id = 7;
  smell_type = "large_class";
  severity = "critical";
  affected_node_ids = 10 ∷ [];
  evidence_file = some "a.py";
  dismissed = false;
  dismissed_at = none;
  dismissed_by = none;
  dismissed_reason = none;
}

abbrev table : List SmellRow
table =
    large
    ∷ record large { id = 2; severity = "odd"; smell_type = "dead_code" }
    ∷ record large { id = 3; dismissed = true }
    ∷ record large { id = 4; job_id = 8 }
    ∷ []

abbrev nodes : List NodeFile
nodes =
    record { id = 10; file_path = some "b.py" } ∷ record { id = 11; file_path = some "c.py" } ∷ []

hours : (get_smell_summary 7 table nodes).estimated_tech_debt_hours ≡ 90
unfolding get_smell_summary count_smells count_smell severity_hours
hours = refl

files : (get_smell_summary 7 table nodes).affected_files ≡ 2
unfolding get_smell_summary count_smells count_smell add_files
files = refl

get_smell_summary-adds_up_example :
    let s = get_smell_summary 7 table nodes in
    (s.active_smells + s.dismissed_smells ≡ s.total_smells)
    × (s.total_smells ≡ over_job 7 (λ r. 1) table)
    × (s.dismissed_smells ≡ over_job 7 is_dismissed table)
    × (get 0 "odd" s.by_severity ≡ over_job 7 (of_severity "odd") table)
    × (get 0 "dead_code" s.by_type ≡ over_job 7 (of_type "dead_code") table)
    × (s.estimated_tech_debt_hours ≡ over_job 7 hours_of table)
get_smell_summary-adds_up_example = get_smell_summary-adds_up 7 table nodes "odd" "dead_code"

abbrev body : SmellDismissRequest
body = record { reason = "accepted"; dismissed_by = none }

abbrev after : List SmellRow
after =
    record large { dismissed = true; dismissed_at = some 99; dismissed_reason = some "accepted" }
    ∷ record large { id = 2; severity = "odd"; smell_type = "dead_code" }
    ∷ record large { id = 3; dismissed = true }
    ∷ record large { id = 4; job_id = 8 }
    ∷ []

abbrev row : SmellRow
row = record large { dismissed = true; dismissed_at = some 99; dismissed_reason = some "accepted" }

succeeds : dismiss_smell (7 ∷ []) 99 7 1 body table ≡ (done row, after)
unfolding dismiss_smell dismiss
succeeds = refl

dismiss_smell-moves_example :
    let old = get_smell_summary 7 table nodes in
    let new = get_smell_summary 7 after nodes in
    (s : SmellRow) × (find_row (λ (r : SmellRow). r.id) 1 table ≡ some s)
    × (new.total_smells ≡ old.total_smells)
    × (new.dismissed_smells ≡ old.dismissed_smells + active s)
    × (new.active_smells + active s ≡ old.active_smells)
    × (get 0 "critical" new.by_severity + of_severity "critical" s
        ≡ get 0 "critical" old.by_severity)
    × (get 0 "dead_code" new.by_type + of_type "dead_code" s ≡ get 0 "dead_code" old.by_type)
    × (new.estimated_tech_debt_hours + hours_of s ≡ old.estimated_tech_debt_hours)
    × ((k : ℕ) (f : SmellRow → ℕ) → k ≢ 7 → over_job k f after ≡ over_job k f table)
dismiss_smell-moves_example =
    dismiss_smell-moves (7 ∷ []) 99 7 1 body table row after nodes "critical" "dead_code" succeeds
