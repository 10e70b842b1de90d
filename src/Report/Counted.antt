-- ===== src/Report/Counted.antt =====
-- The numbers of a report as numbers of rows.
use ai_project.Prelude.{ℕ, not, ◌&&◌, List, ◌==◌, keep}
use ai_project.Planner.{Smell}
use ai_project.Job.{Job}
use ai_project.Patches.{Patch}
use ai_project.Report.{ReportTables}

-- The rows that a report is about.
abbrev pub reported_smells : ℕ → ReportTables → List Smell
reported_smells job_id t = keep (λ (s : Smell). (s.job_id == job_id) && not s.dismissed) t.smells

abbrev pub reported_patches : ℕ → ReportTables → List Patch
reported_patches job_id t = keep (λ (p : Patch). p.job_id == job_id) t.patches
