-- ===== src/Triage/Totals.antt =====
-- The summary as sums over the smells of the job.
use ai_project.Prelude.{
  ℕ, ◌+◌, ◌≡◌, refl, ◌∙◌, inl, inr, ◌==◌, String, List, [], ◌∷◌, count_if-le-length, str_eq,
  if◌then◌else◌, Bool-cases, arith, total_of, length-total_of, count_if-total_of, total_of-keep,
}
use ai_project.Mapper.{get}
use ai_project.Mapper.Tallies.{get-bump}
use ai_project.Triage.{
  SmellRow, NodeFile, Counts, no_counts, count_smell, count_smells, severity_hours, smells_of,
  get_smell_summary,
}

-- What a smell adds to the number of active smells, to those of a severity and of a type, and to the
-- hours.
abbrev pub active : SmellRow → ℕ
active s = if s.dismissed then 0 else 1

abbrev pub of_severity : String → SmellRow → ℕ
of_severity v s = if s.dismissed then 0 else (if str_eq s.severity v then 1 else 0)

abbrev pub of_type : String → SmellRow → ℕ
of_type t s = if s.dismissed then 0 else (if str_eq s.smell_type t then 1 else 0)

abbrev pub hours_of : SmellRow → ℕ
hours_of s = if s.dismissed then 0 else severity_hours s.severity

abbrev pub is_dismissed : SmellRow → ℕ
is_dismissed s = if s.dismissed then 1 else 0

count_smell-adds :
    (s : SmellRow) (c : Counts) (v t : String)
    → let after = count_smell s c in
      (get 0 v after.by_severity ≡ get 0 v c.by_severity + of_severity v s)
      × (get 0 t after.by_type ≡ get 0 t c.by_type + of_type t s)
      × (after.hours ≡ c.hours + hours_of s)
unfolding count_smell
count_smell-adds s c v t = elim (Bool-cases s.dismissed) [
  | inl gone ↦ rw (count_smell, gone) (omega arith, omega arith, omega arith)
  | inr there ↦
      rw (count_smell, there)
        (get-bump v s.severity c.by_severity, get-bump t s.smell_type c.by_type, refl)
]

count_smells_lem :
    (smells : List SmellRow) (c : Counts) (v t : String)
    → let after = count_smells smells c in
      (get 0 v after.by_severity ≡ get 0 v c.by_severity + total_of (of_severity v) smells)
      × (get 0 t after.by_type ≡ get 0 t c.by_type + total_of (of_type t) smells)
      × (after.hours ≡ c.hours + total_of hours_of smells)
unfolding count_smells count_smell
count_smells_lem [] c v t = (omega arith, omega arith, omega arith)
count_smells_lem (s ∷ smells) c v t =
    let (a, b, h) = count_smells_lem smells (count_smell s c) v t in
    let (a', b', h') = count_smell-adds s c v t in
    (omega (arith, a, a'), omega (arith, b, b'), omega (arith, h, h'))

pub no_severity : (v : String) → get 0 v no_counts.by_severity ≡ 0
unfolding get
no_severity v = ground arith

-- What a function adds up to over the smells of a job.
abbrev pub over_job : ℕ → (SmellRow → ℕ) → List SmellRow → ℕ
over_job job_id f table = total_of (λ s. if s.job_id == job_id then f s else 0) table

-- The summary is made of sums over the job's smells: the dismissed and the active ones add up to all,
-- the number for a severity or a type, listed or not, counts the active smells of it, and the hours
-- are the sum of those of the active smells.
pub get_smell_summary-adds_up :
    (job_id : ℕ) (table : List SmellRow) (nodes : List NodeFile) (v t : String)
    → let s = get_smell_summary job_id table nodes in
      (s.active_smells + s.dismissed_smells ≡ s.total_smells)
      × (s.total_smells ≡ over_job job_id (λ r. 1) table)
      × (s.dismissed_smells ≡ over_job job_id is_dismissed table)
      × (get 0 v s.by_severity ≡ over_job job_id (of_severity v) table)
      × (get 0 t s.by_type ≡ over_job job_id (of_type t) table)
      × (s.estimated_tech_debt_hours ≡ over_job job_id hours_of table)
unfolding get_smell_summary get
get_smell_summary-adds_up job_id table nodes v t =
    let of_job = λ (r : SmellRow). r.job_id == job_id in
    let smells = smells_of job_id table in
    let (severities, types, hours) = count_smells_lem smells no_counts v t in
    let bounded = count_if-le-length (λ (r : SmellRow). r.dismissed) smells in
    (
      omega (arith, bounded),
      length-total_of smells ∙ total_of-keep (λ r. 1) of_job table,
      count_if-total_of (λ (r : SmellRow). r.dismissed) smells
          ∙ total_of-keep is_dismissed of_job table,
      omega (arith, severities, no_severity v, total_of-keep (of_severity v) of_job table),
      omega (arith, types, total_of-keep (of_type t) of_job table),
      omega (arith, hours, total_of-keep hours_of of_job table),
    )
