-- ===== src/Triage/Dismissal.antt =====
-- What a dismissal changes in the summaries.
use ai_project.Prelude.{
  ℕ, ◌+◌, ◌≡◌, ◌≢◌, sym, ap, ◌∙◌, inl, inr, ◌==◌, ==_iff, String, true, some, List, elem, find_row,
  replace_row, find_row-key, total_of-replace_row, if◌then◌else◌, Bool-cases, Option-cases, arith,
}
use ai_project.Mapper.{get}
use ai_project.Triage.{
  SmellRow, NodeFile, SmellDismissRequest, done, dismiss, dismiss_smell, get_smell_summary,
}
use ai_project.Triage.Totals.{
  active, of_severity, of_type, hours_of, is_dismissed, over_job, get_smell_summary-adds_up,
}

abbrev key : SmellRow → ℕ
key r = r.id

module _ (jobs : List ℕ) (now job_id smell_id : ℕ) (body : SmellDismissRequest)
    (table : List SmellRow) where
  -- A request that succeeds has found its smell in the job.
  dismiss_smell-found :
      (row : SmellRow) (after : List SmellRow)
      → dismiss_smell jobs now job_id smell_id body table ≡ (done row, after)
      → (s : SmellRow) × (find_row key smell_id table ≡ some s)
        × (s.job_id ≡ job_id)
        × (after ≡ replace_row key (dismiss now body s) table)
  unfolding dismiss_smell
  dismiss_smell-found row after h = elim (Bool-cases (elem job_id jobs)) [
    | inr unknown ↦ absurd (cc (rw (dismiss_smell, unknown) at h))
    | inl known ↦ elim (Option-cases (find_row key smell_id table)) [
      | inl missing ↦ absurd (cc (rw (dismiss_smell, known, missing) at h))
      | inr (s, found) ↦ elim (Bool-cases (s.job_id == job_id)) [
        | inr other ↦ absurd (cc (rw (dismiss_smell, known, found, other) at h))
        | inl same ↦
            let e : (done (dismiss now body s), replace_row key (dismiss now body s) table)
                ≡ (done row, after) =
              rw (dismiss_smell, known, found, same) at h in
            let t : replace_row key (dismiss now body s) table ≡ after = cc e in
            (s, found, (==_iff s.job_id job_id).0 same, sym t)
      ]
    ]
  ]

  -- A dismissal takes what the smell added to a sum out, and puts in what it adds once dismissed.
  over_job-dismiss :
      (s : SmellRow) (k : ℕ) (f : SmellRow → ℕ)
      → find_row key smell_id table ≡ some s
      → let after = replace_row key (dismiss now body s) table in
        over_job k f after + (if s.job_id == k then f s else 0)
        ≡ over_job k f table + (if s.job_id == k then f (dismiss now body s) else 0)
  unfolding dismiss
  over_job-dismiss s k f found =
      let e : s.id ≡ smell_id = find_row-key key smell_id table s found in
      total_of-replace_row key (λ r. if r.job_id == k then f r else 0) (dismiss now body s) table s
        (ap (λ i. find_row key i table) e ∙ found)

  module _ (s : SmellRow) (after : List SmellRow) (found : find_row key smell_id table ≡ some s)
      (own : s.job_id ≡ job_id) (e : after ≡ replace_row key (dismiss now body s) table) where
    moved :
        (k : ℕ) (f : SmellRow → ℕ)
        → over_job k f after + (if s.job_id == k then f s else 0)
          ≡ over_job k f table + (if s.job_id == k then f (dismiss now body s) else 0)
    moved k f =
        ap (λ rows. over_job k f rows + (if s.job_id == k then f s else 0)) e
        ∙ over_job-dismiss s k f found

    moved_in_job :
        (f : SmellRow → ℕ)
        → over_job job_id f after + f s ≡ over_job job_id f table + f (dismiss now body s)
    moved_in_job f =
        let here : (s.job_id == job_id) ≡ true = (==_iff s.job_id job_id).1 own in
        rw here at (moved job_id f)

    unmoved_elsewhere :
        (k : ℕ) (f : SmellRow → ℕ) → k ≢ job_id → over_job k f after ≡ over_job k f table
    unmoved_elsewhere k f other = elim (Bool-cases (s.job_id == k)) [
      | inl same ↦ absurd (other (sym ((==_iff s.job_id k).0 same) ∙ own))
      | inr apart ↦
          let m : over_job k f after + 0 ≡ over_job k f table + 0 = rw apart at (moved k f) in
          omega (arith, m)
    ]

  -- A dismissal that succeeds moves its smell in the summary of its job and leaves those of other jobs:
  -- the total stays; unless the smell was dismissed before, one more is dismissed, one fewer is active,
  -- of its severity and of its type, and the hours are fewer by its own. Of another job, every number
  -- that is a sum over its smells is as before. Of the affected files nothing is said.
  pub dismiss_smell-moves :
      (row : SmellRow) (after : List SmellRow) (nodes : List NodeFile) (v t : String)
      → dismiss_smell jobs now job_id smell_id body table ≡ (done row, after)
      → let old = get_smell_summary job_id table nodes in
        let new = get_smell_summary job_id after nodes in
        (s : SmellRow) × (find_row key smell_id table ≡ some s)
        × (new.total_smells ≡ old.total_smells)
        × (new.dismissed_smells ≡ old.dismissed_smells + active s)
        × (new.active_smells + active s ≡ old.active_smells)
        × (get 0 v new.by_severity + of_severity v s ≡ get 0 v old.by_severity)
        × (get 0 t new.by_type + of_type t s ≡ get 0 t old.by_type)
        × (new.estimated_tech_debt_hours + hours_of s ≡ old.estimated_tech_debt_hours)
        × ((k : ℕ) (f : SmellRow → ℕ) → k ≢ job_id → over_job k f after ≡ over_job k f table)
  unfolding dismiss
  dismiss_smell-moves row after nodes v t h =
      let (s, found, own, e) = dismiss_smell-found row after h in
      let (sum, total, gone, severity, type_, hours) =
        get_smell_summary-adds_up job_id table nodes v t in
      let (sum', total', gone', severity', type_', hours') =
        get_smell_summary-adds_up job_id after nodes v t in
      let change = moved_in_job s after found own e in
      let one : is_dismissed s + active s ≡ 1 = ground arith in
      let d = change is_dismissed in
      let all = change (λ r. 1) in
      let sev = change (of_severity v) in
      let ty = change (of_type t) in
      let hrs = change hours_of in
      (
        s,
        found,
        omega (arith, total, total', all),
        omega (arith, gone, gone', d, one),
        omega (arith, gone, gone', d, one, total, total', all, sum, sum'),
        omega (arith, severity, severity', sev),
        omega (arith, type_, type_', ty),
        omega (arith, hours, hours', hrs),
        unmoved_elsewhere s after found own e,
      )
