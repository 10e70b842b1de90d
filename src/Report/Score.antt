-- ===== src/Report/Score.antt =====
-- How the modernization score depends on the smells and patches of a job.
use ai_project.Prelude.{
  ℕ, ◌+◌, ◌-◌, ◌*◌, ◌≤◌, ◌<◌, ◌≡◌, refl, ◌⊎◌, inl, inr, Bool, true, false, not, ◌&&◌, List, [], ◌∷◌,
  ◌==◌, str_eq, eq_iff, keep, count_if, length, ltb, arith, Bool-cases,
}
use ai_project.Planner.{Smell}
use ai_project.Report.{compute_modernization_score, score_of}

abbrev pub is_counted : ℕ → Smell → Bool
is_counted job_id s = (s.job_id == job_id) && not s.dismissed

abbrev critical : List Smell → ℕ
critical smells = count_if (λ (s : Smell). str_eq s.severity "critical") smells

abbrev high : List Smell → ℕ
high smells = count_if (λ (s : Smell). str_eq s.severity "high") smells

not_both : (s : Smell) → str_eq s.severity "critical" ≡ true → str_eq s.severity "high" ≡ false
not_both s h = rw ((eq_iff s.severity "critical").0 h) refl

severe_le : (smells : List Smell) → critical smells + high smells ≤ length smells
severe_le [] = omega arith
severe_le (s ∷ smells) = elim (Bool-cases (str_eq s.severity "critical")) [
  | inl c ↦ rw (c, not_both s c) (omega (arith, severe_le smells))
  | inr n ↦ rw n (ground (arith, severe_le smells))
]

module _ (penalty : ℕ → ℕ → ℕ) where
  compute-le :
      (t c h t' c' h' g p : ℕ)
      → c' * 10 + h' * 4 + (t' - c' - h') ≤ c * 10 + h * 4 + (t - c - h)
      → compute_modernization_score penalty t c h g p
        ≤ compute_modernization_score penalty t' c' h' g p
  unfolding compute_modernization_score
  compute-le t c h t' c' h' g p le = elim (Bool-cases (ltb 0 g)) [
    | inl some ↦ rw some (omega (arith, le))
    | inr none ↦ rw none (omega (arith, le))
  ]

  at_most : (t c h g p : ℕ) → compute_modernization_score penalty t c h g p ≤ 100
  unfolding compute_modernization_score
  at_most t c h g p = omega arith

  costs_more :
      (s : Smell) (smells : List Smell)
      → critical smells * 10 + high smells * 4 + (length smells - critical smells - high smells)
        < critical (s ∷ smells) * 10
          + high (s ∷ smells) * 4
          + (length (s ∷ smells) - critical (s ∷ smells) - high (s ∷ smells))
  costs_more s smells =
      let le = severe_le smells in
      elim (Bool-cases (str_eq s.severity "critical")) [
        | inl c ↦ rw (c, not_both s c) (omega (arith, le))
        | inr n ↦ elim (Bool-cases (str_eq s.severity "high")) [
          | inl h ↦ rw (n, h) (omega (arith, le))
          | inr m ↦ rw (n, m) (omega (arith, le))
        ]
      ]

  -- Another row in the table of smells never raises the score of any job, and leaves the score as it
  -- was where the smell is dismissed or of another job. A score is at most 100.
  pub score_of-antitone :
      (job_id : ℕ) (s : Smell) (table : List Smell) (generated passed : ℕ)
      → (score_of penalty job_id (s ∷ table) generated passed
          ≤ score_of penalty job_id table generated passed)
        × ((is_counted job_id s ≡ true)
            ⊎ (score_of penalty job_id (s ∷ table) generated passed
                ≡ score_of penalty job_id table generated passed))
        × (score_of penalty job_id table generated passed ≤ 100)
  unfolding score_of
  score_of-antitone job_id s table generated passed =
      let smells = keep (is_counted job_id) table in
      let bound = at_most (length smells) (critical smells) (high smells) generated passed in
      elim (Bool-cases (is_counted job_id s)) [
        | inr skipped ↦ rw (score_of, skipped) (omega arith, inr refl, bound)
        | inl counted ↦
            let lt = costs_more s smells in
            rw (score_of, counted)
              (
                compute-le (length (s ∷ smells)) (critical (s ∷ smells)) (high (s ∷ smells))
                    (length smells) (critical smells) (high smells) generated passed
                    (omega (arith, lt)),
                inl refl,
                bound,
              )
      ]
