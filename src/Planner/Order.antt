-- ===== src/Planner/Order.antt =====
-- The order of the planned smells, and the risk level of the plan.
use ai_project.Prelude.{
  ℕ, ◌≤◌, ◌≡◌, refl, ap, ◌∙◌, inl, inr, ◌⊎◌, String, Bool, true, false, List, [], ◌∷◌, ◌==◌, keep,
  any, leb, arith, str_eq, All, Bool-cases, if◌then◌else◌,
}
use ai_project.Planner.{Smell, severity_rank, insert_smell, sort_smells, compute_risk_level}

abbrev pub rank_of : Smell → ℕ
rank_of s = severity_rank s.severity

abbrev pub IsSorted : List Smell → Type 0
IsSorted [] = Unit
IsSorted (s ∷ smells) = All (λ (t : Smell). rank_of s ≤ rank_of t) smells × IsSorted smells

insert_smell-above :
    (n : ℕ) (s : Smell) (smells : List Smell)
    → n ≤ rank_of s
    → All (λ (t : Smell). n ≤ rank_of t) smells
    → All (λ (t : Smell). n ≤ rank_of t) (insert_smell s smells)
unfolding insert_smell
insert_smell-above n s [] h hs = (h, tt)
insert_smell-above n s (t ∷ ts) h hs = elim (Bool-cases (leb (rank_of s) (rank_of t))) [
  | inl first ↦ rw first (h, hs)
  | inr later ↦ rw later (hs.0, insert_smell-above n s ts h hs.1)
]

All-le :
    (m n : ℕ) (smells : List Smell)
    → m ≤ n
    → All (λ (t : Smell). n ≤ rank_of t) smells
    → All (λ (t : Smell). m ≤ rank_of t) smells
All-le m n [] h hs = tt
All-le m n (t ∷ ts) h hs = (omega (arith, hs.0), All-le m n ts h hs.1)

insert_smell-IsSorted :
    (s : Smell) (smells : List Smell) → IsSorted smells → IsSorted (insert_smell s smells)
unfolding insert_smell
insert_smell-IsSorted s [] h = (tt, tt)
insert_smell-IsSorted s (t ∷ ts) h = elim (Bool-cases (leb (rank_of s) (rank_of t))) [
  | inl first ↦
      let le : rank_of s ≤ rank_of t = ground arith in
      rw first ((le, All-le (rank_of s) (rank_of t) ts le h.0), h)
  | inr later ↦
      let le : rank_of t ≤ rank_of s = ground arith in
      rw later (insert_smell-above (rank_of t) s ts le h.0, insert_smell-IsSorted s ts h.1)
]

insert_smell-keep :
    (r : ℕ) (s : Smell) (smells : List Smell)
    → keep (λ (t : Smell). rank_of t == r) (insert_smell s smells)
      ≡ keep (λ (t : Smell). rank_of t == r) (s ∷ smells)
unfolding insert_smell
insert_smell-keep r s [] = refl
insert_smell-keep r s (t ∷ ts) = elim (Bool-cases (leb (rank_of s) (rank_of t))) [
  | inl first ↦ rw first refl
  | inr later ↦
      let ih = insert_smell-keep r s ts in
      elim (Bool-cases (rank_of t == r)) [
        | inr other ↦ rw (later, other) ih
        | inl here ↦
            let apart : (rank_of s == r) ≡ false = ground arith in
            let ih' : keep (λ (x : Smell). rank_of x == r) (insert_smell s ts)
                ≡ keep (λ (x : Smell). rank_of x == r) ts =
              rw apart at ih in
            rw (later, here, apart) (ap (λ l. t ∷ l) ih')
      ]
]

sort_smells-IsSorted : (smells : List Smell) → IsSorted (sort_smells smells)
unfolding sort_smells
sort_smells-IsSorted [] = tt
sort_smells-IsSorted (s ∷ smells) =
    insert_smell-IsSorted s (sort_smells smells) (sort_smells-IsSorted smells)

sort_smells-keep :
    (r : ℕ) (smells : List Smell)
    → keep (λ (t : Smell). rank_of t == r) (sort_smells smells)
      ≡ keep (λ (t : Smell). rank_of t == r) smells
unfolding sort_smells
sort_smells-keep r [] = refl
sort_smells-keep r (s ∷ smells) =
    insert_smell-keep r s (sort_smells smells)
    ∙ ap (λ l. if rank_of s == r then s ∷ l else l) (sort_smells-keep r smells)

-- The planner's sort orders the smells by the rank of their severity and keeps, for every rank, the
-- smells of that rank in the order they had: none is lost, added or overtaken by an equal one.
sort_smells-stable :
    (smells : List Smell) (r : ℕ)
    → IsSorted (sort_smells smells)
      × (keep (λ (t : Smell). rank_of t == r) (sort_smells smells)
          ≡ keep (λ (t : Smell). rank_of t == r) smells)
sort_smells-stable smells r = (sort_smells-IsSorted smells, sort_smells-keep r smells)

abbrev has : String → List Smell → Bool
has severity smells = any (λ s. str_eq s.severity severity) smells

abbrev NoneHas : String → List Smell → Type 0
NoneHas severity smells = All (λ (s : Smell). str_eq s.severity severity ≡ false) smells

has-NoneHas :
    (severity : String) (smells : List Smell)
    → has severity smells ≡ false
    → NoneHas severity smells
has-NoneHas severity [] h = tt
has-NoneHas severity (s ∷ smells) h = (ground arith, has-NoneHas severity smells (ground arith))

abbrev AtLeast : ℕ → List Smell → Type 0
AtLeast n smells = All (λ (s : Smell). n ≤ rank_of s) smells

AtLeast-zero : (smells : List Smell) → AtLeast 0 smells
AtLeast-zero [] = tt
AtLeast-zero (s ∷ smells) = (omega arith, AtLeast-zero smells)

AtLeast-one : (smells : List Smell) → NoneHas "critical" smells → AtLeast 1 smells
unfolding severity_rank
AtLeast-one [] h = tt
AtLeast-one (s ∷ smells) h = (ground arith, AtLeast-one smells h.1)

AtLeast-two :
    (smells : List Smell) → NoneHas "critical" smells → NoneHas "high" smells → AtLeast 2 smells
unfolding severity_rank
AtLeast-two [] h k = tt
AtLeast-two (s ∷ smells) h k = (ground arith, AtLeast-two smells h.1 k.1)

AtLeast-three :
    (smells : List Smell)
    → NoneHas "critical" smells
    → NoneHas "high" smells
    → NoneHas "medium" smells
    → AtLeast 3 smells
unfolding severity_rank
AtLeast-three [] h k m = tt
AtLeast-three (s ∷ smells) h k m = (ground arith, AtLeast-three smells h.1 k.1 m.1)

-- The risk level of a plan is the worst severity among its smells: none ranks before it, and, unless
-- it is low, one of the smells has it.
compute_risk_level-worst :
    (smells : List Smell)
    → All (λ (s : Smell). severity_rank (compute_risk_level smells) ≤ rank_of s) smells
      × ((any (λ (s : Smell). str_eq s.severity (compute_risk_level smells)) smells ≡ true)
          ⊎ (compute_risk_level smells ≡ "low"))
unfolding compute_risk_level severity_rank
compute_risk_level-worst smells = elim (Bool-cases (has "critical" smells)) [
  | inl critical ↦ rw critical (AtLeast-zero smells, inl critical)
  | inr no_critical ↦ elim (Bool-cases (has "high" smells)) [
    | inl high ↦
        rw (no_critical, high)
          (AtLeast-one smells (has-NoneHas "critical" smells no_critical), inl high)
    | inr no_high ↦ elim (Bool-cases (has "medium" smells)) [
      | inl medium ↦
          rw (no_critical, no_high, medium)
            (
              AtLeast-two smells (has-NoneHas "critical" smells no_critical)
                  (has-NoneHas "high" smells no_high),
              inl medium,
            )
      | inr no_medium ↦
          rw (no_critical, no_high, no_medium)
            (
              AtLeast-three smells (has-NoneHas "critical" smells no_critical)
                  (has-NoneHas "high" smells no_high) (has-NoneHas "medium" smells no_medium),
              inr refl,
            )
    ]
  ]
]
