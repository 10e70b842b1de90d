-- ===== src/Validator/Verdict.antt =====
-- The verdict on one patch.
use mathlib.Core.Path.{ap₂}
use ai_project.Prelude.{
  ℕ, ◌≤◌, ◌==◌, ◌≡◌, ◌≢◌, ◌↔◌, ◌⊎◌, refl, sym, ap, inl, inr, String, Bool, true, false, not, ◌&&◌,
  Option, none, some, List, [], ◌∷◌, all, All, keep, length, count_if, count_if-le-length, one_of,
  str_eq, strip, eq_iff, subst, if◌then◌else◌, Bool-cases, Option-cases, arith,
}
use ai_project.Patches.{Patch}
use ai_project.Validator.{
  Check, Tools, Compilation, ended, timed_out, no_interpreter, broken, check_diff_format,
  check_python_syntax, check_java_stub, check_php_stub, check_js_ts_stub, check_syntax,
  check_in_sandbox, sandbox_python, compilation_check, is_stub_content, compile_check,
}
use ai_project.Validator.Run.{
  score, content_of, language_of, checks_of, if_any, verdict, ValidationRow, validate_patch,
}

-- The checks that a verdict counts.
abbrev pub is_counted : Check → Bool
is_counted c = one_of c.check_type ("syntax" ∷ "lint" ∷ [])

Counted : Check → Type 0
Counted c = is_counted c ≡ true

check_diff_format-Counted : (diff : String) → Counted (check_diff_format diff)
unfolding check_diff_format Counted
check_diff_format-Counted diff = elim (Bool-cases (str_eq (strip diff) "")) [
  | inl e ↦ rw (check_diff_format, e) refl
  | inr e ↦ rw (check_diff_format, e) refl
]

check_python_syntax-Counted :
    (tools : Tools) (content : String) → Counted (check_python_syntax tools content)
unfolding check_python_syntax Counted
check_python_syntax-Counted tools content = elim (Option-cases (tools.ast_parse content)) [
  | inl parses ↦ rw (check_python_syntax, parses) refl
  | inr (message, fails) ↦ rw (check_python_syntax, fails) refl
]

check_syntax-Counted :
    (tools : Tools) (content language : String) → Counted (check_syntax tools content language)
unfolding Counted check_syntax check_java_stub check_php_stub check_js_ts_stub
check_syntax-Counted tools content language = elim (Bool-cases (str_eq language "python")) [
  | inl python ↦ rw (check_syntax, python) (check_python_syntax-Counted tools content)
  | inr other ↦ elim (Bool-cases (str_eq language "java")) [
    | inl java ↦ rw (check_syntax, other, java) refl
    | inr third ↦ elim (Bool-cases (str_eq language "php")) [
      | inl php ↦ rw (check_syntax, other, third, php) refl
      | inr fourth ↦ elim (Bool-cases (one_of language ("javascript" ∷ "typescript" ∷ []))) [
        | inl js ↦ rw (check_syntax, other, third, fourth, js) refl
        | inr none_known ↦ rw (check_syntax, other, third, fourth, none_known) refl
      ]
    ]
  ]
]

compilation_check-cases :
    (a : Compilation)
    → (compilation_check a ≡ none)
      ⊎ ((check : Check) × (compilation_check a ≡ some check) × Counted check)
unfolding compilation_check compile_check Counted
compilation_check-cases (ended code stderr) = inr (compile_check (code == 0) stderr, refl, refl)
compilation_check-cases timed_out = inr (compile_check false "Timeout", refl, refl)
compilation_check-cases no_interpreter = inl refl
compilation_check-cases broken = inl refl

-- The sandbox gives no check, or one that is counted.
sandbox-cases :
    (tools : Tools) (wanted : Bool) (content language file_path : String)
    → let sandbox = if wanted then check_in_sandbox tools content language file_path else none in
      (sandbox ≡ none) ⊎ ((check : Check) × (sandbox ≡ some check) × Counted check)
unfolding check_in_sandbox sandbox_python
sandbox-cases tools false content language file_path = inl refl
sandbox-cases tools true content language file_path = elim (Bool-cases (str_eq language "python")) [
  | inl python ↦
      rw (check_in_sandbox, python) (compilation_check-cases (tools.py_compile content file_path))
  | inr other ↦ rw (check_in_sandbox, other) (inl refl)
]

-- Two checks, or three.
checks_of-cases :
    (tools : Tools) (patch : Patch)
    → ((a b : Check) × (checks_of tools patch ≡ a ∷ b ∷ []) × Counted a × Counted b)
      ⊎ ((a b c : Check) × (checks_of tools patch ≡ a ∷ b ∷ c ∷ [])
          × Counted a
          × Counted b
          × Counted c)
unfolding checks_of
checks_of-cases tools patch =
    let content = content_of patch in
    let language = language_of patch in
    let wanted = not (str_eq content "") && not (is_stub_content content) in
    let a = check_diff_format patch.diff in
    let b = check_syntax tools content language in
    let counted = check_diff_format-Counted patch.diff in
    let counted' = check_syntax-Counted tools content language in
    elim (sandbox-cases tools wanted content language patch.file_path) [
      | inl skipped ↦ inl (a, b, rw (checks_of, skipped) refl, counted, counted')
      | inr (c, found, counted'') ↦
          inr (a, b, c, rw (checks_of, found) refl, counted, counted', counted'')
    ]

score_two : (p : ℕ) → p ≤ 2 → (score p 2 ≤ 1000) × ((score p 2 ≡ 1000) ↔ (p ≡ 2))
unfolding score
score_two p h = ground arith

score_three : (p : ℕ) → p ≤ 3 → (score p 3 ≤ 1000) × ((score p 3 ≡ 1000) ↔ (p ≡ 3))
unfolding score
score_three p h = ground arith

-- A score is at most 1, and 1 only when everything passes.
Bounded : ℕ → ℕ → Type 0
Bounded p t = (score p t ≤ 1000) × ((score p t ≡ 1000) ↔ (p ≡ t))

score_few : (p t : ℕ) → p ≤ t → (t ≡ 2) ⊎ (t ≡ 3) → Bounded p t
unfolding Bounded
score_few p t h (inl e) = subst (λ n. p ≤ n → Bounded p n) (sym e) (score_two p) h
score_few p t h (inr e) = subst (λ n. p ≤ n → Bounded p n) (sym e) (score_three p) h

keep-All : (checks : List Check) → All Counted checks → keep is_counted checks ≡ checks
unfolding Counted
keep-All [] h = refl
keep-All (c ∷ checks) (h, hs) = rw h (ap (λ cs. c ∷ cs) (keep-All checks hs))

abbrev is_passed : Check → Bool
is_passed c = c.passed

all_iff :
    (checks : List Check)
    → (all is_passed checks ≡ true) ↔ (count_if is_passed checks ≡ length checks)
all_iff [] = (λ h. refl, λ h. refl)
all_iff (c ∷ checks) = ground (arith, all_iff checks, count_if-le-length is_passed checks)

all-All : (checks : List Check) → (all is_passed checks ≡ true) ↔ All (λ c. c.passed ≡ true) checks
all-All [] = (λ h. tt, λ h. refl)
all-All (c ∷ checks) =
    let (forth, back) = all-All checks in
    elim (Bool-cases c.passed) [
      | inl e ↦ (λ h. (e, forth (rw e at h)), λ h. rw e (back h.1))
      | inr e ↦ (λ h. absurd (cc (rw e at h)), λ h. absurd (cc))
    ]

-- What a verdict on some checks comes to.
abbrev pub Sound : ValidationRow → Type 0
Sound row =
    ((row.passed ≡ true) ↔ All (λ (c : Check). c.passed ≡ true) row.checks)
    × ((row.passed ≡ true) ↔ (row.overall_score ≡ 1000))
    × (row.overall_score ≤ 1000)

verdict-Sound :
    (job_id patch_id : ℕ) (checks : List Check)
    → All Counted checks
    → (length checks ≡ 2) ⊎ (length checks ≡ 3)
    → Sound (verdict job_id patch_id checks)
unfolding verdict Bounded
verdict-Sound job_id patch_id checks h n =
    let passed = count_if is_passed checks in
    let few = score_few passed (length checks) (count_if-le-length is_passed checks) n in
    rw (keep-All checks h) (
      all-All checks,
      (λ e. few.1.1 ((all_iff checks).0 e), λ e. (all_iff checks).1 (few.1.0 e)),
      few.0,
    )

-- A patch passes exactly when each of its checks passes, and exactly when its score is 1; no score
-- exceeds 1. This holds whatever the parser and the subprocess answer.
pub validate_patch-Sound :
    (tools : Tools) (job_id : ℕ) (patch : Patch) → Sound (validate_patch tools job_id patch)
unfolding validate_patch
validate_patch-Sound tools job_id patch =
    let of_checks = λ (checks : List Check). Sound (verdict job_id patch.id checks) in
    elim (checks_of-cases tools patch) [
      | inl (a, b, e, ha, hb) ↦
          subst of_checks (sym e)
            (verdict-Sound job_id patch.id (a ∷ b ∷ []) (ha, (hb, tt)) (inl refl))
      | inr (a, b, c, e, ha, hb, hc) ↦
          subst of_checks (sym e)
            (verdict-Sound job_id patch.id (a ∷ b ∷ c ∷ []) (ha, (hb, (hc, tt))) (inr refl))
    ]

not_python : (language : String) → language ≢ "python" → str_eq language "python" ≡ false
not_python language h = elim (Bool-cases (str_eq language "python")) [
  | inl e ↦ absurd (h ((eq_iff language "python").0 e))
  | inr e ↦ e
]

check_syntax-without_tools :
    (tools other : Tools) (content language : String)
    → str_eq language "python" ≡ false
    → check_syntax tools content language ≡ check_syntax other content language
unfolding check_syntax
check_syntax-without_tools tools other content language e = rw (check_syntax, e) refl

check_in_sandbox-without_tools :
    (tools other : Tools) (content language file_path : String)
    → str_eq language "python" ≡ false
    → check_in_sandbox tools content language file_path
      ≡ check_in_sandbox other content language file_path
unfolding check_in_sandbox
check_in_sandbox-without_tools tools other content language file_path e =
    rw (check_in_sandbox, e) refl

-- For a patch in a language other than Python, the verdict does not depend on any tool: neither
-- the parser nor a subprocess has a say in it.
validate_patch-without_tools :
    (tools other : Tools) (job_id : ℕ) (patch : Patch)
    → language_of patch ≢ "python"
    → validate_patch tools job_id patch ≡ validate_patch other job_id patch
unfolding validate_patch checks_of
validate_patch-without_tools tools other job_id patch h =
    let content = content_of patch in
    let language = language_of patch in
    let e = not_python language h in
    let wanted = not (str_eq content "") && not (is_stub_content content) in
    ap (verdict job_id patch.id) (
      ap (λ (cs : List Check). check_diff_format patch.diff ∷ cs)
        (ap₂ (λ (c : Check) (sandbox : Option Check). c ∷ if_any (if wanted then sandbox else none))
          (check_syntax-without_tools tools other content language e)
          (check_in_sandbox-without_tools tools other content language patch.file_path e)))
