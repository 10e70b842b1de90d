-- ===== src/Transformer/Drafts.antt =====
-- What a drafted patch is.
use ai_project.Prelude.{
  first_chars, ℕ, ◌<◌, ◌≡◌, ◌≢◌, refl, sym, subst, ◌⊎◌, inl, inr, String, false, Option, some,
  or_else, ltb, ltb→lt, str_eq, eq_iff, strip, contains, starts_with, Bool-cases, Option-cases,
}
use Prim.Native.String.{len}
use ai_project.Plans.{PlanTask}
use ai_project.Transformer.{
  Completion, Environment, apply_diff_to_get_patched, lines_of, make_stub_diff, file_of,
  original_of, draft, generate_patch,
}

make_stub_diff-not-empty :
    (write_hours : Option ℕ → String) (file_path : String) (task : PlanTask)
    → make_stub_diff write_hours file_path task ≢ ""
unfolding make_stub_diff lines_of
make_stub_diff-not-empty write_hours file_path task h = absurd (cc)

or_else-not-empty : (s t : String) → t ≢ "" → or_else s t ≢ ""
or_else-not-empty s t h = elim (Bool-cases (str_eq s "")) [
  | inl empty ↦ rw empty h
  | inr filled ↦ rw filled (λ e. absurd (cc ((eq_iff s "").1 e)))
]

-- A patched content is the original, or the whole answer of the model, which is long and does not look
-- like a diff.
abbrev pub IsContent : Environment → PlanTask → (original patched : String) → Type 0
IsContent env task original patched =
    (patched ≡ original)
    ⊎ ((complete : PlanTask → String → Option Completion) × (c : Completion) × (env.llm
          ≡ some complete)
        × (complete task original ≡ some c)
        × (patched ≡ strip c.content)
        × (50 < len patched)
        × (starts_with patched "---" ≡ false)
        × (contains (first_chars 500 patched) "@@" ≡ false))

draft-IsContent :
    (env : Environment) (task : PlanTask) (file_path original : String)
    → IsContent env task original (draft env task file_path original).patched_content
unfolding draft apply_diff_to_get_patched
draft-IsContent env task file_path original = elim (Option-cases env.llm) [
  | inl without ↦ rw (draft, without) (inl refl)
  | inr (complete, e) ↦ elim (Option-cases (complete task original)) [
    | inl raises ↦ rw (draft, e, raises) (inl refl)
    | inr (c, answers) ↦
        let output = strip c.content in
        elim (Bool-cases (starts_with output "---")) [
          | inl dashes ↦ rw (draft, e, answers, apply_diff_to_get_patched, dashes) (inl refl)
          | inr plain ↦ elim (Bool-cases (contains (first_chars 500 output) "@@")) [
            | inl hunk ↦ rw (draft, e, answers, apply_diff_to_get_patched, plain, hunk) (inl refl)
            | inr whole ↦ elim (Bool-cases (ltb 50 (len output))) [
              | inr short ↦
                  rw (draft, e, answers, apply_diff_to_get_patched, plain, whole, short) (inl refl)
              | inl long ↦
                  subst (IsContent env task original)
                    (sym
                      (rw (draft, e, answers, apply_diff_to_get_patched, plain, whole, long) refl))
                    (inr (complete, c, e, answers, refl, ltb→lt 50 (len output) long, plain, whole))
            ]
          ]
        ]
  ]
]

-- Whatever the language model answers, raises or leaves out, a drafted patch is pending, belongs to
-- its task, has a diff that is not empty, and its patched content is the original content unless it is the
-- whole stripped answer of the model: a text of more than 50 characters that neither begins with the
-- dashes of a diff nor has a hunk mark among its first 500 characters. So an answer in the format
-- that the prompts ask for, a diff, never changes the content.
pub generate_patch-IsDraft :
    (env : Environment) (task : PlanTask)
    → let patch = generate_patch env task in
      (patch.status ≡ "pending")
      × (patch.task_id ≡ task.id)
      × (patch.diff ≢ "")
      × IsContent env task patch.original_content patch.patched_content
unfolding generate_patch
generate_patch-IsDraft env task =
    let file_path = file_of env task in
    let original = original_of env file_path in
    (
      refl,
      refl,
      or_else-not-empty (draft env task file_path original).diff
          (make_stub_diff env.write_hours file_path task)
          (make_stub_diff-not-empty env.write_hours file_path task),
      draft-IsContent env task file_path original,
    )
