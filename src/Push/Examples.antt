-- ===== src/Push/Examples.antt =====
-- A job with a patch of a file in the repository, and one whose path leads out of it.
use ai_project.Prelude.{
  ℕ, ◌≡◌, refl, String, true, none, some, List, [], ◌∷◌, All, Bool-cases, inl, inr, str_eq,
  char_count, first_chars, if◌then◌else◌,
}
use ai_project.Patches.{Patch, patches_to_push}
use ai_project.Push.{
  Git, taken, ignored, PushRequest, PushJob, files_to_write, is_valid_branch, push_patches_to_repo,
  credentials, branch_of, finish, push_job, push_patches,
}
use ai_project.Push.Paths.{IsPart, path_text}
use ai_project.Push.Written.{Pushes, files_of, push_job-Pushes}

abbrev patch_at : ℕ → String → Patch
patch_at id file_path = record {
  id = id;
  job_id = 7;
  task_id = 1;
  file_path = file_path;
  patch_type = "refactor";
  language = "python";
  status = "pending";
  original_content = "a";
  patched_content = "b";
  diff = "";
  tokens_used = none;
  model_used = none;
  applied_at = none;
  applied_by = none;
  reverted_at = none;
  reverted_reason = none;
  created_at = 1;
  updated_at = 1;
}

abbrev patches : List Patch
patches = patch_at 1 "a.py" ∷ patch_at 2 "../x2/a.py" ∷ []

-- The second path leads to a sibling of the clone.
abbrev resolve : String → List String
resolve s = if str_eq s "../x2/a.py" then "tmp" ∷ "x2" ∷ "a.py" ∷ [] else "tmp" ∷ "x" ∷ "a.py" ∷ []

resolves : (s : String) → All IsPart (resolve s)
resolves s = elim (Bool-cases (str_eq s "../x2/a.py")) [
  | inl out ↦
      rw out
        ((refl, (refl, (refl, tt))), ((refl, (refl, tt)), ((refl, (refl, (refl, (refl, tt)))), tt)))
  | inr within ↦
      rw within ((refl, (refl, (refl, tt))), ((refl, tt), ((refl, (refl, (refl, (refl, tt)))), tt)))
]

abbrev git : Git
git = record {
  root = "tmp" ∷ "x" ∷ [];
  resolve = resolve;
  clone = λ url token provider username. none;
  push = λ branch files. taken;
  create_pr = λ branch. some "pr/1";
}

abbrev request : PushRequest
request = record {
  branch_name = none;
  provider_id = none;
  token = some "t";
  create_pr = true;
  patch_ids = [];
}

abbrev job : PushJob
job = record {
  id = 7;
  repo_url = some "https://host/r";
  vcs_provider_id = none;
  fix_branch = none;
  fix_pr_url = none;
}

abbrev str : ℕ → String
str n = "0a1b2c3d-77"

sent :
    (push_patches git str request [] patches 7 (job ∷ []) []).2
    ≡ ("alm/fixes-0a1b2c3d", ("tmp" ∷ "x" ∷ "a.py" ∷ [], "b") ∷ []) ∷ []
unfolding push_patches push_job credentials push_patches_to_repo finish patches_to_push
    is_valid_branch files_to_write path_text char_count first_chars
sent = refl

-- A remote that does not take the branch: the answer is that of a push.
unsent :
    (push_patches
      (record git { push = λ branch files. ignored })
      str
      request
      []
      patches
      7
      (job ∷ [])
      []).2
    ≡ []
unfolding push_patches push_job credentials push_patches_to_repo finish patches_to_push
    is_valid_branch files_to_write path_text char_count first_chars
unsent = refl

push_job-Pushes_example :
    Pushes git job []
      (branch_of str request job)
      (files_of git (patches_to_push [] 7 patches))
      (push_job git str request [] patches job [])
push_job-Pushes_example =
    push_job-Pushes git ((refl, (refl, (refl, tt))), ((refl, tt), tt)) resolves str request []
      patches job []
