-- ===== src/Push/Written.antt =====
-- What `push_patches` (backend/app/api/v1/patches.py) sends to the repository.
use ai_project.Prelude.{
  ℕ, ◌≡◌, ◌≢◌, refl, ap, ◌⊎◌, inl, inr, ◌&&◌, ◌||◌, String, Bool, true, false, not, Option, some,
  List, [], ◌∷◌, ◌++◌, All, keep, length, map, str_eq, Bool-cases, Option-cases,
}
use ai_project.Patches.{Patch, patches_to_push}
use ai_project.Submission.{Provider, text_or}
use ai_project.Push.{
  File, Remote, PushOutcome, push_raised, taken, ignored, Git, files_to_write, is_valid_branch,
  raised, committed, push_patches_to_repo, PushRequest, PushJob, PushReply, pushed, Credentials,
  credentials, branch_of, finish, push_job, no_repo_url, no_token, no_patches, push_failed,
  job_not_found,
}
use ai_project.Push.Paths.{is_below, IsPart, starts_with-is_below}

-- A patch with a path and a content, whose path lies strictly below the root of the clone.
abbrev pub is_writable : Git → Patch → Bool
is_writable git p =
    not (str_eq p.file_path "" || str_eq p.patched_content "")
    && is_below git.root (git.resolve p.file_path)

abbrev pub written_file : Git → Patch → File
written_file git p = (git.resolve p.file_path, p.patched_content)

-- The files of the writable ones among the patches.
abbrev pub files_of : Git → List Patch → List File
files_of git patches = map (written_file git) (keep (is_writable git) patches)

abbrev pub is_pushed : PushReply → Bool
is_pushed (pushed branch commits applied url) = true
is_pushed job_not_found = false
is_pushed no_repo_url = false
is_pushed no_token = false
is_pushed no_patches = false
is_pushed (push_failed message) = false

-- What a request comes to, given the files that are to be written.
pub data Pushes (git : Git) (job : PushJob) (remote : Remote) (branch : String) (files : List File)
    (r : PushReply × PushJob × Remote) : Type 0 where
  refused : is_pushed r.0 ≡ false → r.1 ≡ job → r.2 ≡ remote → Pushes git job remote branch files r
  written :
      (url : Option String)
      → files ≢ []
      → git.push branch files ≡ taken
      → r.0 ≡ pushed branch 1 (length files) url
      → r.1 ≡ record job { fix_branch = some branch; fix_pr_url = url }
      → r.2 ≡ remote ++ (branch, files) ∷ []
      → Pushes git job remote branch files r
  untaken :
      (url : Option String)
      → files ≢ []
      → git.push branch files ≡ ignored
      → r.0 ≡ pushed branch 1 (length files) url
      → r.1 ≡ record job { fix_branch = some branch; fix_pr_url = url }
      → r.2 ≡ remote
      → Pushes git job remote branch files r
  unwritten :
      (url : Option String)
      → files ≡ []
      → r.0 ≡ pushed branch 1 0 url
      → r.1 ≡ record job { fix_branch = some branch; fix_pr_url = url }
      → r.2 ≡ remote
      → Pushes git job remote branch files r

PushOutcome-cases :
    (o : PushOutcome)
    → ((message : String) × (o ≡ push_raised message)) ⊎ ((o ≡ taken) ⊎ (o ≡ ignored))
PushOutcome-cases (push_raised message) = inl (message, refl)
PushOutcome-cases taken = inr (inl refl)
PushOutcome-cases ignored = inr (inr refl)

module _ (git : Git) (rooted : All IsPart git.root)
    (resolves : (s : String) → All IsPart (git.resolve s)) where
  files_to_write_lem :
      (patches : List Patch) → files_to_write git.root git.resolve patches ≡ files_of git patches
  unfolding files_to_write
  files_to_write_lem [] = refl
  files_to_write_lem (p ∷ patches) =
      let later = files_to_write_lem patches in
      let same =
        starts_with-is_below git.root (git.resolve p.file_path) rooted (resolves p.file_path) in
      elim (Bool-cases (str_eq p.file_path "" || str_eq p.patched_content "")) [
        | inl empty ↦ rw empty later
        | inr full ↦ elim (Bool-cases (is_below git.root (git.resolve p.file_path))) [
          | inl below ↦ rw (full, same, below) (ap (λ fs. written_file git p ∷ fs) later)
          | inr outside ↦ rw (full, same, outside) later
        ]
      ]

  finish-Pushes :
      (body : PushRequest) (c : Credentials) (url : String) (job : PushJob) (patches : List Patch)
      (branch : String) (remote : Remote)
      → Pushes git job remote branch (files_of git patches) (
          finish git body c.provider branch job
            (push_patches_to_repo git url c.token c.provider c.username patches branch remote))
  unfolding finish push_patches_to_repo
  finish-Pushes body c url job patches branch remote = elim (Bool-cases (is_valid_branch branch)) [
    | inr bad ↦ rw (push_patches_to_repo, bad) (refused refl refl refl)
    | inl good ↦ elim (Option-cases (git.clone url c.token c.provider c.username)) [
      | inr (message, failed) ↦ rw (push_patches_to_repo, good, failed) (refused refl refl refl)
      | inl cloned ↦
          rw (push_patches_to_repo, good, cloned, files_to_write_lem patches)
            (go (files_of git patches))
    ]
  ]
    where
      go :
          (files : List File)
          → Pushes git job remote branch files (
              finish git body c.provider branch job (elim files [
                | [] ↦ (committed 0, remote)
                | file ∷ files ↦ elim (git.push branch (file ∷ files)) [
                  | push_raised message ↦ (raised message, remote)
                  | taken ↦
                      (committed (length (file ∷ files)), remote ++ (branch, file ∷ files) ∷ [])
                  | ignored ↦ (committed (length (file ∷ files)), remote)
                ]
              ]))
      go [] = unwritten _ refl refl refl refl
      go (file ∷ files) = elim (PushOutcome-cases (git.push branch (file ∷ files))) [
        | inl (message, failed) ↦ rw failed (refused refl refl refl)
        | inr (inl done) ↦ rw done (written _ (λ e. cc) done refl refl refl)
        | inr (inr lost) ↦ rw lost (untaken _ (λ e. cc) lost refl refl refl)
      ]

  -- A request to push the patches of a job is refused or fails and changes neither the job nor the
  -- repository; or the remote takes one branch with exactly the files of the selected patches that have a
  -- path and a content and whose resolved path has the parts of the clone's root as its beginning and more
  -- behind them, and their number is reported; or the remote does not take the branch without an exception, or
  -- there is no such file: then nothing is in the repository, and the answer is nevertheless that of a
  -- push of one commit, with the number of the files, and the branch is noted in the job. The parts of
  -- a resolved path have no slash in them.
  pub push_job-Pushes :
      (str : ℕ → String) (body : PushRequest) (providers : List Provider) (patches : List Patch)
      (job : PushJob) (remote : Remote)
      → Pushes git job remote
          (branch_of str body job)
          (files_of git (patches_to_push body.patch_ids job.id patches))
          (push_job git str body providers patches job remote)
  unfolding push_job
  push_job-Pushes str body providers patches job remote =
      let c = credentials body job providers in
      let url = text_or job.repo_url "" in
      elim (Bool-cases (str_eq url "")) [
        | inl missing ↦ rw (push_job, missing) (refused refl refl refl)
        | inr there ↦ elim (Bool-cases (str_eq c.token "")) [
          | inl missing ↦ rw (push_job, there, missing) (refused refl refl refl)
          | inr token ↦
              rw (push_job, there, token) (go (patches_to_push body.patch_ids job.id patches))
        ]
      ]
    where
      go :
          (selected : List Patch)
          → Pushes git job remote (branch_of str body job) (files_of git selected) (elim selected [
            | [] ↦ (no_patches, job, remote)
            | p ∷ ps ↦
                finish git body
                  (credentials body job providers).provider
                  (branch_of str body job)
                  job
                  (push_patches_to_repo git
                    (text_or job.repo_url "")
                    (credentials body job providers).token
                    (credentials body job providers).provider
                    (credentials body job providers).username
                    (p ∷ ps)
                    (branch_of str body job)
                    remote)
          ])
      go [] = refused refl refl refl
      go (p ∷ ps) =
          finish-Pushes body (credentials body job providers) (text_or job.repo_url "") job (p ∷ ps)
            (branch_of str body job) remote
