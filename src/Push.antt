-- ===== src/Push.antt =====
-- Pushing patches to a repository: push_patches of backend/app/api/v1/patches.py over push_patches_to_repo
-- of backend/app/services/vcs.py. What git, the file system and GitHub do is a parameter: the messages of
-- their exceptions, the resolved path of a file in the clone, and the URL of a pull request. The times, the
-- texts of the commit and the pull request, and the cache are left out.
pub mod Paths
pub mod Written
mod Examples
use Prim.Native.Char.{Char, code}
use ai_project.Prelude.{
  ℕ, ◌+◌, ◌==◌, ◌&&◌, ◌||◌, String, Bool, true, false, not, Option, none, some, List, [], ◌∷◌, ◌++◌,
  char_count, find_row, replace_row, replace_row, first_chars, join_text, leb, length, or_else,
  starts_with, str_eq, if◌then◌else◌,
}
use ai_project.Patches.{Patch, patches_to_push}
use ai_project.Submission.{Provider, find_provider, text_or}
use ai_project.Push.Paths.{path_text}

-- `[a-zA-Z0-9._/\-]`
abbrev is_branch_char : Char → Bool
is_branch_char c =
    let n = code c in
    (leb 97 n && leb n 122) || (leb 65 n && leb n 90) || (leb 45 n && leb n 57) || n == 95

unfoldable all_branch_chars : String → Bool
all_branch_chars String.[] = true
all_branch_chars (String.◌∷◌ c s) = is_branch_char c && all_branch_chars s

-- the text without one newline at its end, where `$` matches too
unfoldable without_newline : String → String
without_newline String.[] = String.[]
without_newline (String.◌∷◌ c s) =
    let rest = without_newline s in
    if (code c == 10) && str_eq s "" then String.[] else String.◌∷◌ c rest

-- `_validate_branch_name`
unfoldable pub is_valid_branch : String → Bool
unfolding all_branch_chars without_newline char_count
is_valid_branch branch =
    let name = without_newline branch in
    all_branch_chars name && leb 1 (char_count name) && leb (char_count name) 200

-- A file: the parts of its path, and its content.
abbrev pub File : Type 0
File = List String × String

-- The branches that the remote has taken, with the files written for them.
abbrev pub Remote : Type 0
Remote = List (String × List File)

-- How `origin.push` ends: it raises, the remote takes the branch, or the remote does not take it and the
-- call returns all the same. What it returns is not looked at.
pub data PushOutcome : Type 0 where
  push_raised : String → PushOutcome
  taken ignored : PushOutcome

pub record Git : Type 0 where
  pub root : List String
  pub resolve : String → List String
  pub clone : String → String → String → Option String → Option String
  pub push : String → List File → PushOutcome
  pub create_pr : String → Option String

-- the loop over the patches
unfoldable pub files_to_write : List String → (String → List String) → List Patch → List File
unfolding path_text
files_to_write root resolve [] = []
files_to_write root resolve (p ∷ patches) =
    let rest = files_to_write root resolve patches in
    let full_path = resolve p.file_path in
    if str_eq p.file_path "" || str_eq p.patched_content ""
    then rest
    else if not (starts_with (path_text full_path) (join_text (path_text root) "/"))
    then rest
    else (full_path, p.patched_content) ∷ rest

pub data Pushed : Type 0 where
  raised : String → Pushed
  committed : ℕ → Pushed

-- `push_patches_to_repo`
unfoldable pub push_patches_to_repo :
    Git → String → String → String → Option String → List Patch → String → Remote → Pushed × Remote
unfolding is_valid_branch files_to_write
push_patches_to_repo git repo_url token provider username patches branch_name remote =
    if not (is_valid_branch branch_name)
    then (raised "Invalid branch name", remote)
    else elim (git.clone repo_url token provider username) [
      | some message ↦ (raised message, remote)
      | none ↦ elim (files_to_write git.root git.resolve patches) [
        | [] ↦ (committed 0, remote)
        | file ∷ files ↦ elim (git.push branch_name (file ∷ files)) [
          | push_raised message ↦ (raised message, remote)
          | taken ↦ (committed (length (file ∷ files)), remote ++ (branch_name, file ∷ files) ∷ [])
          | ignored ↦ (committed (length (file ∷ files)), remote)
        ]
      ]
    ]

pub record PushRequest : Type 0 where
  pub branch_name : Option String
  pub provider_id : Option ℕ
  pub token : Option String
  pub create_pr : Bool
  pub patch_ids : List ℕ

-- The columns of a job that are read or written.
pub record PushJob : Type 0 where
  pub id : ℕ
  pub repo_url : Option String
  pub vcs_provider_id : Option ℕ
  pub fix_branch : Option String
  pub fix_pr_url : Option String

pub data PushReply : Type 0 where
  job_not_found no_repo_url no_token no_patches : PushReply
  push_failed : String → PushReply
  pushed : String → ℕ → ℕ → Option String → PushReply

pub record Credentials : Type 0 where
  pub token : String
  pub provider : String
  pub username : Option String

-- `body.provider_id or job.vcs_provider_id`, and what is stored under it
unfoldable pub credentials : PushRequest → PushJob → List Provider → Credentials
unfolding find_provider
credentials body job providers =
    let plain : Credentials = record {
      token = text_or body.token "";
      provider = "github";
      username = none;
    } in
    let stored : ℕ → Credentials = λ id. elim (find_provider id providers) [
      | none ↦ plain
      | some p ↦ record {
        token = text_or body.token p.token;
        provider = p.provider;
        username = p.username;
      }
    ] in
    elim body.provider_id [
      | some id ↦ stored id
      | none ↦ elim job.vcs_provider_id [ none ↦ plain | some id ↦ stored id ]
    ]

-- `body.branch_name or f"alm/fixes-{str(job_id)[:8]}"`
abbrev pub branch_of : (ℕ → String) → PushRequest → PushJob → String
branch_of str body job =
    text_or body.branch_name (join_text "alm/fixes-" (first_chars 8 (str job.id)))

-- the end of `push_patches`, after the push
unfoldable pub finish :
    Git → PushRequest → String → String → PushJob → Pushed × Remote → PushReply × PushJob × Remote
finish git body provider branch job (raised message, remote) = (push_failed message, job, remote)
finish git body provider branch job (committed n, remote) =
    let pr_url =
      if body.create_pr && str_eq provider "github" then git.create_pr branch else none in
    (pushed branch 1 n pr_url, record job { fix_branch = some branch; fix_pr_url = pr_url }, remote)

-- `push_patches`, for a job that is there
unfoldable pub push_job :
    Git
    → (ℕ → String)
    → PushRequest
    → List Provider
    → List Patch
    → PushJob
    → Remote
    → PushReply × PushJob × Remote
unfolding credentials push_patches_to_repo finish patches_to_push
push_job git str body providers patches job remote =
    let c = credentials body job providers in
    let selected = patches_to_push body.patch_ids job.id patches in
    let branch = branch_of str body job in
    let url = text_or job.repo_url "" in
    if str_eq url ""
    then (no_repo_url, job, remote)
    else if str_eq c.token ""
    then (no_token, job, remote)
    else elim selected [
      | [] ↦ (no_patches, job, remote)
      | p ∷ ps ↦
          finish git body c.provider branch job
            (push_patches_to_repo git url c.token c.provider c.username (p ∷ ps) branch remote)
    ]

-- `push_patches`, over the table of jobs
unfoldable pub push_patches :
    Git
    → (ℕ → String)
    → PushRequest
    → List Provider
    → List Patch
    → ℕ
    → List PushJob
    → Remote
    → PushReply × List PushJob × Remote
unfolding push_job
push_patches git str body providers patches job_id jobs remote =
    elim (find_row (λ (j : PushJob). j.id) job_id jobs) [
      | none ↦ (job_not_found, jobs, remote)
      | some job ↦
          let (reply, after, remote') = push_job git str body providers patches job remote in
          (reply, replace_row (λ (j : PushJob). j.id) after jobs, remote')
    ]
