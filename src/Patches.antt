-- ===== src/Patches.antt =====
-- Patches and their validation results (backend/app/models/patch.py), the endpoints that list,
-- show, export, apply and revert patches, and the choice of the patches to push
-- (backend/app/api/v1/patches.py). Tables are in the order of creation, a time stamp is a number,
-- and the answer of the cache is left out.
pub mod Review
pub mod Sequence
pub mod Views
mod Examples
use ai_project.Prelude.{
  ℕ, String, Bool, true, false, Option, none, some, List, [], ◌∷◌, ◌==◌, ◌&&◌, str_eq, one_of, elem,
  lower, keep, map, length, ltb, if◌then◌else◌, find_row, replace_row,
}
use ai_project.Pagination.{QueryInt, at_least_one, clamp_size, PaginationMeta, meta_of, page_rows}

pub record Patch : Type 0 where
  pub id : ℕ
  pub job_id : ℕ
  pub task_id : ℕ
  pub file_path : String
  pub patch_type : String
  pub language : String
  pub status : String
  pub original_content : String
  pub patched_content : String
  pub diff : String
  pub tokens_used : Option ℕ
  pub model_used : Option String
  pub applied_at : Option ℕ
  pub applied_by : Option String
  pub reverted_at : Option ℕ
  pub reverted_reason : Option String
  pub created_at : ℕ
  pub updated_at : ℕ

pub record ValidationResult : Type 0 where
  pub patch_id : ℕ
  pub passed : Bool
  pub created_at : ℕ

pub data ApiError : Type 0 where
  job_not_found patch_not_found invalid_status_transition : ApiError

pub data Reply {ℓ} (A : Type ℓ) : Type ℓ where
  ok : A → Reply A
  err : ApiError → Reply A

-- `_get_patch_or_404`, after `_get_job_or_404`
unfoldable pub load_patch : List ℕ → ℕ → ℕ → List Patch → Reply Patch
load_patch jobs job_id patch_id patches =
    if elem job_id jobs
    then elim (find_row (λ (p : Patch). p.id) patch_id patches) [
      | none ↦ err patch_not_found
      | some patch ↦ if patch.job_id == job_id then ok patch else err patch_not_found
    ]
    else err job_not_found

-- The two actions, with the time at which the server handles them.
pub data Action : Type 0 where
  apply : ℕ → Option String → Action
  revert : ℕ → String → Action

-- the statement that both handlers run on the loaded patch
unfoldable pub act : Action → Patch → Reply Patch
act (apply now applied_by) patch =
    if one_of patch.status ("pending" ∷ "reverted" ∷ [])
    then ok (record patch {
      status = "applied";
      applied_at = some now;
      applied_by = applied_by;
      updated_at = now;
    })
    else err invalid_status_transition
act (revert now reason) patch =
    if one_of patch.status ("applied" ∷ "pending" ∷ [])
    then ok (record patch {
      status = "reverted";
      reverted_at = some now;
      reverted_reason = some reason;
      updated_at = now;
    })
    else err invalid_status_transition

-- `apply_patch` and `revert_patch`: the patch that the answer shows, and the table that is left
unfoldable pub review_patch : List ℕ → ℕ → ℕ → Action → List Patch → Reply (Patch × List Patch)
unfolding load_patch act
review_patch jobs job_id patch_id action patches = elim (load_patch jobs job_id patch_id patches) [
  | err e ↦ err e
  | ok patch ↦ elim (act action patch) [
    | err e ↦ err e
    | ok patch' ↦ ok (patch', replace_row (λ (p : Patch). p.id) patch' patches)
  ]
]

-- `export_patches`: the patches in the archive
unfoldable pub export_patches : ℕ → List Patch → List Patch
export_patches job_id patches =
    keep (λ p. (p.job_id == job_id) && one_of p.status ("pending" ∷ "applied" ∷ [])) patches

-- the patches that `push_patches` selects; an empty list of identifiers counts as none given
unfoldable pub patches_to_push : List ℕ → ℕ → List Patch → List Patch
patches_to_push [] job_id patches =
    keep (λ p. (p.job_id == job_id) && str_eq p.status "pending") patches
patches_to_push (i ∷ ids) job_id patches =
    keep
      (λ p.
        (p.job_id == job_id) && elem p.id (i ∷ ids) && one_of p.status ("pending" ∷ "applied" ∷ []))
      patches

-- `ORDER BY created_at DESC LIMIT 1` among the results of the patch
unfoldable pub latest_result : ℕ → List ValidationResult → Option ValidationResult
latest_result patch_id [] = none
latest_result patch_id (r ∷ rs) =
    let rest = latest_result patch_id rs in
    if r.patch_id == patch_id
    then elim rest [
      | none ↦ some r
      | some best ↦ if ltb r.created_at best.created_at then some best else some r
    ]
    else rest

-- `_get_validation_passed`
unfoldable pub get_validation_passed : ℕ → List ValidationResult → Option Bool
unfolding latest_result
get_validation_passed patch_id results = elim (latest_result patch_id results) [
  | none ↦ none
  | some r ↦ some r.passed
]

-- `latest_subq`: the greatest time stamp of the group
unfoldable pub max_created_at : ℕ → List ValidationResult → Option ℕ
max_created_at patch_id [] = none
max_created_at patch_id (r ∷ rs) =
    let rest = max_created_at patch_id rs in
    if r.patch_id == patch_id
    then elim rest [
      | none ↦ some r.created_at
      | some m ↦ if ltb r.created_at m then some m else some r.created_at
    ]
    else rest

unfoldable pub is_latest : List ValidationResult → ValidationResult → Bool
unfolding max_created_at
is_latest results r = elim (max_created_at r.patch_id results) [
  | none ↦ false
  | some m ↦ r.created_at == m
]

-- a dictionary that is built row by row: the last row of a key wins
unfoldable pub last_row : ℕ → List ValidationResult → Option Bool
last_row patch_id [] = none
last_row patch_id (r ∷ rs) =
    let rest = last_row patch_id rs in
    elim rest [ some b ↦ some b | none ↦ if r.patch_id == patch_id then some r.passed else none ]

-- `_batch_get_validation_passed(patch_ids).get(patch_id)`
unfoldable pub batch_get_validation_passed : List ℕ → List ValidationResult → ℕ → Option Bool
unfolding is_latest last_row
batch_get_validation_passed patch_ids results patch_id =
    last_row patch_id (keep (is_latest results) (keep (λ r. elem r.patch_id patch_ids) results))

unfoldable pub wanted_text : Option String → String → Bool
wanted_text none s = true
wanted_text (some w) s = if str_eq w "" then true else str_eq s (lower w)

-- the query that `list_patches` builds from its filters; an empty text counts as no filter
unfoldable pub matches : ℕ → Option String → Option String → Option ℕ → Patch → Bool
unfolding wanted_text
matches job_id patch_status language task_id p =
    (p.job_id == job_id)
    && wanted_text patch_status p.status
    && wanted_text language p.language
    && elim task_id [ none ↦ true | some t ↦ p.task_id == t ]

pub record PatchListResponse : Type 0 where
  pub data_rows : List (Patch × Option Bool)
  pub pagination : PaginationMeta

-- `list_patches`, uncached: each patch of the page with its validation result
unfoldable pub list_patches :
    List ℕ
    → ℕ
    → Option String
    → Option String
    → Option ℕ
    → QueryInt
    → QueryInt
    → List ValidationResult
    → List Patch
    → Reply PatchListResponse
unfolding batch_get_validation_passed matches
list_patches jobs job_id patch_status language task_id page page_size results patches =
    let size = clamp_size 200 page_size in
    let number = at_least_one page in
    let selected = keep (matches job_id patch_status language task_id) patches in
    let rows = page_rows number size selected in
    let ids = map (λ (p : Patch). p.id) rows in
    if elem job_id jobs
    then ok (record {
      data_rows = map (λ (p : Patch). (p, batch_get_validation_passed ids results p.id)) rows;
      pagination = meta_of number size (length selected);
    })
    else err job_not_found
