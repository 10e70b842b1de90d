-- ===== src/Patches/Review.antt =====
-- Applying and reverting patches, one request and any sequence of them.
use ai_project.Prelude.{
  ℕ, ◌≡◌, refl, sym, ap, ◌∙◌, subst, inl, inr, Bool, true, false, ◌&&◌, Option, none, some, List,
  [], ◌∷◌, ◌==◌, arith, str_eq, one_of, Bool-cases, if◌then◌else◌, find_row, replace_row, ==_iff,
}
use ai_project.Patches.{
  Patch, ApiError, Reply, ok, err, invalid_status_transition, Action, apply, revert, load_patch,
  act, review_patch,
}

abbrev equals : Option ℕ → ℕ → Bool
equals none t = false
equals (some s) t = s == t

abbrev is_none {ℓ} : {A : Type ℓ} → Option A → Bool
is_none none = true
is_none (some a) = false

-- The time stamps say what the status says: a pending patch has neither stamp, and the stamp of an
-- applied or reverted patch is the time of its last change.
abbrev pub is_stamped : Patch → Bool
is_stamped p =
    if str_eq p.status "pending"
    then is_none p.applied_at && is_none p.reverted_at
    else if str_eq p.status "applied"
    then equals p.applied_at p.updated_at
    else if str_eq p.status "reverted"
    then equals p.reverted_at p.updated_at
    else true

-- The patch after an action that succeeds.
abbrev pub acted : Action → Patch → Patch
acted (apply now applied_by) p = record p {
  status = "applied";
  applied_at = some now;
  applied_by = applied_by;
  updated_at = now;
}
acted (revert now reason) p = record p {
  status = "reverted";
  reverted_at = some now;
  reverted_reason = some reason;
  updated_at = now;
}

act-acted : (a : Action) (p p' : Patch) → act a p ≡ ok p' → p' ≡ acted a p
unfolding act
act-acted (apply t by) p p' h = elim (Bool-cases (one_of p.status ("pending" ∷ "reverted" ∷ []))) [
  | inl fits ↦ sym (cc (rw fits at h))
  | inr misfits ↦ absurd (let bad : err invalid_status_transition ≡ ok p' = rw misfits at h in cc)
]
act-acted (revert t why) p p' h = elim (Bool-cases (one_of p.status ("applied" ∷ "pending" ∷ []))) [
  | inl fits ↦ sym (cc (rw fits at h))
  | inr misfits ↦ absurd (let bad : err invalid_status_transition ≡ ok p' = rw misfits at h in cc)
]

pub acted-is_stamped : (a : Action) (p : Patch) → is_stamped (acted a p) ≡ true
acted-is_stamped (apply t by) p = (==_iff t t).1 refl
acted-is_stamped (revert t why) p = (==_iff t t).1 refl

pub acted-id : (a : Action) (p : Patch) → (acted a p).id ≡ p.id
acted-id (apply t by) p = refl
acted-id (revert t why) p = refl

pub failed-refused :
    (a : Action) (p : Patch) → p.status ≡ "failed" → act a p ≡ err invalid_status_transition
unfolding act
failed-refused (apply t by) p h = rw h
failed-refused (revert t why) p h = rw h

abbrev pub id_of : Patch → ℕ
id_of p = p.id

load_patch-row :
    (jobs : List ℕ) (job_id patch_id : ℕ) (patches : List Patch) (p : Patch)
    → load_patch jobs job_id patch_id patches ≡ ok p
    → find_row id_of patch_id patches ≡ some p
unfolding load_patch
load_patch-row jobs job_id patch_id patches p h = ground arith

module _ (jobs : List ℕ) (job_id patch_id : ℕ) (action : Action) (patches : List Patch) where
  -- Either the request fails, or it acts on one stored patch and rewrites its row.
  pub data Reviews : Reply (Patch × List Patch) → Type 0 where
    refused : (e : ApiError) → Reviews (err e)
    acts :
        (p : Patch)
        → find_row id_of patch_id patches ≡ some p
        → act action p ≡ ok (acted action p)
        → Reviews (ok (acted action p, replace_row id_of (acted action p) patches))

  loaded-Reviews :
      (p : Patch) (r : Reply Patch)
      → find_row id_of patch_id patches ≡ some p
      → act action p ≡ r
      → Reviews (elim r [ err e ↦ err e | ok p' ↦ ok (p', replace_row id_of p' patches) ])
  loaded-Reviews p (err e) row h = refused e
  loaded-Reviews p (ok p') row h =
      let e = act-acted action p p' h in
      subst (λ q. Reviews (ok (q, replace_row id_of q patches))) (sym e) (acts p row (h ∙ ap ok e))

  load-Reviews :
      (r : Reply Patch)
      → load_patch jobs job_id patch_id patches ≡ r
      → Reviews (elim r [
        | err e ↦ err e
        | ok patch ↦ elim (act action patch) [
          | err e ↦ err e
          | ok patch' ↦ ok (patch', replace_row id_of patch' patches)
        ]
      ])
  load-Reviews (err e) h = refused e
  load-Reviews (ok p) h =
      loaded-Reviews p (act action p) (load_patch-row jobs job_id patch_id patches p h) refl

  pub review_patch-Reviews : Reviews (review_patch jobs job_id patch_id action patches)
  unfolding review_patch
  review_patch-Reviews = load-Reviews (load_patch jobs job_id patch_id patches) refl
