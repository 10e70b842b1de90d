-- ===== src/Patches/Sequence.antt =====
-- Sequences of requests to apply and revert patches (backend/app/api/v1/patches.py).
use ai_project.Prelude.{
  ℕ, ◌≡◌, sym, ap, ◌∙◌, subst, inl, inr, some, List, [], ◌∷◌, ◌==◌, Bool-cases, find_row,
  find_row-key, find_row-replace_row, ==_iff, All, Holds, All-replace_row,
}
use ai_project.Patches.{Patch, Reply, ok, err, invalid_status_transition, Action, act, review_patch}
use ai_project.Patches.Review.{
  id_of, is_stamped, acted, acted-is_stamped, acted-id, failed-refused, Reviews, refused, acts,
  review_patch-Reviews,
}

-- A request, with the identifiers in its path.
pub record Request : Type 0 where
  pub job_id : ℕ
  pub patch_id : ℕ
  pub action : Action

abbrev table_after : List Patch → Reply (Patch × List Patch) → List Patch
table_after patches (ok (p, patches')) = patches'
table_after patches (err e) = patches

-- The table after a sequence of requests; a refused request changes nothing.
pub serve : List ℕ → List Request → List Patch → List Patch
serve jobs [] patches = patches
serve jobs (r ∷ rs) patches =
    serve jobs rs (table_after patches (review_patch jobs r.job_id r.patch_id r.action patches))

module _ (jobs : List ℕ) where
  table_after-stamped :
      (patches : List Patch) (job_id patch_id : ℕ) (a : Action) (r : Reply (Patch × List Patch))
      → Reviews jobs job_id patch_id a patches r
      → All (Holds is_stamped) patches
      → All (Holds is_stamped) (table_after patches r)
  table_after-stamped patches job_id patch_id a _ (refused e) h = h
  table_after-stamped patches job_id patch_id a _ (acts p row done) h =
      All-replace_row id_of (Holds is_stamped) (acted a p) patches (acted-is_stamped a p) h

  -- Whatever sequence of requests is served, refused ones included, the time stamps of every patch
  -- keep saying what its status says.
  pub serve-is_stamped :
      (requests : List Request) (patches : List Patch)
      → All (Holds is_stamped) patches
      → All (Holds is_stamped) (serve jobs requests patches)
  unfolding serve
  serve-is_stamped [] patches h = h
  serve-is_stamped (r ∷ rs) patches h = serve-is_stamped rs _ (
      table_after-stamped patches r.job_id r.patch_id r.action _
        (review_patch-Reviews jobs r.job_id r.patch_id r.action patches) h)

  module _ (k : ℕ) (failed : Patch) (is_failed : failed.status ≡ "failed") where
    table_after-failed :
        (patches : List Patch) (job_id patch_id : ℕ) (a : Action) (r : Reply (Patch × List Patch))
        → Reviews jobs job_id patch_id a patches r
        → find_row id_of k patches ≡ some failed
        → find_row id_of k (table_after patches r) ≡ some failed
    table_after-failed patches job_id patch_id a _ (refused e) h = h
    table_after-failed patches job_id patch_id a _ (acts p row done) h =
        let i : id_of (acted a p) ≡ patch_id =
          acted-id a p ∙ find_row-key id_of patch_id patches p row in
        find_row-replace_row id_of (acted a p) k patches p (rw i row)
        ∙ elim (Bool-cases (id_of (acted a p) == k)) [
          | inl same ↦ absurd (
              let e : patch_id ≡ k = sym i ∙ (==_iff (id_of (acted a p)) k).0 same in
              let q : p ≡ failed =
                cc (row, subst (λ j. find_row id_of j patches ≡ some failed) (sym e) h) in
              let bad : act a p ≡ err invalid_status_transition =
                failed-refused a p (ap (λ (x : Patch). x.status) q ∙ is_failed) in
              let worse : ok (acted a p) ≡ err invalid_status_transition = sym done ∙ bad in cc)
          | inr other ↦ rw other h
        ]

    -- No sequence of requests changes a patch whose status is failed, in any column.
    serve-failed :
        (requests : List Request) (patches : List Patch)
        → find_row id_of k patches ≡ some failed
        → find_row id_of k (serve jobs requests patches) ≡ some failed
    unfolding serve
    serve-failed [] patches h = h
    serve-failed (r ∷ rs) patches h = serve-failed rs _ (
        table_after-failed patches r.job_id r.patch_id r.action _
          (review_patch-Reviews jobs r.job_id r.patch_id r.action patches) h)
