-- ===== src/Security/Life.antt =====
-- What a request to the administration of keys (backend/app/api/v1/admin.py) can do to the table.
use ai_project.Prelude.{
  ℕ, ◌≡◌, ◌≢◌, refl, inl, inr, String, Bool, true, Option, none, some, List, [], ◌∷◌, all, one_of,
  find_row, replace_row, Bool-cases, Option-cases,
}
use ai_project.Security.{ApiKey, Answer, unauthorized, forbidden, granted, require_scope}
use ai_project.Security.Keys.{
  KeyTable, KeyReply, unauthenticated, not_allowed, created, no_content, KeyRequest, generate_open,
  create, revoke, Random, CreateApiKeyRequest, id_of, is_valid_body, valid_scopes, add_key,
  create_api_key, revoke_api_key, as_admin, answer,
}

module _ (checkpw : String → String → Option Bool) (hashpw : String → String → String)
    (env : String) (is_development : Bool) where
  -- What a request can do to the table: nothing, a new row, or the mark on a row.
  pub data Change (s : KeyTable) (r : KeyReply × KeyTable) : Type 0 where
    keeps : r.1 ≡ s → ((raw_key : String) (k : ApiKey) → r.0 ≢ created raw_key k) → Change s r
    adds :
        (label : String) (scopes : List String) (expires_at : Option ℕ) (rate : ℕ) (random : Random)
        → r ≡ add_key checkpw hashpw env is_development label scopes expires_at rate random s
        → Change s r
    marks :
        (key_id : ℕ) (k : ApiKey)
        → find_row id_of key_id s.keys ≡ some k
        → r
          ≡ (no_content, record s { keys = replace_row id_of (record k { revoked = true }) s.keys })
        → Change s r

  as_admin-Change :
      (now : ℕ) (header : Option String) (handler : KeyTable → KeyReply × KeyTable) (s : KeyTable)
      → Change s (handler s)
      → Change s (as_admin checkpw hashpw env is_development now header handler s)
  as_admin-Change now header handler s h =
      go (require_scope checkpw is_development now "admin" header s.keys)
    where
      go :
          (a : Answer)
          → Change s (elim a [
            | unauthorized ↦ (unauthenticated, s)
            | forbidden ↦ (not_allowed, s)
            | granted key ↦ handler s
          ])
      go unauthorized = keeps refl (λ raw_key k e. cc)
      go forbidden = keeps refl (λ raw_key k e. cc)
      go (granted key) = h

  create-Change :
      (body : CreateApiKeyRequest) (random : Random) (s : KeyTable)
      → Change s (create_api_key checkpw hashpw env is_development body random s)
  unfolding create_api_key
  create-Change body random s = elim (Bool-cases (is_valid_body body)) [
    | inr bad ↦ rw (create_api_key, bad) (keeps refl (λ raw_key k e. cc))
    | inl good ↦ elim (Bool-cases (all (λ scope. one_of scope valid_scopes) body.scopes)) [
      | inr bad ↦ rw (create_api_key, good, bad) (keeps refl (λ raw_key k e. cc))
      | inl known ↦
          rw (create_api_key, good, known)
            (adds body.label body.scopes body.expires_at body.rate_limit_per_minute random refl)
    ]
  ]

  revoke-Change :
      (key_id : ℕ) (s : KeyTable)
      → Change s (revoke_api_key checkpw hashpw env is_development key_id s)
  unfolding revoke_api_key
  revoke-Change key_id s = elim (Option-cases (find_row id_of key_id s.keys)) [
    | inl missing ↦ rw (revoke_api_key, missing) (keeps refl (λ raw_key k e. cc))
    | inr (k, found) ↦ elim (Bool-cases k.revoked) [
      | inl gone ↦ rw (revoke_api_key, found, gone) (keeps refl (λ raw_key k e. cc))
      | inr there ↦ rw (revoke_api_key, found, there) (marks key_id k found refl)
    ]
  ]

  pub answer-Change :
      (now : ℕ) (request : KeyRequest) (s : KeyTable)
      → Change s (answer checkpw hashpw env is_development now request s)
  unfolding answer
  answer-Change now (generate_open label random) s =
      adds label ("read" ∷ "write" ∷ []) none 100 random refl
  answer-Change now (create header body random) s =
      as_admin-Change now header (create_api_key checkpw hashpw env is_development body random) s
        (create-Change body random s)
  answer-Change now (revoke header key_id) s =
      as_admin-Change now header (revoke_api_key checkpw hashpw env is_development key_id) s
        (revoke-Change key_id s)
