-- ===== src/Security/Keys.antt =====
-- The administration of API keys: generate_api_key and hash_api_key of backend/app/core/security.py, and
-- the endpoints of backend/app/api/v1/admin.py that create and revoke keys. `hashpw` is bcrypt's, of a key
-- and a salt; the random token and the salt come with the request, a new identifier is the next number.
use ai_project.Prelude.{
  ℕ, suc, ◌&&◌, leb, String, Bool, true, false, not, Option, none, some, List, [], ◌∷◌, ◌++◌, all,
  one_of, join_text, first_chars, char_count, find_row, replace_row, if◌then◌else◌,
}
use ai_project.Security.{ApiKey, unauthorized, forbidden, granted, require_scope}

pub record CreateApiKeyRequest : Type 0 where
  pub label : String
  pub scopes : List String
  pub expires_at : Option ℕ
  pub rate_limit_per_minute : ℕ

-- The bounds of the fields, with which a body is refused before the handler.
unfoldable pub is_valid_body : CreateApiKeyRequest → Bool
unfolding char_count
is_valid_body b =
    leb 1 (char_count b.label)
    && leb (char_count b.label) 200
    && not (elim b.scopes [ [] ↦ true | s ∷ ss ↦ false ])
    && leb 1 b.rate_limit_per_minute
    && leb b.rate_limit_per_minute 10000

abbrev pub valid_scopes : List String
valid_scopes = "read" ∷ "write" ∷ "admin" ∷ []

pub record Random : Type 0 where
  pub token : String
  pub salt : String

pub record KeyTable : Type 0 where
  pub next : ℕ
  pub keys : List ApiKey

pub data KeyReply : Type 0 where
  unauthenticated not_allowed unprocessable invalid_scopes key_not_found key_already_revoked :
      KeyReply
  created : String → ApiKey → KeyReply
  no_content : KeyReply

pub data KeyRequest : Type 0 where
  generate_open : String → Random → KeyRequest
  create : Option String → CreateApiKeyRequest → Random → KeyRequest
  revoke : Option String → ℕ → KeyRequest

-- `generate_api_key`
unfoldable pub generate_api_key : String → String → String
generate_api_key env token = join_text "alm_" (join_text env (join_text "_" token))

abbrev pub id_of : ApiKey → ℕ
id_of k = k.id

module _ (checkpw : String → String → Option Bool) (hashpw : String → String → String)
    (env : String) (is_development : Bool) where
  -- the row of a new key
  abbrev pub new_key_row : String → List String → Option ℕ → ℕ → Random → ℕ → ApiKey
  new_key_row label scopes expires_at rate random id =
      let raw_key = generate_api_key env random.token in
      record {
        id = id;
        label = label;
        key_hash = hashpw raw_key random.salt;
        key_prefix = first_chars 12 raw_key;
        scopes = scopes;
        rate_limit_per_minute = rate;
        expires_at = expires_at;
        revoked = false;
      }

  -- the insertion of a new key, which the reply shows
  unfoldable pub add_key :
      String → List String → Option ℕ → ℕ → Random → KeyTable → KeyReply × KeyTable
  unfolding generate_api_key first_chars
  add_key label scopes expires_at rate random s =
      let k = new_key_row label scopes expires_at rate random s.next in
      (
        created (generate_api_key env random.token) k,
        record { next = suc s.next; keys = s.keys ++ k ∷ [] },
      )

  -- a handler behind `require_scope("admin")`
  abbrev pub as_admin :
      ℕ → Option String → (KeyTable → KeyReply × KeyTable) → KeyTable → KeyReply × KeyTable
  as_admin now header handler s =
      elim (require_scope checkpw is_development now "admin" header s.keys) [
        | unauthorized ↦ (unauthenticated, s)
        | forbidden ↦ (not_allowed, s)
        | granted key ↦ handler s
      ]

  -- `create_api_key`
  unfoldable pub create_api_key : CreateApiKeyRequest → Random → KeyTable → KeyReply × KeyTable
  unfolding is_valid_body add_key
  create_api_key body random s =
      if not (is_valid_body body)
      then (unprocessable, s)
      else if not (all (λ scope. one_of scope valid_scopes) body.scopes)
      then (invalid_scopes, s)
      else add_key body.label body.scopes body.expires_at body.rate_limit_per_minute random s

  -- `revoke_api_key`
  unfoldable pub revoke_api_key : ℕ → KeyTable → KeyReply × KeyTable
  revoke_api_key key_id s = elim (find_row id_of key_id s.keys) [
    | none ↦ (key_not_found, s)
    | some k ↦ if k.revoked then (key_already_revoked, s) else (
      no_content,
      record s { keys = replace_row id_of (record k { revoked = true }) s.keys },
    )
  ]

  -- A request at a time; `generate_api_key_open` asks for no key.
  unfoldable pub answer : ℕ → KeyRequest → KeyTable → KeyReply × KeyTable
  unfolding add_key create_api_key revoke_api_key
  answer now (generate_open label random) s =
      add_key label ("read" ∷ "write" ∷ []) none 100 random s
  answer now (create header body random) s = as_admin now header (create_api_key body random) s
  answer now (revoke header key_id) s = as_admin now header (revoke_api_key key_id) s

  unfoldable pub serve : List (ℕ × KeyRequest) → KeyTable → KeyTable
  unfolding answer
  serve [] s = s
  serve ((now, request) ∷ requests) s = serve requests (answer now request s).1
