-- ===== src/Security.antt =====
-- API keys (backend/app/models/api_key.py) and the checks that every endpoint makes on them
-- (backend/app/core/security.py). `checkpw` is bcrypt's, and none where it raises. The column
-- `last_used_at`, which only the administration pages show, is left out.
pub mod Access
pub mod Keys
pub mod Life
pub mod Issued
pub mod Revoked
mod Examples
use ai_project.Prelude.{
  ℕ, String, Bool, true, false, not, ◌||◌, Option, none, some, List, [], ◌∷◌, str_eq, one_of, keep,
  ltb, starts_with, if◌then◌else◌,
}

pub record ApiKey : Type 0 where
  pub id : ℕ
  pub label : String
  pub key_hash : String
  pub key_prefix : String
  pub scopes : List String
  pub rate_limit_per_minute : ℕ
  pub expires_at : Option ℕ
  pub revoked : Bool

-- What a handler gets of the key; the development bypass has no identifier of a row.
pub record KeyContext : Type 0 where
  pub key_id : Option ℕ
  pub label : String
  pub scopes : List String
  pub rate_limit_per_minute : ℕ

abbrev pub dev_key_context : KeyContext
dev_key_context = record {
  key_id = none;
  label = "Development bypass key";
  scopes = "read" ∷ "write" ∷ "admin" ∷ [];
  rate_limit_per_minute = 1000;
}

abbrev pub context_of : ApiKey → KeyContext
context_of k = record {
  key_id = some k.id;
  label = k.label;
  scopes = k.scopes;
  rate_limit_per_minute = k.rate_limit_per_minute;
}

pub data Answer : Type 0 where
  unauthorized forbidden : Answer
  granted : KeyContext → Answer

-- `has_scope`
unfoldable pub has_scope : List String → String → Bool
has_scope key_scopes required_scope = one_of required_scope key_scopes || one_of "admin" key_scopes

-- `api_key.expires_at and api_key.expires_at < now`
unfoldable pub is_expired : ℕ → ApiKey → Bool
is_expired now k = elim k.expires_at [ none ↦ false | some t ↦ ltb t now ]

module _ (checkpw : String → String → Option Bool) where
  -- `verify_api_key_hash`
  unfoldable pub verify_api_key_hash : String → String → Bool
  verify_api_key_hash raw_key key_hash = elim (checkpw raw_key key_hash) [
    | none ↦ false
    | some b ↦ b
  ]

  -- the loop of `verify_api_key`
  unfoldable pub verify_among : ℕ → String → List ApiKey → Option KeyContext
  unfolding verify_api_key_hash is_expired
  verify_among now raw_key [] = none
  verify_among now raw_key (k ∷ keys) =
      let rest = verify_among now raw_key keys in
      if not (starts_with raw_key k.key_prefix)
      then rest
      else if not (verify_api_key_hash raw_key k.key_hash)
      then rest
      else if is_expired now k
      then none
      else some (context_of k)

  -- `verify_api_key`
  unfoldable pub verify_api_key : ℕ → String → List ApiKey → Option KeyContext
  unfolding verify_among
  verify_api_key now raw_key keys =
      verify_among now raw_key (keep (λ (k : ApiKey). not k.revoked) keys)

  module _ (is_development : Bool) (now : ℕ) where
    -- `get_current_api_key` where the header is missing or empty
    unfoldable pub without_key : List ApiKey → Answer
    without_key [] = if is_development then granted dev_key_context else unauthorized
    without_key (k ∷ keys) = unauthorized

    -- `get_current_api_key`
    unfoldable pub get_current_api_key : Option String → List ApiKey → Answer
    unfolding without_key verify_api_key
    get_current_api_key none keys = without_key keys
    get_current_api_key (some raw_key) keys =
        if str_eq raw_key ""
        then without_key keys
        else elim (verify_api_key now raw_key keys) [ none ↦ unauthorized | some key ↦ granted key ]

    -- `require_scope(scope)`
    unfoldable pub require_scope : String → Option String → List ApiKey → Answer
    unfolding get_current_api_key has_scope
    require_scope scope header keys = elim (get_current_api_key header keys) [
      | unauthorized ↦ unauthorized
      | forbidden ↦ forbidden
      | granted key ↦ if has_scope key.scopes scope then granted key else forbidden
    ]
