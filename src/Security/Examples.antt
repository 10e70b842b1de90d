-- ===== src/Security/Examples.antt =====
-- A table with a revoked key and a good one.
use ai_project.Prelude.{
  ℕ, ◌≢◌, none, ap, eq_iff, if◌then◌else◌, first_chars, char_count, ◌≡◌, refl, String, Bool, true,
  false, Option, some, List, [], ◌∷◌, str_eq,
}
use ai_project.Security.{
  ApiKey, context_of, has_scope, is_expired, verify_api_key_hash, verify_among, verify_api_key,
  get_current_api_key, require_scope, without_key, forbidden, granted,
}
use ai_project.Security.Keys.{
  CreateApiKeyRequest, Random, KeyRequest, generate_open, create, new_key_row, add_key,
  create_api_key, revoke_api_key, is_valid_body, generate_api_key, answer, serve,
}
use ai_project.Security.Issued.{created-passes}
use ai_project.Security.Revoked.{revoked-never_passes}
use ai_project.Security.Access.{Grounds, require_scope_sound}

-- A stand-in for bcrypt whose hash of a text is the text.
abbrev plain : String → String → Option Bool
plain raw_key key_hash = some (str_eq raw_key key_hash)

abbrev good : ApiKey
good = record {
  id = 2;
  label = "ci";
  key_hash = "alm_live_a1b2c3";
  key_prefix = "alm_live_a1b";
  scopes = "read" ∷ "write" ∷ [];
  rate_limit_per_minute = 100;
  expires_at = some 50;
  revoked = false;
}

abbrev keys : List ApiKey
keys = record good { id = 1; revoked = true } ∷ good ∷ []

require_scope_sound_example :
    (has_scope (context_of good).scopes "write" ≡ true)
    × Grounds plain 40 false (some "alm_live_a1b2c3") keys (context_of good)
unfolding require_scope get_current_api_key verify_api_key verify_among verify_api_key_hash
    is_expired has_scope
require_scope_sound_example =
    require_scope_sound plain 40 false "write" (some "alm_live_a1b2c3") keys (context_of good) refl

-- A stand-in for hashing, to which `plain` answers.
abbrev copy : String → String → String
copy raw_key salt = raw_key

confirms : (raw_key salt : String) → plain raw_key (copy raw_key salt) ≡ some true
confirms raw_key salt = ap some ((eq_iff raw_key raw_key).1 refl)

abbrev random : Random
random = record { token = "d4e5"; salt = "s" }

abbrev issued : ApiKey
issued = new_key_row plain copy "live" false "ci" ("read" ∷ "write" ∷ []) none 100 random 0

created-passes_example :
    require_scope plain false 40 "admin"
      (some "alm_live_d4e5")
      (answer plain copy "live" false 5
        (generate_open "ci" random)
        (record { next = 0; keys = [] })).1.keys
    ≡ (if has_scope issued.scopes "admin" then granted (context_of issued) else forbidden)
unfolding answer add_key generate_api_key first_chars is_expired
created-passes_example =
    created-passes plain copy "live" false confirms 5 (generate_open "ci" random)
      (record { next = 0; keys = [] }) "alm_live_d4e5" issued 40 "admin" refl tt refl

-- An administrator's key, made in development where no key is asked for, and another one.
abbrev root_body : CreateApiKeyRequest
root_body = record {
  label = "root";
  scopes = "admin" ∷ [];
  expires_at = none;
  rate_limit_per_minute = 10;
}

abbrev root_random : Random
root_random = record { token = "a0"; salt = "s" }

abbrev earlier : List (ℕ × KeyRequest)
earlier = (1, create none root_body root_random) ∷ (2, generate_open "ci" random) ∷ []

abbrev root : ApiKey
root = new_key_row plain copy "dev" true "root" ("admin" ∷ []) none 10 root_random 0

revoked-never_passes_example : (context_of root).key_id ≢ some 1
unfolding answer serve create_api_key is_valid_body char_count add_key revoke_api_key
    generate_api_key first_chars require_scope get_current_api_key verify_api_key verify_among
    verify_api_key_hash is_expired has_scope without_key
revoked-never_passes_example =
    revoked-never_passes plain copy "dev" true 1 earlier 3 (some "alm_dev_a0") [] 40 "admin"
      (some "alm_dev_a0") (context_of root) refl refl
