-- ===== src/Security/Issued.antt =====
-- A key that backend/app/api/v1/admin.py creates passes the checks of backend/app/core/security.py.
use ai_project.Prelude.{
  ℕ, ◌≡◌, refl, sym, subst, inl, inr, String, Bool, true, false, Option, some, List, [], ◌∷◌, ◌++◌,
  All, str_eq, eq_iff, starts_with, starts_with-first_chars, if◌then◌else◌, Bool-cases,
}
use ai_project.Security.{
  ApiKey, context_of, Answer, forbidden, granted, has_scope, is_expired, verify_api_key_hash,
  verify_among, verify_api_key, get_current_api_key, require_scope,
}
use ai_project.Security.Keys.{
  KeyTable, KeyReply, created, KeyRequest, Random, generate_api_key, new_key_row, add_key, answer,
}
use ai_project.Security.Life.{Change, keeps, adds, marks, answer-Change}

module _ (checkpw : String → String → Option Bool) where
  -- bcrypt does not confirm the key for the row.
  abbrev pub Foreign : String → ApiKey → Type 0
  Foreign raw_key k = verify_api_key_hash checkpw raw_key k.key_hash ≡ false

  -- The last row opens, where no other row's hash does.
  verify_among-last :
      (now : ℕ) (raw_key : String) (keys : List ApiKey) (k : ApiKey)
      → All (Foreign raw_key) keys
      → starts_with raw_key k.key_prefix ≡ true
      → checkpw raw_key k.key_hash ≡ some true
      → is_expired now k ≡ false
      → k.revoked ≡ false
      → verify_api_key checkpw now raw_key (keys ++ k ∷ []) ≡ some (context_of k)
  unfolding verify_api_key verify_among verify_api_key_hash
  verify_among-last now raw_key [] k h prefix hash live here =
      let good : verify_api_key_hash checkpw raw_key k.key_hash ≡ true =
        rw (verify_api_key_hash, hash) refl in
      simp (here, prefix, good, live) refl
  verify_among-last now raw_key (j ∷ keys) k h prefix hash live here =
      let later = verify_among-last now raw_key keys k h.1 prefix hash live here in
      elim (Bool-cases j.revoked) [
        | inl gone ↦ rw gone later
        | inr there ↦ elim (Bool-cases (starts_with raw_key j.key_prefix)) [
          | inl same ↦ rw (there, same, h.0) later
          | inr other ↦ rw (there, other) later
        ]
      ]

module _ (checkpw : String → String → Option Bool) (hashpw : String → String → String)
    (env : String) (is_development : Bool)
    (confirms : (raw_key salt : String) → checkpw raw_key (hashpw raw_key salt) ≡ some true) where
  -- What a request with a key comes to whose context is known.
  abbrev pub passes : String → ApiKey → Answer
  passes scope k = if has_scope k.scopes scope then granted (context_of k) else forbidden

  generate_api_key-given : (token : String) → str_eq (generate_api_key env token) "" ≡ false
  unfolding generate_api_key
  generate_api_key-given token = elim (Bool-cases (str_eq (generate_api_key env token) "")) [
    | inr given ↦ given
    | inl empty ↦ absurd (cc ((eq_iff (generate_api_key env token) "").0 empty))
  ]

  added-passes :
      (label : String) (scopes : List String) (expires_at : Option ℕ) (rate : ℕ) (random : Random)
      (s : KeyTable) (raw_key : String) (k : ApiKey) (later : ℕ) (scope : String)
      → let r = add_key checkpw hashpw env is_development label scopes expires_at rate random s in
        r.0 ≡ created raw_key k
        → All (Foreign checkpw raw_key) s.keys
        → is_expired later k ≡ false
        → require_scope checkpw is_development later scope (some raw_key) r.1.keys ≡ passes scope k
  unfolding add_key require_scope get_current_api_key
  added-passes label scopes expires_at rate random s raw_key k later scope e foreign live =
      let raw = generate_api_key env random.token in
      let row =
        new_key_row checkpw hashpw env is_development label scopes expires_at rate random s.next in
      let same : raw ≡ raw_key = cc e in
      let one : row ≡ k = cc e in
      let found : verify_api_key checkpw later raw (s.keys ++ row ∷ []) ≡ some (context_of row) =
        verify_among-last checkpw later raw s.keys row
          (subst (λ x. All (Foreign checkpw x) s.keys) (sym same) foreign)
          (starts_with-first_chars 12 raw) (confirms raw random.salt)
          (subst (λ x. is_expired later x ≡ false) (sym one) live) refl in
      let given : str_eq raw "" ≡ false = generate_api_key-given random.token in
      subst
        (λ x.
          require_scope checkpw is_development later scope (some x) (s.keys ++ row ∷ [])
          ≡ passes scope k)
        same
        (subst
          (λ x.
            require_scope checkpw is_development later scope (some raw) (s.keys ++ row ∷ [])
            ≡ passes scope x)
          one (rw (require_scope, get_current_api_key, given, found) refl))

  -- On the table as a request leaves it that creates a key, by the open endpoint too: at every time before
  -- it expires, the key passes the check for a scope just when it has that scope or the scope admin, with the
  -- context of its own row, and is forbidden the others. bcrypt confirms a key for its own hash, and for
  -- the hash of no earlier row.
  pub created-passes :
      (now : ℕ) (request : KeyRequest) (s : KeyTable) (raw_key : String) (k : ApiKey) (later : ℕ)
      (scope : String)
      → let r = answer checkpw hashpw env is_development now request s in
        r.0 ≡ created raw_key k
        → All (Foreign checkpw raw_key) s.keys
        → is_expired later k ≡ false
        → require_scope checkpw is_development later scope (some raw_key) r.1.keys
          ≡ (if has_scope k.scopes scope then granted (context_of k) else forbidden)
  created-passes now request s raw_key k later scope e foreign live =
      go (answer checkpw hashpw env is_development now request s)
        (answer-Change checkpw hashpw env is_development now request s) e
    where
      go :
          (r : KeyReply × KeyTable)
          → Change checkpw hashpw env is_development s r
          → r.0 ≡ created raw_key k
          → require_scope checkpw is_development later scope (some raw_key) r.1.keys
            ≡ passes scope k
      go r (keeps same unmade) q = absurd (unmade raw_key k q)
      go r (adds label scopes expires_at rate random is) q =
          subst
            (λ (x : KeyReply × KeyTable).
              require_scope checkpw is_development later scope (some raw_key) x.1.keys
              ≡ passes scope k)
            (sym is)
            (added-passes label scopes expires_at rate random s raw_key k later scope (cc (q, is))
              foreign live)
      go r (marks key_id j found is) q = absurd (cc (q, is))
