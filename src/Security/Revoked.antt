-- ===== src/Security/Revoked.antt =====
-- A key that backend/app/api/v1/admin.py revokes never passes the checks again.
use ai_project.Prelude.{
  Memᴰ-All, ℕ, suc, ◌<◌, ◌≤◌, ◌==◌, ==_iff, ◌≡◌, ◌≢◌, refl, sym, subst, ◌⊎◌, inl, inr, String, Bool,
  true, Option, some, List, [], ◌∷◌, All, All-append, All-find_row, All-replace_row, count_if,
  count_if-append, count_if-above, count_if-replace_row, find_row, find_row-key, replace_row,
  Bool-cases, Option-cases, arith,
}
use ai_project.Security.{
  ApiKey, KeyContext, Answer, unauthorized, forbidden, granted, require_scope,
}
use ai_project.Security.Access.{Grounds, bypass, by_key, require_scope_sound}
use ai_project.Security.Keys.{
  KeyTable, KeyReply, unauthenticated, not_allowed, no_content, KeyRequest, revoke, id_of,
  new_key_row, add_key, revoke_api_key, answer, serve,
}
use ai_project.Security.Life.{Change, keeps, adds, marks, answer-Change}

-- A row that is not of the key, or is revoked.
abbrev pub IsDead : ℕ → ApiKey → Type 0
IsDead i k = (k.id ≢ i) ⊎ (k.revoked ≡ true)

-- New identifiers are above those of the rows, and these are all different.
pub record IsTable (s : KeyTable) : Type 0 where
  pub below : All (λ (k : ApiKey). k.id < s.next) s.keys
  pub once : (i : ℕ) → count_if (λ (k : ApiKey). k.id == i) s.keys ≤ 1

none-IsDead :
    (i : ℕ) (keys : List ApiKey)
    → count_if (λ (k : ApiKey). k.id == i) keys ≡ 0
    → All (IsDead i) keys
none-IsDead i [] h = tt
none-IsDead i (k ∷ keys) h = elim (Bool-cases (k.id == i)) [
  | inl same ↦ absurd (ground (arith, h, same))
  | inr other ↦ (inl (λ e. ground (arith, e, other)), none-IsDead i keys (ground (arith, h, other)))
]

-- Where a key stands once, marking its row revokes it.
marked-IsDead :
    (v : ApiKey) (keys : List ApiKey)
    → v.revoked ≡ true
    → count_if (λ (k : ApiKey). k.id == v.id) keys ≤ 1
    → All (IsDead v.id) (replace_row id_of v keys)
marked-IsDead v [] gone h = tt
marked-IsDead v (k ∷ keys) gone h = elim (Bool-cases (k.id == v.id)) [
  | inl same ↦ rw same (inr gone, none-IsDead v.id keys (ground (arith, h, same)))
  | inr other ↦
      rw other
        (inl (λ e. ground (arith, e, other)), marked-IsDead v keys gone (ground (arith, h, other)))
]

less-All :
    (n : ℕ) (keys : List ApiKey)
    → All (λ (k : ApiKey). k.id < n) keys
    → All (λ (k : ApiKey). k.id < suc n) keys
less-All n [] h = tt
less-All n (k ∷ keys) h = (omega (arith, h.0), less-All n keys h.1)

module _ (checkpw : String → String → Option Bool) (hashpw : String → String → String)
    (env : String) (is_development : Bool) where
  Change-IsTable :
      (s : KeyTable) (r : KeyReply × KeyTable)
      → Change checkpw hashpw env is_development s r
      → IsTable s
      → IsTable r.1
  unfolding add_key
  Change-IsTable s r (keeps same unmade) h = subst IsTable (sym same) h
  Change-IsTable s r (adds label scopes expires_at rate random is) h =
      subst (λ (x : KeyReply × KeyTable). IsTable x.1) (sym is)
        (record {
          below =
              All-append (λ (k : ApiKey). k.id < suc s.next) s.keys _
                (less-All s.next s.keys h.below) (omega arith, tt);
          once = λ i.
              let sum =
                count_if-append (λ (k : ApiKey). k.id == i) s.keys
                  (new_key_row checkpw hashpw env is_development label scopes expires_at rate random
                      s.next
                    ∷ []) in
              elim (Bool-cases (s.next == i)) [
                | inr other ↦ rw (sum, other) (omega (arith, h.once i))
                | inl same ↦
                    let e = (==_iff s.next i).0 same in
                    let fresh =
                      count_if-above id_of i s.keys
                        (subst (λ n. All (λ (k : ApiKey). k.id < n) s.keys) e h.below) in
                    rw (sum, same) (omega (arith, fresh))
              ];
        })
  Change-IsTable s r (marks key_id k found is) h =
      subst (λ (x : KeyReply × KeyTable). IsTable x.1) (sym is)
        (let v : ApiKey = record k { revoked = true } in
          let at : find_row id_of v.id s.keys ≡ some k =
            subst (λ i. find_row id_of i s.keys ≡ some k)
              (sym (find_row-key id_of key_id s.keys k found)) found in
          record {
            below =
                All-replace_row id_of (λ (x : ApiKey). x.id < s.next) v s.keys
                  (All-find_row id_of (λ (x : ApiKey). x.id < s.next) key_id s.keys k found h.below)
                  h.below;
            once = λ i. rw (count_if-replace_row id_of i v s.keys k at) (h.once i);
          })

  serve-IsTable :
      (requests : List (ℕ × KeyRequest)) (s : KeyTable)
      → IsTable s
      → IsTable (serve checkpw hashpw env is_development requests s)
  unfolding serve
  serve-IsTable [] s h = h
  serve-IsTable ((now, request) ∷ requests) s h =
      serve-IsTable requests (answer checkpw hashpw env is_development now request s).1
        (Change-IsTable s _ (answer-Change checkpw hashpw env is_development now request s) h)

  module _ (i : ℕ) where
    -- The key's identifier has been given out, and its row is revoked.
    Gone : KeyTable → Type 0
    Gone s = (i < s.next) × All (IsDead i) s.keys

    Change-Gone :
        (s : KeyTable) (r : KeyReply × KeyTable)
        → Change checkpw hashpw env is_development s r
        → Gone s
        → Gone r.1
    unfolding add_key Gone
    Change-Gone s r (keeps same unmade) h = subst Gone (sym same) h
    Change-Gone s r (adds label scopes expires_at rate random is) h =
        subst (λ (x : KeyReply × KeyTable). Gone x.1) (sym is)
          (
            omega (arith, h.0),
            All-append (IsDead i) s.keys _ h.1 (inl (λ e. omega (arith, e, h.0)), tt),
          )
    Change-Gone s r (marks key_id k found is) h =
        subst (λ (x : KeyReply × KeyTable). Gone x.1) (sym is)
          (
            h.0,
            All-replace_row id_of (IsDead i) (record k { revoked = true }) s.keys (inr refl) h.1,
          )

    serve-Gone :
        (requests : List (ℕ × KeyRequest)) (s : KeyTable)
        → Gone s
        → Gone (serve checkpw hashpw env is_development requests s)
    unfolding serve
    serve-Gone [] s h = h
    serve-Gone ((now, request) ∷ requests) s h =
        serve-Gone requests (answer checkpw hashpw env is_development now request s).1
          (Change-Gone s _ (answer-Change checkpw hashpw env is_development now request s) h)

    revoked-Gone :
        (s : KeyTable)
        → IsTable s
        → (revoke_api_key checkpw hashpw env is_development i s).0 ≡ no_content
        → Gone (revoke_api_key checkpw hashpw env is_development i s).1
    unfolding revoke_api_key Gone
    revoked-Gone s h e = elim (Option-cases (find_row id_of i s.keys)) [
      | inl missing ↦ absurd (cc (rw (revoke_api_key, missing) at e))
      | inr (k, found) ↦ elim (Bool-cases k.revoked) [
        | inl gone ↦ absurd (cc (rw (revoke_api_key, found, gone) at e))
        | inr there ↦
            let same = find_row-key id_of i s.keys k found in
            let less =
              All-find_row id_of (λ (x : ApiKey). x.id < s.next) i s.keys k found h.below in
            rw (revoke_api_key, found, there)
              (
                omega (arith, same, less),
                subst (λ j. All (IsDead j) (replace_row id_of (record k { revoked = true }) s.keys))
                    same (marked-IsDead (record k { revoked = true }) s.keys refl (h.once k.id)),
              )
      ]
    ]

    -- No request passes by a revoked key.
    Gone-never_passes :
        (s : KeyTable) (later : ℕ) (scope : String) (header : Option String) (c : KeyContext)
        → Gone s
        → require_scope checkpw is_development later scope header s.keys ≡ granted c
        → c.key_id ≢ some i
    unfolding Gone
    Gone-never_passes s later scope header c gone passed =
        go (require_scope_sound checkpw later is_development scope header s.keys c passed).1
      where
        go : Grounds checkpw later is_development header s.keys c → c.key_id ≢ some i
        go (bypass dev empty same) =
            subst (λ (x : KeyContext). x.key_id ≢ some i) (sym same) (λ e. cc)
        go (by_key raw_key k given stored live opens same) =
            subst (λ (x : KeyContext). x.key_id ≢ some i) (sym same)
              (λ e. elim (Memᴰ-All (IsDead i) k s.keys stored gone.1) [
                | inl other ↦ other (cc e)
                | inr revoked ↦ cc (revoked, live)
              ])

    admin_revoked-Gone :
        (now : ℕ) (header : Option String) (s : KeyTable)
        → IsTable s
        → (answer checkpw hashpw env is_development now (revoke header i) s).0 ≡ no_content
        → Gone (answer checkpw hashpw env is_development now (revoke header i) s).1
    unfolding answer
    admin_revoked-Gone now header s h =
        go (require_scope checkpw is_development now "admin" header s.keys)
      where
        handled : Answer → KeyReply × KeyTable
        handled a = elim a [
          | unauthorized ↦ (unauthenticated, s)
          | forbidden ↦ (not_allowed, s)
          | granted key ↦ revoke_api_key checkpw hashpw env is_development i s
        ]

        go : (a : Answer) → (handled a).0 ≡ no_content → Gone (handled a).1
        go unauthorized e = absurd (cc)
        go forbidden e = absurd (cc)
        go (granted key) e = revoked-Gone s h e

    -- After a key is revoked, whatever requests to create, generate and revoke keys came before on the
    -- table that starts empty, and whatever such requests come later: no request with any header passes
    -- the check for any scope as that key.
    pub revoked-never_passes :
        (before : List (ℕ × KeyRequest)) (now : ℕ) (header : Option String)
        (requests : List (ℕ × KeyRequest)) (later : ℕ) (scope : String) (header' : Option String)
        (c : KeyContext)
        → let s = serve checkpw hashpw env is_development before (record { next = 0; keys = [] }) in
          let (reply, after) = answer checkpw hashpw env is_development now (revoke header i) s in
          reply ≡ no_content
          → require_scope checkpw is_development later scope header'
              (serve checkpw hashpw env is_development requests after).keys
            ≡ granted c
          → c.key_id ≢ some i
    revoked-never_passes before now header requests later scope header' c done passed =
        let s = serve checkpw hashpw env is_development before (record { next = 0; keys = [] }) in
        let (reply, after) = answer checkpw hashpw env is_development now (revoke header i) s in
        let table =
          serve-IsTable before (record { next = 0; keys = [] })
            (record { below = tt; once = λ j. omega arith }) in
        Gone-never_passes (serve checkpw hashpw env is_development requests after) later scope
          header' c (serve-Gone requests after (admin_revoked-Gone now header s table done)) passed
