-- ===== src/Security/Access.antt =====
-- Which requests the checks on API keys let pass.
use mathlib.Core.List.{Memᴰ}
use ai_project.Prelude.{
  ℕ, ◌≡◌, refl, sym, ap, subst, ◌∙◌, inl, inr, String, Bool, true, false, not, Option, none, some,
  List, [], ◌∷◌, str_eq, keep, starts_with, if◌then◌else◌, Bool-cases, Option-cases, Mem-keep,
}
use ai_project.Security.{
  ApiKey, KeyContext, dev_key_context, context_of, Answer, unauthorized, forbidden, granted,
  has_scope, is_expired, verify_api_key_hash, verify_among, verify_api_key, without_key,
  get_current_api_key, require_scope,
}

not-true : (b : Bool) → not b ≡ true → b ≡ false
not-true true h = absurd (cc)
not-true false h = refl

module _ (checkpw : String → String → Option Bool) (now : ℕ) where
  -- The stored key answers to the raw key.
  pub record Opens (raw_key : String) (k : ApiKey) : Type 0 where
    pub prefix : starts_with raw_key k.key_prefix ≡ true
    pub hash : checkpw raw_key k.key_hash ≡ some true
    pub live : is_expired now k ≡ false

  verify_api_key_hash-checks :
      (raw_key h : String)
      → verify_api_key_hash checkpw raw_key h ≡ true
      → checkpw raw_key h ≡ some true
  unfolding verify_api_key_hash
  verify_api_key_hash-checks raw_key h e = elim (Option-cases (checkpw raw_key h)) [
    | inl raises ↦ absurd (let bad : false ≡ true = rw (verify_api_key_hash, raises) at e in cc)
    | inr (b, q) ↦ let t : b ≡ true = rw (verify_api_key_hash, q) at e in q ∙ ap some t
  ]

  -- One of the keys opens for the raw key, and the context is its own.
  abbrev pub Found : String → List ApiKey → KeyContext → Type 0
  Found raw_key keys c = (k : ApiKey) × Memᴰ k keys × Opens raw_key k × (c ≡ context_of k)

  Found-later :
      (raw_key : String) (k : ApiKey) (keys : List ApiKey) (c : KeyContext)
      → Found raw_key keys c
      → Found raw_key (k ∷ keys) c
  Found-later raw_key k keys c (j, m, opens, e) = (j, Memᴰ.tail m, opens, e)

  verify_among_sound :
      (raw_key : String) (keys : List ApiKey) (c : KeyContext)
      → verify_among checkpw now raw_key keys ≡ some c
      → Found raw_key keys c
  unfolding verify_among
  verify_among_sound raw_key [] c h = cc
  verify_among_sound raw_key (k ∷ keys) c h = elim (Bool-cases (starts_with raw_key k.key_prefix)) [
    | inr other ↦
        Found-later raw_key k keys c
          (verify_among_sound raw_key keys c (rw (verify_among, other) at h))
    | inl prefix ↦ elim (Bool-cases (verify_api_key_hash checkpw raw_key k.key_hash)) [
      | inr wrong ↦
          Found-later raw_key k keys c
            (verify_among_sound raw_key keys c (rw (verify_among, prefix, wrong) at h))
      | inl right ↦ elim (Bool-cases (is_expired now k)) [
        | inl expired ↦
            absurd (let bad : none ≡ some c = rw (verify_among, prefix, right, expired) at h in cc)
        | inr live ↦
            let e : context_of k ≡ c = cc (rw (verify_among, prefix, right, live) at h) in
            (
              k,
              Memᴰ.head refl,
              record {
                prefix = prefix;
                hash = verify_api_key_hash-checks raw_key k.key_hash right;
                live = live;
              },
              sym e,
            )
      ]
    ]
  ]

  module _ (is_development : Bool) where
    -- What a request that is let through rests on.
    pub data Grounds (header : Option String) (keys : List ApiKey) (c : KeyContext) : Type 0 where
      bypass : is_development ≡ true → keys ≡ [] → c ≡ dev_key_context → Grounds header keys c
      by_key :
          (raw_key : String) (k : ApiKey)
          → header ≡ some raw_key
          → Memᴰ k keys
          → k.revoked ≡ false
          → Opens raw_key k
          → c ≡ context_of k
          → Grounds header keys c

    without_key-Grounds :
        (header : Option String) (keys : List ApiKey) (c : KeyContext)
        → without_key checkpw is_development now keys ≡ granted c
        → Grounds header keys c
    unfolding without_key
    without_key-Grounds header [] c h = elim (Bool-cases is_development) [
      | inl dev ↦
          let e : dev_key_context ≡ c = cc (rw (without_key, dev) at h) in bypass dev refl (sym e)
      | inr production ↦
          absurd (let bad : unauthorized ≡ granted c = rw (without_key, production) at h in cc)
    ]
    without_key-Grounds header (k ∷ keys) c h = absurd (cc)

    get_current_api_key-Grounds :
        (header : Option String) (keys : List ApiKey) (c : KeyContext)
        → get_current_api_key checkpw is_development now header keys ≡ granted c
        → Grounds header keys c
    unfolding get_current_api_key verify_api_key
    get_current_api_key-Grounds none keys c h = without_key-Grounds none keys c h
    get_current_api_key-Grounds (some raw_key) keys c h = elim (Bool-cases (str_eq raw_key "")) [
      | inl empty ↦ without_key-Grounds (some raw_key) keys c (rw (get_current_api_key, empty) at h)
      | inr given ↦ elim (Option-cases (verify_api_key checkpw now raw_key keys)) [
        | inl refused ↦ absurd (
            let bad : unauthorized ≡ granted c = rw (get_current_api_key, given, refused) at h in
            cc)
        | inr (d, found) ↦
            let e : d ≡ c = cc (rw (get_current_api_key, given, found) at h) in
            let (k, m, opens, q) =
              verify_among_sound raw_key (keep (λ (j : ApiKey). not j.revoked) keys) c
                (found ∙ ap some e) in
            let (m', kept) = Mem-keep (λ (j : ApiKey). not j.revoked) k keys m in
            by_key raw_key k refl m' (not-true k.revoked kept) opens q
      ]
    ]

    -- Whenever a request passes the check for a scope, its key has that scope or the scope admin, and
    -- it is the key of a stored row that is neither revoked nor expired, whose hash bcrypt confirms
    -- for the header and whose prefix the header starts with; or there are no stored keys at all,
    -- in development.
    pub require_scope_sound :
        (scope : String) (header : Option String) (keys : List ApiKey) (c : KeyContext)
        → require_scope checkpw is_development now scope header keys ≡ granted c
        → (has_scope c.scopes scope ≡ true) × Grounds header keys c
    unfolding require_scope
    require_scope_sound scope header keys c h =
        go (get_current_api_key checkpw is_development now header keys) refl h
      where
        go :
            (a : Answer)
            → get_current_api_key checkpw is_development now header keys ≡ a
            → (elim a [
              | unauthorized ↦ unauthorized
              | forbidden ↦ forbidden
              | granted key ↦ if has_scope key.scopes scope then granted key else forbidden
            ])
              ≡ granted c
            → (has_scope c.scopes scope ≡ true) × Grounds header keys c
        go unauthorized e q = absurd (cc)
        go forbidden e q = absurd (cc)
        go (granted d) e q = elim (Bool-cases (has_scope d.scopes scope)) [
          | inr lacks ↦ absurd (let bad : forbidden ≡ granted c = rw lacks at q in cc)
          | inl has ↦
              let same : d ≡ c = cc (rw has at q) in
              (
                subst (λ (x : KeyContext). has_scope x.scopes scope ≡ true) same has,
                get_current_api_key-Grounds header keys c (e ∙ ap granted same),
              )
        ]
