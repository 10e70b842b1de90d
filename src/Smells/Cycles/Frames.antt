-- ===== src/Smells/Cycles/Frames.antt =====
-- The search for cyclic dependencies under a limit on open calls: it raises or finds what it finds under any
-- higher limit.
use ai_project.Prelude.{
  ℕ, zero, suc, ◌+◌, ◌-◌, ◌≤◌, ◌<◌, ◌⊎◌, leb, ◌≡◌, inl, inr, Option, none, some, List, [], ◌∷◌,
  elem, Bool-cases, Option-cases, arith, subst,
}
use ai_project.Smells.Cycles.{Dfs, enter, visit, each, dfs, from_roots}

-- Where the first returns, the second returns the same.
abbrev Extends : (ℕ → Dfs → Option Dfs) → (ℕ → Dfs → Option Dfs) → Type 0
Extends go more = (n : ℕ) (s t : Dfs) → go n s ≡ some t → more n s ≡ some t

visit-Extends : (go more : ℕ → Dfs → Option Dfs) → Extends go more → Extends (visit go) (visit more)
unfolding visit
visit-Extends go more ext n s t h = elim (Bool-cases (elem n s.visited)) [
  | inl old ↦ rw (visit, old) (rw (visit, old) at h)
  | inr new ↦ rw (visit, new) (ext n s t (rw (visit, new) at h))
]

each-Extends :
    (go more : ℕ → Dfs → Option Dfs)
    → Extends go more
    → (ns : List ℕ) (s t : Dfs) → each go ns s ≡ some t
    → each more ns s ≡ some t
unfolding each
each-Extends go more ext [] s t h = h
each-Extends go more ext (n ∷ ns) s t h = elim (Option-cases (visit go n s)) [
  | inl raised ↦ cc (rw (each, raised) at h)
  | inr (u, found) ↦
      rw (each, visit-Extends go more ext n s u found)
        (each-Extends go more ext ns u t (rw (each, found) at h))
]

module _ (neighbors : ℕ → List ℕ) where
  dfs-Extends : (frames : ℕ) → Extends (dfs neighbors frames) (dfs neighbors (suc frames))
  unfolding dfs
  dfs-Extends zero n s t h = cc
  dfs-Extends (suc frames) n s t h =
      elim (Option-cases (each (dfs neighbors frames) (neighbors n) (enter n s))) [
        | inl raised ↦ cc (rw (dfs, raised) at h)
        | inr (u, found) ↦
            let more =
              each-Extends (dfs neighbors frames) (dfs neighbors (suc frames)) (dfs-Extends frames)
                (neighbors n) (enter n s) u found in
            rw (dfs, more) (rw (dfs, found) at h)
      ]

  from_roots-Extends :
      (frames : ℕ) (ns : List ℕ) (s t : Dfs)
      → from_roots neighbors frames ns s ≡ some t
      → from_roots neighbors (suc frames) ns s ≡ some t
  unfolding from_roots
  from_roots-Extends frames [] s t h = h
  from_roots-Extends frames (n ∷ ns) s t h = elim (Bool-cases (elem n s.visited)) [
    | inl old ↦ rw (from_roots, old) (from_roots-Extends frames ns s t (rw (from_roots, old) at h))
    | inr new ↦ elim (Option-cases (dfs neighbors frames n (record s { path = [] }))) [
      | inl raised ↦ cc (rw (from_roots, new, raised) at h)
      | inr (u, found) ↦
          rw (from_roots, new, dfs-Extends frames n record s { path = [] } u found)
            (from_roots-Extends frames ns u t (rw (from_roots, new, found) at h))
    ]
  ]

  from_roots-more :
      (extra frames : ℕ) (ns : List ℕ) (s t : Dfs)
      → from_roots neighbors frames ns s ≡ some t
      → from_roots neighbors (extra + frames) ns s ≡ some t
  from_roots-more zero frames ns s t h = let e : 0 + frames ≡ frames = omega arith in rw e h
  from_roots-more (suc extra) frames ns s t h =
      let e : suc extra + frames ≡ suc (extra + frames) = omega arith in
      rw e (from_roots-Extends (extra + frames) ns s t (from_roots-more extra frames ns s t h))

  -- A higher limit changes nothing in a search that returns.
  pub from_roots-stable :
      (frames frames' : ℕ) (ns : List ℕ) (s t : Dfs)
      → frames ≤ frames'
      → from_roots neighbors frames ns s ≡ some t
      → from_roots neighbors frames' ns s ≡ some t
  from_roots-stable frames frames' ns s t le h =
      let e : frames' - frames + frames ≡ frames' = omega (arith, le) in
      subst (λ f. from_roots neighbors f ns s ≡ some t) e
        (from_roots-more (frames' - frames) frames ns s t h)

  -- Under another limit the search finds the same, or raises, and then the limit is lower.
  pub from_roots-limited :
      (enough frames : ℕ) (ns : List ℕ) (s t : Dfs)
      → from_roots neighbors enough ns s ≡ some t
      → (from_roots neighbors frames ns s ≡ some t)
        ⊎ ((from_roots neighbors frames ns s ≡ none) × (frames < enough))
  from_roots-limited enough frames ns s t h = elim (Bool-cases (leb enough frames)) [
    | inl le ↦ inl (from_roots-stable enough frames ns s t (ground (arith, le)) h)
    | inr gt ↦ elim (Option-cases (from_roots neighbors frames ns s)) [
      | inl raised ↦ inr (raised, ground (arith, gt))
      | inr (u, found) ↦
          let same = from_roots-stable frames enough ns s u (ground (arith, gt)) found in
          let e : u ≡ t = cc (same, h) in
          inl (subst (λ x. from_roots neighbors frames ns s ≡ some x) e found)
    ]
  ]
