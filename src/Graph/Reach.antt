-- ===== src/Graph/Reach.antt =====
-- The edges that `get_subgraph` selects for a set of nodes are those of its nodes.
use ai_project.Prelude.{
  ℕ, ◌≡◌, ◌⊎◌, refl, sym, subst, inl, inr, String, Bool, true, false, ◌||◌, List, [], ◌∷◌, ◌==◌,
  str_eq, elem, Bool-cases, ==_iff,
}
use ai_project.Smells.{UcgEdge}
use ai_project.Graph.{touches}

-- The edge ends at the node.
abbrev pub Ends : UcgEdge → ℕ → Type 0
Ends e v = (v ≡ e.source_node_id) ⊎ (v ≡ e.target_node_id)

pub or_right : (b c : Bool) → c ≡ true → (b || c) ≡ true
or_right true c h = refl
or_right false c h = h

or_rest : (b c : Bool) → (b || c) ≡ true → b ≡ false → c ≡ true
or_rest true c h e = absurd (cc)
or_rest false c h e = h

pub elem-head : (x : ℕ) (xs : List ℕ) → elem x (x ∷ xs) ≡ true
elem-head x xs = rw ((==_iff x x).1 refl) refl

pub touches-some :
    (direction : String) (ids : List ℕ) (e : UcgEdge)
    → touches direction ids e ≡ true
    → (u : ℕ) × (elem u ids ≡ true) × (touches direction (u ∷ []) e ≡ true)
unfolding touches
touches-some direction ids e h = elim (Bool-cases (str_eq direction "outbound")) [
  | inl out ↦
      (e.source_node_id, rw (touches, out) at h, rw (touches, out) (elem-head e.source_node_id []))
  | inr not_out ↦ elim (Bool-cases (str_eq direction "inbound")) [
    | inl into ↦ (
      e.target_node_id,
      rw (touches, not_out, into) at h,
      rw (touches, not_out, into) (elem-head e.target_node_id []),
    )
    | inr both ↦ elim (Bool-cases (elem e.source_node_id ids)) [
      | inl source ↦ (
        e.source_node_id,
        source,
        rw (touches, not_out, both, elem-head e.source_node_id []) refl,
      )
      | inr other ↦ (
        e.target_node_id,
        rw (touches, not_out, both, other) at h,
        rw (touches, not_out, both) (or_right _ _ (elem-head e.target_node_id [])),
      )
    ]
  ]
]

elem-only :
    (x u : ℕ) (ids : List ℕ) → elem x (u ∷ []) ≡ true → elem u ids ≡ true → elem x ids ≡ true
elem-only x u ids h m = elim (Bool-cases (x == u)) [
  | inl same ↦ subst (λ y. elem y ids ≡ true) (sym ((==_iff x u).0 same)) m
  | inr other ↦ absurd (let bad : false ≡ true = rw other at h in cc)
]

pub touches-every :
    (direction : String) (u : ℕ) (ids : List ℕ) (e : UcgEdge)
    → elem u ids ≡ true
    → touches direction (u ∷ []) e ≡ true
    → touches direction ids e ≡ true
unfolding touches
touches-every direction u ids e m h = elim (Bool-cases (str_eq direction "outbound")) [
  | inl out ↦ rw (touches, out) (elem-only e.source_node_id u ids (rw (touches, out) at h) m)
  | inr not_out ↦ elim (Bool-cases (str_eq direction "inbound")) [
    | inl into ↦
        rw (touches, not_out, into)
          (elem-only e.target_node_id u ids (rw (touches, not_out, into) at h) m)
    | inr both ↦ elim (Bool-cases (elem e.source_node_id (u ∷ []))) [
      | inl source ↦ rw (touches, not_out, both, elem-only e.source_node_id u ids source m) refl
      | inr other ↦
          rw (touches, not_out, both)
            (or_right _ _ (
              elem-only e.target_node_id u ids
                (or_rest _ _ (rw (touches, not_out, both) at h) other) m))
    ]
  ]
]
