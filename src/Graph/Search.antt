-- ===== src/Graph/Search.antt =====
-- What the loop over the new edges of `get_subgraph` does to the visited nodes.
use mathlib.Core.List.{Memᴰ}
use mathlib.Core.List.Memᴰ
use ai_project.Prelude.{
  ℕ, ◌≡◌, ◌⊎◌, refl, sym, ap, subst, ◌∙◌, inl, inr, true, false, List, [], ◌∷◌, ◌++◌, ◌==◌, elem,
  any, Bool-cases, ==_iff, elem-append,
}
use ai_project.Smells.{UcgEdge}
use ai_project.Graph.{Traversal, add_neighbor, collect_edge, add_edges}
use ai_project.Graph.Reach.{Ends, elem-head, or_right}

abbrev pub Seen : ℕ → Traversal → Type 0
Seen v s = elem v s.visited_node_ids ≡ true

abbrev pub Waits : ℕ → Traversal → Type 0
Waits v s = elem v s.frontier ≡ true

-- What one or more additions do to the visited nodes and the frontier; `From v` is where a newly
-- visited node comes from.
pub record Grown (From : ℕ → Type 0) (s t : Traversal) : Type 0 where
  pub keeps : (v : ℕ) → Seen v s → Seen v t
  pub origin : (v : ℕ) → Seen v t → Seen v s ⊎ From v
  pub fresh : (v : ℕ) → Seen v t → Seen v s ⊎ Waits v t
  pub waiting : (v : ℕ) → Waits v s → Waits v t
  pub seen : (v : ℕ) → Waits v t → Waits v s ⊎ Seen v t

Grown-trans :
    (F G H : ℕ → Type 0) (s t u : Traversal)
    → ((v : ℕ) → F v → H v)
    → ((v : ℕ) → G v → H v)
    → Grown F s t
    → Grown G t u
    → Grown H s u
Grown-trans F G H s t u f g p q = record {
  keeps = λ v m. q.keeps v (p.keeps v m);
  origin = λ v m. elim (q.origin v m) [
    | inr new ↦ inr (g v new)
    | inl old ↦ elim (p.origin v old) [ inl older ↦ inl older | inr new ↦ inr (f v new) ]
  ];
  fresh = λ v m. elim (q.fresh v m) [
    | inr new ↦ inr new
    | inl old ↦ elim (p.fresh v old) [ inl older ↦ inl older | inr new ↦ inr (q.waiting v new) ]
  ];
  waiting = λ v m. q.waiting v (p.waiting v m);
  seen = λ v m. elim (q.seen v m) [
    | inr new ↦ inr new
    | inl old ↦ elim (p.seen v old) [ inl older ↦ inl older | inr new ↦ inr (q.keeps v new) ]
  ];
}

Grown-same :
    (F : ℕ → Type 0) (s : Traversal) (edges : List UcgEdge)
    → Grown F s (record s { collected_edges = edges })
Grown-same F s edges = record {
  keeps = λ v m. m;
  origin = λ v m. inl m;
  fresh = λ v m. inl m;
  waiting = λ v m. m;
  seen = λ v m. inl m;
}

collect_edge-Grown : (F : ℕ → Type 0) (e : UcgEdge) (s : Traversal) → Grown F s (collect_edge e s)
unfolding collect_edge
collect_edge-Grown F e s =
    elim (Bool-cases (any (λ (d : UcgEdge). d.id == e.id) s.collected_edges)) [
      | inl old ↦ rw (collect_edge, old) (Grown-same F s s.collected_edges)
      | inr new ↦ rw (collect_edge, new) (Grown-same F s (s.collected_edges ++ e ∷ []))
    ]

add_neighbor-Grown : (n : ℕ) (s : Traversal) → Grown (λ v. v ≡ n) s (add_neighbor n s)
unfolding add_neighbor
add_neighbor-Grown n s = elim (Bool-cases (elem n s.visited_node_ids)) [
  | inl old ↦ rw (add_neighbor, old) (Grown-same (λ v. v ≡ n) s s.collected_edges)
  | inr new ↦
      rw (add_neighbor, new)
        (record {
          keeps = λ v m. or_right (v == n) (elem v s.visited_node_ids) m;
          origin = λ v m. elim (Bool-cases (v == n)) [
            | inl same ↦ inr ((==_iff v n).0 same)
            | inr other ↦ inl (rw other at m)
          ];
          fresh = λ v m. elim (Bool-cases (v == n)) [
            | inl same ↦
                inr (
                  elem-append v s.frontier (n ∷ []) ∙ or_right (elem v s.frontier) _ (rw same refl))
            | inr other ↦ inl (rw other at m)
          ];
          waiting = λ v m. elem-append v s.frontier (n ∷ []) ∙ rw m refl;
          seen = λ v m. elim (Bool-cases (v == n)) [
            | inl same ↦ inr (rw same refl)
            | inr other ↦ elim (Bool-cases (elem v s.frontier)) [
              | inl waits ↦ inl waits
              | inr not_waits ↦ absurd (
                  let q : false ≡ true =
                    rw (not_waits, other) at (sym (elem-append v s.frontier (n ∷ [])) ∙ m) in
                  cc)
            ]
          ];
        })
]

add_neighbor-Seen : (n : ℕ) (s : Traversal) → Seen n (add_neighbor n s)
unfolding add_neighbor
add_neighbor-Seen n s = elim (Bool-cases (elem n s.visited_node_ids)) [
  | inl old ↦ rw (add_neighbor, old) old
  | inr new ↦ rw (add_neighbor, new) (elem-head n s.visited_node_ids)
]

-- One of the edges ends at the node.
abbrev pub EndOf : List UcgEdge → ℕ → Type 0
EndOf es v = (e : UcgEdge) × Memᴰ e es × Ends e v

pub add_edges-Grown :
    (es : List UcgEdge) (s : Traversal)
    → Grown (EndOf es) s (add_edges es s) × ((v : ℕ) → EndOf es v → Seen v (add_edges es s))
unfolding add_edges
add_edges-Grown [] s = (Grown-same (EndOf []) s s.collected_edges, λ v h. absurd (Memᴰ.not-nil h.1))
add_edges-Grown (e ∷ es) s =
    let s₁ = collect_edge e s in
    let s₂ = add_neighbor e.source_node_id s₁ in
    let s₃ = add_neighbor e.target_node_id s₂ in
    let g₁ = collect_edge-Grown (EndOf (e ∷ es)) e s in
    let g₂ = add_neighbor-Grown e.source_node_id s₁ in
    let g₃ = add_neighbor-Grown e.target_node_id s₂ in
    let (rest, ends) = add_edges-Grown es s₃ in
    let g₁₂ : Grown (EndOf (e ∷ es)) s s₂ =
      Grown-trans (EndOf (e ∷ es)) (λ v. v ≡ e.source_node_id) (EndOf (e ∷ es)) s s₁ s₂ (λ v h. h)
        (λ v q. (e, Memᴰ.head refl, inl q)) g₁ g₂ in
    let g₁₃ : Grown (EndOf (e ∷ es)) s s₃ =
      Grown-trans (EndOf (e ∷ es)) (λ v. v ≡ e.target_node_id) (EndOf (e ∷ es)) s s₂ s₃ (λ v h. h)
        (λ v q. (e, Memᴰ.head refl, inr q)) g₁₂ g₃ in
    (
      Grown-trans (EndOf (e ∷ es)) (EndOf es) (EndOf (e ∷ es)) s s₃ (add_edges es s₃) (λ v h. h)
          (λ v (d, m, q). (d, Memᴰ.tail m, q)) g₁₃ rest,
      λ v (d, m, q). elim (Memᴰ.cases_cons m) [
        | inr later ↦ ends v (d, later, q)
        | inl same ↦ rest.keeps v (elim q [
          | inl source ↦ g₃.keeps v (
              subst (λ x. Seen x s₂) (sym (source ∙ ap (λ (x : UcgEdge). x.source_node_id) same))
                (add_neighbor-Seen e.source_node_id s₁))
          | inr target ↦
              subst (λ x. Seen x s₃) (sym (target ∙ ap (λ (x : UcgEdge). x.target_node_id) same))
                (add_neighbor-Seen e.target_node_id s₂)
        ])
      ],
    )
