-- ===== src/Graph/Depth.antt =====
-- The search of `get_subgraph` finds the nodes within the depth, and no others.
use mathlib.Core.List.{Memᴰ}
use ai_project.Prelude.{
  ℕ, zero, suc, ◌+◌, ◌≡◌, ◌↔◌, ◌⊎◌, refl, subst, inl, inr, true, false, List, [], ◌∷◌, ◌==◌, elem,
  keep, length, arith, Bool-cases, Mem-keep, Mem-kept, ==_iff,
}
use ai_project.Smells.{UcgNode, UcgEdge}
use ai_project.Graph.{
  SubgraphRequest, Traversal, subgraph, nodes_not_found, of_types, selects, add_edges, round,
  traverse, seed_nodes, start, get_subgraph,
}
use ai_project.Graph.Reach.{Ends, touches-some, touches-every}
use ai_project.Graph.Search.{Seen, Waits, add_edges-Grown}

module _ (body : SubgraphRequest) (nodes : List UcgNode) (edges : List UcgEdge) where
  -- A hop along a selected edge of one node, to either end of the edge.
  abbrev pub Hop : ℕ → ℕ → Type 0
  Hop u v = (e : UcgEdge) × Memᴰ e edges × (selects body (u ∷ []) e ≡ true) × Ends e v

  -- The node is a seed of the graph, or within so many hops of one.
  pub data Within : ℕ → ℕ → Type 0 where
    at_seed : (n v : ℕ) → Seen v (start body nodes edges) → Within n v
    by_hop : (n u v : ℕ) → Within n u → Hop u v → Within (suc n) v

  Within-suc : (n v : ℕ) → Within n v → Within (suc n) v
  Within-suc n v (at_seed _ _ h) = at_seed (suc n) v h
  Within-suc n v (by_hop m u _ w h) = by_hop (suc m) u v (Within-suc m u w) h

  Within-add : (d n v : ℕ) → Within n v → Within (d + n) v
  Within-add zero n v w = subst (λ m. Within m v) (omega arith) w
  Within-add (suc d) n v w =
      subst (λ m. Within m v) (omega arith) (Within-suc (d + n) v (Within-add d n v w))

  selects-some :
      (ids : List ℕ) (e : UcgEdge)
      → selects body ids e ≡ true
      → (u : ℕ) × (elem u ids ≡ true) × (selects body (u ∷ []) e ≡ true)
  unfolding selects
  selects-some ids e h = elim (Bool-cases (of_types body.edge_types e)) [
    | inr other ↦ absurd (let bad : false ≡ true = rw (selects, other) at h in cc)
    | inl kind ↦
        let (u, m, t) = touches-some body.direction ids e (rw (selects, kind) at h) in
        (u, m, rw (selects, kind) t)
  ]

  selects-every :
      (u : ℕ) (ids : List ℕ) (e : UcgEdge)
      → elem u ids ≡ true
      → selects body (u ∷ []) e ≡ true
      → selects body ids e ≡ true
  unfolding selects
  selects-every u ids e m h = elim (Bool-cases (of_types body.edge_types e)) [
    | inr other ↦ absurd (let bad : false ≡ true = rw (selects, other) at h in cc)
    | inl kind ↦
        rw (selects, kind) (touches-every body.direction u ids e m (rw (selects, kind) at h))
  ]

  -- A node within one hop more is a seed, which is within any number, or at the end of a last hop.
  last-Hop : (n v : ℕ) → Within (suc n) v → Within n v ⊎ ((u : ℕ) × Within n u × Hop u v)
  last-Hop n v (at_seed _ _ h) = inl (at_seed n v h)
  last-Hop n v (by_hop _ u _ w h) = inr (u, w, h)

  -- After `n` rounds the visited nodes are those within `n` hops, and all hops from a visited node
  -- that does not wait have been made.
  record IsLevel (n : ℕ) (s : Traversal) : Type 0 where
    near : (v : ℕ) → Seen v s → Within n v
    all_near : (v : ℕ) → Within n v → Seen v s
    hopped : (u : ℕ) → Seen u s → Waits u s ⊎ ((v : ℕ) → Hop u v → Seen v s)
    seen : (u : ℕ) → Waits u s → Seen u s

  round-IsLevel : (n : ℕ) (s : Traversal) → IsLevel n s → IsLevel (suc n) (round body nodes edges s)
  unfolding round
  round-IsLevel n s h =
      let chosen = keep (selects body s.frontier) edges in
      let s₀ : Traversal = record s { frontier = [] } in
      let t = add_edges chosen s₀ in
      let (g, ends) = add_edges-Grown chosen s₀ in
      let hop_seen : (u v : ℕ) → Seen u s → Hop u v → Seen v t = λ u v m (e, mem, picked, end).
        elim (h.hopped u m) [
          | inr done ↦ g.keeps v (done v (e, mem, picked, end))
          | inl waits ↦ ends v (
            e,
            Mem-kept (selects body s.frontier) e edges mem
                (selects-every u s.frontier e waits picked),
            end,
          )
        ] in
      let all_seen : (v : ℕ) → Within (suc n) v → Seen v t = λ v w. elim (last-Hop n v w) [
        | inl early ↦ g.keeps v (h.all_near v early)
        | inr (u, near, hop) ↦ hop_seen u v (h.all_near u near) hop
      ] in
      record {
        near = λ v m. elim (g.origin v m) [
          | inl old ↦ Within-suc n v (h.near v old)
          | inr (e, mem, end) ↦
              let (mem', picked) = Mem-keep (selects body s.frontier) e edges mem in
              let (u, waits, one) = selects-some s.frontier e picked in
              by_hop n u v (h.near u (h.seen u waits)) (e, mem', one, end)
        ];
        all_near = all_seen;
        hopped = λ u m. elim (g.fresh u m) [
          | inr waits ↦ inl waits
          | inl old ↦ inr (λ v hop. hop_seen u v old hop)
        ];
        seen = λ u m. elim (g.seen u m) [ inr new ↦ new | inl none_waits ↦ absurd (cc) ];
      }

  -- With nothing waiting, more hops reach nothing new.
  closed-Seen :
      (n : ℕ) (s : Traversal)
      → IsLevel n s
      → length s.frontier ≡ 0
      → (m v : ℕ) → Within m v
      → Seen v s
  closed-Seen n s h empty m v (at_seed _ _ q) = h.all_near v (at_seed n v q)
  closed-Seen n s h empty m v (by_hop k u _ w hop) =
      let m' = closed-Seen n s h empty k u w in
      elim (h.hopped u m') [
        | inr done ↦ done v hop
        | inl waits ↦ absurd (none_waits u s.frontier empty waits)
      ]
    where
      none_waits : (x : ℕ) (xs : List ℕ) → length xs ≡ 0 → elem x xs ≡ true → ⊥
      none_waits x [] e m = cc
      none_waits x (y ∷ xs) e m = omega (arith, e)

  traverse-Within :
      (d n : ℕ) (s : Traversal)
      → IsLevel n s
      → (v : ℕ) → Seen v (traverse body nodes edges d s) ↔ Within (d + n) v
  unfolding traverse
  traverse-Within zero n s h v = (
    λ m. Within-add zero n v (h.near v m),
    λ w. h.all_near v (subst (λ k. Within k v) (omega arith) w),
  )
  traverse-Within (suc d) n s h v = elim (Bool-cases (length s.frontier == 0)) [
    | inl empty ↦
        rw (traverse, empty)
          (
            λ m. Within-add (suc d) n v (h.near v m),
            λ w. closed-Seen n s h ((==_iff (length s.frontier) 0).0 empty) (suc d + n) v w,
          )
    | inr waiting ↦
        let ih = traverse-Within d (suc n) (round body nodes edges s) (round-IsLevel n s h) v in
        rw (traverse, waiting)
          (
            λ m. subst (λ k. Within k v) (omega arith) (ih.0 m),
            λ w. ih.1 (subst (λ k. Within k v) (omega arith) w),
          )
  ]

  start-IsLevel : IsLevel 0 (start body nodes edges)
  unfolding start
  start-IsLevel = record {
    near = λ v m. at_seed 0 v m;
    all_near = λ v w. at_start 0 v refl w;
    hopped = λ u m. inl m;
    seen = λ u m. m;
  }
    where
      at_start : (n v : ℕ) → n ≡ 0 → Within n v → Seen v (start body nodes edges)
      at_start n v e (at_seed _ _ h) = h
      at_start n v e (by_hop m u _ w h) = absurd (omega (arith, e))

  -- The nodes that the subgraph request visits are, in every direction and for every choice of edge
  -- types, exactly those within `depth` hops along selected edges of the seeds that the job has.
  pub get_subgraph_iff :
      (t : Traversal)
      → get_subgraph body nodes edges true ≡ subgraph t
      → (v : ℕ) → (elem v t.visited_node_ids ≡ true) ↔ Within body.depth v
  unfolding get_subgraph
  get_subgraph_iff t h v = elim (Bool-cases (length (seed_nodes body nodes edges) == 0)) [
    | inl none_found ↦
        absurd (let bad : nodes_not_found ≡ subgraph t = rw (get_subgraph, none_found) at h in cc)
    | inr found ↦
        let e : traverse body nodes edges body.depth (start body nodes edges) ≡ t =
          cc (rw (get_subgraph, found) at h) in
        let reach = traverse-Within body.depth 0 (start body nodes edges) start-IsLevel v in
        subst (λ (s : Traversal). Seen v s ↔ Within body.depth v) e
          (
            λ m. subst (λ k. Within k v) (omega arith) (reach.0 m),
            λ w. reach.1 (subst (λ k. Within k v) (omega arith) w),
          )
  ]
