-- ===== src/Smells/Cycles/Reported.antt =====
-- The reports of `_detect_cyclic_dependencies`, read off the graph.
use ai_project.Prelude.{
  ℕ, ◌<◌, ◌⊎◌, none, length, ◌≡◌, refl, sym, ◌∙◌, subst, ==_iff, inl, inr, Bool, true, false, ◌&&◌,
  some, List, [], ◌∷◌, ◌==◌, elem, keep, map, All, Bool-cases,
}
use ai_project.Smells.{UcgNode, UcgEdge, SmellResult}
use ai_project.Smells.Cycles.{
  start, module_nodes, is_dependency, adj, circular, detect_cyclic_dependencies,
}
use ai_project.Smells.Cycles.Walks.{Edge, Walk, here, step, IsCycle}
use ai_project.Smells.Cycles.Frames.{from_roots-limited}
use ai_project.Smells.Cycles.Search.{from_roots-reports}

module _ (f g : ℕ → List ℕ) (weaker : (a b : ℕ) → Edge f a b → Edge g a b) where
  Walk-weaker : (a b : ℕ) (xs : List ℕ) → Walk f a b xs → Walk g a b xs
  Walk-weaker a b xs (here _) = here a
  Walk-weaker a b xs (step _ c _ ys e w) = step a c b ys (weaker a c e) (Walk-weaker c b ys w)

  IsCycle-weaker : (c : List ℕ) → IsCycle f c → IsCycle g c
  IsCycle-weaker c h = record {
    first = h.first;
    last = h.last;
    walk = Walk-weaker h.first h.last c h.walk;
    closes = weaker h.last h.first h.closes;
    long = h.long;
  }

  All-IsCycle : (cycles : List (List ℕ)) → All (IsCycle f) cycles → All (IsCycle g) cycles
  All-IsCycle [] h = tt
  All-IsCycle (c ∷ cycles) h = (IsCycle-weaker c h.0, All-IsCycle cycles h.1)

last_of : (p t : Bool) → (p && t) ≡ true → t ≡ true
last_of true t h = h
last_of false t h = absurd (cc)

is_dependency-target :
    (nodes : List UcgNode) (a : ℕ) (e : UcgEdge)
    → is_dependency nodes a e ≡ true
    → elem e.target_node_id (module_nodes nodes) ≡ true
unfolding is_dependency
is_dependency-target nodes a e h = last_of _ (elem e.target_node_id (module_nodes nodes)) h

adj-inside :
    (nodes : List UcgNode) (rest : List UcgEdge) (a b : ℕ)
    → elem b (map (λ (e : UcgEdge). e.target_node_id) (keep (is_dependency nodes a) rest)) ≡ true
    → elem b (module_nodes nodes) ≡ true
adj-inside nodes [] a b m = cc
adj-inside nodes (e ∷ rest) a b m = elim (Bool-cases (is_dependency nodes a e)) [
  | inr other ↦ adj-inside nodes rest a b (rw (keep, other) at m)
  | inl dependency ↦ elim (Bool-cases (b == e.target_node_id)) [
    | inl same ↦
        let q : b ≡ e.target_node_id = (==_iff b e.target_node_id).0 same in
        subst (λ x. elem x (module_nodes nodes) ≡ true) (sym q)
          (is_dependency-target nodes a e dependency)
    | inr other ↦ adj-inside nodes rest a b (rw (keep, dependency, other) at m)
  ]
]

All-map :
    (nodes : List UcgNode) (edges : List UcgEdge) (cycles : List (List ℕ))
    → All (IsCycle (adj nodes edges)) cycles
    → All (λ (s : SmellResult). IsCycle (adj nodes edges) s.affected_node_ids) (map circular cycles)
All-map nodes edges [] h = tt
All-map nodes edges (c ∷ cycles) h = (h.0, All-map nodes edges cycles h.1)

-- For every graph there are results that the search for cyclic dependencies returns, in whatever
-- order Python traverses its sets, whenever there is room for as many open calls of `dfs` as there
-- are modules and files; with less room it returns these results or raises a RecursionError. Each of the
-- results names a cycle of modules and files: at least two nodes, each with a dependency edge to the
-- next, and the last to the first.
pub detect_cyclic_dependencies_sound :
    (order : List ℕ → List ℕ) (nodes : List UcgNode) (edges : List UcgEdge)
    → ((x : ℕ) (xs : List ℕ) → elem x (order xs) ≡ elem x xs)
    → (results : List SmellResult) × ((frames : ℕ)
        → (detect_cyclic_dependencies frames order nodes edges ≡ some results)
          ⊎ ((detect_cyclic_dependencies frames order nodes edges ≡ none)
              × (frames < length (module_nodes nodes))))
      × All (λ (s : SmellResult). IsCycle (adj nodes edges) s.affected_node_ids) results
unfolding detect_cyclic_dependencies adj
detect_cyclic_dependencies_sound order nodes edges same =
    let modules = module_nodes nodes in
    let ordered : ℕ → List ℕ = λ n. order (adj nodes edges n) in
    let (s, q, cycles) =
      from_roots-reports ordered modules
        (λ a b e. adj-inside nodes edges a b (sym (same b (adj nodes edges a)) ∙ e)) (order modules)
        (λ x m. sym (same x modules) ∙ m) in
    (
      map circular s.results,
      λ frames.
          elim (from_roots-limited ordered (length modules) frames (order modules) start s q) [
            | inl found ↦ inl (rw (detect_cyclic_dependencies, found) refl)
            | inr (raised, less) ↦ inr (rw (detect_cyclic_dependencies, raised) refl, less)
          ],
      All-map nodes edges s.results (
          All-IsCycle ordered (adj nodes edges) (λ a b e. sym (same b (adj nodes edges a)) ∙ e)
            s.results cycles),
    )
