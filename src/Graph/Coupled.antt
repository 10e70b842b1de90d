-- ===== src/Graph/Coupled.antt =====
-- What the metrics of backend/app/api/v1/graph.py say about the graph.
use ai_project.Prelude.{
  ℕ, suc, ◌+◌, ◌≤◌, ◌≡◌, refl, sym, ap, ◌∙◌, subst, inl, inr, ◌&&◌, ◌||◌, ◌==◌, Bool, true, false,
  not, some, List, [], ◌∷◌, ◌++◌, All, any, count_if, drop, elem, keep, length, length-take, ltb,
  map, min, one_of, str_eq, take, take-append-drop, Bool-cases, arith,
}
use ai_project.Smells.{UcgNode, UcgEdge}
use ai_project.Triage.{SmellRow}
use ai_project.Graph.Metrics.{
  TopCoupledNode, GraphMetrics, in_count, out_count, class_nodes, coupling_of, insert_by, sort_by,
  leaf_node_types, dead_code_count, couplings, top_coupled, get_metrics,
}

module _ {ℓ} {A : Type ℓ} (key : A → ℕ) where
  abbrev pub IsDescending : List A → Type 0
  IsDescending [] = Unit
  IsDescending (x ∷ xs) = All (λ y. key y ≤ key x) xs × IsDescending xs

  insert_by-below :
      (n : ℕ) (x : A) (xs : List A)
      → key x ≤ n
      → All (λ y. key y ≤ n) xs
      → All (λ y. key y ≤ n) (insert_by key x xs)
  unfolding insert_by
  insert_by-below n x [] h hs = (h, tt)
  insert_by-below n x (y ∷ ys) h hs = elim (Bool-cases (ltb (key x) (key y))) [
    | inl later ↦ rw later (hs.0, insert_by-below n x ys h hs.1)
    | inr here ↦ rw here (h, hs)
  ]

  All-less : (m n : ℕ) (xs : List A) → m ≤ n → All (λ y. key y ≤ m) xs → All (λ y. key y ≤ n) xs
  All-less m n [] h hs = tt
  All-less m n (x ∷ xs) h hs = (omega (arith, h, hs.0), All-less m n xs h hs.1)

  insert_by-IsDescending :
      (x : A) (xs : List A) → IsDescending xs → IsDescending (insert_by key x xs)
  unfolding insert_by
  insert_by-IsDescending x [] h = (tt, tt)
  insert_by-IsDescending x (y ∷ ys) h = elim (Bool-cases (ltb (key x) (key y))) [
    | inl later ↦
        let le : key x ≤ key y = ground (arith, later) in
        rw later (insert_by-below (key y) x ys le h.0, insert_by-IsDescending x ys h.1)
    | inr here ↦
        let le : key y ≤ key x = ground (arith, here) in
        rw here ((le, All-less (key y) (key x) ys le h.0), h)
  ]

  sort_by-IsDescending : (xs : List A) → IsDescending (sort_by key xs)
  unfolding sort_by
  sort_by-IsDescending [] = tt
  sort_by-IsDescending (x ∷ xs) =
      insert_by-IsDescending x (sort_by key xs) (sort_by-IsDescending xs)

  module _ (p : A → Bool) where
    count_if-insert_by :
        (x : A) (xs : List A) → count_if p (insert_by key x xs) ≡ count_if p (x ∷ xs)
    unfolding insert_by
    count_if-insert_by x [] = refl
    count_if-insert_by x (y ∷ ys) = elim (Bool-cases (ltb (key x) (key y))) [
      | inl later ↦ rw later (ground (arith, count_if-insert_by x ys))
      | inr here ↦ rw here refl
    ]

    count_if-sort_by : (xs : List A) → count_if p (sort_by key xs) ≡ count_if p xs
    unfolding sort_by
    count_if-sort_by [] = refl
    count_if-sort_by (x ∷ xs) =
        count_if-insert_by x (sort_by key xs) ∙ ground (arith, count_if-sort_by xs)

count_if-all {ℓ} : {A : Type ℓ} (xs : List A) → count_if (λ x. true) xs ≡ length xs
count_if-all [] = refl
count_if-all (x ∷ xs) = ap suc (count_if-all xs)

length-sort_by {ℓ} : {A : Type ℓ} (key : A → ℕ) (xs : List A) → length (sort_by key xs) ≡ length xs
length-sort_by key xs =
    sym (count_if-all (sort_by key xs)) ∙ count_if-sort_by key (λ x. true) xs ∙ count_if-all xs

-- Some edge of a call leads to the node.
abbrev pub is_called : List UcgEdge → UcgNode → Bool
is_called edges n =
    any (λ (e : UcgEdge). str_eq e.edge_type "CALLS" && (n.id == e.target_node_id)) edges

elem-is_called :
    (edges : List UcgEdge) (n : UcgNode)
    → elem n.id (
        map
          (λ (e : UcgEdge). e.target_node_id)
          (keep (λ (e : UcgEdge). str_eq e.edge_type "CALLS") edges))
      ≡ is_called edges n
elem-is_called [] n = refl
elem-is_called (e ∷ edges) n = elim (Bool-cases (str_eq e.edge_type "CALLS")) [
  | inl call ↦ rw call (ap (λ b. (n.id == e.target_node_id) || b) (elem-is_called edges n))
  | inr other ↦ rw other (elem-is_called edges n)
]

abbrev pub is_leaf : UcgNode → Bool
is_leaf n = one_of n.node_type leaf_node_types

dead_code_count_lem :
    (nodes : List UcgNode) (edges : List UcgEdge)
    → dead_code_count nodes edges
      ≡ count_if (λ (n : UcgNode). is_leaf n && not (is_called edges n)) nodes
unfolding dead_code_count
dead_code_count_lem [] edges = refl
dead_code_count_lem (n ∷ nodes) edges =
    let later = dead_code_count_lem nodes edges in
    elim (Bool-cases (is_leaf n)) [
      | inr other ↦ rw (other) later
      | inl leaf ↦ elim (Bool-cases (is_called edges n)) [
        | inl called ↦ rw (leaf, elem-is_called edges n, called) later
        | inr dead ↦ rw (leaf, elem-is_called edges n, dead) (ap suc later)
      ]
    ]

module _ (average : ℕ → ℕ → ℕ) (share : ℕ → ℕ → ℕ) (complexity : UcgNode → ℕ) where
  -- The entry of a class or module, and whether it has any coupling at all.
  abbrev pub entry : List UcgEdge → UcgNode → TopCoupledNode
  entry edges n = record {
    node_id = n.id;
    qualified_name = n.qualified_name;
    afferent_coupling = in_count edges n.id;
    efferent_coupling = out_count edges n.id;
    instability = share (out_count edges n.id) (in_count edges n.id + out_count edges n.id);
  }

  abbrev pub is_coupled : List UcgEdge → UcgNode → Bool
  is_coupled edges n = ltb 0 (in_count edges n.id + out_count edges n.id)

  couplings_lem :
      (edges : List UcgEdge) (nodes : List UcgNode)
      → couplings average share complexity edges nodes
        ≡ map (entry edges) (keep (is_coupled edges) nodes)
  unfolding couplings
  couplings_lem edges [] = refl
  couplings_lem edges (n ∷ nodes) =
      let total = in_count edges n.id + out_count edges n.id in
      elim (Bool-cases (ltb 0 total)) [
        | inl coupled ↦
            let more : (total == 0) ≡ false = ground (arith, coupled) in
            rw (coupled, more) (ap (λ ts. entry edges n ∷ ts) (couplings_lem edges nodes))
        | inr alone ↦
            let nothing : (total == 0) ≡ true = ground (arith, alone) in
            rw (alone, nothing) (couplings_lem edges nodes)
      ]

  -- Of the first 200 classes and modules, those with an incoming or outgoing call or dependency have an
  -- entry with their counts; the metrics list ten of the entries, or all where there are fewer, in falling
  -- order of their sums, and the entries left out have no larger sum than any that is listed. The dead code is the
  -- number of functions, methods and classes that no CALLS edge leads to.
  pub get_metrics-IsTop :
      (job_id : ℕ) (nodes : List UcgNode) (edges : List UcgEdge) (smells : List SmellRow)
      (metrics : GraphMetrics)
      → get_metrics average share complexity true job_id nodes edges smells ≡ some metrics
      → (let entries = map (entry edges) (keep (is_coupled edges) (class_nodes nodes)) in
          (rest : List TopCoupledNode) × IsDescending coupling_of
            (metrics.top_coupled_nodes ++ rest)
          × ((p : TopCoupledNode → Bool)
              → count_if p (metrics.top_coupled_nodes ++ rest) ≡ count_if p entries)
          × (length metrics.top_coupled_nodes ≡ min 10 (length entries)))
        × (metrics.dead_code_node_count
            ≡ count_if (λ (n : UcgNode). is_leaf n && not (is_called edges n)) nodes)
  unfolding get_metrics top_coupled
  get_metrics-IsTop job_id nodes edges smells metrics h =
      let all = couplings average share complexity edges (class_nodes nodes) in
      let sorted = sort_by coupling_of all in
      let top : metrics.top_coupled_nodes ≡ take 10 sorted = cc h in
      let dead : metrics.dead_code_node_count ≡ dead_code_count nodes edges = cc h in
      let whole : metrics.top_coupled_nodes ++ drop 10 sorted ≡ sorted =
        ap (λ ts. ts ++ drop 10 sorted) top ∙ take-append-drop 10 sorted in
      (
        (
          drop 10 sorted,
          subst (IsDescending coupling_of) (sym whole) (sort_by-IsDescending coupling_of all),
          λ p.
              ap (count_if p) whole
              ∙ count_if-sort_by coupling_of p all
              ∙ ap (count_if p) (couplings_lem edges (class_nodes nodes)),
          ap length top
              ∙ length-take 10 sorted
              ∙ ap (min 10) (
                  length-sort_by coupling_of all
                  ∙ ap length (couplings_lem edges (class_nodes nodes))),
        ),
        dead ∙ dead_code_count_lem nodes edges,
      )
