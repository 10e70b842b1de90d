-- ===== src/Graph/Metrics.antt =====
-- `get_metrics` of backend/app/api/v1/graph.py, over the nodes, the edges and the smells of one job. The
-- rounded quotients and the complexity in a node's properties are parameters; lines end no earlier than
-- they start. The cache and the time are left out.
use ai_project.Prelude.{
  ℕ, ◌+◌, ◌-◌, ◌&&◌, ◌==◌, String, Bool, true, false, not, Option, none, some, List, [], ◌∷◌,
  count_if, elem, keep, length, ltb, map, max, one_of, str_eq, take, if◌then◌else◌,
}
use ai_project.Smells.{UcgNode, UcgEdge}
use ai_project.Triage.{SmellRow}

pub record TopCoupledNode : Type 0 where
  pub node_id : ℕ
  pub qualified_name : String
  pub afferent_coupling : ℕ
  pub efferent_coupling : ℕ
  pub instability : ℕ

pub record TopComplexFunction : Type 0 where
  pub node_id : ℕ
  pub qualified_name : String
  pub cyclomatic_complexity : ℕ
  pub lines_of_code : ℕ

pub record GraphMetrics : Type 0 where
  pub total_nodes : ℕ
  pub total_edges : ℕ
  pub average_coupling : ℕ
  pub max_cyclomatic_complexity : ℕ
  pub circular_dependency_count : ℕ
  pub dead_code_node_count : ℕ
  pub top_coupled_nodes : List TopCoupledNode
  pub top_complex_functions : List TopComplexFunction

abbrev pub coupling_edges : List String
coupling_edges = "CALLS" ∷ "DEPENDS_ON" ∷ []

-- the counts that the two grouped queries give for a node
abbrev pub in_count : List UcgEdge → ℕ → ℕ
in_count edges i =
    count_if (λ (e : UcgEdge). (e.target_node_id == i) && one_of e.edge_type coupling_edges) edges

abbrev pub out_count : List UcgEdge → ℕ → ℕ
out_count edges i =
    count_if (λ (e : UcgEdge). (e.source_node_id == i) && one_of e.edge_type coupling_edges) edges

-- The first 200 classes and modules.
abbrev pub class_nodes : List UcgNode → List UcgNode
class_nodes nodes =
    take 200 (keep (λ (n : UcgNode). one_of n.node_type ("CLASS" ∷ "MODULE" ∷ [])) nodes)

abbrev pub coupling_of : TopCoupledNode → ℕ
coupling_of t = t.afferent_coupling + t.efferent_coupling

-- `sort(key=…, reverse=True)`: equal keys keep their order
unfoldable pub insert_by {ℓ} : {A : Type ℓ} → (A → ℕ) → A → List A → List A
insert_by key x [] = x ∷ []
insert_by key x (y ∷ ys) =
    let later = insert_by key x ys in if ltb (key x) (key y) then y ∷ later else x ∷ y ∷ ys

unfoldable pub sort_by {ℓ} : {A : Type ℓ} → (A → ℕ) → List A → List A
unfolding insert_by
sort_by key [] = []
sort_by key (x ∷ xs) = insert_by key x (sort_by key xs)

abbrev pub leaf_node_types : List String
leaf_node_types = "FUNCTION" ∷ "METHOD" ∷ "CLASS" ∷ []

abbrev pub leaf_ids : List UcgNode → List ℕ
leaf_ids nodes =
    map (λ (n : UcgNode). n.id) (keep (λ (n : UcgNode). one_of n.node_type leaf_node_types) nodes)

-- `len(set(leaf_ids) - referenced_ids)`: the identifiers are primary keys, so they differ
unfoldable pub dead_code_count : List UcgNode → List UcgEdge → ℕ
dead_code_count nodes edges =
    let referenced_ids =
      map (λ (e : UcgEdge). e.target_node_id)
        (keep (λ (e : UcgEdge). str_eq e.edge_type "CALLS") edges) in
    length (keep (λ i. not (elem i referenced_ids)) (leaf_ids nodes))

-- The lines of a function that has both of its ends.
unfoldable pub span : UcgNode → Option ℕ
span n = elim n.line_start [
  | none ↦ none
  | some first ↦ elim n.line_end [ none ↦ none | some last ↦ some (last - first) ]
]

abbrev pub span_or_zero : UcgNode → ℕ
unfolding span
span_or_zero n = elim (span n) [ none ↦ 0 | some lines ↦ lines ]

-- `… if n.line_end and n.line_start else 0`
unfoldable pub lines_of_code : UcgNode → ℕ
lines_of_code n = elim n.line_start [
  | none ↦ 0
  | some first ↦ elim n.line_end [ none ↦ 0 | some last ↦ if (first == 0) then 0 else last - first ]
]

abbrev pub func_nodes : List UcgNode → List UcgNode
unfolding sort_by span
func_nodes nodes = take 10 (
    sort_by span_or_zero (
      keep
        (λ (n : UcgNode).
          one_of n.node_type ("FUNCTION" ∷ "METHOD" ∷ [])
          && elim (span n) [ none ↦ false | some lines ↦ true ])
        nodes))

-- `max(…, default=0)`
unfoldable pub max_of : List ℕ → ℕ
max_of [] = 0
max_of (n ∷ ns) = max n (max_of ns)

module _ (average : ℕ → ℕ → ℕ) (share : ℕ → ℕ → ℕ) (complexity : UcgNode → ℕ) where
  -- the loop that fills `top_coupled`
  unfoldable pub couplings : List UcgEdge → List UcgNode → List TopCoupledNode
  couplings edges [] = []
  couplings edges (n ∷ nodes) =
      let rest = couplings edges nodes in
      let total = in_count edges n.id + out_count edges n.id in
      if total == 0
      then rest
      else record {
        node_id = n.id;
        qualified_name = n.qualified_name;
        afferent_coupling = in_count edges n.id;
        efferent_coupling = out_count edges n.id;
        instability = share (out_count edges n.id) total;
      }
        ∷ rest

  unfoldable pub top_coupled : List UcgNode → List UcgEdge → List TopCoupledNode
  unfolding couplings sort_by
  top_coupled nodes edges = take 10 (sort_by coupling_of (couplings edges (class_nodes nodes)))

  unfoldable pub top_complex : List UcgNode → List TopComplexFunction
  unfolding lines_of_code
  top_complex nodes =
      map
        (λ (n : UcgNode). record {
          node_id = n.id;
          qualified_name = n.qualified_name;
          cyclomatic_complexity = complexity n;
          lines_of_code = lines_of_code n;
        })
        (func_nodes nodes)

  -- `get_metrics`, and nothing for a job that is not there
  unfoldable pub get_metrics :
      Bool → ℕ → List UcgNode → List UcgEdge → List SmellRow → Option GraphMetrics
  unfolding top_coupled top_complex dead_code_count max_of
  get_metrics job_exists job_id nodes edges smells =
      let functions = top_complex nodes in
      if not job_exists
      then none
      else some (record {
        total_nodes = length nodes;
        total_edges = length edges;
        average_coupling =
            if ltb 0 (length nodes) then average (length edges) (length nodes) else 0;
        max_cyclomatic_complexity =
            max_of (map (λ (t : TopComplexFunction). t.cyclomatic_complexity) functions);
        circular_dependency_count =
            count_if
              (λ (s : SmellRow).
                (s.job_id == job_id)
                && str_eq s.smell_type "circular_dependency"
                && not s.dismissed)
              smells;
        dead_code_node_count = dead_code_count nodes edges;
        top_coupled_nodes = top_coupled nodes edges;
        top_complex_functions = functions;
      })
