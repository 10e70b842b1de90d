-- ===== src/Smells/Cycles.antt =====
-- `_detect_cyclic_dependencies` of backend/app/agents/smell_detector.py: the depth-first search for
-- cycles among modules and files. A set is a list; `order` is the order in which Python traverses
-- one. The recursion is on the number of calls of `dfs` that may be open at once under the limit
-- of the interpreter, and `none` stands for a RecursionError.
pub mod Walks
pub mod Search
pub mod Frames
pub mod Reported
use ai_project.Prelude.{
  ℕ, zero, suc, Bool, true, false, not, Option, none, some, List, [], ◌∷◌, ◌++◌, ◌==◌, ◌&&◌, one_of,
  upper, elem, keep, any, all, map, length, leb, if◌then◌else◌,
}
use ai_project.Smells.{UcgNode, UcgEdge, SmellResult, no_evidence}

-- The variables that `dfs` shares: the keys and the node lists of the reported cycles among them.
pub record Dfs : Type 0 where
  pub visited : List ℕ
  pub rec_stack : List ℕ
  pub path : List ℕ
  pub cycles_found : List (List ℕ)
  pub results : List (List ℕ)

abbrev pub start : Dfs
start = record { visited = []; rec_stack = []; path = []; cycles_found = []; results = [] }

-- `path[path.index(n):]`
unfoldable pub from_first : ℕ → List ℕ → List ℕ
from_first n [] = []
from_first n (x ∷ xs) = let later = from_first n xs in if n == x then x ∷ xs else later

-- equality of `frozenset`s
abbrev pub same_set : List ℕ → List ℕ → Bool
same_set xs ys = all (λ x. elem x ys) xs && all (λ y. elem y xs) ys

-- `path.pop()`
unfoldable pub pop : List ℕ → List ℕ
pop [] = []
pop (x ∷ []) = []
pop (x ∷ y ∷ xs) = x ∷ pop (y ∷ xs)

-- the branch of a neighbour that is on the stack
unfoldable pub report : ℕ → Dfs → Dfs
unfolding from_first
report n s =
    let cycle_nodes = from_first n s.path in
    if not (any (same_set cycle_nodes) s.cycles_found) && leb 2 (length cycle_nodes)
    then record s {
      cycles_found = cycle_nodes ∷ s.cycles_found;
      results = s.results ++ cycle_nodes ∷ [];
    }
    else s

unfoldable pub enter : ℕ → Dfs → Dfs
enter n s = record s {
  visited = n ∷ s.visited;
  rec_stack = n ∷ s.rec_stack;
  path = s.path ++ n ∷ [];
}

unfoldable pub leave : ℕ → Dfs → Dfs
unfolding pop
leave n s = record s { rec_stack = keep (λ x. not (x == n)) s.rec_stack; path = pop s.path }

-- one neighbour
unfoldable pub visit : (ℕ → Dfs → Option Dfs) → ℕ → Dfs → Option Dfs
unfolding report
visit go n s =
    if elem n s.visited then (if elem n s.rec_stack then some (report n s) else some s) else go n s

-- the loop over the neighbours
unfoldable pub each : (ℕ → Dfs → Option Dfs) → List ℕ → Dfs → Option Dfs
unfolding visit
each go [] s = some s
each go (n ∷ ns) s = elim (visit go n s) [ none ↦ none | some s' ↦ each go ns s' ]

module _ (neighbors : ℕ → List ℕ) where
  unfoldable pub dfs : ℕ → ℕ → Dfs → Option Dfs
  unfolding enter leave each
  dfs zero node s = none
  dfs (suc frames) node s = elim (each (dfs frames) (neighbors node) (enter node s)) [
    | none ↦ none
    | some s' ↦ some (leave node s')
  ]

  -- the loop over the modules; every call of `dfs` there gets a new path
  unfoldable pub from_roots : ℕ → List ℕ → Dfs → Option Dfs
  unfolding dfs
  from_roots frames [] s = some s
  from_roots frames (n ∷ ns) s =
      if elem n s.visited
      then from_roots frames ns s
      else elim (dfs frames n (record s { path = [] })) [
        | none ↦ none
        | some s' ↦ from_roots frames ns s'
      ]

unfoldable pub module_nodes : List UcgNode → List ℕ
module_nodes nodes =
    map (λ (n : UcgNode). n.id)
      (keep (λ (n : UcgNode). one_of (upper n.node_type) ("MODULE" ∷ "FILE" ∷ [])) nodes)

-- the edges that fill `adj[source]`
unfoldable pub is_dependency : List UcgNode → ℕ → UcgEdge → Bool
unfolding module_nodes
is_dependency nodes source e =
    one_of (upper e.edge_type) ("DEPENDS_ON" ∷ "IMPORTS" ∷ [])
    && (e.source_node_id == source)
    && elem e.source_node_id (module_nodes nodes)
    && elem e.target_node_id (module_nodes nodes)

-- `adj.get(source, set())`
unfoldable pub adj : List UcgNode → List UcgEdge → ℕ → List ℕ
unfolding is_dependency
adj nodes edges source =
    map (λ (e : UcgEdge). e.target_node_id) (keep (is_dependency nodes source) edges)

-- the result that a cycle is reported as
abbrev pub circular : List ℕ → SmellResult
circular cycle_nodes = record {
  smell_type = "circular_dependency";
  severity = "critical";
  affected_node_ids = cycle_nodes;
  evidence = no_evidence;
  confidence = 95;
  llm_rationale = none;
}

-- `_detect_cyclic_dependencies`, with room for so many open calls of `dfs`
unfoldable pub detect_cyclic_dependencies :
    ℕ → (List ℕ → List ℕ) → List UcgNode → List UcgEdge → Option (List SmellResult)
unfolding from_roots adj module_nodes
detect_cyclic_dependencies frames order nodes edges =
    let modules = module_nodes nodes in
    elim (from_roots (λ n. order (adj nodes edges n)) frames (order modules) start) [
      | none ↦ none
      | some s ↦ some (map circular s.results)
    ]
