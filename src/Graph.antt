-- ===== src/Graph.antt =====
-- The endpoints of backend/app/api/v1/graph.py over the Universal Code Graph of one job; here `get_subgraph`,
-- the breadth-first search around seed nodes. Sets and deques of nodes are lists.
pub mod Reach
pub mod Search
pub mod Depth
pub mod Metrics
pub mod Coupled
pub mod Listings
pub mod Pages
mod Examples
use ai_project.Prelude.{
  ℕ, zero, suc, String, Bool, true, false, not, ◌||◌, ◌&&◌, Option, none, some, List, [], ◌∷◌, ◌++◌,
  ◌==◌, str_eq, one_of, upper, elem, keep, any, map, length, if◌then◌else◌,
}
use ai_project.Smells.{UcgNode, UcgEdge}

pub record SubgraphRequest : Type 0 where
  pub seed_node_ids : List ℕ
  pub depth : ℕ
  pub edge_types : List String
  pub direction : String

pub record Traversal : Type 0 where
  pub visited_node_ids : List ℕ
  pub frontier : List ℕ
  pub collected_edges : List UcgEdge
  pub collected_nodes : List UcgNode

pub data Answer : Type 0 where
  job_not_found nodes_not_found : Answer
  subgraph : Traversal → Answer

-- `if body.edge_types: …`
unfoldable pub of_types : List String → UcgEdge → Bool
of_types [] e = true
of_types (t ∷ ts) e = one_of e.edge_type (map upper (t ∷ ts))

-- the condition of the direction
unfoldable pub touches : String → List ℕ → UcgEdge → Bool
touches direction current_ids e =
    if str_eq direction "outbound"
    then elem e.source_node_id current_ids
    else if str_eq direction "inbound"
    then elem e.target_node_id current_ids
    else elem e.source_node_id current_ids || elem e.target_node_id current_ids

-- `edge_query`
unfoldable pub selects : SubgraphRequest → List ℕ → UcgEdge → Bool
unfolding of_types touches
selects body current_ids e = of_types body.edge_types e && touches body.direction current_ids e

unfoldable pub add_neighbor : ℕ → Traversal → Traversal
add_neighbor n s =
    if elem n s.visited_node_ids
    then s
    else record s { visited_node_ids = n ∷ s.visited_node_ids; frontier = s.frontier ++ n ∷ [] }

-- `collected_edges[edge.id] = edge`
unfoldable pub collect_edge : UcgEdge → Traversal → Traversal
collect_edge e s =
    if any (λ (d : UcgEdge). d.id == e.id) s.collected_edges
    then s
    else record s { collected_edges = s.collected_edges ++ e ∷ [] }

-- the loop over the new edges
unfoldable pub add_edges : List UcgEdge → Traversal → Traversal
unfolding add_neighbor collect_edge
add_edges [] s = s
add_edges (e ∷ es) s =
    add_edges es (add_neighbor e.target_node_id (add_neighbor e.source_node_id (collect_edge e s)))

module _ (body : SubgraphRequest) (nodes : List UcgNode) (edges : List UcgEdge) where
  -- one pass of the loop over the depth
  unfoldable pub round : Traversal → Traversal
  unfolding selects add_edges
  round s =
      let s' = add_edges (keep (selects body s.frontier) edges) (record s { frontier = [] }) in
      record s' {
        collected_nodes = s'.collected_nodes ++ keep (λ (n : UcgNode). elem n.id s'.frontier) nodes;
      }

  unfoldable pub traverse : ℕ → Traversal → Traversal
  unfolding round
  traverse zero s = s
  traverse (suc depth) s =
      let rest = traverse depth (round s) in if length s.frontier == 0 then s else rest

  -- the rows that the request names
  unfoldable pub seed_nodes : List UcgNode
  seed_nodes = keep (λ (n : UcgNode). elem n.id body.seed_node_ids) nodes

  unfoldable pub start : Traversal
  unfolding seed_nodes
  start = record {
    visited_node_ids = map (λ (n : UcgNode). n.id) seed_nodes;
    frontier = map (λ (n : UcgNode). n.id) seed_nodes;
    collected_edges = [];
    collected_nodes = seed_nodes;
  }

  -- `get_subgraph`, with the nodes and edges of the job
  unfoldable pub get_subgraph : Bool → Answer
  unfolding traverse start
  get_subgraph job_exists =
      if job_exists
      then (if length seed_nodes == 0
          then nodes_not_found
          else subgraph (traverse body.depth start))
      else job_not_found
