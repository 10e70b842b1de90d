-- ===== src/Graph/Examples.antt =====
-- A chain of three nodes, and the subgraph within one hop of its first.
use mathlib.Core.List.Permᴰ
use ai_project.Prelude.{
  min, Bool, drop, take, arith, ◌==◌, if◌then◌else◌, ◌*◌, str_eq, false, ◌/◌, ◌++◌, not, ◌&&◌, some,
  count_if, keep, length, map, lower, ℕ, ◌≡◌, ◌↔◌, refl, true, none, List, [], ◌∷◌, elem, upper,
}
use ai_project.Smells.{UcgNode, UcgEdge}
use ai_project.Graph.{
  SubgraphRequest, Traversal, of_types, touches, selects, add_neighbor, collect_edge, add_edges,
  round, traverse, seed_nodes, start, get_subgraph,
}
use ai_project.Pagination.{
  QueryInt, pos, PaginationMeta, at_least_one, clamp_size, page_rows, meta_of, total_pages_of,
}
use ai_project.Graph.Metrics.{
  TopCoupledNode, GraphMetrics, class_nodes, coupling_of, insert_by, sort_by, dead_code_count,
  couplings, top_coupled, top_complex, span, max_of, get_metrics,
}
use ai_project.Graph.Coupled.{
  IsDescending, entry, is_coupled, is_leaf, is_called, get_metrics-IsTop,
}
use ai_project.Graph.Listings.{
  ListedNode, ListedEdge, NodeFilters, EdgeFilters, passes_edge, passes_node, page_where,
  list_edges, list_nodes,
}
use ai_project.Pagination.Ordered.{IsSorted, IsUntied}
use ai_project.Graph.Pages.{browse, listings-cover}
use ai_project.Graph.Depth.{Within, get_subgraph_iff}

abbrev node : ℕ → UcgNode
node i = record {
  id = i;
  node_type = "MODULE";
  qualified_name = "m";
  file_path = none;
  line_start = none;
  line_end = none;
  visibility = none;
  properties_json = "{}";
}

abbrev imports : ℕ → ℕ → UcgEdge
imports a b = record { id = a; edge_type = "IMPORTS"; source_node_id = a; target_node_id = b }

abbrev nodes : List UcgNode
nodes = node 1 ∷ node 2 ∷ node 3 ∷ []

abbrev edges : List UcgEdge
edges = imports 1 2 ∷ imports 2 3 ∷ []

abbrev request : SubgraphRequest
request = record {
  seed_node_ids = 1 ∷ 9 ∷ [];
  depth = 1;
  edge_types = "imports" ∷ [];
  direction = "outbound";
}

abbrev found : Traversal
found = record {
  visited_node_ids = 2 ∷ 1 ∷ [];
  frontier = 2 ∷ [];
  collected_edges = imports 1 2 ∷ [];
  collected_nodes = node 1 ∷ node 2 ∷ [];
}

get_subgraph_iff_example :
    (elem 3 found.visited_node_ids ≡ true) ↔ Within request nodes edges request.depth 3
unfolding get_subgraph seed_nodes start traverse round add_edges collect_edge add_neighbor selects
    touches of_types upper
get_subgraph_iff_example = get_subgraph_iff request nodes edges found refl 3

-- The metrics of three modules, of which the second uses the third.
abbrev uses : List UcgEdge
uses = record { id = 5; edge_type = "DEPENDS_ON"; source_node_id = 2; target_node_id = 3 } ∷ []

abbrev hundredths : ℕ → ℕ → ℕ
hundredths a b = a * 100 / b

abbrev measured : GraphMetrics
measured = record {
  total_nodes = 3;
  total_edges = 1;
  average_coupling = 33;
  max_cyclomatic_complexity = 0;
  circular_dependency_count = 0;
  dead_code_node_count = 0;
  top_coupled_nodes =
      record {
        node_id = 2;
        qualified_name = "m";
        afferent_coupling = 0;
        efferent_coupling = 1;
        instability = 100;
      }
      ∷ record {
        node_id = 3;
        qualified_name = "m";
        afferent_coupling = 1;
        efferent_coupling = 0;
        instability = 0;
      }
      ∷ [];
  top_complex_functions = [];
}

get_metrics-IsTop_example :
    (let entries =
        map
          (entry hundredths hundredths (λ n. 1) uses)
          (keep (is_coupled hundredths hundredths (λ n. 1) uses) (class_nodes nodes)) in
      (rest : List TopCoupledNode) × IsDescending coupling_of (measured.top_coupled_nodes ++ rest)
      × ((p : TopCoupledNode → Bool)
          → count_if p (measured.top_coupled_nodes ++ rest) ≡ count_if p entries)
      × (length measured.top_coupled_nodes ≡ min 10 (length entries)))
    × (measured.dead_code_node_count
        ≡ count_if (λ (n : UcgNode). is_leaf n && not (is_called uses n)) nodes)
unfolding get_metrics top_coupled couplings sort_by insert_by dead_code_count top_complex max_of
    span
get_metrics-IsTop_example =
    get_metrics-IsTop hundredths hundredths (λ n. 1) 7 nodes uses [] measured refl

-- The edges and nodes of two jobs, listed in pages of one.
abbrev listed_edges : List ListedEdge
listed_edges =
    record { job_id = 7; edge = imports 1 2 }
    ∷ record { job_id = 8; edge = imports 1 2 }
    ∷ record { job_id = 7; edge = imports 2 3 }
    ∷ []

abbrev listed_nodes : List ListedNode
listed_nodes = map (λ (n : UcgNode). record { job_id = 7; language = "php"; node = n }) nodes

abbrev by_type : EdgeFilters
by_type = record { edge_type = some "imports"; source_node_id = none; target_node_id = none }

abbrev by_language : NodeFilters
by_language = record { node_type = none; language = some "PHP"; file_path = none; search = none }

abbrev envelope : ℕ → PaginationMeta
envelope n = record {
  page = 1;
  page_size = 1;
  total_items = n;
  total_pages = n;
  has_next = true;
  has_prev = false;
}

abbrev source_of : ListedEdge → ℕ
source_of e = e.edge.source_node_id

abbrev id_of : ListedNode → ℕ
id_of n = n.node.id

-- The rows are stored in the order of their keys.
abbrev as_stored {ℓ} : {A : Type ℓ} → QueryInt → List A → List A
as_stored page rows = rows

edges-IsUntied : IsUntied source_of (keep (passes_edge 7 by_type) listed_edges)
unfolding passes_edge upper
edges-IsUntied n = ground arith

nodes-IsUntied : IsUntied id_of (keep (passes_node str_eq str_eq 7 by_language) listed_nodes)
unfolding passes_node lower
nodes-IsUntied n = ground arith

listings-cover_example :
    (IsSorted source_of (keep (passes_edge 7 by_type) listed_edges) (
        browse (λ page. list_edges (7 ∷ []) 7 by_type (as_stored page) page (pos 1) listed_edges) 2)
      × (2 ≡ count_if (passes_edge 7 by_type) listed_edges))
    × (IsSorted id_of (keep (passes_node str_eq str_eq 7 by_language) listed_nodes) (
          browse
            (λ page.
              list_nodes str_eq str_eq
                (7 ∷ [])
                7
                by_language
                (as_stored page)
                page
                (pos 1)
                listed_nodes)
            3)
        × (3 ≡ count_if (passes_node str_eq str_eq 7 by_language) listed_nodes))
unfolding list_edges list_nodes page_where passes_edge passes_node at_least_one clamp_size page_rows
    meta_of total_pages_of upper lower
listings-cover_example =
    listings-cover str_eq str_eq (7 ∷ []) 7 by_type by_language (pos 1) listed_edges listed_nodes
      source_of id_of as_stored as_stored
      (record { job_id = 7; edge = imports 1 2 } ∷ [], envelope 2)
      (record { job_id = 7; language = "php"; node = node 1 } ∷ [], envelope 3) refl edges-IsUntied
      nodes-IsUntied (λ page. (Permᴰ.refl _, ((omega arith, tt), (tt, tt))))
      (λ page. (Permᴰ.refl _, ((omega arith, (omega arith, tt)), ((omega arith, tt), (tt, tt)))))
      refl refl

-- Where the two edges have the same key, the second query may sort them the other way round: then the first
-- edge is on both pages, and the other on none.
abbrev turned : QueryInt → List ListedEdge → List ListedEdge
turned page rows = if at_least_one page == 2 then drop 1 rows ++ take 1 rows else rows

tied_rows_shown_twice :
    browse (λ page. list_edges (7 ∷ []) 7 by_type (turned page) page (pos 1) listed_edges) 2
    ≡ record { job_id = 7; edge = imports 1 2 } ∷ record { job_id = 7; edge = imports 1 2 } ∷ []
unfolding list_edges page_where passes_edge at_least_one clamp_size page_rows meta_of upper
tied_rows_shown_twice = refl
