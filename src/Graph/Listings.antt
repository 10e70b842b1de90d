-- ===== src/Graph/Listings.antt =====
-- The endpoints of backend/app/api/v1/graph.py that list: `get_graph`, `list_nodes`, `get_node` and
-- `list_edges`, over the nodes and edges of all jobs. `order` is the sorting by the query at hand, by
-- `created_at` or, in `list_nodes`, by `qualified_name`: neither is unique, and each page is a query. `like` and
-- `ilike` are the database's. A node carries its language besides; the cache is left out.
use ai_project.Prelude.{
  ℕ, ◌&&◌, ◌||◌, ◌==◌, String, Bool, true, false, Option, none, some, List, [], ◌∷◌, elem, find_row,
  join_text, keep, length, lower, map, str_eq, take, upper, if◌then◌else◌,
}
use ai_project.Smells.{UcgNode, UcgEdge}
use ai_project.Pagination.{QueryInt, at_least_one, clamp_size, PaginationMeta, meta_of, page_rows}

pub record ListedNode : Type 0 where
  pub job_id : ℕ
  pub language : String
  pub node : UcgNode

pub record ListedEdge : Type 0 where
  pub job_id : ℕ
  pub edge : UcgEdge

pub data Listing {ℓ} (A : Type ℓ) : Type ℓ where
  job_missing node_missing : Listing A
  listing : A → Listing A

pub record NodeFilters : Type 0 where
  pub node_type : Option String
  pub language : Option String
  pub file_path : Option String
  pub search : Option String

pub record EdgeFilters : Type 0 where
  pub edge_type : Option String
  pub source_node_id : Option ℕ
  pub target_node_id : Option ℕ

-- `if text: query = query.where(…)`
abbrev pub where_text : Option String → (String → Bool) → Bool
where_text none test = true
where_text (some text) test = if str_eq text "" then true else test text

abbrev pub where_id : Option ℕ → ℕ → Bool
where_id none i = true
where_id (some j) i = i == j

-- the condition of `list_edges`
unfoldable pub passes_edge : ℕ → EdgeFilters → ListedEdge → Bool
unfolding upper
passes_edge job_id f e =
    (e.job_id == job_id)
    && where_text f.edge_type (λ t. str_eq e.edge.edge_type (upper t))
    && where_id f.source_node_id e.edge.source_node_id
    && where_id f.target_node_id e.edge.target_node_id

-- a page of the rows that pass a condition, in the order in which this query sorts them, with its envelope
unfoldable pub page_where {ℓ} :
    {A : Type ℓ}
    → (A → Bool)
    → (List A → List A)
    → QueryInt
    → QueryInt
    → List A
    → List A × PaginationMeta
unfolding at_least_one clamp_size page_rows meta_of
page_where passes order page page_size rows =
    let p = at_least_one page in
    let size = clamp_size 500 page_size in
    let selected = keep passes rows in
    (page_rows p size (order selected), meta_of p size (length selected))

-- `list_edges`
unfoldable pub list_edges :
    List ℕ
    → ℕ
    → EdgeFilters
    → (List ListedEdge → List ListedEdge)
    → QueryInt
    → QueryInt
    → List ListedEdge
    → Listing (List ListedEdge × PaginationMeta)
unfolding passes_edge page_where
list_edges jobs job_id f order page page_size edges =
    if elem job_id jobs
    then listing (page_where (passes_edge job_id f) order page page_size edges)
    else job_missing

-- `get_graph`: the edges that have an end on the page
unfoldable pub get_graph :
    List ℕ
    → ℕ
    → (List ListedNode → List ListedNode)
    → QueryInt
    → QueryInt
    → Bool
    → List ListedNode
    → List ListedEdge
    → Listing (List ListedNode × List ListedEdge × PaginationMeta)
unfolding page_where
get_graph jobs job_id order page page_size include_edges nodes edges =
    let (shown, envelope) =
      page_where (λ (n : ListedNode). n.job_id == job_id) order page page_size nodes in
    let node_ids = map (λ (n : ListedNode). n.node.id) shown in
    let joined =
      if include_edges
      then keep
          (λ (e : ListedEdge).
            (e.job_id == job_id)
            && (elem e.edge.source_node_id node_ids || elem e.edge.target_node_id node_ids))
          edges
      else [] in
    if elem job_id jobs then listing (shown, joined, envelope) else job_missing

-- the rows of an edge and the node at its other end, at most 200
unfoldable pub join_node :
    (ListedEdge → ℕ) → List ListedNode → List ListedEdge → List (ListedEdge × UcgNode)
join_node end nodes [] = []
join_node end nodes (e ∷ edges) =
    let rest = join_node end nodes edges in
    elim (find_row (λ (n : ListedNode). n.node.id) (end e) nodes) [
      | none ↦ rest
      | some n ↦ (e, n.node) ∷ rest
    ]

-- `get_node`: the node, its incoming and its outgoing edges; the depth is not used
unfoldable pub get_node :
    ℕ
    → ℕ
    → QueryInt
    → List ListedNode
    → List ListedEdge
    → Listing (UcgNode × List (ListedEdge × UcgNode) × List (ListedEdge × UcgNode))
unfolding join_node
get_node job_id node_id depth nodes edges =
    elim (find_row (λ (n : ListedNode). n.node.id) node_id nodes) [
      | none ↦ node_missing
      | some n ↦
          if n.job_id == job_id
          then listing (
            n.node,
            take 200 (
                join_node (λ (e : ListedEdge). e.edge.source_node_id) nodes
                  (keep
                    (λ (e : ListedEdge). (e.edge.target_node_id == node_id) && (e.job_id == job_id))
                    edges)),
            take 200 (
                join_node (λ (e : ListedEdge). e.edge.target_node_id) nodes
                  (keep
                    (λ (e : ListedEdge). (e.edge.source_node_id == node_id) && (e.job_id == job_id))
                    edges)),
          )
          else node_missing
    ]

module _ (like ilike : String → String → Bool) where
  -- the condition of `list_nodes`; the patterns put `%` behind the path and around the search text
  unfoldable pub passes_node : ℕ → NodeFilters → ListedNode → Bool
  unfolding upper lower
  passes_node job_id f n =
      (n.job_id == job_id)
      && where_text f.node_type (λ t. str_eq n.node.node_type (upper t))
      && where_text f.language (λ t. str_eq n.language (lower t))
      && where_text f.file_path
          (λ t. elim n.node.file_path [ none ↦ false | some p ↦ like p (join_text t "%") ])
      && where_text f.search (λ t. ilike n.node.qualified_name (join_text "%" (join_text t "%")))

  -- `list_nodes`
  unfoldable pub list_nodes :
      List ℕ
      → ℕ
      → NodeFilters
      → (List ListedNode → List ListedNode)
      → QueryInt
      → QueryInt
      → List ListedNode
      → Listing (List ListedNode × PaginationMeta)
  unfolding passes_node page_where
  list_nodes jobs job_id f order page page_size nodes =
      if elem job_id jobs
      then listing (page_where (passes_node job_id f) order page page_size nodes)
      else job_missing
