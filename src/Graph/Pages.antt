-- ===== src/Graph/Pages.antt =====
-- A client that walks through the pages of `list_nodes` or `list_edges` (backend/app/api/v1/graph.py).
use ai_project.Prelude.{
  ℕ, zero, suc, ◌≡◌, refl, sym, ap, subst, ◌∙◌, String, Bool, true, List, [], ◌++◌, count_if, elem,
  keep, length, length-keep, max, arith,
}
use ai_project.Pagination.{
  QueryInt, pos, at_least_one, clamp_size, PaginationMeta, total_pages_of, meta_of,
}
use ai_project.Pagination.Cover.{first_pages, first_pages-cover, clamp_size_bounds}
use ai_project.Pagination.Ordered.{IsSorted, IsUntied, sorted_unique, length-Perm}
use ai_project.Graph.Listings.{
  ListedNode, ListedEdge, Listing, job_missing, node_missing, listing, NodeFilters, EdgeFilters,
  passes_edge, passes_node, page_where, list_edges, list_nodes,
}

-- The rows of an answer.
abbrev pub rows_in {ℓ} : {A : Type ℓ} → Listing (List A × PaginationMeta) → List A
rows_in job_missing = []
rows_in node_missing = []
rows_in (listing r) = r.0

-- The rows of the answers to the pages 1, …, k, in this order.
abbrev pub browse {ℓ} : {A : Type ℓ} → (QueryInt → Listing (List A × PaginationMeta)) → ℕ → List A
browse ask zero = []
browse ask (suc k) = browse ask k ++ rows_in (ask (pos (suc k)))

module _ {ℓ} {A : Type ℓ} (passes : A → Bool) (rank : A → ℕ) (order : QueryInt → List A → List A)
    (page_size : QueryInt) (rows : List A) (untied : IsUntied rank (keep passes rows))
    (sorts : (page : QueryInt)
      → IsSorted rank (keep passes rows) (order page (keep passes rows))) where
  -- All queries sort the rows in the same way.
  same_order : (page : QueryInt) → order page (keep passes rows) ≡ order (pos 1) (keep passes rows)
  same_order page =
      let selected = keep passes rows in
      sorted_unique rank selected (order page selected) (order (pos 1) selected) untied (sorts page)
        (sorts (pos 1))

  browse-first_pages :
      (k : ℕ)
      → browse (λ page. listing (page_where passes (order page) page page_size rows)) k
        ≡ first_pages k (clamp_size 500 page_size) (order (pos 1) (keep passes rows))
  unfolding page_where at_least_one
  browse-first_pages zero = refl
  browse-first_pages (suc k) =
      let e : max 1 (suc k) ≡ suc k = omega arith in
      rw (e, browse-first_pages k, same_order (pos (suc k))) refl

  pages-cover :
      let (first, envelope) = page_where passes (order (pos 1)) (pos 1) page_size rows in
      IsSorted rank (keep passes rows) (
        browse
          (λ page. listing (page_where passes (order page) page page_size rows))
          envelope.total_pages)
      × (envelope.total_items ≡ count_if passes rows)
  unfolding page_where meta_of
  pages-cover =
      let size = clamp_size 500 page_size in
      let selected = keep passes rows in
      let sorted = order (pos 1) selected in
      let all = first_pages-cover size sorted (clamp_size_bounds 500 page_size (omega arith)).0 in
      let n = length-Perm (sorts (pos 1)).0 in
      let whole =
        browse-first_pages (total_pages_of (length selected) size)
        ∙ ap (λ i. first_pages (total_pages_of i size) size sorted) (sym n)
        ∙ all in
      (subst (IsSorted rank selected) (sym whole) (sorts (pos 1)), length-keep passes rows)

-- For a job that is there, whatever page size and filters a client sends, as long as no two of the rows that
-- pass the filters have the same sort key: the answers to the pages from 1 to the number of pages that the
-- first one reports, put one after the other, are the edges that pass the filters, each once and in the
-- order of their keys, and likewise the nodes. The reported number of items is theirs. Each page is a
-- query of its own, of which only that it sorts by the keys is assumed.
pub listings-cover :
    (like ilike : String → String → Bool) (jobs : List ℕ) (job_id : ℕ) (f : EdgeFilters)
    (g : NodeFilters) (page_size : QueryInt) (edges : List ListedEdge) (nodes : List ListedNode)
    (created_at : ListedEdge → ℕ) (qualified_name : ListedNode → ℕ)
    (order_edges : QueryInt → List ListedEdge → List ListedEdge)
    (order_nodes : QueryInt → List ListedNode → List ListedNode)
    (first_edges : List ListedEdge × PaginationMeta)
    (first_nodes : List ListedNode × PaginationMeta)
    → elem job_id jobs ≡ true
    → IsUntied created_at (keep (passes_edge job_id f) edges)
    → IsUntied qualified_name (keep (passes_node like ilike job_id g) nodes)
    → ((page : QueryInt)
        → IsSorted created_at
            (keep (passes_edge job_id f) edges)
            (order_edges page (keep (passes_edge job_id f) edges)))
    → ((page : QueryInt)
        → IsSorted qualified_name
            (keep (passes_node like ilike job_id g) nodes)
            (order_nodes page (keep (passes_node like ilike job_id g) nodes)))
    → list_edges jobs job_id f (order_edges (pos 1)) (pos 1) page_size edges ≡ listing first_edges
    → list_nodes like ilike jobs job_id g (order_nodes (pos 1)) (pos 1) page_size nodes
      ≡ listing first_nodes
    → (IsSorted created_at (keep (passes_edge job_id f) edges) (
          browse
            (λ page. list_edges jobs job_id f (order_edges page) page page_size edges)
            first_edges.1.total_pages)
        × (first_edges.1.total_items ≡ count_if (passes_edge job_id f) edges))
      × (IsSorted qualified_name (keep (passes_node like ilike job_id g) nodes) (
            browse
              (λ page. list_nodes like ilike jobs job_id g (order_nodes page) page page_size nodes)
              first_nodes.1.total_pages)
          × (first_nodes.1.total_items ≡ count_if (passes_node like ilike job_id g) nodes))
unfolding list_edges list_nodes
listings-cover like ilike jobs job_id f g page_size edges nodes created_at qualified_name
      order_edges order_nodes first_edges first_nodes here untied_edges untied_nodes sorts_edges
      sorts_nodes e n =
    let p = passes_edge job_id f in
    let q = passes_node like ilike job_id g in
    let fe : page_where p (order_edges (pos 1)) (pos 1) page_size edges ≡ first_edges =
      cc (rw (list_edges, here) at e) in
    let fn : page_where q (order_nodes (pos 1)) (pos 1) page_size nodes ≡ first_nodes =
      cc (rw (list_nodes, here) at n) in
    let (a, b) = pages-cover p created_at order_edges page_size edges untied_edges sorts_edges in
    let (c, d) =
      pages-cover q qualified_name order_nodes page_size nodes untied_nodes sorts_nodes in
    rw (here, sym fe, sym fn) ((a, b), (c, d))
