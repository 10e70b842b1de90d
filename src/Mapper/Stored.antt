-- ===== src/Mapper/Stored.antt =====
-- What the mapper stores, and what it reports of it.
use ai_project.Prelude.{
  ℕ, ◌+◌, ◌≡◌, ◌≢◌, refl, sym, ap, ◌∙◌, String, Bool, true, not, some, List, [], ◌∷◌, ◌++◌, keep,
  keep-append, map, if◌then◌else◌, concat, arith, subst, map-concat,
}
use ai_project.Inserts.{add_chunks}
use ai_project.Inserts.Refine.{Grows, add_chunks-Grows}
use ai_project.Mapper.{UcgEdgeRaw, chunks, UcgOutput, insert_chunk}
use ai_project.Mapper.Batches.{chunks-cover}
use ai_project.Mapper.Store.{
  NodeRow, EdgeRow, UcgStats, no_stats, node_row, edge_row, is_self_loop, proper, bulk_insert_nodes,
  bulk_insert_edges, Db, Context, parse_all, store, run,
}

keep-concat {ℓ} :
    {A : Type ℓ} (p : A → Bool) (xss : List (List A))
    → concat (map (keep p) xss) ≡ keep p (concat xss)
keep-concat p [] = refl
keep-concat p (xs ∷ xss) =
    ap (λ ys. keep p xs ++ ys) (keep-concat p xss) ∙ sym (keep-append p xs (concat xss))

-- Writing some elements as rows, chunk after chunk, and counting from 0.
chunked-Grows :
    {A R : Type 0} (sure : R → Bool) (accepts : List R → List R → Bool)
    → ((r : R) (table : List R) → sure r ≡ true → accepts table (r ∷ []) ≡ true)
    → (row : A → R) (chunked : List (List A)) (elements : List A) (table : List R)
    → concat chunked ≡ elements
    → let (count, after) = add_chunks accepts (map (map row) chunked) table in
      Grows sure (map row elements) table (0 + count, after)
chunked-Grows {R = R} sure accepts takes row chunked elements table e =
    let (count, after) = add_chunks accepts (map (map row) chunked) table in
    let rows : concat (map (map row) chunked) ≡ map row elements =
      map-concat row chunked ∙ ap (map row) e in
    let zero_first : 0 + count ≡ count = omega arith in
    subst (λ (n : ℕ). Grows sure (map row elements) table (n, after)) (sym zero_first)
      (subst (λ (rs : List R). Grows sure rs table (count, after)) rows
        (add_chunks-Grows sure accepts takes (map (map row) chunked) table))

pub concat-chunks : {A : Type 0} (xs : List A) → concat (chunks insert_chunk xs) ≡ xs
concat-chunks xs = (chunks-cover insert_chunk (omega arith) xs).0

pub concat-proper :
    (edges : List UcgEdgeRaw) → concat (map proper (chunks insert_chunk edges)) ≡ proper edges
concat-proper edges =
    keep-concat (λ e. not (is_self_loop e)) (chunks insert_chunk edges)
    ∙ ap proper (concat-chunks edges)

-- What holds of the empty statistics and of the insertions holds of a run.
pub run-cases :
    (c : Context) (db : Db) (P : List String → UcgStats × ℕ × Db → Type 0)
    → P [] (no_stats, 0, db)
    → ((l : String) (ls : List String) → P (l ∷ ls) (store c (parse_all c) db))
    → P c.languages (run c db)
unfolding run
run-cases c db P none_detected stored =
    elim c.languages
      as (λ (langs : List String). P langs (elim langs as (λ _. UcgStats × ℕ × Db) [
        | [] ↦ (no_stats, 0, db)
        | k ∷ ks ↦ store c (parse_all c) db
      ])) [ [] ↦ none_detected | l ∷ ls ↦ stored l ls ]

module _ (c : Context) (db : Db) (sure_node : NodeRow → Bool) (sure_edge : EdgeRow → Bool) where
  -- What a run has stored and reported, of some output of the adapters.
  abbrev pub Stores : UcgOutput → UcgStats × ℕ × Db → Type 0
  Stores output (stats, errors, after) =
      Grows sure_node (map (node_row c.str c.job_id) output.nodes) db.nodes
        (stats.node_count, after.nodes)
      × Grows sure_edge (map (edge_row c.job_id) (proper output.edges)) db.edges
          (stats.edge_count, after.edges)
      × (after.ucg_counts
          ≡ (if c.accepts_counts then some (stats.node_count, stats.edge_count) else db.ucg_counts))

module _ (c : Context) (db : Db) (sure_node : NodeRow → Bool)
    (takes_node : (r : NodeRow) (table : List NodeRow)
      → sure_node r ≡ true
      → c.accepts_nodes table (r ∷ []) ≡ true)
    (sure_edge : EdgeRow → Bool)
    (takes_edge : (r : EdgeRow) (nodes : List NodeRow) (table : List EdgeRow)
      → sure_edge r ≡ true
      → c.accepts_edges nodes table (r ∷ []) ≡ true) where
  pub store-Stores :
      (output : UcgOutput) → Stores c db sure_node sure_edge output (store c output db)
  unfolding store bulk_insert_nodes bulk_insert_edges
  store-Stores output =
      let nodes =
        (bulk_insert_nodes c.str c.accepts_nodes c.job_id output.nodes no_stats db.nodes).1 in
      (
        chunked-Grows sure_node c.accepts_nodes takes_node (node_row c.str c.job_id)
            (chunks insert_chunk output.nodes) output.nodes db.nodes (concat-chunks output.nodes),
        chunked-Grows sure_edge (c.accepts_edges nodes) (λ r. takes_edge r nodes)
            (edge_row c.job_id) (map proper (chunks insert_chunk output.edges))
            (proper output.edges) db.edges (concat-proper output.edges),
        refl,
      )

  -- For a job with a language, whatever statements the database refuses: the node table gains rows
  -- of the parsed nodes, in their order, among them every row that the database takes by itself, and
  -- the reported node count is the number of rows gained; the edge table does so with the parsed
  -- edges that do not lead from a node to itself. The job's columns hold the two counts, unless
  -- their own update is refused.
  pub run-Stores : c.languages ≢ [] → Stores c db sure_node sure_edge (parse_all c) (run c db)
  run-Stores =
      run-cases c db (λ langs r. langs ≢ [] → Stores c db sure_node sure_edge (parse_all c) r)
        (λ h. absurd (h refl)) (λ l ls h. store-Stores (parse_all c))
