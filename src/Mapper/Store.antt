-- ===== src/Mapper/Store.antt =====
-- The second half of the mapper: the parsed nodes and edges become rows, in chunks of 500, and the
-- counters go to the job. New edge identifiers and the times of creation are left out.
use ai_project.Prelude.{
  or_else, ℕ, ◌+◌, String, Bool, not, Option, some, List, [], ◌∷◌, ◌==◌, keep, map, length, max,
  if◌then◌else◌, upper, concat,
}
use ai_project.Inserts.{add_chunks}
use ai_project.Mapper.{
  UcgNodeRaw, UcgEdgeRaw, UcgOutput, Item, Adapter, Parsing, bump, chunks, insert_chunk,
  walk_source_files, group, parse_languages,
}

pub record NodeRow : Type 0 where
  pub job_id : ℕ
  pub raw : UcgNodeRaw

pub record EdgeRow : Type 0 where
  pub job_id : ℕ
  pub raw : UcgEdgeRaw

pub record UcgStats : Type 0 where
  pub node_count : ℕ
  pub edge_count : ℕ
  pub nodes_by_type : List (String × ℕ)
  pub edges_by_type : List (String × ℕ)

abbrev pub no_stats : UcgStats
no_stats = record { node_count = 0; edge_count = 0; nodes_by_type = []; edges_by_type = [] }

-- the row of a node; `str` writes an identifier
unfoldable pub node_row : (ℕ → String) → ℕ → UcgNodeRaw → NodeRow
node_row str job_id n = record {
  job_id = job_id;
  raw = record n {
    node_type = upper n.node_type;
    qualified_name = or_else n.qualified_name (or_else n.file_path (str n.id));
  };
}

unfoldable pub edge_row : ℕ → UcgEdgeRaw → EdgeRow
edge_row job_id e = record {
  job_id = job_id;
  raw = record e { edge_type = upper e.edge_type; weight = max e.weight 1 };
}

abbrev pub is_self_loop : UcgEdgeRaw → Bool
is_self_loop e = e.source_node_id == e.target_node_id

-- the counting by type in the loop over a chunk
unfoldable pub count_types : List String → List (String × ℕ) → List (String × ℕ)
unfolding bump
count_types [] counts = counts
count_types (t ∷ types) counts = count_types types (bump (upper t) counts)

-- `_bulk_insert_nodes`
unfoldable pub bulk_insert_nodes :
    (ℕ → String)
    → (List NodeRow → List NodeRow → Bool)
    → ℕ
    → List UcgNodeRaw
    → UcgStats
    → List NodeRow
    → UcgStats × List NodeRow
unfolding count_types chunks
bulk_insert_nodes str accepts job_id nodes stats table =
    let in_chunks = chunks insert_chunk nodes in
    let (count, after) = add_chunks accepts (map (map (node_row str job_id)) in_chunks) table in
    (
      record stats {
        node_count = stats.node_count + count;
        nodes_by_type = count_types (map (λ n. n.node_type) (concat in_chunks)) stats.nodes_by_type;
      },
      after,
    )

-- the edges of a chunk that become rows: a node's edge to itself is passed over
abbrev pub proper : List UcgEdgeRaw → List UcgEdgeRaw
proper edges = keep (λ e. not (is_self_loop e)) edges

-- `_bulk_insert_edges`
unfoldable pub bulk_insert_edges :
    (List EdgeRow → List EdgeRow → Bool)
    → ℕ
    → List UcgEdgeRaw
    → UcgStats
    → List EdgeRow
    → UcgStats × List EdgeRow
unfolding count_types chunks
bulk_insert_edges accepts job_id edges stats table =
    let in_chunks = map proper (chunks insert_chunk edges) in
    let (count, after) = add_chunks accepts (map (map (edge_row job_id)) in_chunks) table in
    (
      record stats {
        edge_count = stats.edge_count + count;
        edges_by_type = count_types (map (λ e. e.edge_type) (concat in_chunks)) stats.edges_by_type;
      },
      after,
    )

pub record Db : Type 0 where
  pub nodes : List NodeRow
  pub edges : List EdgeRow
  pub ucg_counts : Option (ℕ × ℕ)

-- What the mapper is given: the job and its languages, what the walk over the repository yields,
-- and the answers of the adapters and of the database. Whether an edge row is accepted may depend
-- on the node rows that its ends refer to.
pub record Context : Type 0 where
  pub job_id : ℕ
  pub languages : List String
  pub repo_path : String
  pub root : List String
  pub items : List Item
  pub creates : Adapter → Bool
  pub parse_files : Adapter → List Item → Parsing
  pub str : ℕ → String
  pub accepts_nodes : List NodeRow → List NodeRow → Bool
  pub accepts_edges : List NodeRow → List EdgeRow → List EdgeRow → Bool
  pub accepts_counts : Bool

abbrev pub no_output : UcgOutput
no_output = record { nodes = []; edges = []; parse_errors = [] }

-- The output of the adapters for a context.
unfoldable pub parse_all : Context → UcgOutput
unfolding walk_source_files group parse_languages
parse_all c =
    let files = walk_source_files c.root c.items in
    let by_lang = group files (map (λ l. (l, [])) c.languages) in
    parse_languages c.parse_files c.repo_path c.creates by_lang c.languages no_output

-- the end of `run`: the insertions and `_update_job_stats`
unfoldable pub store : Context → UcgOutput → Db → UcgStats × ℕ × Db
unfolding bulk_insert_nodes bulk_insert_edges
store c output db =
    let (with_nodes, nodes) =
      bulk_insert_nodes c.str c.accepts_nodes c.job_id output.nodes no_stats db.nodes in
    let (stats, edges) =
      bulk_insert_edges (c.accepts_edges nodes) c.job_id output.edges with_nodes db.edges in
    (
      stats,
      length output.parse_errors,
      record {
        nodes = nodes;
        edges = edges;
        ucg_counts =
            if c.accepts_counts then some (stats.node_count, stats.edge_count) else db.ucg_counts;
      },
    )

-- `run`: the statistics, the number of parse errors, and the database afterwards
unfoldable pub run : Context → Db → UcgStats × ℕ × Db
unfolding parse_all store
run c db = elim c.languages [ [] ↦ (no_stats, 0, db) | l ∷ ls ↦ store c (parse_all c) db ]
