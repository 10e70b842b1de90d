-- ===== src/Mapper/Examples.antt =====
-- A repository with two Python files, one of them under a skipped directory, and a database that
-- refuses the node with the number 2.
use ai_project.Prelude.{
  ℕ, ◌≡◌, ◌≢◌, refl, Bool, true, false, not, none, some, List, [], ◌∷◌, ◌==◌, arith, any, map, All,
  concat, lower,
}
use ai_project.Inserts.{add_each, add_rows, add_chunks}
use ai_project.Mapper.{
  UcgNodeRaw, UcgEdgeRaw, Item, Adapter, Parsing, parsed, walk_source_files, language_of,
  file_under, group, get, get_adapter, parse_batch, parse_batches, parse_language, parse_languages,
  chunks, chunks_from, but_last,
}
use ai_project.Mapper.Store.{
  NodeRow, Db, Context, node_row, edge_row, bulk_insert_nodes, bulk_insert_edges, store, run,
  parse_all,
}
use ai_project.Mapper.Files.{walk_source_files-root}
use ai_project.Mapper.Parsed.{files_of, yield_of, nodes_of, edges_of, parse_all-yields}
use ai_project.Mapper.Stored.{Stores, run-Stores}
use ai_project.Mapper.Tallies.{Proper, run-Proper}

abbrev five : List ℕ
five = 1 ∷ 2 ∷ 3 ∷ 4 ∷ 5 ∷ []

in_twos : chunks 2 five ≡ (1 ∷ 2 ∷ []) ∷ (3 ∷ 4 ∷ []) ∷ (5 ∷ []) ∷ []
unfolding chunks chunks_from
in_twos = refl

abbrev orders : Item
orders = record { is_file = true; relative = "shop" ∷ "Orders.PY" ∷ []; suffix = ".PY" }

abbrev vendored : Item
vendored = record { is_file = true; relative = "vendor" ∷ "lib.py" ∷ []; suffix = ".py" }

abbrev items : List Item
items = orders ∷ vendored ∷ record { is_file = false; relative = "shop" ∷ []; suffix = "" } ∷ []

walk : walk_source_files ("srv" ∷ []) items ≡ orders ∷ []
unfolding walk_source_files but_last
walk = refl

walk_source_files-root_example : walk_source_files ("home" ∷ "build" ∷ []) items ≡ []
walk_source_files-root_example = (walk_source_files-root ("home" ∷ "build" ∷ []) items).0 refl

abbrev node : ℕ → UcgNodeRaw
node n = record {
  id = n;
  node_type = "Class";
  qualified_name = "";
  language = "python";
  file_path = "shop/Orders.PY";
  line_start = some 1;
  line_end = none;
  col_start = none;
  col_end = none;
  properties = "{}";
}

abbrev edge : ℕ → ℕ → UcgEdgeRaw
edge s t = record {
  edge_type = "calls";
  source_node_id = s;
  target_node_id = t;
  properties = "{}";
  weight = 0;
}

abbrev answer : Adapter → List Item → Parsing
answer adapter batch = parsed record {
  nodes = node 1 ∷ node 2 ∷ node 3 ∷ [];
  edges = edge 1 3 ∷ edge 1 1 ∷ [];
  parse_errors = [];
}

abbrev context : Context
context = record {
  job_id = 7;
  languages = "python" ∷ "cobol" ∷ [];
  repo_path = "/srv";
  root = "srv" ∷ [];
  items = items;
  creates = λ a. true;
  parse_files = answer;
  str = λ n. "uuid";
  accepts_nodes = λ table rows. not (any (λ (r : NodeRow). r.raw.id == 2) rows);
  accepts_edges = λ nodes table rows. true;
  accepts_counts = true;
}

abbrev db : Db
db = record { nodes = []; edges = []; ucg_counts = none }

abbrev sure_node : NodeRow → Bool
sure_node r = not (r.raw.id == 2)

stored_two : (run context db).2.ucg_counts ≡ some (2, 1)
unfolding run store bulk_insert_nodes bulk_insert_edges parse_all parse_languages parse_language
    parse_batches parse_batch get_adapter get group file_under language_of lower walk_source_files
    but_last chunks chunks_from node_row edge_row add_chunks add_rows add_each
stored_two = refl

takes_node :
    (r : NodeRow) (table : List NodeRow)
    → sure_node r ≡ true
    → context.accepts_nodes table (r ∷ []) ≡ true
takes_node r table h = ground (arith, h)

parse_all-yields_example :
    ((parse_all context).nodes
      ≡ concat (map (λ l. yield_of context nodes_of l (files_of context l)) context.languages))
    × ((parse_all context).edges
        ≡ concat (map (λ l. yield_of context edges_of l (files_of context l)) context.languages))
parse_all-yields_example = parse_all-yields context

has_languages : context.languages ≢ []
has_languages h = absurd (cc)

run-Stores_example : Stores context db sure_node (λ r. true) (parse_all context) (run context db)
run-Stores_example =
    run-Stores context db sure_node takes_node (λ r. true) (λ r nodes table h. refl) has_languages

run-Proper_example : let (stats, errors, after) = run context db in All Proper after.edges
run-Proper_example = run-Proper context db tt
