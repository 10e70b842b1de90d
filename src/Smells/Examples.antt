-- ===== src/Smells/Examples.antt =====
-- Three modules, two of which import each other.
use ai_project.Prelude.{ℕ, ◌<◌, ◌⊎◌, length, ◌≡◌, refl, upper, none, some, List, [], ◌∷◌, All}
use ai_project.Smells.{UcgNode, UcgEdge, SmellResult}
use ai_project.Smells.Cycles.{
  from_first, pop, report, enter, leave, visit, each, dfs, from_roots, module_nodes, is_dependency,
  adj, circular, detect_cyclic_dependencies,
}
use ai_project.Smells.Cycles.Walks.{IsCycle}
use ai_project.Smells.Cycles.Reported.{detect_cyclic_dependencies_sound}

abbrev orders : UcgNode
orders = record {
  id = 1;
  node_type = "CLASS";
  qualified_name = "shop.Orders";
  file_path = some "orders.py";
  line_start = some 10;
  line_end = some 400;
  visibility = none;
  properties_json = "{}";
}

abbrev module_of : ℕ → UcgNode
module_of i = record orders { id = i; node_type = "module" }

abbrev imports : ℕ → ℕ → UcgEdge
imports a b = record { id = a; edge_type = "imports"; source_node_id = a; target_node_id = b }

abbrev modules : List UcgNode
modules = module_of 1 ∷ module_of 2 ∷ module_of 3 ∷ []

abbrev import_edges : List UcgEdge
import_edges = imports 1 2 ∷ imports 2 3 ∷ imports 3 2 ∷ []

-- The search finds the two modules that import each other, and raises where it may not go as deep.
finds_cycle :
    (detect_cyclic_dependencies 3 (λ xs. xs) modules import_edges
      ≡ some (circular (2 ∷ 3 ∷ []) ∷ []))
    × (detect_cyclic_dependencies 2 (λ xs. xs) modules import_edges ≡ none)
unfolding detect_cyclic_dependencies module_nodes is_dependency adj from_first pop report enter
    leave visit each dfs from_roots upper
finds_cycle = (refl, refl)

detect_cyclic_dependencies_sound_example :
    (results : List SmellResult) × ((frames : ℕ)
      → (detect_cyclic_dependencies frames (λ xs. xs) modules import_edges ≡ some results)
        ⊎ ((detect_cyclic_dependencies frames (λ xs. xs) modules import_edges ≡ none)
            × (frames < length (module_nodes modules))))
    × All (λ (s : SmellResult). IsCycle (adj modules import_edges) s.affected_node_ids) results
detect_cyclic_dependencies_sound_example =
    detect_cyclic_dependencies_sound (λ xs. xs) modules import_edges (λ x xs. refl)
