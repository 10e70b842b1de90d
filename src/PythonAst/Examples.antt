-- ===== src/PythonAst/Examples.antt =====
-- A module of one class with a private method that its public method calls.
use mathlib.Core.List.{Memᴰ}
use ai_project.Prelude.{
  ℕ, ◌+◌, ◌≤◌, ◌≡◌, refl, eq_iff, String, true, false, none, some, List, [], ◌∷◌, All, count_if,
  map, arith,
}
use ai_project.Mapper.{UcgNodeRaw, UcgOutput, Item}
use ai_project.Smells.{UcgNode, dead_code}
use ai_project.PythonAst.Syntax.{FunctionDef, Call, Func, method, class}
use ai_project.PythonAst.Nodes.{
  Properties, get_callee_name, make_class_node, make_function_node, call_node, file_node,
  module_node,
}
use ai_project.PythonAst.{
  Reading, tree, parse_files, parse_each, add_reading, is_hidden, process_file, process_statements,
  process_statement, process_class_body, process_class_item, collect_call_sites, emit_parameters,
  emit_defined, emit_under, dotted, without_py,
}
use ai_project.PythonAst.Growth.{has_id, Typed}
use ai_project.PythonAst.Typed.{parse_files-IsGraph}
use ai_project.PythonAst.Unused.{stored, dead_code-ignores_calls}

abbrev render : Properties → String
render p = "{}"

abbrev show : ℕ → String
show n = "n"

abbrev file_name : List String → String
file_name [] = ""
file_name (s ∷ []) = s
file_name (s ∷ t ∷ parts) = file_name (t ∷ parts)

abbrev def : String → List Call → ℕ → FunctionDef
def name calls lineno = record {
  name = name;
  args = [];
  signature = some "self";
  returns = none;
  decorator_list = [];
  calls = calls;
  is_async = false;
  lineno = lineno;
  end_lineno = lineno + 1;
}

abbrev shop : Item
shop = record { is_file = true; relative = "shop.py" ∷ []; suffix = ".py" }

abbrev read : Item → Reading
read i = tree "class Shop:" 60 (
    class (record {
      name = "Shop";
      bases = [];
      walked = [] ∷ [] ∷ [];
      lineno = 1;
      end_lineno = 5;
      body =
          method (def "_price" [] 2)
          ∷ method (
              def "pay"
                (record { func = Func.attribute "_price"; args = 0; keywords = 0; lineno = 5 } ∷ [])
                4)
          ∷ [];
    })
    ∷ [])

abbrev output : UcgOutput
output = parse_files render show ("srv" ∷ []) file_name read 1 (shop ∷ [])

types :
    map (λ (n : UcgNodeRaw). n.qualified_name) output.nodes
    ≡ "shop.py" ∷ "shop" ∷ "shop.Shop" ∷ "shop.Shop._price" ∷ "shop.Shop.pay"
      ∷ "shop.Shop.pay:call:_price@n" ∷ []
unfolding parse_files parse_each add_reading is_hidden process_file process_statements
    process_statement process_class_body process_class_item collect_call_sites emit_parameters
    emit_defined emit_under dotted without_py get_callee_name make_class_node make_function_node
    call_node file_node module_node
types = refl

parse_files-IsGraph_example :
    (count_if (has_id 4) output.nodes ≤ 1) × All (Typed output.nodes) output.edges
parse_files-IsGraph_example =
    parse_files-IsGraph render show ("srv" ∷ []) file_name read 1 (shop ∷ []) 4

-- The method `_price`, as it is stored, and as the detector loads it.
abbrev price : UcgNodeRaw
price = record {
  id = 4;
  node_type = "METHOD";
  qualified_name = "shop.Shop._price";
  language = "python";
  file_path = "shop.py";
  line_start = some 2;
  line_end = some 3;
  col_start = none;
  col_end = none;
  properties = "{}";
}

abbrev price_loaded : UcgNode
price_loaded = record {
  id = 4;
  node_type = "METHOD";
  qualified_name = "shop.Shop._price";
  file_path = some "shop.py";
  line_start = some 2;
  line_end = some 3;
  visibility = some "private";
  properties_json = "{}";
}

price-is_output : Memᴰ price output.nodes
unfolding parse_files parse_each add_reading is_hidden process_file process_statements
    process_statement process_class_body process_class_item collect_call_sites emit_parameters
    emit_defined emit_under dotted without_py get_callee_name make_class_node make_function_node
    call_node file_node module_node
price-is_output = Memᴰ.tail (Memᴰ.tail (Memᴰ.tail (Memᴰ.head refl)))

dead_code-ignores_calls_example :
    dead_code (stored (λ r. 0) 7 output.edges) price_loaded ≡ dead_code [] price_loaded
dead_code-ignores_calls_example =
    dead_code-ignores_calls render show ("srv" ∷ []) file_name read (λ r. 0) 7 1 (shop ∷ [])
      price_loaded price price-is_output refl (λ e. ground (arith, eq_iff "METHOD" "CALL_SITE"))
