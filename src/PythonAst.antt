-- ===== src/PythonAst.antt =====
-- The Python adapter (backend/app/adapters/python_ast.py), over the syntax trees of PythonAst.Syntax and
-- the nodes of PythonAst.Nodes. A new identifier is the next number. The reading and parsing of a file is
-- a parameter.
pub mod Syntax
pub mod Nodes
pub mod Growth
pub mod Bodies
pub mod Typed
pub mod Unused
mod Examples
use Prim.Native.Char.{Char}
use ai_project.Prelude.{
  ℕ, suc, ◌&&◌, ◌||◌, String, Bool, true, false, not, Option, none, some, List, [], ◌∷◌, ◌++◌, any,
  ends_with, starts_with, str_eq, join_text, or_else, map, length, split_lines, if◌then◌else◌,
}
use Prim.Native.String.{slice, len}
use Prim.Native.Nat.{◌-◌}
use ai_project.Mapper.{UcgNodeRaw, UcgEdgeRaw, UcgOutput, ParseError, Item}
use ai_project.PythonAst.Syntax.{
  Call, Arg, FunctionDef, ClassItem, method, assign, ann_assign, other_item, ClassDef, Alias,
  Statement, class, function, import, import_from, other_statement,
}
use ai_project.PythonAst.Nodes.{
  Properties, f_string, join_with, get_callee_name, assigned_names, annotated_name, bound_name,
  imported_names, star, file_node, module_node, make_class_node, make_function_node, parameter_node,
  field_node, call_node, make_import_node,
}

-- The output so far, and the next identifier.
pub record State : Type 0 where
  pub next : ℕ
  pub nodes : List UcgNodeRaw
  pub edges : List UcgEdgeRaw

-- `output.nodes.append(…)`
abbrev pub emit : (ℕ → UcgNodeRaw) → State → State
emit make s = record s { next = suc s.next; nodes = s.nodes ++ make s.next ∷ [] }

-- `output.edges.append(…)`; the weight is 1
abbrev pub link : String → ℕ → ℕ → State → State
link edge_type source target s = record s {
  edges =
      s.edges
      ++ record {
        edge_type = edge_type;
        source_node_id = source;
        target_node_id = target;
        properties = "{}";
        weight = 1000;
      }
        ∷ [];
}

-- A node, and the edge to it from a node that it belongs to.
unfoldable pub emit_under : String → ℕ → (ℕ → UcgNodeRaw) → State → State
emit_under edge_type parent make s = link edge_type parent s.next (emit make s)

-- A node of the file, `CONTAINS` and `DEFINED_IN`.
unfoldable pub emit_defined : ℕ → ℕ → (ℕ → UcgNodeRaw) → State → State
unfolding emit_under
emit_defined parent file make s =
    link "DEFINED_IN" s.next file (emit_under "CONTAINS" parent make s)

-- `s.replace("/", ".")`
unfoldable pub dotted : String → String
dotted String.[] = String.[]
dotted (String.◌∷◌ c s) =
    let one = String.◌∷◌ c String.[] in join_text (if str_eq one "/" then "." else one) (dotted s)

-- `s.removesuffix(".py")`
unfoldable pub without_py : String → String
without_py s = if ends_with s ".py" then slice s 0 (len s - 3) else s

module _ (render : Properties → String) (show : ℕ → String) (path : String) where
  -- `_collect_call_sites`, over the calls in the function
  unfoldable pub collect_call_sites : ℕ → String → List Call → State → State
  unfolding emit_under get_callee_name call_node
  collect_call_sites parent parent_name [] s = s
  collect_call_sites parent parent_name (c ∷ calls) s =
      let callee_name = get_callee_name c.func in
      collect_call_sites parent parent_name calls (
        if str_eq callee_name ""
        then s
        else emit_under "CALLS" parent (call_node render show path parent_name callee_name c) s)

  module _ (module_name : String) (class_name : String) where
    -- the loop over the parameters of a method, from a position on
    unfoldable pub emit_parameters : ℕ → FunctionDef → ℕ → List Arg → State → State
    unfolding emit_under parameter_node
    emit_parameters parent f position [] s = s
    emit_parameters parent f position (a ∷ args) s = emit_parameters parent f (suc position) args (
        emit_under "HAS_PARAMETER" parent
          (parameter_node render show path module_name class_name f position a) s)

    -- the loop over the fields of an assignment
    unfoldable pub emit_fields : ℕ → ℕ → ℕ → List (String × String) → State → State
    unfolding emit_under field_node
    emit_fields parent lineno end_lineno [] s = s
    emit_fields parent lineno end_lineno ((field_name, annotation) ∷ fields) s =
        emit_fields parent lineno end_lineno fields (
          emit_under "HAS_FIELD" parent
            (field_node render show path module_name class_name lineno end_lineno field_name
              annotation)
            s)

    -- an item of the class body; `parent` and `file` are the nodes of the class and of the file
    unfoldable pub process_class_item : ℕ → ℕ → ClassItem → State → State
    unfolding emit_defined make_function_node emit_parameters emit_fields collect_call_sites
        assigned_names annotated_name
    process_class_item parent file (method f) s =
        let make = make_function_node render show path module_name (some class_name) f in
        let defined = emit_defined parent file make s in
        collect_call_sites s.next ((make s.next).qualified_name) f.calls
          (emit_parameters s.next f 0 f.args defined)
    process_class_item parent file (assign targets lineno end_lineno) s =
        emit_fields parent lineno end_lineno (assigned_names targets) s
    process_class_item parent file (ann_assign target annotation lineno end_lineno) s =
        emit_fields parent lineno end_lineno (annotated_name target annotation) s
    process_class_item parent file other_item s = s

    -- `_process_class_body`
    unfoldable pub process_class_body : ℕ → ℕ → List ClassItem → State → State
    unfolding process_class_item
    process_class_body parent file [] s = s
    process_class_body parent file (item ∷ items) s =
        process_class_body parent file items (process_class_item parent file item s)

  -- a child of the module; `parent` and `file` are the nodes of the module and of the file
  unfoldable pub process_statement : String → ℕ → ℕ → Statement → State → State
  unfolding emit_under emit_defined make_class_node make_function_node make_import_node
      process_class_body collect_call_sites join_with bound_name imported_names
  process_statement module_name parent file (class c) s =
      process_class_body module_name c.name s.next file c.body
        (emit_defined parent file (make_class_node render show path module_name c) s)
  process_statement module_name parent file (function f) s =
      let make = make_function_node render show path module_name none f in
      collect_call_sites s.next ((make s.next).qualified_name) f.calls
        (emit_defined parent file make s)
  process_statement module_name parent file (import names lineno end_lineno) s =
      emit_under "IMPORTS" parent
        (make_import_node render show path (join_with ", " (map (λ (a : Alias). a.name) names))
          (map bound_name names) false lineno end_lineno)
        s
  process_statement module_name parent file (import_from source_module names lineno end_lineno) s =
      emit_under "IMPORTS" parent
        (make_import_node render show path (elim source_module [ none ↦ "" | some m ↦ m ])
          (imported_names names) (star names) lineno end_lineno)
        s
  process_statement module_name parent file other_statement s = s

  unfoldable pub process_statements : String → ℕ → ℕ → List Statement → State → State
  unfolding process_statement
  process_statements module_name parent file [] s = s
  process_statements module_name parent file (t ∷ statements) s =
      process_statements module_name parent file statements
        (process_statement module_name parent file t s)

  -- `_process_file`; `size` is the length of the encoded source
  unfoldable pub process_file : String → ℕ → List Statement → State → State
  unfolding file_node module_node process_statements dotted without_py split_lines
  process_file source size statements s =
      let total_lines = length (split_lines source) in
      let module_name = without_py (dotted path) in
      let with_file = emit (file_node render show path total_lines size) s in
      let with_module = emit (module_node render show path module_name total_lines) with_file in
      process_statements module_name with_file.next s.next statements
        (link "DEFINED_IN" with_file.next s.next with_module)

-- What reading and parsing a file comes to.
pub data Reading : Type 0 where
  tree : String → ℕ → List Statement → Reading
  syntax_error : String → Option ℕ → Reading
  other_error : String → Reading

module _ (render : Properties → String) (show : ℕ → String) (root : List String)
    (str : List String → String) (read : Item → Reading) where
  -- a file in a hidden directory or in `__pycache__`, by the parts of the whole path
  unfoldable pub is_hidden : Item → Bool
  is_hidden i = any (λ p. starts_with p "." || str_eq p "__pycache__") (root ++ i.relative)

  -- what a file that was read adds to the output and the parse errors
  unfoldable pub add_reading : Item → Reading → State → List ParseError → State × List ParseError
  unfolding process_file
  add_reading i (tree source size statements) s errors =
      (process_file render show (str i.relative) source size statements s, errors)
  add_reading i (syntax_error message lineno) s errors = (
    s,
    errors
        ++ record {
          file_path = str (root ++ i.relative);
          error_message = message;
          line_number = lineno;
        }
          ∷ [],
  )
  add_reading i (other_error message) s errors =
      let file_path = str (root ++ i.relative) in
      (
        s,
        errors
            ++ record {
              file_path = file_path;
              error_message =
                  f_string ("Unexpected error parsing " ∷ file_path ∷ ": " ∷ message ∷ []);
              line_number = none;
            }
              ∷ [],
      )

  -- the loop of `parse_files`
  unfoldable pub parse_each : List Item → State → List ParseError → State × List ParseError
  unfolding is_hidden add_reading
  parse_each [] s errors = (s, errors)
  parse_each (i ∷ files) s errors =
      let (s', errors') = if is_hidden i then (s, errors) else add_reading i (read i) s errors in
      parse_each files s' errors'

  -- `parse_files`, with the first new identifier
  unfoldable pub parse_files : ℕ → List Item → UcgOutput
  unfolding parse_each
  parse_files first files =
      let (s, errors) = parse_each files (record { next = first; nodes = []; edges = [] }) [] in
      record { nodes = s.nodes; edges = s.edges; parse_errors = errors }
