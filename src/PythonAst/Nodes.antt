-- ===== src/PythonAst/Nodes.antt =====
-- The nodes that the adapter of backend/app/adapters/python_ast.py makes: their names, their lines and
-- their dictionaries of properties. `render` stands for the dictionary as the mapper's nodes hold it,
-- `show` for the text of a number.
use ai_project.Prelude.{
  ℕ, zero, suc, ◌+◌, ◌&&◌, ◌||◌, String, Bool, not, Option, none, some, List, [], ◌∷◌, ◌++◌, any,
  one_of, contains, starts_with, str_eq, join_text, or_else, map, first_chars, if◌then◌else◌,
}
use ai_project.Mapper.{UcgNodeRaw}
use ai_project.PythonAst.Syntax.{
  Expr, Func, name, attribute, expression, Call, Arg, FunctionDef, Target, named, tuple,
  other_target, ClassDef, Alias,
}

-- The dictionary of properties, for each kind of node.
pub data Properties : Type 0 where
  file_properties : String → ℕ → Properties
  module_properties : String → Properties
  class_properties : String → Bool → List String → String → Properties
  function_properties :
      String → String → String → String → Bool → String → Bool → Option String → Properties
  parameter_properties : String → ℕ → String → Properties
  field_properties : String → String → String → Properties
  call_properties : String → ℕ → ℕ → Properties
  import_properties : String → List String → Bool → Properties

-- the texts one after the other
abbrev pub f_string : List String → String
f_string [] = ""
f_string (s ∷ texts) = join_text s (f_string texts)

-- `sep.join(texts)`
unfoldable pub join_with : String → List String → String
join_with sep [] = ""
join_with sep (s ∷ []) = s
join_with sep (s ∷ t ∷ texts) = join_text s (join_text sep (join_with sep (t ∷ texts)))

-- `_unparse_safe`
abbrev pub unparse_safe : Expr → String
unparse_safe none = ""
unparse_safe (some text) = text

-- `_annotation_str`
abbrev pub annotation_str : Option Expr → String
annotation_str none = ""
annotation_str (some annotation) = unparse_safe annotation

-- `_build_signature`
unfoldable pub build_signature : FunctionDef → String
build_signature f = elim f.signature [
  | none ↦ f.name
  | some args ↦ elim f.returns [
    | none ↦ f_string (f.name ∷ "(" ∷ args ∷ ")" ∷ [])
    | some returns ↦ elim returns [
      | none ↦ f.name
      | some text ↦ f_string (f.name ∷ "(" ∷ args ∷ ") -> " ∷ text ∷ [])
    ]
  ]
]

-- `_is_abstract_class`
unfoldable pub is_abstract_class : ClassDef → Bool
is_abstract_class c =
    any (λ base. contains (unparse_safe base) "ABC" || contains (unparse_safe base) "Abstract")
      c.bases
    || any
        (λ decorators.
          any (λ d. one_of (unparse_safe d) ("abstractmethod" ∷ "abc.abstractmethod" ∷ []))
            decorators)
        c.walked

-- `_is_static_method`
unfoldable pub is_static_method : FunctionDef → Bool
is_static_method f =
    any (λ d. one_of (unparse_safe d) ("staticmethod" ∷ "classmethod" ∷ [])) f.decorator_list

-- `_get_callee_name`
unfoldable pub get_callee_name : Func → String
unfolding first_chars
get_callee_name (name id) = id
get_callee_name (attribute attr) = attr
get_callee_name (expression e) = first_chars 80 (unparse_safe e)

-- the names among the elements of a tuple
unfoldable pub tuple_names : List (Option String) → List (String × String)
tuple_names [] = []
tuple_names (none ∷ elts) = tuple_names elts
tuple_names (some id ∷ elts) = (id, "") ∷ tuple_names elts

-- `_extract_field_names`, of an assignment to these targets
unfoldable pub assigned_names : List Target → List (String × String)
unfolding tuple_names
assigned_names [] = []
assigned_names (named id ∷ targets) = (id, "") ∷ assigned_names targets
assigned_names (tuple elts ∷ targets) = tuple_names elts ++ assigned_names targets
assigned_names (other_target ∷ targets) = assigned_names targets

-- `_extract_field_names`, of an assignment with an annotation
unfoldable pub annotated_name : Target → Expr → List (String × String)
annotated_name (named id) annotation = (id, unparse_safe annotation) ∷ []
annotated_name (tuple elts) annotation = []
annotated_name other_target annotation = []

-- the names that an import binds; with `from`, the star is left out
unfoldable pub bound_name : Alias → String
bound_name a = elim a.asname [ none ↦ a.name | some asname ↦ or_else asname a.name ]

unfoldable pub imported_names : List Alias → List String
unfolding bound_name
imported_names [] = []
imported_names (a ∷ aliases) =
    let rest = imported_names aliases in if str_eq a.name "*" then rest else bound_name a ∷ rest

abbrev pub star : List Alias → Bool
star aliases = any (λ (a : Alias). str_eq a.name "*") aliases

-- What is left out of the calls of the constructors is empty.
abbrev pub raw_node : String → String → String → Option ℕ → Option ℕ → String → ℕ → UcgNodeRaw
raw_node node_type qualified_name file_path line_start line_end properties id = record {
  id = id;
  node_type = node_type;
  qualified_name = qualified_name;
  language = "python";
  file_path = file_path;
  line_start = line_start;
  line_end = line_end;
  col_start = none;
  col_end = none;
  properties = properties;
}

module _ (render : Properties → String) (show : ℕ → String) (path : String) where
  -- the two nodes of `_process_file`; a file of no lines ends in line 1
  unfoldable pub file_node : ℕ → ℕ → ℕ → UcgNodeRaw
  file_node total_lines size =
      raw_node "FILE" path path (some 1) (some (elim total_lines [ zero ↦ 1 | suc n ↦ suc n ]))
        (render (file_properties path size))

  unfoldable pub module_node : String → ℕ → ℕ → UcgNodeRaw
  module_node module_name total_lines =
      raw_node "MODULE" module_name path (some 1)
        (some (elim total_lines [ zero ↦ 1 | suc n ↦ suc n ]))
        (render (module_properties module_name))

  -- `_make_class_node`
  unfoldable pub make_class_node : String → ClassDef → ℕ → UcgNodeRaw
  unfolding is_abstract_class
  make_class_node module_name c =
      let qname = f_string (module_name ∷ "." ∷ c.name ∷ []) in
      raw_node "CLASS" qname path (some c.lineno) (some c.end_lineno)
        (render (class_properties qname (is_abstract_class c) (map unparse_safe c.bases) c.name))

  -- `_make_function_node`; a method has the name of its class
  unfoldable pub make_function_node : String → Option String → FunctionDef → ℕ → UcgNodeRaw
  unfolding build_signature is_static_method
  make_function_node module_name class_name f =
      let node_type : String = elim class_name [ none ↦ "FUNCTION" | some c ↦ "METHOD" ] in
      let plain = f_string (module_name ∷ "." ∷ f.name ∷ []) in
      let qname : String = elim class_name [
        | none ↦ plain
        | some c ↦
            if str_eq c "" then plain else f_string (module_name ∷ "." ∷ c ∷ "." ∷ f.name ∷ [])
      ] in
      let visibility =
        if starts_with f.name "_" && not (starts_with f.name "__") then "private" else "public" in
      raw_node node_type qname path (some f.lineno) (some f.end_lineno) (
        render (
          function_properties qname f.name (build_signature f) (annotation_str f.returns) f.is_async
            visibility (is_static_method f) class_name))

  -- the node of a parameter of `_process_class_body`
  unfoldable pub parameter_node : String → String → FunctionDef → ℕ → Arg → ℕ → UcgNodeRaw
  parameter_node module_name class_name f position a =
      raw_node "PARAMETER"
        (f_string (module_name ∷ "." ∷ class_name ∷ "." ∷ f.name ∷ "." ∷ a.arg ∷ [])) path
        (some f.lineno) none
        (render (parameter_properties a.arg position (annotation_str a.annotation)))

  -- the node of a field of `_process_class_body`
  unfoldable pub field_node : String → String → ℕ → ℕ → String → String → ℕ → UcgNodeRaw
  field_node module_name class_name lineno end_lineno field_name annotation =
      raw_node "FIELD" (f_string (module_name ∷ "." ∷ class_name ∷ "." ∷ field_name ∷ [])) path
        (some lineno) (some end_lineno)
        (render (
          field_properties field_name annotation
            (if starts_with field_name "_" then "private" else "public")))

  -- the node of `_collect_call_sites`
  unfoldable pub call_node : String → String → Call → ℕ → UcgNodeRaw
  call_node parent_name callee_name c =
      raw_node "CALL_SITE"
        (f_string (parent_name ∷ ":call:" ∷ callee_name ∷ "@" ∷ show c.lineno ∷ [])) path
        (some c.lineno) none (render (call_properties callee_name (c.args + c.keywords) c.lineno))

  -- `_make_import_node`
  unfoldable pub make_import_node : String → List String → Bool → ℕ → ℕ → ℕ → UcgNodeRaw
  make_import_node source_module names is_wildcard lineno end_lineno =
      raw_node "IMPORT" (f_string ("import:" ∷ path ∷ ":" ∷ source_module ∷ ":" ∷ show lineno ∷ []))
        path (some lineno) (some end_lineno)
        (render (import_properties source_module names is_wildcard))
