-- ===== src/Smells.antt =====
-- The smell detector (backend/app/agents/smell_detector.py) over the nodes and edges of the Universal
-- Code Graph (backend/app/models/ucg.py): its rules but the one for cycles, the optional pass
-- through the language model, and the insertion of the results.
-- A confidence is counted in hundredths. The descriptions and the logs are left out. Primary keys
-- are unique, so a look-up in the dictionary of nodes is the look-up of a row. A dictionary of
-- properties is its `visibility` and the text that `json.dumps` makes of it.
pub mod Names
pub mod Rules
pub mod Cycles
pub mod Agent
pub mod Stored
pub mod Detector
mod Examples
use ai_project.Prelude.{
  join_text, ℕ, suc, ◌+◌, ◌-◌, ◌*◌, min, String, Bool, true, false, not, Option, none, some, List,
  [], ◌∷◌, ◌++◌, ◌==◌, ◌&&◌, ◌||◌, str_eq, one_of, upper, lower, contains, ends_with, starts_with,
  keep, any, count_if, map, length, ltb, if◌then◌else◌, find_row,
}
use ai_project.Smells.Names.{rsplit_dot, last_part, insert_new}

pub record UcgNode : Type 0 where
  pub id : ℕ
  pub node_type : String
  pub qualified_name : String
  pub file_path : Option String
  pub line_start : Option ℕ
  pub line_end : Option ℕ
  pub visibility : Option String
  pub properties_json : String

pub record UcgEdge : Type 0 where
  pub id : ℕ
  pub edge_type : String
  pub source_node_id : ℕ
  pub target_node_id : ℕ

-- The parts of `evidence` that are read later on.
pub record Evidence : Type 0 where
  pub method_count : Option ℕ
  pub loc : Option ℕ
  pub accessor_count : Option ℕ
  pub targets : Option ℕ
  pub file_path : Option String

pub record SmellResult : Type 0 where
  pub smell_type : String
  pub severity : String
  pub affected_node_ids : List ℕ
  pub evidence : Evidence
  pub confidence : ℕ
  pub llm_rationale : Option String

abbrev pub no_evidence : Evidence
no_evidence = record {
  method_count = none;
  loc = none;
  accessor_count = none;
  targets = none;
  file_path = none;
}

-- A result on one node, which no language model has seen.
abbrev pub smell_on : String → String → ℕ → ℕ → Evidence → SmellResult
smell_on smell_type severity confidence node evidence = record {
  smell_type = smell_type;
  severity = severity;
  affected_node_ids = node ∷ [];
  evidence = evidence;
  confidence = confidence;
  llm_rationale = none;
}

-- the loop of a rule, `for x in xs: if …: results.append(…)`
abbrev pub collect {ℓ} : {A : Type ℓ} → (A → Option SmellResult) → List A → List SmellResult
collect rule [] = []
collect rule (x ∷ xs) = elim (rule x) [ none ↦ collect rule xs | some s ↦ s ∷ collect rule xs ]

-- `_compute_loc`
unfoldable pub compute_loc : UcgNode → ℕ
compute_loc node = elim node.line_start [
  | none ↦ 0
  | some first ↦ elim node.line_end [ none ↦ 0 | some last ↦ last + 1 - first ]
]

abbrev pub is_class : UcgNode → Bool
is_class n = str_eq (upper n.node_type) "CLASS"

abbrev pub is_function : UcgNode → Bool
is_function n = one_of (upper n.node_type) ("FUNCTION" ∷ "METHOD" ∷ [])

abbrev pub node_by_id : List UcgNode → ℕ → Option UcgNode
node_by_id nodes i = find_row (λ (n : UcgNode). n.id) i nodes

-- `outgoing[i]`, `incoming[i]`
abbrev pub outgoing : List UcgEdge → ℕ → List UcgEdge
outgoing edges i = keep (λ e. e.source_node_id == i) edges

abbrev pub incoming : List UcgEdge → ℕ → List UcgEdge
incoming edges i = keep (λ e. e.target_node_id == i) edges

-- a `CONTAINS` edge to a method
unfoldable pub is_method_edge : List UcgNode → UcgEdge → Bool
is_method_edge nodes e =
    str_eq (upper e.edge_type) "CONTAINS"
    && elim (node_by_id nodes e.target_node_id) [ none ↦ false | some n ↦ is_function n ]

unfoldable pub god_class : List UcgNode → List UcgEdge → UcgNode → Option SmellResult
unfolding is_method_edge
god_class nodes edges cls =
    let method_count = length (keep (is_method_edge nodes) (outgoing edges cls.id)) in
    if ltb 10 method_count
    then some (
        smell_on "god_class" "high" 85 cls.id
          (record no_evidence { method_count = some method_count }))
    else none

unfoldable pub large_class : UcgNode → Option SmellResult
unfolding compute_loc
large_class cls =
    let loc = compute_loc cls in
    if ltb 300 loc
    then some (smell_on "large_class" "medium" 80 cls.id (record no_evidence { loc = some loc }))
    else none

unfoldable pub long_method : UcgNode → Option SmellResult
unfolding compute_loc
long_method f =
    let loc = compute_loc f in
    if ltb 50 loc
    then some (smell_on "long_method" "medium" 80 f.id (record no_evidence { loc = some loc }))
    else none

abbrev pub jdbc_keywords : List String
jdbc_keywords =
    "jdbc" ∷ "preparedstatement" ∷ "resultset" ∷ "drivermanager" ∷ "connection.preparestatement"
    ∷ "createstatement" ∷ "conn.preparestatement" ∷ "preparestatement(" ∷ []

unfoldable pub jdbc_usage : UcgNode → Option SmellResult
jdbc_usage n =
    let combined = join_text (lower n.properties_json) (join_text " " (lower n.qualified_name)) in
    if any (λ kw. contains combined kw) jdbc_keywords
    then some (smell_on "tight_coupling" "high" 90 n.id no_evidence)
    else none

abbrev pub skip_types : List String
skip_types =
    "MODULE" ∷ "FILE" ∷ "IMPORT" ∷ "ANNOTATION" ∷ "PARAMETER" ∷ "FIELD" ∷ "COMMENT" ∷ "LITERAL"
    ∷ "TYPE_REF" ∷ []

abbrev pub call_edge_types : List String
call_edge_types = "CALLS" ∷ "USES_TYPE" ∷ "INSTANTIATES" ∷ []

-- the names that `_detect_dead_code` leaves alone
unfoldable pub is_called_implicitly : String → Bool
is_called_implicitly name =
    ends_with name "__init__"
    || ends_with name "__str__"
    || ends_with name "__repr__"
    || contains (lower name) "main"

unfoldable pub is_used : List UcgEdge → UcgNode → Bool
is_used edges n = any (λ e. one_of (upper e.edge_type) call_edge_types) (incoming edges n.id)

unfoldable pub dead_code : List UcgEdge → UcgNode → Option SmellResult
unfolding is_used
dead_code edges n =
    if one_of (upper n.node_type) skip_types
    then none
    else if is_used edges n
    then none
    else if is_called_implicitly n.qualified_name
    then none
    else if elim n.visibility [ none ↦ false | some v ↦ str_eq v "private" ]
    then some (smell_on "dead_code" "low" 60 n.id no_evidence)
    else none

-- the loop over the call edges that fills `unique_target_classes`
unfoldable pub target_classes : List UcgNode → List UcgEdge → List String
unfolding rsplit_dot
target_classes nodes [] = []
target_classes nodes (e ∷ edges) =
    let rest = target_classes nodes edges in
    elim (node_by_id nodes e.target_node_id) [
      | none ↦ rest
      | some target ↦ elim (rsplit_dot target.qualified_name) [
        | none ↦ rest
        | some parent ↦ insert_new parent rest
      ]
    ]

unfoldable pub feature_envy : List UcgNode → List UcgEdge → UcgNode → Option SmellResult
unfolding target_classes
feature_envy nodes edges f =
    let call_edges = keep (λ e. str_eq (upper e.edge_type) "CALLS") (outgoing edges f.id) in
    let count = length (target_classes nodes call_edges) in
    if ltb 5 count
    then some
        (smell_on "feature_envy" "medium" 75 f.id (record no_evidence { targets = some count }))
    else none

abbrev pub accessor_prefixes : List String
accessor_prefixes = "get" ∷ "set" ∷ "is" ∷ "has" ∷ "can" ∷ "should" ∷ []

unfoldable pub is_accessor : UcgNode → Bool
is_accessor m =
    any (λ prefix. starts_with (lower (last_part m.qualified_name)) prefix) accessor_prefixes

unfoldable pub methods_of : List UcgNode → List UcgEdge → List UcgNode
unfolding is_method_edge
methods_of nodes [] = []
methods_of nodes (e ∷ edges) =
    let rest = methods_of nodes edges in
    if is_method_edge nodes e
    then elim (node_by_id nodes e.target_node_id) [ none ↦ rest | some n ↦ n ∷ rest ]
    else rest

-- `accessor_count / len(methods) > 0.8`, with the exact quotient
unfoldable pub anemic_domain_model : List UcgNode → List UcgEdge → UcgNode → Option SmellResult
unfolding methods_of is_accessor
anemic_domain_model nodes edges cls =
    let methods = methods_of nodes (outgoing edges cls.id) in
    let accessor_count = count_if is_accessor methods in
    if ltb (length methods) 3
    then none
    else if ltb (4 * length methods) (5 * accessor_count)
    then some (
        smell_on "anemic_domain_model" "low" 70 cls.id (record no_evidence {
          method_count = some (length methods);
          accessor_count = some accessor_count;
        }))
    else none
