-- ===== src/PythonAst/Unused.antt =====
-- What the rule for dead code of backend/app/agents/smell_detector.py finds in the graph of the Python
-- adapter, as backend/app/agents/mapper.py stores it.
use mathlib.Core.List.{Memᴰ}
use ai_project.Prelude.{
  ℕ, ◌≤◌, ◌≡◌, ◌≢◌, refl, sym, ap, ◌∙◌, inl, inr, String, Bool, false, List, [], ◌∷◌, ◌==◌, ==_iff,
  All, count_if, map, one_of, upper, Bool-cases,
}
use ai_project.Mapper.{UcgNodeRaw, UcgEdgeRaw, Item}
use ai_project.Mapper.Store.{EdgeRow, edge_row}
use ai_project.Smells.{UcgNode, UcgEdge, call_edge_types, is_used, dead_code}
use ai_project.PythonAst.Nodes.{Properties}
use ai_project.PythonAst.{Reading, parse_files}
use ai_project.PythonAst.Growth.{
  Shape, contains_class, contains_function, contains_method, defined_in, has_parameter, has_field,
  calls, imports, has_id, Typed, once-same,
}
use ai_project.PythonAst.Typed.{parse_files-IsGraph}

-- The detector's view of a row, whose identifier it does not use.
abbrev pub loaded : (EdgeRow → ℕ) → EdgeRow → UcgEdge
loaded new_id r = record {
  id = new_id r;
  edge_type = r.raw.edge_type;
  source_node_id = r.raw.source_node_id;
  target_node_id = r.raw.target_node_id;
}

abbrev is_use : String → Bool
is_use edge_type = one_of (upper (upper edge_type)) call_edge_types

not-is_use : (e s t : String) → Shape e s t → t ≢ "CALL_SITE" → is_use e ≡ false
unfolding upper
not-is_use e s t (contains_class h p q) other = rw h refl
not-is_use e s t (contains_function h p q) other = rw h refl
not-is_use e s t (contains_method h p q) other = rw h refl
not-is_use e s t (defined_in h q) other = rw h refl
not-is_use e s t (has_parameter h p q) other = rw h refl
not-is_use e s t (has_field h p q) other = rw h refl
not-is_use e s t (calls h p q) other = absurd (other q)
not-is_use e s t (imports h p q) other = rw h refl

module _ (new_id : EdgeRow → ℕ) (job_id : ℕ) where
  abbrev pub stored : List UcgEdgeRaw → List UcgEdge
  stored edges = map (loaded new_id) (map (edge_row job_id) edges)

  module _ (n : UcgNode) (m : UcgNodeRaw) (nodes : List UcgNodeRaw) where
    not-is_used :
        (edges : List UcgEdgeRaw)
        → Memᴰ m nodes
        → m.id ≡ n.id
        → m.node_type ≢ "CALL_SITE"
        → count_if (has_id m.id) nodes ≤ 1
        → All (Typed nodes) edges
        → is_used (stored edges) n ≡ false
    unfolding is_used edge_row
    not-is_used [] mem same other once h = refl
    not-is_used (e ∷ edges) mem same other once ((s, t, source, (b, bm, bi, bt), shape), h) =
        let later = not-is_used edges mem same other once h in
        elim (Bool-cases (e.target_node_id == n.id)) [
          | inr elsewhere ↦ rw elsewhere later
          | inl here ↦
              let at : b.id ≡ m.id = bi ∙ (==_iff e.target_node_id n.id).0 here ∙ sym same in
              let one : m ≡ b = once-same m b nodes once mem bm at in
              let q : t ≢ "CALL_SITE" =
                λ c. other (ap (λ (x : UcgNodeRaw). x.node_type) one ∙ bt ∙ c) in
              rw (here, not-is_use e.edge_type s t shape q) later
        ]

module _ (render : Properties → String) (show : ℕ → String) (root : List String)
    (str : List String → String) (read : Item → Reading) where
  -- The calls in Python code never count as a use: at a node that stems from a Python file and is not
  -- itself a call site, the rule for dead code answers for the stored edges of the adapter what it
  -- answers where there are no edges at all.
  pub dead_code-ignores_calls :
      (new_id : EdgeRow → ℕ) (job_id first : ℕ) (files : List Item) (n : UcgNode) (m : UcgNodeRaw)
      → let output = parse_files render show root str read first files in
        Memᴰ m output.nodes
        → m.id ≡ n.id
        → m.node_type ≢ "CALL_SITE"
        → dead_code (stored new_id job_id output.edges) n ≡ dead_code [] n
  unfolding dead_code is_used
  dead_code-ignores_calls new_id job_id first files n m mem same other =
      let output = parse_files render show root str read first files in
      let (once, typed) = parse_files-IsGraph render show root str read first files m.id in
      rw (not-is_used new_id job_id n m output.nodes output.edges mem same other once typed) refl
