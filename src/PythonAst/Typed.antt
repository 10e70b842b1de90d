-- ===== src/PythonAst/Typed.antt =====
-- The graph of the Python adapter: what `parse_files` returns is in order, whatever files it is given.
use mathlib.Core.List.{Memᴰ}
use mathlib.Core.List.Memᴰ
use ai_project.Prelude.{
  ℕ, ◌≤◌, All, count_if, refl, inl, inr, String, false, none, some, List, [], ◌∷◌, length,
  split_lines, Bool-cases, arith, map,
}
use ai_project.Mapper.{ParseError, Item}
use ai_project.PythonAst.Syntax.{
  Alias, Statement, class, function, import, import_from, other_statement,
}
use ai_project.PythonAst.Nodes.{
  Properties, file_node, module_node, make_class_node, make_function_node, make_import_node,
  join_with, bound_name, imported_names, star,
}
use ai_project.PythonAst.{
  State, emit, link, emit_defined, dotted, without_py, collect_call_sites, process_class_body,
  process_statement, process_statements, process_file, Reading, tree, syntax_error, other_error,
  is_hidden, add_reading, parse_each, parse_files,
}
use ai_project.PythonAst.Growth.{
  Shape, has_id, Has, Typed, IsGraph, Grown, Has-Within, Grown-trans, emit-Grown, emit-Has,
  link-Grown, emit_under-Grown, emit_defined-Grown,
}
use ai_project.PythonAst.Bodies.{Grown-refl, collect-Grown, body-Grown}

Mem-All {ℓ κ} : {A : Type ℓ} (P : A → Type κ) (xs : List A) → ((x : A) → Memᴰ x xs → P x) → All P xs
Mem-All P [] h = tt
Mem-All P (x ∷ xs) h = (h x (Memᴰ.head refl), Mem-All P xs (λ y m. h y (Memᴰ.tail m)))

module _ (render : Properties → String) (show : ℕ → String) (path : String) where
  statement-Grown :
      (module_name : String) (parent file : ℕ) (t : Statement) (s : State)
      → Has s.nodes parent "MODULE"
      → Has s.nodes file "FILE"
      → IsGraph s
      → Grown s (process_statement render show path module_name parent file t s)
  unfolding process_statement make_class_node make_function_node make_import_node
  statement-Grown module_name parent file (class c) s h d g =
      let make = make_class_node render show path module_name c in
      let t = emit_defined parent file make s in
      let ((g', w), new) =
        emit_defined-Grown make "CLASS" (λ i. (refl, refl)) parent "MODULE" s file
          (Shape.contains_class refl refl refl) h d g in
      Grown-trans s t (process_class_body render show path module_name c.name s.next file c.body t)
        (g', w)
        (body-Grown render show path module_name c.name s.next file c.body t new
          (Has-Within s t file "FILE" w d) g')
  statement-Grown module_name parent file (function f) s h d g =
      let make = make_function_node render show path module_name none f in
      let t = emit_defined parent file make s in
      let ((g', w), new) =
        emit_defined-Grown make "FUNCTION" (λ i. (refl, refl)) parent "MODULE" s file
          (Shape.contains_function refl refl refl) h d g in
      Grown-trans s t
        (collect_call_sites render show path s.next ((make s.next).qualified_name) f.calls t)
        (g', w)
        (collect-Grown render show path s.next ((make s.next).qualified_name) "FUNCTION" f.calls t
          (inl refl) new g')
  statement-Grown module_name parent file (import names lineno end_lineno) s h d g =
      (emit_under-Grown
        (make_import_node render show path (join_with ", " (map (λ (a : Alias). a.name) names))
          (map bound_name names) false lineno end_lineno)
        "IMPORT" (λ i. (refl, refl)) parent "MODULE" s "IMPORTS" (Shape.imports refl refl refl) h
        g).0
  statement-Grown module_name parent file (import_from source_module names lineno end_lineno) s h d
        g =
      (emit_under-Grown
        (make_import_node render show path (elim source_module [ none ↦ "" | some m ↦ m ])
          (imported_names names) (star names) lineno end_lineno)
        "IMPORT" (λ i. (refl, refl)) parent "MODULE" s "IMPORTS" (Shape.imports refl refl refl) h
        g).0
  statement-Grown module_name parent file other_statement s h d g = Grown-refl s g

  statements-Grown :
      (module_name : String) (parent file : ℕ) (statements : List Statement) (s : State)
      → Has s.nodes parent "MODULE"
      → Has s.nodes file "FILE"
      → IsGraph s
      → Grown s (process_statements render show path module_name parent file statements s)
  unfolding process_statements
  statements-Grown module_name parent file [] s h d g = Grown-refl s g
  statements-Grown module_name parent file (x ∷ statements) s h d g =
      let t = process_statement render show path module_name parent file x s in
      let (g', w) = statement-Grown module_name parent file x s h d g in
      Grown-trans s t (process_statements render show path module_name parent file statements t)
        (g', w)
        (statements-Grown module_name parent file statements t (Has-Within s t parent "MODULE" w h)
          (Has-Within s t file "FILE" w d) g')

  file-IsGraph :
      (source : String) (size : ℕ) (statements : List Statement) (s : State)
      → IsGraph s
      → IsGraph (process_file render show path source size statements s)
  unfolding process_file file_node module_node
  file-IsGraph source size statements s g =
      let total_lines = length (split_lines source) in
      let module_name = without_py (dotted path) in
      let make = file_node render show path total_lines size in
      let t = emit make s in
      let (g', w) = emit-Grown make "FILE" (λ i. (refl, refl)) s g in
      let d = emit-Has make "FILE" (λ i. (refl, refl)) s in
      let make' = module_node render show path module_name total_lines in
      let u = emit make' t in
      let (g'', w') = emit-Grown make' "MODULE" (λ i. (refl, refl)) t g' in
      let h = emit-Has make' "MODULE" (λ i. (refl, refl)) t in
      let d' = Has-Within t u s.next "FILE" w' d in
      let (g3, w'') =
        link-Grown "DEFINED_IN" t.next s.next "MODULE" "FILE" u h d' (Shape.defined_in refl refl)
          g'' in
      (statements-Grown module_name t.next s.next statements (link "DEFINED_IN" t.next s.next u) h
        d' g3).0

module _ (render : Properties → String) (show : ℕ → String) (root : List String)
    (str : List String → String) (read : Item → Reading) where
  add_reading-IsGraph :
      (i : Item) (r : Reading) (s : State) (errors : List ParseError)
      → IsGraph s
      → IsGraph (add_reading render show root str read i r s errors).0
  unfolding add_reading
  add_reading-IsGraph i (tree source size statements) s errors g =
      file-IsGraph render show (str i.relative) source size statements s g
  add_reading-IsGraph i (syntax_error message lineno) s errors g = g
  add_reading-IsGraph i (other_error message) s errors g = g

  parse_each-IsGraph :
      (files : List Item) (s : State) (errors : List ParseError)
      → IsGraph s
      → IsGraph (parse_each render show root str read files s errors).0
  unfolding parse_each
  parse_each-IsGraph [] s errors g = g
  parse_each-IsGraph (i ∷ files) s errors g =
      elim (Bool-cases (is_hidden render show root str read i)) [
        | inl hidden ↦ rw (parse_each, hidden) (parse_each-IsGraph files s errors g)
        | inr seen ↦
            let (t, later) = add_reading render show root str read i (read i) s errors in
            rw (parse_each, seen)
              (parse_each-IsGraph files t later (add_reading-IsGraph i (read i) s errors g))
      ]

  abbrev start : ℕ → State
  start first = record { next = first; nodes = []; edges = [] }

  start-IsGraph : (first : ℕ) → IsGraph (start first)
  start-IsGraph first = record {
    below = λ n m. absurd (Memᴰ.not-nil m);
    once = λ i. omega arith;
    typed = λ e m. absurd (Memᴰ.not-nil m);
  }

  -- Whatever files the adapter is given and whatever they parse to: an identifier is that of at most one
  -- of the nodes that it returns, and every edge that it returns joins two of these nodes, of types that
  -- go with the type of the edge. So a CALLS edge leads from a function or a method to a call site.
  pub parse_files-IsGraph :
      (first : ℕ) (files : List Item) (i : ℕ)
      → let output = parse_files render show root str read first files in
        (count_if (has_id i) output.nodes ≤ 1) × All (Typed output.nodes) output.edges
  unfolding parse_files
  parse_files-IsGraph first files i =
      let (s, errors) = parse_each render show root str read files (start first) [] in
      let g = parse_each-IsGraph files (start first) [] (start-IsGraph first) in
      (g.once i, Mem-All (Typed s.nodes) s.edges g.typed)
