-- ===== src/PythonAst/Bodies.antt =====
-- How the bodies of functions and classes grow the output of backend/app/adapters/python_ast.py.
use ai_project.Prelude.{
  ℕ, suc, ◌≡◌, refl, ◌⊎◌, inl, inr, String, some, List, [], ◌∷◌, str_eq, Bool-cases,
}
use ai_project.PythonAst.Syntax.{
  Call, Arg, FunctionDef, ClassItem, method, assign, ann_assign, other_item,
}
use ai_project.PythonAst.Nodes.{
  Properties, get_callee_name, assigned_names, annotated_name, make_function_node, parameter_node,
  field_node, call_node,
}
use ai_project.PythonAst.{
  State, emit_under, emit_defined, collect_call_sites, emit_parameters, emit_fields,
  process_class_item, process_class_body,
}
use ai_project.PythonAst.Growth.{
  Shape, Has, IsGraph, Grown, Has-Within, Grown-trans, emit_under-Grown, emit_defined-Grown,
}

pub Grown-refl : (s : State) → IsGraph s → Grown s s
Grown-refl s g = (g, λ n m. m)

module _ (render : Properties → String) (show : ℕ → String) (path : String) where
  -- The calls of a function or a method, which is `k`.
  pub collect-Grown :
      (parent : ℕ) (parent_name k : String) (calls : List Call) (s : State)
      → (k ≡ "FUNCTION") ⊎ (k ≡ "METHOD")
      → Has s.nodes parent k
      → IsGraph s
      → Grown s (collect_call_sites render show path parent parent_name calls s)
  unfolding collect_call_sites call_node
  collect-Grown parent parent_name k [] s callable h g = Grown-refl s g
  collect-Grown parent parent_name k (c ∷ calls) s callable h g =
      let callee_name = get_callee_name c.func in
      elim (Bool-cases (str_eq callee_name "")) [
        | inl nameless ↦
            rw (collect_call_sites, nameless)
              (collect-Grown parent parent_name k calls s callable h g)
        | inr called ↦
            let make = call_node render show path parent_name callee_name c in
            let t = emit_under "CALLS" parent make s in
            let ((g', w), new) =
              emit_under-Grown make "CALL_SITE" (λ i. (refl, refl)) parent k s "CALLS"
                (Shape.calls refl callable refl) h g in
            rw (collect_call_sites, called)
              (Grown-trans s t (collect_call_sites render show path parent parent_name calls t)
                (g', w)
                (collect-Grown parent parent_name k calls t callable (Has-Within s t parent k w h)
                  g'))
      ]

  module _ (module_name : String) (class_name : String) where
    parameters-Grown :
        (parent : ℕ) (f : FunctionDef) (position : ℕ) (args : List Arg) (s : State)
        → Has s.nodes parent "METHOD"
        → IsGraph s
        → Grown s (emit_parameters render show path module_name class_name parent f position args s)
    unfolding emit_parameters parameter_node
    parameters-Grown parent f position [] s h g = Grown-refl s g
    parameters-Grown parent f position (a ∷ args) s h g =
        let make = parameter_node render show path module_name class_name f position a in
        let t = emit_under "HAS_PARAMETER" parent make s in
        let ((g', w), new) =
          emit_under-Grown make "PARAMETER" (λ i. (refl, refl)) parent "METHOD" s "HAS_PARAMETER"
            (Shape.has_parameter refl refl refl) h g in
        Grown-trans s t
          (emit_parameters render show path module_name class_name parent f (suc position) args t)
          (g', w)
          (parameters-Grown parent f (suc position) args t (Has-Within s t parent "METHOD" w h) g')

    fields-Grown :
        (parent lineno end_lineno : ℕ) (fields : List (String × String)) (s : State)
        → Has s.nodes parent "CLASS"
        → IsGraph s
        → Grown s
            (emit_fields render show path module_name class_name parent lineno end_lineno fields s)
    unfolding emit_fields field_node
    fields-Grown parent lineno end_lineno [] s h g = Grown-refl s g
    fields-Grown parent lineno end_lineno ((field_name, annotation) ∷ fields) s h g =
        let make =
          field_node render show path module_name class_name lineno end_lineno field_name
            annotation in
        let t = emit_under "HAS_FIELD" parent make s in
        let ((g', w), new) =
          emit_under-Grown make "FIELD" (λ i. (refl, refl)) parent "CLASS" s "HAS_FIELD"
            (Shape.has_field refl refl refl) h g in
        Grown-trans s t
          (emit_fields render show path module_name class_name parent lineno end_lineno fields t)
          (g', w)
          (fields-Grown parent lineno end_lineno fields t (Has-Within s t parent "CLASS" w h) g')

    item-Grown :
        (parent file : ℕ) (item : ClassItem) (s : State)
        → Has s.nodes parent "CLASS"
        → Has s.nodes file "FILE"
        → IsGraph s
        → Grown s (process_class_item render show path module_name class_name parent file item s)
    unfolding process_class_item make_function_node
    item-Grown parent file (method f) s h d g =
        let make = make_function_node render show path module_name (some class_name) f in
        let t = emit_defined parent file make s in
        let ((g', w), new) =
          emit_defined-Grown make "METHOD" (λ i. (refl, refl)) parent "CLASS" s file
            (Shape.contains_method refl refl refl) h d g in
        let u = emit_parameters render show path module_name class_name s.next f 0 f.args t in
        let (g'', w') = parameters-Grown s.next f 0 f.args t new g' in
        Grown-trans s t _ (g', w)
          (Grown-trans t u
            (collect_call_sites render show path s.next ((make s.next).qualified_name) f.calls u)
            (g'', w')
            (collect-Grown s.next ((make s.next).qualified_name) "METHOD" f.calls u (inr refl)
              (Has-Within t u s.next "METHOD" w' new) g''))
    item-Grown parent file (assign targets lineno end_lineno) s h d g =
        fields-Grown parent lineno end_lineno (assigned_names targets) s h g
    item-Grown parent file (ann_assign target annotation lineno end_lineno) s h d g =
        fields-Grown parent lineno end_lineno (annotated_name target annotation) s h g
    item-Grown parent file other_item s h d g = Grown-refl s g

    pub body-Grown :
        (parent file : ℕ) (items : List ClassItem) (s : State)
        → Has s.nodes parent "CLASS"
        → Has s.nodes file "FILE"
        → IsGraph s
        → Grown s (process_class_body render show path module_name class_name parent file items s)
    unfolding process_class_body
    body-Grown parent file [] s h d g = Grown-refl s g
    body-Grown parent file (item ∷ items) s h d g =
        let t = process_class_item render show path module_name class_name parent file item s in
        let (g', w) = item-Grown parent file item s h d g in
        Grown-trans s t
          (process_class_body render show path module_name class_name parent file items t) (g', w)
          (body-Grown parent file items t (Has-Within s t parent "CLASS" w h)
            (Has-Within s t file "FILE" w d) g')
