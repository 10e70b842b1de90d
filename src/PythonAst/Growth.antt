-- ===== src/PythonAst/Growth.antt =====
-- How the output of the Python adapter grows: identifiers stay unique, and every edge joins nodes of the
-- types that it is meant for.
use mathlib.Core.List.{Memᴰ}
use mathlib.Core.List.Memᴰ
use ai_project.Prelude.{
  ℕ, ◌<◌, ◌≤◌, Bool, count_if, count_if-append, ◌==◌, ==_iff, Bool-cases, ◌≡◌, refl, sym, ap, ◌∙◌,
  ◌⊎◌, inl, inr, String, List, [], ◌∷◌, arith,
}
use ai_project.Mapper.{UcgNodeRaw, UcgEdgeRaw}
use ai_project.PythonAst.{State, emit, link, emit_under, emit_defined}

-- The type of an edge, of its source and of its target.
pub data Shape (e s t : String) : Type 0 where
  contains_class : e ≡ "CONTAINS" → s ≡ "MODULE" → t ≡ "CLASS" → Shape e s t
  contains_function : e ≡ "CONTAINS" → s ≡ "MODULE" → t ≡ "FUNCTION" → Shape e s t
  contains_method : e ≡ "CONTAINS" → s ≡ "CLASS" → t ≡ "METHOD" → Shape e s t
  defined_in : e ≡ "DEFINED_IN" → t ≡ "FILE" → Shape e s t
  has_parameter : e ≡ "HAS_PARAMETER" → s ≡ "METHOD" → t ≡ "PARAMETER" → Shape e s t
  has_field : e ≡ "HAS_FIELD" → s ≡ "CLASS" → t ≡ "FIELD" → Shape e s t
  calls : e ≡ "CALLS" → (s ≡ "FUNCTION") ⊎ (s ≡ "METHOD") → t ≡ "CALL_SITE" → Shape e s t
  imports : e ≡ "IMPORTS" → s ≡ "MODULE" → t ≡ "IMPORT" → Shape e s t

-- A node of an identifier and a type.
abbrev pub Has : List UcgNodeRaw → ℕ → String → Type 0
Has nodes i t = (n : UcgNodeRaw) × Memᴰ n nodes × (n.id ≡ i) × (n.node_type ≡ t)

-- An edge whose ends are nodes of the types that its own type allows.
abbrev pub Typed : List UcgNodeRaw → UcgEdgeRaw → Type 0
Typed nodes e =
    (s : String) × (t : String) × Has nodes e.source_node_id s
    × Has nodes e.target_node_id t
    × Shape e.edge_type s t

abbrev pub has_id : ℕ → UcgNodeRaw → Bool
has_id i n = n.id == i

count-none :
    (i : ℕ) (nodes : List UcgNodeRaw)
    → ((n : UcgNodeRaw) → Memᴰ n nodes → n.id < i)
    → count_if (has_id i) nodes ≡ 0
count-none i [] h = refl
count-none i (n ∷ nodes) h =
    let later = count-none i nodes (λ m q. h m (Memᴰ.tail q)) in
    let less = h n (Memᴰ.head refl) in ground (arith, later, less)

pub count-some :
    (i : ℕ) (n : UcgNodeRaw) (nodes : List UcgNodeRaw)
    → Memᴰ n nodes
    → n.id ≡ i
    → 1 ≤ count_if (has_id i) nodes
count-some i n [] m e = absurd (Memᴰ.not-nil m)
count-some i n (x ∷ nodes) m e = elim (Memᴰ.cases_cons m) [
  | inl same ↦ let q : x.id ≡ i = ap (λ (y : UcgNodeRaw). y.id) (sym same) ∙ e in ground (arith, q)
  | inr later ↦ ground (arith, count-some i n nodes later e)
]

-- Two nodes of one identifier are one node.
pub once-same :
    (n m : UcgNodeRaw) (nodes : List UcgNodeRaw)
    → count_if (has_id n.id) nodes ≤ 1
    → Memᴰ n nodes
    → Memᴰ m nodes
    → m.id ≡ n.id
    → n ≡ m
once-same n m [] h hn hm e = absurd (Memᴰ.not-nil hn)
once-same n m (x ∷ nodes) h hn hm e = elim (Memᴰ.cases_cons hn) [
  | inl p ↦ elim (Memᴰ.cases_cons hm) [
    | inl q ↦ p ∙ sym q
    | inr later ↦
        let more = count-some n.id m nodes later e in
        let same : x.id ≡ n.id = ap (λ (y : UcgNodeRaw). y.id) (sym p) in
        absurd (ground (arith, h, more, same))
  ]
  | inr later ↦ elim (Memᴰ.cases_cons hm) [
    | inl q ↦
        let more = count-some n.id n nodes later refl in
        let same : x.id ≡ n.id = ap (λ (y : UcgNodeRaw). y.id) (sym q) ∙ e in
        absurd (ground (arith, h, more, same))
    | inr later' ↦ once-same n m nodes (ground (arith, h)) later later' e
  ]
]

pub record IsGraph (s : State) : Type 0 where
  pub below : (n : UcgNodeRaw) → Memᴰ n s.nodes → n.id < s.next
  pub once : (i : ℕ) → count_if (has_id i) s.nodes ≤ 1
  pub typed : (e : UcgEdgeRaw) → Memᴰ e s.edges → Typed s.nodes e

abbrev pub Within : State → State → Type 0
Within s t = (n : UcgNodeRaw) → Memᴰ n s.nodes → Memᴰ n t.nodes

-- A step keeps the graph in order and keeps its nodes.
abbrev pub Grown : State → State → Type 0
Grown s t = IsGraph t × Within s t

pub Has-Within : (s t : State) (i : ℕ) (k : String) → Within s t → Has s.nodes i k → Has t.nodes i k
Has-Within s t i k w (n, m, e, q) = (n, w n m, e, q)

pub Grown-trans : (s t u : State) → Grown s t → Grown t u → Grown s u
Grown-trans s t u (g, w) (h, v) = (h, λ n m. v n (w n m))

-- What a function that makes nodes makes: a node of that identifier and of this type.
abbrev pub Makes : (ℕ → UcgNodeRaw) → String → Type 0
Makes make k = (i : ℕ) → ((make i).id ≡ i) × ((make i).node_type ≡ k)

module _ (make : ℕ → UcgNodeRaw) (k : String) (makes : Makes make k) (s : State) where
  emit-Within : Within s (emit make s)
  emit-Within n m = Memᴰ.append_left _ m

  pub emit-Has : Has (emit make s).nodes s.next k
  emit-Has =
      (make s.next, Memᴰ.append_right s.nodes (Memᴰ.head refl), (makes s.next).0, (makes s.next).1)

  emitted : (n : UcgNodeRaw) → Memᴰ n (emit make s).nodes → Memᴰ n s.nodes ⊎ (n ≡ make s.next)
  emitted n m = elim (Memᴰ.append_cases s.nodes m) [
    | inl old ↦ inl old
    | inr new ↦ inr (Memᴰ.eq_of_singleton new)
  ]

  pub emit-Grown : IsGraph s → Grown s (emit make s)
  emit-Grown g =
      let fresh : (make s.next).id ≡ s.next = (makes s.next).0 in
      (
        record {
          below = λ n m. elim (emitted n m) [
            | inl old ↦ omega (arith, g.below n old)
            | inr new ↦ omega (arith, ap (λ (x : UcgNodeRaw). x.id) new, fresh)
          ];
          once = λ i.
              let sum = count_if-append (has_id i) s.nodes (make s.next ∷ []) in
              elim (Bool-cases ((make s.next).id == i)) [
                | inl same ↦
                    let e : s.next ≡ i = sym fresh ∙ (==_iff (make s.next).id i).0 same in
                    let none = count-none i s.nodes (λ n m. omega (arith, g.below n m, e)) in
                    rw (sum, same) (omega (arith, none))
                | inr other ↦ rw (sum, other) (omega (arith, g.once i))
              ];
          typed = λ e m.
              let (a, b, x, y, shape) = g.typed e m in
              (
                a,
                b,
                Has-Within s (emit make s) _ a emit-Within x,
                Has-Within s (emit make s) _ b emit-Within y,
                shape,
              );
        },
        emit-Within,
      )

module _ (edge_type : String) (source target : ℕ) (a b : String) (s : State) where
  pub link-Grown :
      Has s.nodes source a
      → Has s.nodes target b
      → Shape edge_type a b
      → IsGraph s
      → Grown s (link edge_type source target s)
  link-Grown x y shape g = (
    record {
      below = g.below;
      once = g.once;
      typed = λ e m. elim (Memᴰ.append_cases s.edges m) [
        | inl old ↦ g.typed e old
        | inr new ↦ let q = Memᴰ.eq_of_singleton new in (a, b, rw q x, rw q y, rw q shape)
      ];
    },
    λ n m. m,
  )

module _ (make : ℕ → UcgNodeRaw) (k : String) (makes : Makes make k) (parent : ℕ) (a : String)
    (s : State) where
  pub emit_under-Grown :
      (edge_type : String)
      → Shape edge_type a k
      → Has s.nodes parent a
      → IsGraph s
      → Grown s (emit_under edge_type parent make s)
        × Has (emit_under edge_type parent make s).nodes s.next k
  unfolding emit_under
  emit_under-Grown edge_type shape h g =
      let (g', w) = emit-Grown make k makes s g in
      let new = emit-Has make k makes s in
      (
        Grown-trans s (emit make s) (emit_under edge_type parent make s) (g', w)
            (link-Grown edge_type parent s.next a k (emit make s)
              (Has-Within s (emit make s) parent a w h) new shape g'),
        new,
      )

  pub emit_defined-Grown :
      (file : ℕ)
      → Shape "CONTAINS" a k
      → Has s.nodes parent a
      → Has s.nodes file "FILE"
      → IsGraph s
      → Grown s (emit_defined parent file make s)
        × Has (emit_defined parent file make s).nodes s.next k
  unfolding emit_defined
  emit_defined-Grown file shape h f g =
      let under = emit_under "CONTAINS" parent make s in
      let ((g', w), new) = emit_under-Grown "CONTAINS" shape h g in
      (
        Grown-trans s under (emit_defined parent file make s) (g', w)
            (link-Grown "DEFINED_IN" s.next file k "FILE" under new
              (Has-Within s under file "FILE" w f) (Shape.defined_in refl refl) g'),
        new,
      )
