-- ===== src/Smells/Rules.antt =====
-- What the rules of the smell detector report.
use mathlib.Core.List.{Memᴰ}
use mathlib.Core.List.Memᴰ
use ai_project.Prelude.{
  ℕ, ◌+◌, ◌-◌, ◌<◌, ◌≡◌, ◌↔◌, refl, sym, ap, ◌∙◌, inl, inr, Bool, true, Option, none, some, List,
  [], ◌∷◌, ◌++◌, keep, any, ltb, ltb→lt, lt→ltb, arith, Bool-cases, Option-cases,
}
use ai_project.Smells.{
  UcgNode, UcgEdge, SmellResult, collect, compute_loc, is_class, large_class, smell_on, no_evidence,
}

module _ (rule : UcgNode → Option SmellResult) where
  -- The results of a loop are those of its elements.
  collect-Mem :
      (x : SmellResult) (nodes : List UcgNode)
      → Memᴰ x (collect rule nodes)
      → (n : UcgNode) × Memᴰ n nodes × (rule n ≡ some x)
  collect-Mem x [] m = absurd (Memᴰ.not-nil m)
  collect-Mem x (n ∷ nodes) m = elim (Option-cases (rule n)) [
    | inl nothing ↦
        let (k, mem, e) = collect-Mem x nodes (rw (collect, nothing) at m) in (k, Memᴰ.tail mem, e)
    | inr (s, found) ↦
        let m' : Memᴰ x (s ∷ collect rule nodes) = rw (collect, found) at m in
        elim (Memᴰ.cases_cons m') [
          | inl e ↦ (n, Memᴰ.head refl, found ∙ ap some (sym e))
          | inr later ↦ let (k, mem, e) = collect-Mem x nodes later in (k, Memᴰ.tail mem, e)
        ]
  ]

  Mem-collect :
      (x : SmellResult) (n : UcgNode) (nodes : List UcgNode)
      → Memᴰ n nodes
      → rule n ≡ some x
      → Memᴰ x (collect rule nodes)
  Mem-collect x n [] m h = absurd (Memᴰ.not-nil m)
  Mem-collect x n (k ∷ nodes) m h = elim (Memᴰ.cases_cons m) [
    | inl e ↦ rw (sym e, collect, h) (Memᴰ.head refl)
    | inr later ↦ elim (Option-cases (rule k)) [
      | inl nothing ↦ rw (collect, nothing) (Mem-collect x n nodes later h)
      | inr (s, found) ↦ rw (collect, found) (Memᴰ.tail (Mem-collect x n nodes later h))
    ]
  ]

any-append : (p : UcgEdge → Bool) (xs ys : List UcgEdge) → any p xs ≡ true → any p (xs ++ ys) ≡ true
any-append p [] ys h = cc
any-append p (x ∷ xs) ys h = ground (arith, any-append p xs ys)

-- The lines of a class, where both of its ends are known.
abbrev pub Spans : UcgNode → ℕ → Type 0
Spans n lines =
    (first : ℕ) × (last : ℕ) × (n.line_start ≡ some first)
    × (n.line_end ≡ some last)
    × (first + lines ≡ last + 1)

compute_loc-Spans : (n : UcgNode) → 0 < compute_loc n → Spans n (compute_loc n)
unfolding compute_loc
compute_loc-Spans n h = elim (Option-cases n.line_start) [
  | inl nothing ↦ absurd (let bad : 0 < 0 = rw (compute_loc, nothing) at h in omega arith)
  | inr (first, e) ↦ elim (Option-cases n.line_end) [
    | inl nothing ↦ absurd (let bad : 0 < 0 = rw (compute_loc, e, nothing) at h in omega arith)
    | inr (last, q) ↦
        let loc : compute_loc n ≡ last + 1 - first = rw (compute_loc, e, q) refl in
        (first, last, e, q, omega (arith, loc, h))
  ]
]

Spans-compute_loc : (n : UcgNode) (lines : ℕ) → Spans n lines → compute_loc n ≡ lines
unfolding compute_loc
Spans-compute_loc n lines (first, last, e, q, sum) = rw (compute_loc, e, q) (omega (arith, sum))

-- A class is reported as large exactly when the graph has it with both of its line numbers, and its
-- lines, first and last included, are more than 300.
large_class_iff :
    (nodes : List UcgNode) (s : SmellResult)
    → Memᴰ s (collect large_class (keep is_class nodes)) ↔ (
        (n : UcgNode) × (lines : ℕ) × Memᴰ n (keep is_class nodes)
        × Spans n lines
        × (300 < lines)
        × (s ≡ smell_on "large_class" "medium" 80 n.id (record no_evidence { loc = some lines })))
unfolding large_class
large_class_iff nodes s = (
  λ m.
      let (n, mem, h) = collect-Mem large_class s (keep is_class nodes) m in
      elim (Bool-cases (ltb 300 (compute_loc n))) [
        | inr small ↦ absurd (let bad : none ≡ some s = rw (large_class, small) at h in cc)
        | inl large ↦
            let e : smell_on "large_class" "medium" 80 n.id
                  (record no_evidence { loc = some (compute_loc n) })
                ≡ s =
              cc (rw (large_class, large) at h) in
            let lt = ltb→lt 300 (compute_loc n) large in
            (n, compute_loc n, mem, compute_loc-Spans n (omega (arith, lt)), lt, sym e)
      ],
  λ (n, lines, mem, spans, lt, e). Mem-collect large_class s n (keep is_class nodes) mem (
      let loc = Spans-compute_loc n lines spans in
      rw (large_class, loc, lt→ltb 300 lines lt) (ap some (sym e))),
)
