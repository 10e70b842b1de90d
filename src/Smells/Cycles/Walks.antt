-- ===== src/Smells/Cycles/Walks.antt =====
-- Walks along a neighbour function, and the nodes that a search has not visited.
use ai_project.Prelude.{
  ℕ, ◌≤◌, ◌<◌, ◌≡◌, refl, sym, ap, subst, inl, inr, true, false, not, List, [], ◌∷◌, ◌++◌, ◌==◌,
  elem, count_if, length, arith, Bool-cases, ==_iff,
}
use ai_project.Smells.Cycles.{from_first, pop}

module _ (neighbors : ℕ → List ℕ) where
  abbrev pub Edge : ℕ → ℕ → Type 0
  Edge a b = elem b (neighbors a) ≡ true

  -- The list is a walk from `a` to `b`, both included.
  pub data Walk : ℕ → ℕ → List ℕ → Type 0 where
    here : (a : ℕ) → Walk a a (a ∷ [])
    step : (a b c : ℕ) (xs : List ℕ) → Edge a b → Walk b c xs → Walk a c (a ∷ xs)

  -- A list of at least two nodes, each with an edge to the next, and the last to the first.
  pub record IsCycle (c : List ℕ) : Type 0 where
    pub first : ℕ
    pub last : ℕ
    pub walk : Walk first last c
    pub closes : Edge last first
    pub long : 2 ≤ length c

  pub Walk-append : (a b c : ℕ) (xs : List ℕ) → Walk a b xs → Edge b c → Walk a c (xs ++ c ∷ [])
  Walk-append a b c xs (here _) e = step a c c (c ∷ []) e (here c)
  Walk-append a b c xs (step _ b' _ ys e' w) e =
      step a b' c (ys ++ c ∷ []) e' (Walk-append b' b c ys w e)

  pub Walk-from_first :
      (a b n : ℕ) (xs : List ℕ) → Walk a b xs → elem n xs ≡ true → Walk n b (from_first n xs)
  unfolding from_first
  Walk-from_first a b n xs (here _) m = elim (Bool-cases (n == a)) [
    | inl same ↦
        let e : n ≡ a = (==_iff n a).0 same in
        rw (from_first, same) (subst (λ x. Walk x a (a ∷ [])) (sym e) (here a))
    | inr other ↦ absurd (let bad : false ≡ true = rw other at m in cc)
  ]
  Walk-from_first a b n xs (step _ b' _ ys e w) m = elim (Bool-cases (n == a)) [
    | inl same ↦
        let q : n ≡ a = (==_iff n a).0 same in
        rw (from_first, same) (subst (λ x. Walk x b (a ∷ ys)) (sym q) (step a b' b ys e w))
    | inr other ↦ rw (from_first, other) (Walk-from_first b' b n ys w (rw other at m))
  ]

pub pop-append : (xs : List ℕ) (n : ℕ) → pop (xs ++ n ∷ []) ≡ xs
unfolding pop
pop-append [] n = refl
pop-append (x ∷ []) n = refl
pop-append (x ∷ y ∷ xs) n = ap (λ l. x ∷ l) (pop-append (y ∷ xs) n)

-- The nodes of a list that are not visited.
abbrev pub unseen : List ℕ → List ℕ → ℕ
unseen visited nodes = count_if (λ u. not (elem u visited)) nodes

unseen-cons : (n : ℕ) (visited nodes : List ℕ) → unseen (n ∷ visited) nodes ≤ unseen visited nodes
unseen-cons n visited [] = omega arith
unseen-cons n visited (u ∷ nodes) = ground (arith, unseen-cons n visited nodes)

-- Visiting a new node leaves fewer unseen ones.
pub unseen-visit :
    (n : ℕ) (visited nodes : List ℕ)
    → elem n nodes ≡ true
    → elem n visited ≡ false
    → unseen (n ∷ visited) nodes < unseen visited nodes
unseen-visit n visited [] m new = cc
unseen-visit n visited (u ∷ nodes) m new = elim (Bool-cases (n == u)) [
  | inl same ↦
      let e : n ≡ u = (==_iff n u).0 same in
      let old : elem u visited ≡ false = subst (λ x. elem x visited ≡ false) e new in
      let le = unseen-cons n visited nodes in
      let q : (u == n) ≡ true = (==_iff u n).1 (sym e) in rw (q, old) (omega (arith, le))
  | inr other ↦ let ih = unseen-visit n visited nodes (rw other at m) new in ground (arith, ih)
]
