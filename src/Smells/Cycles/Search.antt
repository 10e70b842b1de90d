-- ===== src/Smells/Cycles/Search.antt =====
-- The search for cyclic dependencies ends, and reports cycles only.
use ai_project.Prelude.{
  ℕ, zero, suc, ◌≤◌, ◌≡◌, refl, sym, ap, subst, ◌∙◌, inl, inr, Bool, true, false, not, ◌&&◌, ◌||◌,
  Option, some, List, [], ◌∷◌, ◌++◌, ◌==◌, elem, keep, any, length, leb, arith, Bool-cases, All,
  All-append, elem-append, count_if-le-length,
}
use ai_project.Smells.Cycles.{
  Dfs, start, from_first, same_set, pop, report, enter, leave, visit, each, dfs, from_roots,
}
use ai_project.Smells.Cycles.Walks.{
  Edge, Walk, here, IsCycle, Walk-append, Walk-from_first, pop-append, unseen, unseen-visit,
}

elem-keep-other :
    (x n : ℕ) (xs : List ℕ)
    → elem x (keep (λ y. not (y == n)) xs) ≡ true
    → (elem x xs ≡ true) × ((x == n) ≡ false)
elem-keep-other x n [] m = cc
elem-keep-other x n (y ∷ xs) m = ground (arith, elem-keep-other x n xs)

or_true : (b : Bool) → (b || (true || false)) ≡ true
or_true true = refl
or_true false = refl

drop_or : (b c : Bool) → (b || (c || false)) ≡ true → c ≡ false → b ≡ true
drop_or true c h e = refl
drop_or false true h e = absurd (cc)
drop_or false false h e = h

All-subset :
    (ys zs : List ℕ)
    → ((x : ℕ) → elem x ys ≡ true → elem x zs ≡ true)
    → All (λ x. elem x zs ≡ true) ys
All-subset [] zs h = tt
All-subset (y ∷ ys) zs h = (h y (ground arith), All-subset ys zs (λ x m. h x (ground arith)))

All-elem : (xs : List ℕ) → All (λ x. elem x xs ≡ true) xs
All-elem xs = All-subset xs xs (λ x m. m)

module _ (neighbors : ℕ → List ℕ) (nodes : List ℕ)
    (inside : (a b : ℕ) → Edge neighbors a b → elem b nodes ≡ true) where
  -- What holds of the shared variables whenever a call begins or ends.
  record IsSearch (s : Dfs) : Type 0 where
    on_path : (x : ℕ) → elem x s.rec_stack ≡ true → elem x s.path ≡ true
    cycles : All (IsCycle neighbors) s.results

  -- How a call that returns leaves them.
  record Ran (s s' : Dfs) : Type 0 where
    same_path : s'.path ≡ s.path
    fewer : unseen s'.visited nodes ≤ unseen s.visited nodes
    sound : IsSearch s'

  abbrev At : ℕ → Dfs → Type 0
  At node s = (a : ℕ) × Walk neighbors a node s.path

  -- A call on a new node with enough fuel returns.
  abbrev Calls : ℕ → (ℕ → Dfs → Option Dfs) → Type 0
  Calls fuel go =
      (n : ℕ) (s : Dfs)
      → elem n nodes ≡ true
      → elem n s.visited ≡ false
      → unseen s.visited nodes ≤ fuel
      → IsSearch s
      → ((a : ℕ) × Walk neighbors a n (s.path ++ n ∷ []))
      → (s' : Dfs) × (go n s ≡ some s') × Ran s s'

  report-Ran :
      (node n : ℕ) (s : Dfs)
      → IsSearch s
      → At node s
      → Edge neighbors node n
      → elem n s.rec_stack ≡ true
      → Ran s (report n s)
  unfolding report
  report-Ran node n s h (a, w) e m =
      let c = from_first n s.path in
      elim (Bool-cases (not (any (same_set c) s.cycles_found) && leb 2 (length c))) [
        | inr old ↦ rw (report, old) (record { same_path = refl; fewer = omega arith; sound = h })
        | inl new ↦
            let long : 2 ≤ length c = ground arith in
            let cycle : IsCycle neighbors c = record {
              first = n;
              last = node;
              walk = Walk-from_first neighbors a node n s.path w (h.on_path n m);
              closes = e;
              long = long;
            } in
            rw (report, new)
              (record {
                same_path = refl;
                fewer = omega arith;
                sound = record {
                  on_path = h.on_path;
                  cycles = All-append (IsCycle neighbors) s.results (c ∷ []) h.cycles (cycle, tt);
                };
              })
      ]

  Ran-trans : (s t u : Dfs) → Ran s t → Ran t u → Ran s u
  Ran-trans s t u p q = record {
    same_path = q.same_path ∙ p.same_path;
    fewer = omega (arith, p.fewer, q.fewer);
    sound = q.sound;
  }

  visit-Ran :
      (fuel : ℕ) (go : ℕ → Dfs → Option Dfs) (node n : ℕ) (s : Dfs)
      → Calls fuel go
      → unseen s.visited nodes ≤ fuel
      → IsSearch s
      → At node s
      → Edge neighbors node n
      → (s' : Dfs) × (visit go n s ≡ some s') × Ran s s'
  unfolding visit
  visit-Ran fuel go node n s calls le h (a, w) e = elim (Bool-cases (elem n s.visited)) [
    | inr new ↦
        let (s', q, ran) =
          calls n s (inside node n e) new le h (a, Walk-append neighbors a node n s.path w e) in
        (s', rw (visit, new) q, ran)
    | inl old ↦ elim (Bool-cases (elem n s.rec_stack)) [
      | inl active ↦
          (report n s, rw (visit, old, active) refl, report-Ran node n s h (a, w) e active)
      | inr closed ↦ (
        s,
        rw (visit, old, closed) refl,
        record { same_path = refl; fewer = omega arith; sound = h },
      )
    ]
  ]

  each-Ran :
      (fuel : ℕ) (go : ℕ → Dfs → Option Dfs) (node : ℕ) (ns : List ℕ) (s : Dfs)
      → Calls fuel go
      → unseen s.visited nodes ≤ fuel
      → IsSearch s
      → At node s
      → All (Edge neighbors node) ns
      → (s' : Dfs) × (each go ns s ≡ some s') × Ran s s'
  unfolding each
  each-Ran fuel go node [] s calls le h at es =
      (s, refl, record { same_path = refl; fewer = omega arith; sound = h })
  each-Ran fuel go node (n ∷ ns) s calls le h at es =
      let (s', q, ran) = visit-Ran fuel go node n s calls le h at es.0 in
      let at' : At node s' =
        (at.0, subst (λ p. Walk neighbors at.0 node p) (sym ran.same_path) at.1) in
      let (s'', q', ran') =
        each-Ran fuel go node ns s' calls (omega (arith, le, ran.fewer)) ran.sound at' es.1 in
      (s'', rw (each, q) q', Ran-trans s s' s'' ran ran')

  enter-IsSearch : (n : ℕ) (s : Dfs) → IsSearch s → IsSearch (enter n s)
  unfolding enter
  enter-IsSearch n s h = record {
    on_path = λ x m.
        let e = elem-append x s.path (n ∷ []) in
        elim (Bool-cases (x == n)) [
          | inl same ↦ e ∙ rw same (or_true (elem x s.path))
          | inr other ↦ e ∙ rw (h.on_path x (rw other at m)) refl
        ];
    cycles = h.cycles;
  }

  leave-Ran :
      (n : ℕ) (s t : Dfs)
      → elem n nodes ≡ true
      → elem n s.visited ≡ false
      → Ran (enter n s) t
      → Ran s (leave n t)
  unfolding enter leave
  leave-Ran n s t m new ran =
      let path : t.path ≡ s.path ++ n ∷ [] = ran.same_path in
      let back : pop t.path ≡ s.path = ap pop path ∙ pop-append s.path n in
      let lt = unseen-visit n s.visited nodes m new in
      let le : unseen t.visited nodes ≤ unseen (n ∷ s.visited) nodes = ran.fewer in
      record {
        same_path = back;
        fewer = omega (arith, lt, le);
        sound = record {
          on_path = λ x k.
              let (in_stack, other) = elem-keep-other x n t.rec_stack k in
              let on : elem x (s.path ++ n ∷ []) ≡ true =
                subst (λ p. elem x p ≡ true) path (ran.sound.on_path x in_stack) in
              subst (λ p. elem x p ≡ true) (sym back)
                (drop_or (elem x s.path) (x == n) (sym (elem-append x s.path (n ∷ [])) ∙ on) other);
          cycles = ran.sound.cycles;
        };
      }

  dfs-Calls : (fuel : ℕ) → Calls fuel (dfs neighbors fuel)
  unfolding dfs enter
  dfs-Calls zero n s m new le h (a, w) =
      absurd (let lt = unseen-visit n s.visited nodes m new in omega (arith, lt, le))
  dfs-Calls (suc fuel) n s m new le h (a, w) =
      let lt = unseen-visit n s.visited nodes m new in
      let (t, q, ran) =
        each-Ran fuel (dfs neighbors fuel) n (neighbors n) (enter n s) (dfs-Calls fuel)
          (omega (arith, lt, le)) (enter-IsSearch n s h) (a, w) (All-elem (neighbors n)) in
      (leave n t, rw (dfs, q) refl, leave-Ran n s t m new ran)

  from_roots_sound :
      (roots : List ℕ) (s : Dfs)
      → All (λ r. elem r nodes ≡ true) roots
      → unseen s.visited nodes ≤ length nodes
      → IsSearch s
      → s.path ≡ []
      → (s' : Dfs) × (from_roots neighbors (length nodes) roots s ≡ some s')
        × All (IsCycle neighbors) s'.results
  unfolding from_roots
  from_roots_sound [] s ms le h e = (s, refl, h.cycles)
  from_roots_sound (r ∷ roots) s ms le h e = elim (Bool-cases (elem r s.visited)) [
    | inl old ↦
        let (s', q, cycles) = from_roots_sound roots s ms.1 le h e in
        (s', rw (from_roots, old) q, cycles)
    | inr new ↦
        let s₀ : Dfs = record s { path = [] } in
        let h₀ : IsSearch s₀ = record {
          on_path = λ x m. subst (λ p. elem x p ≡ true) e (h.on_path x m);
          cycles = h.cycles;
        } in
        let (t, q, ran) = dfs-Calls (length nodes) r s₀ ms.0 new le h₀ (r, here r) in
        let (s', q', cycles) =
          from_roots_sound roots t ms.1 (omega (arith, le, ran.fewer)) ran.sound ran.same_path in
        (s', rw (from_roots, new, q) q', cycles)
  ]

  -- From no visited node, with the number of nodes for fuel, the search returns, with cycles only.
  pub from_roots-reports :
      (roots : List ℕ)
      → ((x : ℕ) → elem x roots ≡ true → elem x nodes ≡ true)
      → (s : Dfs) × (from_roots neighbors (length nodes) roots start ≡ some s)
        × All (IsCycle neighbors) s.results
  from_roots-reports roots inside_roots =
      from_roots_sound roots start (All-subset roots nodes inside_roots)
        (count_if-le-length (λ u. not (elem u [])) nodes)
        (record { on_path = λ x m. absurd (cc); cycles = tt }) refl
