-- ===== src/Mapper/Tallies.antt =====
-- The rows that the edge table may hold.
use mathlib.Core.List.{Sublistᴰ}
use ai_project.Prelude.{
  ℕ, ◌+◌, ◌≤◌, ◌≡◌, ◌≢◌, sym, ap, ◌∙◌, inl, inr, String, false, List, [], ◌∷◌, map, str_eq, eq_iff,
  str_eq_sym, Bool-cases, if◌then◌else◌, arith, All, All-append, subst,
}
use ai_project.Mapper.{UcgEdgeRaw, get, bump}
use ai_project.Mapper.Store.{EdgeRow, edge_row, is_self_loop, proper, Db, Context, parse_all, run}
use ai_project.Mapper.Stored.{store-Stores, run-cases}

-- What the database demands of an edge: its ends differ and its weight is positive.
abbrev pub Proper : EdgeRow → Type 0
Proper r = (r.raw.source_node_id ≢ r.raw.target_node_id) × (1 ≤ r.raw.weight)

rows-Proper :
    (job_id : ℕ) (edges : List UcgEdgeRaw) → All Proper (map (edge_row job_id) (proper edges))
unfolding edge_row
rows-Proper job_id [] = tt
rows-Proper job_id (e ∷ edges) = elim (Bool-cases (is_self_loop e)) [
  | inl loop ↦ rw loop (rows-Proper job_id edges)
  | inr different ↦ rw different ((λ same. ground arith, omega arith), rows-Proper job_id edges)
]

Sublist-All {ℓ κ} :
    {A : Type ℓ} (P : A → Type κ) (xs ys : List A) → Sublistᴰ xs ys → All P ys → All P xs
Sublist-All P [] ys s h = tt
Sublist-All P (x ∷ xs) [] s h = elim s [ ]
Sublist-All P (x ∷ xs) (y ∷ ys) (Sublistᴰ.cons s) (h, hs) = Sublist-All P (x ∷ xs) ys s hs
Sublist-All P (x ∷ xs) (y ∷ ys) (Sublistᴰ.cons-cons e s) (h, hs) =
    (subst P (sym e) h, Sublist-All P xs ys s hs)

-- A run keeps the edge table in order, whatever statements the database refuses: when every edge
-- in it joins two different nodes and has a positive weight, so does every edge after the run,
-- whatever edges the adapters report.
pub run-Proper :
    (c : Context) (db : Db)
    → All Proper db.edges
    → let (stats, errors, after) = run c db in All Proper after.edges
run-Proper c db h =
    run-cases c db (λ langs r. let (stats, errors, after) = r in All Proper after.edges) h
      (λ l ls.
        let (nodes, (stored, below, above, grown, counted), columns) =
          store-Stores c db (λ r. false) (λ r table e. absurd (cc)) (λ r. false)
            (λ r nodes table e. absurd (cc)) (parse_all c) in
        subst (All Proper) (sym grown) (
          All-append Proper db.edges stored h
            (Sublist-All Proper stored _ above (rows-Proper c.job_id (parse_all c).edges))))

pub get-bump :
    (t k : String) (d : List (String × ℕ))
    → get 0 t (bump k d) ≡ get 0 t d + (if str_eq k t then 1 else 0)
unfolding get bump
get-bump t k [] = ground arith
get-bump t k ((j, n) ∷ d) = elim (Bool-cases (str_eq j k)) [
  | inl e ↦
      let same : str_eq k t ≡ str_eq j t = ap (λ s. str_eq s t) (sym ((eq_iff j k).0 e)) in
      rw (e, same) (ground arith)
  | inr e ↦ elim (Bool-cases (str_eq j t)) [
    | inl q ↦
        let other : str_eq k t ≡ false =
          ap (str_eq k) (sym ((eq_iff j t).0 q)) ∙ str_eq_sym k j ∙ e in
        rw (e, q, other) (omega arith)
    | inr q ↦ rw (e, q) (get-bump t k d)
  ]
]
