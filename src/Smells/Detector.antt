-- ===== src/Smells/Detector.antt =====
-- `SmellDetectorAgent.run` of backend/app/agents/smell_detector.py: all rules in their order, the
-- optional pass through the language model, and the insertion. `enrich` is none where no model is
-- configured or the job does not ask for the pass; `none` is a RecursionError.
use ai_project.Prelude.{
  ℕ, ◌≤◌, inl, inr, arith, ◌≡◌, refl, Bool, Option, none, some, List, ◌++◌, elem, keep, map, length,
  if◌then◌else◌, String,
}
use ai_project.Smells.{
  UcgNode, UcgEdge, SmellResult, collect, is_class, is_function, god_class, large_class,
  long_method, jdbc_usage, dead_code, feature_envy, anemic_domain_model,
}
use ai_project.Smells.Cycles.{detect_cyclic_dependencies, module_nodes}
use ai_project.Smells.Cycles.Reported.{detect_cyclic_dependencies_sound}
use ai_project.Smells.Agent.{enrich_with_llm, with_file, Smell, new_row, store_smells}
use ai_project.Smells.Stored.{accepted, persist_smells_lem}

-- the candidates of the eight rules, with the results of the fifth
unfoldable pub rule_candidates : List UcgNode → List UcgEdge → List SmellResult → List SmellResult
rule_candidates nodes edges cycles =
    let class_nodes = keep is_class nodes in
    let function_nodes = keep is_function nodes in
    collect (god_class nodes edges) class_nodes
    ++ collect large_class class_nodes
    ++ collect long_method function_nodes
    ++ collect jdbc_usage nodes
    ++ cycles
    ++ collect (dead_code edges) nodes
    ++ collect (feature_envy nodes edges) function_nodes
    ++ collect (anemic_domain_model nodes edges) class_nodes

abbrev pub enriched : Option (SmellResult → Option String) → List SmellResult → List SmellResult
enriched none candidates = candidates
enriched (some complete) candidates = enrich_with_llm complete candidates

module _ (frames : ℕ) (order : List ℕ → List ℕ) (enrich : Option (SmellResult → Option String))
    (bulk : List SmellResult → Bool) (row : SmellResult → Bool) (counts : Bool) where
  -- `run`: the count that it returns, the column of the job, and the table
  unfoldable pub run :
      ℕ → List UcgNode → List UcgEdge → Option ℕ → List Smell → Option (ℕ × Option ℕ × List Smell)
  unfolding rule_candidates
  run job_id nodes edges smell_count table =
      elim (detect_cyclic_dependencies frames order nodes edges) [
        | none ↦ none
        | some cycles ↦ some (
            store_smells bulk row counts job_id
              (map (with_file nodes) (enriched enrich (rule_candidates nodes edges cycles)))
              smell_count table)
      ]

  -- A run of the detector returns where there is room for as many open calls of `dfs` as there are
  -- modules and files. It adds to the table the results that the database accepts,
  -- in the order of the candidates, behind the rows that were there, and returns their number, which is
  -- the job's smell count from then on unless that update is refused.
  run-returns :
      (job_id : ℕ) (nodes : List UcgNode) (edges : List UcgEdge) (old : Option ℕ)
      (table : List Smell)
      → length (module_nodes nodes) ≤ frames
      → ((x : ℕ) (xs : List ℕ) → elem x (order xs) ≡ elem x xs)
      → (cycles : List SmellResult) × (detect_cyclic_dependencies frames order nodes edges
          ≡ some cycles)
        × (let candidates =
              map (with_file nodes) (enriched enrich (rule_candidates nodes edges cycles)) in
            let found = accepted bulk row job_id candidates in
            run job_id nodes edges old table
            ≡ some (
              length found,
              (if counts then some (length found) else old),
              table ++ map (new_row job_id) found,
            ))
  unfolding run store_smells
  run-returns job_id nodes edges old table room same =
      let (cycles, by, sound) = detect_cyclic_dependencies_sound order nodes edges same in
      let q : detect_cyclic_dependencies frames order nodes edges ≡ some cycles = elim (by frames) [
        | inl found ↦ found
        | inr (raised, less) ↦ absurd (omega (arith, room, less))
      ] in
      let candidates =
        map (with_file nodes) (enriched enrich (rule_candidates nodes edges cycles)) in
      (
        cycles,
        q,
        rw (run, q, store_smells, persist_smells_lem bulk row job_id candidates table) refl,
      )
