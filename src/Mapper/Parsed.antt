-- ===== src/Mapper/Parsed.antt =====
-- What the adapters are asked, and what becomes of their answers.
use mathlib.Core.List.{append-nil, append_assoc}
use ai_project.Prelude.{
  ◌≡◌, refl, sym, ap, ◌∙◌, inl, inr, ◌⊎◌, String, true, none, some, List, [], ◌∷◌, ◌++◌, keep, map,
  str_eq, eq_iff, Bool-cases, Option-cases, concat, arith, All, All-imply,
}
use ai_project.Mapper.{
  UcgNodeRaw, UcgEdgeRaw, UcgOutput, Item, Adapter, Parsing, parsed, raised, get, get_adapter,
  group, chunks, batch_size, walk_source_files, parse_batch, parse_batches, parse_language,
  chunks_from, parse_languages,
}
use ai_project.Mapper.Files.{is_in, has, get-group}
use ai_project.Mapper.Store.{Context, no_output, parse_all}

abbrev empty : List String → List (String × List Item)
empty langs = map (λ l. (l, [])) langs

get-empty : (l : String) (langs : List String) → get [] l (empty langs) ≡ []
unfolding get
get-empty l [] = refl
get-empty l (k ∷ langs) = elim (Bool-cases (str_eq k l)) [
  | inl e ↦ rw e refl
  | inr e ↦ rw e (get-empty l langs)
]

has-empty : (langs : List String) → All (λ l. has l (empty langs) ≡ true) langs
has-empty [] = tt
has-empty (k ∷ langs) = (
  rw ((eq_iff k k).1 refl) refl,
  All-imply (λ l. has l (empty langs) ≡ true) (λ l. has l (empty (k ∷ langs)) ≡ true)
      (λ l h. rw h (ground arith)) langs (has-empty langs),
)

-- The files of a language that the walk finds.
abbrev pub files_of : Context → String → List Item
files_of c lang = keep (is_in lang) (walk_source_files c.root c.items)

module _ {B : Type 0} (c : Context) (part : Parsing → List B) where
  -- What some files of a language yield, batch after batch, where `part` selects from an answer:
  -- nothing for a language without an adapter.
  abbrev pub yield_of : String → List Item → List B
  yield_of lang files = elim (get_adapter c.creates lang) [
    | none ↦ []
    | some adapter ↦
        concat (map (λ batch. part (c.parse_files adapter batch)) (chunks batch_size files))
  ]

  module _ (sel : UcgOutput → List B)
      (step : (adapter : Adapter) (lang : String) (batch : List Item) (total : UcgOutput)
        → sel (parse_batch c.parse_files c.repo_path adapter lang batch total)
          ≡ sel total ++ part (c.parse_files adapter batch)) where
    sel-parse_batches :
        (adapter : Adapter) (lang : String) (batches : List (List Item)) (total : UcgOutput)
        → sel (parse_batches c.parse_files c.repo_path adapter lang batches total)
          ≡ sel total ++ concat (map (λ batch. part (c.parse_files adapter batch)) batches)
    unfolding parse_batches
    sel-parse_batches adapter lang [] total = sym (append-nil (sel total))
    sel-parse_batches adapter lang (batch ∷ batches) total =
        let rest = concat (map (λ b. part (c.parse_files adapter b)) batches) in
        sel-parse_batches adapter lang batches
          (parse_batch c.parse_files c.repo_path adapter lang batch total)
        ∙ ap (λ xs. xs ++ rest) (step adapter lang batch total)
        ∙ append_assoc (sel total) (part (c.parse_files adapter batch)) rest

    sel-parse_language :
        (lang : String) (files : List Item) (total : UcgOutput)
        → sel (parse_language c.parse_files c.repo_path c.creates lang files total)
          ≡ sel total ++ yield_of lang files
    unfolding parse_language chunks chunks_from
    sel-parse_language lang [] total = elim (Option-cases (get_adapter c.creates lang)) [
      | inl missing ↦ rw (yield_of, missing) (sym (append-nil (sel total)))
      | inr (adapter, found) ↦ rw (yield_of, found) (sym (append-nil (sel total)))
    ]
    sel-parse_language lang (i ∷ files) total = elim (Option-cases (get_adapter c.creates lang)) [
      | inl missing ↦ rw (parse_language, yield_of, missing) (sym (append-nil (sel total)))
      | inr (adapter, found) ↦
          rw (parse_language, yield_of, found)
            (sel-parse_batches adapter lang (chunks batch_size (i ∷ files)) total)
    ]

    sel-parse_languages :
        (by_lang : List (String × List Item)) (langs : List String) (total : UcgOutput)
        → All (λ lang. get [] lang by_lang ≡ files_of c lang) langs
        → sel (parse_languages c.parse_files c.repo_path c.creates by_lang langs total)
          ≡ sel total ++ concat (map (λ lang. yield_of lang (files_of c lang)) langs)
    unfolding parse_languages
    sel-parse_languages by_lang [] total h = sym (append-nil (sel total))
    sel-parse_languages by_lang (lang ∷ langs) total (e, h) =
        let rest = concat (map (λ l. yield_of l (files_of c l)) langs) in
        sel-parse_languages by_lang langs _ h
        ∙ ap (λ xs. xs ++ rest) (rw e (sel-parse_language lang (files_of c lang) total))
        ∙ append_assoc (sel total) (yield_of lang (files_of c lang)) rest

    sel-parse_all :
        sel (parse_all c)
        ≡ sel no_output ++ concat (map (λ l. yield_of l (files_of c l)) c.languages)
    unfolding parse_all
    sel-parse_all =
        let files = walk_source_files c.root c.items in
        sel-parse_languages (group files (empty c.languages)) c.languages no_output (
          All-imply (λ l. has l (empty c.languages) ≡ true)
            (λ l. get [] l (group files (empty c.languages)) ≡ files_of c l)
            (λ l h.
              get-group l files (empty c.languages) h
              ∙ ap (λ xs. xs ++ files_of c l) (get-empty l c.languages))
            c.languages (has-empty c.languages))

abbrev pub nodes_of : Parsing → List UcgNodeRaw
nodes_of (parsed output) = output.nodes
nodes_of (raised message) = []

abbrev pub edges_of : Parsing → List UcgEdgeRaw
edges_of (parsed output) = output.edges
edges_of (raised message) = []

Parsing-cases :
    (a : Parsing)
    → ((output : UcgOutput) × (a ≡ parsed output)) ⊎ ((message : String) × (a ≡ raised message))
Parsing-cases (parsed output) = inl (output, refl)
Parsing-cases (raised message) = inr (message, refl)

-- Each language's adapter, where it has one, is asked once for each batch of 50 of the files that
-- the walk finds for the language, and the nodes and edges are those of its answers, language by
-- language and batch by batch. A batch whose parsing raises contributes none, and changes nothing
-- of what the others contribute.
pub parse_all-yields :
    (c : Context)
    → ((parse_all c).nodes ≡ concat (map (λ l. yield_of c nodes_of l (files_of c l)) c.languages))
      × ((parse_all c).edges ≡ concat (map (λ l. yield_of c edges_of l (files_of c l)) c.languages))
unfolding parse_batch
parse_all-yields c = (
  sel-parse_all c nodes_of (λ output. output.nodes)
      (λ adapter lang batch total. elim (Parsing-cases (c.parse_files adapter batch)) [
        | inl (output, e) ↦ rw (parse_batch, e) refl
        | inr (message, e) ↦ rw (parse_batch, e) (sym (append-nil total.nodes))
      ]),
  sel-parse_all c edges_of (λ output. output.edges)
      (λ adapter lang batch total. elim (Parsing-cases (c.parse_files adapter batch)) [
        | inl (output, e) ↦ rw (parse_batch, e) refl
        | inr (message, e) ↦ rw (parse_batch, e) (sym (append-nil total.edges))
      ]),
)
