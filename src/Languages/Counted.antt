-- ===== src/Languages/Counted.antt =====
-- What the detector of backend/app/agents/language_detector.py counts.
use ai_project.Prelude.{
  ℕ, zero, suc, ◌+◌, ◌≡◌, refl, sym, ap, ◌∙◌, inl, inr, String, Bool, true, false, none, some, List,
  lower, str_eq, eq_iff, total_of, count_if, length, ◌⊎◌, Option, count_if-total_of, if◌then◌else◌,
  Option-cases, arith,
}
use ai_project.Mapper.{Item, language_of}
use ai_project.Mapper.Files.{is_in}
use ai_project.Languages.{
  LanguageInfo, no_files, walk, add_file, Manifests, detect, Detected, DetectedRow, or_none,
  persist_results, run,
}
use ai_project.Languages.Totals.{gain_of, total_of-same, counted-total, run-total}

-- The files, and the lines, that an entry of a language counts.
abbrev pub files_of : String → LanguageInfo → ℕ
files_of l i = if str_eq i.language l then i.file_count else 0

abbrev pub lines_of : LanguageInfo → ℕ
lines_of i = i.total_lines

files_of-add_file :
    (count_lines : Item → ℕ) (l lang : String) (item : Item) (i : LanguageInfo)
    → str_eq i.language lang ≡ true
    → files_of l (add_file (lower item.suffix) (count_lines item) i)
      ≡ files_of l i + (if str_eq lang l then 1 else 0)
unfolding add_file
files_of-add_file count_lines l lang item i h =
    let same : str_eq lang l ≡ str_eq i.language l =
      ap (λ s. str_eq s l) (sym ((eq_iff i.language lang).0 h)) in
    rw same (ground arith)

gain-is_in :
    (l : String) (i : Item)
    → gain_of (λ lang item. if str_eq lang l then 1 else 0) i ≡ (if is_in l i then 1 else 0)
gain-is_in l i = elim (Option-cases (language_of i)) [
  | inl unknown ↦ rw (gain_of, is_in, unknown) refl
  | inr (lang, known) ↦ rw (gain_of, is_in, known) refl
]

no_files_of : (l lang : String) → files_of l (no_files lang) ≡ 0
no_files_of l lang = ground arith

abbrev pub value : Option ℕ → ℕ
value none = 0
value (some n) = n

value-or_none : (n : ℕ) → value (or_none n) ≡ n
value-or_none zero = refl
value-or_none (suc n) = ground arith

persist_results-or_keeps :
    (accepted : Bool) (d : Detected) (row : DetectedRow)
    → let after = persist_results accepted d row in
      (after ≡ row)
      ⊎ ((value after.file_count ≡ d.total_files) × (value after.total_lines ≡ d.total_lines))
unfolding persist_results
persist_results-or_keeps true d row = inr (value-or_none d.total_files, value-or_none d.total_lines)
persist_results-or_keeps false d row = inl refl

-- The number of files that the detector reports for a language, whichever it is, is that of the walked
-- files with a suffix of it: the manifests, which may add languages and name frameworks, count no file,
-- and the sort loses none. The lines reported are those of the walked files whose suffix stands for a
-- language. The job's row keeps its values, or it has the number of all walked files and of these
-- lines, where no value reads as 0.
pub run-counts_files :
    (accepted : Bool) (count_lines : Item → ℕ) (root : List String) (items : List Item)
    (m : Manifests) (row : DetectedRow) (l : String)
    → let outcome = run accepted count_lines root items m row in
      let detected = outcome.0 in
      let files = walk root items in
      let lines = total_of (gain_of (λ lang i. count_lines i)) files in
      (total_of (files_of l) detected.languages ≡ count_if (is_in l) files)
      × (detected.total_lines ≡ lines)
      × ((outcome.1 ≡ row)
          ⊎ ((value outcome.1.file_count ≡ length files) × (value outcome.1.total_lines ≡ lines)))
unfolding run detect add_file
run-counts_files accepted count_lines root items m row l =
    let files =
      run-total (files_of l) count_lines (λ lang item. if str_eq lang l then 1 else 0)
        (no_files_of l) (λ marks text i. refl) (files_of-add_file count_lines l) root items m in
    let lines =
      counted-total lines_of count_lines (λ lang item. count_lines item) (λ lang. refl)
        (λ marks text i. refl) (λ lang item i h. refl) (walk root items) m in
    (
      files
          ∙ total_of-same (gain_of (λ lang item. if str_eq lang l then 1 else 0))
              (λ i. if is_in l i then 1 else 0) (walk root items) (gain-is_in l)
          ∙ sym (count_if-total_of (is_in l) (walk root items)),
      lines,
      elim (persist_results-or_keeps accepted (detect count_lines root items m) row) [
        | inl kept ↦ inl kept
        | inr (n, k) ↦ inr (n, k ∙ lines)
      ],
    )
