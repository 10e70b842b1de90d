-- ===== src/Archive/Admitted.antt =====
-- Which archives are extracted.
use ai_project.Prelude.{
  ℕ, suc, ◌+◌, ◌≤◌, ◌<◌, ltb→lt, ◌≡◌, ◌↔◌, refl, sym, ◌∙◌, ◌⊎◌, inl, inr, String, Bool, true, false,
  some, List, [], ◌∷◌, All, count_if, length, ltb, starts_with, if◌then◌else◌, Bool-cases,
  Option-cases, arith,
}
use ai_project.Archive.{
  Member, Refusal, Extracted, extracted, refused, too_large, path_traversal, Library, Platform,
  is_safe, check_zip, check_tar, extract_with, extract_members, extract_archive,
  max_files_in_archive, max_uncompressed_bytes,
}

abbrev pub sum_sizes : List Member → ℕ
sum_sizes [] = 0
sum_sizes (m ∷ members) = m.size + sum_sizes members

-- Whether a ZIP or a TAR archive counts a member: the one counts all, the other only files.
abbrev pub is_counted : Bool → Member → Bool
is_counted true m = true
is_counted false m = m.is_file

pub Extracted-cases :
    (e : Extracted) → ((r : Refusal) × (e ≡ refused r)) ⊎ ((n t : ℕ) × (e ≡ extracted n t))
Extracted-cases (refused r) = inl (r, refl)
Extracted-cases (extracted n t) = inr (n, t, refl)

module _ (p : Platform) (dest : String) where
  abbrev pub Safe : List Member → Type 0
  Safe members = All (λ m. is_safe p dest m ≡ true) members

  -- Both loops in one.
  check_by : (Member → Bool) → List Member → ℕ → ℕ → Extracted
  check_by counted [] n total = extracted n total
  check_by counted (m ∷ members) n total =
      let rest = check_by counted members (if counted m then suc n else n) (total + m.size) in
      if ltb max_uncompressed_bytes (total + m.size)
      then refused too_large
      else if is_safe p dest m
      then rest
      else refused path_traversal

  check_zip-by :
      (members : List Member) (n total : ℕ)
      → check_zip p dest members n total ≡ check_by (is_counted true) members n total
  unfolding check_zip check_by
  check_zip-by [] n total = refl
  check_zip-by (m ∷ members) n total =
      let e : m.size + total ≡ total + m.size = omega arith in
      rw (e, check_zip-by members (suc n) (total + m.size)) refl

  check_tar-by :
      (members : List Member) (n total : ℕ)
      → check_tar p dest members n total ≡ check_by (is_counted false) members n total
  unfolding check_tar check_by
  check_tar-by [] n total = refl
  check_tar-by (m ∷ members) n total = rw (check_tar-by members _ (total + m.size)) refl

  -- The members pass, and their numbers are these.
  Passes : (Member → Bool) → List Member → (n total file_count total_bytes : ℕ) → Type 0
  Passes counted members n total file_count total_bytes =
      Safe members
      × (total + sum_sizes members ≤ max_uncompressed_bytes)
      × (file_count ≡ n + count_if counted members)
      × (total_bytes ≡ total + sum_sizes members)

  check_by_iff :
      (counted : Member → Bool) (members : List Member) (n total file_count total_bytes : ℕ)
      → total ≤ max_uncompressed_bytes
      → (check_by counted members n total ≡ extracted file_count total_bytes)
        ↔ Passes counted members n total file_count total_bytes
  unfolding check_by Passes
  check_by_iff counted [] n total file_count total_bytes h = (
    λ e.
        let files : n ≡ file_count = cc in
        let bytes : total ≡ total_bytes = cc in
        (tt, omega arith, omega (arith, files), omega (arith, bytes)),
    λ (s, le, e, q).
        let files : n ≡ file_count = omega (arith, e) in
        let bytes : total ≡ total_bytes = omega (arith, q) in cc,
  )
  check_by_iff counted (m ∷ members) n total file_count total_bytes h =
      elim (Bool-cases (ltb max_uncompressed_bytes (total + m.size))) [
        | inl large ↦
            let above : max_uncompressed_bytes < total + m.size =
              ltb→lt max_uncompressed_bytes (total + m.size) large in
            rw (check_by, large) (λ e. absurd (cc), λ (s, le, e, q). absurd (omega (arith, above)))
        | inr small ↦ elim (Bool-cases (is_safe p dest m)) [
          | inl safe ↦
              let below : total + m.size ≤ max_uncompressed_bytes = ground (arith, small) in
              let (forth, back) =
                check_by_iff counted members (if counted m then suc n else n) (total + m.size)
                  file_count total_bytes below in
              rw (check_by, small, safe)
                (
                  λ e.
                      let (s, le, files, bytes) = forth e in
                      ((refl, s), omega (arith, le), ground (arith, files), omega (arith, bytes)),
                  λ (s, le, files, bytes).
                      back (s.1, omega (arith, le), ground (arith, files), omega (arith, bytes)),
                )
          | inr unsafe ↦
              rw (check_by, small, unsafe) (λ e. absurd (cc), λ (s, le, e, q). absurd (cc s.0))
        ]
      ]

  -- What members may be extracted, for the library and the counting of their format.
  abbrev pub Fit : Library → Bool → String → (file_count total_bytes : ℕ) → List Member → Type 0
  Fit library is_zip content file_count total_bytes members =
      (library.extractall content ≡ true)
      × (length members ≤ max_files_in_archive)
      × (sum_sizes members ≤ max_uncompressed_bytes)
      × Safe members
      × (file_count ≡ count_if (is_counted is_zip) members)
      × (total_bytes ≡ sum_sizes members)

  -- The loop of a format, as its branch calls it.
  abbrev loop_of : Bool → List Member → ℕ → ℕ → Extracted
  loop_of true = check_zip p dest
  loop_of false = check_tar p dest

  loop_of-by :
      (is_zip : Bool) (members : List Member)
      → loop_of is_zip members 0 0 ≡ check_by (is_counted is_zip) members 0 0
  loop_of-by true members = check_zip-by members 0 0
  loop_of-by false members = check_tar-by members 0 0

  module _ (library : Library) (is_zip : Bool) (content : String) (file_count total_bytes : ℕ) where
    extract_members-Fit :
        (members : List Member)
        → extract_members p dest library (loop_of is_zip) content members
          ≡ extracted file_count total_bytes
        → Fit library is_zip content file_count total_bytes members
    unfolding extract_members Passes
    extract_members-Fit members h = elim (Bool-cases (ltb max_files_in_archive (length members))) [
      | inl many ↦ absurd (cc (rw (extract_members, many) at h))
      | inr few ↦ elim (Extracted-cases (loop_of is_zip members 0 0)) [
        | inl (r, q) ↦ absurd (cc (rw (extract_members, few, q) at h))
        | inr (n, t, q) ↦ elim (Bool-cases (library.extractall content)) [
          | inr broken ↦ absurd (cc (rw (extract_members, few, q, broken) at h))
          | inl fine ↦
              let same : extracted n t ≡ extracted file_count total_bytes =
                rw (extract_members, few, q, fine) at h in
              let (s, le, files, bytes) =
                (check_by_iff (is_counted is_zip) members 0 0 file_count total_bytes
                    (omega arith)).0
                  (sym (loop_of-by is_zip members) ∙ q ∙ same) in
              (
                fine,
                ground (arith, few),
                omega (arith, le),
                s,
                omega (arith, files),
                omega (arith, bytes),
              )
        ]
      ]
    ]

    Fit-extract_members :
        (members : List Member)
        → Fit library is_zip content file_count total_bytes members
        → extract_members p dest library (loop_of is_zip) content members
          ≡ extracted file_count total_bytes
    unfolding extract_members Passes
    Fit-extract_members members (fine, few, le, s, files, bytes) =
        let passes : loop_of is_zip members 0 0 ≡ extracted file_count total_bytes =
          loop_of-by is_zip members
          ∙ (check_by_iff (is_counted is_zip) members 0 0 file_count total_bytes (omega arith)).1
              (s, omega (arith, le), omega (arith, files), omega (arith, bytes)) in
        let few' : ltb max_files_in_archive (length members) ≡ false = ground (arith, few) in
        rw (extract_members, few', passes, fine) refl

    -- The archives of a format that are extracted, with these numbers.
    extract_with_iff :
        (extract_with p dest library (loop_of is_zip) content ≡ extracted file_count total_bytes)
        ↔ ((members : List Member) × (library.members content ≡ some members)
            × Fit library is_zip content file_count total_bytes members)
    unfolding extract_with
    extract_with_iff = (
      λ e. elim (Option-cases (library.members content)) [
        | inl unreadable ↦ absurd (cc (rw (extract_with, unreadable) at e))
        | inr (members, read) ↦
            (members, read, extract_members-Fit members (rw (extract_with, read) at e))
      ],
      λ w. rw (extract_with, w.1) (Fit-extract_members w.0 w.2),
    )

  -- The library that reads an archive.
  abbrev pub library_of : Bool → Library
  library_of true = p.zip
  library_of false = p.tar

  -- An archive is extracted, with the numbers that are returned, exactly when the library of its
  -- format reads and extracts it, it has at most 50,000 members, their sizes add up to at most
  -- 2 GiB, which is the number of bytes returned, and the real path of each begins with the text of
  -- the target's real path. The number of files is that of all members of a ZIP archive, directories
  -- included, and that of the files of a TAR archive.
  pub extract_archive_iff :
      (content : String) (file_count total_bytes : ℕ)
      → let is_zip = starts_with content "PK" in
        (extract_archive p dest content ≡ extracted file_count total_bytes) ↔ (
          (members : List Member) × ((library_of is_zip).members content ≡ some members)
          × Fit (library_of is_zip) is_zip content file_count total_bytes members)
  unfolding extract_archive
  extract_archive_iff content file_count total_bytes =
      elim (Bool-cases (starts_with content "PK")) [
        | inl zip ↦
            rw (extract_archive, zip) (extract_with_iff p.zip true content file_count total_bytes)
        | inr tar ↦
            rw (extract_archive, tar) (extract_with_iff p.tar false content file_count total_bytes)
      ]
