-- ===== src/Job/Logs/Polled.antt =====
-- A client that polls `get_job_logs` with the `seq` of the last entry it has, while agents write.
use ai_project.Prelude.{
  ℕ, zero, suc, ◌+◌, ◌-◌, ◌≤◌, min, ◌≡◌, refl, sym, ap, ◌∙◌, true, false, some, none, List, [], ◌∷◌,
  ◌++◌, map, keep, elem, take, drop, length, leb, ltb, inl, inr, Bool-cases, arith, length-take,
  length-map, map-append,
}
use ai_project.Pagination.{QueryInt, pos, clamp_size}
use ai_project.Pagination.Cover.{take_add, take_all}
use ai_project.Job.Logs.{
  JobLog, LogTables, log_rows, JobLogEntry, entry_of, is_newer, insert_seq, order_by_seq,
  get_job_logs,
}
use ai_project.Job.Logs.Rows.{Numbered}

-- The `seq` of the last entry, or `k` when there is none.
abbrev pub last_seq : ℕ → List JobLogEntry → ℕ
last_seq k [] = k
last_seq k (e ∷ es) = last_seq e.seq es

drop_none {ℓ} : {A : Type ℓ} (n : ℕ) → drop {A = A} n [] ≡ []
drop_none zero = refl
drop_none (suc n) = refl

order_by_seq-Numbered : (k : ℕ) (ls : List JobLog) → Numbered k ls → order_by_seq ls ≡ ls
unfolding order_by_seq insert_seq
order_by_seq-Numbered k [] h = refl
order_by_seq-Numbered k (l ∷ []) h = refl
order_by_seq-Numbered k (l ∷ m ∷ ls) h =
    let ih = order_by_seq-Numbered (suc k) (m ∷ ls) h.1 in
    let lt : leb l.seq m.seq ≡ true = ground (arith, h.0, h.1.0) in rw ih (rw lt refl)

order_by_seq-drop :
    (k n : ℕ) (ls : List JobLog) → Numbered k ls → order_by_seq (drop n ls) ≡ drop n ls
order_by_seq-drop k zero ls h = order_by_seq-Numbered k ls h
order_by_seq-drop k (suc n) [] h = order_by_seq-Numbered k [] h
order_by_seq-drop k (suc n) (l ∷ ls) h = order_by_seq-drop (suc k) n ls h.1

newer-Numbered :
    (k n : ℕ) (ls : List JobLog) → Numbered k ls → keep (is_newer (pos n)) ls ≡ drop (n - k) ls
newer-Numbered k n [] h = sym (drop_none (n - k))
newer-Numbered k n (l ∷ ls) h =
    let ih = newer-Numbered (suc k) n ls h.1 in
    elim (Bool-cases (ltb n l.seq)) [
      | inl new ↦
          let e : n - k ≡ 0 = ground (arith, h.0) in
          let e' : n - suc k ≡ 0 = ground (arith, h.0) in
          rw (new, e) (ap (λ ms. l ∷ ms) (rw e' at ih))
      | inr old ↦ let e : n - k ≡ suc (n - suc k) = ground (arith, h.0) in rw (old, e) ih
    ]

Numbered-take : (k n : ℕ) (ls : List JobLog) → Numbered k ls → Numbered k (take n ls)
Numbered-take k zero ls h = tt
Numbered-take k (suc n) [] h = tt
Numbered-take k (suc n) (l ∷ ls) h = (h.0, Numbered-take (suc k) n ls h.1)

last_seq-Numbered :
    (k : ℕ) (ls : List JobLog) → Numbered k ls → last_seq k (map entry_of ls) ≡ k + length ls
last_seq-Numbered k [] h = omega arith
last_seq-Numbered k (l ∷ ls) h =
    ap (λ i. last_seq i (map entry_of ls)) h.0 ∙ omega (arith, last_seq-Numbered (suc k) ls h.1)

module _ {ℓ} {A : Type ℓ} where
  take-min : (n : ℕ) (xs : List A) → take (min n (length xs)) xs ≡ take n xs
  take-min n xs = elim (Bool-cases (leb n (length xs))) [
    | inl few ↦ ap (λ i. take i xs) (ground arith)
    | inr more ↦
        let e : min n (length xs) ≡ length xs = ground arith in
        rw e (take_all (length xs) xs (omega arith) ∙ sym (take_all n xs (ground arith)))
  ]

  pub take-longer : (n : ℕ) (xs ys : List A) → n ≤ length xs → take n (xs ++ ys) ≡ take n xs
  take-longer zero xs ys h = refl
  take-longer (suc n) [] ys h = absurd (omega arith)
  take-longer (suc n) (x ∷ xs) ys h = ap (λ zs. x ∷ zs) (take-longer n xs ys (omega arith))

-- The client has the first entries of the job, in their order.
abbrev pub Follows : ℕ → LogTables → List JobLogEntry → Type 0
Follows j t received =
    (length received ≤ length (log_rows j t.logs))
    × (received ≡ map entry_of (take (length received) (log_rows j t.logs)))

pub first-Follows :
    (j n : ℕ) (t : LogTables) (received : List JobLogEntry)
    → received ≡ map entry_of (take n (log_rows j t.logs))
    → Follows j t received
first-Follows j n t received e =
    let rows = log_rows j t.logs in
    let l : length received ≡ min n (length rows) =
      ap length e ∙ length-map entry_of (take n rows) ∙ length-take n rows in
    (omega (arith, l), e ∙ ap (map entry_of) (sym (ap (λ i. take i rows) l ∙ take-min n rows)))

last_seq-Follows :
    (j : ℕ) (t : LogTables) (received : List JobLogEntry)
    → Numbered 0 (log_rows j t.logs)
    → Follows j t received
    → last_seq 0 received ≡ length received
last_seq-Follows j t received h f =
    let n = length received in
    let first = take n (log_rows j t.logs) in
    let e = last_seq-Numbered 0 first (Numbered-take 0 n (log_rows j t.logs) h) in
    ap (last_seq 0) f.1 ∙ omega (arith, e, f.0, length-take n (log_rows j t.logs))

-- What `get_job_logs` selects of a numbered log.
selected :
    (s : ℕ) (rows : List JobLog)
    → Numbered 0 rows
    → order_by_seq (keep (is_newer (pos s)) rows) ≡ drop s rows
selected s rows h =
    let e : s - 0 ≡ s = omega arith in
    ap order_by_seq (newer-Numbered 0 s rows h ∙ ap (λ i. drop i rows) e)
    ∙ order_by_seq-drop 0 s rows h

module _ (j : ℕ) (limit : QueryInt) where
  -- One poll: what is sent back is appended to the entries that the client has.
  abbrev pub poll : LogTables → List JobLogEntry → List JobLogEntry
  poll t received = elim (get_job_logs j (pos (last_seq 0 received)) limit t) [
    | none ↦ received
    | some r ↦ received ++ r.logs
  ]

  -- That many polls on a log that does not change.
  abbrev pub polls : ℕ → LogTables → List JobLogEntry → List JobLogEntry
  polls zero t received = received
  polls (suc k) t received = polls k t (poll t received)

  poll-gone :
      (t : LogTables) (received : List JobLogEntry)
      → elem j t.jobs ≡ false
      → poll t received ≡ received
  unfolding get_job_logs
  poll-gone t received gone = rw (poll, get_job_logs, gone) refl

  -- A poll brings the next entries, as many as the clamped limit says.
  pub poll-next :
      (t : LogTables) (received : List JobLogEntry)
      → elem j t.jobs ≡ true
      → Numbered 0 (log_rows j t.logs)
      → Follows j t received
      → poll t received
        ≡ map entry_of (take (length received + clamp_size 500 limit) (log_rows j t.logs))
  unfolding get_job_logs
  poll-next t received there h f =
      let rows = log_rows j t.logs in
      let n = length received in
      let c = clamp_size 500 limit in
      rw (poll, get_job_logs, there, last_seq-Follows j t received h f, selected n rows h)
        (ap (λ es. es ++ map entry_of (take c (drop n rows))) f.1
          ∙ sym (map-append entry_of (take n rows) (take c (drop n rows)))
          ∙ ap (map entry_of) (sym (take_add n c rows)))
