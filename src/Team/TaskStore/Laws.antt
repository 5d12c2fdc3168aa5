-- ===== src/Team/TaskStore/Laws.antt =====
-- What the index finds in the data file (index_store.go, the task functions; store.go:
-- `deleteTaskIndexedLocked`).
use ai_p2p.Prelude.{
  ℕ, zero, suc, ◌+◌, ◌≤◌, Bool, true, false, List, [], ◌∷◌, ◌++◌, ◌≡◌, refl, sym, ap, ◌∙◌,
  if◌then◌else◌, length, All, Option, none, some, arith, Bool-cases, inl, inr, ==_iff,
}
use ai_p2p.Prelude.Results.{ok}
use ai_p2p.Text.{Text, text_eq}
use ai_p2p.Text.Laws.{text_eq_iff, text_eq_refl}
use ai_p2p.Team.Task.{Task}
use ai_p2p.Team.TaskStore.{
  TaskIndexEntry, TaskFiles, take, drop, read_at, replace_entry, placed, put_entry, is_live,
  mark_deleted, read_json_record_at, load_entry,
}

pub length-append : (xs ys : List ℕ) → length (xs ++ ys) ≡ length xs + length ys
length-append [] ys = omega arith
length-append (x ∷ xs) ys = ground (arith, length-append xs ys)

take-length : (xs : List ℕ) → take (length xs) xs ≡ xs
take-length [] = refl
take-length (x ∷ xs) = ap (x ∷◌) (take-length xs)

drop-length : (xs ys : List ℕ) → drop (length xs) (xs ++ ys) ≡ ys
drop-length [] ys = refl
drop-length (x ∷ xs) ys = drop-length xs ys

take-append : (n : ℕ) (xs ys : List ℕ) → n ≤ length xs → take n (xs ++ ys) ≡ take n xs
take-append zero xs ys h = refl
take-append (suc n) [] ys h = ground arith
take-append (suc n) (x ∷ xs) ys h = ap (x ∷◌) (take-append n xs ys (omega arith))

window-append :
    (o n : ℕ) (xs ys : List ℕ) → o + n ≤ length xs → take n (drop o (xs ++ ys)) ≡ take n (drop o xs)
window-append zero n xs ys h = take-append n xs ys (omega arith)
window-append (suc o) n [] ys h = ground arith
window-append (suc o) n (x ∷ xs) ys h = window-append o n xs ys (omega arith)

-- A record that was in the file is read there after more is appended.
read_at-append :
    (file more : List ℕ) (o n : ℕ)
    → o + n ≤ length file
    → read_at (file ++ more) o n ≡ read_at file o n
unfolding read_at
read_at-append file more o n h = rw (window-append o n file more h) refl

pub read_at-end :
    (file body : List ℕ) → read_at (file ++ body) (length file) (length body) ≡ ok body
unfolding read_at
read_at-end file body =
    rw (drop-length file body, take-length body, (==_iff (length body) (length body)).1 refl) refl

-- An entry's record lies within the data file.
abbrev pub IsWithin : ℕ → TaskIndexEntry → Type 0
IsWithin n e = e.offset + e.size ≤ n

abbrev pub IsIndexed : TaskFiles → Type 0
IsIndexed files = All (IsWithin (length files.data_file)) files.index

replace_entry-cons :
    (entry e : TaskIndexEntry) (entries : List TaskIndexEntry) (same : Bool)
    → text_eq e.task_id entry.task_id ≡ same
    → replace_entry entry (e ∷ entries) ≡ (
        if same then some (entry ∷ entries) else elim (replace_entry entry entries) [
          | none ↦ none
          | some replaced ↦ some (e ∷ replaced)
        ])
unfolding replace_entry
replace_entry-cons entry e entries same h = rw h refl

placed-cons :
    (entry e : TaskIndexEntry) (entries : List TaskIndexEntry)
    (replaced : Option (List TaskIndexEntry))
    → placed entry
        (e ∷ entries)
        (elim replaced [ none ↦ none | some replaced ↦ some (e ∷ replaced) ])
      ≡ e ∷ placed entry entries replaced
unfolding placed
placed-cons entry e entries none = refl
placed-cons entry e entries (some replaced) = refl

put_entry-same :
    (entry e : TaskIndexEntry) (entries : List TaskIndexEntry)
    → text_eq e.task_id entry.task_id ≡ true
    → put_entry entry (e ∷ entries) ≡ entry ∷ entries
unfolding put_entry placed
put_entry-same entry e entries h =
    ap (placed entry (e ∷ entries)) (replace_entry-cons entry e entries true h)

put_entry-other :
    (entry e : TaskIndexEntry) (entries : List TaskIndexEntry)
    → text_eq e.task_id entry.task_id ≡ false
    → put_entry entry (e ∷ entries) ≡ e ∷ put_entry entry entries
unfolding put_entry
put_entry-other entry e entries h =
    ap (placed entry (e ∷ entries)) (replace_entry-cons entry e entries false h)
    ∙ placed-cons entry e entries (replace_entry entry entries)

pub widen :
    (n m : ℕ) (entries : List TaskIndexEntry)
    → n ≤ m
    → All (IsWithin n) entries
    → All (IsWithin m) entries
widen n m [] h k = tt
widen n m (e ∷ entries) h k = (omega arith, widen n m entries h k.1)

pub put_entry-All :
    (n : ℕ) (entry : TaskIndexEntry) (entries : List TaskIndexEntry)
    → IsWithin n entry
    → All (IsWithin n) entries
    → All (IsWithin n) (put_entry entry entries)
unfolding put_entry placed replace_entry
put_entry-All n entry [] h k = (h, tt)
put_entry-All n entry (e ∷ entries) h k = elim (Bool-cases (text_eq e.task_id entry.task_id)) [
  | inl same ↦ rw (put_entry-same entry e entries same) (h, k.1)
  | inr other ↦
      rw (put_entry-other entry e entries other) (k.0, put_entry-All n entry entries h k.1)
]

pub mark_deleted-All :
    (n : ℕ) (task_id : Text) (entries : List TaskIndexEntry)
    → All (IsWithin n) entries
    → All (IsWithin n) (mark_deleted task_id entries)
unfolding mark_deleted
mark_deleted-All n task_id [] k = tt
mark_deleted-All n task_id (e ∷ entries) k = elim (Bool-cases (is_live task_id e)) [
  | inl live ↦ rw live (k.0, mark_deleted-All n task_id entries k.1)
  | inr not_live ↦ rw not_live (k.0, mark_deleted-All n task_id entries k.1)
]

-- Loading after an entry is put: the entry of the same task is found, the others are as before.
module _ (marshal : Task → List ℕ) (unmarshal : List ℕ → Option Task) where
  pub load_entry-live :
      (file : List ℕ) (task_id : Text) (e : TaskIndexEntry) (entries : List TaskIndexEntry)
      → is_live task_id e ≡ true
      → load_entry marshal unmarshal file task_id (e ∷ entries)
        ≡ read_json_record_at marshal unmarshal file e.offset e.size
  unfolding load_entry
  load_entry-live file task_id e entries h = rw h refl

  pub load_entry-skip :
      (file : List ℕ) (task_id : Text) (e : TaskIndexEntry) (entries : List TaskIndexEntry)
      → is_live task_id e ≡ false
      → load_entry marshal unmarshal file task_id (e ∷ entries)
        ≡ load_entry marshal unmarshal file task_id entries
  unfolding load_entry
  load_entry-skip file task_id e entries h = rw h refl

  pub load_entry-put_same :
      (file : List ℕ) (entry : TaskIndexEntry) (entries : List TaskIndexEntry)
      → entry.deleted ≡ false
      → load_entry marshal unmarshal file entry.task_id (put_entry entry entries)
        ≡ read_json_record_at marshal unmarshal file entry.offset entry.size
  unfolding put_entry placed replace_entry
  load_entry-put_same file entry [] h =
      load_entry-live file entry.task_id entry [] (rw (h, text_eq_refl entry.task_id) refl)
  load_entry-put_same file entry (e ∷ entries) h =
      elim (Bool-cases (text_eq e.task_id entry.task_id)) [
        | inl same ↦
            ap (load_entry marshal unmarshal file entry.task_id)
              (put_entry-same entry e entries same)
            ∙ load_entry-live file entry.task_id entry entries
                (rw (h, text_eq_refl entry.task_id) refl)
        | inr other ↦
            ap (load_entry marshal unmarshal file entry.task_id)
              (put_entry-other entry e entries other)
            ∙ load_entry-skip file entry.task_id e _ (rw other (ground arith))
            ∙ load_entry-put_same file entry entries h
      ]

  pub load_entry-put_other :
      (file : List ℕ) (task_id : Text) (entry : TaskIndexEntry) (entries : List TaskIndexEntry)
      → text_eq entry.task_id task_id ≡ false
      → load_entry marshal unmarshal file task_id (put_entry entry entries)
        ≡ load_entry marshal unmarshal file task_id entries
  unfolding put_entry placed replace_entry
  load_entry-put_other file task_id entry [] h =
      load_entry-skip file task_id entry [] (rw h (ground arith))
  load_entry-put_other file task_id entry (e ∷ entries) h =
      elim (Bool-cases (text_eq e.task_id entry.task_id)) [
        | inl same ↦
            ap (load_entry marshal unmarshal file task_id) (put_entry-same entry e entries same)
            ∙ load_entry-skip file task_id entry entries (rw h (ground arith))
            ∙ sym (
                load_entry-skip file task_id e entries (
                  rw
                    (ap (λ t. text_eq t task_id) ((text_eq_iff e.task_id entry.task_id).0 same) ∙ h)
                    (ground arith)))
        | inr other ↦
            ap (load_entry marshal unmarshal file task_id) (put_entry-other entry e entries other)
            ∙ elim (Bool-cases (is_live task_id e)) [
              | inl live ↦
                  load_entry-live file task_id e _ live
                  ∙ sym (load_entry-live file task_id e _ live)
              | inr dead ↦
                  load_entry-skip file task_id e _ dead
                  ∙ load_entry-put_other file task_id entry entries h
                  ∙ sym (load_entry-skip file task_id e _ dead)
            ]
      ]

  pub load_entry-append :
      (file more : List ℕ) (task_id : Text) (entries : List TaskIndexEntry)
      → All (IsWithin (length file)) entries
      → load_entry marshal unmarshal (file ++ more) task_id entries
        ≡ load_entry marshal unmarshal file task_id entries
  unfolding load_entry read_json_record_at
  load_entry-append file more task_id [] k = refl
  load_entry-append file more task_id (e ∷ entries) k =
      rw
        (
          read_at-append file more e.offset e.size k.0,
          load_entry-append file more task_id entries k.1,
        )
        refl
