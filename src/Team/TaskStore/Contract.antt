-- ===== src/Team/TaskStore/Contract.antt =====
-- The task files seen as a map from task ids to tasks (index_store.go: `appendTaskIndexedLocked`,
-- `loadTaskFromIndex`; store.go: `deleteTaskIndexedLocked`).
use ai_p2p.Prelude.{
  ℕ, List, [], ◌∷◌, ◌++◌, ◌≡◌, refl, sym, ◌∙◌, length, any, Option, some, arith, Bool-cases, inl,
  inr, ◌≢◌, not_true_of_imp,
}
use ai_p2p.Prelude.Results.{Result, ok, err, eq_of_ok}
use ai_p2p.Text.{Text, text_eq, trim_space}
use ai_p2p.Text.Laws.{text_eq_iff}
use ai_p2p.Team.Task.{Task}
use ai_p2p.Team.TaskStore.{
  TaskIndexEntry, TaskFiles, TaskError, task_index_entry_from_task, is_live, mark_deleted,
  delete_task_indexed, append_task_indexed, read_json_record_at, load_entry, load_task_from_index,
}
use ai_p2p.Team.TaskStore.Laws.{
  length-append, read_at-end, IsIndexed, widen, put_entry-All, mark_deleted-All,
  load_entry-put_same, load_entry-put_other, load_entry-append,
}

-- `json.Unmarshal` reads back, from a trimmed line, the task that `json.Marshal` wrote on it.
abbrev pub IsCodec : (Task → List ℕ) → (List ℕ → Option Task) → Type 0
IsCodec marshal unmarshal = (t : Task) → unmarshal (trim_space (marshal t ++ 10 ∷ [])) ≡ some t

delete-files :
    (task_id : Text) (files : TaskFiles) {after : TaskFiles}
    → delete_task_indexed task_id files ≡ ok after
    → after ≡ record files { index = mark_deleted task_id files.index }
unfolding delete_task_indexed
delete-files task_id files {after} h = elim (Bool-cases (any (is_live task_id) files.index)) [
  | inl some_live ↦ eq_of_ok TaskError (sym (rw some_live at h))
  | inr none_live ↦
      let failed : ◌≡◌ {A = Result TaskError TaskFiles} (err TaskError.not_exist) (ok after) =
        rw none_live at h in
      cc
]

module _ (marshal : Task → List ℕ) (unmarshal : List ℕ → Option Task) where
  -- The entry of a task leads back to it: once a task is appended, whatever the files hold, loading
  -- its id gives that task, provided that unmarshalling reads back what marshalling wrote.
  pub load-append :
      IsCodec marshal unmarshal
      → (t : Task) (files : TaskFiles)
      → load_task_from_index marshal unmarshal t.task_id
          (append_task_indexed marshal unmarshal t files)
        ≡ ok t
  unfolding load_task_from_index append_task_indexed task_index_entry_from_task read_json_record_at
  load-append codec t files =
      load_entry-put_same marshal unmarshal (files.data_file ++ (marshal t ++ 10 ∷ []))
        (task_index_entry_from_task t (length files.data_file) (length (marshal t ++ 10 ∷ [])))
        files.index refl
      ∙ rw (read_at-end files.data_file (marshal t ++ 10 ∷ []), codec t) refl

  -- Appending a task leaves what every other id loads as it was, errors included, when the records of
  -- the index lie within the data file.
  load-append_other :
      (t : Task) (files : TaskFiles) (task_id : Text)
      → IsIndexed files
      → task_id ≢ t.task_id
      → load_task_from_index marshal unmarshal task_id
          (append_task_indexed marshal unmarshal t files)
        ≡ load_task_from_index marshal unmarshal task_id files
  unfolding load_task_from_index append_task_indexed task_index_entry_from_task
  load-append_other t files task_id indexed other =
      load_entry-put_other marshal unmarshal _ task_id _ files.index (
        not_true_of_imp (text_eq t.task_id task_id)
          (λ e. other (sym ((text_eq_iff t.task_id task_id).0 e))))
      ∙ load_entry-append marshal unmarshal files.data_file _ task_id files.index indexed

  -- Appending a task keeps every record of the index within the data file.
  append-IsIndexed :
      (t : Task) (files : TaskFiles)
      → IsIndexed files
      → IsIndexed (append_task_indexed marshal unmarshal t files)
  unfolding append_task_indexed task_index_entry_from_task
  append-IsIndexed t files indexed =
      let body = marshal t ++ 10 ∷ [] in
      let grown = length-append files.data_file body in
      put_entry-All (length (files.data_file ++ body)) _ files.index (omega arith) (
        widen (length files.data_file) (length (files.data_file ++ body)) files.index (omega arith)
          indexed)

  -- A deletion that succeeds keeps every record of the index within the data file.
  delete-IsIndexed :
      (task_id : Text) (files after : TaskFiles)
      → IsIndexed files
      → delete_task_indexed task_id files ≡ ok after
      → IsIndexed after
  delete-IsIndexed task_id files after indexed h =
      rw (delete-files task_id files h) (mark_deleted-All _ task_id files.index indexed)

  load-mark_deleted :
      (file : List ℕ) (task_id : Text) (entries : List TaskIndexEntry)
      → load_entry marshal unmarshal file task_id (mark_deleted task_id entries)
        ≡ err TaskError.not_exist
  unfolding mark_deleted load_entry
  load-mark_deleted file task_id [] = refl
  load-mark_deleted file task_id (e ∷ entries) = elim (Bool-cases (is_live task_id e)) [
    | inl live ↦ rw live (load-mark_deleted file task_id entries)
    | inr dead ↦ rw (dead, dead) (load-mark_deleted file task_id entries)
  ]

  load-mark_deleted_other :
      (file : List ℕ) (other task_id : Text) (entries : List TaskIndexEntry)
      → other ≢ task_id
      → load_entry marshal unmarshal file other (mark_deleted task_id entries)
        ≡ load_entry marshal unmarshal file other entries
  unfolding mark_deleted load_entry
  load-mark_deleted_other file other task_id [] h = refl
  load-mark_deleted_other file other task_id (e ∷ entries) h =
      let ih = load-mark_deleted_other file other task_id entries h in
      elim (Bool-cases (text_eq e.task_id task_id)) [
        | inl same ↦
            let no = not_true_of_imp (text_eq e.task_id other) (λ k.
              h (
                sym ((text_eq_iff e.task_id other).0 k)
                ∙ (text_eq_iff e.task_id task_id).0 same)) in
            ground (arith, ih)
        | inr differs ↦ ground (arith, ih)
      ]

  -- A deletion that succeeds removes the task: its id then loads as a task that does not exist, even
  -- where the index had several live entries of it.
  pub load-delete :
      (task_id : Text) (files after : TaskFiles)
      → delete_task_indexed task_id files ≡ ok after
      → load_task_from_index marshal unmarshal task_id after ≡ err TaskError.not_exist
  unfolding load_task_from_index
  load-delete task_id files after h =
      rw (delete-files task_id files h) (load-mark_deleted files.data_file task_id files.index)

  -- A deletion that succeeds leaves what every other id loads as it was, errors included.
  load-delete_other :
      (task_id other : Text) (files after : TaskFiles)
      → delete_task_indexed task_id files ≡ ok after
      → other ≢ task_id
      → load_task_from_index marshal unmarshal other after
        ≡ load_task_from_index marshal unmarshal other files
  unfolding load_task_from_index
  load-delete_other task_id other files after h differs =
      rw (delete-files task_id files h)
        (load-mark_deleted_other files.data_file other task_id files.index differs)
