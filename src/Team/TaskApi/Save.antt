-- ===== src/Team/TaskApi/Save.antt =====
-- A task that a user saves over the stored one (internal/aip2p/team/store.go: `saveTaskNoCtx`,
-- `saveTaskIndexedLocked`).
use ai_p2p.Prelude.{
  ℕ, true, List, [], ◌∷◌, ◌++◌, ◌≡◌, refl, sym, ap, is_nil, length, Option, none, some, Bool-cases,
  inl, inr,
}
use ai_p2p.Prelude.Results.{Result, ok, err}
use ai_p2p.Text.{Text, trim_space}
use ai_p2p.TextMap.{TextMap}
use ai_p2p.Team.TaskState.{TaskTransitionRule, is_valid_transition_with_policy}
use ai_p2p.Team.Task.{Task}
use ai_p2p.Team.TaskStore.{
  TaskIndexEntry, TaskFiles, TaskError, task_index_entry_from_task, replace_entry, put_entry,
  placed, append_task_indexed, load_task_from_index,
}
use ai_p2p.Team.TaskStore.Contract.{IsCodec, load-append}
use ai_p2p.Team.TaskApi.{
  saved_status, end_saved, saved_task, write_saved, save_over, save_loaded, save_task_indexed,
}

end_saved-files :
    (data_file : List ℕ) (entry : TaskIndexEntry) (files after : TaskFiles)
    (replaced : Option (List TaskIndexEntry))
    → end_saved data_file files replaced ≡ (after, none)
    → after ≡ record { data_file = data_file; index = placed entry files.index replaced }
unfolding end_saved placed
end_saved-files data_file entry files after none h =
    let failed : ◌≡◌ {A = Option TaskError} (some TaskError.not_exist) none = ap (λ p. p.1) h in cc
end_saved-files data_file entry files after (some index) h = sym (ap (λ p. p.0) h)

module _ (marshal : Task → List ℕ) (unmarshal : List ℕ → Option Task)
    (path_unescape : Text → Option Text) (now : ℕ) (transitions : TextMap TaskTransitionRule)
    (team : Text) where
  abbrev pub load : Text → TaskFiles → Result TaskError Task
  load task_id files = load_task_from_index marshal unmarshal task_id files

  abbrev save : Task → TaskFiles → TaskFiles × Option TaskError
  save task files =
      save_task_indexed marshal unmarshal path_unescape now transitions team task files

  -- A write without an error is an append whose entry took the place of an older one.
  write_saved-files :
      (task : Task) (files after : TaskFiles)
      → write_saved marshal unmarshal path_unescape task files ≡ (after, none)
      → after ≡ append_task_indexed marshal unmarshal task files
  unfolding write_saved append_task_indexed put_entry
  write_saved-files task files after h =
      let body = marshal task ++ 10 ∷ [] in
      let entry = task_index_entry_from_task task (length files.data_file) (length body) in
      end_saved-files (files.data_file ++ body) entry files after (replace_entry entry files.index)
        h

  saved_task-task_id :
      (task current : Task)
      → (saved_task marshal unmarshal path_unescape now team current task).task_id
        ≡ trim_space task.task_id
  unfolding saved_task
  saved_task-task_id task current = refl

  saved_over :
      IsCodec marshal unmarshal
      → (task current : Task) (files after : TaskFiles)
      → save_over marshal unmarshal path_unescape now transitions team task current files
        ≡ (after, none)
      → (is_valid_transition_with_policy current.status (saved_status current task) transitions
          ≡ true)
        × (load (trim_space task.task_id) after
            ≡ ok (saved_task marshal unmarshal path_unescape now team current task))
  unfolding save_over
  saved_over codec task current files after h = elim (Bool-cases (is_nil (trim_space task.title))) [
    | inl blank ↦ absurd (fails TaskError.empty_title (rw blank at h))
    | inr titled ↦
        elim (Bool-cases (
          is_valid_transition_with_policy current.status (saved_status current task) transitions)) [
            | inl valid ↦
                let new = saved_task marshal unmarshal path_unescape now team current task in
                (
                  valid,
                  rw
                      (
                        write_saved-files new files after (rw (titled, valid) at h),
                        ← saved_task-task_id task current,
                      )
                      (load-append marshal unmarshal codec new files),
                )
            | inr refused ↦ absurd (fails TaskError.invalid_transition (rw (titled, refused) at h))
          ]
  ]
    where
      fails :
          (e : TaskError) → ¬ (◌≡◌ {A = TaskFiles × Option TaskError} (files, some e) (after, none))
      fails e k = let failed : ◌≡◌ {A = Option TaskError} (some e) none = ap (λ p. p.1) k in cc

  saved_loaded :
      IsCodec marshal unmarshal
      → (task : Task) (files after : TaskFiles) (r : Result TaskError Task)
      → save_loaded marshal unmarshal path_unescape now transitions team task files r
        ≡ (after, none)
      → (current : Task) × (r ≡ ok current)
        × (is_valid_transition_with_policy current.status (saved_status current task) transitions
            ≡ true)
        × (load (trim_space task.task_id) after
            ≡ ok (saved_task marshal unmarshal path_unescape now team current task))
  unfolding save_loaded
  saved_loaded codec task files after (err e) h =
      let refused : ◌≡◌ {A = Option TaskError} (some e) none = ap (λ p. p.1) h in cc
  saved_loaded codec task files after (ok current) h =
      let (valid, stored) = saved_over codec task current files after h in
      (current, refl, valid, stored)

  -- A save that returns no error moves a task along its state machine: some task was stored under
  -- the id given, its status may become the saved one under the policy's transitions, and the
  -- trimmed id then loads the saved task, in that status, provided that unmarshalling reads back
  -- what marshalling wrote.
  pub save-transition :
      IsCodec marshal unmarshal
      → (task : Task) (files after : TaskFiles) → save task files ≡ (after, none)
      → (current : Task) × (load task.task_id files ≡ ok current)
        × (is_valid_transition_with_policy current.status (saved_status current task) transitions
            ≡ true)
        × (load (trim_space task.task_id) after
            ≡ ok (saved_task marshal unmarshal path_unescape now team current task))
        × ((saved_task marshal unmarshal path_unescape now team current task).status
            ≡ saved_status current task)
  unfolding save_task_indexed saved_task
  save-transition codec task files after h =
      let (current, loaded, valid, stored) =
        saved_loaded codec task files after (load task.task_id files) h in
      (current, loaded, valid, stored, refl)
