-- ===== src/Team/TaskApi.antt =====
-- The operations on a team's tasks (internal/aip2p/team/store.go: `loadTaskNoCtx`, `saveTaskNoCtx`,
-- `deleteTaskNoCtx`, `saveTaskIndexedLocked`; sync.go: `ApplyReplicatedTask`; backend_helpers.go:
-- the task helpers). The index and data files exist, so that no older layout is migrated. The events
-- published after a change are not modelled. The store has the task files of each directory under its
-- root. An operation normalises the team's name it is given, and the paths normalise it once more. A
-- change returns the store and its error, if any.
pub mod Files
pub mod Replica
pub mod Again
pub mod Deletion
pub mod Save
pub mod Create
use ai_p2p.Prelude.{
  ℕ, Bool, true, false, not, List, [], ◌∷◌, ◌++◌, if◌then◌else◌, is_nil, length, Option, none, some,
}
use ai_p2p.Prelude.Results.{Result, ok, err, ◌>>=◌, ◌>>◌, require}
use ai_p2p.Text.{Text, text_eq, trim_space}
use ai_p2p.TextMap.{TextMap}
use ai_p2p.Team.Id.{normalize_team_id, normalize_channel_id}
use ai_p2p.Team.TaskState.{
  open_status, normalize_task_status, TaskTransitionRule, is_valid_transition_with_policy,
}
use ai_p2p.Team.Task.{
  Task, or_text, or_time, normalize_task_priority, normalize_non_empty_strings, closing_time,
  normalize_replicated_task, task_version, replicated_version_after,
}
use ai_p2p.Team.TaskStore.{
  TaskIndexEntry, TaskFiles, TaskError, task_index_entry_from_task, replace_entry,
  delete_task_indexed, append_task_indexed, load_task_from_index,
}

-- The task files of the directories under the store's root, by the directory's name.
abbrev pub TeamFiles : Type 0
TeamFiles = Text → TaskFiles

-- A write of the files of one directory.
unfoldable pub put_files : Text → TaskFiles → TeamFiles → Text → TaskFiles
put_files dir files store other = if text_eq dir other then files else store other

-- The status that `saveTaskIndexedLocked` writes: the new one, else the current one, else "open".
unfoldable pub saved_status : Task → Task → Text
saved_status current task =
    or_text (or_text (normalize_task_status task.status) current.status) open_status

-- `loadTaskNoCtx`, `saveTaskNoCtx` and `deleteTaskNoCtx` check the names first.
abbrev pub check_names : Text → Text → Result TaskError (Unit {0})
check_names team task_id =
    require (not (is_nil team)) TaskError.empty_team_id
    >> require (not (is_nil task_id)) TaskError.empty_task_id

-- The last loop of `saveTaskIndexedLocked`, over whether the task's entry was replaced.
unfoldable pub end_saved :
    List ℕ → TaskFiles → Option (List TaskIndexEntry) → TaskFiles × Option TaskError
end_saved data_file files none = (record files { data_file = data_file }, some TaskError.not_exist)
end_saved data_file files (some index) = (record { data_file = data_file; index = index }, none)

module _ (marshal : Task → List ℕ) (unmarshal : List ℕ → Option Task)
    (path_unescape : Text → Option Text) where
  -- The directory that the paths of a team's files name (`taskIndexPath`, `taskDataPath`).
  abbrev pub team_directory : Text → Text
  team_directory team = normalize_team_id path_unescape team

  -- `loadTaskNoCtx`.
  unfoldable pub load_task : Text → Text → TeamFiles → Result TaskError Task
  load_task raw_team raw_id store =
      let team = normalize_team_id path_unescape raw_team in
      let task_id = trim_space raw_id in
      check_names team task_id
      >> load_task_from_index marshal unmarshal task_id (store (team_directory team))

  -- `deleteTaskNoCtx`.
  unfoldable pub delete_task : Text → Text → TeamFiles → Result TaskError TeamFiles
  delete_task raw_team raw_id store =
      let team = normalize_team_id path_unescape raw_team in
      let task_id = trim_space raw_id in
      check_names team task_id
      >> (delete_task_indexed task_id (store (team_directory team))
          >>= (λ files. ok (put_files (team_directory team) files store)))

  -- The task that `saveTaskIndexedLocked` writes over the current one.
  unfoldable pub saved_task : ℕ → Text → Task → Task → Task
  saved_task now team current task =
      let status = saved_status current task in
      let updated_at = or_time task.updated_at now in
      record task {
        task_id = trim_space task.task_id;
        team_id = team;
        channel_id = normalize_channel_id path_unescape task.channel_id;
        context_id = or_text (trim_space task.context_id) (trim_space current.context_id);
        title = trim_space task.title;
        description = trim_space task.description;
        created_by = trim_space task.created_by;
        assignees = normalize_non_empty_strings task.assignees;
        status = status;
        priority = normalize_task_priority task.priority;
        labels = normalize_non_empty_strings task.labels;
        created_at = or_time task.created_at current.created_at;
        updated_at = updated_at;
        closed_at = closing_time status task.closed_at updated_at;
      }

  -- The end of `saveTaskIndexedLocked`: the record is appended before the index is searched.
  unfoldable pub write_saved : Task → TaskFiles → TaskFiles × Option TaskError
  write_saved task files =
      let body = marshal task ++ 10 ∷ [] in
      let entry = task_index_entry_from_task task (length files.data_file) (length body) in
      end_saved (files.data_file ++ body) files (replace_entry entry files.index)

  -- `saveTaskIndexedLocked`, once the current task is loaded.
  unfoldable pub save_over :
      ℕ → TextMap TaskTransitionRule → Text → Task → Task → TaskFiles → TaskFiles × Option TaskError
  save_over now transitions team task current files =
      if is_nil (trim_space task.title)
      then (files, some TaskError.empty_title)
      else if not
          (is_valid_transition_with_policy current.status (saved_status current task) transitions)
      then (files, some TaskError.invalid_transition)
      else write_saved (saved_task now team current task) files

  -- `saveTaskIndexedLocked`, over the load of the current task.
  unfoldable pub save_loaded :
      ℕ
      → TextMap TaskTransitionRule
      → Text
      → Task
      → TaskFiles
      → Result TaskError Task
      → TaskFiles × Option TaskError
  save_loaded now transitions team task files (err e) = (files, some e)
  save_loaded now transitions team task files (ok current) =
      save_over now transitions team task current files

  -- `saveTaskIndexedLocked`.
  unfoldable pub save_task_indexed :
      ℕ → TextMap TaskTransitionRule → Text → Task → TaskFiles → TaskFiles × Option TaskError
  save_task_indexed now transitions team task files =
      save_loaded now transitions team task files
        (load_task_from_index marshal unmarshal task.task_id files)

  -- `saveTaskNoCtx`, with the transitions of the team's policy.
  unfoldable pub save_task :
      ℕ → TextMap TaskTransitionRule → Text → Task → TeamFiles → TeamFiles × Option TaskError
  save_task now transitions raw_team task store =
      let team = normalize_team_id path_unescape raw_team in
      let saved = save_task_indexed now transitions team task (store (team_directory team)) in
      elim (check_names team (trim_space task.task_id)) [
        | err e ↦ (store, some e)
        | ok u ↦ (put_files (team_directory team) saved.0 store, saved.1)
      ]

  -- `upsertReplicatedTask`.
  unfoldable pub upsert_replicated_task : Text → Task → TeamFiles → TeamFiles
  upsert_replicated_task team task store =
      let dir = team_directory team in
      put_files dir (append_task_indexed marshal unmarshal task (store dir)) store

  -- `ApplyReplicatedTask`, once the current task is looked up: whether the task is stored.
  unfoldable pub apply_over :
      Text → Task → Result TaskError Task → TeamFiles → Result TaskError (Bool × TeamFiles)
  apply_over team task (ok current) store =
      if not (replicated_version_after (task_version task) (task_version current))
      then ok (false, store)
      else ok (true, upsert_replicated_task team task store)
  apply_over team task (err TaskError.not_exist) store =
      ok (true, upsert_replicated_task team task store)
  apply_over team task (err e) store = err e

  module _ (format_stamp format_rfc3339 : ℕ → Text) where
    -- `ApplyReplicatedTask`, at the time `now`.
    unfoldable pub apply_replicated_task :
        ℕ → Text → Task → TeamFiles → Result TaskError (Bool × TeamFiles)
    apply_replicated_task now raw_team raw_task store =
        let team = normalize_team_id path_unescape raw_team in
        let task =
          normalize_replicated_task path_unescape format_stamp format_rfc3339 now team raw_task in
        check_names team (trim_space task.task_id)
        >> apply_over team task (load_task team task.task_id store) store
