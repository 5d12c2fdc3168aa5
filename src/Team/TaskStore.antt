-- ===== src/Team/TaskStore.antt =====
-- The tasks of one team on disk (internal/aip2p/team/index_store.go, the task functions; store.go:
-- `deleteTaskIndexedLocked`). The data file is the sequence of its bytes, to which records are only
-- appended; the index is the list of its entries. `json.Marshal` and `json.Unmarshal` of a task are
-- the parameters `marshal` and `unmarshal`. The team lock makes each operation one step. Failures of
-- the disk are not modelled.
pub mod Laws
pub mod Contract
use ai_p2p.Prelude.{
  ℕ, zero, suc, ◌-◌, Bool, true, false, not, ◌&&◌, List, [], ◌∷◌, ◌++◌, ◌==◌, if◌then◌else◌, is_nil,
  length, any, Option, none, some,
}
use ai_p2p.Prelude.Results.{Result, ok, err, ◌>>=◌, ◌>>◌, require}
use ai_p2p.Text.{Text, text_eq, trim_space}
use ai_p2p.TextMap.{TextMap}
use ai_p2p.Team.Id.{normalize_team_id, normalize_channel_id}
use ai_p2p.Team.TaskState.{
  open_status, normalize_task_status, TaskTransitionRule, is_valid_transition_with_policy,
}
use ai_p2p.Team.Task.{
  Task, or_text, or_time, normalize_task_priority, normalize_non_empty_strings, closing_time,
  normalize_replicated_task, task_version, replicated_version_after,
}

pub record TaskIndexEntry : Type 0 where
  pub task_id : Text
  pub offset : ℕ
  pub size : ℕ
  pub created_at : ℕ
  pub updated_at : ℕ
  pub due_at : ℕ
  pub channel_id : Text
  pub context_id : Text
  pub status : Text
  pub priority : Text
  pub deleted : Bool

pub record TaskFiles : Type 0 where
  pub data_file : List ℕ
  pub index : List TaskIndexEntry

pub data TaskError : Type 0 where
  empty_team_id empty_task_id empty_title invalid_transition not_exist end_of_file team_mismatch :
      TaskError
  invalid_json : TaskError

abbrev pub take {ℓ} : {A : Type ℓ} → ℕ → List A → List A
take zero xs = []
take (suc n) [] = []
take (suc n) (x ∷ xs) = x ∷ take n xs

abbrev pub drop {ℓ} : {A : Type ℓ} → ℕ → List A → List A
drop zero xs = xs
drop (suc n) [] = []
drop (suc n) (x ∷ xs) = drop n xs

-- `file.ReadAt` of `length` bytes: fewer bytes are an error.
unfoldable pub read_at : List ℕ → ℕ → ℕ → Result TaskError (List ℕ)
read_at file offset size =
    let window = take size (drop offset file) in
    if length window == size then ok window else err TaskError.end_of_file

-- `taskIndexEntryFromTask`.
unfoldable pub task_index_entry_from_task : Task → ℕ → ℕ → TaskIndexEntry
task_index_entry_from_task task offset size = record {
  task_id = task.task_id;
  offset = offset;
  size = size;
  created_at = task.created_at;
  updated_at = task.updated_at;
  due_at = task.due_at;
  channel_id = task.channel_id;
  context_id = task.context_id;
  status = task.status;
  priority = task.priority;
  deleted = false;
}

-- The loop `for i := range entries` that replaces the first entry of a task, `none` if it has none.
unfoldable pub replace_entry : TaskIndexEntry → List TaskIndexEntry → Option (List TaskIndexEntry)
replace_entry entry [] = none
replace_entry entry (e ∷ entries) =
    let rest = replace_entry entry entries in
    if text_eq e.task_id entry.task_id
    then some (entry ∷ entries)
    else elim rest [ none ↦ none | some replaced ↦ some (e ∷ replaced) ]

-- `if !updated { entries = append(entries, entry) }`.
unfoldable pub placed :
    TaskIndexEntry → List TaskIndexEntry → Option (List TaskIndexEntry) → List TaskIndexEntry
placed entry entries none = entries ++ entry ∷ []
placed entry entries (some replaced) = replaced

unfoldable pub put_entry : TaskIndexEntry → List TaskIndexEntry → List TaskIndexEntry
put_entry entry entries = placed entry entries (replace_entry entry entries)

-- The test `entries[i].TaskID == taskID && !entries[i].Deleted`.
abbrev pub is_live : Text → TaskIndexEntry → Bool
is_live task_id e = not e.deleted && text_eq e.task_id task_id

-- The loop of `deleteTaskIndexedLocked`.
unfoldable pub mark_deleted : Text → List TaskIndexEntry → List TaskIndexEntry
mark_deleted task_id [] = []
mark_deleted task_id (e ∷ entries) =
    let rest = mark_deleted task_id entries in
    if is_live task_id e then record e { deleted = true } ∷ rest else e ∷ rest

-- `deleteTaskIndexedLocked`.
unfoldable pub delete_task_indexed : Text → TaskFiles → Result TaskError TaskFiles
delete_task_indexed task_id files =
    if any (is_live task_id) files.index
    then ok (record files { index = mark_deleted task_id files.index })
    else err TaskError.not_exist

module _ (marshal : Task → List ℕ) (unmarshal : List ℕ → Option Task) where
  -- `appendTaskIndexedLocked`, with `appendJSONLRecord`.
  unfoldable pub append_task_indexed : Task → TaskFiles → TaskFiles
  append_task_indexed task files =
      let body = marshal task ++ 10 ∷ [] in
      record {
        data_file = files.data_file ++ body;
        index =
            put_entry (task_index_entry_from_task task (length files.data_file) (length body))
              files.index;
      }

  -- `readJSONRecordAt`.
  unfoldable pub read_json_record_at : List ℕ → ℕ → ℕ → Result TaskError Task
  read_json_record_at file offset size = read_at file offset size >>= λ window.
      elim (unmarshal (trim_space window)) [
        | none ↦ err TaskError.invalid_json
        | some task ↦ ok task
      ]

  -- The loop of `loadTaskFromIndex`.
  unfoldable pub load_entry : List ℕ → Text → List TaskIndexEntry → Result TaskError Task
  load_entry file task_id [] = err TaskError.not_exist
  load_entry file task_id (e ∷ entries) =
      let rest = load_entry file task_id entries in
      if is_live task_id e then read_json_record_at file e.offset e.size else rest

  -- `loadTaskFromIndex`.
  unfoldable pub load_task_from_index : Text → TaskFiles → Result TaskError Task
  load_task_from_index task_id files = load_entry files.data_file task_id files.index
