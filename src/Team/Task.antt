-- ===== src/Team/Task.antt =====
-- A team's task (internal/aip2p/team/store.go: `Task`, `buildTaskID`, `normalizeNonEmptyStrings`;
-- normalize.go: `normalizeTaskPriority`, `generateContextID`; sync.go: `normalizeReplicatedTask`,
-- `taskVersion`, `replicatedVersionAfter`). A time is the number of its nanoseconds since Go's zero
-- time, whatever its zone. The clock and the formats of a time are parameters.
use ai_p2p.Prelude.{
  ℕ, ltb, Bool, false, not, List, [], ◌∷◌, ◌++◌, ◌==◌, if◌then◌else◌, is_nil, Option,
}
use ai_p2p.Text.{Text, codes, trim_space, to_lower, contains}
use ai_p2p.Team.Id.{normalize_team_id, normalize_channel_id}
use ai_p2p.Team.TaskState.{open_status, one_of, normalize_task_status, is_terminal_state}

pub record Task : Type 0 where
  pub task_id : Text
  pub team_id : Text
  pub channel_id : Text
  pub context_id : Text
  pub title : Text
  pub description : Text
  pub created_by : Text
  pub assignees : List Text
  pub status : Text
  pub priority : Text
  pub due_at : ℕ
  pub labels : List Text
  pub origin_public_key : Text
  pub parent_public_key : Text
  pub created_at : ℕ
  pub updated_at : ℕ
  pub closed_at : ℕ

-- `IsZero`.
abbrev pub is_zero : ℕ → Bool
is_zero t = t == 0

-- `normalizeTaskPriority`.
unfoldable pub normalize_task_priority : Text → Text
normalize_task_priority value =
    let key = to_lower (trim_space value) in
    let kept = trim_space (to_lower value) in
    if one_of key ([] ∷ codes "low" ∷ codes "medium" ∷ codes "high" ∷ [])
    then kept
    else if one_of key (codes "med" ∷ codes "normal" ∷ [])
    then codes "medium"
    else if one_of key (codes "urgent" ∷ codes "critical" ∷ [])
    then codes "high"
    else kept

-- The loop of `normalizeNonEmptyStrings`, over the set of texts it has seen.
unfoldable pub non_empty_loop : List Text → List Text → List Text
non_empty_loop seen [] = []
non_empty_loop seen (raw ∷ rest) =
    let value = trim_space raw in
    let skipped = non_empty_loop seen rest in
    let kept = value ∷ non_empty_loop (value ∷ seen) rest in
    if is_nil value then skipped else if contains seen value then skipped else kept

-- `normalizeNonEmptyStrings`.
unfoldable pub normalize_non_empty_strings : List Text → List Text
normalize_non_empty_strings values = non_empty_loop [] values

-- `taskVersion`.
unfoldable pub task_version : Task → ℕ
task_version task = if not (is_zero task.updated_at) then task.updated_at else task.created_at

-- `replicatedVersionAfter`.
unfoldable pub replicated_version_after : ℕ → ℕ → Bool
replicated_version_after next current =
    if is_zero current then not (is_zero next) else if is_zero next then false else ltb current next

-- `if IsTerminalState(...)`, over both conditions of it.
unfoldable pub closing_time : Text → ℕ → ℕ → ℕ
closing_time status closed_at updated_at =
    if is_terminal_state status then (if is_zero closed_at then updated_at else closed_at) else 0

-- A value, or another one where it is blank or zero.
abbrev pub or_text : Text → Text → Text
or_text s other = if is_nil s then other else s

abbrev pub or_time : ℕ → ℕ → ℕ
or_time t other = if is_zero t then other else t

module _ (path_unescape : Text → Option Text) (format_stamp format_rfc3339 : ℕ → Text) where
  -- `generateContextID`, at the time `now`.
  unfoldable pub generate_context_id : ℕ → Text → Text
  generate_context_id now team_id =
      normalize_team_id path_unescape team_id ++ codes "-" ++ format_stamp now

  -- `buildTaskID`.
  unfoldable pub build_task_id : Text → Text → ℕ → Text → Text
  build_task_id team_id created_by created_at title =
      trim_space team_id
      ++ codes ":"
      ++ trim_space created_by
      ++ codes ":"
      ++ format_rfc3339 created_at
      ++ codes ":"
      ++ trim_space title

  -- `normalizeReplicatedTask`, at the time `now`.
  unfoldable pub normalize_replicated_task : ℕ → Text → Task → Task
  normalize_replicated_task now raw_team task =
      let team = normalize_team_id path_unescape raw_team in
      let status = or_text (normalize_task_status task.status) open_status in
      let title = trim_space task.title in
      let created_by = trim_space task.created_by in
      let created_at = or_time task.created_at now in
      let updated_at = or_time task.updated_at created_at in
      record {
        task_id =
            or_text (trim_space task.task_id) (build_task_id team created_by created_at title);
        team_id = team;
        channel_id = normalize_channel_id path_unescape task.channel_id;
        context_id = or_text (trim_space task.context_id) (generate_context_id now team);
        title = title;
        description = trim_space task.description;
        created_by = created_by;
        assignees = normalize_non_empty_strings task.assignees;
        status = status;
        priority = normalize_task_priority task.priority;
        due_at = task.due_at;
        labels = normalize_non_empty_strings task.labels;
        origin_public_key = task.origin_public_key;
        parent_public_key = task.parent_public_key;
        created_at = created_at;
        updated_at = updated_at;
        closed_at = closing_time status task.closed_at updated_at;
      }
