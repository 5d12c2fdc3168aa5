-- ===== src/Team/TaskApi/Create.antt =====
-- A new task (internal/aip2p/team/store.go: `appendTaskNoCtx`; backend_helpers.go:
-- `appendTaskCurrentLocked`).
use ai_p2p.Prelude.{ℕ, not, List, [], if◌then◌else◌, is_nil, Option}
use ai_p2p.Prelude.Results.{Result, ok, ◌>>◌, require}
use ai_p2p.Text.{Text, text_eq, trim_space}
use ai_p2p.TextMap.{TextMap}
use ai_p2p.Team.Id.{normalize_team_id, normalize_channel_id}
use ai_p2p.Team.TaskState.{
  open_status, normalize_task_status, is_terminal_state, TaskTransitionRule,
  is_valid_transition_with_policy,
}
use ai_p2p.Team.Task.{
  Task, or_text, or_time, normalize_task_priority, normalize_non_empty_strings, generate_context_id,
  build_task_id,
}
use ai_p2p.Team.TaskStore.{TaskError, append_task_indexed}
use ai_p2p.Team.TaskApi.{TeamFiles, put_files, team_directory}

module _ (marshal : Task → List ℕ) (unmarshal : List ℕ → Option Task)
    (path_unescape : Text → Option Text) (format_stamp format_rfc3339 : ℕ → Text) (now : ℕ) where
  -- `if strings.TrimSpace(task.TeamID) == "" { task.TeamID = teamID }` and the line after it.
  unfoldable pub named_team : Text → Task → Text
  named_team team task =
      normalize_team_id path_unescape
        (if is_nil (trim_space task.team_id) then team else task.team_id)

  -- `if IsTerminalState(task.Status) && task.ClosedAt.IsZero()`: the time given stays otherwise.
  unfoldable pub created_closing_time : Text → ℕ → ℕ → ℕ
  created_closing_time status closed_at updated_at =
      if is_terminal_state status then or_time closed_at updated_at else closed_at

  -- The task that `appendTaskNoCtx` writes. Its id is checked for blanks but not trimmed.
  unfoldable pub created_task : Text → Task → Task
  created_task team task =
      let status = or_text (normalize_task_status task.status) open_status in
      let title = trim_space task.title in
      let created_by = trim_space task.created_by in
      let created_at = or_time task.created_at now in
      let updated_at = or_time task.updated_at created_at in
      let built =
        build_task_id path_unescape format_stamp format_rfc3339 team created_by created_at title in
      record task {
        task_id = if is_nil (trim_space task.task_id) then built else task.task_id;
        team_id = team;
        channel_id = normalize_channel_id path_unescape task.channel_id;
        context_id =
            or_text (trim_space task.context_id)
              (generate_context_id path_unescape format_stamp format_rfc3339 now team);
        title = title;
        description = trim_space task.description;
        created_by = created_by;
        assignees = normalize_non_empty_strings task.assignees;
        status = status;
        priority = normalize_task_priority task.priority;
        labels = normalize_non_empty_strings task.labels;
        created_at = created_at;
        updated_at = updated_at;
        closed_at = created_closing_time status task.closed_at updated_at;
      }

  -- `appendTaskNoCtx`, with the transitions of the team's policy.
  unfoldable pub append_task :
      TextMap TaskTransitionRule → Text → Task → TeamFiles → Result TaskError TeamFiles
  append_task transitions raw_team task store =
      let team = normalize_team_id path_unescape raw_team in
      let dir = team_directory marshal unmarshal path_unescape team in
      let new = created_task team task in
      require (not (is_nil team)) TaskError.empty_team_id
      >> (require (text_eq (named_team team task) team) TaskError.team_mismatch
          >> (require (not (is_nil (trim_space task.title))) TaskError.empty_title
              >> (require (is_valid_transition_with_policy [] new.status transitions)
                    TaskError.invalid_transition
                  >> ok (
                      put_files dir (append_task_indexed marshal unmarshal new (store dir))
                        store))))
