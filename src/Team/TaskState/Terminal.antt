-- ===== src/Team/TaskState/Terminal.antt =====
-- The terminal states (internal/aip2p/team/task_state.go: `IsTerminalState`, `IsValidTransition`).
use ai_p2p.Text.{Text}
use ai_p2p.Team.TaskState.Graph.{TaskState}

-- Where a state that is not terminal may lead.
next_state : TaskState → TaskState
next_state TaskState.doing = TaskState.blocked
next_state _ = TaskState.doing
