-- ===== src/Team/Tests/Files/Detection.antt =====
-- An example of a conflict between a stored task and a replicated one.
use ai_p2p.Prelude.{Bool, [], none, some}
use ai_p2p.Text.{codes, text_eq}
use ai_p2p.Team.Task.{Task, normalize_replicated_task}
use ai_p2p.Team.TaskApi.{load_task, apply_replicated_task}
use ai_p2p.TeamSync.Message.{
  TeamSyncMessage, normalize_sync, team_sync_type, normalize_team_sync_type,
}
use ai_p2p.TeamSync.Detect.{diverges, task_conflict, detect_replicated_conflict}
use ai_p2p.Team.Tests.Codec.{print_task}
use ai_p2p.Team.Tests.Files.{as_it_is, task_files, task, blank}

detection : Unit {0}
unfolding task_files normalize_sync team_sync_type normalize_team_sync_type diverges task_conflict
    detect_replicated_conflict load_task apply_replicated_task
detection = tt

-- Tasks are equal when they are written in the same way.
abbrev same_bytes : Task → Task → Bool
same_bytes a b = text_eq (print_task a) (print_task b)

-- A task of the stored version, with another status.
abbrev other_ship : TeamSyncMessage
other_ship = record {
  kind = codes "task";
  team_id = codes "team";
  message = none;
  history = none;
  task = some (task (codes "t1") (codes "doing") 5);
  artifact = none;
  members = [];
  policy = none;
  channel = none;
  channel_config = none;
  ack = none;
  source_node = codes "b";
  created_at = 6;
}

abbrev normal_ship : Task
normal_ship =
    normalize_replicated_task as_it_is blank blank 9 (codes "team")
      (task (codes "t1") (codes "doing") 5)
