-- ===== src/TeamSync/Detect.antt =====
-- Conflicts between a replicated task and the stored one (internal/aip2p/team/sync.go:
-- `DetectReplicatedConflict` for a task). `reflect.DeepEqual` is an argument.
pub mod Laws
use ai_p2p.Prelude.{
  ℕ, Bool, true, false, not, ◌&&◌, List, [], if◌then◌else◌, is_nil, Option, none, some, ◌==◌,
}
use ai_p2p.Prelude.Results.{Result, ok, err}
use ai_p2p.Text.{Text, codes}
use ai_p2p.Team.Task.{Task, normalize_replicated_task, task_version, replicated_version_after}
use ai_p2p.Team.TaskStore.{TaskError}
use ai_p2p.Team.TaskApi.{TeamFiles, load_task}
use ai_p2p.TeamSync.Message.{TeamSyncMessage, normalize_sync}
use ai_p2p.TeamSync.Conflicts.{TeamSyncConflict}

module _ (deep_equal : Task → Task → Bool) where
  -- The test on the stored task and the remote one.
  unfoldable pub diverges : Task → Task → Bool
  diverges current remote =
      not (replicated_version_after (task_version remote) (task_version current))
      && not (deep_equal current remote)

  -- The conflict that is reported, if any; the message is normal.
  unfoldable pub task_conflict : TeamSyncMessage → Task → Task → Option TeamSyncConflict
  task_conflict m remote current =
      let conflict : TeamSyncConflict = record {
        kind = m.kind;
        team_id = m.team_id;
        subject_id = remote.task_id;
        source_node = m.source_node;
        reason =
            if task_version remote == task_version current
            then codes "same_version_diverged"
            else codes "local_newer";
        local_version = task_version current;
        remote_version = task_version remote;
        resolution = [];
        resolved_by = [];
        resolved_at = 0;
      } in
      if diverges current remote then some conflict else none

  -- The switch on the error of `loadTaskNoCtx`.
  abbrev pub conflict_over :
      TeamSyncMessage → Task → Result TaskError Task → Result TaskError (Option TeamSyncConflict)
  conflict_over m remote (ok current) = ok (task_conflict m remote current)
  conflict_over m remote (err TaskError.not_exist) = ok none
  conflict_over m remote (err e) = err e

  module _ (marshal : Task → List ℕ) (unmarshal : List ℕ → Option Task)
      (path_unescape : Text → Option Text) (format_stamp format_rfc3339 : ℕ → Text) where
    abbrev pub detect_task :
        ℕ → TeamSyncMessage → Option Task → TeamFiles → Result TaskError (Option TeamSyncConflict)
    detect_task now m none store = ok none
    detect_task now m (some task) store =
        conflict_over m
          (normalize_replicated_task path_unescape format_stamp format_rfc3339 now m.team_id task)
          (load_task marshal unmarshal path_unescape m.team_id task.task_id store)

    -- `DetectReplicatedConflict` for a message of type "task", at the time `now`.
    unfoldable pub detect_replicated_conflict :
        ℕ → TeamSyncMessage → TeamFiles → Result TaskError (Option TeamSyncConflict)
    detect_replicated_conflict now raw store =
        let m = normalize_sync path_unescape format_stamp format_rfc3339 now raw in
        if is_nil m.team_id then err TaskError.empty_team_id else detect_task now m m.task store
