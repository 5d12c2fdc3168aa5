-- ===== src/TeamSync/Detect/Laws.antt =====
-- When a conflict is reported (internal/aip2p/team/sync.go: `DetectReplicatedConflict` and
-- `ApplyReplicatedTask`).
use ai_p2p.Prelude.{ℕ, Bool, List, Option}
use ai_p2p.Prelude.Results.{Result}
use ai_p2p.Text.{Text}
use ai_p2p.Team.Task.{Task, normalize_replicated_task}
use ai_p2p.Team.TaskStore.{TaskError}
use ai_p2p.Team.TaskApi.{TeamFiles, apply_replicated_task}

module _ (deep_equal : Task → Task → Bool) (marshal : Task → List ℕ)
    (unmarshal : List ℕ → Option Task) (path_unescape : Text → Option Text)
    (format_stamp format_rfc3339 : ℕ → Text) (now : ℕ) where
  -- The task as a node of the team stores it.
  abbrev pub remote : Text → Task → Task
  remote team task =
      normalize_replicated_task path_unescape format_stamp format_rfc3339 now team task

  abbrev pub apply : Text → Task → TeamFiles → Result TaskError (Bool × TeamFiles)
  apply team task store =
      apply_replicated_task marshal unmarshal path_unescape format_stamp format_rfc3339 now team
        task store
