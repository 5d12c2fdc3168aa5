-- ===== src/Team/TaskApi/Again.antt =====
-- Tasks that other nodes send a second time (internal/aip2p/team/sync.go: `ApplyReplicatedTask`).
use ai_p2p.Prelude.{ℕ, ltb, Bool, false, List, ◌≡◌, refl, ap, ◌∙◌, Option, none, some, arith}
use ai_p2p.Prelude.Results.{Result, ok}
use ai_p2p.Text.{Text, trim_space}
use ai_p2p.Team.Id.{normalize_team_id}
use ai_p2p.Team.Task.{Task, task_version}
use ai_p2p.Team.TaskStore.{TaskError}
use ai_p2p.Team.TaskStore.Contract.{IsCodec}
use ai_p2p.Team.TaskApi.{TeamFiles, load_task, apply_over}
use ai_p2p.Team.TaskApi.Replica.{
  found, latest, incoming, apply, IsNamed, replicated_version_after-ltb, apply-over, apply-latest,
}

module _ (marshal : Task → List ℕ) (unmarshal : List ℕ → Option Task)
    (path_unescape : Text → Option Text) (format_stamp format_rfc3339 : ℕ → Text) (now : ℕ)
    (raw_team : Text) where
  abbrev team : Text
  team = normalize_team_id path_unescape raw_team

  abbrev node : Task → Task
  node = incoming marshal unmarshal path_unescape format_stamp format_rfc3339 now raw_team

  abbrev receive : Task → TeamFiles → Result TaskError (Bool × TeamFiles)
  receive = apply marshal unmarshal path_unescape format_stamp format_rfc3339 now raw_team

  abbrev load_id : Text → TeamFiles → Result TaskError Task
  load_id = load_task marshal unmarshal path_unescape raw_team

  abbrev IsOurs : Task → Type 0
  IsOurs = IsNamed marshal unmarshal path_unescape format_stamp format_rfc3339 now raw_team

  not-later :
      (t : Task) (current : Option Task)
      → ltb (task_version (latest t current)) (task_version t) ≡ false
  not-later t none = ground arith
  not-later t (some c) = ground arith

  apply_over-refused :
      (t c : Task) (store : TeamFiles)
      → ltb (task_version c) (task_version t) ≡ false
      → apply_over marshal unmarshal path_unescape team t (ok c) store ≡ ok (false, store)
  unfolding apply_over
  apply_over-refused t c store h =
      rw (replicated_version_after-ltb (task_version t) (task_version c), h) refl

  -- Receiving a task again changes nothing: once a replicated task has been applied, applying it a
  -- second time at the same instant reports that nothing was stored and returns the store as it is.
  -- The conditions are those of `apply-latest`.
  apply-again :
      IsCodec marshal unmarshal
      → (t : Task) (current : Option Task) (store : TeamFiles) → IsOurs t
      → load_id (trim_space t.task_id) store ≡ found current
      → (stored : Bool) × (after : TeamFiles) × (receive t store ≡ ok (stored, after))
        × (receive t after ≡ ok (false, after))
  apply-again codec t current store named h =
      let (stored, after, r, l) =
        apply-latest marshal unmarshal path_unescape format_stamp format_rfc3339 now raw_team codec
          t current store named h in
      (
        stored,
        after,
        r,
        apply-over marshal unmarshal path_unescape format_stamp format_rfc3339 now raw_team t after
              named
            ∙ ap (λ r. apply_over marshal unmarshal path_unescape team (node t) r after) l
            ∙ apply_over-refused (node t) (latest (node t) current) after
                (not-later (node t) current),
      )
