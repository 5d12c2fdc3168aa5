-- ===== src/Team/TaskApi/Deletion.antt =====
-- Tasks that other nodes send after a deletion (internal/aip2p/team/sync.go: `ApplyReplicatedTask`;
-- store.go: `deleteTaskNoCtx`).
use ai_p2p.Prelude.{ℕ, Bool, List, ◌≡◌, refl, ◌∙◌, Option, none}
use ai_p2p.Prelude.Results.{Result, ok, err, ◌>>=◌, eq_of_ok}
use ai_p2p.Text.{Text, trim_space}
use ai_p2p.Team.Id.{normalize_team_id}
use ai_p2p.Team.Task.{Task}
use ai_p2p.Team.TaskStore.{TaskFiles, TaskError, delete_task_indexed}
use ai_p2p.Team.TaskStore.Contract.{IsCodec, load-delete}
use ai_p2p.Team.TaskApi.Files.{put_files_self}
use ai_p2p.Team.TaskApi.{TeamFiles, put_files, load_task, delete_task}
use ai_p2p.Team.TaskApi.Replica.{incoming, apply, IsNamed, load-named, apply-latest}

module _ (marshal : Task → List ℕ) (unmarshal : List ℕ → Option Task)
    (path_unescape : Text → Option Text) (format_stamp format_rfc3339 : ℕ → Text) (now : ℕ)
    (raw_team : Text) where
  abbrev team : Text
  team = normalize_team_id path_unescape raw_team

  abbrev node : Task → Task
  node = incoming marshal unmarshal path_unescape format_stamp format_rfc3339 now raw_team

  abbrev receive : Task → TeamFiles → Result TaskError (Bool × TeamFiles)
  receive = apply marshal unmarshal path_unescape format_stamp format_rfc3339 now raw_team

  abbrev load_id : Text → TeamFiles → Result TaskError Task
  load_id = load_task marshal unmarshal path_unescape raw_team

  abbrev IsOurs : Task → Type 0
  IsOurs = IsNamed marshal unmarshal path_unescape format_stamp format_rfc3339 now raw_team

  -- A deleted task is not found any more.
  load-delete_task :
      (t : Task) (store after : TeamFiles)
      → IsOurs t
      → delete_task marshal unmarshal path_unescape raw_team t.task_id store ≡ ok after
      → load_id (trim_space t.task_id) after ≡ err TaskError.not_exist
  unfolding delete_task
  load-delete_task t store after named h =
      deleted (delete_task_indexed (trim_space t.task_id) (store team)) refl
        (rw (named.0, named.2, named.1) at h)
    where
      deleted :
          (r : Result TaskError TaskFiles)
          → delete_task_indexed (trim_space t.task_id) (store team) ≡ r
          → (r >>= (λ files. ok (put_files team files store))) ≡ ok after
          → load_id (trim_space t.task_id) after ≡ err TaskError.not_exist
      deleted (err e) d k = cc
      deleted (ok files) d k =
          load-named marshal unmarshal path_unescape format_stamp format_rfc3339 now raw_team t
            after named
          ∙ rw (← eq_of_ok TaskError k, put_files_self team files store)
              (load-delete marshal unmarshal (trim_space t.task_id) (store team) files d)

  -- A deletion leaves no trace that replication looks at: after a task of the team is deleted
  -- (`deleteTaskNoCtx`), applying a replicated task of its id stores it whatever its version, provided
  -- that the id is not empty, that the team's name is not empty and keeps its normal form when it is
  -- normalised again, and that unmarshalling reads back what marshalling wrote.
  pub apply_of_deleted :
      IsCodec marshal unmarshal
      → (t : Task) (store after : TeamFiles) → IsOurs t
      → delete_task marshal unmarshal path_unescape raw_team t.task_id store ≡ ok after
      → (stored : Bool) × (later : TeamFiles) × (receive t after ≡ ok (stored, later))
        × (load_id (trim_space t.task_id) later ≡ ok (node t))
  apply_of_deleted codec t store after named h =
      apply-latest marshal unmarshal path_unescape format_stamp format_rfc3339 now raw_team codec t
        none after named (load-delete_task t store after named h)
