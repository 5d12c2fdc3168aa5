-- ===== src/Team/TaskApi/Replica.antt =====
-- Tasks that other nodes send (internal/aip2p/team/sync.go: `ApplyReplicatedTask`).
use ai_p2p.Prelude.{
  ℕ, ltb, Bool, true, false, List, ◌≡◌, ◌≢◌, refl, sym, ap, ◌∙◌, if◌then◌else◌, is_nil, Option,
  none, some, arith, Bool-cases, inl, inr,
}
use ai_p2p.Prelude.Results.{Result, ok, err}
use ai_p2p.Text.{Text, trim_space}
use ai_p2p.Text.Laws.{trim_space_idem}
use ai_p2p.Team.Id.{normalize_team_id}
use ai_p2p.Team.Task.{Task, normalize_replicated_task, task_version, replicated_version_after}
use ai_p2p.Team.TaskStore.{TaskError, append_task_indexed, load_task_from_index}
use ai_p2p.Team.TaskStore.Contract.{IsCodec, load-append}
use ai_p2p.Team.TaskApi.Files.{put_files_self}
use ai_p2p.Team.TaskApi.{
  TeamFiles, load_task, upsert_replicated_task, apply_over, apply_replicated_task,
}

-- What loading a task gives when the files can be read: the task, or that there is none.
abbrev pub found : Option Task → Result TaskError Task
found none = err TaskError.not_exist
found (some t) = ok t

-- Which of two versions of a task a node keeps: the later one, and its own when neither is later.
abbrev pub latest : Task → Option Task → Task
latest t none = t
latest t (some c) = if ltb (task_version c) (task_version t) then t else c

pub replicated_version_after-ltb :
    (next current : ℕ) → replicated_version_after next current ≡ ltb current next
unfolding replicated_version_after
replicated_version_after-ltb next current = ground arith

-- The order in which two tasks of different versions arrive does not matter.
latest_comm :
    (a b : Task) (current : Option Task)
    → task_version a ≢ task_version b
    → latest b (some (latest a current)) ≡ latest a (some (latest b current))
latest_comm a b none h = ground arith
latest_comm a b (some c) h = ground arith

module _ (marshal : Task → List ℕ) (unmarshal : List ℕ → Option Task)
    (path_unescape : Text → Option Text) (format_stamp format_rfc3339 : ℕ → Text) (now : ℕ)
    (raw_team : Text) where
  abbrev pub team : Text
  team = normalize_team_id path_unescape raw_team

  -- The task as the node stores it.
  abbrev pub incoming : Task → Task
  incoming t = normalize_replicated_task path_unescape format_stamp format_rfc3339 now team t

  abbrev pub apply : Task → TeamFiles → Result TaskError (Bool × TeamFiles)
  apply t store =
      apply_replicated_task marshal unmarshal path_unescape format_stamp format_rfc3339 now raw_team
        t store

  abbrev pub load : Text → TeamFiles → Result TaskError Task
  load task_id store = load_task marshal unmarshal path_unescape raw_team task_id store

  -- The names that `ApplyReplicatedTask` refuses when they are empty are not, and the normal form of
  -- the team's name stays as it is when it is normalised again.
  abbrev pub IsNamed : Task → Type 0
  IsNamed t =
      (is_nil team ≡ false)
      × (normalize_team_id path_unescape team ≡ team)
      × (is_nil (trim_space t.task_id) ≡ false)

  incoming-task_id : (t : Task) → IsNamed t → (incoming t).task_id ≡ trim_space t.task_id
  unfolding normalize_replicated_task
  incoming-task_id t named = rw (named.2) refl

  pub load-named :
      (t : Task) (store : TeamFiles)
      → IsNamed t
      → load (trim_space t.task_id) store
        ≡ load_task_from_index marshal unmarshal (trim_space t.task_id) (store team)
  unfolding load_task
  load-named t store named = rw (trim_space_idem t.task_id, named.0, named.1, named.2) refl

  load_again-named :
      (t : Task) (store : TeamFiles)
      → IsNamed t
      → load_task marshal unmarshal path_unescape team (trim_space t.task_id) store
        ≡ load (trim_space t.task_id) store
  unfolding load_task
  load_again-named t store named =
      rw (trim_space_idem t.task_id, named.0, named.1, named.2) (rw (named.0, named.1) refl)

  pub apply-over :
      (t : Task) (store : TeamFiles)
      → IsNamed t
      → apply t store
        ≡ apply_over marshal unmarshal path_unescape team
            (incoming t)
            (load (trim_space t.task_id) store)
            store
  unfolding apply_replicated_task
  apply-over t store named =
      rw
        (
          incoming-task_id t named,
          trim_space_idem t.task_id,
          named.0,
          named.2,
          load_again-named t store named,
        )
        refl

  load-upsert :
      IsCodec marshal unmarshal
      → (t : Task) (store : TeamFiles) → IsNamed t
      → load
          (trim_space t.task_id)
          (upsert_replicated_task marshal unmarshal path_unescape team (incoming t) store)
        ≡ ok (incoming t)
  unfolding upsert_replicated_task
  load-upsert codec t store named =
      load-named t _ named
      ∙ rw
          (
            named.1,
            put_files_self team (append_task_indexed marshal unmarshal (incoming t) (store team))
                store,
            ← incoming-task_id t named,
          )
          (load-append marshal unmarshal codec (incoming t) (store team))

  apply_over-latest :
      IsCodec marshal unmarshal
      → (t : Task) (current : Option Task) (store : TeamFiles) → IsNamed t
      → load (trim_space t.task_id) store ≡ found current
      → (stored : Bool) × (after : TeamFiles) × (apply_over marshal unmarshal path_unescape team
            (incoming t)
            (found current)
            store
          ≡ ok (stored, after))
        × (load (trim_space t.task_id) after ≡ ok (latest (incoming t) current))
  unfolding apply_over
  apply_over-latest codec t none store named h = (
    true,
    upsert_replicated_task marshal unmarshal path_unescape team (incoming t) store,
    refl,
    load-upsert codec t store named,
  )
  apply_over-latest codec t (some c) store named h =
      let later = replicated_version_after-ltb (task_version (incoming t)) (task_version c) in
      elim (Bool-cases (ltb (task_version c) (task_version (incoming t)))) [
        | inl newer ↦ (
          true,
          upsert_replicated_task marshal unmarshal path_unescape team (incoming t) store,
          rw (later, newer) refl,
          rw newer (load-upsert codec t store named),
        )
        | inr older ↦ (false, store, rw (later, older) refl, rw older h)
      ]

  -- Applying a replicated task whose id is not empty, to a team whose name is not empty and keeps its
  -- normal form when it is normalised again, returns no error, if the files are readable for its id
  -- and unmarshalling reads back what marshalling wrote. The team's id then loads (`loadTaskNoCtx`)
  -- the later of the two versions, where the node's own one stays unless the incoming one is strictly
  -- later.
  pub apply-latest :
      IsCodec marshal unmarshal
      → (t : Task) (current : Option Task) (store : TeamFiles) → IsNamed t
      → load (trim_space t.task_id) store ≡ found current
      → (stored : Bool) × (after : TeamFiles) × (apply t store ≡ ok (stored, after))
        × (load (trim_space t.task_id) after ≡ ok (latest (incoming t) current))
  apply-latest codec t current store named h =
      let (stored, after, r, l) = apply_over-latest codec t current store named h in
      (
        stored,
        after,
        apply-over t store named
            ∙ ap (λ r. apply_over marshal unmarshal path_unescape team (incoming t) r store) h
            ∙ r,
        l,
      )

  -- Replicas converge: two replicated tasks of one id that is not empty and of different versions
  -- leave the id with the same task (`loadTaskNoCtx`) in whichever order they are applied to the same
  -- team and files at the same instant, and each of the four applications returns no error. The
  -- team's name must not be empty and must keep its normal form when it is normalised again, the
  -- files must be readable for that id, and unmarshalling must read back what marshalling wrote.
  pub apply-converges :
      IsCodec marshal unmarshal
      → (a b : Task) (current : Option Task) (store : TeamFiles) → IsNamed a
      → IsNamed b
      → trim_space a.task_id ≡ trim_space b.task_id
      → task_version (incoming a) ≢ task_version (incoming b)
      → load (trim_space a.task_id) store ≡ found current
      → (x y z w : Bool) × (fa fab fb fba : TeamFiles) × (apply a store ≡ ok (x, fa))
        × (apply b fa ≡ ok (y, fab))
        × (apply b store ≡ ok (z, fb))
        × (apply a fb ≡ ok (w, fba))
        × (load (trim_space a.task_id) fab ≡ load (trim_space a.task_id) fba)
  apply-converges codec a b current files named_a named_b same differ h =
      let (x, fa, ea, la) = apply-latest codec a current files named_a h in
      let (y, fab, eb, lb) =
        apply-latest codec b (some (latest (incoming a) current)) fa named_b (rw (← same) la) in
      let (z, fb, ec, lc) = apply-latest codec b current files named_b (rw (← same) h) in
      let (w, fba, ed, ld) =
        apply-latest codec a (some (latest (incoming b) current)) fb named_a (rw same lc) in
      (
        x,
        y,
        z,
        w,
        fa,
        fab,
        fb,
        fba,
        ea,
        eb,
        ec,
        ed,
        (rw (← same) at lb)
            ∙ ap (λ t. found (some t)) (latest_comm (incoming a) (incoming b) current differ)
            ∙ sym ld,
      )
