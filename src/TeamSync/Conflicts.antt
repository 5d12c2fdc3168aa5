-- ===== src/TeamSync/Conflicts.antt =====
-- The conflicts of the synchronisation (internal/aip2p/team_sync.go: `persistConflict`,
-- `LoadTeamSyncConflicts`, `ResolveTeamSyncConflict`, `teamSyncConflictReplaySafe`). The file is an
-- argument and can be read and written. `ForceApplyReplicatedSync` on the store is an argument, and so
-- is what it answers.
pub mod Resolution
pub mod Resolve
pub mod Refusal
pub mod Shown
pub mod Listing
use ai_p2p.Prelude.{
  ℕ, zero, suc, ltb, Bool, true, false, not, ◌&&◌, ◌||◌, List, [], ◌∷◌, if◌then◌else◌, is_nil,
  Option, none, some, keep, map, ◌==◌,
}
use ai_p2p.Prelude.Results.{Result, ok, err}
use ai_p2p.Prelude.Sorting.{sort_stable}
use ai_p2p.Text.{Text, codes, text_eq, trim_space}
use ai_p2p.TextMap.{TextMap, lookup, insert}
use ai_p2p.Team.Id.{normalize_team_id}
use ai_p2p.TeamSync.Message.{
  TeamSyncMessage, TeamSyncType, team_sync_type, normalize_sync, sync_key,
}
use ai_p2p.TeamSync.State.{Conflict, PersistedState}
use ai_p2p.TeamSync.Queue.{Runtime, save_state, write_team_sync_state}

-- `teamcore.TeamSyncConflict`.
pub record TeamSyncConflict : Type 0 where
  pub kind : Text
  pub team_id : Text
  pub subject_id : Text
  pub source_node : Text
  pub reason : Text
  pub local_version : ℕ
  pub remote_version : ℕ
  pub resolution : Text
  pub resolved_by : Text
  pub resolved_at : ℕ

-- `TeamSyncConflictFilter`. A limit that is not positive is zero.
pub record ConflictFilter : Type 0 where
  pub kind : Text
  pub subject_id : Text
  pub source_node : Text
  pub limit : ℕ
  pub include_resolved : Bool

-- `TeamSyncConflictRecord`.
pub record ConflictRecord : Type 0 where
  pub key : Text
  pub kind : Text
  pub team_id : Text
  pub subject_id : Text
  pub source_node : Text
  pub reason : Text
  pub local_version : ℕ
  pub remote_version : ℕ
  pub resolution : Text
  pub resolved_by : Text
  pub resolved_at : ℕ
  pub updated_at : ℕ
  pub sync_type : Text

-- The errors of `ResolveTeamSyncConflict`.
pub data ResolveError : Type 0 where
  not_exist invalid : ResolveError
  apply_failed : Text → ResolveError

abbrev pub record_of : Conflict → ConflictRecord
record_of c = record {
  key = c.key;
  kind = c.kind;
  team_id = c.team_id;
  subject_id = c.subject_id;
  source_node = c.source_node;
  reason = c.reason;
  local_version = c.local_version;
  remote_version = c.remote_version;
  resolution = c.resolution;
  resolved_by = c.resolved_by;
  resolved_at = c.resolved_at;
  updated_at = c.updated_at;
  sync_type = c.sync.kind;
}

-- A filter that is empty lets everything pass.
abbrev pub passes_filter : Text → Text → Bool
passes_filter wanted value = is_nil wanted || text_eq (trim_space value) (trim_space wanted)

-- `items[:filter.Limit]`.
unfoldable pub take {ℓ} : {A : Type ℓ} → ℕ → List A → List A
take zero xs = []
take (suc n) [] = []
take (suc n) (x ∷ xs) = x ∷ take n xs

abbrev pub newer_record : ConflictRecord → ConflictRecord → Bool
newer_record a b = ltb b.updated_at a.updated_at

-- The switch of `teamSyncConflictReplaySafe`.
abbrev pub is_replayed : TeamSyncType → Bool
is_replayed TeamSyncType.task = true
is_replayed TeamSyncType.artifact = true
is_replayed TeamSyncType.member = true
is_replayed TeamSyncType.policy = true
is_replayed TeamSyncType.channel = true
is_replayed TeamSyncType.channel_config = true
is_replayed _ = false

-- `case "dismiss", "keep_local"`.
abbrev pub keeps_local : Text → Bool
keeps_local action = text_eq action (codes "dismiss") || text_eq action (codes "keep_local")

-- The error of `ForceApplyReplicatedSync` is passed on.
abbrev pub apply_result {ℓ} : {S : Type ℓ} → Result Text S → Result ResolveError S
apply_result (ok after) = ok after
apply_result (err failure) = err (ResolveError.apply_failed failure)

-- The conflict that `ResolveTeamSyncConflict` stores.
abbrev pub resolved_conflict : ℕ → Text → Text → Conflict → Conflict
resolved_conflict now action actor c = record c {
  resolution = action;
  resolved_by = trim_space actor;
  resolved_at = now;
  updated_at = now;
}

module _ (path_unescape : Text → Option Text) (format_stamp format_rfc3339 : ℕ → Text) where
  -- The conflict that `persistConflict` stores.
  unfoldable pub stored_conflict : ℕ → TeamSyncMessage → TeamSyncConflict → Conflict
  stored_conflict now raw c =
      let m = normalize_sync path_unescape format_stamp format_rfc3339 now raw in
      record {
        key = trim_space (sync_key path_unescape format_stamp format_rfc3339 m);
        kind = trim_space c.kind;
        team_id = normalize_team_id path_unescape c.team_id;
        subject_id = trim_space c.subject_id;
        source_node = trim_space c.source_node;
        reason = trim_space c.reason;
        local_version = c.local_version;
        remote_version = c.remote_version;
        resolution = trim_space c.resolution;
        resolved_by = trim_space c.resolved_by;
        resolved_at = c.resolved_at;
        sync = m;
        updated_at = now;
      }

  -- `persistConflict`.
  unfoldable pub persist_conflict : ℕ → TeamSyncMessage → TeamSyncConflict → Runtime → Runtime
  persist_conflict now m c r =
      let stored = stored_conflict now m c in
      if is_nil stored.key
      then r
      else save_state now
          (record r.state { conflicts = insert stored.key stored r.state.conflicts }) r

  -- The tests in the loop of `LoadTeamSyncConflicts`; `team_id` is normal.
  unfoldable pub is_listed : Text → ConflictFilter → Conflict → Bool
  is_listed team_id filter c =
      (is_nil team_id || text_eq (normalize_team_id path_unescape c.team_id) team_id)
      && ((filter.include_resolved || is_nil (trim_space c.resolution))
          && (passes_filter filter.kind c.kind
              && (passes_filter filter.subject_id c.subject_id
                  && passes_filter filter.source_node c.source_node)))

  -- The listed conflicts of a state, in the order of its entries.
  unfoldable pub listed_records : Text → ConflictFilter → TextMap Conflict → List ConflictRecord
  unfolding keep
  listed_records team_id filter conflicts =
      map (λ e. record_of e.1) (keep (λ e. is_listed team_id filter e.1) conflicts)

  -- `LoadTeamSyncConflicts`.
  unfoldable pub load_team_sync_conflicts :
      Text → ConflictFilter → PersistedState → List ConflictRecord
  load_team_sync_conflicts raw_team filter state =
      let items =
        sort_stable newer_record
          (listed_records (normalize_team_id path_unescape raw_team) filter state.conflicts) in
      if filter.limit == 0 then items else take filter.limit items

  -- `teamSyncConflictReplaySafe`, at the time `now`.
  unfoldable pub is_replay_safe : ℕ → Conflict → Bool
  is_replay_safe now c =
      is_replayed
        (team_sync_type (normalize_sync path_unescape format_stamp format_rfc3339 now c.sync).kind)

  -- The switch on the action in `ResolveTeamSyncConflict`: the store after it, or the error.
  unfoldable pub act {ℓ} :
      {S : Type ℓ}
      → (TeamSyncMessage → S → Result Text S)
      → ℕ
      → Text
      → Conflict
      → S
      → Result ResolveError S
  act force_apply now action c store =
      if keeps_local action
      then ok store
      else if text_eq action (codes "accept_remote")
      then if is_replay_safe now c
        then apply_result (force_apply c.sync store)
        else err ResolveError.invalid
      else err ResolveError.invalid

  -- The end of `ResolveTeamSyncConflict`, once the action has its result.
  abbrev pub store_resolved {ℓ} :
      {S : Type ℓ}
      → ℕ
      → Text
      → Conflict
      → PersistedState
      → Result ResolveError S
      → Result ResolveError (ConflictRecord × S × PersistedState)
  store_resolved now key resolved file (err failure) = err failure
  store_resolved now key resolved file (ok after) = ok (
    record_of resolved,
    after,
    write_team_sync_state now (record file { conflicts = insert key resolved file.conflicts }) file,
  )

  -- The same, once the conflict is looked up; `team_id` and `action` are normal.
  abbrev pub resolve_found {ℓ} :
      {S : Type ℓ}
      → (TeamSyncMessage → S → Result Text S)
      → ℕ
      → Text
      → Text
      → Text
      → Text
      → S
      → PersistedState
      → Option Conflict
      → Result ResolveError (ConflictRecord × S × PersistedState)
  resolve_found force_apply now team_id key action actor store file none =
      err ResolveError.not_exist
  resolve_found force_apply now team_id key action actor store file (some c) =
      if not (is_nil team_id) && not (text_eq (normalize_team_id path_unescape c.team_id) team_id)
      then err ResolveError.not_exist
      else store_resolved now key (resolved_conflict now action actor c) file
          (act force_apply now action c store)

  -- `ResolveTeamSyncConflict`: the record, the store and the file after it, or the error.
  unfoldable pub resolve_team_sync_conflict {ℓ} :
      {S : Type ℓ}
      → (TeamSyncMessage → S → Result Text S)
      → ℕ
      → Text
      → Text
      → Text
      → Text
      → S
      → PersistedState
      → Result ResolveError (ConflictRecord × S × PersistedState)
  resolve_team_sync_conflict force_apply now raw_team raw_key raw_action actor store file =
      resolve_found force_apply now (normalize_team_id path_unescape raw_team) (trim_space raw_key)
        (trim_space raw_action) actor store file (lookup (trim_space raw_key) file.conflicts)
