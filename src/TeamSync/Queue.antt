-- ===== src/TeamSync/Queue.antt =====
-- The queue of published messages that wait for an acknowledgement, and the checkpoints
-- (internal/aip2p/team_sync.go: `writeTeamSyncState`, the `persist...` functions, `clearPending`, `markPendingStatus`, `bumpPendingRetry`,
-- `shouldRetryPending`, and the tests on what was seen). The path of the state is set. The file holds
-- what was last written, and each function is one step at one time `now`. The status that the
-- functions count for display is not modelled.
pub mod Pending
pub mod Retries
pub mod Superseded
pub mod Pruned
use ai_p2p.Prelude.{
  ℕ, ◌+◌, suc, ltb, leb, Bool, true, false, not, ◌&&◌, ◌||◌, List, [], ◌∷◌, if◌then◌else◌, is_nil,
  Option, none, some, keep,
}
use ai_p2p.Text.{Text, text_eq, trim_space}
use ai_p2p.TextMap.{TextMap, lookup, insert}
use ai_p2p.Team.Task.{is_zero}
use ai_p2p.TeamSync.Message.{
  TeamSyncMessage, TeamSyncAck, TeamSyncType, team_sync_type, normalize_sync, sync_key,
  team_sync_state_key, team_sync_message_version, team_sync_version_after,
}
use ai_p2p.TeamSync.State.{
  Checkpoint, PeerAck, Conflict, PendingState, PersistedState, ack_retry_after, pending_max_retry,
  pending_max_age, no_pending, pending_status, expired_status, superseded_status, acked_status,
  published_checkpoint, set_checkpoint,
}
use ai_p2p.TeamSync.Merge.{merge_team_sync_state}
use ai_p2p.TeamSync.Compact.{is_spent, rewrite_entries, compact_team_sync_state}

-- A node's runtime: its memory, and the file of its state.
pub record Runtime : Type 0 where
  pub node_id : Text
  pub started_at : ℕ
  pub seen : TextMap ℕ
  pub state : PersistedState
  pub file : PersistedState

-- `writeTeamSyncState`: the file after the write.
unfoldable pub write_team_sync_state : ℕ → PersistedState → PersistedState → PersistedState
write_team_sync_state now state current =
    compact_team_sync_state now (merge_team_sync_state current state)

-- The end of every function that changes the state: compact it, keep it, write it. The maps of the
-- state that is written are the ones in memory, so what the write merges and compacts is in memory too.
unfoldable pub save_state : ℕ → PersistedState → Runtime → Runtime
save_state now changed r =
    let written = write_team_sync_state now (compact_team_sync_state now changed) r.file in
    record r { state = written; file = written }

-- The loop of `persistPending`: the other pending messages of the same cursor are superseded.
unfoldable pub supersede : ℕ → Text → Text → Text → PendingState → Option PendingState
supersede now sync_key state_key key item =
    if text_eq key sync_key
    then some item
    else if text_eq (trim_space item.state_key) state_key
        && text_eq (trim_space item.status) pending_status
    then some (record item { status = superseded_status; updated_at = now })
    else some item

abbrev pub pending_or_none : Option PendingState → PendingState
pending_or_none none = no_pending
pending_or_none (some item) = item

-- The pending map after `persistPending`.
unfoldable pub put_pending : ℕ → Text → Text → ℕ → TextMap PendingState → TextMap PendingState
put_pending now sync_key state_key version pending =
    let others = rewrite_entries (supersede now sync_key state_key) pending in
    insert sync_key
      (record (pending_or_none (lookup sync_key others)) {
        version_at = version;
        key = sync_key;
        state_key = state_key;
        status = pending_status;
        updated_at = now;
      })
      others

-- `item, ok := state.Pending[key]`, and a change of the item where there is one.
abbrev pub change_found :
    ℕ → Text → (PendingState → PendingState) → Option PendingState → Runtime → Runtime
change_found now key change none r = r
change_found now key change (some item) r =
    save_state now (record r.state { pending = insert key (change item) r.state.pending }) r

unfoldable pub update_pending : ℕ → Text → (PendingState → PendingState) → Runtime → Runtime
update_pending now raw_key change r =
    let key = trim_space raw_key in
    if is_nil key then r else change_found now key change (lookup key r.state.pending) r

abbrev pub with_status : ℕ → Text → PendingState → PendingState
with_status now status item = record item { status = status; updated_at = now }

abbrev pub retried : ℕ → PendingState → PendingState
retried now item = record item {
  status = pending_status;
  retry_count = suc item.retry_count;
  updated_at = now;
}

-- `clearPending`.
unfoldable pub clear_pending : ℕ → Text → Runtime → Runtime
clear_pending now key r = update_pending now key (with_status now acked_status) r

-- `markPendingStatus`.
unfoldable pub mark_pending_status : ℕ → Text → Text → Runtime → Runtime
mark_pending_status now key status r =
    let next = update_pending now key (with_status now (trim_space status)) r in
    if is_nil (trim_space status) then r else next

-- `bumpPendingRetry`.
unfoldable pub bump_pending_retry : ℕ → Text → Runtime → Runtime
bump_pending_retry now key r = update_pending now key (retried now) r

-- `shouldRetryPending`: whether an item has waited for long enough.
unfoldable pub has_waited : ℕ → PendingState → Bool
has_waited now item = is_zero item.updated_at || ltb (item.updated_at + ack_retry_after) now

-- `if strings.TrimSpace(item.Status) == "" { item.Status = "pending" }` and the test after it.
unfoldable pub is_waiting : PendingState → Bool
is_waiting item = is_nil (trim_space item.status) || text_eq item.status pending_status

-- `shouldRetryPending`, once the item is looked up.
abbrev pub retry_found : ℕ → Text → Option PendingState → Runtime → Bool × Runtime
retry_found now key none r = (false, r)
retry_found now key (some item) r =
    if not (is_waiting item)
    then (false, r)
    else if is_spent now item
    then (false, mark_pending_status now key expired_status r)
    else (has_waited now item, r)

-- `shouldRetryPending`.
unfoldable pub should_retry_pending : ℕ → Text → Runtime → Bool × Runtime
should_retry_pending now raw_key r =
    let key = trim_space raw_key in
    if is_nil key then (false, r) else retry_found now key (lookup key r.state.pending) r

-- `_, ok := m[key]`.
abbrev pub is_found {ℓ} : {A : Type ℓ} → Option A → Bool
is_found none = false
is_found (some a) = true

-- `seenKey`.
unfoldable pub seen_key : Text → Runtime → Bool
seen_key key r = is_found (lookup key r.seen)

-- `rememberSeen`.
unfoldable pub remember_seen : ℕ → Text → Runtime → Runtime
remember_seen now key r =
    if is_nil (trim_space key) then r else record r { seen = insert key now r.seen }

-- `pruneSeen`.
unfoldable pub prune_seen : ℕ → ℕ → Runtime → Runtime
unfolding keep
prune_seen now max_age r =
    let pruned = record r { seen = keep (λ e. not (ltb (e.1 + max_age) now)) r.seen } in
    if is_zero max_age then r else pruned

-- `shouldPublishSinceStart`.
unfoldable pub should_publish_since_start : ℕ → Runtime → Bool
should_publish_since_start at r = if is_zero at then false else ltb r.started_at at

-- `shouldPublishSnapshot`.
unfoldable pub should_publish_snapshot : Text → ℕ → Runtime → Bool
should_publish_snapshot state_key version r =
    if is_zero version then false else elim (published_checkpoint state_key r.state) [
      | some checkpoint ↦ team_sync_version_after version checkpoint.version_at
      | none ↦ should_publish_since_start version r
    ]

abbrev pub is_ack : TeamSyncType → Bool
is_ack TeamSyncType.ack = true
is_ack _ = false

module _ (path_unescape : Text → Option Text) (format_stamp format_rfc3339 : ℕ → Text) where
  -- `persistCheckpoint`.
  unfoldable pub persist_checkpoint : ℕ → TeamSyncMessage → ℕ → Bool → Runtime → Runtime
  persist_checkpoint now m version is_applied r =
      let state_key = team_sync_state_key path_unescape format_stamp format_rfc3339 now m in
      let checkpoint : Checkpoint = record {
        version_at = version;
        key = sync_key path_unescape format_stamp format_rfc3339 m;
        updated_at = 0;
      } in
      let changed =
        if is_applied
        then record r.state { applied = insert state_key checkpoint r.state.applied }
        else set_checkpoint state_key checkpoint r.state in
      if is_nil state_key || is_zero version then r else save_state now changed r

  -- `persistPending`.
  unfoldable pub persist_pending : ℕ → TeamSyncMessage → ℕ → Runtime → Runtime
  persist_pending now m version r =
      let key = trim_space (sync_key path_unescape format_stamp format_rfc3339 m) in
      let state_key = team_sync_state_key path_unescape format_stamp format_rfc3339 now m in
      let changed = record r.state {
        pending = put_pending now key state_key version r.state.pending;
      } in
      if is_nil key || is_zero version then r else save_state now changed r

  -- `persistPublished`.
  unfoldable pub persist_published : ℕ → TeamSyncMessage → ℕ → Runtime → Runtime
  persist_published now m version r =
      let saved = persist_checkpoint now m version false r in
      if is_ack
        (team_sync_type (normalize_sync path_unescape format_stamp format_rfc3339 now m).kind)
      then saved
      else persist_pending now m version saved

  -- `persistApplied`.
  unfoldable pub persist_applied : ℕ → TeamSyncMessage → Runtime → Runtime
  persist_applied now m r =
      persist_checkpoint now m
        (team_sync_message_version path_unescape format_stamp format_rfc3339 now m) true r

  -- What the scans do with one item (`syncTeamMessages` and the functions after it), once they have
  -- built its message: `first_scan` and the key of its cursor decide whether it is published, and
  -- `delivered` is whether the transport takes it. The result tells whether it was published.
  unfoldable pub scan_item :
      ℕ → Bool → Bool → Text → Text → ℕ → TeamSyncMessage → Runtime → Bool × Runtime
  scan_item now first_scan delivered sync_key cursor version m r0 =
      let decision = should_retry_pending now sync_key r0 in
      let retry = decision.0 in
      let r = decision.1 in
      let sent = remember_seen now sync_key r in
      let counted = if retry then bump_pending_retry now (trim_space sync_key) sent else sent in
      if first_scan && (not retry && not (should_publish_snapshot cursor version r))
      then (false, remember_seen now sync_key r)
      else if not retry && seen_key sync_key r
      then (false, r)
      else if not delivered
      then (false, r)
      else (true, persist_published now m version counted)
