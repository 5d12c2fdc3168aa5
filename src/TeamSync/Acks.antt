-- ===== src/TeamSync/Acks.antt =====
-- Acknowledgements of published messages (internal/aip2p/team_sync.go: `handleAck`, `publishAck`,
-- `persistAck`, `persistPeerAck`). Whether the transport takes a message is an argument. The status
-- is not modelled, and a write of the file does not fail.
pub mod Delivery
pub mod Scanned
pub mod RoundTrip
use ai_p2p.Prelude.{
  ℕ, Bool, true, false, not, ◌&&◌, ◌||◌, [], if◌then◌else◌, is_nil, Option, none, some,
}
use ai_p2p.Text.{Text, codes, text_eq, trim_space}
use ai_p2p.TextMap.{TextMap, lookup, insert}
use ai_p2p.TeamSync.Message.{
  TeamSyncMessage, TeamSyncAck, team_sync_type, normalize_sync, sync_key, team_sync_state_key,
  team_sync_message_version, team_sync_version_after,
}
use ai_p2p.TeamSync.State.{Checkpoint, PeerAck, PersistedState, published_checkpoint}
use ai_p2p.TeamSync.Merge.{entries_or_none}
use ai_p2p.TeamSync.Queue.{
  Runtime, save_state, clear_pending, seen_key, remember_seen, is_ack, persist_checkpoint,
}

-- The peer acknowledgements after `persistPeerAck`.
unfoldable pub put_peer_ack :
    ℕ → TeamSyncAck → TextMap (TextMap PeerAck) → TextMap (TextMap PeerAck)
put_peer_ack now ack peers =
    let peer_id = trim_space ack.acked_by in
    let key = trim_space ack.acked_key in
    insert peer_id
      (insert key
        (record {
          acked_key = key;
          acked_by = peer_id;
          applied_at = ack.applied_at;
          updated_at = now;
        })
        (entries_or_none (lookup peer_id peers)))
      peers

-- `ackedKey == ""` and the tests of `handleAck` on who has sent the acknowledgement, and to whom.
unfoldable pub is_ack_for : Text → TeamSyncAck → Bool
is_ack_for node_id ack =
    let target = trim_space ack.target_node in
    not (is_nil (trim_space ack.acked_key))
    && (not (not (is_nil target) && not (text_eq target node_id))
        && not (is_nil (trim_space ack.acked_by) || text_eq ack.acked_by node_id))

-- The acknowledgement that `publishAck` builds.
abbrev pub ack_message : ℕ → Text → Text → Text → Text → TeamSyncMessage
ack_message now node_id team_id acked_key target_node = record {
  kind = codes "ack";
  team_id = team_id;
  message = none;
  history = none;
  task = none;
  artifact = none;
  members = [];
  policy = none;
  channel = none;
  channel_config = none;
  ack = some (record {
    acked_key = acked_key;
    acked_by = node_id;
    target_node = target_node;
    applied_at = now;
  });
  source_node = node_id;
  created_at = now;
}

abbrev pub is_covered : ℕ → Option Checkpoint → Bool
is_covered version none = false
is_covered version (some checkpoint) = not (team_sync_version_after version checkpoint.version_at)

module _ (path_unescape : Text → Option Text) (format_stamp format_rfc3339 : ℕ → Text) where
  -- `persistPeerAck`, once the message is normal.
  abbrev pub keep_peer_ack : ℕ → Option TeamSyncAck → Runtime → Runtime
  keep_peer_ack now none r = r
  keep_peer_ack now (some ack) r =
      if is_nil (trim_space ack.acked_by) || is_nil (trim_space ack.acked_key)
      then r
      else save_state now (record r.state { peer_acks = put_peer_ack now ack r.state.peer_acks }) r

  -- `persistPeerAck`.
  unfoldable pub persist_peer_ack : ℕ → TeamSyncMessage → Runtime → Runtime
  persist_peer_ack now m r =
      keep_peer_ack now (normalize_sync path_unescape format_stamp format_rfc3339 now m).ack r

  -- `persistAck`, after the checkpoint.
  abbrev pub clear_acked : ℕ → TeamSyncMessage → Option TeamSyncAck → Runtime → Runtime
  clear_acked now m none r = r
  clear_acked now m (some ack) r = clear_pending now ack.acked_key (persist_peer_ack now m r)

  -- `persistAck`.
  unfoldable pub persist_ack : ℕ → TeamSyncMessage → Runtime → Runtime
  persist_ack now m r =
      let version = team_sync_message_version path_unescape format_stamp format_rfc3339 now m in
      clear_acked now m m.ack
        (persist_checkpoint path_unescape format_stamp format_rfc3339 now m version false r)

  -- Whether `handleAck` has seen what the acknowledgement says: the checkpoint of its cursor is there
  -- and is not older.
  unfoldable pub is_known_ack : ℕ → TeamSyncMessage → Runtime → Bool
  is_known_ack now m r =
      let version = team_sync_message_version path_unescape format_stamp format_rfc3339 now m in
      let state_key = team_sync_state_key path_unescape format_stamp format_rfc3339 now m in
      is_covered version (published_checkpoint state_key r.state)

  -- `handleAck`, once the message is normal.
  abbrev pub handle_normal : ℕ → TeamSyncMessage → Option TeamSyncAck → Runtime → Bool × Runtime
  handle_normal now m none r = (false, r)
  handle_normal now m (some ack) r =
      let key = sync_key path_unescape format_stamp format_rfc3339 m in
      let remembered = remember_seen now key r in
      if not (is_ack_for r.node_id ack)
      then (false, r)
      else if is_nil key
      then (false, r)
      else if seen_key key r
      then (false, r)
      else if is_known_ack now m r
      then (false, remembered)
      else (true, persist_ack now m remembered)

  -- `handleAck`. The result tells whether the acknowledgement was handled.
  unfoldable pub handle_ack : ℕ → TeamSyncMessage → Runtime → Bool × Runtime
  handle_ack now raw r =
      let m = normalize_sync path_unescape format_stamp format_rfc3339 now raw in
      handle_normal now m m.ack r

  -- `publishAck`: the acknowledgement that is handed to the transport, if any.
  unfoldable pub ack_of : ℕ → Text → TeamSyncMessage → Option TeamSyncMessage
  ack_of now node_id raw =
      let m = normalize_sync path_unescape format_stamp format_rfc3339 now raw in
      let acked_key = trim_space (sync_key path_unescape format_stamp format_rfc3339 m) in
      let target_node = trim_space m.source_node in
      let ack : TeamSyncMessage = record {
        kind = codes "ack";
        team_id = m.team_id;
        message = none;
        history = none;
        task = none;
        artifact = none;
        members = [];
        policy = none;
        channel = none;
        channel_config = none;
        ack = some (record {
          acked_key = acked_key;
          acked_by = node_id;
          target_node = target_node;
          applied_at = now;
        });
        source_node = node_id;
        created_at = now;
      } in
      if is_ack (team_sync_type m.kind)
      then none
      else if is_nil acked_key || is_nil target_node
      then none
      else some (
          normalize_sync path_unescape format_stamp format_rfc3339 now
            (ack_message now node_id m.team_id acked_key target_node))

  -- The runtime after `publishAck`, where `delivered` is whether the transport takes the message.
  abbrev pub remember_ack : ℕ → Bool → Option TeamSyncMessage → Runtime → Runtime
  remember_ack now delivered none r = r
  remember_ack now delivered (some ack) r =
      if delivered
      then remember_seen now (sync_key path_unescape format_stamp format_rfc3339 ack) r
      else r

  unfoldable pub publish_ack : ℕ → Bool → TeamSyncMessage → Runtime → Runtime
  publish_ack now delivered m r = remember_ack now delivered (ack_of now r.node_id m) r
