-- ===== src/TeamSync/Merge.antt =====
-- How a node's state meets the one of the file (internal/aip2p/team_sync.go: `mergeTeamSyncState`,
-- `mergeTeamSyncPeerAckState`, `mergeTeamSyncConflictState`).
pub mod Laws
use ai_p2p.Prelude.{
  ltb, Bool, true, false, not, ◌&&◌, ◌||◌, [], ◌∷◌, if◌then◌else◌, is_nil, Option, none, some,
}
use ai_p2p.Text.{Text, trim_space}
use ai_p2p.TextMap.{TextMap, lookup, insert}
use ai_p2p.TeamSync.State.{PeerAck, Conflict, PersistedState}

module _ {ℓ} {V : Type ℓ} (is_better : V → V → Bool) where
  -- `current, ok := dst[key]`, and the assignment where there is none or the incoming one is better.
  abbrev pub merge_entry : Text → V → Option V → TextMap V → TextMap V
  merge_entry key incoming none dst = insert key incoming dst
  merge_entry key incoming (some current) dst =
      if is_better current incoming then insert key incoming dst else dst

  -- The loop of `mergeTeamSyncConflictState`, and the inner loop of `mergeTeamSyncPeerAckState`.
  unfoldable pub merge_entries : TextMap V → TextMap V → TextMap V
  merge_entries dst [] = dst
  merge_entries dst ((key, incoming) ∷ rest) =
      merge_entries (merge_entry key incoming (lookup key dst) dst) rest

abbrev pub entries_or_none {ℓ} : {V : Type ℓ} → Option (TextMap V) → TextMap V
entries_or_none none = []
entries_or_none (some m) = m

abbrev pub is_newer_ack : PeerAck → PeerAck → Bool
is_newer_ack current incoming = ltb current.updated_at incoming.updated_at

-- `mergeTeamSyncPeerAckState`.
unfoldable pub merge_peer_acks :
    TextMap (TextMap PeerAck) → TextMap (TextMap PeerAck) → TextMap (TextMap PeerAck)
merge_peer_acks dst [] = dst
merge_peer_acks dst ((peer, entries) ∷ rest) =
    merge_peer_acks
      (insert peer (merge_entries is_newer_ack (entries_or_none (lookup peer dst)) entries) dst)
      rest

-- Whether the merge replaces a conflict by the one of the other state.
unfoldable pub replaces : Conflict → Conflict → Bool
replaces current incoming =
    ltb current.updated_at incoming.updated_at
    || is_nil (trim_space current.resolution) && not (is_nil (trim_space incoming.resolution))

-- `mergeTeamSyncConflictState`.
unfoldable pub merge_conflicts : TextMap Conflict → TextMap Conflict → TextMap Conflict
merge_conflicts dst src = merge_entries replaces dst src

-- `mergeTeamSyncState`.
unfoldable pub merge_team_sync_state : PersistedState → PersistedState → PersistedState
merge_team_sync_state existing incoming = record incoming {
  peer_acks = merge_peer_acks incoming.peer_acks existing.peer_acks;
  conflicts = merge_conflicts incoming.conflicts existing.conflicts;
}
