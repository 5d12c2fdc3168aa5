-- ===== src/TeamSync/Compact.antt =====
-- `compactTeamSyncState` (internal/aip2p/team_sync.go). The numbers that it returns for the status
-- are not modelled.
pub mod Bounds
pub mod Laws
use ai_p2p.Prelude.{
  ℕ, ◌+◌, zero, suc, ltb, leb, Bool, true, false, not, ◌&&◌, ◌||◌, List, [], ◌∷◌, if◌then◌else◌,
  is_nil, length, Option, none, some,
}
use ai_p2p.Prelude.Sorting.{sort_stable}
use ai_p2p.Text.{Text, text_eq, trim_space}
use ai_p2p.TextMap.{TextMap}
use ai_p2p.Team.Task.{is_zero, or_text, or_time}
use ai_p2p.TeamSync.State.{
  PeerAck, Conflict, PendingState, PersistedState, peer_ack_ttl, peer_ack_per_peer,
  pending_max_retry, pending_max_age, resolved_ttl, conflict_resolved_ttl, pending_status,
  expired_status,
}

-- `!t.IsZero() && t.Before(now.Add(-age))`.
abbrev pub is_older : ℕ → ℕ → ℕ → Bool
is_older age now t = not (is_zero t) && ltb (t + age) now

abbrev pub keep_entry {ℓ} : {V : Type ℓ} → Text → Option V → TextMap V → TextMap V
keep_entry k none rest = rest
keep_entry k (some w) rest = (k, w) ∷ rest

-- `for ... { m[key] = f(key, value) }` or `delete(m, key)`, over the entries in their order.
unfoldable pub rewrite_entries {ℓ} : {V : Type ℓ} → (Text → V → Option V) → TextMap V → TextMap V
rewrite_entries f [] = []
rewrite_entries f ((k, v) ∷ m) = keep_entry k (f k v) (rewrite_entries f m)

abbrev pub newer_ack : Text × PeerAck → Text × PeerAck → Bool
newer_ack a b = ltb b.1.updated_at a.1.updated_at

-- The loop over the sorted acknowledgements of a peer, from the index `idx`.
unfoldable pub trim_acks : ℕ → ℕ → TextMap PeerAck → TextMap PeerAck
trim_acks now idx [] = []
trim_acks now idx ((key, entry) ∷ pairs) =
    let rest = trim_acks now (suc idx) pairs in
    if leb peer_ack_per_peer idx || is_older peer_ack_ttl now entry.updated_at
    then rest
    else (key, entry) ∷ rest

-- The first loop, for one peer: `none` deletes it.
unfoldable pub compact_peer : ℕ → TextMap PeerAck → Option (TextMap PeerAck)
compact_peer now entries =
    let trimmed = trim_acks now 0 (sort_stable newer_ack entries) in
    if is_nil trimmed then none else some trimmed

-- Whether a waiting message has waited for too long, or has been sent again too often.
unfoldable pub is_spent : ℕ → PendingState → Bool
is_spent now item =
    is_older pending_max_age now item.updated_at || leb pending_max_retry item.retry_count

-- The second loop, for one pending message.
unfoldable pub compact_pending : ℕ → PendingState → Option PendingState
compact_pending now item =
    let status = or_text (trim_space item.status) pending_status in
    if text_eq status pending_status
    then if is_spent now item
      then some (record item { status = expired_status; updated_at = now })
      else some item
    else if is_older resolved_ttl now item.updated_at
    then none
    else some item

-- The third loop, for one conflict.
unfoldable pub compact_conflict : ℕ → Conflict → Option Conflict
compact_conflict now item =
    let resolved_at = or_time item.resolved_at item.updated_at in
    if is_nil (trim_space item.resolution)
    then some item
    else if is_zero resolved_at || ltb now (resolved_at + conflict_resolved_ttl)
    then some item
    else none

-- `compactTeamSyncState`, at the time `now`.
unfoldable pub compact_team_sync_state : ℕ → PersistedState → PersistedState
compact_team_sync_state now s = record s {
  peer_acks = rewrite_entries (λ peer. compact_peer now) s.peer_acks;
  pending = rewrite_entries (λ key. compact_pending now) s.pending;
  conflicts = rewrite_entries (λ key. compact_conflict now) s.conflicts;
}
