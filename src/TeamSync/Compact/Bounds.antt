-- ===== src/TeamSync/Compact/Bounds.antt =====
-- What the compaction of the state bounds (internal/aip2p/team_sync.go: `compactTeamSyncState`).
use ai_p2p.Prelude.{
  ◌⊎◌, ℕ, suc, ◌-◌, ◌≤◌, ◌<◌, false, [], ◌∷◌, ◌≡◌, refl, is_nil, length, All, some, arith, inl, inr,
  Bool-cases, eq_of_some,
}
use mathlib.Core.Path.{subst}
use ai_p2p.Prelude.Sorting.{sort_stable}
use ai_p2p.Text.{Text, text_eq, trim_space}
use ai_p2p.TextMap.{TextMap}
use ai_p2p.Team.Task.{or_text}
use ai_p2p.TeamSync.State.{
  PeerAck, PendingState, PersistedState, peer_ack_per_peer, pending_max_retry, resolved_ttl,
  pending_status, expired_status,
}
use ai_p2p.TeamSync.Compact.Laws.{rewrite_entries-All}
use ai_p2p.TeamSync.Compact.{
  trim_acks, compact_peer, compact_pending, newer_ack, is_older, is_spent, compact_team_sync_state,
}

-- The retry count of an item that still waits is below the limit.
abbrev pub IsBoundedItem : PendingState → Type 0
IsBoundedItem item =
    (text_eq (or_text (trim_space item.status) pending_status) pending_status ≡ false)
    ⊎ (item.retry_count < pending_max_retry)

-- No peer is kept without acknowledgements or with more than the limit.
abbrev pub IsBoundedPeer : TextMap PeerAck → Type 0
IsBoundedPeer entries = (is_nil entries ≡ false) × (length entries ≤ peer_ack_per_peer)

abbrev pub IsBounded : PersistedState → Type 0
IsBounded s =
    All (λ (e : Text × PendingState). IsBoundedItem e.1) s.pending
    × All (λ (e : Text × TextMap PeerAck). IsBoundedPeer e.1) s.peer_acks

-- From the index `idx` on, what is left of the limit is kept at most.
length-trim_acks :
    (now idx : ℕ) (pairs : TextMap PeerAck)
    → length (trim_acks now idx pairs) ≤ peer_ack_per_peer - idx
unfolding trim_acks
length-trim_acks now idx [] = ground arith
length-trim_acks now idx ((key, entry) ∷ pairs) =
    ground (arith, length-trim_acks now (suc idx) pairs)

pub compact_peer-IsBoundedPeer :
    (now : ℕ) (entries w : TextMap PeerAck) → compact_peer now entries ≡ some w → IsBoundedPeer w
unfolding compact_peer
compact_peer-IsBoundedPeer now entries w e = elim (Bool-cases (is_nil kept)) [
  | inl nil ↦ cc (rw nil at e)
  | inr full ↦
      subst IsBoundedPeer (eq_of_some (rw full at e))
        (full, length-trim_acks now 0 (sort_stable newer_ack entries))
]
  where
    kept : TextMap PeerAck
    kept = trim_acks now 0 (sort_stable newer_ack entries)

expired-waits_no :
    text_eq (or_text (trim_space expired_status) pending_status) pending_status ≡ false
unfolding text_eq trim_space
expired-waits_no = refl

pub compact_pending-IsBoundedItem :
    (now : ℕ) (item w : PendingState) → compact_pending now item ≡ some w → IsBoundedItem w
unfolding compact_pending
compact_pending-IsBoundedItem now item w e = elim (Bool-cases (text_eq status pending_status)) [
  | inl waiting ↦ elim (Bool-cases (is_spent now item)) [
    | inl spent ↦ by_value (rw (waiting, spent) at e) (inl expired-waits_no)
    | inr fresh ↦ by_value (rw (waiting, fresh) at e) (inr (below fresh))
  ]
  | inr done ↦ elim (Bool-cases (is_older resolved_ttl now item.updated_at)) [
    | inl old ↦ cc (rw (done, old) at e)
    | inr recent ↦ by_value (rw (done, recent) at e) (inl done)
  ]
]
  where
    status : Text
    status = or_text (trim_space item.status) pending_status

    below : is_spent now item ≡ false → item.retry_count < pending_max_retry
    below fresh = unfold is_spent in ground (arith, fresh)

    by_value : {v : PendingState} → some v ≡ some w → IsBoundedItem v → IsBoundedItem w
    by_value h b = subst IsBoundedItem (eq_of_some h) b

-- The compacted state is bounded, whatever the state was.
pub compact_team_sync_state-IsBounded :
    (now : ℕ) (s : PersistedState) → IsBounded (compact_team_sync_state now s)
unfolding compact_team_sync_state
compact_team_sync_state-IsBounded now s = (
  rewrite_entries-All (λ key. IsBoundedItem) (λ key. compact_pending now)
      (λ key. compact_pending-IsBoundedItem now) s.pending,
  rewrite_entries-All (λ peer. IsBoundedPeer) (λ peer. compact_peer now)
      (λ peer. compact_peer-IsBoundedPeer now) s.peer_acks,
)
