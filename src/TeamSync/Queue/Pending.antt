-- ===== src/TeamSync/Queue/Pending.antt =====
-- What becomes of a message that waits for an acknowledgement (internal/aip2p/team_sync.go:
-- `persistPending`, `clearPending`, `shouldRetryPending`, `compactTeamSyncState`).
use ai_p2p.Prelude.{
  ℕ, ◌<◌, false, ◌≡◌, refl, Option, none, some, arith, ◌⊎◌, inl, inr, is_nil, Bool-cases,
  Option-cases,
}
use ai_p2p.Text.{Text, text_eq, trim_space}
use ai_p2p.TextMap.{lookup, insert}
use ai_p2p.TextMap.Laws.{lookup-insert_self}
use ai_p2p.Team.Task.{or_text}
use ai_p2p.TeamSync.State.{
  PendingState, PersistedState, acked_status, pending_status, pending_max_retry,
}
use ai_p2p.TeamSync.Compact.{compact_pending, is_spent, rewrite_entries, compact_team_sync_state}
use ai_p2p.TeamSync.Compact.Laws.{lookup-rewrite_kept}
use ai_p2p.TeamSync.Merge.{merge_team_sync_state}
use ai_p2p.TeamSync.Queue.{
  Runtime, save_state, write_team_sync_state, update_pending, clear_pending, should_retry_pending,
  is_waiting, with_status,
}

-- The waiting messages after a save: the compaction runs twice.
pub pending-save_state :
    (now : ℕ) (s : PersistedState) (r : Runtime)
    → (save_state now s r).state.pending
      ≡ rewrite_entries
          (λ key. compact_pending now)
          (rewrite_entries (λ key. compact_pending now) s.pending)
unfolding save_state write_team_sync_state compact_team_sync_state merge_team_sync_state
pending-save_state now s r = refl

-- The compaction leaves an item alone that has changed now, unless it waits and is spent.
pub compact_pending_fixed :
    (now : ℕ) (item : PendingState)
    → item.updated_at ≡ now
    → text_eq (or_text (trim_space item.status) pending_status) pending_status ≡ false
      ⊎ (item.retry_count < pending_max_retry)
    → compact_pending now item ≡ some item
unfolding compact_pending is_spent
compact_pending_fixed now item e h = ground arith

-- What the compaction leaves alone is found after a save.
pub lookup-save_state :
    (now : ℕ) (s : PersistedState) (r : Runtime) (key : Text) (item : PendingState)
    → lookup key s.pending ≡ some item
    → compact_pending now item ≡ some item
    → lookup key (save_state now s r).state.pending ≡ some item
lookup-save_state now s r key item found kept = rw (pending-save_state now s r) (
    lookup-rewrite_kept f key (rewrite_entries f s.pending)
      (lookup-rewrite_kept f key s.pending found kept) kept)
  where
    f : Text → PendingState → Option PendingState
    f key = compact_pending now

acked-IsWaiting_no :
    (now : ℕ) (item : PendingState) → is_waiting (with_status now acked_status item) ≡ false
unfolding is_waiting text_eq trim_space
acked-IsWaiting_no now item = refl

acked-compact :
    (now : ℕ) (item : PendingState)
    → compact_pending now (with_status now acked_status item)
      ≡ some (with_status now acked_status item)
unfolding text_eq trim_space
acked-compact now item =
    compact_pending_fixed now (with_status now acked_status item) refl (inl refl)

-- A message that is not there, or does not wait, is not to be retried.
pub should_retry-no :
    (later : ℕ) (key : Text) (r : Runtime)
    → (lookup (trim_space key) r.state.pending ≡ none)
      ⊎ ((item : PendingState) × (lookup (trim_space key) r.state.pending ≡ some item)
          × (is_waiting item ≡ false))
    → (should_retry_pending later key r).0 ≡ false
unfolding should_retry_pending
should_retry-no later key r (inl e) = rw e (ground arith)
should_retry-no later key r (inr (item, e, w)) = rw (e, w) (ground arith)

-- Once it is cleared, the queue asks for no retry of a message, unless it is published anew.
pub should_retry-clear_pending :
    (now later : ℕ) (key : Text) (r : Runtime)
    → (should_retry_pending later key (clear_pending now key r)).0 ≡ false
unfolding clear_pending update_pending
should_retry-clear_pending now later key r = elim (Bool-cases (is_nil k)) [
  | inl blank ↦ unfold should_retry_pending in rw blank refl
  | inr named ↦ rw named (elim (Option-cases (lookup k r.state.pending)) [
    | inl gone ↦ rw gone (should_retry-no later key r (inl gone))
    | inr (item, e) ↦ rw e (
        should_retry-no later key (changed item) (
          inr (
            with_status now acked_status item,
            lookup-save_state now (cleared item) r k (with_status now acked_status item)
                (lookup-insert_self k (with_status now acked_status item) r.state.pending)
                (acked-compact now item),
            acked-IsWaiting_no now item,
          )))
  ])
]
  where
    k : Text
    k = trim_space key

    cleared : PendingState → PersistedState
    cleared item = record r.state {
      pending = insert k (with_status now acked_status item) r.state.pending;
    }

    changed : PendingState → Runtime
    changed item = save_state now (cleared item) r
