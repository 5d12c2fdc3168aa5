-- ===== src/TeamSync/Queue/Retries.antt =====
-- How often a message is sent again (internal/aip2p/team_sync.go: `shouldRetryPending`,
-- `bumpPendingRetry`, `persistPublished`, and the loops of the scans).
pub mod Count
use ai_p2p.Prelude.{
  ℕ, suc, ◌<◌, ◌≤◌, ◌-◌, eq_of_some, Bool, true, false, ◌||◌, ◌≡◌, refl, sym, ap, ◌∙◌, Option, some,
  if◌then◌else◌, arith, inl, inr, is_nil, Bool-cases, Option-cases,
}
use mathlib.Core.Path.{subst}
use ai_p2p.Text.{Text, text_eq, trim_space}
use ai_p2p.Text.Laws.{trim_space_idem, text_eq_refl}
use ai_p2p.TextMap.{TextMap, lookup, insert}
use ai_p2p.TextMap.Laws.{lookup-insert_self}
use ai_p2p.Team.Task.{is_zero, or_text}
use ai_p2p.TeamSync.Message.{
  TeamSyncMessage, team_sync_type, normalize_sync, sync_key, team_sync_state_key,
}
use ai_p2p.TeamSync.State.{
  Checkpoint, PendingState, PersistedState, pending_status, pending_max_retry, resolved_ttl,
  set_checkpoint, Bucket, bucket, read_bucket, write_bucket,
}
use ai_p2p.TeamSync.Compact.{compact_pending, is_older, is_spent, rewrite_entries}
use ai_p2p.TeamSync.Compact.Laws.{lookup-rewrite_kept}
use ai_p2p.TeamSync.Queue.{
  Runtime, save_state, update_pending, bump_pending_retry, should_retry_pending, is_waiting,
  remember_seen, supersede, put_pending, is_ack, persist_checkpoint, persist_pending,
  persist_published, scan_item, retried,
}
use ai_p2p.TeamSync.Queue.Pending.{pending-save_state}
use ai_p2p.TeamSync.Queue.Retries.Count.{
  HasCount, bump_pending_retry-HasCount, should_retry-yes, state-remember_seen,
  persist_published-HasCount,
}

module _ (path_unescape : Text → Option Text) (format_stamp format_rfc3339 : ℕ → Text) where
  -- A scan that sends a message again counts it, and publishes it.
  scan_item-again :
      (now : ℕ) (first_scan delivered : Bool) (key cursor : Text) (version : ℕ)
      (m : TeamSyncMessage) (r r' : Runtime)
      → (should_retry_pending now key r).0 ≡ true
      → (should_retry_pending now key r).1 ≡ r
      → scan_item path_unescape format_stamp format_rfc3339 now first_scan delivered key cursor
          version m r
        ≡ (true, r')
      → persist_published path_unescape format_stamp format_rfc3339 now m version
          (bump_pending_retry now (trim_space key) (remember_seen now key r))
        ≡ r'
  unfolding scan_item
  scan_item-again now true true key cursor version m r r' retry same run =
      ap (λ p. p.1) (rw (retry, same) at run)
  scan_item-again now false true key cursor version m r r' retry same run =
      ap (λ p. p.1) (rw (retry, same) at run)
  scan_item-again now true false key cursor version m r r' retry same run =
      cc (rw (retry, same) at run)
  scan_item-again now false false key cursor version m r r' retry same run =
      cc (rw (retry, same) at run)

  scan_item-HasCount :
      (now : ℕ) (first_scan delivered : Bool) (key cursor : Text) (version : ℕ)
      (m : TeamSyncMessage) (r r' : Runtime)
      → trim_space (sync_key path_unescape format_stamp format_rfc3339 m) ≡ trim_space key
      → (should_retry_pending now key r).0 ≡ true
      → scan_item path_unescape format_stamp format_rfc3339 now first_scan delivered key cursor
          version m r
        ≡ (true, r')
      → (item : PendingState) × (lookup (trim_space key) r.state.pending ≡ some item)
        × (item.retry_count < pending_max_retry)
        × HasCount now (trim_space key) (suc item.retry_count) r'.state.pending
  scan_item-HasCount now first_scan delivered key cursor version m r r' e retry run =
      let (named, same, (item, found, below)) = should_retry-yes now key r retry in
      let bumped : HasCount now (trim_space key) (suc item.retry_count)
          (bump_pending_retry now (trim_space key) sent).state.pending =
        bump_pending_retry-HasCount now (trim_space key) sent item (trim_space_idem key) named
          (rw (state-remember_seen now key r) found) in
      (
        item,
        found,
        below,
        subst
            (λ (s : Runtime). HasCount now (trim_space key) (suc item.retry_count) s.state.pending)
            (scan_item-again now first_scan delivered key cursor version m r r' retry same run)
            (persist_published-HasCount path_unescape format_stamp format_rfc3339 now m version
              (bump_pending_retry now (trim_space key) sent) (trim_space key) (suc item.retry_count)
              e bumped),
      )
    where
      sent : Runtime
      sent = remember_seen now key r

  -- Scans that publish a message with a given key because `shouldRetryPending` says yes, one after the
  -- other, at any times, with `n` counting them. In between the runtime changes in any way that leaves
  -- the key in the queue, with the count that it has or a larger one; a publication for another reason,
  -- as of a key that is no longer remembered, is such a change.
  pub data Retries (key : Text) : ℕ → Runtime → Runtime → Type 0 where
    done : {r : Runtime} → Retries key 0 r r
    again :
        {n : ℕ} {r r' last : Runtime} (now : ℕ) (first_scan delivered : Bool) (cursor : Text)
        (version : ℕ) (m : TeamSyncMessage)
        → trim_space (sync_key path_unescape format_stamp format_rfc3339 m) ≡ trim_space key
        → (should_retry_pending now key r).0 ≡ true
        → scan_item path_unescape format_stamp format_rfc3339 now first_scan delivered key cursor
            version m r
          ≡ (true, r')
        → Retries key n r' last
        → Retries key (suc n) r last
    meanwhile :
        {n : ℕ} {r r' last : Runtime} (before after : PendingState)
        → lookup (trim_space key) r.state.pending ≡ some before
        → lookup (trim_space key) r'.state.pending ≡ some after
        → before.retry_count ≤ after.retry_count
        → Retries key n r' last
        → Retries key n r last

  same_count :
      (key : Text) (r : Runtime) (a b : PendingState)
      → lookup (trim_space key) r.state.pending ≡ some a
      → lookup (trim_space key) r.state.pending ≡ some b
      → a.retry_count ≡ b.retry_count
  same_count key r a b found_a found_b =
      ap (λ (i : PendingState). i.retry_count) (eq_of_some (sym found_a ∙ found_b))

  -- The retries of a key are the scans that publish a message with that key when `shouldRetryPending`
  -- says yes. While the key stays in the queue and, between them, its count stays or rises, there are
  -- at most as many retries as its count leaves of the limit of eight. What is published without that
  -- answer, as a scan does with a key that is no longer remembered, is no retry and is not counted.
  pub Retries-bound :
      (key : Text) (n : ℕ) (r last : Runtime) (item : PendingState)
      → lookup (trim_space key) r.state.pending ≡ some item
      → Retries key n r last
      → n ≤ pending_max_retry - item.retry_count
  Retries-bound key n r last item found Retries.done = ground arith
  Retries-bound key n r last item found
        (Retries.again {n = n'} {r' = r'} now first delivered cursor version m e retry run rest) =
      let (before, found', below, (after, found_after, counted, at)) =
        scan_item-HasCount now first delivered key cursor version m r r' e retry run in
      let same = same_count key r before item found' found in
      let ih = Retries-bound key n' r' last after found_after rest in
      ground (arith, below, counted, same, ih)
  Retries-bound key n r last item found
        (Retries.meanwhile {r' = r'} before after found' found_after kept rest) =
      let same = same_count key r before item found' found in
      let ih = Retries-bound key n r' last after found_after rest in ground (arith, kept, same, ih)
