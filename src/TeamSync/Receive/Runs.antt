-- ===== src/TeamSync/Receive/Runs.antt =====
-- The runs of a node's synchronisation (internal/aip2p/team_sync.go), as sequences of steps.
use ai_p2p.Prelude.{
  ℕ, Bool, true, false, not, ◌&&◌, ◌≡◌, refl, Option, none, some, if◌then◌else◌, is_nil, ◌||◌,
}
use ai_p2p.Text.{Text, codes, text_eq, trim_space}
use ai_p2p.TextMap.{lookup}
use ai_p2p.Team.Task.{is_zero}
use ai_p2p.TeamSync.Message.{
  TeamSyncMessage, TeamSyncAck, team_sync_type, normalize_sync, sync_key, team_sync_state_key,
}
use ai_p2p.TeamSync.State.{PersistedState, PendingState, expired_status}
use ai_p2p.TeamSync.Compact.{compact_team_sync_state, is_spent}
use ai_p2p.TeamSync.Compact.Bounds.{IsBounded, compact_team_sync_state-IsBounded}
use ai_p2p.TeamSync.Merge.{merge_team_sync_state}
use ai_p2p.TeamSync.Queue.{
  Runtime, save_state, write_team_sync_state, update_pending, change_found, clear_pending,
  mark_pending_status, bump_pending_retry, should_retry_pending, retry_found, is_waiting,
  remember_seen, prune_seen, persist_checkpoint, persist_pending, persist_published,
  persist_applied, scan_item, seen_key, should_publish_snapshot, is_ack,
}
use ai_p2p.TeamSync.Acks.{
  persist_peer_ack, keep_peer_ack, clear_acked, handle_normal, remember_ack, persist_ack,
  handle_ack, publish_ack, is_ack_for, is_known_ack,
}
use ai_p2p.TeamSync.Conflicts.{TeamSyncConflict, persist_conflict, stored_conflict}
use ai_p2p.TeamSync.Receive.{
  Outcome, receive, after_apply, classify_team_sync_error, record_conflict_from_error,
}

-- The file holds what is in memory, and that is bounded.
abbrev pub IsSaved : Runtime → Type 0
IsSaved r = (r.state ≡ r.file) × IsBounded r.state

-- Every save establishes it, whatever was there.
save_state-IsSaved : (now : ℕ) (s : PersistedState) (r : Runtime) → IsSaved (save_state now s r)
unfolding save_state write_team_sync_state
save_state-IsSaved now s r = (
  refl,
  compact_team_sync_state-IsBounded now
      (merge_team_sync_state r.file (compact_team_sync_state now s)),
)

-- A step that a test guards keeps what both its branches keep.
if-IsSaved : (b : Bool) (x y : Runtime) → IsSaved x → IsSaved y → IsSaved (if b then x else y)
if-IsSaved true x y h g = h
if-IsSaved false x y h g = g

if-IsSaved_pair :
    (b : Bool) (x y : Bool × Runtime) → IsSaved x.1 → IsSaved y.1 → IsSaved (if b then x else y).1
if-IsSaved_pair true x y h g = h
if-IsSaved_pair false x y h g = g

change_found-IsSaved :
    (now : ℕ) (key : Text) (change : PendingState → PendingState) (o : Option PendingState)
    (r : Runtime)
    → IsSaved r
    → IsSaved (change_found now key change o r)
change_found-IsSaved now key change none r h = h
change_found-IsSaved now key change (some item) r h = save_state-IsSaved now _ r

update_pending-IsSaved :
    (now : ℕ) (key : Text) (change : PendingState → PendingState) (r : Runtime)
    → IsSaved r
    → IsSaved (update_pending now key change r)
unfolding update_pending
update_pending-IsSaved now key change r h =
    if-IsSaved (is_nil (trim_space key)) r _ h (
      change_found-IsSaved now (trim_space key) change (lookup (trim_space key) r.state.pending) r
        h)

mark_pending_status-IsSaved :
    (now : ℕ) (key status : Text) (r : Runtime)
    → IsSaved r
    → IsSaved (mark_pending_status now key status r)
unfolding mark_pending_status
mark_pending_status-IsSaved now key status r h =
    if-IsSaved (is_nil (trim_space status)) r _ h (update_pending-IsSaved now key _ r h)

retry_found-IsSaved :
    (now : ℕ) (key : Text) (o : Option PendingState) (r : Runtime)
    → IsSaved r
    → IsSaved (retry_found now key o r).1
retry_found-IsSaved now key none r h = h
retry_found-IsSaved now key (some item) r h =
    if-IsSaved_pair (not (is_waiting item)) (false, r) _ h
      (if-IsSaved_pair (is_spent now item) (false, mark_pending_status now key expired_status r) _
        (mark_pending_status-IsSaved now key expired_status r h) h)

should_retry_pending-IsSaved :
    (now : ℕ) (key : Text) (r : Runtime) → IsSaved r → IsSaved (should_retry_pending now key r).1
unfolding should_retry_pending
should_retry_pending-IsSaved now key r h =
    if-IsSaved_pair (is_nil (trim_space key)) (false, r) _ h
      (retry_found-IsSaved now (trim_space key) (lookup (trim_space key) r.state.pending) r h)

remember_seen-IsSaved :
    (now : ℕ) (key : Text) (r : Runtime) → IsSaved r → IsSaved (remember_seen now key r)
unfolding remember_seen
remember_seen-IsSaved now key r h = if-IsSaved (is_nil (trim_space key)) r _ h h

prune_seen-IsSaved :
    (now max_age : ℕ) (r : Runtime) → IsSaved r → IsSaved (prune_seen now max_age r)
unfolding prune_seen
prune_seen-IsSaved now max_age r h = if-IsSaved (is_zero max_age) r _ h h

module _ (path_unescape : Text → Option Text) (format_stamp format_rfc3339 : ℕ → Text) where
  persist_checkpoint-IsSaved :
      (now : ℕ) (m : TeamSyncMessage) (version : ℕ) (is_applied : Bool) (r : Runtime)
      → IsSaved r
      → IsSaved
          (persist_checkpoint path_unescape format_stamp format_rfc3339 now m version is_applied r)
  unfolding persist_checkpoint
  persist_checkpoint-IsSaved now m version is_applied r h =
      if-IsSaved
        (is_nil (team_sync_state_key path_unescape format_stamp format_rfc3339 now m)
          || is_zero version)
        r _ h (save_state-IsSaved now _ r)

  persist_published-IsSaved :
      (now : ℕ) (m : TeamSyncMessage) (version : ℕ) (r : Runtime)
      → IsSaved r
      → IsSaved (persist_published path_unescape format_stamp format_rfc3339 now m version r)
  unfolding persist_published persist_pending
  persist_published-IsSaved now m version r h =
      if-IsSaved
        (is_ack
          (team_sync_type (normalize_sync path_unescape format_stamp format_rfc3339 now m).kind))
        saved _ saved-IsSaved
        (if-IsSaved
          (is_nil (trim_space (sync_key path_unescape format_stamp format_rfc3339 m))
            || is_zero version)
          saved _ saved-IsSaved (save_state-IsSaved now _ saved))
    where
      saved : Runtime
      saved = persist_checkpoint path_unescape format_stamp format_rfc3339 now m version false r

      saved-IsSaved : IsSaved saved
      saved-IsSaved = persist_checkpoint-IsSaved now m version false r h

  scan_item-IsSaved :
      (now : ℕ) (first_scan delivered : Bool) (key cursor : Text) (version : ℕ)
      (m : TeamSyncMessage) (r : Runtime)
      → IsSaved r
      → IsSaved
          (scan_item path_unescape format_stamp format_rfc3339 now first_scan delivered key cursor
            version m r).1
  unfolding scan_item bump_pending_retry
  scan_item-IsSaved now first_scan delivered key cursor version m r h =
      if-IsSaved_pair
        (first_scan && (not retry && not (should_publish_snapshot cursor version decided)))
        (false, remember_seen now key decided) _ sent-IsSaved
        (if-IsSaved_pair (not retry && seen_key key decided) (false, decided) _ decided-IsSaved
          (if-IsSaved_pair (not delivered) (false, decided) _ decided-IsSaved
            (persist_published-IsSaved now m version _ (
              if-IsSaved retry _ _ (update_pending-IsSaved now (trim_space key) _ _ sent-IsSaved)
                sent-IsSaved))))
    where
      retry : Bool
      retry = (should_retry_pending now key r).0

      decided : Runtime
      decided = (should_retry_pending now key r).1

      decided-IsSaved : IsSaved decided
      decided-IsSaved = should_retry_pending-IsSaved now key r h

      sent-IsSaved : IsSaved (remember_seen now key decided)
      sent-IsSaved = remember_seen-IsSaved now key decided decided-IsSaved

  persist_conflict-IsSaved :
      (now : ℕ) (m : TeamSyncMessage) (c : TeamSyncConflict) (r : Runtime)
      → IsSaved r
      → IsSaved (persist_conflict path_unescape format_stamp format_rfc3339 now m c r)
  unfolding persist_conflict
  persist_conflict-IsSaved now m c r h =
      if-IsSaved (is_nil (stored_conflict path_unescape format_stamp format_rfc3339 now m c).key) r
        _ h (save_state-IsSaved now _ r)

  keep_peer_ack-IsSaved :
      (now : ℕ) (o : Option TeamSyncAck) (r : Runtime)
      → IsSaved r
      → IsSaved (keep_peer_ack path_unescape format_stamp format_rfc3339 now o r)
  keep_peer_ack-IsSaved now none r h = h
  keep_peer_ack-IsSaved now (some ack) r h =
      if-IsSaved (is_nil (trim_space ack.acked_by) || is_nil (trim_space ack.acked_key)) r _ h
        (save_state-IsSaved now _ r)

  clear_acked-IsSaved :
      (now : ℕ) (m : TeamSyncMessage) (o : Option TeamSyncAck) (r : Runtime)
      → IsSaved r
      → IsSaved (clear_acked path_unescape format_stamp format_rfc3339 now m o r)
  clear_acked-IsSaved now m none r h = h
  clear_acked-IsSaved now m (some ack) r h =
      unfold clear_pending persist_peer_ack in
      update_pending-IsSaved now ack.acked_key _ _ (keep_peer_ack-IsSaved now _ r h)

  handle_normal-IsSaved :
      (now : ℕ) (m : TeamSyncMessage) (o : Option TeamSyncAck) (r : Runtime)
      → IsSaved r
      → IsSaved (handle_normal path_unescape format_stamp format_rfc3339 now m o r).1
  unfolding persist_ack
  handle_normal-IsSaved now m none r h = h
  handle_normal-IsSaved now m (some ack) r h =
      if-IsSaved_pair (not (is_ack_for r.node_id ack)) (false, r) _ h
        (if-IsSaved_pair (is_nil key) (false, r) _ h
          (if-IsSaved_pair (seen_key key r) (false, r) _ h
            (if-IsSaved_pair (is_known_ack path_unescape format_stamp format_rfc3339 now m r)
              (false, remember_seen now key r) _ remembered
              (clear_acked-IsSaved now m m.ack _
                (persist_checkpoint-IsSaved now m _ false (remember_seen now key r) remembered)))))
    where
      key : Text
      key = sync_key path_unescape format_stamp format_rfc3339 m

      remembered : IsSaved (remember_seen now key r)
      remembered = remember_seen-IsSaved now key r h

  remember_ack-IsSaved :
      (now : ℕ) (delivered : Bool) (o : Option TeamSyncMessage) (r : Runtime)
      → IsSaved r
      → IsSaved (remember_ack path_unescape format_stamp format_rfc3339 now delivered o r)
  remember_ack-IsSaved now delivered none r h = h
  remember_ack-IsSaved now delivered (some ack) r h =
      if-IsSaved delivered _ r (remember_seen-IsSaved now _ r h) h

  after_apply-IsSaved :
      (now : ℕ) (delivered : Bool) (m : TeamSyncMessage) (outcome : Outcome) (r : Runtime)
      → IsSaved r
      → IsSaved (after_apply path_unescape format_stamp format_rfc3339 now delivered m outcome r)
  unfolding after_apply publish_ack persist_applied record_conflict_from_error
  after_apply-IsSaved now delivered m Outcome.applied r h =
      remember_ack-IsSaved now delivered _ _
        (persist_checkpoint-IsSaved now m _ true _ (remember_seen-IsSaved now _ r h))
  after_apply-IsSaved now delivered m (Outcome.skipped none) r h = h
  after_apply-IsSaved now delivered m (Outcome.skipped (some c)) r h =
      persist_conflict-IsSaved now m c r h
  after_apply-IsSaved now delivered m (Outcome.failed failure) r h =
      if-IsSaved (is_nil (classify_team_sync_error failure)) r _ h
        (persist_conflict-IsSaved now _ _ r h)

  receive-IsSaved :
      (now : ℕ) (delivered : Bool) (m : TeamSyncMessage) (outcome : Outcome) (r : Runtime)
      → IsSaved r
      → IsSaved (receive path_unescape format_stamp format_rfc3339 now delivered m outcome r)
  unfolding receive handle_ack
  receive-IsSaved now delivered m outcome r h =
      if-IsSaved (text_eq m.kind (codes "ack")) _ _ (handle_normal-IsSaved now _ _ r h)
        (after_apply-IsSaved now delivered m outcome r h)

  -- A run: scans, received messages with what the store answers, and prunings, at any times.
  pub data Run : Runtime → Runtime → Type 0 where
    start : {r : Runtime} → Run r r
    scan :
        {r last : Runtime} (now : ℕ) (first_scan delivered : Bool) (key cursor : Text) (version : ℕ)
        (m : TeamSyncMessage)
        → Run
            (scan_item path_unescape format_stamp format_rfc3339 now first_scan delivered key cursor
              version m r).1
            last
        → Run r last
    receipt :
        {r last : Runtime} (now : ℕ) (delivered : Bool) (m : TeamSyncMessage) (outcome : Outcome)
        → Run (receive path_unescape format_stamp format_rfc3339 now delivered m outcome r) last
        → Run r last
    prune : {r last : Runtime} (now max_age : ℕ) → Run (prune_seen now max_age r) last → Run r last

  -- In a run that starts with a state that is bounded and equal to the file, as the empty state is,
  -- the file always holds what is in memory; the retry count (`RetryCount`) of every waiting message
  -- is below eight; and every peer that is kept has between one and 128 acknowledgements.
  pub Run-IsSaved : (r last : Runtime) → IsSaved r → Run r last → IsSaved last
  Run-IsSaved r last h Run.start = h
  Run-IsSaved r last h (Run.scan now first_scan delivered key cursor version m rest) =
      Run-IsSaved _ last (scan_item-IsSaved now first_scan delivered key cursor version m r h) rest
  Run-IsSaved r last h (Run.receipt now delivered m outcome rest) =
      Run-IsSaved _ last (receive-IsSaved now delivered m outcome r h) rest
  Run-IsSaved r last h (Run.prune now max_age rest) =
      Run-IsSaved _ last (prune_seen-IsSaved now max_age r h) rest
