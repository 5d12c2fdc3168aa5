-- ===== src/TeamSync/Acks/Delivery.antt =====
-- What an acknowledgement does to the node that waits for it (internal/aip2p/team_sync.go:
-- `handleAck`, `persistAck`, `clearPending`, `shouldRetryPending`).
use ai_p2p.Prelude.{
  ℕ, Bool, true, false, ◌||◌, ◌≡◌, refl, ap, sym, ◌∙◌, Option, none, some, if◌then◌else◌, is_nil,
  inl, inr, Bool-cases,
}
use mathlib.Core.Path.{subst}
use ai_p2p.Text.{Text, codes, text_eq, trim_space, to_lower}
use ai_p2p.Text.Laws.{trim_space_idem}
use ai_p2p.TextMap.{lookup}
use ai_p2p.TextMap.Laws.{lookup-insert_self}
use ai_p2p.Team.Task.{is_zero, or_time}
use ai_p2p.TeamSync.Message.{
  TeamSyncMessage, TeamSyncAck, normalize_sync, sync_key, normal_ack, on_payload, team_sync_type,
  normalize_team_sync_type, team_sync_state_key, ack_key,
}
use ai_p2p.TeamSync.State.{PendingState}
use ai_p2p.TeamSync.Queue.{
  Runtime, should_retry_pending, seen_key, remember_seen, persist_checkpoint, clear_pending,
  update_pending, change_found, save_state,
}
use ai_p2p.TeamSync.Queue.Pending.{should_retry-clear_pending}
use ai_p2p.TeamSync.Acks.{
  persist_peer_ack, keep_peer_ack, clear_acked, persist_ack, handle_normal, handle_ack,
  is_known_ack, is_ack_for,
}

-- A key is looked up trimmed.
pub should_retry-trim_space :
    (later : ℕ) (key : Text) (r : Runtime)
    → should_retry_pending later (trim_space key) r ≡ should_retry_pending later key r
unfolding should_retry_pending
should_retry-trim_space later key r = rw (trim_space_idem key) refl

-- What both branches of a test keep, it keeps.
if_keeps {ℓ} :
    (P : Runtime → Type ℓ) (b : Bool) {x y : Runtime} → P x → P y → P (if b then x else y)
if_keeps P true h g = h
if_keeps P false h g = g

-- A named key that was remembered is found.
seen_key-remember_seen :
    (now : ℕ) (key : Text) (r : Runtime)
    → is_nil (trim_space key) ≡ false
    → seen_key key (remember_seen now key r) ≡ true
unfolding seen_key remember_seen
seen_key-remember_seen now key r named = rw (named, lookup-insert_self key now r.seen) refl

-- The saves forget no key.
abbrev Seen : Text → Runtime → Type 0
Seen key r = seen_key key r ≡ true

update_pending-Seen :
    (now : ℕ) (k key : Text) (change : PendingState → PendingState) (r : Runtime)
    → Seen k r
    → Seen k (update_pending now key change r)
unfolding update_pending seen_key save_state
update_pending-Seen now k key change r h =
    if_keeps (Seen k) (is_nil (trim_space key)) h (found (lookup (trim_space key) r.state.pending))
  where
    found : (o : Option PendingState) → Seen k (change_found now (trim_space key) change o r)
    found none = h
    found (some item) = h

module _ (path_unescape : Text → Option Text) (format_stamp format_rfc3339 : ℕ → Text) where
  keep_peer_ack-Seen :
      (now : ℕ) (key : Text) (o : Option TeamSyncAck) (r : Runtime)
      → Seen key r
      → Seen key (keep_peer_ack path_unescape format_stamp format_rfc3339 now o r)
  unfolding seen_key save_state
  keep_peer_ack-Seen now key none r h = h
  keep_peer_ack-Seen now key (some ack) r h =
      if_keeps (Seen key) (is_nil (trim_space ack.acked_by) || is_nil (trim_space ack.acked_key)) h
        h

  persist_checkpoint-Seen :
      (now : ℕ) (key : Text) (m : TeamSyncMessage) (version : ℕ) (is_applied : Bool) (r : Runtime)
      → Seen key r
      → Seen key
          (persist_checkpoint path_unescape format_stamp format_rfc3339 now m version is_applied r)
  unfolding seen_key save_state persist_checkpoint
  persist_checkpoint-Seen now key m version is_applied r h =
      if_keeps (Seen key)
        (is_nil (team_sync_state_key path_unescape format_stamp format_rfc3339 now m)
          || is_zero version)
        h h

  clear_acked-Seen :
      (now : ℕ) (key : Text) (m : TeamSyncMessage) (o : Option TeamSyncAck) (r : Runtime)
      → Seen key r
      → Seen key (clear_acked path_unescape format_stamp format_rfc3339 now m o r)
  unfolding clear_pending persist_peer_ack
  clear_acked-Seen now key m none r h = h
  clear_acked-Seen now key m (some ack) r h =
      update_pending-Seen now key ack.acked_key _ _ (keep_peer_ack-Seen now key _ r h)

  -- An acknowledgement that is handled has passed every test, and is written down.
  handle_normal-yes :
      (now : ℕ) (m : TeamSyncMessage) (ack : TeamSyncAck) (r : Runtime)
      → (handle_normal path_unescape format_stamp format_rfc3339 now m (some ack) r).0 ≡ true
      → (is_nil (sync_key path_unescape format_stamp format_rfc3339 m) ≡ false)
        × ((handle_normal path_unescape format_stamp format_rfc3339 now m (some ack) r).1
            ≡ persist_ack path_unescape format_stamp format_rfc3339 now m
                (remember_seen now (sync_key path_unescape format_stamp format_rfc3339 m) r))
  handle_normal-yes now m ack r h = elim (Bool-cases (is_ack_for r.node_id ack)) [
    | inr other ↦ cc (rw other at h)
    | inl mine ↦ elim (Bool-cases (is_nil key)) [
      | inl blank ↦ cc (rw (mine, blank) at h)
      | inr named ↦ elim (Bool-cases (seen_key key r)) [
        | inl seen ↦ cc (rw (mine, named, seen) at h)
        | inr unseen ↦
            elim (Bool-cases (is_known_ack path_unescape format_stamp format_rfc3339 now m r)) [
              | inl known ↦ cc (rw (mine, named, unseen, known) at h)
              | inr fresh ↦ (named, rw (mine, named, unseen, fresh) refl)
            ]
      ]
    ]
  ]
    where
      key : Text
      key = sync_key path_unescape format_stamp format_rfc3339 m

  retry-handle_normal :
      (now later : ℕ) (n : TeamSyncMessage) (ack : TeamSyncAck) (r : Runtime)
      → n.ack ≡ some ack
      → (handle_normal path_unescape format_stamp format_rfc3339 now n (some ack) r).0 ≡ true
      → (should_retry_pending later ack.acked_key
          (handle_normal path_unescape format_stamp format_rfc3339 now n (some ack) r).1).0
        ≡ false
  retry-handle_normal now later n ack r there handled =
      rw (handle_normal-yes now n ack r handled).1
        (unfold persist_ack in rw there (should_retry-clear_pending now later ack.acked_key _))

  -- Once an acknowledgement is handled, the queue asks for no retry of the acknowledged key.
  pub should_retry-handle_ack :
      (now later : ℕ) (m : TeamSyncMessage) (ack : TeamSyncAck) (r : Runtime)
      → m.ack ≡ some ack
      → (handle_ack path_unescape format_stamp format_rfc3339 now m r).0 ≡ true
      → (should_retry_pending later ack.acked_key
          (handle_ack path_unescape format_stamp format_rfc3339 now m r).1).0
        ≡ false
  unfolding handle_ack normalize_sync
  should_retry-handle_ack now later m ack r there handled =
      subst
        (λ o.
          (handle_normal path_unescape format_stamp format_rfc3339 now n o r).0 ≡ true
          → (should_retry_pending later ack.acked_key
              (handle_normal path_unescape format_stamp format_rfc3339 now n o r).1).0
            ≡ false)
        (sym normal)
        (λ h.
          ap (λ (p : Bool × Runtime). p.0) (sym (should_retry-trim_space later ack.acked_key _))
          ∙ retry-handle_normal now later n (normal_ack (or_time m.created_at now) ack) r normal h)
        handled
    where
      n : TeamSyncMessage
      n = normalize_sync path_unescape format_stamp format_rfc3339 now m

      normal : n.ack ≡ some (normal_ack (or_time m.created_at now) ack)
      normal = ap (on_payload (normal_ack (or_time m.created_at now))) there

  Seen-handle_normal :
      (now : ℕ) (n : TeamSyncMessage) (o : Option TeamSyncAck) (r : Runtime)
      → is_nil (trim_space (sync_key path_unescape format_stamp format_rfc3339 n)) ≡ false
      → (handle_normal path_unescape format_stamp format_rfc3339 now n o r).0 ≡ true
      → Seen
          (sync_key path_unescape format_stamp format_rfc3339 n)
          (handle_normal path_unescape format_stamp format_rfc3339 now n o r).1
  Seen-handle_normal now n none r named h = cc
  Seen-handle_normal now n (some ack) r named h = rw (handle_normal-yes now n ack r h).1 (
      unfold persist_ack in
      clear_acked-Seen now key n n.ack _
        (persist_checkpoint-Seen now key n _ false _ (seen_key-remember_seen now key r named)))
    where
      key : Text
      key = sync_key path_unescape format_stamp format_rfc3339 n

  -- An acknowledgement whose key is remembered is not handled.
  handle_normal-Seen :
      (now : ℕ) (n : TeamSyncMessage) (o : Option TeamSyncAck) (r : Runtime)
      → Seen (sync_key path_unescape format_stamp format_rfc3339 n) r
      → handle_normal path_unescape format_stamp format_rfc3339 now n o r ≡ (false, r)
  handle_normal-Seen now n none r seen = refl
  handle_normal-Seen now n (some ack) r seen = elim (Bool-cases (is_ack_for r.node_id ack)) [
    | inr other ↦ rw other refl
    | inl mine ↦ elim (Bool-cases (is_nil (sync_key path_unescape format_stamp format_rfc3339 n))) [
      | inl blank ↦ rw (mine, blank) refl
      | inr named ↦ rw (mine, named, seen) refl
    ]
  ]

  -- The key of an acknowledgement does not depend on when it is made normal.
  sync_key-normalize_ack :
      (now later : ℕ) (m : TeamSyncMessage) (ack : TeamSyncAck)
      → m.kind ≡ codes "ack"
      → m.ack ≡ some ack
      → sync_key path_unescape format_stamp format_rfc3339
          (normalize_sync path_unescape format_stamp format_rfc3339 later m)
        ≡ sync_key path_unescape format_stamp format_rfc3339
            (normalize_sync path_unescape format_stamp format_rfc3339 now m)
  unfolding sync_key normalize_sync ack_key team_sync_type normalize_team_sync_type to_lower
      trim_space text_eq
  sync_key-normalize_ack now later m ack kind there = rw (kind, there) refl

  -- An acknowledgement of the type `ack`, whose key is not blank, that was handled changes nothing
  -- when it is delivered again at any later time.
  pub handle_ack_twice :
      (now later : ℕ) (m : TeamSyncMessage) (ack : TeamSyncAck) (r : Runtime)
      → m.kind ≡ codes "ack"
      → m.ack ≡ some ack
      → is_nil (
          trim_space (
            sync_key path_unescape format_stamp format_rfc3339
              (normalize_sync path_unescape format_stamp format_rfc3339 now m)))
        ≡ false
      → (handle_ack path_unescape format_stamp format_rfc3339 now m r).0 ≡ true
      → handle_ack path_unescape format_stamp format_rfc3339 later m
          (handle_ack path_unescape format_stamp format_rfc3339 now m r).1
        ≡ (false, (handle_ack path_unescape format_stamp format_rfc3339 now m r).1)
  unfolding handle_ack
  handle_ack_twice now later m ack r kind there named handled =
      handle_normal-Seen later n_later n_later.ack last (
        rw (sync_key-normalize_ack now later m ack kind there)
          (Seen-handle_normal now n n.ack r named handled))
    where
      n : TeamSyncMessage
      n = normalize_sync path_unescape format_stamp format_rfc3339 now m

      n_later : TeamSyncMessage
      n_later = normalize_sync path_unescape format_stamp format_rfc3339 later m

      last : Runtime
      last = (handle_normal path_unescape format_stamp format_rfc3339 now n n.ack r).1
