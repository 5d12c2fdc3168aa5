-- ===== src/TeamSync/Acks/Scanned.antt =====
-- What a scan does after an acknowledgement (internal/aip2p/team_sync.go: `handleAck`,
-- `shouldRetryPending`, `seenKey`, and the loops of the scans).
use ai_p2p.Prelude.{
  ℕ, Bool, true, false, not, ◌&&◌, ◌≡◌, refl, ap, sym, ◌∙◌, Option, none, some, is_nil, inl, inr,
  Bool-cases,
}
use ai_p2p.Text.{Text, trim_space}
use ai_p2p.TextMap.{lookup}
use ai_p2p.TeamSync.Message.{TeamSyncMessage, TeamSyncAck}
use ai_p2p.TeamSync.State.{PendingState, expired_status}
use ai_p2p.TeamSync.Compact.{is_spent}
use ai_p2p.TeamSync.Queue.{
  Runtime, save_state, update_pending, change_found, mark_pending_status, with_status,
  should_retry_pending, retry_found, is_waiting, seen_key, is_found, scan_item,
}
use ai_p2p.TeamSync.Acks.{handle_ack}
use ai_p2p.TeamSync.Acks.Delivery.{should_retry-handle_ack}

seen-change_found :
    (now : ℕ) (key : Text) (change : PendingState → PendingState) (o : Option PendingState)
    (r : Runtime)
    → (change_found now key change o r).seen ≡ r.seen
unfolding save_state
seen-change_found now key change none r = refl
seen-change_found now key change (some item) r = refl

seen-mark_pending_status :
    (now : ℕ) (key status : Text) (r : Runtime)
    → (mark_pending_status now key status r).seen ≡ r.seen
unfolding mark_pending_status update_pending
seen-mark_pending_status now key status r = elim (Bool-cases (is_nil (trim_space status))) [
  | inl none_given ↦ rw none_given refl
  | inr given ↦ elim (Bool-cases (is_nil (trim_space key))) [
    | inl blank ↦ rw (given, blank) refl
    | inr named ↦
        rw (given, named)
          (seen-change_found now (trim_space key) (with_status now (trim_space status))
            (lookup (trim_space key) r.state.pending) r)
  ]
]

seen-retry_found :
    (now : ℕ) (key : Text) (o : Option PendingState) (r : Runtime)
    → (retry_found now key o r).1.seen ≡ r.seen
seen-retry_found now key none r = refl
seen-retry_found now key (some item) r = elim (Bool-cases (is_waiting item)) [
  | inr idle ↦ rw idle refl
  | inl waits ↦ elim (Bool-cases (is_spent now item)) [
    | inl spent ↦ rw (waits, spent) (seen-mark_pending_status now key expired_status r)
    | inr fresh ↦ rw (waits, fresh) refl
  ]
]

-- The decision to retry leaves what is remembered as it is.
seen-should_retry_pending :
    (now : ℕ) (key : Text) (r : Runtime) → (should_retry_pending now key r).1.seen ≡ r.seen
unfolding should_retry_pending
seen-should_retry_pending now key r = elim (Bool-cases (is_nil (trim_space key))) [
  | inl blank ↦ rw blank refl
  | inr named ↦
      rw named (seen-retry_found now (trim_space key) (lookup (trim_space key) r.state.pending) r)
]

module _ (path_unescape : Text → Option Text) (format_stamp format_rfc3339 : ℕ → Text) where
  -- Without a retry, a scan after the first one goes by what is remembered.
  scan_item_unretried :
      (now : ℕ) (delivered : Bool) (key cursor : Text) (version : ℕ) (m : TeamSyncMessage)
      (r : Runtime)
      → (should_retry_pending now key r).0 ≡ false
      → (scan_item path_unescape format_stamp format_rfc3339 now false delivered key cursor version
          m r).0
        ≡ (delivered && not (seen_key key r))
  unfolding scan_item
  scan_item_unretried now delivered key cursor version m r idle =
      elim (Bool-cases (seen_key key (should_retry_pending now key r).1)) [
        | inl seen ↦
            rw (idle, seen, sym same ∙ seen)
              (elim (Bool-cases delivered) [ inl taken ↦ rw taken refl | inr lost ↦ rw lost refl ])
        | inr unseen ↦
            rw (idle, unseen, sym same ∙ unseen)
              (elim (Bool-cases delivered) [ inl taken ↦ rw taken refl | inr lost ↦ rw lost refl ])
      ]
    where
      same : seen_key key (should_retry_pending now key r).1 ≡ seen_key key r
      same =
          unfold seen_key in
          ap (λ seen. is_found (lookup key seen)) (seen-should_retry_pending now key r)

  -- Once an acknowledgement is handled, `shouldRetryPending`, asked of the resulting state at any time
  -- about the key that is acknowledged, says no, and a scan of that state, if it is not the first one,
  -- publishes a message under that key exactly if the key is not remembered there and the transport
  -- takes the message.
  pub scan_item-handle_ack :
      (now later : ℕ) (m : TeamSyncMessage) (ack : TeamSyncAck) (r : Runtime) (delivered : Bool)
      (cursor : Text) (version : ℕ) (payload : TeamSyncMessage)
      → m.ack ≡ some ack
      → (handle_ack path_unescape format_stamp format_rfc3339 now m r).0 ≡ true
      → ((should_retry_pending later ack.acked_key
            (handle_ack path_unescape format_stamp format_rfc3339 now m r).1).0
          ≡ false)
        × ((scan_item path_unescape format_stamp format_rfc3339 later false delivered ack.acked_key
              cursor version payload
              (handle_ack path_unescape format_stamp format_rfc3339 now m r).1).0
            ≡ (delivered
                && not (
                    seen_key ack.acked_key
                      (handle_ack path_unescape format_stamp format_rfc3339 now m r).1)))
  scan_item-handle_ack now later m ack r delivered cursor version payload there handled =
      let idle =
        should_retry-handle_ack path_unescape format_stamp format_rfc3339 now later m ack r there
          handled in
      (
        idle,
        scan_item_unretried later delivered ack.acked_key cursor version payload
            (handle_ack path_unescape format_stamp format_rfc3339 now m r).1 idle,
      )
