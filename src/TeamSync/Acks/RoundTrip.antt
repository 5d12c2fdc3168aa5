-- ===== src/TeamSync/Acks/RoundTrip.antt =====
-- A message, its acknowledgement by the node that applied it, and what that does at the node that has
-- sent it (internal/aip2p/team_sync.go: `publishAck` and `handleAck`).
use ai_p2p.Prelude.{
  ℕ, Bool, true, false, ◌≡◌, refl, ap, sym, ◌∙◌, Option, some, is_nil, inl, inr, Bool-cases,
  eq_of_some, arith,
}
use mathlib.Core.Path.{subst}
use ai_p2p.Text.{Text, text_eq, trim_space, to_lower}
use ai_p2p.Text.Laws.{trim_space_idem, text_eq_refl}
use ai_p2p.Team.Task.{or_time}
use ai_p2p.TeamSync.Message.{
  TeamSyncMessage, TeamSyncAck, normalize_sync, sync_key, normal_ack, team_sync_type,
  normalize_team_sync_type, ack_key,
}
use ai_p2p.TeamSync.Queue.{Runtime, should_retry_pending, seen_key, is_ack}
use ai_p2p.TeamSync.Acks.{ack_message, ack_of, handle_normal, handle_ack, is_known_ack, is_ack_for}
use ai_p2p.TeamSync.Acks.Delivery.{should_retry-handle_ack, should_retry-trim_space}

-- The acknowledgement that one node builds and both make normal.
abbrev twice_normal : ℕ → ℕ → Text → Text → Text → TeamSyncAck
twice_normal now later node_id key target = normal_ack (or_time (or_time now now) later) (
    normal_ack (or_time now now)
      (record { acked_key = key; acked_by = node_id; target_node = target; applied_at = now }))

is_ack_for-normal_ack :
    (now later : ℕ) (node_id key target : Text) (r : Runtime)
    → is_nil (trim_space key) ≡ false
    → trim_space target ≡ r.node_id
    → is_nil (trim_space node_id) ≡ false
    → text_eq (trim_space node_id) r.node_id ≡ false
    → is_ack_for r.node_id (twice_normal now later node_id key target) ≡ true
unfolding is_ack_for
is_ack_for-normal_ack now later node_id key target r named mine somebody other =
    rw
      (
        trim_space_idem key,
        trim_space_idem key,
        trim_space_idem target,
        trim_space_idem target,
        trim_space_idem node_id,
        trim_space_idem node_id,
        named,
        mine,
        somebody,
        other,
        text_eq_refl r.node_id,
      )
      (ground arith)

module _ (path_unescape : Text → Option Text) (format_stamp format_rfc3339 : ℕ → Text) where
  -- What is known of a message that is acknowledged.
  ack_of-some :
      (now : ℕ) (node_id : Text) (m a : TeamSyncMessage)
      → ack_of path_unescape format_stamp format_rfc3339 now node_id m ≡ some a
      → (is_nil (
            trim_space (
              sync_key path_unescape format_stamp format_rfc3339
                (normalize_sync path_unescape format_stamp format_rfc3339 now m)))
          ≡ false)
        × (is_nil (
              trim_space
                (normalize_sync path_unescape format_stamp format_rfc3339 now m).source_node)
            ≡ false)
        × (a
            ≡ normalize_sync path_unescape format_stamp format_rfc3339 now (
                ack_message now node_id
                  (normalize_sync path_unescape format_stamp format_rfc3339 now m).team_id
                  (trim_space (
                    sync_key path_unescape format_stamp format_rfc3339
                      (normalize_sync path_unescape format_stamp format_rfc3339 now m)))
                  (trim_space
                    (normalize_sync path_unescape format_stamp format_rfc3339 now m).source_node)))
  unfolding ack_of
  ack_of-some now node_id m a e = elim (Bool-cases (is_ack (team_sync_type n.kind))) [
    | inl acknowledges ↦ cc (rw acknowledges at e)
    | inr payload ↦ elim (Bool-cases (is_nil key)) [
      | inl blank ↦ cc (rw (payload, blank) at e)
      | inr named ↦ elim (Bool-cases (is_nil target)) [
        | inl nobody ↦ cc (rw (payload, named, nobody) at e)
        | inr somebody ↦ (named, somebody, sym (eq_of_some (rw (payload, named, somebody) at e)))
      ]
    ]
  ]
    where
      n : TeamSyncMessage
      n = normalize_sync path_unescape format_stamp format_rfc3339 now m

      key : Text
      key = trim_space (sync_key path_unescape format_stamp format_rfc3339 n)

      target : Text
      target = trim_space n.source_node

  -- An acknowledgement for a node, by another one, passes the tests at that node.
  handle_normal-handled :
      (now : ℕ) (m : TeamSyncMessage) (ack : TeamSyncAck) (r : Runtime)
      → is_ack_for r.node_id ack ≡ true
      → is_nil (sync_key path_unescape format_stamp format_rfc3339 m) ≡ false
      → seen_key (sync_key path_unescape format_stamp format_rfc3339 m) r ≡ false
      → is_known_ack path_unescape format_stamp format_rfc3339 now m r ≡ false
      → (handle_normal path_unescape format_stamp format_rfc3339 now m (some ack) r).0 ≡ true
  handle_normal-handled now m ack r mine named unseen fresh = rw (mine, named, unseen, fresh) refl

  ack_key-named :
      (ack : TeamSyncAck)
      → is_nil ack.acked_key ≡ false
      → is_nil (ack_key path_unescape format_stamp format_rfc3339 ack) ≡ false
  unfolding ack_key
  ack_key-named ack named = elim (Bool-cases (is_nil ack.acked_by)) [
    | inl nobody ↦ rw (named, nobody) refl
    | inr somebody ↦ rw (named, somebody) refl
  ]

  -- The message of an acknowledgement, made normal by both nodes, keeps its key.
  sync_key-ack_message :
      (now later : ℕ) (node_id team_id key target : Text)
      → sync_key path_unescape format_stamp format_rfc3339 (
          normalize_sync path_unescape format_stamp format_rfc3339 later (
            normalize_sync path_unescape format_stamp format_rfc3339 now
              (ack_message now node_id team_id key target)))
        ≡ ack_key path_unescape format_stamp format_rfc3339
            (twice_normal now later node_id key target)
  unfolding sync_key normalize_sync team_sync_type normalize_team_sync_type to_lower trim_space
      text_eq
  sync_key-ack_message now later node_id team_id key target = refl

  -- A node handles the acknowledgement of its own message by another node, if it has not seen it.
  handle_ack-ack_message :
      (now later : ℕ) (node_id team_id key target : Text) (r : Runtime) (a : TeamSyncMessage)
      → a
        ≡ normalize_sync path_unescape format_stamp format_rfc3339 now
            (ack_message now node_id team_id key target)
      → is_nil (trim_space key) ≡ false
      → trim_space target ≡ r.node_id
      → is_nil (trim_space node_id) ≡ false
      → text_eq (trim_space node_id) r.node_id ≡ false
      → seen_key
          (sync_key path_unescape format_stamp format_rfc3339
            (normalize_sync path_unescape format_stamp format_rfc3339 later a))
          r
        ≡ false
      → is_known_ack path_unescape format_stamp format_rfc3339 later
          (normalize_sync path_unescape format_stamp format_rfc3339 later a)
          r
        ≡ false
      → (handle_ack path_unescape format_stamp format_rfc3339 later a r).0 ≡ true
  unfolding handle_ack normalize_sync
  handle_ack-ack_message now later node_id team_id key target r a built named mine somebody other =
      subst
        (λ a.
          seen_key
              (sync_key path_unescape format_stamp format_rfc3339
                (normalize_sync path_unescape format_stamp format_rfc3339 later a))
              r
            ≡ false
          → is_known_ack path_unescape format_stamp format_rfc3339 later
              (normalize_sync path_unescape format_stamp format_rfc3339 later a) r
            ≡ false
          → (handle_ack path_unescape format_stamp format_rfc3339 later a r).0 ≡ true)
        (sym built)
        (handle_normal-handled later _ (twice_normal now later node_id key target) r
          (is_ack_for-normal_ack now later node_id key target r named mine somebody other)
          (rw (sync_key-ack_message now later node_id team_id key target) (
            ack_key-named (twice_normal now later node_id key target)
              (rw (trim_space_idem key, named) refl))))

  -- A message that a node has sent is applied by another node, which acknowledges it, and the
  -- acknowledgement reaches the node that has sent it. If neither the acknowledgement's key is remembered
  -- there nor its checkpoint kept, it is handled, and `shouldRetryPending`, asked of the resulting
  -- state at any time about the message's key, says no: the queue asks for no retry. The message is
  -- from the node that has sent it, and the other node's id is another one and not blank.
  pub handle_ack-ack_of :
      (now later last : ℕ) (node_id : Text) (m a : TeamSyncMessage) (r : Runtime)
      → ack_of path_unescape format_stamp format_rfc3339 now node_id m ≡ some a
      → trim_space (normalize_sync path_unescape format_stamp format_rfc3339 now m).source_node
        ≡ r.node_id
      → is_nil (trim_space node_id) ≡ false
      → text_eq (trim_space node_id) r.node_id ≡ false
      → seen_key
          (sync_key path_unescape format_stamp format_rfc3339
            (normalize_sync path_unescape format_stamp format_rfc3339 later a))
          r
        ≡ false
      → is_known_ack path_unescape format_stamp format_rfc3339 later
          (normalize_sync path_unescape format_stamp format_rfc3339 later a)
          r
        ≡ false
      → ((handle_ack path_unescape format_stamp format_rfc3339 later a r).0 ≡ true)
        × ((should_retry_pending last
              (sync_key path_unescape format_stamp format_rfc3339
                (normalize_sync path_unescape format_stamp format_rfc3339 now m))
              (handle_ack path_unescape format_stamp format_rfc3339 later a r).1).0
            ≡ false)
  handle_ack-ack_of now later last node_id m a r e source somebody other unseen fresh =
      let (named, target, built) = ack_of-some now node_id m a e in
      let handled : (handle_ack path_unescape format_stamp format_rfc3339 later a r).0 ≡ true =
        handle_ack-ack_message now later node_id n.team_id key (trim_space n.source_node) r a built
          (rw (trim_space_idem (sync_key path_unescape format_stamp format_rfc3339 n)) named)
          (rw (trim_space_idem n.source_node) source) somebody other unseen fresh in
      (
        handled,
        ap (λ (p : Bool × Runtime). p.0)
              (sym (
                  should_retry-trim_space last
                    (sync_key path_unescape format_stamp format_rfc3339 n) _)
                ∙ sym (should_retry-trim_space last key _))
            ∙ should_retry-handle_ack path_unescape format_stamp format_rfc3339 later last a
                built_ack r (unfold normalize_sync in ap (λ (b : TeamSyncMessage). b.ack) built)
                handled,
      )
    where
      n : TeamSyncMessage
      n = normalize_sync path_unescape format_stamp format_rfc3339 now m

      key : Text
      key = trim_space (sync_key path_unescape format_stamp format_rfc3339 n)

      built_ack : TeamSyncAck
      built_ack = normal_ack (or_time now now) (record {
        acked_key = key;
        acked_by = node_id;
        target_node = trim_space n.source_node;
        applied_at = now;
      })
