-- ===== src/TeamSync/Tests.antt =====
-- Examples of the messages that wait for an acknowledgement, and of acknowledgements.
mod Conflicts
use ai_p2p.Prelude.{
  ◌&&◌, ℕ, Bool, true, false, not, [], ◌∷◌, ◌≡◌, ◌≤◌, ◌-◌, refl, is_nil, any, Option, none, some,
  All, arith, keep,
}
use ai_p2p.Prelude.Sorting.{insert_sorted, sort_stable}
use ai_p2p.Text.{Text, codes, text_eq, trim_space, to_lower, contains, has_prefix}
use ai_p2p.TextMap.{TextMap, lookup, insert, rebuild}
use ai_p2p.Team.Id.{
  replace_char, replace_pair, contains_pair, squeeze, trim_edge_left, trim_edge_right, or_same,
  replace_separators, clean, reject_path, normalize_team_id, normalize_channel_id,
}
use ai_p2p.TeamSync.Message.{
  TeamMessage, TeamSyncAck, TeamSyncMessage, team_sync_type, normalize_team_sync_type,
  build_message_id, normal_message, normalize_sync, ack_key, sync_key, team_sync_state_key,
  team_sync_message_version, team_sync_version_after,
}
use ai_p2p.TeamSync.State.{
  PendingState, Bucket, bucket, read_bucket, write_bucket, new_persisted_state, pending_status,
  pending_max_retry, published_checkpoint, set_checkpoint, expired_status, superseded_status,
  acked_status,
}
use ai_p2p.TeamSync.Compact.{
  rewrite_entries, trim_acks, compact_peer, is_spent, compact_pending, compact_conflict,
  compact_team_sync_state,
}
use ai_p2p.TeamSync.Merge.{
  merge_entries, merge_peer_acks, replaces, merge_conflicts, merge_team_sync_state,
}
use ai_p2p.TeamSync.Queue.{
  Runtime, write_team_sync_state, save_state, supersede, put_pending, update_pending, clear_pending,
  mark_pending_status, bump_pending_retry, has_waited, is_waiting, should_retry_pending, seen_key,
  remember_seen, prune_seen, should_publish_since_start, should_publish_snapshot,
  persist_checkpoint, persist_pending, persist_published, persist_applied, scan_item,
}
use ai_p2p.TeamSync.Queue.Retries.{Retries, Retries-bound}
use ai_p2p.TeamSync.Queue.Superseded.{IsSuperseded, persist_pending-supersedes}
use ai_p2p.TeamSync.Queue.Pruned.{scan_item-prune_seen}
use ai_p2p.TeamSync.Acks.{
  put_peer_ack, is_ack_for, persist_peer_ack, persist_ack, is_known_ack, handle_ack, ack_of,
  publish_ack, ack_message,
}
use ai_p2p.TeamSync.Acks.Delivery.{handle_ack_twice}
use ai_p2p.TeamSync.Acks.Scanned.{scan_item-handle_ack}
use ai_p2p.TeamSync.Acks.RoundTrip.{handle_ack-ack_of}
use ai_p2p.TeamSync.Receive.{Outcome, after_apply, receive}
use ai_p2p.TeamSync.Receive.Runs.{IsSaved, Run, Run-IsSaved}

-- Naming it unfolds the operations, so that the examples compute.
team_sync : Unit {0}
unfolding any keep text_eq trim_space to_lower contains has_prefix lookup insert rebuild
    replace_char replace_pair contains_pair squeeze trim_edge_left trim_edge_right or_same
    replace_separators clean reject_path normalize_team_id normalize_channel_id insert_sorted
    sort_stable team_sync_type normalize_team_sync_type build_message_id normal_message
    normalize_sync ack_key sync_key team_sync_state_key team_sync_message_version
    team_sync_version_after bucket read_bucket write_bucket published_checkpoint set_checkpoint
    rewrite_entries trim_acks compact_peer is_spent compact_pending compact_conflict
    compact_team_sync_state merge_entries merge_peer_acks replaces merge_conflicts
    merge_team_sync_state write_team_sync_state save_state supersede put_pending update_pending
    clear_pending mark_pending_status bump_pending_retry has_waited is_waiting should_retry_pending
    seen_key remember_seen prune_seen should_publish_since_start should_publish_snapshot
    persist_checkpoint persist_pending persist_published persist_applied scan_item put_peer_ack
    is_ack_for persist_peer_ack persist_ack is_known_ack handle_ack ack_of publish_ack after_apply
    receive
team_sync = tt

abbrev as_it_is : Text → Option Text
as_it_is s = some s

abbrev stamp : ℕ → Text
stamp n = n ∷ []

-- A message that the node "a" sends.
abbrev sent : TeamSyncMessage
sent = record {
  kind = codes "message";
  team_id = codes "t";
  message = some (record {
    message_id = codes "m";
    team_id = codes "t";
    channel_id = codes "main";
    context_id = [];
    author_agent_id = codes "x";
    content = codes "y";
    created_at = 5;
  });
  history = none;
  task = none;
  artifact = none;
  members = [];
  policy = none;
  channel = none;
  channel_config = none;
  ack = none;
  source_node = codes "a";
  created_at = 6;
}

abbrev waiting_item : Text → PendingState
waiting_item key = record {
  version_at = 5;
  key = key;
  state_key = codes "message:t:main";
  status = pending_status;
  updated_at = 10;
  retry_count = 3;
}

-- The node "a", which waits for two acknowledgements.
abbrev node : Runtime
node = record {
  node_id = codes "a";
  started_at = 1;
  seen = (codes "message:m", 8) ∷ [];
  state = record new_persisted_state {
    pending =
        (codes "message:l", waiting_item (codes "message:l"))
        ∷ (codes "message:m", waiting_item (codes "message:m"))
        ∷ [];
  };
  file = new_persisted_state;
}

-- What the node "b" answers.
abbrev answer : TeamSyncMessage
answer =
    normalize_sync as_it_is stamp stamp 20
      (ack_message 20 (codes "b") (codes "t") (codes "message:m") (codes "a"))

answer_of : ack_of as_it_is stamp stamp 20 (codes "b") sent ≡ some answer
unfolding team_sync
answer_of = refl

handle_ack-ack_of_example :
    ((handle_ack as_it_is stamp stamp 30 answer node).0 ≡ true)
    × ((should_retry_pending 90_000_000_000
          (sync_key as_it_is stamp stamp (normalize_sync as_it_is stamp stamp 20 sent))
          (handle_ack as_it_is stamp stamp 30 answer node).1).0
        ≡ false)
unfolding team_sync
handle_ack-ack_of_example =
    handle_ack-ack_of as_it_is stamp stamp 20 30 90_000_000_000 (codes "b") sent answer node refl
      refl refl refl refl refl

abbrev answer_ack : TeamSyncAck
answer_ack = record {
  acked_key = codes "message:m";
  acked_by = codes "b";
  target_node = codes "a";
  applied_at = 20;
}

scan_item-handle_ack_example :
    ((should_retry_pending 90_000_000_000
        (codes "message:m")
        (handle_ack as_it_is stamp stamp 30 answer node).1).0
      ≡ false)
    × ((scan_item as_it_is stamp stamp 90_000_000_000 false true
          (codes "message:m")
          (codes "message:t:main")
          10
          sent
          (handle_ack as_it_is stamp stamp 30 answer node).1).0
        ≡ (true
            && not
                (seen_key (codes "message:m") (handle_ack as_it_is stamp stamp 30 answer node).1)))
unfolding team_sync
scan_item-handle_ack_example =
    scan_item-handle_ack as_it_is stamp stamp 30 90_000_000_000 answer answer_ack node true
      (codes "message:t:main") 10 sent refl refl

handle_ack_twice_example :
    handle_ack as_it_is stamp stamp 40 answer (handle_ack as_it_is stamp stamp 30 answer node).1
    ≡ (false, (handle_ack as_it_is stamp stamp 30 answer node).1)
unfolding team_sync
handle_ack_twice_example =
    handle_ack_twice as_it_is stamp stamp 30 40 answer answer_ack node refl refl refl refl

-- The message is due again more than fifteen seconds later.
abbrev sent_again : Runtime
sent_again =
    (scan_item as_it_is stamp stamp 16_000_000_000 false true (codes "message:m")
      (codes "message:t:main") 5 sent node).1

Retries-bound_example : 1 ≤ pending_max_retry - (waiting_item (codes "message:m")).retry_count
unfolding team_sync
Retries-bound_example =
    Retries-bound as_it_is stamp stamp (codes "message:m") 1 node sent_again
      (waiting_item (codes "message:m")) refl
      (Retries.again 16_000_000_000 false true (codes "message:t:main") 5 sent refl refl refl
        Retries.done)

persist_pending-supersedes_example :
    All
      (λ e.
        IsSuperseded
          (trim_space (sync_key as_it_is stamp stamp sent))
          (team_sync_state_key as_it_is stamp stamp 30 sent)
          e.0
          e.1)
      (persist_pending as_it_is stamp stamp 30 sent 5 node).state.pending
unfolding team_sync
persist_pending-supersedes_example =
    persist_pending-supersedes as_it_is stamp stamp 30 sent 5 node refl refl

-- An earlier message of the channel no longer waits.
earlier_message :
    lookup (codes "message:l") (persist_pending as_it_is stamp stamp 30 sent 5 node).state.pending
    ≡ some
        (record (waiting_item (codes "message:l")) { status = superseded_status; updated_at = 30 })
unfolding team_sync
earlier_message = refl

abbrev acked_item : PendingState
acked_item = record (waiting_item (codes "message:m")) { status = acked_status }

-- The same node, once the message is acknowledged.
abbrev acked_node : Runtime
acked_node = record node {
  state = record new_persisted_state { pending = (codes "message:m", acked_item) ∷ [] };
}

scan_item-prune_seen_example :
    ((scan_item as_it_is stamp stamp 120 false true
        (codes "message:m")
        (codes "message:t:main")
        5
        sent
        acked_node).0
      ≡ false)
    × ((scan_item as_it_is stamp stamp 120 false true
          (codes "message:m")
          (codes "message:t:main")
          5
          sent
          (prune_seen 100 30 acked_node)).0
        ≡ true)
unfolding team_sync
scan_item-prune_seen_example =
    scan_item-prune_seen as_it_is stamp stamp 100 120 30 8 (codes "message:m")
      (codes "message:t:main") 5 sent acked_node acked_item (refl, tt) refl (ground arith) refl refl
      refl

-- A node that has just started, sends the message and receives the answer.
abbrev started : Runtime
started = record node { seen = []; state = new_persisted_state }

abbrev published : Runtime
published =
    (scan_item as_it_is stamp stamp 10 false true (codes "message:m") (codes "message:t:main") 5
      sent started).1

Run-IsSaved_example :
    IsSaved (receive as_it_is stamp stamp 30 true answer (Outcome.skipped none) published)
Run-IsSaved_example =
    Run-IsSaved as_it_is stamp stamp started
      (receive as_it_is stamp stamp 30 true answer (Outcome.skipped none) published)
      (refl, (tt, tt))
      (Run.scan 10 false true (codes "message:m") (codes "message:t:main") 5 sent
        (Run.receipt 30 true answer (Outcome.skipped none) Run.start))
