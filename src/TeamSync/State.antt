-- ===== src/TeamSync/State.antt =====
-- The state that a node keeps of the synchronisation (internal/aip2p/team_sync.go:
-- `teamSyncPersistedState` and its parts, `teamSyncStateBucket`, the counters and the constants). A
-- time is a number of nanoseconds, as in Team/Task. `before(t - d)` is written `t + d` after, since a
-- time and a duration never overflow together in the range of Go's `time.Time`. A retry count is never
-- negative.
use ai_p2p.Prelude.{ℕ, ◌+◌, suc, [], ◌∷◌, if◌then◌else◌, length, Option}
use ai_p2p.Text.{Text, codes, text_eq, trim_space, has_prefix}
use ai_p2p.TextMap.{TextMap, lookup, insert}
use ai_p2p.TeamSync.Message.{TeamSyncMessage}

abbrev pub ack_retry_after : ℕ
ack_retry_after = 15_000_000_000

abbrev pub peer_ack_ttl : ℕ
peer_ack_ttl = 86_400_000_000_000

abbrev pub peer_ack_per_peer : ℕ
peer_ack_per_peer = 128

abbrev pub pending_max_retry : ℕ
pending_max_retry = 8

abbrev pub pending_max_age : ℕ
pending_max_age = 21_600_000_000_000

abbrev pub resolved_ttl : ℕ
resolved_ttl = 7_200_000_000_000

abbrev pub conflict_resolved_ttl : ℕ
conflict_resolved_ttl = 86_400_000_000_000

pub record Checkpoint : Type 0 where
  pub version_at : ℕ
  pub key : Text
  pub updated_at : ℕ

pub record PeerAck : Type 0 where
  pub acked_key : Text
  pub acked_by : Text
  pub applied_at : ℕ
  pub updated_at : ℕ

pub record Conflict : Type 0 where
  pub key : Text
  pub kind : Text
  pub team_id : Text
  pub subject_id : Text
  pub source_node : Text
  pub reason : Text
  pub local_version : ℕ
  pub remote_version : ℕ
  pub resolution : Text
  pub resolved_by : Text
  pub resolved_at : ℕ
  pub sync : TeamSyncMessage
  pub updated_at : ℕ

pub record PendingState : Type 0 where
  pub version_at : ℕ
  pub key : Text
  pub state_key : Text
  pub status : Text
  pub updated_at : ℕ
  pub retry_count : ℕ

pub record PersistedState : Type 0 where
  pub messages : TextMap Checkpoint
  pub history : TextMap Checkpoint
  pub tasks : TextMap Checkpoint
  pub artifacts : TextMap Checkpoint
  pub members : TextMap Checkpoint
  pub policies : TextMap Checkpoint
  pub channels : TextMap Checkpoint
  pub applied : TextMap Checkpoint
  pub acks : TextMap Checkpoint
  pub pending : TextMap PendingState
  pub peer_acks : TextMap (TextMap PeerAck)
  pub conflicts : TextMap Conflict

-- `newTeamSyncPersistedState`.
abbrev pub new_persisted_state : PersistedState
new_persisted_state = record {
  messages = [];
  history = [];
  tasks = [];
  artifacts = [];
  members = [];
  policies = [];
  channels = [];
  applied = [];
  acks = [];
  pending = [];
  peer_acks = [];
  conflicts = [];
}

-- The zero value that a missing key gives.
abbrev pub no_pending : PendingState
no_pending = record {
  version_at = 0;
  key = [];
  state_key = [];
  status = [];
  updated_at = 0;
  retry_count = 0;
}

abbrev pub pending_status : Text
pending_status = codes "pending"

abbrev pub expired_status : Text
expired_status = codes "expired"

abbrev pub superseded_status : Text
superseded_status = codes "superseded"

abbrev pub acked_status : Text
acked_status = codes "acked"

-- The map of `teamSyncStateBucket`.
pub data Bucket : Type 0 where
  messages history tasks artifacts members policies channels acks : Bucket

-- `teamSyncStateBucket`.
unfoldable pub bucket : Text → Bucket
bucket state_key =
    if has_prefix state_key (codes "message:")
    then Bucket.messages
    else if has_prefix state_key (codes "history:")
    then Bucket.history
    else if has_prefix state_key (codes "task:")
    then Bucket.tasks
    else if has_prefix state_key (codes "artifact:")
    then Bucket.artifacts
    else if has_prefix state_key (codes "member:")
    then Bucket.members
    else if has_prefix state_key (codes "policy:")
    then Bucket.policies
    else if has_prefix state_key (codes "channel:")
    then Bucket.channels
    else if has_prefix state_key (codes "channel_config:")
    then Bucket.channels
    else if has_prefix state_key (codes "ack:")
    then Bucket.acks
    else Bucket.messages

unfoldable pub read_bucket : Bucket → PersistedState → TextMap Checkpoint
read_bucket Bucket.messages s = s.messages
read_bucket Bucket.history s = s.history
read_bucket Bucket.tasks s = s.tasks
read_bucket Bucket.artifacts s = s.artifacts
read_bucket Bucket.members s = s.members
read_bucket Bucket.policies s = s.policies
read_bucket Bucket.channels s = s.channels
read_bucket Bucket.acks s = s.acks

unfoldable pub write_bucket : Bucket → TextMap Checkpoint → PersistedState → PersistedState
write_bucket Bucket.messages m s = record s { messages = m }
write_bucket Bucket.history m s = record s { history = m }
write_bucket Bucket.tasks m s = record s { tasks = m }
write_bucket Bucket.artifacts m s = record s { artifacts = m }
write_bucket Bucket.members m s = record s { members = m }
write_bucket Bucket.policies m s = record s { policies = m }
write_bucket Bucket.channels m s = record s { channels = m }
write_bucket Bucket.acks m s = record s { acks = m }

-- `publishedCheckpoint`.
unfoldable pub published_checkpoint : Text → PersistedState → Option Checkpoint
published_checkpoint state_key s = lookup state_key (read_bucket (bucket state_key) s)

-- The assignment to a bucket in `persistCheckpoint`.
unfoldable pub set_checkpoint : Text → Checkpoint → PersistedState → PersistedState
set_checkpoint state_key c s =
    write_bucket (bucket state_key) (insert state_key c (read_bucket (bucket state_key) s)) s

-- `countPersistedPeerAckEntries`.
unfoldable pub count_peer_acks : TextMap (TextMap PeerAck) → ℕ
count_peer_acks [] = 0
count_peer_acks ((peer, entries) ∷ rest) = length entries + count_peer_acks rest

-- `countPendingStatus`, over the pending map.
unfoldable pub count_pending_status : Text → TextMap PendingState → ℕ
count_pending_status status [] = 0
count_pending_status status ((key, item) ∷ rest) =
    let total = count_pending_status status rest in
    if text_eq (trim_space item.status) (trim_space status) then suc total else total
