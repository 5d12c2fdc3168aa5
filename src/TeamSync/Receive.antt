-- ===== src/TeamSync/Receive.antt =====
-- What a node does with a message that it receives (internal/aip2p/team_sync.go: the handler in
-- `ensureSubscription`, `recordConflictIfNeeded`, `recordConflictFromError`, `classifyTeamSyncError`,
-- `teamSyncSubjectID`). What the store answers is an argument: the outcome of `ApplyReplicatedSync`,
-- with what `DetectReplicatedConflict` finds after it, or the text of the error.
pub mod Runs
use ai_p2p.Prelude.{
  ℕ, Bool, true, false, ◌&&◌, ◌||◌, [], ◌∷◌, if◌then◌else◌, is_nil, Option, none, some,
}
use ai_p2p.Text.{Text, codes, text_eq, trim_space, to_lower, has_prefix}
use ai_p2p.Team.Task.{Task}
use ai_p2p.Team.Artifact.{Artifact}
use ai_p2p.Team.Channel.{Channel, ChannelConfig}
use ai_p2p.TeamSync.Message.{
  TeamSyncMessage, TeamMessage, ChangeEvent, TeamSyncType, team_sync_type, payload_or,
  normalize_sync, sync_key, team_sync_message_version,
}
use ai_p2p.TeamSync.Queue.{Runtime, remember_seen, persist_applied}
use ai_p2p.TeamSync.Acks.{handle_ack, publish_ack}
use ai_p2p.TeamSync.Conflicts.{TeamSyncConflict, persist_conflict}

-- What the store has done with a message.
pub data Outcome : Type 0 where
  applied : Outcome
  skipped : Option TeamSyncConflict → Outcome
  failed : Text → Outcome

-- `strings.Contains`.
unfoldable pub contains_text : Text → Text → Bool
contains_text [] part = is_nil part
contains_text (c ∷ s) part = has_prefix (c ∷ s) part || contains_text s part

-- `classifyTeamSyncError`.
unfoldable pub classify_team_sync_error : Text → Text
classify_team_sync_error failure =
    let message = to_lower (trim_space failure) in
    if contains_text message (codes "signature verification failed")
    then codes "signature_rejected"
    else if contains_text message (codes "policy denied")
    then codes "policy_rejected"
    else []

module _ (path_unescape : Text → Option Text) (format_stamp format_rfc3339 : ℕ → Text) where
  -- `teamSyncSubjectID`.
  unfoldable pub team_sync_subject_id : ℕ → TeamSyncMessage → Text
  team_sync_subject_id now raw =
      let m = normalize_sync path_unescape format_stamp format_rfc3339 now raw in
      elim (team_sync_type m.kind) [
        | TeamSyncType.message ↦
            payload_or [] (λ (p : TeamMessage). trim_space p.message_id) m.message
        | TeamSyncType.history ↦
            payload_or [] (λ (p : ChangeEvent). trim_space p.event_id) m.history
        | TeamSyncType.task ↦ payload_or [] (λ (p : Task). trim_space p.task_id) m.task
        | TeamSyncType.artifact ↦
            payload_or [] (λ (p : Artifact). trim_space p.artifact_id) m.artifact
        | TeamSyncType.member ↦ m.team_id
        | TeamSyncType.policy ↦ m.team_id
        | TeamSyncType.channel ↦ payload_or [] (λ (p : Channel). trim_space p.channel_id) m.channel
        | TeamSyncType.channel_config ↦
            payload_or [] (λ (p : ChannelConfig). trim_space p.channel_id) m.channel_config
        | TeamSyncType.ack ↦ []
        | TeamSyncType.unknown ↦ []
      ]

  -- `recordConflictFromError`.
  unfoldable pub record_conflict_from_error : ℕ → TeamSyncMessage → Text → Runtime → Runtime
  record_conflict_from_error now m failure r =
      let reason = classify_team_sync_error failure in
      let conflict : TeamSyncConflict = record {
        kind = m.kind;
        team_id = m.team_id;
        subject_id = team_sync_subject_id now m;
        source_node = m.source_node;
        reason = reason;
        local_version = 0;
        remote_version = team_sync_message_version path_unescape format_stamp format_rfc3339 now m;
        resolution = [];
        resolved_by = [];
        resolved_at = 0;
      } in
      if is_nil reason
      then r
      else persist_conflict path_unescape format_stamp format_rfc3339 now
          (normalize_sync path_unescape format_stamp format_rfc3339 now m) conflict r

  -- What follows the answer of the store.
  unfoldable pub after_apply : ℕ → Bool → TeamSyncMessage → Outcome → Runtime → Runtime
  after_apply now delivered m Outcome.applied r =
      publish_ack path_unescape format_stamp format_rfc3339 now delivered m (
        persist_applied path_unescape format_stamp format_rfc3339 now m
          (remember_seen now (sync_key path_unescape format_stamp format_rfc3339 m) r))
  after_apply now delivered m (Outcome.skipped none) r = r
  after_apply now delivered m (Outcome.skipped (some c)) r =
      persist_conflict path_unescape format_stamp format_rfc3339 now m c r
  after_apply now delivered m (Outcome.failed failure) r =
      record_conflict_from_error now m failure r

  -- The handler in `ensureSubscription`, where `delivered` is whether the transport takes the
  -- acknowledgement.
  unfoldable pub receive : ℕ → Bool → TeamSyncMessage → Outcome → Runtime → Runtime
  receive now delivered m outcome r =
      let handled = (handle_ack path_unescape format_stamp format_rfc3339 now m r).1 in
      if text_eq m.kind (codes "ack") then handled else after_apply now delivered m outcome r
