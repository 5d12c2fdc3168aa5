-- ===== src/TeamSync/Message.antt =====
-- The messages that nodes exchange about a team (internal/aip2p/team/sync.go: `TeamSyncMessage`,
-- `Normalize`, `Key` and what they call; internal/aip2p/team_sync.go: `teamSyncStateKey`,
-- `teamSyncMessageVersion`). Of a message and of a change event only the fields that the
-- synchronisation reads are kept.
use ai_p2p.Prelude.{
  ℕ, ltb, Bool, true, false, List, [], ◌++◌, if◌then◌else◌, is_nil, Option, none, some,
}
use ai_p2p.Text.{Text, codes, text_eq, trim_space, to_lower}
use ai_p2p.Team.Id.{normalize_team_id, normalize_channel_id}
use ai_p2p.Team.Task.{Task, is_zero, or_time, normalize_replicated_task, task_version}
use ai_p2p.Team.Artifact.{Artifact, normalize_replicated_artifact, artifact_version}
use ai_p2p.Team.Member.{Member, normalize_replicated_members, members_snapshot_version}
use ai_p2p.Team.Policy.{Policy, normalize_policy, policy_snapshot_version}
use ai_p2p.Team.Channel.{
  Channel, ChannelConfig, normalize_channel, normalize_channel_config, channel_snapshot_version,
  channel_config_snapshot_version,
}

pub record TeamMessage : Type 0 where
  pub message_id : Text
  pub team_id : Text
  pub channel_id : Text
  pub context_id : Text
  pub author_agent_id : Text
  pub content : Text
  pub created_at : ℕ

pub record ChangeEvent : Type 0 where
  pub event_id : Text
  pub team_id : Text
  pub scope : Text
  pub action : Text
  pub subject_id : Text
  pub source : Text
  pub created_at : ℕ

pub record TeamSyncAck : Type 0 where
  pub acked_key : Text
  pub acked_by : Text
  pub target_node : Text
  pub applied_at : ℕ

pub record TeamSyncMessage : Type 0 where
  pub kind : Text
  pub team_id : Text
  pub message : Option TeamMessage
  pub history : Option ChangeEvent
  pub task : Option Task
  pub artifact : Option Artifact
  pub members : List Member
  pub policy : Option Policy
  pub channel : Option Channel
  pub channel_config : Option ChannelConfig
  pub ack : Option TeamSyncAck
  pub source_node : Text
  pub created_at : ℕ

-- The values of `Type` that the code knows.
pub data TeamSyncType : Type 0 where
  message history task artifact member policy channel channel_config ack unknown : TeamSyncType

-- The `switch` on `Type`.
unfoldable pub team_sync_type : Text → TeamSyncType
team_sync_type kind =
    if text_eq kind (codes "message")
    then TeamSyncType.message
    else if text_eq kind (codes "history")
    then TeamSyncType.history
    else if text_eq kind (codes "task")
    then TeamSyncType.task
    else if text_eq kind (codes "artifact")
    then TeamSyncType.artifact
    else if text_eq kind (codes "member")
    then TeamSyncType.member
    else if text_eq kind (codes "policy")
    then TeamSyncType.policy
    else if text_eq kind (codes "channel")
    then TeamSyncType.channel
    else if text_eq kind (codes "channel_config")
    then TeamSyncType.channel_config
    else if text_eq kind (codes "ack")
    then TeamSyncType.ack
    else TeamSyncType.unknown

-- `normalizeTeamSyncType`.
unfoldable pub normalize_team_sync_type : Text → Text
normalize_team_sync_type value = to_lower (trim_space value)

-- A payload that is there is replaced.
abbrev pub on_payload {ℓ} : {A : Type ℓ} → (A → A) → Option A → Option A
on_payload f none = none
on_payload f (some a) = some (f a)

-- What a payload gives, or a default where there is none.
abbrev pub payload_or {ℓ κ} : {A : Type ℓ} {B : Type κ} → B → (A → B) → Option A → B
payload_or d f none = d
payload_or d f (some a) = f a

-- `strings.Join(..., ":")` of five parts.
abbrev pub joined : Text → Text → Text → Text → Text → Text
joined a b c d e =
    a ++ (codes ":" ++ (b ++ (codes ":" ++ (c ++ (codes ":" ++ (d ++ (codes ":" ++ e)))))))

-- The part of `Normalize` for an acknowledgement.
abbrev pub normal_ack : ℕ → TeamSyncAck → TeamSyncAck
normal_ack created_at a = record {
  acked_key = trim_space a.acked_key;
  acked_by = trim_space a.acked_by;
  target_node = trim_space a.target_node;
  applied_at = or_time a.applied_at created_at;
}

module _ (path_unescape : Text → Option Text) (format_stamp format_rfc3339 : ℕ → Text) where
  -- `buildMessageID`.
  unfoldable pub build_message_id : TeamMessage → Text
  build_message_id m =
      joined (trim_space m.team_id) (normalize_channel_id path_unescape m.channel_id)
        (trim_space m.author_agent_id) (format_rfc3339 m.created_at) (trim_space m.content)

  -- `buildChangeEventID`.
  unfoldable pub build_change_event_id : ChangeEvent → Text
  build_change_event_id e =
      joined (trim_space e.team_id) (trim_space e.scope) (trim_space e.action)
        (format_rfc3339 e.created_at) (trim_space e.subject_id)

  -- The part of `Normalize` for a message. An id that is not blank is left untrimmed.
  unfoldable pub normal_message : Text → TeamMessage → TeamMessage
  normal_message team_id raw =
      let m = record raw {
        team_id = team_id;
        channel_id = normalize_channel_id path_unescape raw.channel_id;
        context_id = trim_space raw.context_id;
      } in
      record m {
        message_id = if is_nil (trim_space m.message_id) then build_message_id m else m.message_id;
      }

  -- The part of `Normalize` for a change event.
  unfoldable pub normal_event : Text → ℕ → ChangeEvent → ChangeEvent
  normal_event team_id created_at raw =
      let e = record raw {
        team_id = team_id;
        scope = trim_space raw.scope;
        action = trim_space raw.action;
        source = trim_space raw.source;
        created_at = or_time raw.created_at created_at;
      } in
      record e {
        event_id = if is_nil (trim_space e.event_id) then build_change_event_id e else e.event_id;
      }

  -- The part of `Normalize` for a policy, a channel and a channel's settings.
  unfoldable pub normal_policy : ℕ → Policy → Policy
  normal_policy created_at raw =
      let p = normalize_policy raw in record p { updated_at = or_time p.updated_at created_at }

  unfoldable pub normal_channel : ℕ → Channel → Channel
  normal_channel created_at raw =
      let c = normalize_channel path_unescape raw in
      record c { updated_at = or_time c.updated_at created_at }

  unfoldable pub normal_channel_config : ℕ → ChannelConfig → ChannelConfig
  normal_channel_config created_at raw =
      let c = normalize_channel_config path_unescape raw in
      let updated_at = or_time c.updated_at created_at in
      record c { updated_at = updated_at; created_at = or_time c.created_at updated_at }

  -- `TeamSyncMessage.Normalize`, at the time `now`.
  unfoldable pub normalize_sync : ℕ → TeamSyncMessage → TeamSyncMessage
  normalize_sync now m =
      let team_id = normalize_team_id path_unescape m.team_id in
      let created_at = or_time m.created_at now in
      record {
        kind = normalize_team_sync_type m.kind;
        team_id = team_id;
        message = on_payload (normal_message team_id) m.message;
        history = on_payload (normal_event team_id created_at) m.history;
        task =
            on_payload
              (normalize_replicated_task path_unescape format_stamp format_rfc3339 now team_id)
              m.task;
        artifact =
            on_payload (normalize_replicated_artifact path_unescape format_rfc3339 now team_id)
              m.artifact;
        members = normalize_replicated_members now m.members;
        policy = on_payload (normal_policy created_at) m.policy;
        channel = on_payload (normal_channel created_at) m.channel;
        channel_config = on_payload (normal_channel_config created_at) m.channel_config;
        ack = on_payload (normal_ack created_at) m.ack;
        source_node = trim_space m.source_node;
        created_at = created_at;
      }

  -- `prefix + id + ":" + version`, or "" where the id is empty.
  abbrev pub versioned_key : Text → Text → ℕ → Text
  versioned_key prefix id version =
      if is_nil id then [] else prefix ++ (id ++ (codes ":" ++ format_rfc3339 version))

  -- The same, or "" also where the team is empty or the version is zero.
  abbrev pub team_key : Text → Text → Text → ℕ → Text
  team_key prefix raw_team id version =
      if is_nil (normalize_team_id path_unescape raw_team)
      then []
      else if is_nil id
      then []
      else if is_zero version
      then []
      else versioned_key prefix id version

  -- The case of `Key` for an acknowledgement.
  unfoldable pub ack_key : TeamSyncAck → Text
  ack_key a =
      let key = codes "ack:" ++ a.acked_key in
      if is_nil a.acked_key
      then []
      else if is_nil a.acked_by
      then key
      else key ++ (codes ":" ++ a.acked_by)

  -- `TeamSyncMessage.Key`, with `teamSyncTaskKey` to `teamSyncChannelConfigKey`.
  unfoldable pub sync_key : TeamSyncMessage → Text
  sync_key m =
      let team = normalize_team_id path_unescape m.team_id in
      elim (team_sync_type (normalize_team_sync_type m.kind)) [
        | TeamSyncType.message ↦
            payload_or [] (λ (p : TeamMessage). codes "message:" ++ trim_space p.message_id)
              m.message
        | TeamSyncType.history ↦
            payload_or [] (λ (p : ChangeEvent). codes "history:" ++ trim_space p.event_id) m.history
        | TeamSyncType.task ↦
            payload_or []
              (λ (p : Task). versioned_key (codes "task:") (trim_space p.task_id) (task_version p))
              m.task
        | TeamSyncType.artifact ↦
            payload_or []
              (λ (p : Artifact).
                versioned_key (codes "artifact:") (trim_space p.artifact_id) (artifact_version p))
              m.artifact
        | TeamSyncType.member ↦
            team_key (codes "member:") m.team_id team (members_snapshot_version m.members)
        | TeamSyncType.policy ↦
            payload_or []
              (λ (p : Policy).
                team_key (codes "policy:") m.team_id team (policy_snapshot_version p))
              m.policy
        | TeamSyncType.channel ↦
            payload_or []
              (λ (p : Channel).
                team_key (codes "channel:") m.team_id
                  (normalize_channel_id path_unescape p.channel_id) (channel_snapshot_version p))
              m.channel
        | TeamSyncType.channel_config ↦
            payload_or []
              (λ (p : ChannelConfig).
                team_key (codes "channel_config:") m.team_id
                  (normalize_channel_id path_unescape p.channel_id)
                  (channel_config_snapshot_version p))
              m.channel_config
        | TeamSyncType.ack ↦ payload_or [] ack_key m.ack
        | TeamSyncType.unknown ↦ []
      ]

  -- `teamSyncState...Key`: a prefix, the team, and a part that is trimmed.
  abbrev pub cursor_key : Text → Text → Text
  cursor_key prefix team = prefix ++ normalize_team_id path_unescape team

  abbrev pub subject_key : Text → Text → Text → Text
  subject_key prefix team subject = cursor_key prefix team ++ (codes ":" ++ trim_space subject)

  -- `teamSyncStateKey`.
  unfoldable pub team_sync_state_key : ℕ → TeamSyncMessage → Text
  team_sync_state_key now raw =
      let m = normalize_sync now raw in
      elim (team_sync_type m.kind) [
        | TeamSyncType.message ↦
            payload_or []
              (λ (p : TeamMessage). subject_key (codes "message:") m.team_id p.channel_id) m.message
        | TeamSyncType.history ↦ cursor_key (codes "history:") m.team_id
        | TeamSyncType.task ↦
            payload_or [] (λ (p : Task). subject_key (codes "task:") m.team_id p.task_id) m.task
        | TeamSyncType.artifact ↦
            payload_or []
              (λ (p : Artifact). subject_key (codes "artifact:") m.team_id p.artifact_id) m.artifact
        | TeamSyncType.member ↦ cursor_key (codes "member:") m.team_id
        | TeamSyncType.policy ↦ cursor_key (codes "policy:") m.team_id
        | TeamSyncType.channel ↦
            payload_or [] (λ (p : Channel). subject_key (codes "channel:") m.team_id p.channel_id)
              m.channel
        | TeamSyncType.channel_config ↦
            payload_or []
              (λ (p : ChannelConfig). subject_key (codes "channel_config:") m.team_id p.channel_id)
              m.channel_config
        | TeamSyncType.ack ↦
            payload_or []
              (λ (a : TeamSyncAck).
                subject_key (codes "ack:") m.team_id a.acked_key
                ++ (codes ":" ++ trim_space a.acked_by))
              m.ack
        | TeamSyncType.unknown ↦ []
      ]

  -- `teamSyncMessageVersion`.
  unfoldable pub team_sync_message_version : ℕ → TeamSyncMessage → ℕ
  team_sync_message_version now raw =
      let m = normalize_sync now raw in
      elim (team_sync_type m.kind) [
        | TeamSyncType.message ↦ payload_or 0 (λ (p : TeamMessage). p.created_at) m.message
        | TeamSyncType.history ↦ payload_or 0 (λ (p : ChangeEvent). p.created_at) m.history
        | TeamSyncType.task ↦ payload_or 0 task_version m.task
        | TeamSyncType.artifact ↦ payload_or 0 artifact_version m.artifact
        | TeamSyncType.member ↦ m.created_at
        | TeamSyncType.policy ↦ m.created_at
        | TeamSyncType.channel ↦ payload_or 0 channel_snapshot_version m.channel
        | TeamSyncType.channel_config ↦
            payload_or 0 channel_config_snapshot_version m.channel_config
        | TeamSyncType.ack ↦ payload_or 0 (λ (a : TeamSyncAck). a.applied_at) m.ack
        | TeamSyncType.unknown ↦ 0
      ]

-- `teamSyncVersionAfter`.
unfoldable pub team_sync_version_after : ℕ → ℕ → Bool
team_sync_version_after next current =
    if is_zero next then false else if is_zero current then true else ltb current next
