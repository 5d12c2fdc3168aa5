-- ===== src/Team/Channel.antt =====
-- The channels of a team (internal/aip2p/team/store.go: `Channel`; channel_config.go: `ChannelConfig`,
-- `normalizeChannelConfig`; normalize.go: `normalizeChannel`; agent_card.go: `normalizeStringList`;
-- sync.go: the snapshot versions). A channel's theme settings and metadata are not modelled.
use ai_p2p.Prelude.{ℕ, Bool, not, List, [], if◌then◌else◌, Option}
use ai_p2p.Text.{Text, trim_space}
use ai_p2p.Team.Id.{normalize_channel_id}
use ai_p2p.Team.Task.{is_zero, or_text, non_empty_loop}

pub record Channel : Type 0 where
  pub channel_id : Text
  pub title : Text
  pub description : Text
  pub hidden : Bool
  pub created_at : ℕ
  pub updated_at : ℕ

pub record ChannelConfig : Type 0 where
  pub channel_id : Text
  pub plugin : Text
  pub theme : Text
  pub agent_onboarding : Text
  pub rules : List Text
  pub created_at : ℕ
  pub updated_at : ℕ

-- `channelSnapshotVersion`, and `channelSyncVersion` of team_sync.go.
unfoldable pub channel_snapshot_version : Channel → ℕ
channel_snapshot_version c = if not (is_zero c.updated_at) then c.updated_at else c.created_at

-- `channelConfigSnapshotVersion`.
unfoldable pub channel_config_snapshot_version : ChannelConfig → ℕ
channel_config_snapshot_version c =
    if not (is_zero c.updated_at) then c.updated_at else c.created_at

-- `normalizeStringList`: its loop is that of `normalizeNonEmptyStrings`.
unfoldable pub normalize_string_list : List Text → List Text
normalize_string_list values = non_empty_loop [] values

module _ (path_unescape : Text → Option Text) where
  -- `normalizeChannel`.
  unfoldable pub normalize_channel : Channel → Channel
  normalize_channel c =
      let channel_id = normalize_channel_id path_unescape c.channel_id in
      record c {
        channel_id = channel_id;
        title = or_text (trim_space c.title) channel_id;
        description = trim_space c.description;
      }

  -- `normalizeChannelConfig`.
  unfoldable pub normalize_channel_config : ChannelConfig → ChannelConfig
  normalize_channel_config c = record c {
    channel_id = normalize_channel_id path_unescape c.channel_id;
    plugin = trim_space c.plugin;
    theme = trim_space c.theme;
    agent_onboarding = trim_space c.agent_onboarding;
    rules = normalize_string_list c.rules;
  }
