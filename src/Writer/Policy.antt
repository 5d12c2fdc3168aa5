-- ===== src/Writer/Policy.antt =====
-- `WriterPolicy` and its normal form (internal/plugins/aip2p/writer_policy.go).
pub mod Laws
use ai_p2p.Prelude.{Bool, true, false, ◌&&◌, ◌||◌, not, List, [], is_nil}
use ai_p2p.Text.{Text}
use ai_p2p.TextMap.{TextMap}
use ai_p2p.Writer.Modes.{
  WriterCapability, WriterSyncMode, WriterTrustMode, RelayTrust, normalize_writer_capability,
  normalize_writer_sync_mode, normalize_writer_trust_mode, normalize_relay_trust,
}
use ai_p2p.Writer.Lists.{unique_fold, unique_trim, normalize_hex_list}
use ai_p2p.Writer.Maps.{
  normalize_capability_map, normalize_relay_trust_map, normalize_public_key_map,
}

pub record WriterPolicy : Type 0 where
  pub sync_mode : WriterSyncMode
  pub trust_mode : WriterTrustMode
  pub allow_unsigned : Bool
  pub default_capability : WriterCapability
  pub agent_capabilities : TextMap WriterCapability
  pub public_key_capabilities : TextMap WriterCapability
  pub allowed_agent_ids : List Text
  pub allowed_public_keys : List Text
  pub blocked_agent_ids : List Text
  pub blocked_public_keys : List Text
  pub trusted_authorities : TextMap Text
  pub shared_registries : List Text
  pub relay_default_trust : RelayTrust
  pub relay_peer_trust : TextMap RelayTrust
  pub relay_host_trust : TextMap RelayTrust

-- `(*WriterPolicy).normalize`.
unfoldable pub normalize : WriterPolicy → WriterPolicy
normalize p = record {
  sync_mode = normalize_writer_sync_mode p.sync_mode WriterSyncMode.all;
  trust_mode = normalize_writer_trust_mode p.trust_mode WriterTrustMode.exact;
  allow_unsigned = p.allow_unsigned;
  default_capability = normalize_writer_capability p.default_capability WriterCapability.read_write;
  agent_capabilities = normalize_capability_map p.agent_capabilities false;
  public_key_capabilities = normalize_capability_map p.public_key_capabilities true;
  allowed_agent_ids = unique_fold p.allowed_agent_ids;
  allowed_public_keys = normalize_hex_list p.allowed_public_keys;
  blocked_agent_ids = unique_fold p.blocked_agent_ids;
  blocked_public_keys = normalize_hex_list p.blocked_public_keys;
  trusted_authorities = normalize_public_key_map p.trusted_authorities;
  shared_registries = unique_trim p.shared_registries;
  relay_default_trust = normalize_relay_trust p.relay_default_trust RelayTrust.neutral;
  relay_peer_trust = normalize_relay_trust_map p.relay_peer_trust false;
  relay_host_trust = normalize_relay_trust_map p.relay_host_trust true;
}

-- The zero value of the struct: empty strings, `false`, and `nil` maps and slices.
abbrev pub zero_policy : WriterPolicy
zero_policy = record {
  sync_mode = WriterSyncMode.other [];
  trust_mode = WriterTrustMode.other [];
  allow_unsigned = false;
  default_capability = WriterCapability.other [];
  agent_capabilities = [];
  public_key_capabilities = [];
  allowed_agent_ids = [];
  allowed_public_keys = [];
  blocked_agent_ids = [];
  blocked_public_keys = [];
  trusted_authorities = [];
  shared_registries = [];
  relay_default_trust = RelayTrust.other [];
  relay_peer_trust = [];
  relay_host_trust = [];
}

unfoldable pub default_writer_policy : WriterPolicy
default_writer_policy = normalize (record zero_policy {
  sync_mode = WriterSyncMode.all;
  trust_mode = WriterTrustMode.exact;
  allow_unsigned = false;
  default_capability = WriterCapability.read_write;
  relay_default_trust = RelayTrust.neutral;
})

abbrev is_all : WriterSyncMode → Bool
is_all WriterSyncMode.all = true
is_all _ = false

abbrev is_exact : WriterTrustMode → Bool
is_exact WriterTrustMode.exact = true
is_exact _ = false

abbrev pub is_read_write : WriterCapability → Bool
is_read_write WriterCapability.read_write = true
is_read_write _ = false

abbrev is_neutral : RelayTrust → Bool
is_neutral RelayTrust.neutral = true
is_neutral _ = false

-- `WriterPolicy.Empty`. The operands after `AllowUnsigned` have no effect, so their order is free.
unfoldable pub empty : WriterPolicy → Bool
empty raw =
    let p = normalize raw in
    p.allow_unsigned
    && (is_all p.sync_mode
        && (is_exact p.trust_mode
            && (is_read_write p.default_capability
                && (is_nil p.agent_capabilities
                    && (is_nil p.public_key_capabilities
                        && (is_nil p.allowed_agent_ids
                            && (is_nil p.allowed_public_keys
                                && (is_nil p.blocked_agent_ids
                                    && (is_nil p.blocked_public_keys
                                        && (is_nil p.trusted_authorities
                                            && (is_nil p.shared_registries
                                                && (is_neutral p.relay_default_trust
                                                    && (is_nil p.relay_peer_trust
                                                        && is_nil p.relay_host_trust)))))))))))))

unfoldable pub has_legacy_whitelist : WriterPolicy → Bool
has_legacy_whitelist p = not (is_nil p.allowed_agent_ids) || not (is_nil p.allowed_public_keys)
