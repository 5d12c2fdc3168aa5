-- ===== src/Writer/Policy/Laws.antt =====
-- `WriterPolicy.normalize` (internal/plugins/aip2p/writer_policy.go).
use ai_p2p.Prelude.{true, false, ◌≡◌, refl}
use ai_p2p.Writer.Modes.{WriterCapability, WriterSyncMode, WriterTrustMode, RelayTrust}
use ai_p2p.Writer.Modes.Laws.{
  normalize_writer_capability-IsCapability, normalize_writer_capability_fixed,
  normalize_writer_sync_mode-IsSyncMode, normalize_writer_sync_mode_fixed,
  normalize_writer_trust_mode-IsTrustMode, normalize_writer_trust_mode_fixed,
  normalize_relay_trust-IsRelayTrust, normalize_relay_trust_fixed,
}
use ai_p2p.Writer.Lists.Laws.{unique_fold_idem, unique_trim_idem, normalize_hex_list_idem}
use ai_p2p.Writer.Maps.Laws.{
  normalize_capability_map_idem, normalize_relay_trust_map_idem, normalize_public_key_map_idem,
}
use ai_p2p.Writer.Policy.{WriterPolicy, normalize}

-- Normalising a policy a second time changes nothing, so the methods that normalise their receiver
-- again read the policy that was loaded.
pub normalize_idem : (p : WriterPolicy) → normalize (normalize p) ≡ normalize p
unfolding normalize
normalize_idem p = λ i. record {
  sync_mode =
      normalize_writer_sync_mode_fixed _ WriterSyncMode.all
        (normalize_writer_sync_mode-IsSyncMode p.sync_mode WriterSyncMode.all refl) i;
  trust_mode =
      normalize_writer_trust_mode_fixed _ WriterTrustMode.exact
        (normalize_writer_trust_mode-IsTrustMode p.trust_mode WriterTrustMode.exact refl) i;
  allow_unsigned = p.allow_unsigned;
  default_capability =
      normalize_writer_capability_fixed _ WriterCapability.read_write
        (normalize_writer_capability-IsCapability p.default_capability WriterCapability.read_write
          refl)
        i;
  agent_capabilities = normalize_capability_map_idem p.agent_capabilities false i;
  public_key_capabilities = normalize_capability_map_idem p.public_key_capabilities true i;
  allowed_agent_ids = unique_fold_idem p.allowed_agent_ids i;
  allowed_public_keys = normalize_hex_list_idem p.allowed_public_keys i;
  blocked_agent_ids = unique_fold_idem p.blocked_agent_ids i;
  blocked_public_keys = normalize_hex_list_idem p.blocked_public_keys i;
  trusted_authorities = normalize_public_key_map_idem p.trusted_authorities i;
  shared_registries = unique_trim_idem p.shared_registries i;
  relay_default_trust =
      normalize_relay_trust_fixed _ RelayTrust.neutral
        (normalize_relay_trust-IsRelayTrust p.relay_default_trust RelayTrust.neutral refl) i;
  relay_peer_trust = normalize_relay_trust_map_idem p.relay_peer_trust false i;
  relay_host_trust = normalize_relay_trust_map_idem p.relay_host_trust true i;
}
