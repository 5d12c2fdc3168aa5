-- ===== src/Writer/Registry.antt =====
-- Shared registries (internal/plugins/aip2p/writer_registry.go): a trusted authority signs maps of
-- capabilities and of relay trust, and a policy merges the registries that it names below its own
-- maps. `parse_time` is `time.Parse(time.RFC3339, ...)`, `verify key payload signature` is
-- `ed25519.Verify` over the JSON encoding of the payload, and `fetch` reads and decodes a source.
pub mod Validate
pub mod Merge
use ai_p2p.Prelude.{
  ℕ, Bool, true, false, not, List, [], ◌∷◌, ◌++◌, if◌then◌else◌, is_nil, Option, none, some,
}
use ai_p2p.Prelude.Results.{Result, ok, err, ◌>>=◌, ◌>>◌, require}
use ai_p2p.Text.{Text, codes, text_eq, trim_space, to_lower}
use ai_p2p.TextMap.{TextMap, lookup}
use ai_p2p.Writer.Modes.{WriterCapability, WriterTrustMode, RelayTrust, normalize_fold_key}
use ai_p2p.Writer.Maps.{
  normalize_capability_map, normalize_relay_trust_map, merge_registry_capabilities,
  merge_registry_relay_trust,
}
use ai_p2p.Writer.Delegation.{default_to}
use ai_p2p.Writer.Policy.{WriterPolicy, normalize, zero_policy}
use ai_p2p.Writer.Hex.{decode_hex_key}

pub record SignedWriterRegistry : Type 0 where
  pub version : Text
  pub scope : Text
  pub authority_id : Text
  pub key_type : Text
  pub public_key : Text
  pub signed_at : Text
  pub agent_capabilities : TextMap WriterCapability
  pub public_key_capabilities : TextMap WriterCapability
  pub relay_peer_trust : TextMap RelayTrust
  pub relay_host_trust : TextMap RelayTrust
  pub signature : Text

-- What is signed: every field but the signature.
pub record UnsignedWriterRegistry : Type 0 where
  pub version : Text
  pub scope : Text
  pub authority_id : Text
  pub key_type : Text
  pub public_key : Text
  pub signed_at : Text
  pub agent_capabilities : TextMap WriterCapability
  pub public_key_capabilities : TextMap WriterCapability
  pub relay_peer_trust : TextMap RelayTrust
  pub relay_host_trust : TextMap RelayTrust

unfoldable pub normalize_registry : SignedWriterRegistry → SignedWriterRegistry
normalize_registry r = record {
  version = default_to (codes "aip2p-writer-registry/0.1") (trim_space r.version);
  scope = default_to (codes "writer_registry") (trim_space r.scope);
  authority_id = trim_space r.authority_id;
  key_type = default_to (codes "ed25519") (trim_space r.key_type);
  public_key = to_lower (trim_space r.public_key);
  signed_at = trim_space r.signed_at;
  agent_capabilities = normalize_capability_map r.agent_capabilities false;
  public_key_capabilities = normalize_capability_map r.public_key_capabilities true;
  relay_peer_trust = normalize_relay_trust_map r.relay_peer_trust false;
  relay_host_trust = normalize_relay_trust_map r.relay_host_trust true;
  signature = to_lower (trim_space r.signature);
}

-- The value that `payloadBytes` encodes.
unfoldable pub payload : SignedWriterRegistry → UnsignedWriterRegistry
payload r = record {
  version = trim_space r.version;
  scope = trim_space r.scope;
  authority_id = trim_space r.authority_id;
  key_type = trim_space r.key_type;
  public_key = to_lower (trim_space r.public_key);
  signed_at = trim_space r.signed_at;
  agent_capabilities = normalize_capability_map r.agent_capabilities false;
  public_key_capabilities = normalize_capability_map r.public_key_capabilities true;
  relay_peer_trust = normalize_relay_trust_map r.relay_peer_trust false;
  relay_host_trust = normalize_relay_trust_map r.relay_host_trust true;
}

pub data RegistryError : Type 0 where
  authority_id_required unsupported_key_type signed_at_not_rfc3339 : RegistryError
  no_trusted_authorities authority_not_trusted public_key_mismatch : RegistryError
  bad_public_key bad_signature verification_failed fetch_failed : RegistryError

abbrev some_or {ℓ} : {A : Type ℓ} → Option A → RegistryError → Result RegistryError A
some_or (some a) e = ok a
some_or none e = err e

-- A round of the loop of `loadSharedRegistries`: a registry's entries replace those of the
-- registries before it.
unfoldable pub merge_registry : SignedWriterRegistry → WriterPolicy → WriterPolicy
merge_registry registry merged = record merged {
  agent_capabilities =
      merge_registry_capabilities merged.agent_capabilities registry.agent_capabilities;
  public_key_capabilities =
      merge_registry_capabilities merged.public_key_capabilities registry.public_key_capabilities;
  relay_peer_trust = merge_registry_relay_trust merged.relay_peer_trust registry.relay_peer_trust;
  relay_host_trust = merge_registry_relay_trust merged.relay_host_trust registry.relay_host_trust;
}

-- The policy's own entries replace those of the registries, and its lists are taken over.
unfoldable pub merge_local : WriterPolicy → WriterPolicy → WriterPolicy
merge_local local merged = normalize (record merged {
  agent_capabilities =
      merge_registry_capabilities merged.agent_capabilities local.agent_capabilities;
  public_key_capabilities =
      merge_registry_capabilities merged.public_key_capabilities local.public_key_capabilities;
  relay_peer_trust = merge_registry_relay_trust merged.relay_peer_trust local.relay_peer_trust;
  relay_host_trust = merge_registry_relay_trust merged.relay_host_trust local.relay_host_trust;
  allowed_agent_ids = merged.allowed_agent_ids ++ local.allowed_agent_ids;
  allowed_public_keys = merged.allowed_public_keys ++ local.allowed_public_keys;
  blocked_agent_ids = merged.blocked_agent_ids ++ local.blocked_agent_ids;
  blocked_public_keys = merged.blocked_public_keys ++ local.blocked_public_keys;
})

-- The literal with which the merge begins: it names no `TrustMode`.
unfoldable pub merge_start : WriterPolicy → WriterPolicy
merge_start local = record zero_policy {
  sync_mode = local.sync_mode;
  allow_unsigned = local.allow_unsigned;
  default_capability = local.default_capability;
  trusted_authorities = local.trusted_authorities;
  shared_registries = local.shared_registries;
  relay_default_trust = local.relay_default_trust;
}

module _ (parse_time : Text → Option ℕ)
    (verify : List ℕ → UnsignedWriterRegistry → List ℕ → Bool) where
  -- `SignedWriterRegistry.Validate`.
  unfoldable pub validate : SignedWriterRegistry → TextMap Text → Result RegistryError (Unit {0})
  validate raw trusted_authorities = do
    let r = normalize_registry raw
    require (not (is_nil r.authority_id)) RegistryError.authority_id_required
    require (text_eq r.key_type (codes "ed25519")) RegistryError.unsupported_key_type
    signed_at ← some_or (parse_time r.signed_at) RegistryError.signed_at_not_rfc3339
    require (not (is_nil trusted_authorities)) RegistryError.no_trusted_authorities
    expected_key ←
        some_or (lookup (normalize_fold_key r.authority_id) trusted_authorities)
          RegistryError.authority_not_trusted
    require (text_eq expected_key r.public_key) RegistryError.public_key_mismatch
    public_key ← some_or (decode_hex_key r.public_key 32) RegistryError.bad_public_key
    signature ← some_or (decode_hex_key r.signature 64) RegistryError.bad_signature
    require (verify public_key (payload r) signature) RegistryError.verification_failed
    ok tt

  module _ (fetch : Text → Option SignedWriterRegistry) where
    -- `loadSignedWriterRegistrySource`: what a source holds, normalised.
    unfoldable pub load_source : Text → Result RegistryError SignedWriterRegistry
    load_source raw = do
      let source = trim_space raw
      require (not (is_nil source)) RegistryError.fetch_failed
      registry ← some_or (fetch source) RegistryError.fetch_failed
      ok (normalize_registry registry)

    unfoldable pub load_registries :
        TextMap Text → List Text → WriterPolicy → Result RegistryError WriterPolicy
    load_registries trusted [] merged = ok merged
    load_registries trusted (source ∷ sources) merged = load_source source >>= λ registry.
        validate registry trusted >>= λ _.
        load_registries trusted sources (merge_registry registry merged)

    -- `loadSharedRegistries`.
    unfoldable pub load_shared_registries : WriterPolicy → Result RegistryError WriterPolicy
    load_shared_registries raw =
        let local = normalize raw in
        let loaded =
          load_registries local.trusted_authorities local.shared_registries (merge_start local)
          >>= λ merged. ok (merge_local local merged) in
        if is_nil local.shared_registries then ok local else loaded
