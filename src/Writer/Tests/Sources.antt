-- ===== src/Writer/Tests/Sources.antt =====
-- Examples of shared registries and of delegations from files.
use ai_p2p.Prelude.{ℕ, Bool, true, List, [], ◌∷◌, ◌++◌, ◌≡◌, ◌↔◌, refl, Option, none, some}
use ai_p2p.Prelude.Results.{ok}
use ai_p2p.Text.{Text, codes}
use ai_p2p.TextMap.{TextMap, lookup}
use ai_p2p.Writer.Modes.{WriterCapability, WriterTrustMode}
use ai_p2p.Writer.Delegation.{WriterDelegation, WriterRevocation, normalize_delegation}
use ai_p2p.Writer.Policy.{WriterPolicy, normalize}
use ai_p2p.Writer.Registry.{
  SignedWriterRegistry, UnsignedWriterRegistry, normalize_registry, merge_registry, merge_local,
  merge_start, validate,
}
use ai_p2p.Writer.Registry.Validate.{IsAuthentic, validate_iff}
use ai_p2p.Writer.Registry.Merge.{
  load_shared_registries-trust_mode, load_shared_registries-lists,
  load_shared_registries-own_capability,
}
use ai_p2p.Writer.Delegation.Load.{UnsignedWriterDelegation, UnsignedWriterRevocation}
use ai_p2p.Writer.Delegation.Load.Signed.{IsSigned, active_delegation_for-IsSigned}
use ai_p2p.Writer.Tests.{writer, at_length, blocking, to_bob}

abbrev authority_key : Text
authority_key = codes "0123456789abcdef0123456789abcdef0123456789abcdef0123456789abcdef"

abbrev registry : SignedWriterRegistry
registry = record {
  version = [];
  scope = [];
  authority_id = codes "Authority://Example";
  key_type = [];
  public_key = authority_key;
  signed_at = codes "now";
  agent_capabilities = (codes "agent://eve", WriterCapability.blocked) ∷ [];
  public_key_capabilities = [];
  relay_peer_trust = [];
  relay_host_trust = [];
  signature = authority_key ++ authority_key;
}

abbrev trusted : TextMap Text
trusted = (codes "authority://example", authority_key) ∷ []

-- A check that takes every signature, and a network with one registry.
abbrev any_signature : List ℕ → UnsignedWriterRegistry → List ℕ → Bool
any_signature key signed signature = true

abbrev one_registry : Text → Option SignedWriterRegistry
one_registry source = some registry

validate_iff_example :
    (validate at_length any_signature registry trusted ≡ ok tt)
    ↔ IsAuthentic at_length any_signature (normalize_registry registry) trusted
validate_iff_example = validate_iff at_length any_signature registry trusted

registry-IsValid : validate at_length any_signature registry trusted ≡ ok tt
unfolding writer
registry-IsValid = refl

abbrev sharing : WriterPolicy
sharing = record blocking {
  agent_capabilities = (codes "agent://eve", WriterCapability.read_only) ∷ [];
  trusted_authorities = trusted;
  shared_registries = codes "https://example.org/registry.json" ∷ [];
}

abbrev shared : WriterPolicy
shared =
    merge_local (normalize sharing)
      (merge_registry (normalize_registry registry) (merge_start (normalize sharing)))

load_shared_registries-trust_mode_example : shared.trust_mode ≡ WriterTrustMode.exact
unfolding writer
load_shared_registries-trust_mode_example =
    load_shared_registries-trust_mode at_length any_signature one_registry sharing {q = shared} refl
      refl

load_shared_registries-lists_example :
    (shared.blocked_agent_ids ≡ (normalize sharing).blocked_agent_ids)
    × (shared.blocked_public_keys ≡ (normalize sharing).blocked_public_keys)
    × (shared.allowed_agent_ids ≡ (normalize sharing).allowed_agent_ids)
    × (shared.allowed_public_keys ≡ (normalize sharing).allowed_public_keys)
unfolding writer
load_shared_registries-lists_example =
    load_shared_registries-lists at_length any_signature one_registry sharing {q = shared} refl

load_shared_registries-own_capability_example :
    lookup (codes "agent://eve") shared.agent_capabilities ≡ some WriterCapability.read_only
unfolding writer
load_shared_registries-own_capability_example =
    load_shared_registries-own_capability at_length any_signature one_registry sharing
      (codes "agent://eve") WriterCapability.read_only {q = shared} refl refl

abbrev signed_to_bob : WriterDelegation
signed_to_bob = record to_bob {
  parent_public_key = authority_key;
  child_public_key = authority_key;
  signature = authority_key ++ authority_key;
}

abbrev any_delegation : List ℕ → UnsignedWriterDelegation → List ℕ → Bool
any_delegation key signed signature = true

abbrev any_revocation : List ℕ → UnsignedWriterRevocation → List ℕ → Bool
any_revocation key signed signature = true

abbrev one_file : Text → Option WriterDelegation
one_file path = some signed_to_bob

abbrev no_file : Text → Option WriterRevocation
no_file path = none

active_delegation_for-IsSigned_example :
    IsSigned at_length any_delegation any_revocation (normalize_delegation signed_to_bob)
unfolding writer
active_delegation_for-IsSigned_example =
    active_delegation_for-IsSigned at_length any_delegation any_revocation one_file no_file
      (codes "bob.json" ∷ []) [] (record { delegations = signed_to_bob ∷ []; revocations = [] }) 5
      (codes "agent://bob/phone") authority_key (codes "news") 0
      (normalize_delegation signed_to_bob) refl refl
