-- ===== src/Writer/Tests.antt =====
-- Examples of writer policies and delegations.
mod Sources
mod Filters
use ai_p2p.Prelude.{
  inr, ℕ, Bool, true, false, List, [], ◌∷◌, ◌++◌, ◌≡◌, ◌↔◌, refl, any, keep, Option, none, some,
  Memᴰ, map, arith, All, length,
}
use ai_p2p.Prelude.Results.{ok}
use ai_p2p.Text.{
  Text, codes, text_eq, text_lt, trim_space, to_lower, equal_fold, contains, has_prefix,
}
use ai_p2p.TextMap.{TextMap, lookup, insert, rebuild}
use ai_p2p.Writer.Modes.{
  WriterCapability, WriterSyncMode, WriterTrustMode, normalize_fold_key,
  normalize_writer_capability, normalize_writer_sync_mode, normalize_writer_trust_mode,
  normalize_relay_trust,
}
use ai_p2p.Writer.Lists.{unique_fold, unique_trim, normalize_hex_list, contains_fold}
use ai_p2p.Writer.Lists.Laws.{names, contains_fold-unique_fold}
use ai_p2p.Writer.Maps.{
  normalize_capability_map, normalize_relay_trust_map, normalize_public_key_map,
  merge_registry_capabilities, merge_registry_relay_trust,
}
use ai_p2p.Writer.Maps.Laws.{lookup-merge_registry_capabilities}
use ai_p2p.Writer.Delegation.{
  WriterDelegation, WriterRevocation, DelegationStore, empty_store, default_to,
  normalize_delegation, normalize_revocation, delegation_scope_matches, delegation_expired, revokes,
  is_revoked, is_candidate, sort_newest, active_delegation_for,
}
use ai_p2p.Writer.Delegation.Order.{IsFirstNewest}
use ai_p2p.Writer.Delegation.Active.{
  IsActive, effective, in_force, is_candidate_anti, active_delegation_for-IsActive,
  active_delegation_for-eq-none_iff,
}
use ai_p2p.Writer.Policy.{empty, WriterPolicy, normalize, zero_policy, has_legacy_whitelist}
use ai_p2p.Writer.Decision.{
  MessageOrigin, Message, capability_rank, is_unsigned_origin, legacy_state, capability_state,
  under_parent, matches_writer_author_policy, accepts_decision, signed_decision, unsigned_decision,
  origin_decision, message_decision, accepts_origin_with_delegation,
  accepts_message_with_delegation,
}
use ai_p2p.Writer.Decision.Blocking.{accepts_origin_of_blocked, accepts_message_of_blocked_author}
use ai_p2p.Writer.Decision.Delegated.{origin_decision_rank, accepts_origin_of_blocked_parent}
use ai_p2p.Writer.Registry.{
  SignedWriterRegistry, UnsignedWriterRegistry, normalize_registry, payload, merge_registry,
  merge_local, merge_start, validate, load_source, load_registries, load_shared_registries,
}
use ai_p2p.Writer.Registry.Validate.{IsAuthentic, validate_iff}
use ai_p2p.Writer.Registry.Merge.{
  load_shared_registries-trust_mode, load_shared_registries-lists,
  load_shared_registries-own_capability,
}
use ai_p2p.Writer.Hex.{decode_hex, decode_hex_key}
use ai_p2p.Writer.Delegation.Load.{
  UnsignedWriterDelegation, UnsignedWriterRevocation, delegation_payload, revocation_payload,
  validate_writer_delegation, validate_writer_revocation, load_writer_delegation,
  load_writer_revocation, load_delegations_from_dir, load_revocations_from_dir,
  load_delegation_store,
}
use ai_p2p.Writer.Delegation.Load.Signed.{IsSigned, active_delegation_for-IsSigned}
use ai_p2p.Writer.Filter.{
  Bundle, answers, accepts, kept_posts, kept_answers, apply_writer_policy_with_delegations,
}
use ai_p2p.Writer.Filter.Laws.{kept, kept-accepted, kept-reply, kept-post}

-- Naming it unfolds the operations, so that the examples compute.
pub writer : Unit {0}
unfolding any keep text_eq text_lt trim_space to_lower equal_fold contains has_prefix lookup insert
    rebuild normalize_fold_key normalize_writer_capability normalize_writer_sync_mode
    normalize_writer_trust_mode normalize_relay_trust unique_fold unique_trim normalize_hex_list
    contains_fold names normalize_capability_map normalize_relay_trust_map normalize_public_key_map
    merge_registry_capabilities merge_registry_relay_trust default_to normalize_delegation
    normalize_revocation delegation_scope_matches delegation_expired revokes is_revoked is_candidate
    sort_newest active_delegation_for normalize has_legacy_whitelist capability_rank
    is_unsigned_origin legacy_state capability_state under_parent matches_writer_author_policy
    accepts_decision signed_decision unsigned_decision origin_decision message_decision
    accepts_origin_with_delegation accepts_message_with_delegation normalize_registry payload
    merge_registry merge_local merge_start validate load_source load_registries
    load_shared_registries decode_hex decode_hex_key delegation_payload revocation_payload
    validate_writer_delegation validate_writer_revocation load_writer_delegation
    load_writer_revocation load_delegations_from_dir load_revocations_from_dir load_delegation_store
    answers kept_posts kept_answers apply_writer_policy_with_delegations empty
writer = tt

-- A clock that reads a time as its number of characters.
abbrev pub at_length : Text → Option ℕ
at_length s = some (length s)

abbrev pub bob : MessageOrigin
bob = record { agent_id = codes "agent://bob/phone"; public_key = codes "AA" }

abbrev pub blocking : WriterPolicy
blocking = record zero_policy {
  sync_mode = WriterSyncMode.whitelist;
  trust_mode = WriterTrustMode.parent_and_children;
  blocked_agent_ids = codes " Agent://Bob/Phone" ∷ codes "agent://eve" ∷ [];
  allowed_agent_ids = codes "agent://bob/phone" ∷ [];
}

accepts_origin_of_blocked_example :
    accepts_origin_with_delegation at_length 5 blocking (some bob) (codes "news") empty_store
    ≡ false
unfolding writer
accepts_origin_of_blocked_example =
    accepts_origin_of_blocked at_length 5 blocking bob (codes "news") empty_store refl refl refl

abbrev from_eve : Message
from_eve = record { kind = codes "post"; author = codes "agent://eve/laptop"; origin = some bob }

accepts_message_of_blocked_author_example :
    accepts_message_with_delegation at_length 5 blocking from_eve (codes "news") empty_store ≡ false
unfolding writer
accepts_message_of_blocked_author_example =
    accepts_message_of_blocked_author at_length 5 blocking from_eve (codes "news") empty_store
      (codes " Agent://EVE ") refl refl refl (inr (refl, codes "laptop", refl))

abbrev pub listening : WriterPolicy
listening = record blocking { blocked_agent_ids = [] }

abbrev pub to_bob : WriterDelegation
to_bob = record {
  kind = [];
  version = [];
  parent_agent_id = codes "agent://eve";
  parent_key_type = [];
  parent_public_key = codes "BB";
  child_agent_id = codes "agent://bob/phone";
  child_key_type = [];
  child_public_key = codes "aa";
  scopes = codes "News" ∷ [];
  created_at = codes "1";
  expires_at = codes "1234567";
  signature = [];
}

abbrev revoked_bob : WriterRevocation
revoked_bob = record {
  kind = [];
  version = [];
  parent_agent_id = codes "agent://eve";
  parent_key_type = [];
  parent_public_key = codes "BB";
  child_agent_id = codes "agent://bob/phone";
  child_key_type = [];
  child_public_key = codes "aa";
  reason = codes "lost";
  created_at = codes "123";
  signature = [];
}

abbrev delegated : DelegationStore
delegated = record { delegations = to_bob ∷ []; revocations = [] }

abbrev blocking_eve : WriterPolicy
blocking_eve = record zero_policy { blocked_agent_ids = codes "agent://eve" ∷ [] }

accepts_origin_of_blocked_parent_example :
    accepts_origin_with_delegation at_length 5 blocking_eve (some bob) (codes "news") delegated
    ≡ false
unfolding writer
accepts_origin_of_blocked_parent_example =
    accepts_origin_of_blocked_parent at_length 5 blocking_eve bob (codes "news") delegated
      (normalize_delegation to_bob) refl refl refl

abbrev promoting : WriterPolicy
promoting = record zero_policy {
  default_capability = WriterCapability.read_only;
  agent_capabilities = (codes "agent://eve", WriterCapability.read_write) ∷ [];
}

origin_decision_rank_example :
    capability_rank
      (origin_decision at_length 5 promoting (some bob) (codes "news") delegated).capability
    ≡ 2
unfolding writer
origin_decision_rank_example =
    origin_decision_rank at_length 5 promoting bob (codes "news") delegated refl

active_delegation_for-IsActive_example :
    IsActive at_length delegated
      (codes "agent://bob/phone")
      (codes "aa")
      (codes "news")
      5
      (normalize_delegation to_bob)
    × Memᴰ (normalize_delegation to_bob) (map normalize_delegation delegated.delegations)
    × IsFirstNewest
        (normalize_delegation to_bob)
        (in_force at_length 5 delegated (codes "agent://bob/phone") (codes "AA") (codes "news") 0)
unfolding writer
active_delegation_for-IsActive_example =
    active_delegation_for-IsActive at_length 5 delegated (codes "agent://bob/phone") (codes "AA")
      (codes "news") 0 (normalize_delegation to_bob) refl

active_delegation_for-eq-none_iff_example :
    (active_delegation_for at_length 9 delegated (codes "agent://bob/phone") (codes "AA") [] 0
      ≡ none)
    ↔ All
        (λ d.
          ¬ IsActive at_length delegated
            (trim_space (codes "agent://bob/phone"))
            (to_lower (trim_space (codes "AA")))
            (normalize_fold_key [])
            (effective at_length 9 0)
            d)
        (map normalize_delegation delegated.delegations)
active_delegation_for-eq-none_iff_example =
    active_delegation_for-eq-none_iff at_length 9 delegated (codes "agent://bob/phone") (codes "AA")
      [] 0

is_candidate_anti_example :
    is_candidate at_length delegated
      (codes "agent://bob/phone")
      (codes "aa")
      []
      1
      (normalize_delegation to_bob)
    ≡ true
unfolding writer
is_candidate_anti_example =
    is_candidate_anti at_length delegated (revoked_bob ∷ []) (codes "agent://bob/phone")
      (codes "aa") [] 1 2 (normalize_delegation to_bob) (ground arith) refl

lookup-merge_registry_capabilities_example :
    lookup (codes "bob") (
      merge_registry_capabilities
        ((codes "bob", WriterCapability.read_write) ∷ [])
        ((codes "bob", WriterCapability.blocked) ∷ []))
    ≡ some WriterCapability.blocked
unfolding writer
lookup-merge_registry_capabilities_example =
    lookup-merge_registry_capabilities (codes "bob")
      ((codes "bob", WriterCapability.read_write) ∷ [])
      ((codes "bob", WriterCapability.blocked) ∷ []) (refl, tt)
