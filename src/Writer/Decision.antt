-- ===== src/Writer/Decision.antt =====
-- What a policy decides of an origin, a message and a relay (internal/plugins/aip2p/writer_policy.go).
-- The messages' other fields play no part in it and are left out.
pub mod Steps
pub mod Blocking
pub mod Delegated
use ai_p2p.Prelude.{
  ℕ, Bool, true, false, not, ◌&&◌, ◌||◌, List, [], ◌∷◌, ◌++◌, if◌then◌else◌, is_nil, any, Option,
  none, some, ltb,
}
use ai_p2p.Text.{Text, codes, text_eq, trim_space, to_lower, has_prefix}
use ai_p2p.TextMap.{TextMap, lookup}
use ai_p2p.Writer.Modes.{
  WriterCapability, WriterSyncMode, WriterTrustMode, RelayTrust, normalize_fold_key,
}
use ai_p2p.Writer.Lists.{contains_fold}
use ai_p2p.Writer.Delegation.{WriterDelegation, DelegationStore, empty_store, active_delegation_for}
use ai_p2p.Writer.Policy.{WriterPolicy, normalize, is_read_write, has_legacy_whitelist}

pub record MessageOrigin : Type 0 where
  pub agent_id : Text
  pub public_key : Text

pub record Message : Type 0 where
  pub kind : Text
  pub author : Text
  pub origin : Option MessageOrigin

pub record WriterOriginDecision : Type 0 where
  pub capability : WriterCapability
  pub delegation : Option WriterDelegation
  pub explicit_read_write : Bool

pub record WriterCapabilityState : Type 0 where
  pub capability : WriterCapability
  pub explicitly_configured : Bool
  pub explicit_read_write : Bool

unfoldable pub capability_rank : WriterCapability → ℕ
capability_rank WriterCapability.blocked = 0
capability_rank WriterCapability.read_only = 1
capability_rank WriterCapability.read_write = 2
capability_rank (WriterCapability.other value) = 0

abbrev pub is_blocked : WriterCapability → Bool
is_blocked WriterCapability.blocked = true
is_blocked _ = false

unfoldable pub is_unsigned_origin : Option MessageOrigin → Bool
is_unsigned_origin none = true
is_unsigned_origin (some origin) = is_nil (trim_space origin.public_key)

-- `item != "" && containsFold(items, item)`.
abbrev pub lists : List Text → Text → Bool
lists items item = not (is_nil item) && contains_fold items item

-- A state that the policy spells out, and one that it leaves to a default.
abbrev pub configured : WriterCapability → WriterCapabilityState
configured capability = record {
  capability = capability;
  explicitly_configured = true;
  explicit_read_write = is_read_write capability;
}

abbrev pub unconfigured : WriterCapability → WriterCapabilityState
unconfigured capability = record {
  capability = capability;
  explicitly_configured = false;
  explicit_read_write = false;
}

-- The rest of `capabilityState`, behind the two maps.
unfoldable pub legacy_state : WriterPolicy → Text → Text → WriterCapabilityState
legacy_state p agent_id public_key =
    if has_legacy_whitelist p
    then if lists p.allowed_agent_ids agent_id
      then configured WriterCapability.read_write
      else if lists p.allowed_public_keys public_key
      then configured WriterCapability.read_write
      else unconfigured WriterCapability.read_only
    else unconfigured p.default_capability

unfoldable pub capability_state : WriterPolicy → Text → Text → WriterCapabilityState
capability_state p raw_agent_id raw_public_key =
    let agent_id = normalize_fold_key raw_agent_id in
    let public_key = to_lower (trim_space raw_public_key) in
    if lists p.blocked_agent_ids agent_id
    then configured WriterCapability.blocked
    else if lists p.blocked_public_keys public_key
    then configured WriterCapability.blocked
    else elim (lookup public_key p.public_key_capabilities) [
      | some capability ↦ configured capability
      | none ↦ elim (lookup agent_id p.agent_capabilities) [
        | some capability ↦ configured capability
        | none ↦ legacy_state p agent_id public_key
      ]
    ]

abbrev pub blocked_decision : Option WriterDelegation → WriterOriginDecision
blocked_decision delegation = record {
  capability = WriterCapability.blocked;
  delegation = delegation;
  explicit_read_write = false;
}

-- What a delegation adds to the state of the child.
unfoldable pub under_parent :
    WriterCapabilityState → WriterCapabilityState → WriterDelegation → WriterOriginDecision
under_parent child parent delegation =
    if is_blocked parent.capability then blocked_decision (some delegation) else record {
      capability =
          if not child.explicitly_configured
            && ltb (capability_rank child.capability) (capability_rank parent.capability)
          then parent.capability
          else child.capability;
      delegation = some delegation;
      explicit_read_write = if parent.explicit_read_write then true else child.explicit_read_write;
    }

-- `matchesWriterAuthorPolicy`.
unfoldable pub matches_writer_author_policy : Text → List Text → WriterTrustMode → Bool
unfolding any
matches_writer_author_policy raw_author entries mode =
    let author = normalize_fold_key raw_author in
    if is_nil author
    then false
    else any
        (λ raw_entry.
          let entry = normalize_fold_key raw_entry in
          if is_nil entry then false else if text_eq author entry then true else elim mode [
            | WriterTrustMode.parent_and_children ↦ has_prefix author (entry ++ codes "/")
            | _ ↦ false
          ])
        entries

-- The `switch p.SyncMode` at the end of `acceptsOriginWithDelegation` and of its twin for messages.
unfoldable pub accepts_decision : WriterSyncMode → WriterOriginDecision → Bool
accepts_decision WriterSyncMode.all decision = true
accepts_decision WriterSyncMode.blacklist decision = true
accepts_decision WriterSyncMode.whitelist decision = decision.explicit_read_write
accepts_decision WriterSyncMode.trusted_writers_only decision = is_read_write decision.capability
accepts_decision _ decision = is_read_write decision.capability

module _ (parse_time : Text → Option ℕ) (clock : ℕ) where
  -- `originDecision` behind `isUnsignedOrigin`, over a normalised policy.
  unfoldable pub signed_decision :
      WriterPolicy → MessageOrigin → Text → DelegationStore → WriterOriginDecision
  signed_decision p origin raw_scope store =
      let child = capability_state p origin.agent_id origin.public_key in
      let scope = normalize_fold_key raw_scope in
      let found =
        active_delegation_for parse_time clock store (trim_space origin.agent_id)
          (to_lower (trim_space origin.public_key)) scope 0 in
      if is_blocked child.capability then blocked_decision none else elim found [
        | none ↦ record {
          capability = child.capability;
          delegation = none;
          explicit_read_write = child.explicit_read_write;
        }
        | some delegation ↦
            under_parent child
              (capability_state p delegation.parent_agent_id delegation.parent_public_key)
              delegation
      ]

  unfoldable pub unsigned_decision : WriterPolicy → WriterOriginDecision
  unsigned_decision p = if not p.allow_unsigned then blocked_decision none else record {
    capability =
        if has_legacy_whitelist p then WriterCapability.read_only else p.default_capability;
    delegation = none;
    explicit_read_write = false;
  }

  unfoldable pub origin_decision :
      WriterPolicy → Option MessageOrigin → Text → DelegationStore → WriterOriginDecision
  origin_decision raw none scope store = unsigned_decision (normalize raw)
  origin_decision raw (some origin) scope store =
      if is_unsigned_origin (some origin)
      then unsigned_decision (normalize raw)
      else signed_decision (normalize raw) origin scope store

  unfoldable pub message_decision :
      WriterPolicy → Message → Text → DelegationStore → WriterOriginDecision
  message_decision p msg scope store =
      let decision = origin_decision p msg.origin scope store in
      let author = trim_space msg.author in
      if is_nil author
      then decision
      else if matches_writer_author_policy author p.blocked_agent_ids p.trust_mode
      then blocked_decision none
      else if has_legacy_whitelist p
          && (matches_writer_author_policy author p.allowed_agent_ids p.trust_mode
              && not (is_blocked decision.capability))
      then record decision { capability = WriterCapability.read_write; explicit_read_write = true }
      else decision

  unfoldable pub accepts_origin_with_delegation :
      WriterPolicy → Option MessageOrigin → Text → DelegationStore → Bool
  accepts_origin_with_delegation raw origin scope store =
      let p = normalize raw in
      let decision = origin_decision p origin scope store in
      if is_unsigned_origin origin
      then p.allow_unsigned
      else if is_blocked decision.capability
      then false
      else accepts_decision p.sync_mode decision

  unfoldable pub accepts_message_with_delegation :
      WriterPolicy → Message → Text → DelegationStore → Bool
  accepts_message_with_delegation raw msg scope store =
      let p = normalize raw in
      let decision = message_decision p msg scope store in
      if is_unsigned_origin msg.origin
      then p.allow_unsigned
      else if is_blocked decision.capability
      then false
      else accepts_decision p.sync_mode decision

  unfoldable pub allows_origin_with_delegation :
      WriterPolicy → Option MessageOrigin → Text → DelegationStore → Bool
  allows_origin_with_delegation p origin scope store =
      is_read_write (origin_decision p origin scope store).capability

-- `relayTrustFor`.
unfoldable pub relay_trust_for : WriterPolicy → Text → Text → RelayTrust
relay_trust_for raw raw_peer_id raw_host =
    let p = normalize raw in
    let peer_id = trim_space raw_peer_id in
    let host = normalize_fold_key raw_host in
    let by_host =
      if is_nil host then p.relay_default_trust else elim (lookup host p.relay_host_trust) [
        | some trust ↦ trust
        | none ↦ p.relay_default_trust
      ] in
    if is_nil peer_id
    then by_host
    else elim (lookup peer_id p.relay_peer_trust) [ some trust ↦ trust | none ↦ by_host ]

unfoldable pub accepts_relay : WriterPolicy → Text → Text → Bool
accepts_relay p peer_id host = elim (relay_trust_for p peer_id host) [
  | RelayTrust.blocked ↦ false
  | _ ↦ true
]

-- `isExplicitlyAllowed`.
unfoldable pub is_explicitly_allowed : WriterPolicy → Option MessageOrigin → Bool
is_explicitly_allowed p none = false
is_explicitly_allowed p (some origin) =
    let agent_id = normalize_fold_key origin.agent_id in
    let public_key = to_lower (trim_space origin.public_key) in
    let by_key = if is_nil public_key then none else lookup public_key p.public_key_capabilities in
    let by_agent = if is_nil agent_id then none else lookup agent_id p.agent_capabilities in
    elim by_key [
      | some capability ↦ is_read_write capability
      | none ↦ elim by_agent [
        | some capability ↦ is_read_write capability
        | none ↦
            if lists p.allowed_agent_ids agent_id
            then true
            else lists p.allowed_public_keys public_key
      ]
    ]
