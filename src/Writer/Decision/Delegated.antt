-- ===== src/Writer/Decision/Delegated.antt =====
-- The parent's part in `originDecision` (internal/plugins/aip2p/writer_policy.go).
use ai_p2p.Prelude.{ℕ, true, false, ◌≡◌, ◌∙◌, refl, if◌then◌else◌, Option, none, some, arith, ltb}
use ai_p2p.Text.{Text, trim_space, to_lower}
use ai_p2p.Writer.Modes.{WriterCapability, WriterSyncMode, normalize_fold_key}
use ai_p2p.Writer.Delegation.{WriterDelegation, DelegationStore, active_delegation_for}
use ai_p2p.Writer.Policy.{WriterPolicy, normalize}
use ai_p2p.Writer.Decision.Steps.{accepts_origin_of_signed, origin_decision_of_signed, passes}
use ai_p2p.Writer.Decision.{
  MessageOrigin, WriterOriginDecision, WriterCapabilityState, capability_rank, is_unsigned_origin,
  capability_state, under_parent, signed_decision, origin_decision, accepts_origin_with_delegation,
  is_blocked,
}

module _ (parse_time : Text → Option ℕ) (clock : ℕ) (p : WriterPolicy) (origin : MessageOrigin)
    (scope : Text) (store : DelegationStore) where
  -- The state of the child and, where a delegation is in force, of its parent.
  abbrev pub child_state : WriterCapabilityState
  child_state = capability_state (normalize p) origin.agent_id origin.public_key

  abbrev pub parent_state : WriterDelegation → WriterCapabilityState
  parent_state d = capability_state (normalize p) d.parent_agent_id d.parent_public_key

  abbrev pub delegation : Option WriterDelegation
  delegation =
      active_delegation_for parse_time clock store (trim_space origin.agent_id)
        (to_lower (trim_space origin.public_key)) (normalize_fold_key scope) 0

  -- The rank of the decision, by the ranks of child and parent: a blocked child or parent blocks, a
  -- child that the policy spells out keeps its rank, and any other rises to its parent's rank.
  abbrev pub expected_rank : Option WriterDelegation → ℕ
  expected_rank none = capability_rank child_state.capability
  expected_rank (some d) =
      if is_blocked child_state.capability
      then 0
      else if is_blocked (parent_state d).capability
      then 0
      else if child_state.explicitly_configured
      then capability_rank child_state.capability
      else if ltb (capability_rank child_state.capability)
          (capability_rank (parent_state d).capability)
      then capability_rank (parent_state d).capability
      else capability_rank child_state.capability

  signed_decision_rank :
      (o : Option WriterDelegation)
      → delegation ≡ o
      → capability_rank
          (signed_decision parse_time clock (normalize p) origin scope store).capability
        ≡ expected_rank o
  unfolding signed_decision under_parent capability_rank
  signed_decision_rank none e = ground arith
  signed_decision_rank (some d) e = ground arith

  -- The capability decided for a signed origin has the rank that its own state and that of the parent
  -- of its active delegation call for: 0 where either is blocked, the child's own rank where the
  -- policy spells the child out or no delegation is in force, and otherwise the greater of the two.
  pub origin_decision_rank :
      is_unsigned_origin (some origin) ≡ false
      → capability_rank (origin_decision parse_time clock p (some origin) scope store).capability
        ≡ expected_rank delegation
  origin_decision_rank signed =
      rw (origin_decision_of_signed parse_time clock p origin scope store signed)
        (signed_decision_rank delegation refl)

  signed_decision_of_blocked_parent :
      (d : WriterDelegation)
      → delegation ≡ some d
      → (parent_state d).capability ≡ WriterCapability.blocked
      → is_blocked (signed_decision parse_time clock (normalize p) origin scope store).capability
        ≡ true
  unfolding signed_decision under_parent
  signed_decision_of_blocked_parent d e b = ground arith

  passes_of_blocked :
      (mode : WriterSyncMode) (decision : WriterOriginDecision)
      → is_blocked decision.capability ≡ true
      → passes mode decision ≡ false
  passes_of_blocked mode decision h = rw h

  -- A signed origin is rejected in every mode where a delegation is in force for it whose parent the
  -- policy blocks.
  pub accepts_origin_of_blocked_parent :
      (d : WriterDelegation)
      → is_unsigned_origin (some origin) ≡ false
      → delegation ≡ some d
      → (parent_state d).capability ≡ WriterCapability.blocked
      → accepts_origin_with_delegation parse_time clock p (some origin) scope store ≡ false
  accepts_origin_of_blocked_parent d signed e b =
      accepts_origin_of_signed parse_time clock p origin scope store signed
      ∙ passes_of_blocked _ _ (signed_decision_of_blocked_parent d e b)
