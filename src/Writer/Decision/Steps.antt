-- ===== src/Writer/Decision/Steps.antt =====
-- The decisions of writer_policy.go over a policy in its normal form.
use ai_p2p.Prelude.{ℕ, Bool, false, ◌≡◌, refl, if◌then◌else◌, Option, none, some, ap}
use ai_p2p.Text.{Text}
use ai_p2p.Writer.Modes.{WriterSyncMode}
use ai_p2p.Writer.Delegation.{DelegationStore}
use ai_p2p.Writer.Policy.{WriterPolicy, normalize, has_legacy_whitelist}
use ai_p2p.Writer.Policy.Laws.{normalize_idem}
use ai_p2p.Writer.Decision.{
  MessageOrigin, Message, WriterOriginDecision, is_unsigned_origin, unsigned_decision,
  signed_decision, origin_decision, message_decision, accepts_decision,
  accepts_origin_with_delegation, accepts_message_with_delegation, is_blocked, capability_state,
  legacy_state,
}

-- The test at the end of both `accepts...` functions.
abbrev pub passes : WriterSyncMode → WriterOriginDecision → Bool
passes mode decision =
    if is_blocked decision.capability then false else accepts_decision mode decision

module _ (parse_time : Text → Option ℕ) (clock : ℕ) where
  pub origin_decision_of_signed :
      (p : WriterPolicy) (origin : MessageOrigin) (scope : Text) (store : DelegationStore)
      → is_unsigned_origin (some origin) ≡ false
      → origin_decision parse_time clock p (some origin) scope store
        ≡ signed_decision parse_time clock (normalize p) origin scope store
  unfolding origin_decision
  origin_decision_of_signed p origin scope store signed = rw signed

  pub origin_decision-normalize :
      (p : WriterPolicy) (origin : Option MessageOrigin) (scope : Text) (store : DelegationStore)
      → origin_decision parse_time clock (normalize p) origin scope store
        ≡ origin_decision parse_time clock p origin scope store
  unfolding origin_decision
  origin_decision-normalize p none scope store =
      ap (unsigned_decision parse_time clock) (normalize_idem p)
  origin_decision-normalize p (some origin) scope store =
      ap
        (λ q.
          if is_unsigned_origin (some origin)
          then unsigned_decision parse_time clock q
          else signed_decision parse_time clock q origin scope store)
        (normalize_idem p)

  pub accepts_origin_of_signed :
      (p : WriterPolicy) (origin : MessageOrigin) (scope : Text) (store : DelegationStore)
      → is_unsigned_origin (some origin) ≡ false
      → accepts_origin_with_delegation parse_time clock p (some origin) scope store
        ≡ passes
            (normalize p).sync_mode
            (signed_decision parse_time clock (normalize p) origin scope store)
  unfolding accepts_origin_with_delegation
  accepts_origin_of_signed p origin scope store signed = rw (
    signed,
    origin_decision-normalize p (some origin) scope store,
    origin_decision_of_signed p origin scope store signed,
  )

  pub accepts_message_of_signed :
      (p : WriterPolicy) (msg : Message) (scope : Text) (store : DelegationStore)
      → is_unsigned_origin msg.origin ≡ false
      → accepts_message_with_delegation parse_time clock p msg scope store
        ≡ passes
            (normalize p).sync_mode
            (message_decision parse_time clock (normalize p) msg scope store)
  unfolding accepts_message_with_delegation
  accepts_message_of_signed p msg scope store signed = rw signed

  pub signed_decision-sync_mode :
      (p : WriterPolicy) (mode : WriterSyncMode) (origin : MessageOrigin) (scope : Text)
      (store : DelegationStore)
      → signed_decision parse_time clock
          (normalize (record p { sync_mode = mode }))
          origin
          scope
          store
        ≡ signed_decision parse_time clock (normalize p) origin scope store
  unfolding signed_decision capability_state legacy_state has_legacy_whitelist normalize
  signed_decision-sync_mode p mode origin scope store = refl
