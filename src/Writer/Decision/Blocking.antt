-- ===== src/Writer/Decision/Blocking.antt =====
-- The block lists and the sync modes in `acceptsOriginWithDelegation` and
-- `acceptsMessageWithDelegation` (internal/plugins/aip2p/writer_policy.go).
use ai_p2p.Prelude.{
  ℕ, Bool, true, false, ◌≡◌, refl, ap, sym, ◌∙◌, ◌⊎◌, inl, inr, Bool-cases, is_nil, Option, some,
  arith, [], ◌∷◌, ◌++◌, any-imp, if◌then◌else◌,
}
use mathlib.Core.List.{append_assoc}
use mathlib.Core.Path.{subst}
use ai_p2p.Text.{Text, codes, text_eq, trim_space, to_lower, has_prefix, equal_fold}
use ai_p2p.Text.Laws.{
  text_eq_iff, trim_space_idem, to_lower_idem, trim_space-to_lower, is_nil-to_lower,
}
use ai_p2p.Writer.Modes.{
  WriterCapability, WriterSyncMode, WriterTrustMode, normalize_fold_key, normalize_writer_sync_mode,
}
use ai_p2p.Writer.Lists.{contains_fold}
use ai_p2p.Writer.Lists.Laws.{names, contains_fold-unique_fold}
use ai_p2p.Writer.Delegation.{DelegationStore}
use ai_p2p.Writer.Policy.{WriterPolicy, normalize}
use ai_p2p.Writer.Decision.Steps.{
  accepts_origin_of_signed, accepts_message_of_signed, signed_decision-sync_mode, passes,
}
use ai_p2p.Writer.Decision.{
  MessageOrigin, Message, WriterOriginDecision, is_unsigned_origin, lists, capability_state,
  configured, matches_writer_author_policy, signed_decision, message_decision, accepts_decision,
  accepts_origin_with_delegation, accepts_message_with_delegation,
}

lists-normalize_blocked :
    (p : WriterPolicy) (item : Text)
    → is_nil item ≡ false
    → names p.blocked_agent_ids item ≡ true
    → lists (normalize p).blocked_agent_ids item ≡ true
unfolding normalize
lists-normalize_blocked p item full named =
    ground (arith, contains_fold-unique_fold p.blocked_agent_ids item)

capability_state_of_blocked :
    (p : WriterPolicy) (agent_id public_key : Text)
    → is_nil (normalize_fold_key agent_id) ≡ false
    → names p.blocked_agent_ids (normalize_fold_key agent_id) ≡ true
    → capability_state (normalize p) agent_id public_key ≡ configured WriterCapability.blocked
unfolding capability_state
capability_state_of_blocked p agent_id public_key full named =
    rw (lists-normalize_blocked p (normalize_fold_key agent_id) full named)

-- An id is another one, or, where the trust mode extends to children, one of its children.
abbrev pub IsSelfOrChild : WriterTrustMode → Text → Text → Type 0
IsSelfOrChild mode id author =
    (author ≡ id)
    ⊎ ((mode ≡ WriterTrustMode.parent_and_children)
        × (rest : Text) × (author ≡ id ++ (codes "/" ++ rest)))

has_prefix-append : (s t : Text) → has_prefix (s ++ t) s ≡ true
unfolding has_prefix
has_prefix-append [] t = refl
has_prefix-append (c ∷ s) t = ground (arith, has_prefix-append s t)

is_nil-append : (s t : Text) → is_nil s ≡ false → is_nil (s ++ t) ≡ false
is_nil-append [] t full = cc
is_nil-append (c ∷ s) t full = refl

-- The test that `matchesWriterAuthorPolicy` makes for one entry, in its normal form.
abbrev entry_test : WriterTrustMode → Text → Text → Bool
entry_test mode author entry =
    if is_nil entry then false else if text_eq author entry then true else elim mode [
      | WriterTrustMode.parent_and_children ↦ has_prefix author (entry ++ codes "/")
      | _ ↦ false
    ]

kin-entry_test :
    (mode : WriterTrustMode) (id author : Text)
    → is_nil id ≡ false
    → IsSelfOrChild mode id author
    → entry_test mode author id ≡ true
kin-entry_test mode id author full (inl same) = rw (full, (text_eq_iff author id).1 same) refl
kin-entry_test mode id author full (inr (extends, rest, e)) =
    elim (Bool-cases (text_eq author id)) [
      | inl same ↦ rw (full, same) refl
      | inr other ↦
          rw (full, other, extends, e)
            (rw (← append_assoc id (codes "/") rest) (has_prefix-append (id ++ codes "/") rest))
    ]

author_full :
    (id author : Text) (mode : WriterTrustMode)
    → is_nil id ≡ false
    → IsSelfOrChild mode id (normalize_fold_key author)
    → is_nil (normalize_fold_key author) ≡ false
author_full id author mode full (inl same) = rw same full
author_full id author mode full (inr (extends, rest, e)) =
    rw e (is_nil-append id (codes "/" ++ rest) full)

full-trim_space : (s : Text) → is_nil (normalize_fold_key s) ≡ false → is_nil (trim_space s) ≡ false
unfolding normalize_fold_key
full-trim_space s full = sym (is_nil-to_lower (trim_space s)) ∙ full

normalize_fold_key-trim_space :
    (s : Text) → normalize_fold_key (trim_space s) ≡ normalize_fold_key s
unfolding normalize_fold_key
normalize_fold_key-trim_space s = ap to_lower (trim_space_idem s)

-- An entry that equals a normal id up to case has it as its normal form.
normalize_fold_key-entry :
    (id item : Text)
    → equal_fold item (normalize_fold_key id) ≡ true
    → normalize_fold_key item ≡ normalize_fold_key id
unfolding normalize_fold_key equal_fold
normalize_fold_key-entry id item h =
    sym (trim_space-to_lower item)
    ∙ (ap trim_space ((text_eq_iff _ _).0 h ∙ to_lower_idem (trim_space id))
        ∙ (trim_space-to_lower (trim_space id) ∙ ap to_lower (trim_space_idem id)))

matches-blocked :
    (p : WriterPolicy) (id author : Text)
    → is_nil (normalize_fold_key id) ≡ false
    → names p.blocked_agent_ids (normalize_fold_key id) ≡ true
    → IsSelfOrChild (normalize p).trust_mode (normalize_fold_key id) (normalize_fold_key author)
    → matches_writer_author_policy
        (trim_space author)
        (normalize p).blocked_agent_ids
        (normalize p).trust_mode
      ≡ true
unfolding matches_writer_author_policy contains_fold
matches-blocked p id author full named kin =
    rw
      (author_full (normalize_fold_key id) (trim_space author) (normalize p).trust_mode full
        trimmed)
      (any-imp (λ item. equal_fold item (normalize_fold_key id))
        (λ item.
          entry_test (normalize p).trust_mode (normalize_fold_key (trim_space author))
            (normalize_fold_key item))
        (normalize p).blocked_agent_ids
        (λ item h.
          subst
            (λ entry.
              entry_test (normalize p).trust_mode (normalize_fold_key (trim_space author)) entry
              ≡ true)
            (sym (normalize_fold_key-entry id item h))
            (kin-entry_test (normalize p).trust_mode (normalize_fold_key id)
              (normalize_fold_key (trim_space author)) full trimmed))
        (unfold normalize in
          contains_fold-unique_fold p.blocked_agent_ids (normalize_fold_key id) ∙ named))
  where
    trimmed :
        IsSelfOrChild
          (normalize p).trust_mode
          (normalize_fold_key id)
          (normalize_fold_key (trim_space author))
    trimmed =
        subst (IsSelfOrChild (normalize p).trust_mode (normalize_fold_key id))
          (sym (normalize_fold_key-trim_space author)) kin

not_blocked_of_passes :
    (mode : WriterSyncMode) (decision : WriterOriginDecision)
    → passes mode decision ≡ true
    → passes WriterSyncMode.all decision ≡ true
unfolding accepts_decision
not_blocked_of_passes mode decision h = ground arith

passes_all :
    (p : WriterPolicy) (decision other : WriterOriginDecision)
    → other ≡ decision
    → passes (normalize p).sync_mode decision ≡ true
    → passes (normalize (record p { sync_mode = WriterSyncMode.all })).sync_mode other ≡ true
unfolding normalize accepts_decision normalize_writer_sync_mode
passes_all p decision other e h = rw e (not_blocked_of_passes _ decision h)

module _ (parse_time : Text → Option ℕ) (clock : ℕ) where
  -- A signed origin with an agent id that is not blank is rejected, whatever the mode, the
  -- capabilities, the whitelists and the delegations say, if the block list names that id in some
  -- spelling.
  pub accepts_origin_of_blocked :
      (p : WriterPolicy) (origin : MessageOrigin) (scope : Text) (store : DelegationStore)
      → is_nil (normalize_fold_key origin.agent_id) ≡ false
      → names p.blocked_agent_ids (normalize_fold_key origin.agent_id) ≡ true
      → is_unsigned_origin (some origin) ≡ false
      → accepts_origin_with_delegation parse_time clock p (some origin) scope store ≡ false
  unfolding signed_decision
  accepts_origin_of_blocked p origin scope store full named signed = rw (
    accepts_origin_of_signed parse_time clock p origin scope store signed,
    capability_state_of_blocked p origin.agent_id origin.public_key full named,
  )

  -- A signed message is rejected, whatever key has signed it and whatever else the policy says, if an id
  -- that is not blank is on the policy's block list, in some spelling, and the author is that id, in
  -- some spelling, or a child of it, in some spelling, where the policy's trust mode extends to children.
  -- A child's id is its parent's, a slash, and any text.
  pub accepts_message_of_blocked_author :
      (p : WriterPolicy) (msg : Message) (scope : Text) (store : DelegationStore) (id : Text)
      → is_unsigned_origin msg.origin ≡ false
      → is_nil (normalize_fold_key id) ≡ false
      → names p.blocked_agent_ids (normalize_fold_key id) ≡ true
      → IsSelfOrChild
          (normalize p).trust_mode
          (normalize_fold_key id)
          (normalize_fold_key msg.author)
      → accepts_message_with_delegation parse_time clock p msg scope store ≡ false
  unfolding message_decision
  accepts_message_of_blocked_author p msg scope store id signed full named kin =
      rw
        (
          accepts_message_of_signed parse_time clock p msg scope store signed,
          full-trim_space msg.author
              (author_full (normalize_fold_key id) msg.author (normalize p).trust_mode full kin),
          matches-blocked p id msg.author full named kin,
        )
        refl

  -- A signed origin that a policy accepts is accepted by the same policy in the mode `all`.
  accepts_origin_of_all :
      (p : WriterPolicy) (origin : MessageOrigin) (scope : Text) (store : DelegationStore)
      → is_unsigned_origin (some origin) ≡ false
      → accepts_origin_with_delegation parse_time clock p (some origin) scope store ≡ true
      → accepts_origin_with_delegation parse_time clock
          (record p { sync_mode = WriterSyncMode.all })
          (some origin)
          scope
          store
        ≡ true
  accepts_origin_of_all p origin scope store signed h =
      let decision = signed_decision parse_time clock (normalize p) origin scope store in
      accepts_origin_of_signed parse_time clock (record p { sync_mode = WriterSyncMode.all }) origin
        scope store signed
      ∙ (passes_all p decision _ (signed_decision-sync_mode parse_time clock p _ origin scope store)
          (sym (accepts_origin_of_signed parse_time clock p origin scope store signed) ∙ h))
