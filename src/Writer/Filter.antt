-- ===== src/Writer/Filter.antt =====
-- What a policy leaves of an index (internal/plugins/aip2p/writer_policy.go:
-- `ApplyWriterPolicyWithDelegations`), as the list of bundles from which `buildIndex` then builds the
-- index. A bundle has what the function reads of it: `reply_to` is the info hash of its `ReplyTo`, and
-- `subject` is what `nestedString` finds in its extensions. The annotations of
-- `applyDelegationMetadata` play no part in the choice.
pub mod Laws
use ai_p2p.Prelude.{
  ℕ, Bool, true, false, ◌&&◌, List, [], ◌∷◌, ◌++◌, map, keep, if◌then◌else◌, Option, none, some,
}
use ai_p2p.Text.{Text, codes, text_eq, to_lower, contains}
use ai_p2p.Writer.Delegation.{DelegationStore}
use ai_p2p.Writer.Policy.{WriterPolicy, normalize, empty}
use ai_p2p.Writer.Decision.{Message, accepts_message_with_delegation}

pub record Bundle : Type 0 where
  pub info_hash : Text
  pub message : Message
  pub reply_to : Option Text
  pub subject : Text

abbrev pub has_kind : Text → Bundle → Bool
has_kind kind b = text_eq b.message.kind kind

-- The set `allowed`.
abbrev pub allowed_hashes : List Bundle → List Text
allowed_hashes posts = map (λ b. to_lower b.info_hash) posts

-- Whether a reply or a reaction is about a post of the set.
unfoldable pub answers : List Text → Bundle → Bool
answers allowed b =
    if has_kind (codes "reply") b
    then elim b.reply_to [ none ↦ false | some info_hash ↦ contains allowed (to_lower info_hash) ]
    else if has_kind (codes "reaction") b
    then contains allowed (to_lower b.subject)
    else false

module _ (parse_time : Text → Option ℕ) (clock : ℕ) where
  abbrev pub accepts : WriterPolicy → DelegationStore → Bundle → Bool
  accepts p store b =
      accepts_message_with_delegation parse_time clock p b.message b.message.kind store

  -- The first loop.
  unfoldable pub kept_posts : WriterPolicy → DelegationStore → List Bundle → List Bundle
  kept_posts p store bundles = keep (λ b. has_kind (codes "post") b && accepts p store b) bundles

  -- The second loop, over the set that the first one has filled.
  unfoldable pub kept_answers :
      WriterPolicy → DelegationStore → List Text → List Bundle → List Bundle
  kept_answers p store allowed bundles = keep (λ b. accepts p store b && answers allowed b) bundles

  -- `ApplyWriterPolicyWithDelegations`.
  unfoldable pub apply_writer_policy_with_delegations :
      WriterPolicy → DelegationStore → List Bundle → List Bundle
  apply_writer_policy_with_delegations raw store bundles =
      let p = normalize raw in
      let posts = kept_posts p store bundles in
      if empty p then bundles else posts ++ kept_answers p store (allowed_hashes posts) bundles
