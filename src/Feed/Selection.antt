-- ===== src/Feed/Selection.antt =====
-- The selection of an index by the rules (internal/plugins/aip2p/subscriptions.go:
-- `ApplySubscriptionRules` up to the bundles that it keeps, `matchesSubscriptionBundle`,
-- `matchPublicKeyFilters`). A bundle has what they read of it: the keys are what `originPublicKey` and
-- `parentPublicKey` answer, `reply_to` is the info hash of its `ReplyTo`, and `subject` is what
-- `nestedString` finds in its extensions.
pub mod Blocked
pub mod Quota
use ai_p2p.Prelude.{
  ℕ, Bool, true, false, not, ◌&&◌, ◌||◌, List, [], ◌∷◌, map, any, keep, if◌then◌else◌, Option, none,
  some, is_nil,
}
use ai_p2p.Text.{Text, codes, text_eq, to_lower, contains}
use ai_p2p.TextMap.{TextMap}
use ai_p2p.Feed.Rules.{
  SubscriptionRules, normalize_rules, is_empty, normalize_public_key, topic_whitelist_set,
  unique_canonical_topics, normalize_whitelist_mode, lookup_contains, reserved_topic_all,
}
use ai_p2p.Feed.Limits.{within_max_age, within_max_bundle_size, utc_day_key, reserve_daily_quota}

pub record FeedBundle : Type 0 where
  pub info_hash : Text
  pub kind : Text
  pub created_at : Text
  pub channel : Text
  pub author : Text
  pub topics : List Text
  pub tags : List Text
  pub origin_key : Text
  pub parent_key : Text
  pub size_bytes : ℕ
  pub reply_to : Option Text
  pub subject : Text

-- The answers of `matchPublicKeyFilters`.
pub data KeyMatch : Type 0 where
  blocked allowed neither : KeyMatch

-- `matchPublicKeyFilters`.
unfoldable pub match_public_key_filters : Text → Text → SubscriptionRules → KeyMatch
match_public_key_filters raw_origin raw_parent rules =
    let origin = normalize_public_key raw_origin in
    let parent = normalize_public_key raw_parent in
    if lookup_contains rules.blocked_origin_keys origin
    then KeyMatch.blocked
    else if lookup_contains rules.blocked_parent_keys parent
    then KeyMatch.blocked
    else if lookup_contains rules.allowed_origin_keys origin
    then KeyMatch.allowed
    else if lookup_contains rules.allowed_parent_keys parent
    then KeyMatch.allowed
    else KeyMatch.neither

-- `matchesSubscriptionBundle` after the limits; the rules are normal.
unfoldable pub matches_lists : SubscriptionRules → FeedBundle → Bool
unfolding any
matches_lists rules b =
    let whitelist = topic_whitelist_set rules.topic_whitelist rules.topic_aliases in
    let topics = unique_canonical_topics rules.topic_aliases whitelist b.topics in
    is_empty rules
    || (lookup_contains rules.topics reserved_topic_all
        || (lookup_contains rules.channels b.channel
            || (lookup_contains rules.authors b.author
                || (any (λ topic. lookup_contains rules.topics topic) topics
                    || any (λ tag. lookup_contains rules.tags tag) b.tags))))

-- `approvalMode`.
abbrev pub approval_mode : SubscriptionRules → Bool
approval_mode rules = text_eq (normalize_whitelist_mode rules.whitelist_mode) (codes "approval")

-- A bundle is chosen by its own hash, by that of its parent, or by its subject.
unfoldable pub is_chosen : List Text → FeedBundle → Bool
is_chosen hashes b =
    if text_eq b.kind (codes "post")
    then contains hashes (to_lower b.info_hash)
    else if text_eq b.kind (codes "reply")
    then elim b.reply_to [ none ↦ false | some parent ↦ contains hashes (to_lower parent) ]
    else if text_eq b.kind (codes "reaction")
    then contains hashes (to_lower b.subject)
    else false

module _ (parse_time : Text → Option ℕ) (format_day : ℕ → Text) where
  -- The answers of `matchesSubscriptionBundle` on the keys' answers.
  abbrev pub matches_key : ℕ → SubscriptionRules → FeedBundle → KeyMatch → Bool
  matches_key now rules b KeyMatch.blocked = false
  matches_key now rules b KeyMatch.allowed = true
  matches_key now rules b KeyMatch.neither =
      within_max_age parse_time now b.created_at rules.max_age_days
      && (within_max_bundle_size b.size_bytes rules.max_bundle_mb && matches_lists rules b)

  -- `matchesSubscriptionBundle`, at the time `now`.
  unfoldable pub matches_subscription_bundle : ℕ → FeedBundle → SubscriptionRules → Bool
  matches_subscription_bundle now b raw =
      let rules = normalize_rules raw in
      matches_key now rules b (match_public_key_filters b.origin_key b.parent_key rules)

  -- The first loop of `ApplySubscriptionRules`: the posts that are allowed and those that are pending.
  unfoldable pub sort_posts :
      ℕ → SubscriptionRules → TextMap ℕ → List FeedBundle → List FeedBundle × List FeedBundle
  sort_posts now rules counts [] = ([], [])
  sort_posts now rules counts (b ∷ bundles) =
      let reserved =
        reserve_daily_quota (utc_day_key parse_time format_day b.created_at) rules.max_items_per_day
          counts in
      let rest = sort_posts now rules counts bundles in
      let counted = sort_posts now rules reserved.1 bundles in
      if not (text_eq b.kind (codes "post"))
      then rest
      else if matches_subscription_bundle now b rules
      then if reserved.0 then (b ∷ counted.0, counted.1) else rest
      else if approval_mode rules
      then (rest.0, b ∷ rest.1)
      else rest

  -- `ApplySubscriptionRules`: the bundles of which the index is built.
  unfoldable pub apply_subscription_rules :
      ℕ → SubscriptionRules → List FeedBundle → List FeedBundle
  unfolding keep
  apply_subscription_rules now raw bundles =
      let rules = normalize_rules raw in
      let posts = sort_posts now rules [] bundles in
      let allowed = map (λ b. to_lower b.info_hash) posts.0 in
      let pending = map (λ b. to_lower b.info_hash) posts.1 in
      if is_empty rules
      then bundles
      else keep (λ b. is_chosen allowed b || is_chosen pending b) bundles
