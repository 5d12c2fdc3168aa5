-- ===== src/Feed/Tests.antt =====
-- Examples of the selection.
use ai_p2p.Prelude.{
  ℕ, zero, suc, true, ◌+◌, ◌*◌, ◌≤◌, leb, false, [], ◌∷◌, ◌≡◌, refl, if◌then◌else◌, Option, none,
  some, All, arith, any, keep,
}
use ai_p2p.Prelude.Sorting.{insert_sorted, sort_stable}
use ai_p2p.Text.{Text, codes, text_eq, text_lt, trim_space, to_lower, contains, equal_fold}
use ai_p2p.TextMap.{lookup, insert, rebuild}
use ai_p2p.Writer.Lists.{unique_fold, contains_fold}
use ai_p2p.Feed.Rules.{
  SubscriptionRules, or_default, default_max_items_per_day, all_hex, normalize_public_key,
  unique_by, unique_normalized_public_keys, canonical_topic_with_aliases, normalized_topic_aliases,
  topic_whitelist_set, whitelist_to_slice, topic_allowed_by_whitelist, unique_canonical_topics,
  normalize_whitelist_mode, normalize_rules, is_empty, fold_lookup_set, lookup_contains,
}
use ai_p2p.Feed.Limits.{
  day, is_young, within_max_bundle_size, within_max_age, utc_day_key, reserve_daily_quota,
}
use ai_p2p.Feed.Limits.Overflow.{max_days, within_max_age-exact}
use ai_p2p.Feed.Selection.{
  FeedBundle, match_public_key_filters, matches_lists, matches_subscription_bundle, sort_posts,
  is_chosen, apply_subscription_rules,
}
use ai_p2p.Feed.Selection.Quota.{count_day, sort_posts-daily}
use ai_p2p.Feed.Selection.Blocked.{names_key, IsUnblocked, sort_posts-IsUnblocked}

-- Naming it unfolds the operations, so that the examples compute.
feed : Unit {0}
unfolding any keep text_eq trim_space to_lower contains equal_fold lookup insert rebuild
    insert_sorted sort_stable unique_fold contains_fold all_hex normalize_public_key unique_by
    unique_normalized_public_keys canonical_topic_with_aliases normalized_topic_aliases
    topic_whitelist_set text_lt whitelist_to_slice topic_allowed_by_whitelist
    unique_canonical_topics normalize_whitelist_mode normalize_rules is_empty fold_lookup_set
    lookup_contains is_young within_max_bundle_size within_max_age utc_day_key reserve_daily_quota
    match_public_key_filters matches_lists matches_subscription_bundle sort_posts is_chosen
    apply_subscription_rules
feed = tt

-- The time of a text is its first character.
abbrev first_char : Text → Option ℕ
first_char [] = none
first_char (c ∷ s) = some c

abbrev one_char : ℕ → Text
one_char n = n ∷ []

abbrev no_rules : SubscriptionRules
no_rules = record {
  channels = [];
  topics = codes "all" ∷ [];
  tags = [];
  authors = [];
  allowed_origin_keys = [];
  blocked_origin_keys = [];
  allowed_parent_keys = [];
  blocked_parent_keys = [];
  live_allowed_origin_keys = [];
  live_blocked_origin_keys = [];
  live_allowed_parent_keys = [];
  live_blocked_parent_keys = [];
  live_public_muted_origin_keys = [];
  live_public_muted_parent_keys = [];
  live_public_rate_limit_messages = 0;
  live_public_rate_limit_window_seconds = 0;
  whitelist_mode = [];
  topic_whitelist = [];
  topic_aliases = [];
  max_age_days = 0;
  max_bundle_mb = 0;
  max_items_per_day = 1;
  history_channels = [];
  history_topics = [];
  history_authors = [];
}

abbrev post : Text → FeedBundle
post info_hash = record {
  info_hash = info_hash;
  kind = codes "post";
  created_at = codes "d";
  channel = [];
  author = [];
  topics = [];
  tags = [];
  origin_key = [];
  parent_key = [];
  size_bytes = 1;
  reply_to = none;
  subject = [];
}

-- The second post of the day is left out.
one_a_day :
    sort_posts first_char one_char 200 no_rules [] (post (codes "a") ∷ post (codes "b") ∷ [])
    ≡ (post (codes "a") ∷ [], [])
unfolding feed
one_a_day = refl

sort_posts-daily_example :
    count_day first_char one_char
      (codes "d")
      (sort_posts first_char one_char 200 no_rules [] (post (codes "a") ∷ post (codes "b") ∷ [])).0
    ≤ or_default default_max_items_per_day no_rules.max_items_per_day
sort_posts-daily_example =
    sort_posts-daily first_char one_char 200 no_rules (post (codes "a") ∷ post (codes "b") ∷ [])
      (codes "d") refl

abbrev hex_key : ℕ → Text
hex_key zero = []
hex_key (suc n) = b'a' ∷ hex_key n

-- Rules that allow a key and block it, once in capital letters and with a blank before it.
abbrev blocking_rules : SubscriptionRules
blocking_rules = record no_rules {
  allowed_origin_keys = hex_key 64 ∷ [];
  blocked_parent_keys = (b' ' ∷ (b'A' ∷ hex_key 63)) ∷ [];
}

abbrev of_blocked : FeedBundle
of_blocked = record (post (codes "b")) { origin_key = hex_key 64; parent_key = hex_key 64 }

blocked_key : names_key blocking_rules.blocked_parent_keys of_blocked.parent_key ≡ true
unfolding feed names_key
blocked_key = refl

-- The key is allowed as an origin, and the bundle is left out.
only_unblocked :
    sort_posts first_char one_char 200 blocking_rules [] (of_blocked ∷ post (codes "a") ∷ [])
    ≡ (post (codes "a") ∷ [], [])
unfolding feed
only_unblocked = refl

sort_posts-IsUnblocked_example :
    All
      (IsUnblocked first_char one_char blocking_rules)
      (sort_posts first_char one_char 200 blocking_rules [] (of_blocked ∷ post (codes "a") ∷ [])).0
sort_posts-IsUnblocked_example =
    sort_posts-IsUnblocked first_char one_char 200 blocking_rules []
      (of_blocked ∷ post (codes "a") ∷ [])

-- A limit of about 411 years refuses what was made a moment ago.
within_max_age-exact_example :
    within_max_age first_char 200 (codes "d") 150_000
    ≡ (if leb 150_000 max_days then leb 200 (100 + 150_000 * day) else false)
unfolding feed
within_max_age-exact_example =
    within_max_age-exact first_char 200 100 150_000 (codes "d") refl refl (ground arith)
      (ground arith) (ground arith)
