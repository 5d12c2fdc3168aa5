-- ===== src/Feed/Rules.antt =====
-- The subscription rules and their normal form (internal/plugins/aip2p/subscriptions.go,
-- `SubscriptionRules` of types.go), as far as the selection reads them: the routes of approval, the
-- discovery feeds and the lookup sets, which repeat the lists, are left out. A number that is not
-- positive is zero, and a `nil` map is empty.
use ai_p2p.Prelude.{
  ℕ, leb, Bool, true, false, not, ◌&&◌, ◌||◌, List, [], ◌∷◌, if◌then◌else◌, is_nil, length, Option,
  none, some, ◌==◌,
}
use ai_p2p.Prelude.Sorting.{sort_stable}
use ai_p2p.Text.{Text, codes, text_eq, text_lt, trim_space, to_lower, contains, equal_fold}
use ai_p2p.TextMap.{TextMap, lookup, rebuild}
use ai_p2p.Writer.Lists.{unique_fold, contains_fold}

pub record SubscriptionRules : Type 0 where
  pub channels : List Text
  pub topics : List Text
  pub tags : List Text
  pub authors : List Text
  pub allowed_origin_keys : List Text
  pub blocked_origin_keys : List Text
  pub allowed_parent_keys : List Text
  pub blocked_parent_keys : List Text
  pub live_allowed_origin_keys : List Text
  pub live_blocked_origin_keys : List Text
  pub live_allowed_parent_keys : List Text
  pub live_blocked_parent_keys : List Text
  pub live_public_muted_origin_keys : List Text
  pub live_public_muted_parent_keys : List Text
  pub live_public_rate_limit_messages : ℕ
  pub live_public_rate_limit_window_seconds : ℕ
  pub whitelist_mode : Text
  pub topic_whitelist : List Text
  pub topic_aliases : TextMap Text
  pub max_age_days : ℕ
  pub max_bundle_mb : ℕ
  pub max_items_per_day : ℕ
  pub history_channels : List Text
  pub history_topics : List Text
  pub history_authors : List Text

abbrev pub default_max_age_days : ℕ
default_max_age_days = 99_999_999

abbrev pub default_max_bundle_mb : ℕ
default_max_bundle_mb = 10

abbrev pub default_max_items_per_day : ℕ
default_max_items_per_day = 999_999_999_999

abbrev pub reserved_topic_all : Text
reserved_topic_all = codes "all"

-- `if value <= 0 { value = default }`.
abbrev pub or_default : ℕ → ℕ → ℕ
or_default default value = if value == 0 then default else value

abbrev is_hex_char : ℕ → Bool
is_hex_char c = leb 48 c && leb c 57 || leb 97 c && leb c 102

-- The loop of `normalizePublicKey`.
unfoldable pub all_hex : Text → Bool
all_hex [] = true
all_hex (c ∷ s) = is_hex_char c && all_hex s

-- `normalizePublicKey`. The length is counted in bytes, which are the characters where all are hex digits.
unfoldable pub normalize_public_key : Text → Text
normalize_public_key raw =
    let value = to_lower (trim_space raw) in
    if not (length value == 64) then [] else if all_hex value then value else []

-- The loops that keep the first of each key, among the items that are not skipped.
unfoldable pub unique_by : (Text → Text) → (Text → Text) → List Text → List Text → List Text
unique_by change key seen [] = []
unique_by change key seen (raw ∷ items) =
    let item = change raw in
    let skipped = unique_by change key seen items in
    let kept = item ∷ unique_by change key (key item ∷ seen) items in
    if is_nil item then skipped else if contains seen (key item) then skipped else kept

-- `uniqueNormalizedPublicKeys`.
unfoldable pub unique_normalized_public_keys : List Text → List Text
unique_normalized_public_keys items = unique_by normalize_public_key (λ item. item) [] items

-- `aliases[key]`, or the topic where there is no alias.
abbrev alias_or : Text → Option Text → Text
alias_or topic none = topic
alias_or topic (some canonical) = canonical

-- `canonicalTopicWithAliases`.
unfoldable pub canonical_topic_with_aliases : TextMap Text → Text → Text
canonical_topic_with_aliases aliases topic =
    let original = trim_space topic in
    let key = to_lower original in
    if is_nil original
    then []
    else if text_eq key reserved_topic_all
    then reserved_topic_all
    else if contains (codes "world" ∷ codes "世界" ∷ codes "国际" ∷ []) key
    then codes "world"
    else if contains (codes "news" ∷ codes "新闻" ∷ []) key
    then codes "news"
    else if contains (codes "futures" ∷ codes "期货" ∷ []) key
    then codes "futures"
    else alias_or original (lookup key aliases)

-- The body of the loop of `normalizedTopicAliases`.
abbrev alias_entry : Text → Text → Option (Text × Text)
alias_entry raw_alias raw_canonical =
    let alias = to_lower (trim_space raw_alias) in
    let canonical = canonical_topic_with_aliases [] raw_canonical in
    if is_nil alias || is_nil canonical then none else some (alias, canonical)

-- `normalizedTopicAliases`.
unfoldable pub normalized_topic_aliases : TextMap Text → TextMap Text
normalized_topic_aliases raw = rebuild alias_entry [] raw

-- What `topicWhitelistSet` makes of an item, with "" for what it skips.
abbrev whitelist_item : TextMap Text → Text → Text
whitelist_item aliases raw =
    let item = canonical_topic_with_aliases aliases raw in
    if text_eq item reserved_topic_all then [] else to_lower item

-- `topicWhitelistSet`, as the list of its elements.
unfoldable pub topic_whitelist_set : List Text → TextMap Text → List Text
topic_whitelist_set items aliases = unique_by (whitelist_item aliases) (λ item. item) [] items

-- `whitelistToSlice`.
unfoldable pub whitelist_to_slice : List Text → List Text
whitelist_to_slice set = sort_stable text_lt set

-- `topicAllowedByWhitelist`.
unfoldable pub topic_allowed_by_whitelist : List Text → Text → Bool
topic_allowed_by_whitelist whitelist topic =
    if is_nil whitelist || equal_fold topic reserved_topic_all
    then true
    else contains whitelist (to_lower (trim_space topic))

-- What `uniqueCanonicalTopicsWithAliases` makes of an item, with "" for what it skips.
abbrev whitelisted_topic : TextMap Text → List Text → Text → Text
whitelisted_topic aliases whitelist raw =
    let item = canonical_topic_with_aliases aliases raw in
    if topic_allowed_by_whitelist whitelist item then item else []

-- `uniqueCanonicalTopicsWithAliases`.
unfoldable pub unique_canonical_topics : TextMap Text → List Text → List Text → List Text
unique_canonical_topics aliases whitelist items =
    unique_by (whitelisted_topic aliases whitelist) to_lower [] items

-- `normalizeWhitelistMode`.
unfoldable pub normalize_whitelist_mode : Text → Text
normalize_whitelist_mode value =
    if text_eq (to_lower (trim_space value)) (codes "approval")
    then codes "approval"
    else codes "strict"

-- `SubscriptionRules.normalize`.
unfoldable pub normalize_rules : SubscriptionRules → SubscriptionRules
normalize_rules r =
    let aliases = normalized_topic_aliases r.topic_aliases in
    let whitelist = topic_whitelist_set r.topic_whitelist aliases in
    record {
      channels = unique_fold r.channels;
      topics = unique_canonical_topics aliases whitelist r.topics;
      tags = unique_fold r.tags;
      authors = unique_fold r.authors;
      allowed_origin_keys = unique_normalized_public_keys r.allowed_origin_keys;
      blocked_origin_keys = unique_normalized_public_keys r.blocked_origin_keys;
      allowed_parent_keys = unique_normalized_public_keys r.allowed_parent_keys;
      blocked_parent_keys = unique_normalized_public_keys r.blocked_parent_keys;
      live_allowed_origin_keys = unique_normalized_public_keys r.live_allowed_origin_keys;
      live_blocked_origin_keys = unique_normalized_public_keys r.live_blocked_origin_keys;
      live_allowed_parent_keys = unique_normalized_public_keys r.live_allowed_parent_keys;
      live_blocked_parent_keys = unique_normalized_public_keys r.live_blocked_parent_keys;
      live_public_muted_origin_keys = unique_normalized_public_keys r.live_public_muted_origin_keys;
      live_public_muted_parent_keys = unique_normalized_public_keys r.live_public_muted_parent_keys;
      live_public_rate_limit_messages = r.live_public_rate_limit_messages;
      live_public_rate_limit_window_seconds = r.live_public_rate_limit_window_seconds;
      whitelist_mode = normalize_whitelist_mode r.whitelist_mode;
      topic_whitelist = whitelist_to_slice whitelist;
      topic_aliases = aliases;
      max_age_days = or_default default_max_age_days r.max_age_days;
      max_bundle_mb = or_default default_max_bundle_mb r.max_bundle_mb;
      max_items_per_day = or_default default_max_items_per_day r.max_items_per_day;
      history_channels = unique_fold r.history_channels;
      history_topics = unique_canonical_topics aliases whitelist r.history_topics;
      history_authors = unique_fold r.history_authors;
    }

-- Every list is empty.
abbrev all_nil : List (List Text) → Bool
all_nil [] = true
all_nil (items ∷ rest) = is_nil items && all_nil rest

-- `SubscriptionRules.Empty`.
unfoldable pub is_empty : SubscriptionRules → Bool
is_empty raw =
    let r = normalize_rules raw in
    all_nil (
      r.channels ∷ r.topics ∷ r.tags ∷ r.authors ∷ r.allowed_origin_keys ∷ r.blocked_origin_keys
      ∷ r.allowed_parent_keys ∷ r.blocked_parent_keys ∷ r.live_allowed_origin_keys
      ∷ r.live_blocked_origin_keys ∷ r.live_allowed_parent_keys ∷ r.live_blocked_parent_keys
      ∷ r.live_public_muted_origin_keys ∷ r.live_public_muted_parent_keys ∷ r.history_channels
      ∷ r.history_topics ∷ r.history_authors ∷ [])
    && (r.live_public_rate_limit_messages == 0
        && (r.live_public_rate_limit_window_seconds == 0
            && (leb default_max_age_days r.max_age_days
                && (leb default_max_bundle_mb r.max_bundle_mb
                    && leb default_max_items_per_day r.max_items_per_day))))

abbrev pub lower_trimmed : Text → Text
lower_trimmed item = to_lower (trim_space item)

-- `foldLookupSet`.
unfoldable pub fold_lookup_set : List Text → List Text
fold_lookup_set items = unique_by lower_trimmed (λ item. item) [] items

-- `lookupContains`, with the set that the normal form builds of the items.
unfoldable pub lookup_contains : List Text → Text → Bool
lookup_contains items raw =
    let target = trim_space raw in
    let set = fold_lookup_set items in
    if is_nil target
    then false
    else if not (is_nil set)
    then contains set (to_lower target)
    else contains_fold items target
