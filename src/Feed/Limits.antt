-- ===== src/Feed/Limits.antt =====
-- The limits on age, size and number (internal/plugins/aip2p/subscriptions.go: `withinMaxAge`,
-- `withinMaxBundleSize`, `utcDayKey`, `reserveDailyQuota`). A duration and a size are `int64`: a product
-- is taken modulo 2 ^ 64, and from 2 ^ 63 on it stands for a negative number. The counts of a day stay
-- far below that. A size that is not positive is zero.
pub mod Overflow
use ai_p2p.Prelude.{
  [], ℕ, ◌+◌, ◌-◌, ◌*◌, ◌%◌, ltb, leb, Bool, true, false, if◌then◌else◌, is_nil, Option, none, some,
  ◌==◌, suc,
}
use ai_p2p.Text.{Text, trim_space}
use ai_p2p.TextMap.{TextMap, lookup, insert}
use ai_p2p.Feed.Rules.{
  or_default, default_max_age_days, default_max_bundle_mb, default_max_items_per_day,
}

-- 2 ^ 63 and 2 ^ 64.
abbrev pub int64_min : ℕ
int64_min = 9_223_372_036_854_775_808

abbrev pub int64_modulus : ℕ
int64_modulus = 18_446_744_073_709_551_616

-- `24 * time.Hour`, in nanoseconds.
abbrev pub day : ℕ
day = 86_400_000_000_000

-- `time.Since(parsed) <= maxAge`, for a duration `max_age` of 64 bits.
unfoldable pub is_young : ℕ → ℕ → ℕ → Bool
is_young now max_age parsed =
    if ltb max_age int64_min
    then leb now (parsed + max_age)
    else leb (now + (int64_modulus - max_age)) parsed

-- `withinMaxBundleSize`.
unfoldable pub within_max_bundle_size : ℕ → ℕ → Bool
within_max_bundle_size size_bytes raw =
    let limit = or_default default_max_bundle_mb raw * 1_048_576 % int64_modulus in
    if size_bytes == 0 then true else if ltb limit int64_min then leb size_bytes limit else false

module _ (parse_time : Text → Option ℕ) where
  -- The test of `withinMaxAge` on a parsed time.
  abbrev pub is_young_at : ℕ → ℕ → Option ℕ → Bool
  is_young_at now max_age none = true
  is_young_at now max_age (some parsed) = is_young now max_age parsed

  -- `withinMaxAge`, at the time `now`.
  unfoldable pub within_max_age : ℕ → Text → ℕ → Bool
  within_max_age now raw_created_at raw_days =
      let created_at = trim_space raw_created_at in
      let max_age = or_default default_max_age_days raw_days * day % int64_modulus in
      if is_nil created_at then true else is_young_at now max_age (parse_time created_at)

  module _ (format_day : ℕ → Text) where
    abbrev day_key_of : Option ℕ → Text
    day_key_of none = []
    day_key_of (some parsed) = format_day parsed

    -- `utcDayKey`.
    unfoldable pub utc_day_key : Text → Text
    utc_day_key raw =
        let created_at = trim_space raw in
        if is_nil created_at then [] else day_key_of (parse_time created_at)

abbrev pub count_of : Option ℕ → ℕ
count_of none = 0
count_of (some n) = n

-- `reserveDailyQuota` for a day's key, and the counts after it.
unfoldable pub reserve_daily_quota : Text → ℕ → TextMap ℕ → Bool × TextMap ℕ
reserve_daily_quota day_key raw_max counts =
    let count = count_of (lookup day_key counts) in
    if is_nil day_key
    then (true, counts)
    else if leb (or_default default_max_items_per_day raw_max) count
    then (false, counts)
    else (true, insert day_key (suc count) counts)
