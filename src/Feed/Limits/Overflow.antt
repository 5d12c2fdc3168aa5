-- ===== src/Feed/Limits/Overflow.antt =====
-- The largest age that the limit in days can express (internal/plugins/aip2p/subscriptions.go:
-- `withinMaxAge`).
use ai_p2p.Prelude.{
  ℕ, ◌+◌, ◌*◌, ◌≤◌, ◌<◌, leb, false, ◌≡◌, if◌then◌else◌, is_nil, Option, some, arith,
}
use ai_p2p.Text.{Text, trim_space}
use ai_p2p.Feed.Limits.{day, within_max_age, is_young}

-- The number of days whose duration fits into `int64`.
abbrev pub max_days : ℕ
max_days = 106_751

module _ (parse_time : Text → Option ℕ) where
  -- For a limit of one to 213,503 days and a bundle whose time can be read and is not later than now: the
  -- bundle is young enough exactly if not more than that many days have gone by since, where the limit is
  -- at most 106,751 days, and is never young enough where the limit is larger.
  pub within_max_age-exact :
      (now parsed days : ℕ) (created_at : Text)
      → is_nil (trim_space created_at) ≡ false
      → parse_time (trim_space created_at) ≡ some parsed
      → 0 < days
      → days ≤ 213_503
      → parsed ≤ now
      → within_max_age parse_time now created_at days
        ≡ (if leb days max_days then leb now (parsed + days * day) else false)
  unfolding within_max_age is_young
  within_max_age-exact now parsed days created_at dated read positive bounded past =
      rw (dated, read) (ground arith)
