-- ===== src/Feed/Selection/Quota.antt =====
-- What the first loop of the selection allows (internal/plugins/aip2p/subscriptions.go:
-- `ApplySubscriptionRules`, `reserveDailyQuota`, `matchPublicKeyFilters`).
use ai_p2p.Prelude.{
  ℕ, suc, ◌+◌, ◌≤◌, leb, true, false, ◌≡◌, refl, ap, List, [], ◌∷◌, if◌then◌else◌, is_nil, Option,
  arith, inl, inr, Bool-cases, not_true_of_imp,
}
use ai_p2p.Text.{Text, codes, text_eq}
use ai_p2p.Text.Laws.{text_eq_iff}
use ai_p2p.TextMap.{TextMap, lookup}
use ai_p2p.TextMap.Laws.{lookup-insert}
use ai_p2p.Feed.Rules.{SubscriptionRules, or_default, default_max_items_per_day}
use ai_p2p.Feed.Limits.{utc_day_key, reserve_daily_quota, count_of}
use ai_p2p.Feed.Selection.{FeedBundle, matches_subscription_bundle, sort_posts, approval_mode}

module _ (parse_time : Text → Option ℕ) (format_day : ℕ → Text) where
  -- How many of the bundles are of a day.
  abbrev pub count_day : Text → List FeedBundle → ℕ
  count_day day [] = 0
  count_day day (b ∷ bundles) =
      if text_eq (utc_day_key parse_time format_day b.created_at) day
      then suc (count_day day bundles)
      else count_day day bundles

  abbrev limit_of : SubscriptionRules → ℕ
  limit_of rules = or_default default_max_items_per_day rules.max_items_per_day

  -- The counts of the loop never exceed the limit.
  abbrev IsWithin : SubscriptionRules → TextMap ℕ → Type 0
  IsWithin rules counts = (day : Text) → count_of (lookup day counts) ≤ limit_of rules

  reserve-IsWithin :
      (rules : SubscriptionRules) (counts : TextMap ℕ) (key : Text)
      → IsWithin rules counts
      → IsWithin rules (reserve_daily_quota key rules.max_items_per_day counts).1
  unfolding reserve_daily_quota
  reserve-IsWithin rules counts key h day = elim (Bool-cases (is_nil key)) [
    | inl undated ↦ rw undated (h day)
    | inr dated ↦ elim (Bool-cases (leb (limit_of rules) count)) [
      | inl full ↦ rw (dated, full) (h day)
      | inr free ↦
          rw (dated, free, lookup-insert key day (suc count) counts)
            (elim (Bool-cases (text_eq key day)) [
              | inl same ↦ rw same (ground (arith, free))
              | inr other ↦ rw other (h day)
            ])
    ]
  ]
    where
      count : ℕ
      count = count_of (lookup key counts)

  -- A reservation that succeeds counts one more of its day, and no other day.
  reserve-count :
      (max : ℕ) (counts : TextMap ℕ) (key day : Text)
      → is_nil day ≡ false
      → (reserve_daily_quota key max counts).0 ≡ true
      → count_of (lookup day (reserve_daily_quota key max counts).1) ≡ (
          if text_eq key day
          then suc (count_of (lookup day counts))
          else count_of (lookup day counts))
  unfolding reserve_daily_quota
  reserve-count max counts key day named ok = elim (Bool-cases (is_nil key)) [
    | inl undated ↦ rw (undated, differs undated) refl
    | inr dated ↦ elim (Bool-cases (leb (or_default default_max_items_per_day max) count)) [
      | inl full ↦ cc (rw (dated, full) at ok)
      | inr free ↦
          rw (dated, free, lookup-insert key day (suc count) counts)
            (elim (Bool-cases (text_eq key day)) [
              | inl same ↦
                  rw same
                    (ap (λ k. suc (count_of (lookup k counts))) ((text_eq_iff key day).0 same))
              | inr other ↦ rw other refl
            ])
    ]
  ]
    where
      count : ℕ
      count = count_of (lookup key counts)

      differs : is_nil key ≡ true → text_eq key day ≡ false
      differs undated =
          not_true_of_imp (text_eq key day)
            (λ same. cc ((text_eq_iff key day).0 same, undated, named))

  -- The posts of a day that the loop allows, with those counted before, keep to the limit.
  count_day-sort_posts :
      (now : ℕ) (rules : SubscriptionRules) (counts : TextMap ℕ) (bundles : List FeedBundle)
      (day : Text)
      → is_nil day ≡ false
      → IsWithin rules counts
      → count_day day (sort_posts parse_time format_day now rules counts bundles).0
          + count_of (lookup day counts)
        ≤ limit_of rules
  unfolding sort_posts
  count_day-sort_posts now rules counts [] day named h = ground (arith, h day)
  count_day-sort_posts now rules counts (b ∷ bundles) day named h =
      let rest = count_day-sort_posts now rules counts bundles day named h in
      let counted =
        count_day-sort_posts now rules (reserve_daily_quota key rules.max_items_per_day counts).1
          bundles day named (reserve-IsWithin rules counts key h) in
      elim (Bool-cases (text_eq b.kind (codes "post"))) [
        | inr other ↦ rw other rest
        | inl post ↦
            elim (Bool-cases (matches_subscription_bundle parse_time format_day now b rules)) [
              | inr unmatched ↦ elim (Bool-cases (approval_mode rules)) [
                | inl approves ↦ rw (post, unmatched, approves) rest
                | inr strict ↦ rw (post, unmatched, strict) rest
              ]
              | inl matched ↦
                  elim (Bool-cases (reserve_daily_quota key rules.max_items_per_day counts).0) [
                    | inr full ↦ rw (post, matched, full) rest
                    | inl reserved ↦
                        rw (post, matched, reserved)
                          (ground (
                            arith,
                            counted,
                            reserve-count rules.max_items_per_day counts key day named reserved,
                          ))
                  ]
            ]
      ]
    where
      key : Text
      key = utc_day_key parse_time format_day b.created_at

  -- Of each day, by its key that is not empty, the rules allow no more posts than their limit, or
  -- than the default where they set none.
  pub sort_posts-daily :
      (now : ℕ) (rules : SubscriptionRules) (bundles : List FeedBundle) (day : Text)
      → is_nil day ≡ false
      → count_day day (sort_posts parse_time format_day now rules [] bundles).0
        ≤ or_default default_max_items_per_day rules.max_items_per_day
  sort_posts-daily now rules bundles day named = ground (
    arith,
    count_day-sort_posts now rules [] bundles day named (λ d. unfold lookup in ground arith),
  )
