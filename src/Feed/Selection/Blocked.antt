-- ===== src/Feed/Selection/Blocked.antt =====
-- The keys that the rules block (internal/plugins/aip2p/subscriptions.go: `ApplySubscriptionRules`,
-- `matchPublicKeyFilters`, `uniqueNormalizedPublicKeys`, `lookupContains`).
use ai_p2p.Prelude.{
  ℕ, ◌==◌, Bool, true, false, ◌&&◌, ◌||◌, ◌≡◌, refl, sym, ap, ◌∙◌, List, [], ◌∷◌, is_nil, length,
  any, any-imp, Option, arith, inl, inr, Bool-cases, All, not_true_of_imp,
}
use ai_p2p.Text.{Text, codes, text_eq, trim_space, to_lower, contains}
use ai_p2p.Text.Laws.{
  text_eq_iff, text_eq_refl, trim_space_idem, trim_space-to_lower, to_lower_idem, contains-cons,
}
use ai_p2p.TextMap.{TextMap}
use ai_p2p.Feed.Rules.{
  SubscriptionRules, all_hex, normalize_public_key, unique_by, unique_normalized_public_keys,
  lower_trimmed, fold_lookup_set, lookup_contains, normalize_rules,
}
use ai_p2p.Feed.Limits.{utc_day_key, reserve_daily_quota}
use ai_p2p.Feed.Selection.{
  FeedBundle, matches_subscription_bundle, match_public_key_filters, sort_posts, approval_mode,
}

-- A public key is written in 64 hexadecimal digits.
abbrev pub is_key : Text → Bool
is_key value = length value == 64 && all_hex value

-- A list names a public key, up to case and to the blanks around it.
unfoldable pub names_key : List Text → Text → Bool
unfolding any
names_key items raw =
    is_key (lower_trimmed raw)
    && any (λ item. text_eq (lower_trimmed item) (lower_trimmed raw)) items

normalize_public_key_of_key :
    (raw : Text) → is_key (lower_trimmed raw) ≡ true → normalize_public_key raw ≡ lower_trimmed raw
unfolding normalize_public_key
normalize_public_key_of_key raw h = ground (arith, h)

key-full : (value : Text) → is_key value ≡ true → is_nil value ≡ false
key-full [] h = cc
key-full (c ∷ s) h = refl

trim_space-lower_trimmed : (raw : Text) → trim_space (lower_trimmed raw) ≡ lower_trimmed raw
trim_space-lower_trimmed raw =
    trim_space-to_lower (trim_space raw) ∙ ap to_lower (trim_space_idem raw)

lower_trimmed_idem : (raw : Text) → lower_trimmed (lower_trimmed raw) ≡ lower_trimmed raw
lower_trimmed_idem raw = ap to_lower (trim_space-lower_trimmed raw) ∙ to_lower_idem (trim_space raw)

-- What some item becomes is kept, or was seen before.
contains-unique_by :
    (change : Text → Text) (seen items : List Text) (x : Text)
    → is_nil x ≡ false
    → any (λ item. text_eq (change item) x) items ≡ true
    → (contains (unique_by change (λ item. item) seen items) x || contains seen x) ≡ true
unfolding unique_by any
contains-unique_by change seen [] x full h = cc
contains-unique_by change seen (raw ∷ items) x full h = elim (Bool-cases (text_eq (change raw) x)) [
  | inl same ↦
      let e = (text_eq_iff (change raw) x).0 same in
      elim (Bool-cases (contains seen x)) [
        | inl old ↦ ground (arith, old)
        | inr new ↦
            rw
              (
                e,
                full,
                new,
                contains-cons x (unique_by change (λ item. item) (x ∷ seen) items) x,
                text_eq_refl x,
              )
              refl
      ]
  | inr other ↦
      let rest = rw other at h in
      ground (
        arith,
        other,
        contains-unique_by change seen items x full rest,
        contains-unique_by change (change raw ∷ seen) items x full rest,
        contains-cons (change raw) seen x,
        contains-cons (change raw) (unique_by change (λ item. item) (change raw ∷ seen) items) x,
      )
]

some_of_contains : (set : List Text) (x : Text) → contains set x ≡ true → is_nil set ≡ false
unfolding contains any
some_of_contains [] x h = cc
some_of_contains (i ∷ set) x h = refl

contains-nil_or : (set : List Text) (x : Text) → (contains set x || contains [] x) ≡ contains set x
unfolding contains any
contains-nil_or set x = ground arith

-- A key that a list names is found in the normal form of the list.
lookup_contains-normal :
    (items : List Text) (raw : Text)
    → names_key items raw ≡ true
    → lookup_contains (unique_normalized_public_keys items) (normalize_public_key raw) ≡ true
unfolding names_key lookup_contains unique_normalized_public_keys fold_lookup_set
lookup_contains-normal items raw h =
    rw
      (
        normalize_public_key_of_key raw key,
        trim_space-lower_trimmed raw,
        key-full (lower_trimmed raw) key,
        to_lower_idem (trim_space raw),
        some_of_contains _ (lower_trimmed raw) found,
      )
      found
  where
    key : is_key (lower_trimmed raw) ≡ true
    key = ground (arith, h)

    listed : any (λ item. text_eq (lower_trimmed item) (lower_trimmed raw)) items ≡ true
    listed = ground (arith, h)

    normal :
        (item : Text)
        → text_eq (lower_trimmed item) (lower_trimmed raw) ≡ true
        → text_eq (normalize_public_key item) (lower_trimmed raw) ≡ true
    normal item same =
        let e = (text_eq_iff (lower_trimmed item) (lower_trimmed raw)).0 same in
        (text_eq_iff (normalize_public_key item) (lower_trimmed raw)).1
          (normalize_public_key_of_key item (rw e key) ∙ e)

    kept :
        contains (unique_by normalize_public_key (λ item. item) [] items) (lower_trimmed raw) ≡ true
    kept =
        sym (contains-nil_or _ (lower_trimmed raw))
        ∙ contains-unique_by normalize_public_key [] items (lower_trimmed raw)
            (key-full (lower_trimmed raw) key)
            (any-imp (λ item. text_eq (lower_trimmed item) (lower_trimmed raw))
              (λ item. text_eq (normalize_public_key item) (lower_trimmed raw)) items normal listed)

    refolded :
        (item : Text)
        → text_eq item (lower_trimmed raw) ≡ true
        → text_eq (lower_trimmed item) (lower_trimmed raw) ≡ true
    refolded item same =
        let e = (text_eq_iff item (lower_trimmed raw)).0 same in
        (text_eq_iff (lower_trimmed item) (lower_trimmed raw)).1
          (ap lower_trimmed e ∙ lower_trimmed_idem raw)

    found :
        contains
          (unique_by lower_trimmed
            (λ item. item)
            []
            (unique_by normalize_public_key (λ item. item) [] items))
          (lower_trimmed raw)
        ≡ true
    found =
        sym (contains-nil_or _ (lower_trimmed raw))
        ∙ contains-unique_by lower_trimmed [] _ (lower_trimmed raw)
            (key-full (lower_trimmed raw) key)
            (any-imp (λ item. text_eq item (lower_trimmed raw))
              (λ item. text_eq (lower_trimmed item) (lower_trimmed raw))
              (unique_by normalize_public_key (λ item. item) [] items) refolded
              (unfold contains in kept))

module _ (parse_time : Text → Option ℕ) (format_day : ℕ → Text) where
  -- The rules, as they are written, name neither the key of the bundle's origin nor that of its parent
  -- on their lists of blocked keys.
  abbrev pub IsUnblocked : SubscriptionRules → FeedBundle → Type 0
  IsUnblocked rules b =
      (names_key rules.blocked_origin_keys b.origin_key ≡ false)
      × (names_key rules.blocked_parent_keys b.parent_key ≡ false)

  matches-IsUnblocked :
      (now : ℕ) (b : FeedBundle) (rules : SubscriptionRules)
      → matches_subscription_bundle parse_time format_day now b rules ≡ true
      → IsUnblocked rules b
  unfolding matches_subscription_bundle match_public_key_filters normalize_rules
  matches-IsUnblocked now b rules matched = (
    not_true_of_imp (names_key rules.blocked_origin_keys b.origin_key)
        (λ h. cc (rw (lookup_contains-normal rules.blocked_origin_keys b.origin_key h) at matched)),
    not_true_of_imp (names_key rules.blocked_parent_keys b.parent_key)
        (λ h. cc (refuted (lookup_contains-normal rules.blocked_parent_keys b.parent_key h))),
  )
    where
      refuted :
          lookup_contains
              (unique_normalized_public_keys rules.blocked_parent_keys)
              (normalize_public_key b.parent_key)
            ≡ true
          → false ≡ true
      refuted h =
          elim (Bool-cases (
            lookup_contains (unique_normalized_public_keys rules.blocked_origin_keys)
              (normalize_public_key b.origin_key))) [
                | inl origin ↦ rw origin at matched
                | inr other ↦ rw (other, h) at matched
              ]

  -- No post is allowed whose origin's or parent's key, of 64 hexadecimal digits, is on the list of
  -- blocked keys for origins or for parents, up to case and to the blanks around it, whatever the other
  -- lists of the rules say, the lists of allowed keys among them, and whatever was counted before.
  pub sort_posts-IsUnblocked :
      (now : ℕ) (rules : SubscriptionRules) (counts : TextMap ℕ) (bundles : List FeedBundle)
      → All (IsUnblocked rules) (sort_posts parse_time format_day now rules counts bundles).0
  unfolding sort_posts
  sort_posts-IsUnblocked now rules counts [] = tt
  sort_posts-IsUnblocked now rules counts (b ∷ bundles) =
      let rest = sort_posts-IsUnblocked now rules counts bundles in
      let counted =
        sort_posts-IsUnblocked now rules (reserve_daily_quota key rules.max_items_per_day counts).1
          bundles in
      elim (Bool-cases (text_eq b.kind (codes "post"))) [
        | inr other ↦ rw other rest
        | inl post ↦
            elim (Bool-cases (matches_subscription_bundle parse_time format_day now b rules)) [
              | inr unmatched ↦ elim (Bool-cases (approval_mode rules)) [
                | inl approves ↦ rw (post, unmatched, approves) rest
                | inr strict ↦ rw (post, unmatched, strict) rest
              ]
              | inl matched ↦
                  elim (Bool-cases (reserve_daily_quota key rules.max_items_per_day counts).0) [
                    | inr full ↦ rw (post, matched, full) rest
                    | inl reserved ↦
                        rw (post, matched, reserved)
                          (matches-IsUnblocked now b rules matched, counted)
                  ]
            ]
      ]
    where
      key : Text
      key = utc_day_key parse_time format_day b.created_at
