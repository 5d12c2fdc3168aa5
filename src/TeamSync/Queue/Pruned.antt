-- ===== src/TeamSync/Queue/Pruned.antt =====
-- What the scans do with a message whose key is no longer remembered (internal/aip2p/team_sync.go:
-- `pruneSeen`, `seenKey`, and the loops of the scans).
use ai_p2p.Prelude.{
  ◌∙◌, is_nil, ℕ, ◌+◌, ◌<◌, Bool, true, false, not, ◌≡◌, refl, Option, none, some, arith, inl, inr,
  Bool-cases, ltb, keep, [], ◌∷◌, eq_of_some,
}
use mathlib.Core.Path.{subst}
use ai_p2p.Text.{Text, text_eq, trim_space}
use ai_p2p.Text.Laws.{text_eq_iff}
use ai_p2p.TextMap.{TextMap, lookup}
use ai_p2p.TextMap.Laws.{IsDistinct}
use ai_p2p.Team.Task.{is_zero}
use ai_p2p.TeamSync.Message.{TeamSyncMessage}
use ai_p2p.TeamSync.State.{PendingState}
use ai_p2p.TeamSync.Queue.{
  Runtime, should_retry_pending, seen_key, prune_seen, scan_item, is_waiting,
}

lookup-keep-none :
    {V : Type 0} (p : Text × V → Bool) (key : Text) (m : TextMap V)
    → lookup key m ≡ none
    → lookup key (keep p m) ≡ none
unfolding lookup keep
lookup-keep-none p key [] h = refl
lookup-keep-none p key ((k, v) ∷ m) h = ground (arith, lookup-keep-none p key m)

lookup-keep_gone :
    {V : Type 0} (p : Text × V → Bool) (key : Text) (m : TextMap V) (v : V)
    → IsDistinct m
    → lookup key m ≡ some v
    → p (key, v) ≡ false
    → lookup key (keep p m) ≡ none
unfolding lookup keep
lookup-keep_gone p key [] v d h e = cc
lookup-keep_gone p key ((k, w) ∷ m) v d h e = elim (Bool-cases (text_eq k key)) [
  | inl same ↦
      let equal : k ≡ key = (text_eq_iff k key).0 same in
      let found : w ≡ v = eq_of_some (rw same at h) in
      let dropped : p (k, w) ≡ false = cc (equal, found, e) in
      let fresh : lookup key m ≡ none = subst (λ i. lookup i m ≡ none) equal d.0 in
      rw dropped (lookup-keep-none p key m fresh)
  | inr other ↦
      let rest = lookup-keep_gone p key m v d.1 (rw other at h) e in ground (arith, rest, other)
]

-- A key that was remembered longer ago than the age is forgotten.
seen_key-prune_seen :
    (now max_age at : ℕ) (key : Text) (r : Runtime)
    → IsDistinct r.seen
    → lookup key r.seen ≡ some at
    → at + max_age < now
    → is_zero max_age ≡ false
    → seen_key key (prune_seen now max_age r) ≡ false
unfolding seen_key prune_seen
seen_key-prune_seen now max_age at key r d found old some_age =
    rw
      (
        some_age,
        lookup-keep_gone (λ e. not (ltb (e.1 + max_age) now)) key r.seen at d found (ground arith),
      )
      refl

-- A message that the queue no longer waits for is not sent again, and nothing changes.
should_retry_idle :
    (now : ℕ) (key : Text) (r : Runtime) (item : PendingState)
    → lookup (trim_space key) r.state.pending ≡ some item
    → is_waiting item ≡ false
    → should_retry_pending now key r ≡ (false, r)
unfolding should_retry_pending
should_retry_idle now key r item found idle = elim (Bool-cases (is_nil (trim_space key))) [
  | inl blank ↦ rw blank refl
  | inr named ↦ rw (named, found, idle) refl
]

state-prune_seen : (now max_age : ℕ) (r : Runtime) → (prune_seen now max_age r).state ≡ r.state
unfolding prune_seen
state-prune_seen now max_age r = elim (Bool-cases (is_zero max_age)) [
  | inl forever ↦ rw forever refl
  | inr some_age ↦ rw some_age refl
]

module _ (path_unescape : Text → Option Text) (format_stamp format_rfc3339 : ℕ → Text) where
  -- What a scan after the first one does with a message that the queue does not wait for depends on
  -- whether its key is remembered.
  scan_item_idle :
      (now : ℕ) (key cursor : Text) (version : ℕ) (m : TeamSyncMessage) (r : Runtime)
      (item : PendingState)
      → lookup (trim_space key) r.state.pending ≡ some item
      → is_waiting item ≡ false
      → (scan_item path_unescape format_stamp format_rfc3339 now false true key cursor version m
          r).0
        ≡ not (seen_key key r)
  unfolding scan_item
  scan_item_idle now key cursor version m r item found idle = elim (Bool-cases (seen_key key r)) [
    | inl seen ↦ rw (should_retry_idle now key r item found idle, seen) refl
    | inr unseen ↦ rw (should_retry_idle now key r item found idle, unseen) refl
  ]

  -- Take a message that the queue no longer waits for, as when it is acknowledged, whose key was
  -- remembered at a time `at`, with the keys that are remembered distinct. A scan after the first one
  -- leaves it alone. Once the keys are pruned at a time `now` that is later than `at` by more than the
  -- age, which is not zero, the next scan publishes it once more, if the transport takes it.
  pub scan_item-prune_seen :
      (now later max_age at : ℕ) (key cursor : Text) (version : ℕ) (m : TeamSyncMessage)
      (r : Runtime) (item : PendingState)
      → IsDistinct r.seen
      → lookup key r.seen ≡ some at
      → at + max_age < now
      → is_zero max_age ≡ false
      → lookup (trim_space key) r.state.pending ≡ some item
      → is_waiting item ≡ false
      → ((scan_item path_unescape format_stamp format_rfc3339 later false true key cursor version m
            r).0
          ≡ false)
        × ((scan_item path_unescape format_stamp format_rfc3339 later false true key cursor version
              m
              (prune_seen now max_age r)).0
            ≡ true)
  scan_item-prune_seen now later max_age at key cursor version m r item d seen old some_age found
        idle =
      (
        scan_item_idle later key cursor version m r item found idle
            ∙ (unfold seen_key in rw seen refl),
        scan_item_idle later key cursor version m (prune_seen now max_age r) item
              (rw (state-prune_seen now max_age r) found) idle
            ∙ rw (seen_key-prune_seen now max_age at key r d seen old some_age) refl,
      )
