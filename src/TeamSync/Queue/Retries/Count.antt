-- ===== src/TeamSync/Queue/Retries/Count.antt =====
-- The count of a message that is sent again, under the steps of a publication
-- (internal/aip2p/team_sync.go: `bumpPendingRetry`, `persistPublished`, `compactTeamSyncState`).
use ai_p2p.Prelude.{
  ℕ, suc, ◌<◌, Bool, true, false, ◌||◌, ◌≡◌, refl, sym, ◌∙◌, Option, some, if◌then◌else◌, arith,
  inl, inr, is_nil, Bool-cases, Option-cases,
}
use mathlib.Core.Path.{subst}
use ai_p2p.Text.{Text, text_eq, trim_space}
use ai_p2p.Text.Laws.{text_eq_refl}
use ai_p2p.TextMap.{TextMap, lookup, insert}
use ai_p2p.TextMap.Laws.{lookup-insert_self}
use ai_p2p.Team.Task.{is_zero, or_text}
use ai_p2p.TeamSync.Message.{
  TeamSyncMessage, team_sync_type, normalize_sync, sync_key, team_sync_state_key,
}
use ai_p2p.TeamSync.State.{
  Checkpoint, PendingState, PersistedState, pending_status, pending_max_retry, resolved_ttl,
  set_checkpoint, Bucket, bucket, read_bucket, write_bucket,
}
use ai_p2p.TeamSync.Compact.{compact_pending, is_older, is_spent, rewrite_entries}
use ai_p2p.TeamSync.Compact.Laws.{lookup-rewrite_kept}
use ai_p2p.TeamSync.Queue.{
  Runtime, save_state, update_pending, bump_pending_retry, should_retry_pending, is_waiting,
  remember_seen, supersede, put_pending, is_ack, persist_checkpoint, persist_pending,
  persist_published, retried,
}
use ai_p2p.TeamSync.Queue.Pending.{pending-save_state}

-- The message under a key was sent again `count` times, the last time now.
abbrev pub HasCount : ℕ → Text → ℕ → TextMap PendingState → Type 0
HasCount now key count m =
    (item : PendingState) × (lookup key m ≡ some item)
    × (item.retry_count ≡ count)
    × (item.updated_at ≡ now)

compact_pending_now :
    (now : ℕ) (item : PendingState)
    → item.updated_at ≡ now
    → (w : PendingState) × (compact_pending now item ≡ some w)
      × (w.retry_count ≡ item.retry_count)
      × (w.updated_at ≡ now)
unfolding compact_pending
compact_pending_now now item e =
    elim (Bool-cases (text_eq (or_text (trim_space item.status) pending_status) pending_status)) [
      | inl waiting ↦ elim (Bool-cases (is_spent now item)) [
        | inl spent ↦ rw (waiting, spent) (_, refl, refl, refl)
        | inr fresh ↦ rw (waiting, fresh) (item, refl, refl, e)
      ]
      | inr done ↦
          let fresh : is_older resolved_ttl now item.updated_at ≡ false = ground arith in
          rw (done, fresh) (item, refl, refl, e)
    ]

compacted-HasCount :
    (now : ℕ) (key : Text) (count : ℕ) (m : TextMap PendingState)
    → HasCount now key count m
    → HasCount now key count (rewrite_entries (λ k. compact_pending now) m)
compacted-HasCount now key count m (item, found, e, t) =
    let (w, kept, same, at) = compact_pending_now now item t in
    (w, lookup-rewrite_kept (λ k. compact_pending now) key m found kept, same ∙ e, at)

save_state-HasCount :
    (now : ℕ) (key : Text) (count : ℕ) (s : PersistedState) (r : Runtime)
    → HasCount now key count s.pending
    → HasCount now key count (save_state now s r).state.pending
save_state-HasCount now key count s r h = rw (pending-save_state now s r) (
    compacted-HasCount now key count (rewrite_entries (λ k. compact_pending now) s.pending)
      (compacted-HasCount now key count s.pending h))

pending-write_bucket :
    (b : Bucket) (m : TextMap Checkpoint) (s : PersistedState)
    → (write_bucket b m s).pending ≡ s.pending
unfolding write_bucket
pending-write_bucket Bucket.messages m s = refl
pending-write_bucket Bucket.history m s = refl
pending-write_bucket Bucket.tasks m s = refl
pending-write_bucket Bucket.artifacts m s = refl
pending-write_bucket Bucket.members m s = refl
pending-write_bucket Bucket.policies m s = refl
pending-write_bucket Bucket.channels m s = refl
pending-write_bucket Bucket.acks m s = refl

pending-set_checkpoint :
    (key : Text) (c : Checkpoint) (s : PersistedState)
    → (set_checkpoint key c s).pending ≡ s.pending
unfolding set_checkpoint
pending-set_checkpoint key c s =
    pending-write_bucket (bucket key) (insert key c (read_bucket (bucket key) s)) s

pub bump_pending_retry-HasCount :
    (now : ℕ) (key : Text) (r : Runtime) (item : PendingState)
    → trim_space key ≡ key
    → is_nil key ≡ false
    → lookup key r.state.pending ≡ some item
    → HasCount now key (suc item.retry_count) (bump_pending_retry now key r).state.pending
unfolding bump_pending_retry update_pending
bump_pending_retry-HasCount now key r item trimmed named found =
    rw (trimmed, named, found)
      (save_state-HasCount now key (suc item.retry_count)
        (record r.state { pending = insert key (retried now item) r.state.pending }) r
        (retried now item, lookup-insert_self key (retried now item) r.state.pending, refl, refl))

put_pending-HasCount :
    (now : ℕ) (key cursor : Text) (version count : ℕ) (m : TextMap PendingState)
    → HasCount now key count m
    → HasCount now key count (put_pending now key cursor version m)
unfolding put_pending supersede
put_pending-HasCount now key cursor version count m (item, found, e, t) =
    rw
      (lookup-rewrite_kept (supersede now key cursor) key m {w = item} found
        (rw (text_eq_refl key) refl))
      (_, lookup-insert_self key _ (rewrite_entries (supersede now key cursor) m), e, refl)

-- A message that is sent again was found, had been sent again fewer times than the limit, and the
-- decision changes nothing.
pub should_retry-yes :
    (now : ℕ) (key : Text) (r : Runtime)
    → (should_retry_pending now key r).0 ≡ true
    → (is_nil (trim_space key) ≡ false)
      × ((should_retry_pending now key r).1 ≡ r)
      × ((item : PendingState) × (lookup (trim_space key) r.state.pending ≡ some item)
          × (item.retry_count < pending_max_retry))
unfolding should_retry_pending
should_retry-yes now key r h = elim (Bool-cases (is_nil k)) [
  | inl blank ↦ cc (rw blank at h)
  | inr named ↦ elim (Option-cases (lookup k r.state.pending)) [
    | inl gone ↦ cc (rw (named, gone) at h)
    | inr (item, found) ↦ elim (Bool-cases (is_waiting item)) [
      | inr idle ↦ cc (rw (named, found, idle) at h)
      | inl waits ↦ elim (Bool-cases (is_spent now item)) [
        | inl spent ↦ cc (rw (named, found, waits, spent) at h)
        | inr fresh ↦ (named, rw (named, found, waits, fresh) refl, (item, found, below item fresh))
      ]
    ]
  ]
]
  where
    k : Text
    k = trim_space key

    below : (item : PendingState) → is_spent now item ≡ false → item.retry_count < pending_max_retry
    below item h = unfold is_spent in ground (arith, h)

pub state-remember_seen :
    (now : ℕ) (key : Text) (r : Runtime) → (remember_seen now key r).state ≡ r.state
unfolding remember_seen
state-remember_seen now key r = elim (Bool-cases (is_nil (trim_space key))) [
  | inl blank ↦ rw blank refl
  | inr named ↦ rw named refl
]

module _ (path_unescape : Text → Option Text) (format_stamp format_rfc3339 : ℕ → Text) where
  persist_checkpoint-HasCount :
      (now : ℕ) (m : TeamSyncMessage) (version : ℕ) (is_applied : Bool) (r : Runtime) (key : Text)
      (count : ℕ)
      → HasCount now key count r.state.pending
      → HasCount now key count
          (persist_checkpoint path_unescape format_stamp format_rfc3339 now m version is_applied
            r).state.pending
  unfolding persist_checkpoint set_checkpoint
  persist_checkpoint-HasCount now m version is_applied r key count h =
      elim (Bool-cases (is_nil state_key || is_zero version)) [
        | inl stop ↦ rw stop h
        | inr go ↦ rw go (saved is_applied)
      ]
    where
      state_key : Text
      state_key = team_sync_state_key path_unescape format_stamp format_rfc3339 now m

      checkpoint : Checkpoint
      checkpoint = record {
        version_at = version;
        key = sync_key path_unescape format_stamp format_rfc3339 m;
        updated_at = 0;
      }

      applied : PersistedState
      applied = record r.state { applied = insert state_key checkpoint r.state.applied }

      cursor : PersistedState
      cursor = set_checkpoint state_key checkpoint r.state

      saved :
          (b : Bool)
          → HasCount now key count (save_state now (if b then applied else cursor) r).state.pending
      saved true = save_state-HasCount now key count applied r h
      saved false = save_state-HasCount now key count cursor r (
          subst (HasCount now key count) (sym (pending-set_checkpoint state_key checkpoint r.state))
            h)

  persist_pending-HasCount :
      (now : ℕ) (m : TeamSyncMessage) (version : ℕ) (r : Runtime) (key : Text) (count : ℕ)
      → trim_space (sync_key path_unescape format_stamp format_rfc3339 m) ≡ key
      → HasCount now key count r.state.pending
      → HasCount now key count
          (persist_pending path_unescape format_stamp format_rfc3339 now m version r).state.pending
  unfolding persist_pending
  persist_pending-HasCount now m version r key count e h =
      elim (Bool-cases (is_nil key || is_zero version)) [
        | inl stop ↦ rw (e, stop) h
        | inr go ↦
            rw (e, go)
              (save_state-HasCount now key count
                (record r.state { pending = put_pending now key cursor version r.state.pending }) r
                (put_pending-HasCount now key cursor version count r.state.pending h))
      ]
    where
      cursor : Text
      cursor = team_sync_state_key path_unescape format_stamp format_rfc3339 now m

  pub persist_published-HasCount :
      (now : ℕ) (m : TeamSyncMessage) (version : ℕ) (r : Runtime) (key : Text) (count : ℕ)
      → trim_space (sync_key path_unescape format_stamp format_rfc3339 m) ≡ key
      → HasCount now key count r.state.pending
      → HasCount now key count
          (persist_published path_unescape format_stamp format_rfc3339 now m version
            r).state.pending
  unfolding persist_published
  persist_published-HasCount now m version r key count e h =
      elim (Bool-cases (
        is_ack
          (team_sync_type (normalize_sync path_unescape format_stamp format_rfc3339 now m).kind))) [
            | inl acknowledges ↦ rw acknowledges checkpointed
            | inr waits ↦ rw waits (
                persist_pending-HasCount now m version
                  (persist_checkpoint path_unescape format_stamp format_rfc3339 now m version false
                    r)
                  key count e checkpointed)
          ]
    where
      checkpointed :
          HasCount now key count
            (persist_checkpoint path_unescape format_stamp format_rfc3339 now m version false
              r).state.pending
      checkpointed = persist_checkpoint-HasCount now m version false r key count h
