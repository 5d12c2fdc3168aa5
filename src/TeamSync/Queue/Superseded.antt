-- ===== src/TeamSync/Queue/Superseded.antt =====
-- Of the messages of one cursor, only the newest waits (internal/aip2p/team_sync.go:
-- `persistPending`).
use ai_p2p.Prelude.{
  ℕ, false, ◌≡◌, refl, sym, Option, some, ◌⊎◌, inl, inr, is_nil, Bool-cases, All, eq_of_some,
}
use mathlib.Core.Path.{subst}
use ai_p2p.Text.{Text, text_eq, trim_space}
use ai_p2p.Text.Laws.{text_eq_iff}
use ai_p2p.TextMap.{TextMap, lookup}
use ai_p2p.TextMap.Laws.{insert-All}
use ai_p2p.Team.Task.{is_zero, or_text}
use ai_p2p.TeamSync.Message.{TeamSyncMessage, sync_key, team_sync_state_key}
use ai_p2p.TeamSync.State.{
  PendingState, PersistedState, pending_status, expired_status, superseded_status, resolved_ttl,
}
use ai_p2p.TeamSync.Compact.{compact_pending, is_older, is_spent, rewrite_entries}
use ai_p2p.TeamSync.Compact.Laws.{rewrite_entries-All, rewrite_entries-All_of}
use ai_p2p.TeamSync.Queue.{Runtime, supersede, put_pending, persist_pending, pending_or_none}
use ai_p2p.TeamSync.Queue.Pending.{pending-save_state}

-- Under the key itself everything may stand; another message of the cursor does not wait.
abbrev pub IsSuperseded : Text → Text → Text → PendingState → Type 0
IsSuperseded key cursor k item =
    (k ≡ key)
    ⊎ ((text_eq (trim_space item.state_key) cursor ≡ false)
        ⊎ (text_eq (trim_space item.status) pending_status ≡ false))

expired-pending_no : text_eq (trim_space expired_status) pending_status ≡ false
unfolding text_eq trim_space
expired-pending_no = refl

superseded-pending_no : text_eq (trim_space superseded_status) pending_status ≡ false
unfolding text_eq trim_space
superseded-pending_no = refl

-- What the compaction keeps is as it was, or has expired now.
compact_pending-cases :
    (now : ℕ) (item w : PendingState)
    → compact_pending now item ≡ some w
    → (w ≡ item) ⊎ (w ≡ record item { status = expired_status; updated_at = now })
unfolding compact_pending
compact_pending-cases now item w e = elim (Bool-cases (text_eq status pending_status)) [
  | inl waiting ↦ elim (Bool-cases (is_spent now item)) [
    | inl spent ↦ inr (sym (eq_of_some (rw (waiting, spent) at e)))
    | inr fresh ↦ inl (sym (eq_of_some (rw (waiting, fresh) at e)))
  ]
  | inr done ↦ elim (Bool-cases (is_older resolved_ttl now item.updated_at)) [
    | inl old ↦ cc (rw (done, old) at e)
    | inr recent ↦ inl (sym (eq_of_some (rw (done, recent) at e)))
  ]
]
  where
    status : Text
    status = or_text (trim_space item.status) pending_status

compact_pending-IsSuperseded :
    (now : ℕ) (key cursor k : Text) (v w : PendingState)
    → IsSuperseded key cursor k v
    → compact_pending now v ≡ some w
    → IsSuperseded key cursor k w
compact_pending-IsSuperseded now key cursor k v w h e = elim (compact_pending-cases now v w e) [
  | inl same ↦ subst (IsSuperseded key cursor k) (sym same) h
  | inr expired ↦ subst (IsSuperseded key cursor k) (sym expired) (inr (inr expired-pending_no))
]

supersede-IsSuperseded :
    (now : ℕ) (key cursor k : Text) (v w : PendingState)
    → supersede now key cursor k v ≡ some w
    → IsSuperseded key cursor k w
unfolding supersede
supersede-IsSuperseded now key cursor k v w e = elim (Bool-cases (text_eq k key)) [
  | inl same ↦ inl ((text_eq_iff k key).0 same)
  | inr other ↦ elim (Bool-cases (text_eq (trim_space v.state_key) cursor)) [
    | inl on_cursor ↦ elim (Bool-cases (text_eq (trim_space v.status) pending_status)) [
      | inl waits ↦ by_value (rw (other, on_cursor, waits) at e) (inr (inr superseded-pending_no))
      | inr waits_no ↦ by_value (rw (other, on_cursor, waits_no) at e) (inr (inr waits_no))
    ]
    | inr elsewhere ↦ by_value (rw (other, elsewhere) at e) (inr (inl elsewhere))
  ]
]
  where
    by_value :
        {u : PendingState}
        → some u ≡ some w
        → IsSuperseded key cursor k u
        → IsSuperseded key cursor k w
    by_value h b = subst (IsSuperseded key cursor k) (eq_of_some h) b

put_pending-IsSuperseded :
    (now : ℕ) (key cursor : Text) (version : ℕ) (m : TextMap PendingState)
    → All (λ e. IsSuperseded key cursor e.0 e.1) (put_pending now key cursor version m)
unfolding put_pending
put_pending-IsSuperseded now key cursor version m =
    insert-All (IsSuperseded key cursor) key
      (record (pending_or_none (lookup key others)) {
        version_at = version;
        key = key;
        state_key = cursor;
        status = pending_status;
        updated_at = now;
      })
      others (inl refl)
      (rewrite_entries-All (IsSuperseded key cursor) (supersede now key cursor)
        (supersede-IsSuperseded now key cursor) m)
  where
    others : TextMap PendingState
    others = rewrite_entries (supersede now key cursor) m

module _ (path_unescape : Text → Option Text) (format_stamp format_rfc3339 : ℕ → Text) where
  -- When a message whose key is not blank and whose version is not zero is recorded as waiting, no
  -- other message of its cursor has the status `pending` any more.
  pub persist_pending-supersedes :
      (now : ℕ) (m : TeamSyncMessage) (version : ℕ) (r : Runtime)
      → is_nil (trim_space (sync_key path_unescape format_stamp format_rfc3339 m)) ≡ false
      → is_zero version ≡ false
      → All
          (λ e.
            IsSuperseded
              (trim_space (sync_key path_unescape format_stamp format_rfc3339 m))
              (team_sync_state_key path_unescape format_stamp format_rfc3339 now m)
              e.0
              e.1)
          (persist_pending path_unescape format_stamp format_rfc3339 now m version r).state.pending
  unfolding persist_pending
  persist_pending-supersedes now m version r named dated =
      rw (named, dated, pending-save_state now changed r)
        (compacted (rewrite_entries f changed.pending) (
          compacted changed.pending
            (put_pending-IsSuperseded now key cursor version r.state.pending)))
    where
      key : Text
      key = trim_space (sync_key path_unescape format_stamp format_rfc3339 m)

      cursor : Text
      cursor = team_sync_state_key path_unescape format_stamp format_rfc3339 now m

      changed : PersistedState
      changed = record r.state { pending = put_pending now key cursor version r.state.pending }

      f : Text → PendingState → Option PendingState
      f k = compact_pending now

      compacted :
          (m : TextMap PendingState)
          → All (λ e. IsSuperseded key cursor e.0 e.1) m
          → All (λ e. IsSuperseded key cursor e.0 e.1) (rewrite_entries f m)
      compacted =
          rewrite_entries-All_of (IsSuperseded key cursor) f
            (compact_pending-IsSuperseded now key cursor)
