-- ===== src/TeamSync/Conflicts/Resolution.antt =====
-- What is found of a conflict after a write (internal/aip2p/team_sync.go: `writeTeamSyncState`,
-- `mergeTeamSyncConflictState`).
use ai_p2p.Prelude.{
  ℕ, ◌<◌, ◌+◌, true, false, ◌≡◌, refl, ◌∙◌, some, is_nil, inl, inr, Bool-cases, arith,
}
use ai_p2p.Text.{Text, trim_space}
use ai_p2p.TextMap.{lookup}
use ai_p2p.TextMap.Laws.{IsDistinct}
use ai_p2p.Team.Task.{is_zero}
use ai_p2p.TeamSync.State.{Conflict, PersistedState, conflict_resolved_ttl}
use ai_p2p.TeamSync.Compact.{compact_conflict, compact_team_sync_state, rewrite_entries}
use ai_p2p.TeamSync.Compact.Laws.{lookup-rewrite_kept}
use ai_p2p.TeamSync.Merge.{merge_team_sync_state, merge_conflicts, replaces}
use ai_p2p.TeamSync.Merge.Laws.{lookup-merge_entries, better}
use ai_p2p.TeamSync.Queue.{Runtime, save_state, write_team_sync_state}

-- The conflicts after a write: the merge with the file's, compacted.
conflicts-write_team_sync_state :
    (now : ℕ) (s file : PersistedState)
    → (write_team_sync_state now s file).conflicts
      ≡ rewrite_entries (λ key. compact_conflict now) (merge_conflicts s.conflicts file.conflicts)
unfolding write_team_sync_state compact_team_sync_state merge_team_sync_state
conflicts-write_team_sync_state now s file = refl

-- A conflict that the compaction keeps, and that the file's copy does not replace, stays.
pub lookup-write_team_sync_state :
    (now : ℕ) (s file : PersistedState) (key : Text) (c : Conflict)
    → IsDistinct file.conflicts
    → better replaces (lookup key s.conflicts) (lookup key file.conflicts) ≡ some c
    → compact_conflict now c ≡ some c
    → lookup key (write_team_sync_state now s file).conflicts ≡ some c
lookup-write_team_sync_state now s file key c d merged kept =
    rw (conflicts-write_team_sync_state now s file) (
      lookup-rewrite_kept (λ k. compact_conflict now) key
        (merge_conflicts s.conflicts file.conflicts) {v = c}
        (unfold merge_conflicts in
          lookup-merge_entries replaces key s.conflicts file.conflicts d ∙ merged)
        kept)

-- The compaction keeps a conflict that was resolved less than a day ago.
pub compact_conflict-recent :
    (now : ℕ) (c : Conflict)
    → is_zero c.resolved_at ≡ false
    → now < c.resolved_at + conflict_resolved_ttl
    → compact_conflict now c ≡ some c
unfolding compact_conflict
compact_conflict-recent now c dated recent = elim (Bool-cases (is_nil (trim_space c.resolution))) [
  | inl unresolved ↦ rw unresolved refl
  | inr resolved ↦ rw resolved (ground arith)
]

-- A resolution in the file reaches a running node. A conflict of the file, where the keys are
-- distinct, has a time of resolution that is not zero; the node saves, less than a day after that
-- time, a state with a copy of the conflict that is not resolved and was changed earlier. After
-- the save the conflict of the file is under the key in memory and in the file.
pub lookup-save_state_resolved :
    (now : ℕ) (s : PersistedState) (r : Runtime) (key : Text) (old resolved : Conflict)
    → IsDistinct r.file.conflicts
    → lookup key r.file.conflicts ≡ some resolved
    → lookup key s.conflicts ≡ some old
    → is_nil (trim_space old.resolution) ≡ true
    → old.updated_at < resolved.updated_at
    → is_zero resolved.resolved_at ≡ false
    → now < resolved.resolved_at + conflict_resolved_ttl
    → (lookup key (save_state now s r).state.conflicts ≡ some resolved)
      × (lookup key (save_state now s r).file.conflicts ≡ some resolved)
unfolding save_state
lookup-save_state_resolved now s r key old resolved d stored kept unresolved newer dated recent =
    (written, written)
  where
    in_memory : lookup key (compact_team_sync_state now s).conflicts ≡ some old
    in_memory =
        unfold compact_team_sync_state in
        lookup-rewrite_kept (λ k. compact_conflict now) key s.conflicts kept
          (unfold compact_conflict in rw unresolved refl)

    is_replaced : replaces old resolved ≡ true
    is_replaced = unfold replaces in ground (arith, newer)

    written :
        lookup key (write_team_sync_state now (compact_team_sync_state now s) r.file).conflicts
        ≡ some resolved
    written =
        lookup-write_team_sync_state now (compact_team_sync_state now s) r.file key resolved d
          (rw (in_memory, stored, is_replaced) refl)
          (compact_conflict-recent now resolved dated recent)
