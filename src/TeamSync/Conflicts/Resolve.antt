-- ===== src/TeamSync/Conflicts/Resolve.antt =====
-- What `ResolveTeamSyncConflict` answers (internal/aip2p/team_sync.go).
use ai_p2p.Prelude.{
  ℕ, ◌≤◌, true, false, not, ◌&&◌, ◌≡◌, refl, ap, sym, Option, some, is_nil, inl, inr, ◌⊎◌,
  Bool-cases, arith,
}
use mathlib.Core.Path.{subst}
use ai_p2p.Prelude.Results.{Result, ok, err, eq_of_ok}
use ai_p2p.Text.{Text, codes, text_eq, trim_space}
use ai_p2p.Text.Laws.{text_eq_iff}
use ai_p2p.TextMap.{lookup, insert}
use ai_p2p.TextMap.Laws.{lookup-insert_self, IsDistinct}
use ai_p2p.Team.Id.{normalize_team_id}
use ai_p2p.Team.Task.{is_zero}
use ai_p2p.TeamSync.Message.{TeamSyncMessage}
use ai_p2p.TeamSync.State.{Conflict, PersistedState}
use ai_p2p.TeamSync.Merge.{replaces}
use ai_p2p.TeamSync.Queue.{write_team_sync_state}
use ai_p2p.TeamSync.Conflicts.{
  ConflictRecord, ResolveError, record_of, resolved_conflict, act, store_resolved, apply_result,
  keeps_local, is_replay_safe, resolve_team_sync_conflict,
}
use ai_p2p.TeamSync.Conflicts.Resolution.{lookup-write_team_sync_state, compact_conflict-recent}

module _ {ℓ} (path_unescape : Text → Option Text) (format_stamp format_rfc3339 : ℕ → Text)
    {S : Type ℓ} (force_apply : TeamSyncMessage → S → Result Text S) where
  -- What is known of an action that succeeds.
  abbrev pub IsActed : ℕ → Text → Conflict → S → S → Type ℓ
  IsActed now action c store after =
      ((keeps_local action ≡ true) × (after ≡ store))
      ⊎ ((action ≡ codes "accept_remote")
          × (is_replay_safe path_unescape format_stamp format_rfc3339 now c ≡ true)
          × (force_apply c.sync store ≡ ok after))

  act-ok :
      (now : ℕ) (action : Text) (c : Conflict) (store after : S)
      → act path_unescape format_stamp format_rfc3339 force_apply now action c store ≡ ok after
      → IsActed now action c store after
  unfolding act
  act-ok now action c store after e = elim (Bool-cases (keeps_local action)) [
    | inl local ↦ inl (local, sym (eq_of_ok ResolveError (rw local at e)))
    | inr remote ↦ elim (Bool-cases (text_eq action (codes "accept_remote"))) [
      | inr unknown ↦ cc (rw (remote, unknown) at e)
      | inl accepts ↦
          elim (Bool-cases (is_replay_safe path_unescape format_stamp format_rfc3339 now c)) [
            | inr unsafe ↦ cc (rw (remote, accepts, unsafe) at e)
            | inl safe ↦ inr (
              (text_eq_iff action (codes "accept_remote")).0 accepts,
              safe,
              applied_ok (force_apply c.sync store) (rw (remote, accepts, safe) at e),
            )
          ]
    ]
  ]
    where
      applied_ok : (o : Result Text S) → apply_result o ≡ ok after → o ≡ ok after
      applied_ok (ok last) h = ap ok (eq_of_ok ResolveError h)
      applied_ok (err failure) h = cc

  -- Such an action is not blank.
  IsActed-named :
      (now : ℕ) (action : Text) (c : Conflict) (store after : S)
      → IsActed now action c store after
      → is_nil (trim_space action) ≡ false
  unfolding trim_space
  IsActed-named now action c store after (inl (local, same)) =
      elim (Bool-cases (text_eq action (codes "dismiss"))) [
        | inl dismissed ↦ rw ((text_eq_iff action (codes "dismiss")).0 dismissed) refl
        | inr other ↦ rw ((text_eq_iff action (codes "keep_local")).0 (rw other at local)) refl
      ]
  IsActed-named now action c store after (inr (accepts, safe, applied)) = rw accepts refl

  lookup-resolved :
      (now : ℕ) (key action actor : Text) (c : Conflict) (file : PersistedState)
      → IsDistinct file.conflicts
      → is_zero now ≡ false
      → lookup key file.conflicts ≡ some c
      → c.updated_at ≤ now
      → is_nil (trim_space action) ≡ false
      → lookup key
          (write_team_sync_state now
            (record file {
              conflicts = insert key (resolved_conflict now action actor c) file.conflicts;
            })
            file).conflicts
        ≡ some (resolved_conflict now action actor c)
  lookup-resolved now key action actor c file d dated there before named =
      lookup-write_team_sync_state now
        (record file { conflicts = insert key resolved file.conflicts }) file key resolved d
        (rw (lookup-insert_self key resolved file.conflicts, there, is_kept) refl)
        (compact_conflict-recent now resolved dated (ground arith))
    where
      resolved : Conflict
      resolved = resolved_conflict now action actor c

      is_kept : replaces resolved c ≡ false
      is_kept = unfold replaces in ground (arith, named, before)

  -- Say that a conflict of the file is resolved without an error, at a time that is not zero nor before
  -- the conflict's last change, and that the keys of the file's conflicts are distinct. Then the action
  -- was to dismiss or to keep the local version, and the store is unchanged, or it was to accept the
  -- remote version, the message is one that can be replayed, and the store has applied it. The file has
  -- the conflict, resolved now by that action, and its record is the answer.
  pub resolve-eq-ok :
      (now : ℕ) (team key action actor : Text) (store after : S) (file last : PersistedState)
      (answer : ConflictRecord) (c : Conflict)
      → IsDistinct file.conflicts
      → is_zero now ≡ false
      → lookup (trim_space key) file.conflicts ≡ some c
      → c.updated_at ≤ now
      → resolve_team_sync_conflict path_unescape format_stamp format_rfc3339 force_apply now team
          key action actor store file
        ≡ ok (answer, after, last)
      → IsActed now (trim_space action) c store after
        × (answer ≡ record_of (resolved_conflict now (trim_space action) actor c))
        × (lookup (trim_space key) last.conflicts
            ≡ some (resolved_conflict now (trim_space action) actor c))
  unfolding resolve_team_sync_conflict
  resolve-eq-ok now team key action actor store after file last answer c d dated there before e =
      elim (Bool-cases (
        not (is_nil team_id)
        && not (text_eq (normalize_team_id path_unescape c.team_id) team_id))) [
          | inl elsewhere ↦ cc (rw (there, elsewhere) at e)
          | inr here ↦
              stored
                (act path_unescape format_stamp format_rfc3339 force_apply now act_text c store)
                refl (rw (there, here) at e)
        ]
    where
      team_id : Text
      team_id = normalize_team_id path_unescape team

      act_text : Text
      act_text = trim_space action

      resolved : Conflict
      resolved = resolved_conflict now act_text actor c

      stored :
          (o : Result ResolveError S)
          → act path_unescape format_stamp format_rfc3339 force_apply now act_text c store ≡ o
          → store_resolved path_unescape format_stamp format_rfc3339 now
              (trim_space key)
              resolved
              file
              o
            ≡ ok (answer, after, last)
          → IsActed now act_text c store after
            × (answer ≡ record_of resolved)
            × (lookup (trim_space key) last.conflicts ≡ some resolved)
      stored (err failure) a h = cc
      stored (ok next) a h =
          let result = eq_of_ok ResolveError h in
          let acted : IsActed now act_text c store next = act-ok now act_text c store next a in
          (
            subst (IsActed now act_text c store) (ap (λ p. p.1) result) acted,
            sym (ap (λ p. p.0) result),
            subst (λ (f : PersistedState). lookup (trim_space key) f.conflicts ≡ some resolved)
                (ap (λ p. p.2) result)
                (lookup-resolved now (trim_space key) act_text actor c file d dated there before
                  (IsActed-named now act_text c store next acted)),
          )
