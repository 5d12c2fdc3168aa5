-- ===== src/TeamSync/Conflicts/Refusal.antt =====
-- What `ResolveTeamSyncConflict` refuses as invalid (internal/aip2p/team_sync.go).
use ai_p2p.Prelude.{
  ℕ, Bool, true, false, not, ◌&&◌, ◌||◌, ◌≡◌, refl, sym, Option, some, is_nil, List, [], ◌∷◌, any,
  inl, inr, ◌↔◌, Bool-cases, arith,
}
use ai_p2p.Prelude.Results.{Result, ok, err}
use ai_p2p.Text.{Text, codes, text_eq, trim_space, contains}
use ai_p2p.Text.Laws.{text_eq_iff, text_eq_comm}
use ai_p2p.TextMap.{lookup}
use ai_p2p.Team.Id.{normalize_team_id}
use ai_p2p.TeamSync.Message.{TeamSyncMessage, team_sync_type, normalize_sync}
use ai_p2p.TeamSync.State.{Conflict, PersistedState}
use ai_p2p.TeamSync.Conflicts.{
  ResolveError, resolved_conflict, act, store_resolved, apply_result, keeps_local, is_replayed,
  is_replay_safe, resolve_team_sync_conflict,
}

-- The types of the messages that can be replayed, by their names.
abbrev pub replayed_kinds : List Text
replayed_kinds =
    codes "task"
    ∷ codes "artifact"
    ∷ codes "member"
    ∷ codes "policy"
    ∷ codes "channel"
    ∷ codes "channel_config"
    ∷ []

message-contains : contains replayed_kinds (codes "message") ≡ false
unfolding contains any text_eq
message-contains = refl

history-contains : contains replayed_kinds (codes "history") ≡ false
unfolding contains any text_eq
history-contains = refl

is_replayed-contains :
    (kind : Text) → is_replayed (team_sync_type kind) ≡ contains replayed_kinds kind
unfolding team_sync_type
is_replayed-contains kind = elim (Bool-cases (text_eq kind (codes "message"))) [
  | inl e ↦ rw e (sym (rw ((text_eq_iff kind (codes "message")).0 e) message-contains))
  | inr first ↦ elim (Bool-cases (text_eq kind (codes "history"))) [
    | inl e ↦ rw (first, e) (sym (rw ((text_eq_iff kind (codes "history")).0 e) history-contains))
    | inr second ↦
        rw (first, second)
          (unfold contains any in
            rw
              (
                text_eq_comm (codes "task") kind,
                text_eq_comm (codes "artifact") kind,
                text_eq_comm (codes "member") kind,
                text_eq_comm (codes "policy") kind,
                text_eq_comm (codes "channel") kind,
                text_eq_comm (codes "channel_config") kind,
              )
              (ground arith))
  ]
]

module _ {ℓ} (path_unescape : Text → Option Text) (format_stamp format_rfc3339 : ℕ → Text)
    {S : Type ℓ} (force_apply : TeamSyncMessage → S → Result Text S) where
  -- The actions that `ResolveTeamSyncConflict` takes for a message of a type, by their names.
  abbrev pub is_allowed : Text → Text → Bool
  is_allowed kind action =
      contains (codes "dismiss" ∷ codes "keep_local" ∷ []) action
      || contains (codes "accept_remote" ∷ []) action && contains replayed_kinds kind

  abbrev pub kind_of : ℕ → Conflict → Text
  kind_of now c = (normalize_sync path_unescape format_stamp format_rfc3339 now c.sync).kind

  is_allowed-guard :
      (now : ℕ) (action : Text) (c : Conflict)
      → is_allowed (kind_of now c) action ≡ (
          keeps_local action
          || text_eq action (codes "accept_remote")
            && is_replay_safe path_unescape format_stamp format_rfc3339 now c)
  unfolding contains any is_replay_safe
  is_allowed-guard now action c =
      rw
        (
          text_eq_comm (codes "dismiss") action,
          text_eq_comm (codes "keep_local") action,
          text_eq_comm (codes "accept_remote") action,
          is_replayed-contains (kind_of now c),
        )
        (ground arith)

  act-invalid_iff :
      (now : ℕ) (action : Text) (c : Conflict) (store : S)
      → (act path_unescape format_stamp format_rfc3339 force_apply now action c store
          ≡ err ResolveError.invalid)
        ↔ (is_allowed (kind_of now c) action ≡ false)
  unfolding act
  act-invalid_iff now action c store =
      rw (is_allowed-guard now action c) (elim (Bool-cases (keeps_local action)) [
        | inl local ↦ rw local (λ h. cc, λ h. cc)
        | inr remote ↦ elim (Bool-cases (text_eq action (codes "accept_remote"))) [
          | inr unknown ↦ rw (remote, unknown) (λ h. refl, λ h. refl)
          | inl accepts ↦
              elim (Bool-cases (is_replay_safe path_unescape format_stamp format_rfc3339 now c)) [
                | inr unsafe ↦ rw (remote, accepts, unsafe) (λ h. refl, λ h. refl)
                | inl safe ↦
                    rw (remote, accepts, safe)
                      (λ h. absurd (applied_no (force_apply c.sync store) h), λ h. cc)
              ]
        ]
      ])
    where
      applied_no : (o : Result Text S) → ¬ (apply_result o ≡ err ResolveError.invalid)
      applied_no (ok last) h = cc
      applied_no (err failure) h = cc

  -- A resolution of a conflict of the file that is of the team, or of any where no team is given, is
  -- refused as invalid exactly if the trimmed action is neither "dismiss" nor "keep_local", nor
  -- "accept_remote" where the type of the conflict's message is one of "task", "artifact", "member",
  -- "policy", "channel" and "channel_config".
  pub resolve-invalid_iff :
      (now : ℕ) (team key action actor : Text) (store : S) (file : PersistedState) (c : Conflict)
      → lookup (trim_space key) file.conflicts ≡ some c
      → (is_nil (normalize_team_id path_unescape team)
          || text_eq
              (normalize_team_id path_unescape c.team_id)
              (normalize_team_id path_unescape team))
        ≡ true
      → (resolve_team_sync_conflict path_unescape format_stamp format_rfc3339 force_apply now team
            key action actor store file
          ≡ err ResolveError.invalid)
        ↔ (is_allowed (kind_of now c) (trim_space action) ≡ false)
  unfolding resolve_team_sync_conflict
  resolve-invalid_iff now team key action actor store file c there here =
      let mine : (not (is_nil team_id)
            && not (text_eq (normalize_team_id path_unescape c.team_id) team_id))
          ≡ false =
        ground (arith, here) in
      rw (there, mine)
        (
          λ h. (act-invalid_iff now act_text c store).0 (
              unstored
                (act path_unescape format_stamp format_rfc3339 force_apply now act_text c store) h),
          λ h. rw ((act-invalid_iff now act_text c store).1 h) refl,
        )
    where
      team_id : Text
      team_id = normalize_team_id path_unescape team

      act_text : Text
      act_text = trim_space action

      unstored :
          (o : Result ResolveError S)
          → store_resolved path_unescape format_stamp format_rfc3339 now
              (trim_space key)
              (resolved_conflict now act_text actor c)
              file
              o
            ≡ err ResolveError.invalid
          → o ≡ err ResolveError.invalid
      unstored (ok next) h = cc
      unstored (err failure) h = cc
