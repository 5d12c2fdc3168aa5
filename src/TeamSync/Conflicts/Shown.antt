-- ===== src/TeamSync/Conflicts/Shown.antt =====
-- What the filter of `LoadTeamSyncConflicts` asks for (internal/aip2p/team_sync.go).
use ai_p2p.Prelude.{
  ℕ, ◌⊎◌, ◌↔◌, ◌||◌, ◌&&◌, is_nil, Bool, true, false, ◌≡◌, refl, inl, inr, [], ◌∷◌, Option,
}
use ai_p2p.Text.{Text, text_eq, trim_space}
use ai_p2p.Text.Laws.{text_eq_iff}
use ai_p2p.Team.Id.{normalize_team_id}
use ai_p2p.TeamSync.State.{Conflict}
use ai_p2p.TeamSync.Conflicts.{ConflictFilter, passes_filter, is_listed}

-- A filter that is empty lets everything pass, and another one what equals it up to outer blanks.
abbrev pub IsWanted : Text → Text → Type 0
IsWanted wanted value = (wanted ≡ []) ⊎ (trim_space value ≡ trim_space wanted)

eq_nil : (s : Text) → (is_nil s ≡ true) ↔ (s ≡ [])
eq_nil [] = (λ h. refl, λ h. refl)
eq_nil (c ∷ s) = (λ h. cc, λ h. cc)

-- Either of two tests, by what each of them means.
or_iff : (a b : Bool) (P Q : Type 0) → (a ≡ true) ↔ P → (b ≡ true) ↔ Q → ((a || b) ≡ true) ↔ (P ⊎ Q)
or_iff true b P Q f g = (λ h. inl (f.0 refl), λ h. refl)
or_iff false b P Q f g = (λ h. inr (g.0 h), right)
  where
    right : P ⊎ Q → b ≡ true
    right (inl p) = cc (f.1 p)
    right (inr q) = g.1 q

and_iff :
    (a b : Bool) (P Q : Type 0) → (a ≡ true) ↔ P → (b ≡ true) ↔ Q → ((a && b) ≡ true) ↔ (P × Q)
and_iff true b P Q f g = (λ h. (f.0 refl, g.0 h), λ h. g.1 h.1)
and_iff false b P Q f g = (λ h. cc, λ h. f.1 h.0)

passes_filter_iff :
    (wanted value : Text) → (passes_filter wanted value ≡ true) ↔ IsWanted wanted value
passes_filter_iff wanted value =
    or_iff (is_nil wanted) (text_eq (trim_space value) (trim_space wanted)) (wanted ≡ [])
      (trim_space value ≡ trim_space wanted) (eq_nil wanted)
      (text_eq_iff (trim_space value) (trim_space wanted))

module _ (path_unescape : Text → Option Text) (format_stamp format_rfc3339 : ℕ → Text) where
  -- What a filter asks of a conflict: it is of the team, if one is given, it is not resolved, unless
  -- resolved ones are asked for, and its type, subject and source are as wanted.
  abbrev pub IsShown : Text → ConflictFilter → Conflict → Type 0
  IsShown team_id filter c =
      ((team_id ≡ []) ⊎ (normalize_team_id path_unescape c.team_id ≡ team_id))
      × (((filter.include_resolved ≡ true) ⊎ (trim_space c.resolution ≡ []))
          × (IsWanted filter.kind c.kind
              × (IsWanted filter.subject_id c.subject_id
                  × IsWanted filter.source_node c.source_node)))

  pub is_listed_iff :
      (team_id : Text) (filter : ConflictFilter) (c : Conflict)
      → (is_listed path_unescape format_stamp format_rfc3339 team_id filter c ≡ true)
        ↔ IsShown team_id filter c
  unfolding is_listed
  is_listed_iff team_id filter c =
      and_iff _ _ _ _
        (or_iff _ _ _ _ (eq_nil team_id)
          (text_eq_iff (normalize_team_id path_unescape c.team_id) team_id))
        (and_iff _ _ _ _
          (or_iff _ _ (filter.include_resolved ≡ true) _ (λ h. h, λ h. h)
            (eq_nil (trim_space c.resolution)))
          (and_iff _ _ _ _ (passes_filter_iff filter.kind c.kind) (
            and_iff _ _ _ _ (passes_filter_iff filter.subject_id c.subject_id)
              (passes_filter_iff filter.source_node c.source_node))))
