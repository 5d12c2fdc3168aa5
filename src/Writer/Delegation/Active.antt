-- ===== src/Writer/Delegation/Active.antt =====
-- `ActiveDelegationFor` and `isRevoked` (internal/plugins/aip2p/delegation.go).
use ai_p2p.Prelude.{
  ℕ, ◌≤◌, true, false, List, [], ◌∷◌, ◌++◌, ◌≡◌, ◌↔◌, inl, inr, if◌then◌else◌, any, any-append,
  keep, keep-All, mem_of_mem-keep, mem-keep, All-mem, All-of_mem, Option, none, some, Option-cases,
  arith, All, Memᴰ, map, ◌==◌, not-mem_of_eq_nil, keep-eq-nil, not_true_of_imp,
}
use ai_p2p.Text.{Text, trim_space, to_lower}
use ai_p2p.Text.Laws.{text_eq_iff}
use ai_p2p.Writer.Modes.{normalize_fold_key}
use ai_p2p.Writer.Delegation.{
  WriterDelegation, WriterRevocation, DelegationStore, normalize_delegation,
  delegation_scope_matches, delegation_expired, revokes, is_revoked, is_candidate,
  active_delegation_for,
}
use ai_p2p.Writer.Delegation.Order.{
  IsFirstNewest, IsFirstNewest-mem, first-sort_newest, first-sort_newest-eq-none_iff,
}

-- The store with more revocations.
abbrev pub revoke_also : List WriterRevocation → DelegationStore → DelegationStore
revoke_also more s = record s { revocations = s.revocations ++ more }

module _ (parse_time : Text → Option ℕ) where
  -- What a delegation must satisfy to be in force for a child, in a scope and at a time.
  pub record IsActive (s : DelegationStore) (child_agent_id child_public_key scope : Text) (now : ℕ)
      (d : WriterDelegation) : Type 0 where
    pub child : trim_space d.child_agent_id ≡ child_agent_id
    pub key : to_lower (trim_space d.child_public_key) ≡ child_public_key
    pub in_scope : delegation_scope_matches d scope ≡ true
    pub unexpired : delegation_expired parse_time d now ≡ false
    pub unrevoked : is_revoked parse_time s d now ≡ false

  pub is_candidate_iff :
      (s : DelegationStore) (agent key scope : Text) (now : ℕ) (d : WriterDelegation)
      → (is_candidate parse_time s agent key scope now d ≡ true) ↔ IsActive s agent key scope now d
  unfolding is_candidate
  is_candidate_iff s agent key scope now d = (
    λ h. record {
      child = ground (arith, text_eq_iff (trim_space d.child_agent_id) agent);
      key = ground (arith, text_eq_iff (to_lower (trim_space d.child_public_key)) key);
      in_scope = ground arith;
      unexpired = ground arith;
      unrevoked = ground arith;
    },
    λ a. ground (
      arith,
      text_eq_iff (trim_space d.child_agent_id) agent,
      text_eq_iff (to_lower (trim_space d.child_public_key)) key,
    ),
  )

  -- A delegation that has expired stays expired.
  delegation_expired_mono :
      (d : WriterDelegation) (now later : ℕ)
      → now ≤ later
      → delegation_expired parse_time d now ≡ true
      → delegation_expired parse_time d later ≡ true
  unfolding delegation_expired
  delegation_expired_mono d now later le h = ground arith

  revokes_mono :
      (d : WriterDelegation) (t now later : ℕ) (r : WriterRevocation)
      → now ≤ later
      → revokes parse_time d t now r ≡ true
      → revokes parse_time d t later r ≡ true
  unfolding revokes
  revokes_mono d t now later r le h = ground arith

  any-revokes_mono :
      (d : WriterDelegation) (t now later : ℕ) (rs : List WriterRevocation)
      → now ≤ later
      → any (revokes parse_time d t now) rs ≡ true
      → any (revokes parse_time d t later) rs ≡ true
  unfolding any
  any-revokes_mono d t now later [] le h = cc
  any-revokes_mono d t now later (r ∷ rs) le h =
      ground (arith, revokes_mono d t now later r, any-revokes_mono d t now later rs)

  -- More revocations and a later time revoke no less.
  is_revoked_mono :
      (s : DelegationStore) (more : List WriterRevocation) (d : WriterDelegation) (now later : ℕ)
      → now ≤ later
      → is_revoked parse_time s d now ≡ true
      → is_revoked parse_time (revoke_also more s) d later ≡ true
  unfolding is_revoked
  is_revoked_mono s more d now later le h = elim (Option-cases (parse_time d.created_at)) [
    | inl e ↦ ground arith
    | inr (t, e) ↦ ground (
      arith,
      any-append (revokes parse_time d t later) s.revocations more,
      any-revokes_mono d t now later s.revocations le,
    )
  ]

  -- A delegation that is a candidate at a time and under some revocations was one at any earlier
  -- time and without the last of these revocations: neither the passing of time nor a further
  -- revocation makes a delegation a candidate.
  pub is_candidate_anti :
      (s : DelegationStore) (more : List WriterRevocation) (agent key scope : Text) (now later : ℕ)
      (d : WriterDelegation)
      → now ≤ later
      → is_candidate parse_time (revoke_also more s) agent key scope later d ≡ true
      → is_candidate parse_time s agent key scope now d ≡ true
  unfolding is_candidate
  is_candidate_anti s more agent key scope now later d le h =
      ground (arith, is_revoked_mono s more d now later le, delegation_expired_mono d now later le)

module _ (parse_time : Text → Option ℕ) (clock : ℕ) where
  -- The time that a call uses: the caller's, or the clock's where the caller gives the zero time.
  abbrev pub effective : ℕ → ℕ
  effective given_now = if given_now == 0 then clock else given_now

  -- The normalised delegations of the store that are in force.
  abbrev pub in_force : DelegationStore → Text → Text → Text → ℕ → List WriterDelegation
  in_force s agent key scope given_now =
      keep
        (is_candidate parse_time s (trim_space agent) (to_lower (trim_space key))
          (normalize_fold_key scope) (effective given_now))
        (map normalize_delegation s.delegations)

  -- A delegation that is selected is in force, stands among the store's delegations, normalised, and
  -- is the first of the delegations in force whose creation time, compared as a text, is greatest.
  pub active_delegation_for-IsActive :
      (s : DelegationStore) (agent key scope : Text) (given_now : ℕ) (d : WriterDelegation)
      → active_delegation_for parse_time clock s agent key scope given_now ≡ some d
      → IsActive parse_time s
          (trim_space agent)
          (to_lower (trim_space key))
          (normalize_fold_key scope)
          (effective given_now)
          d
        × Memᴰ d (map normalize_delegation s.delegations)
        × IsFirstNewest d (in_force s agent key scope given_now)
  unfolding active_delegation_for
  active_delegation_for-IsActive s agent key scope given_now d h =
      let chosen = first-sort_newest (in_force s agent key scope given_now) d h in
      let member : Memᴰ d (in_force s agent key scope given_now) = IsFirstNewest-mem d _ chosen in
      (
        (is_candidate_iff parse_time s _ _ _ _ d).0 (All-mem _ _ d (keep-All _ _) member),
        mem_of_mem-keep _ _ d member,
        chosen,
      )

  -- No delegation is selected exactly when none of the store's delegations, normalised, is in
  -- force for that child, scope and time.
  pub active_delegation_for-eq-none_iff :
      (s : DelegationStore) (agent key scope : Text) (given_now : ℕ)
      → (active_delegation_for parse_time clock s agent key scope given_now ≡ none)
        ↔ All
            (λ d.
              ¬ IsActive parse_time s
                (trim_space agent)
                (to_lower (trim_space key))
                (normalize_fold_key scope)
                (effective given_now)
                d)
            (map normalize_delegation s.delegations)
  unfolding active_delegation_for
  active_delegation_for-eq-none_iff s agent key scope given_now = (
    λ h. All-of_mem _ _ (λ d m a.
        not-mem_of_eq_nil d _
          ((first-sort_newest-eq-none_iff (in_force s agent key scope given_now)).0 h)
          (mem-keep _ _ d m ((is_candidate_iff parse_time s _ _ _ _ d).1 a))),
    λ h. (first-sort_newest-eq-none_iff (in_force s agent key scope given_now)).1 (
        keep-eq-nil _ _ (λ d m.
          not_true_of_imp _
            (λ p. All-mem _ _ d h m ((is_candidate_iff parse_time s _ _ _ _ d).0 p)))),
  )
