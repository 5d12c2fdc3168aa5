-- ===== src/Team/TaskState/Laws.antt =====
-- `normalizeTaskStatus`, `IsTerminalState` and `IsValidTransition` (internal/aip2p/team).
use ai_p2p.Prelude.{
  Bool, true, false, [], ◌∷◌, ◌≡◌, refl, sym, ap, ◌∙◌, ◌⊎◌, inl, inr, if◌then◌else◌, arith,
}
use ai_p2p.Text.{Text, codes, text_eq, trim_space, to_lower}
use ai_p2p.Text.Laws.{text_eq_iff, trim_space-to_lower, fold_key_idem}
use ai_p2p.Team.TaskState.{
  normalize_task_status, one_of, is_terminal_state, is_valid_transition, leaves, default_open,
  open_status, doing_status, blocked_status, review_status, done_status, failed_status,
  cancelled_status, rejected_status,
}

-- The key of the `switch`, which is also what the default branch keeps.
abbrev status_key : Text → Text
status_key value = to_lower (trim_space value)

kept_lem : (value : Text) → trim_space (to_lower value) ≡ status_key value
kept_lem value = trim_space-to_lower value

-- The `switch` of `normalizeTaskStatus` over its key.
classify : Text → Text
classify key =
    if one_of key ([] ∷ codes "open" ∷ [])
    then key
    else if one_of key (codes "todo" ∷ [])
    then open_status
    else if one_of key
        (codes "doing" ∷ codes "in-progress" ∷ codes "in_progress" ∷ codes "progress" ∷ [])
    then doing_status
    else if one_of key (codes "blocked" ∷ codes "hold" ∷ [])
    then blocked_status
    else if one_of key (codes "review" ∷ codes "reviewing" ∷ [])
    then review_status
    else if one_of key (codes "done" ∷ codes "closed" ∷ codes "complete" ∷ codes "completed" ∷ [])
    then done_status
    else key

normalize_task_status_lem :
    (value : Text) → normalize_task_status value ≡ classify (status_key value)
unfolding normalize_task_status classify
normalize_task_status_lem value = rw (kept_lem value)

classify_cases :
    (key : Text)
    → (classify key ≡ key)
      ⊎ ((classify key ≡ open_status)
          ⊎ ((classify key ≡ doing_status)
              ⊎ ((classify key ≡ blocked_status)
                  ⊎ ((classify key ≡ review_status) ⊎ (classify key ≡ done_status)))))
unfolding classify
classify_cases key = ground arith

classify_idem :
    (key : Text) → status_key key ≡ key → classify (status_key (classify key)) ≡ classify key
unfolding one_of text_eq to_lower trim_space
classify_idem key e = elim (classify_cases key) [
  | inl same ↦ rw (same, e) same
  | inr (inl e1) ↦ rw e1 (unfold classify in refl)
  | inr (inr (inl e2)) ↦ rw e2 (unfold classify in refl)
  | inr (inr (inr (inl e3))) ↦ rw e3 (unfold classify in refl)
  | inr (inr (inr (inr (inl e4)))) ↦ rw e4 (unfold classify in refl)
  | inr (inr (inr (inr (inr e5)))) ↦ rw e5 (unfold classify in refl)
]

-- Normalising a status a second time changes nothing.
pub normalize_task_status_idem :
    (value : Text)
    → normalize_task_status (normalize_task_status value) ≡ normalize_task_status value
normalize_task_status_idem value =
    normalize_task_status_lem (normalize_task_status value)
    ∙ (ap (λ s. classify (status_key s)) (normalize_task_status_lem value)
        ∙ classify_idem (status_key value) (fold_key_idem value)
        ∙ sym (normalize_task_status_lem value))

-- A transition depends only on the normal forms of its ends, so aliases such as "todo", "hold" and
-- "completed" may be exchanged for what they stand for.
is_valid_transition-normalize :
    (from to : Text)
    → is_valid_transition (normalize_task_status from) (normalize_task_status to)
      ≡ is_valid_transition from to
unfolding is_valid_transition
is_valid_transition-normalize from to =
    rw (normalize_task_status_idem from, normalize_task_status_idem to)

one_of_cases_four :
    (value a b c d : Text)
    → one_of value (a ∷ b ∷ c ∷ d ∷ []) ≡ true
    → (value ≡ a) ⊎ ((value ≡ b) ⊎ ((value ≡ c) ⊎ (value ≡ d)))
unfolding one_of
one_of_cases_four value a b c d h =
    ground
      (arith, text_eq_iff value a, text_eq_iff value b, text_eq_iff value c, text_eq_iff value d)

stays_lem : (b : Bool) → (if b then true else false) ≡ b
stays_lem b = ground arith

-- A task in a terminal state stays in it: the only transition out of `done`, `failed`, `cancelled`
-- or `rejected`, in whatever spelling, leads back to it.
pub is_valid_transition_of_terminal :
    (from to : Text)
    → is_terminal_state from ≡ true
    → is_valid_transition from to
      ≡ text_eq (normalize_task_status from) (default_open (normalize_task_status to))
unfolding is_terminal_state is_valid_transition leaves text_eq
is_valid_transition_of_terminal from to h =
    elim (one_of_cases_four (normalize_task_status from) done_status failed_status cancelled_status
      rejected_status h) [
        | inl e ↦ rw e (stays_lem _)
        | inr (inl e) ↦ rw e (stays_lem _)
        | inr (inr (inl e)) ↦ rw e (stays_lem _)
        | inr (inr (inr e)) ↦ rw e (stays_lem _)
      ]
