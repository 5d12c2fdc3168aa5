-- ===== src/Team/TaskState/Graph.antt =====
-- `IsValidTransition` between the declared states (internal/aip2p/team/task_state.go).
use ai_p2p.Prelude.{Bool, true, false, ◌≡◌, refl, ◌↔◌, ◌⊎◌, inl, inr}
use ai_p2p.Text.{Text, text_eq, trim_space, to_lower}
use ai_p2p.Team.TaskState.{
  normalize_task_status, one_of, is_valid_transition, leaves, default_open,
  in_normalized_status_set, open_status, doing_status, blocked_status, review_status, done_status,
  failed_status, cancelled_status, rejected_status,
}

-- The declared states.
pub data TaskState : Type 0 where
  open_ doing blocked review done failed cancelled rejected : TaskState

abbrev pub status : TaskState → Text
status open_ = open_status
status doing = doing_status
status blocked = blocked_status
status review = review_status
status done = done_status
status failed = failed_status
status cancelled = cancelled_status
status rejected = rejected_status

infix 40 ◌⟶◌ ◌⟶*◌
-- A move that the code allows: work is started, held up, handed in, and ends in one of four ways.
pub data ◌⟶◌ : TaskState → TaskState → Type 0 where
  start : open_ ⟶ doing
  hold : open_ ⟶ blocked
  hand_in : open_ ⟶ review
  finish : open_ ⟶ done
  fail : open_ ⟶ failed
  cancel : open_ ⟶ cancelled
  reject : open_ ⟶ rejected
  doing_hold : doing ⟶ blocked
  doing_hand_in : doing ⟶ review
  doing_finish : doing ⟶ done
  doing_fail : doing ⟶ failed
  doing_cancel : doing ⟶ cancelled
  resume : blocked ⟶ doing
  blocked_cancel : blocked ⟶ cancelled
  blocked_fail : blocked ⟶ failed
  rework : review ⟶ doing
  accept : review ⟶ done
  review_reject : review ⟶ rejected
  review_cancel : review ⟶ cancelled

pub data ◌⟶*◌ : TaskState → TaskState → Type 0 where
  here : {s : TaskState} → s ⟶* s
  then : {s t u : TaskState} → s ⟶ t → t ⟶* u → s ⟶* u

⟶-is_valid_transition : {s t : TaskState} → s ⟶ t → is_valid_transition (status s) (status t) ≡ true
unfolding is_valid_transition normalize_task_status default_open leaves in_normalized_status_set
    one_of text_eq trim_space to_lower
⟶-is_valid_transition start = refl
⟶-is_valid_transition hold = refl
⟶-is_valid_transition hand_in = refl
⟶-is_valid_transition finish = refl
⟶-is_valid_transition fail = refl
⟶-is_valid_transition cancel = refl
⟶-is_valid_transition reject = refl
⟶-is_valid_transition doing_hold = refl
⟶-is_valid_transition doing_hand_in = refl
⟶-is_valid_transition doing_finish = refl
⟶-is_valid_transition doing_fail = refl
⟶-is_valid_transition doing_cancel = refl
⟶-is_valid_transition resume = refl
⟶-is_valid_transition blocked_cancel = refl
⟶-is_valid_transition blocked_fail = refl
⟶-is_valid_transition rework = refl
⟶-is_valid_transition accept = refl
⟶-is_valid_transition review_reject = refl
⟶-is_valid_transition review_cancel = refl

same-is_valid_transition : (s : TaskState) → is_valid_transition (status s) (status s) ≡ true
unfolding is_valid_transition normalize_task_status default_open leaves in_normalized_status_set
    one_of text_eq trim_space to_lower
same-is_valid_transition open_ = refl
same-is_valid_transition _ = refl

transition-⟶ :
    (s t : TaskState) → is_valid_transition (status s) (status t) ≡ true → (s ≡ t) ⊎ (s ⟶ t)
unfolding is_valid_transition normalize_task_status default_open leaves in_normalized_status_set
    one_of text_eq trim_space to_lower
transition-⟶ open_ open_ h = inl refl
transition-⟶ doing doing h = inl refl
transition-⟶ blocked blocked h = inl refl
transition-⟶ review review h = inl refl
transition-⟶ done done h = inl refl
transition-⟶ failed failed h = inl refl
transition-⟶ cancelled cancelled h = inl refl
transition-⟶ rejected rejected h = inl refl
transition-⟶ open_ doing h = inr start
transition-⟶ open_ blocked h = inr hold
transition-⟶ open_ review h = inr hand_in
transition-⟶ open_ done h = inr finish
transition-⟶ open_ failed h = inr fail
transition-⟶ open_ cancelled h = inr cancel
transition-⟶ open_ rejected h = inr reject
transition-⟶ doing blocked h = inr doing_hold
transition-⟶ doing review h = inr doing_hand_in
transition-⟶ doing done h = inr doing_finish
transition-⟶ doing failed h = inr doing_fail
transition-⟶ doing cancelled h = inr doing_cancel
transition-⟶ blocked doing h = inr resume
transition-⟶ blocked cancelled h = inr blocked_cancel
transition-⟶ blocked failed h = inr blocked_fail
transition-⟶ review doing h = inr rework
transition-⟶ review done h = inr accept
transition-⟶ review rejected h = inr review_reject
transition-⟶ review cancelled h = inr review_cancel
transition-⟶ _ _ h = cc

-- Between declared states the code allows exactly these moves, and staying.
is_valid_transition_iff :
    (s t : TaskState) → (is_valid_transition (status s) (status t) ≡ true) ↔ ((s ≡ t) ⊎ (s ⟶ t))
is_valid_transition_iff s t = (transition-⟶ s t, allowed)
  where
    allowed : (s ≡ t) ⊎ (s ⟶ t) → is_valid_transition (status s) (status t) ≡ true
    allowed (inl e) = rw (← e) (same-is_valid_transition s)
    allowed (inr a) = ⟶-is_valid_transition a

abbrev pub is_final : TaskState → Bool
is_final done = true
is_final failed = true
is_final cancelled = true
is_final rejected = true
is_final _ = false

-- A task that is not in a terminal state can still be finished, whatever happened to it before.
pub ⟶*-done : (s : TaskState) → is_final s ≡ false → s ⟶* done
⟶*-done open_ h = search (here, then, finish)
⟶*-done doing h = search (here, then, doing_finish)
⟶*-done blocked h = search (here, then, resume, doing_finish)
⟶*-done review h = search (here, then, accept)
⟶*-done _ h = cc
