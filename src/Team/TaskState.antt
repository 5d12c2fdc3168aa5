-- ===== src/Team/TaskState.antt =====
-- The status of a task (internal/aip2p/team/task_state.go, `normalizeTaskStatus` of normalize.go).
pub mod Laws
pub mod Terminal
pub mod Graph
pub mod Custom
use ai_p2p.Prelude.{
  Bool, true, false, List, [], ◌∷◌, if◌then◌else◌, is_nil, any, Option, none, some, ◌||◌,
}
use ai_p2p.Text.{Text, codes, text_eq, trim_space, to_lower, contains}
use ai_p2p.TextMap.{TextMap, lookup, rebuild}

abbrev pub open_status : Text
open_status = codes "open"

abbrev pub doing_status : Text
doing_status = codes "doing"

abbrev pub blocked_status : Text
blocked_status = codes "blocked"

abbrev pub review_status : Text
review_status = codes "review"

abbrev pub done_status : Text
done_status = codes "done"

abbrev pub failed_status : Text
failed_status = codes "failed"

abbrev pub cancelled_status : Text
cancelled_status = codes "cancelled"

abbrev pub rejected_status : Text
rejected_status = codes "rejected"

-- A `case` with several strings.
unfoldable pub one_of : Text → List Text → Bool
unfolding any
one_of value cases = any (λ item. text_eq value item) cases

-- `normalizeTaskStatus`.
unfoldable pub normalize_task_status : Text → Text
normalize_task_status value =
    let key = to_lower (trim_space value) in
    let kept = trim_space (to_lower value) in
    if one_of key ([] ∷ codes "open" ∷ [])
    then kept
    else if one_of key (codes "todo" ∷ [])
    then open_status
    else if one_of key
        (codes "doing" ∷ codes "in-progress" ∷ codes "in_progress" ∷ codes "progress" ∷ [])
    then doing_status
    else if one_of key (codes "blocked" ∷ codes "hold" ∷ [])
    then blocked_status
    else if one_of key (codes "review" ∷ codes "reviewing" ∷ [])
    then review_status
    else if one_of key (codes "done" ∷ codes "closed" ∷ codes "complete" ∷ codes "completed" ∷ [])
    then done_status
    else kept

-- `IsTerminalState`.
unfoldable pub is_terminal_state : Text → Bool
is_terminal_state value =
    one_of (normalize_task_status value)
      (done_status ∷ failed_status ∷ cancelled_status ∷ rejected_status ∷ [])

unfoldable pub in_normalized_status_set : Text → List Text → Bool
unfolding any
in_normalized_status_set value allowed =
    any (λ candidate. text_eq value (normalize_task_status candidate)) allowed

-- `if to == "" { to = TaskStateOpen }`.
unfoldable pub default_open : Text → Text
default_open to = if is_nil to then open_status else to

-- The `switch from` at the end of `IsValidTransition`, over normalised statuses.
unfoldable pub leaves : Text → Text → Bool
leaves from to =
    if text_eq from open_status
    then in_normalized_status_set to (
        doing_status ∷ blocked_status ∷ review_status ∷ done_status ∷ failed_status
        ∷ cancelled_status ∷ rejected_status ∷ [])
    else if text_eq from doing_status
    then in_normalized_status_set to
        (blocked_status ∷ review_status ∷ done_status ∷ failed_status ∷ cancelled_status ∷ [])
    else if text_eq from blocked_status
    then in_normalized_status_set to (doing_status ∷ cancelled_status ∷ failed_status ∷ [])
    else if text_eq from review_status
    then in_normalized_status_set to
        (doing_status ∷ done_status ∷ rejected_status ∷ cancelled_status ∷ [])
    else false

-- `IsValidTransition`.
unfoldable pub is_valid_transition : Text → Text → Bool
is_valid_transition raw_from raw_to =
    let from = normalize_task_status raw_from in
    let to = default_open (normalize_task_status raw_to) in
    if is_nil from
    then in_normalized_status_set to (
        open_status ∷ doing_status ∷ blocked_status ∷ review_status ∷ done_status ∷ failed_status
        ∷ cancelled_status ∷ rejected_status ∷ [])
    else if text_eq from to
    then true
    else leaves from to

-- `TaskTransitionRule`, and the map `TaskTransitions` of a team's policy.
pub record TaskTransitionRule : Type 0 where
  pub allowed : List Text

-- `IsValidTransitionWithPolicy`, over the policy's map.
unfoldable pub is_valid_transition_with_policy : Text → Text → TextMap TaskTransitionRule → Bool
unfolding any
is_valid_transition_with_policy raw_from raw_to task_transitions =
    let from = normalize_task_status raw_from in
    let to = default_open (normalize_task_status raw_to) in
    if is_nil task_transitions
    then is_valid_transition from to
    else elim (lookup from task_transitions) [
      | none ↦ is_valid_transition from to
      | some rule ↦
          if text_eq from to
          then true
          else any (λ candidate. text_eq (normalize_task_status candidate) to) rule.allowed
    ]

-- The inner loop of `normalizeTaskTransitions`.
unfoldable pub normalize_allowed : List Text → List Text → List Text
normalize_allowed seen [] = []
normalize_allowed seen (raw ∷ rest) =
    let next = default_open (normalize_task_status raw) in
    let skipped = normalize_allowed seen rest in
    let kept = next ∷ normalize_allowed (next ∷ seen) rest in
    if contains seen next then skipped else kept

abbrev pub transition_entry : Text → TaskTransitionRule → Option (Text × TaskTransitionRule)
transition_entry from rule =
    some (normalize_task_status from, record { allowed = normalize_allowed [] rule.allowed })

-- `normalizeTaskTransitions`. (A status is trimmed once it is normalised, so the test that turns a
-- blank one into "" changes nothing.)
unfoldable pub normalize_task_transitions : TextMap TaskTransitionRule → TextMap TaskTransitionRule
unfolding rebuild
normalize_task_transitions transitions = rebuild transition_entry [] transitions
