-- ===== src/Team/TaskState/Custom.antt =====
-- `IsValidTransitionWithPolicy` over a policy's own transitions (internal/aip2p/team/task_state.go).
use ai_p2p.Prelude.{
  Bool, true, false, List, [], ◌∷◌, ◌≡◌, refl, ap, inl, inr, is_nil, any, arith, Bool-cases, ◌||◌,
  some, All, Memᴰ,
}
use ai_p2p.Text.{Text, text_eq, contains, trim_space, to_lower}
use ai_p2p.Text.Laws.{text_eq_iff, contains-cons}
use ai_p2p.TextMap.{TextMap, lookup}
use ai_p2p.TextMap.Rebuild.{lookup-rebuild, Gives}
use ai_p2p.Team.TaskState.{
  normalize_task_status, one_of, open_status, default_open, TaskTransitionRule,
  is_valid_transition_with_policy, normalize_allowed, transition_entry, normalize_task_transitions,
}
use ai_p2p.Team.TaskState.Laws.{normalize_task_status_idem}

-- A rule names a target, up to aliases.
abbrev pub rule_names : TaskTransitionRule → Text → Bool
rule_names rule to =
    any (λ candidate. text_eq (default_open (normalize_task_status candidate)) to) rule.allowed

normalize-open_status : normalize_task_status open_status ≡ open_status
unfolding normalize_task_status one_of text_eq trim_space to_lower
normalize-open_status = refl

normalize-default_open :
    (value : Text)
    → normalize_task_status (default_open (normalize_task_status value))
      ≡ default_open (normalize_task_status value)
unfolding default_open
normalize-default_open value = elim (Bool-cases (is_nil (normalize_task_status value))) [
  | inl e ↦ rw e normalize-open_status
  | inr e ↦ rw e (normalize_task_status_idem value)
]

contains_of_eq :
    (seen : List Text) (s t : Text) → text_eq s t ≡ true → contains seen s ≡ contains seen t
contains_of_eq seen s t h = ap (contains seen) ((text_eq_iff s t).0 h)

-- A list of targets names the same targets once its aliases and repetitions are gone.
any-normalize_allowed :
    (seen : List Text) (items : List Text) (to : Text)
    → (any (λ c. text_eq (normalize_task_status c) to) (normalize_allowed seen items)
        || contains seen to)
      ≡ (any (λ c. text_eq (default_open (normalize_task_status c)) to) items || contains seen to)
unfolding any normalize_allowed
any-normalize_allowed seen [] to = refl
any-normalize_allowed seen (raw ∷ items) to =
    let next = default_open (normalize_task_status raw) in
    ground (
      arith,
      normalize-default_open raw,
      any-normalize_allowed seen items to,
      any-normalize_allowed (next ∷ seen) items to,
      contains-cons next seen to,
      contains_of_eq seen next to,
    )

contains-nil : (s : Text) → contains [] s ≡ false
unfolding contains any
contains-nil s = refl

any-normalize_allowed_nil :
    (items : List Text) (to : Text)
    → any (λ c. text_eq (normalize_task_status c) to) (normalize_allowed [] items)
      ≡ any (λ c. text_eq (default_open (normalize_task_status c)) to) items
any-normalize_allowed_nil items to =
    ground (arith, any-normalize_allowed [] items to, contains-nil to)

not_nil_of_lookup :
    (k : Text) (v : TaskTransitionRule) (m : TextMap TaskTransitionRule)
    → lookup k m ≡ some v
    → is_nil m ≡ false
unfolding lookup
not_nil_of_lookup k v [] h = cc
not_nil_of_lookup k v (e ∷ m) h = refl

-- Where a policy declares a rule for a state, and no second rule for an alias of that state differs
-- from it, the rule alone says which states may follow, besides the state itself: the built-in
-- rules play no part.
pub is_valid_transition_with_policy_of_rule :
    (from to raw_from : Text) (rule : TaskTransitionRule) (transitions : TextMap TaskTransitionRule)
    → All
        (λ e.
          Gives transition_entry
            (normalize_task_status from)
            (record { allowed = normalize_allowed [] rule.allowed })
            (transition_entry e.0 e.1))
        transitions
    → Memᴰ (raw_from, rule) transitions
    → normalize_task_status raw_from ≡ normalize_task_status from
    → is_valid_transition_with_policy from to (normalize_task_transitions transitions) ≡ (
        text_eq (normalize_task_status from) (default_open (normalize_task_status to))
        || rule_names rule (default_open (normalize_task_status to)))
unfolding is_valid_transition_with_policy normalize_task_transitions
is_valid_transition_with_policy_of_rule from to raw_from rule transitions agree listed same =
    let found =
      lookup-rebuild transition_entry (normalize_task_status from)
        (record { allowed = normalize_allowed [] rule.allowed }) [] transitions raw_from rule agree
        listed (ap (λ k. some (k, record { allowed = normalize_allowed [] rule.allowed })) same) in
    rw
      (
        not_nil_of_lookup _ _ _ found,
        found,
        any-normalize_allowed_nil rule.allowed (default_open (normalize_task_status to)),
      )
      (ground arith)
