-- ===== src/Team/Tests.antt =====
-- Examples of the states of a task and of the names of teams.
mod Codec
mod Files
use ai_p2p.Prelude.{
  ℕ, Bool, true, false, List, [], ◌∷◌, ◌++◌, ◌≡◌, ◌⊎◌, refl, ap, sym, is_nil, any, Option, none,
  some, Memᴰ, map, arith, All, length, ◌||◌, ◌≤◌,
}
use ai_p2p.Prelude.Results.{Result, ok, err}
use ai_p2p.Text.{Text, codes, text_eq, trim_space, to_lower, contains, has_prefix}
use ai_p2p.TextMap.{TextMap, lookup, insert, rebuild}
use ai_p2p.Team.Id.{
  replace_char, replace_pair, contains_pair, squeeze, trim_edge_left, trim_edge_right, or_same,
  replace_separators, clean, reject_path, normalize_team_id, normalize_channel_id,
}
use ai_p2p.Team.Id.Laws.{normalize_team_id-IsPlain, IsPlain}
use ai_p2p.Team.TaskState.{
  done_status, one_of, normalize_task_status, is_terminal_state, in_normalized_status_set,
  default_open, leaves, is_valid_transition, TaskTransitionRule, is_valid_transition_with_policy,
  normalize_allowed, normalize_task_transitions,
}
use ai_p2p.Team.TaskState.Laws.{normalize_task_status_idem}
use ai_p2p.Team.TaskState.Graph.{TaskState}
use ai_p2p.Team.TaskState.Custom.{is_valid_transition_with_policy_of_rule}
use ai_p2p.Team.Task.{
  Task, non_empty_loop, normalize_task_priority, normalize_non_empty_strings, task_version,
  replicated_version_after, closing_time, generate_context_id, build_task_id,
  normalize_replicated_task,
}
use ai_p2p.Team.TaskStore.{
  TaskFiles, TaskError, read_at, task_index_entry_from_task, replace_entry, placed, put_entry,
  mark_deleted, delete_task_indexed, append_task_indexed, read_json_record_at, load_entry,
  load_task_from_index,
}
use ai_p2p.Team.TaskStore.Laws.{IsIndexed}
use ai_p2p.Team.TaskStore.Contract.{IsCodec, load-append, load-delete}
use ai_p2p.Team.TaskApi.{
  saved_status, end_saved, load_task, delete_task, saved_task, write_saved, save_over, save_loaded,
  save_task_indexed, save_task, apply_over, apply_replicated_task,
}
use ai_p2p.Team.TaskApi.Replica.{incoming, apply, found, latest, apply-latest, apply-converges}
use ai_p2p.Team.TaskApi.Deletion.{apply_of_deleted}
use ai_p2p.Team.TaskApi.Create.{named_team, created_closing_time, created_task, append_task}
use ai_p2p.Team.TaskApi.Save.{save-transition}
use ai_p2p.Team.Tests.Codec.{
  print_chars, print_texts, print_fields, put, parse, print_task, read_task, read-print_task,
}

-- Naming it unfolds the operations, so that the examples compute.
team_names : Unit {0}
unfolding any text_eq trim_space to_lower contains has_prefix lookup insert rebuild replace_char
    replace_pair contains_pair squeeze trim_edge_left trim_edge_right or_same replace_separators
    clean reject_path normalize_team_id normalize_channel_id one_of normalize_task_status
    is_terminal_state in_normalized_status_set default_open leaves is_valid_transition
    is_valid_transition_with_policy normalize_allowed normalize_task_transitions
team_names = tt

abbrev as_it_is : Text → Option Text
as_it_is s = some s

normalize_team_id-IsPlain_example :
    All IsPlain (normalize_team_id as_it_is (codes " ../My_Team//x "))
    × (contains_pair 46 (normalize_team_id as_it_is (codes " ../My_Team//x ")) ≡ false)
    × (contains_pair 45 (normalize_team_id as_it_is (codes " ../My_Team//x ")) ≡ false)
normalize_team_id-IsPlain_example = normalize_team_id-IsPlain as_it_is (codes " ../My_Team//x ")

my_team : normalize_team_id as_it_is (codes " ../My_Team//x ") ≡ codes "my-team-x"
unfolding team_names
my_team = refl

normalize_task_status_idem_example :
    normalize_task_status (normalize_task_status (codes " In_Progress "))
    ≡ normalize_task_status (codes " In_Progress ")
normalize_task_status_idem_example = normalize_task_status_idem (codes " In_Progress ")

abbrev reopening : TaskTransitionRule
reopening = record { allowed = codes "todo" ∷ [] }

is_valid_transition_with_policy_of_rule_example :
    is_valid_transition_with_policy
      (codes "done")
      (codes "open")
      (normalize_task_transitions ((codes "closed", reopening) ∷ []))
    ≡ true
unfolding team_names
is_valid_transition_with_policy_of_rule_example =
    is_valid_transition_with_policy_of_rule (codes "done") (codes "open") (codes "closed") reopening
      ((codes "closed", reopening) ∷ []) ((λ h. refl), tt) (Memᴰ.head refl) refl
