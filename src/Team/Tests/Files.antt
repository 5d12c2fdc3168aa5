-- ===== src/Team/Tests/Files.antt =====
-- Examples of the task files and of the operations on tasks.
mod Detection
use ai_p2p.Prelude.{ℕ, Bool, true, [], ◌≡◌, ◌≢◌, refl, ap, any, Option, none, some, arith}
use ai_p2p.Prelude.Results.{Result, ok, err}
use ai_p2p.Text.{Text, codes, text_eq, trim_space, to_lower, contains, has_prefix}
use ai_p2p.TextMap.{lookup, insert, rebuild}
use ai_p2p.Team.Id.{
  replace_char, replace_pair, contains_pair, squeeze, trim_edge_left, trim_edge_right, or_same,
  replace_separators, clean, reject_path, normalize_team_id, normalize_channel_id,
}
use ai_p2p.Team.TaskState.{
  one_of, normalize_task_status, is_terminal_state, in_normalized_status_set, default_open, leaves,
  is_valid_transition, is_valid_transition_with_policy, normalize_allowed,
  normalize_task_transitions,
}
use ai_p2p.Team.TaskState.Graph.{status}
use ai_p2p.Team.Task.{
  Task, non_empty_loop, normalize_task_priority, normalize_non_empty_strings, task_version,
  replicated_version_after, closing_time, generate_context_id, build_task_id,
  normalize_replicated_task,
}
use ai_p2p.Team.TaskStore.{
  TaskFiles, TaskError, read_at, task_index_entry_from_task, replace_entry, placed, put_entry,
  mark_deleted, delete_task_indexed, append_task_indexed, read_json_record_at, load_entry,
  load_task_from_index,
}
use ai_p2p.Team.TaskStore.Contract.{load-append, load-delete}
use ai_p2p.Team.TaskApi.{
  TeamFiles, put_files, saved_status, end_saved, load_task, delete_task, saved_task, write_saved,
  save_over, save_loaded, save_task_indexed, upsert_replicated_task,
}
use ai_p2p.Team.TaskApi.Replica.{incoming, apply, apply-latest, apply-converges}
use ai_p2p.Team.TaskApi.Deletion.{apply_of_deleted}
use ai_p2p.Team.TaskApi.Create.{named_team, created_closing_time, created_task, append_task}
use ai_p2p.Team.TaskApi.Save.{save-transition}
use ai_p2p.Team.Tests.Codec.{
  print_chars, print_texts, print_fields, put, parse, print_task, read_task, read-print_task,
}

abbrev as_it_is : Text → Option Text
as_it_is s = some s

-- Naming it unfolds the operations on the files and on the tasks.
task_files : Unit {0}
unfolding any text_eq trim_space to_lower contains has_prefix lookup insert rebuild replace_char
    replace_pair contains_pair squeeze trim_edge_left trim_edge_right or_same replace_separators
    clean reject_path normalize_team_id normalize_channel_id one_of normalize_task_status
    is_terminal_state in_normalized_status_set default_open leaves is_valid_transition
    is_valid_transition_with_policy normalize_allowed normalize_task_transitions
    normalize_task_priority normalize_non_empty_strings task_version replicated_version_after
    closing_time generate_context_id build_task_id normalize_replicated_task
    task_index_entry_from_task replace_entry placed put_entry mark_deleted delete_task_indexed
    append_task_indexed load_entry load_task_from_index read_at read_json_record_at saved_status
    end_saved saved_task write_saved save_over save_loaded save_task_indexed print_task read_task
    print_fields print_texts print_chars put parse non_empty_loop named_team created_closing_time
    created_task append_task load_task delete_task put_files upsert_replicated_task
task_files = tt

abbrev task : Text → Text → ℕ → Task
task task_id status updated_at = record {
  task_id = task_id;
  team_id = [];
  channel_id = [];
  context_id = codes "c";
  title = codes "Ship it";
  description = [];
  created_by = codes "eve";
  assignees = [];
  status = status;
  priority = [];
  due_at = 0;
  labels = [];
  origin_public_key = [];
  parent_public_key = [];
  created_at = 1;
  updated_at = updated_at;
  closed_at = 0;
}

abbrev ship : Task
ship = task (codes "t1") (codes "open") 5

abbrev tidy : Task
tidy = task (codes "t2") (codes "doing") 5

abbrev no_files : TaskFiles
no_files = record { data_file = []; index = [] }

abbrev one_task : TaskFiles
one_task = append_task_indexed print_task read_task ship no_files

-- Each directory has the same files.
abbrev everywhere : TaskFiles → TeamFiles
everywhere files dir = files

abbrev one_deleted : TaskFiles
one_deleted = record one_task { index = mark_deleted (codes "t1") one_task.index }

load-append_example :
    load_task_from_index print_task read_task
      (codes "t1")
      (append_task_indexed print_task read_task ship one_task)
    ≡ ok ship
load-append_example = load-append print_task read_task read-print_task ship one_task

other_id : codes "t2" ≢ codes "t1"
unfolding task_files
other_id h = ground (arith, ap (λ s. text_eq s (codes "t1")) h)

load-delete_example :
    load_task_from_index print_task read_task (codes "t1") one_deleted ≡ err TaskError.not_exist
unfolding task_files
load-delete_example = load-delete print_task read_task (codes "t1") one_task one_deleted refl

abbrev load_team : Text → TeamFiles → Result TaskError Task
load_team = load_task print_task read_task as_it_is (codes "Team")

-- Any format of a time.
abbrev blank : ℕ → Text
blank t = []

abbrev node : Task → Task
node = incoming print_task read_task as_it_is blank blank 9 (codes "Team")

abbrev receive : Task → TeamFiles → Result TaskError (Bool × TeamFiles)
receive = apply print_task read_task as_it_is blank blank 9 (codes "Team")

apply-latest_example :
    (stored : Bool) × (after : TeamFiles) × (receive ship (everywhere no_files)
      ≡ ok (stored, after))
    × (load_team (codes "t1") after ≡ ok (node ship))
unfolding task_files
apply-latest_example =
    apply-latest print_task read_task as_it_is blank blank 9 (codes "Team") read-print_task ship
      none (everywhere no_files) (refl, refl, refl) refl

abbrev ship_later : Task
ship_later = task (codes " t1 ") (codes "done") 7

later_version : task_version (node ship) ≢ task_version (node ship_later)
unfolding task_files
later_version h = ground arith

apply-converges_example :
    (x y z w : Bool) × (fa fab fb fba : TeamFiles) × (receive ship (everywhere no_files)
      ≡ ok (x, fa))
    × (receive ship_later fa ≡ ok (y, fab))
    × (receive ship_later (everywhere no_files) ≡ ok (z, fb))
    × (receive ship fb ≡ ok (w, fba))
    × (load_team (codes "t1") fab ≡ load_team (codes "t1") fba)
unfolding task_files
apply-converges_example =
    apply-converges print_task read_task as_it_is blank blank 9 (codes "Team") read-print_task ship
      ship_later none (everywhere no_files) (refl, refl, refl) (refl, refl, refl) refl later_version
      refl

abbrev after_deletion : TeamFiles
after_deletion = put_files (codes "team") one_deleted (everywhere one_task)

apply_of_deleted_example :
    (stored : Bool) × (later : TeamFiles) × (receive ship after_deletion ≡ ok (stored, later))
    × (load_team (codes "t1") later ≡ ok (node ship))
unfolding task_files
apply_of_deleted_example =
    apply_of_deleted print_task read_task as_it_is blank blank 9 (codes "Team") read-print_task ship
      (everywhere one_task) after_deletion (refl, refl, refl) refl

abbrev finishing : Task
finishing = task (codes "t1") (codes "completed") 7

abbrev finished : TaskFiles
finished =
    (save_task_indexed print_task read_task as_it_is 9 [] (codes "team") finishing one_task).0

save-transition_example :
    (current : Task) × (load_task_from_index print_task read_task (codes "t1") one_task
      ≡ ok current)
    × (is_valid_transition_with_policy current.status (saved_status current finishing) [] ≡ true)
    × (load_task_from_index print_task read_task (codes "t1") finished
        ≡ ok (saved_task print_task read_task as_it_is 9 (codes "team") current finishing))
    × ((saved_task print_task read_task as_it_is 9 (codes "team") current finishing).status
        ≡ saved_status current finishing)
unfolding task_files
save-transition_example =
    save-transition print_task read_task as_it_is 9 [] (codes "team") read-print_task finishing
      one_task finished refl

abbrev created : Task
created = created_task print_task read_task as_it_is blank blank 9 (codes "team") ship

abbrev after_creation : TeamFiles
after_creation =
    put_files (codes "team") (append_task_indexed print_task read_task created no_files)
      (everywhere no_files)

-- A new task whose id has spaces around it keeps them, and is then not found by that id.
abbrev spaced : Task
spaced = created_task print_task read_task as_it_is blank blank 9 (codes "team") ship_later

spaced_task :
    load_task print_task read_task as_it_is
      (codes "team")
      (codes " t1 ")
      (everywhere (append_task_indexed print_task read_task spaced no_files))
    ≡ err TaskError.not_exist
unfolding task_files
spaced_task = refl
