-- ===== src/TeamSync/Tests/Conflicts.antt =====
-- Examples of conflicts and of their resolution.
use ai_p2p.Prelude.{
  map, ◌⊎◌, ℕ, suc, false, [], ◌∷◌, ◌≡◌, ◌≤◌, ◌↔◌, refl, any, Option, none, some, All, arith,
  length, if◌then◌else◌, ◌==◌, keep,
}
use ai_p2p.Prelude.Results.{Result, ok, err}
use ai_p2p.Prelude.Sorting.{IsSorted, insert_sorted, sort_stable}
use ai_p2p.Text.{Text, codes, text_eq, trim_space, to_lower, contains, has_prefix}
use ai_p2p.TextMap.{lookup, insert, rebuild}
use ai_p2p.Team.Id.{
  replace_char, replace_pair, contains_pair, squeeze, trim_edge_left, trim_edge_right, or_same,
  replace_separators, clean, reject_path, normalize_team_id, normalize_channel_id,
}
use ai_p2p.TeamSync.Message.{
  TeamSyncMessage, team_sync_type, normalize_team_sync_type, normalize_sync,
}
use ai_p2p.TeamSync.State.{Conflict, PersistedState, new_persisted_state}
use ai_p2p.TeamSync.Compact.{
  rewrite_entries, trim_acks, compact_peer, compact_pending, compact_conflict,
  compact_team_sync_state,
}
use ai_p2p.TeamSync.Merge.{
  merge_entries, merge_peer_acks, replaces, merge_conflicts, merge_team_sync_state,
}
use ai_p2p.TeamSync.Queue.{Runtime, write_team_sync_state, save_state}
use ai_p2p.TeamSync.Conflicts.{
  ConflictRecord, ConflictFilter, ResolveError, record_of, resolved_conflict, newer_record, take,
  is_replay_safe, is_listed, listed_records, load_team_sync_conflicts, act,
  resolve_team_sync_conflict,
}
use ai_p2p.TeamSync.Conflicts.Resolution.{lookup-save_state_resolved}
use ai_p2p.TeamSync.Conflicts.Resolve.{IsActed, resolve-eq-ok}
use ai_p2p.TeamSync.Conflicts.Refusal.{is_allowed, kind_of, resolve-invalid_iff}
use ai_p2p.TeamSync.Conflicts.Shown.{IsShown}
use ai_p2p.TeamSync.Conflicts.Listing.{IsListed, IsAnswered, load_team_sync_conflicts-IsListed}

-- Naming it unfolds the operations, so that the examples compute.
conflict_operations : Unit {0}
unfolding any keep text_eq trim_space to_lower contains has_prefix lookup insert rebuild
    replace_char replace_pair contains_pair squeeze trim_edge_left trim_edge_right or_same
    replace_separators clean reject_path normalize_team_id normalize_channel_id insert_sorted
    sort_stable team_sync_type normalize_team_sync_type normalize_sync rewrite_entries trim_acks
    compact_peer compact_pending compact_conflict compact_team_sync_state merge_entries
    merge_peer_acks replaces merge_conflicts merge_team_sync_state write_team_sync_state save_state
    take is_replay_safe is_listed listed_records load_team_sync_conflicts act
    resolve_team_sync_conflict
conflict_operations = tt

abbrev as_it_is : Text → Option Text
as_it_is s = some s

abbrev stamp : ℕ → Text
stamp n = n ∷ []

-- A store that counts what it has applied.
abbrev count_applied : TeamSyncMessage → ℕ → Result Text ℕ
count_applied m n = ok (suc n)

abbrev member_sync : TeamSyncMessage
member_sync = record {
  kind = codes "member";
  team_id = codes "t";
  message = none;
  history = none;
  task = none;
  artifact = none;
  members = [];
  policy = none;
  channel = none;
  channel_config = none;
  ack = none;
  source_node = codes "b";
  created_at = 6;
}

abbrev conflict : Conflict
conflict = record {
  key = codes "k";
  kind = codes "member";
  team_id = codes "t";
  subject_id = codes "t";
  source_node = codes "b";
  reason = codes "local_newer";
  local_version = 7;
  remote_version = 6;
  resolution = [];
  resolved_by = [];
  resolved_at = 0;
  sync = member_sync;
  updated_at = 10;
}

abbrev conflict_file : PersistedState
conflict_file = record new_persisted_state { conflicts = (codes "k", conflict) ∷ [] }

abbrev accepted : Conflict
accepted = resolved_conflict 20 (codes "accept_remote") (codes "x") conflict

abbrev accepted_file : PersistedState
accepted_file = record new_persisted_state { conflicts = (codes "k", accepted) ∷ [] }

resolve-eq-ok_example :
    IsActed as_it_is stamp stamp count_applied 20 (trim_space (codes " accept_remote")) conflict 0 1
    × (record_of accepted
        ≡ record_of
            (resolved_conflict 20 (trim_space (codes " accept_remote")) (codes "x") conflict))
    × (lookup (trim_space (codes "k ")) accepted_file.conflicts
        ≡ some (resolved_conflict 20 (trim_space (codes " accept_remote")) (codes "x") conflict))
unfolding conflict_operations
resolve-eq-ok_example =
    resolve-eq-ok as_it_is stamp stamp count_applied 20 (codes "t") (codes "k ")
      (codes " accept_remote") (codes "x") 0 1 conflict_file accepted_file (record_of accepted)
      conflict (refl, tt) refl refl (ground arith) refl

resolve-invalid_iff_example :
    (resolve_team_sync_conflict as_it_is stamp stamp count_applied 20
        (codes "t")
        (codes "k")
        (codes "drop")
        (codes "x")
        0
        conflict_file
      ≡ err ResolveError.invalid)
    ↔ (is_allowed as_it_is stamp stamp count_applied
          (kind_of as_it_is stamp stamp count_applied 20 conflict)
          (trim_space (codes "drop"))
        ≡ false)
unfolding conflict_operations
resolve-invalid_iff_example =
    resolve-invalid_iff as_it_is stamp stamp count_applied 20 (codes "t") (codes "k") (codes "drop")
      (codes "x") 0 conflict_file conflict refl refl

-- A running node whose memory has the conflict as it was.
abbrev running : Runtime
running = record {
  node_id = codes "a";
  started_at = 1;
  seen = [];
  state = conflict_file;
  file = accepted_file;
}

lookup-save_state_resolved_example :
    (lookup (codes "k") (save_state 30 conflict_file running).state.conflicts ≡ some accepted)
    × (lookup (codes "k") (save_state 30 conflict_file running).file.conflicts ≡ some accepted)
unfolding conflict_operations
lookup-save_state_resolved_example =
    lookup-save_state_resolved 30 conflict_file running (codes "k") conflict accepted (refl, tt)
      refl refl refl (ground arith) refl (ground arith)

abbrev open_conflicts : ConflictFilter
open_conflicts = record {
  kind = [];
  subject_id = [];
  source_node = [];
  limit = 1;
  include_resolved = false;
}

-- A file with an open conflict, one that is resolved, and a newer open one.
abbrev listing_file : PersistedState
listing_file = record new_persisted_state {
  conflicts =
      (codes "k", conflict)
      ∷ (codes "l", record accepted { key = codes "l" })
      ∷ (codes "m", record conflict { key = codes "m"; updated_at = 15 })
      ∷ [];
}

newest_open :
    map
      (λ (a : ConflictRecord). a.key)
      (load_team_sync_conflicts as_it_is stamp stamp (codes "T") open_conflicts listing_file)
    ≡ codes "m" ∷ []
unfolding conflict_operations
newest_open = refl

load_team_sync_conflicts-IsListed_example :
    All
      (IsListed as_it_is stamp stamp
        (normalize_team_id as_it_is (codes "T"))
        open_conflicts
        listing_file.conflicts)
      (load_team_sync_conflicts as_it_is stamp stamp (codes "T") open_conflicts listing_file)
    × IsSorted newer_record
        (load_team_sync_conflicts as_it_is stamp stamp (codes "T") open_conflicts listing_file)
    × (length
          (load_team_sync_conflicts as_it_is stamp stamp (codes "T") open_conflicts listing_file)
        ≤ (if open_conflicts.limit == 0
            then length listing_file.conflicts
            else open_conflicts.limit))
    × All
        (λ e.
          (¬ IsShown as_it_is stamp stamp
            (normalize_team_id as_it_is (codes "T"))
            open_conflicts
            e.1)
          ⊎ IsAnswered open_conflicts.limit (record_of e.1) (
              load_team_sync_conflicts as_it_is stamp stamp
                (codes "T")
                open_conflicts
                listing_file))
        listing_file.conflicts
load_team_sync_conflicts-IsListed_example =
    load_team_sync_conflicts-IsListed as_it_is stamp stamp (codes "T") open_conflicts listing_file
