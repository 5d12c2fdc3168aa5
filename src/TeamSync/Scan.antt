-- ===== src/TeamSync/Scan.antt =====
-- The scans of messages, events and tasks (internal/aip2p/team_sync.go: the loops of
-- `syncTeamMessages`, `syncTeamHistory` and `syncTeamTasks`). The items are what the store has loaded,
-- newest first; whether the list was scanned before and whether the transport takes a message with a
-- given key are arguments. A scan runs at one time `now`.
pub mod Steps
use ai_p2p.Prelude.{
  ℕ, Bool, true, false, ◌||◌, List, [], ◌∷◌, ◌++◌, if◌then◌else◌, is_nil, Option, none, some,
}
use ai_p2p.Text.{Text, codes, trim_space}
use ai_p2p.Team.Task.{Task, task_version}
use ai_p2p.TeamSync.Message.{
  TeamMessage, ChangeEvent, TeamSyncMessage, normalize_sync, sync_key, cursor_key, subject_key,
  joined,
}
use ai_p2p.TeamSync.Queue.{Runtime, scan_item}

-- A message that carries one record.
abbrev pub carrier : ℕ → Text → Text → Text → TeamSyncMessage
carrier now node_id kind team_id = record {
  kind = kind;
  team_id = team_id;
  message = none;
  history = none;
  task = none;
  artifact = none;
  members = [];
  policy = none;
  channel = none;
  channel_config = none;
  ack = none;
  source_node = node_id;
  created_at = now;
}

-- `teamSyncMessageKey` and `teamSyncHistoryKey`.
unfoldable pub id_key : Text → Text → Text
id_key prefix raw = let id = trim_space raw in if is_nil id then [] else prefix ++ id

module _ (path_unescape : Text → Option Text) (format_stamp format_rfc3339 : ℕ → Text) (now : ℕ)
    (first_scan : Bool) (takes : Text → Bool) (team_id : Text) where
  -- `buildMessageIDForSync`.
  unfoldable pub build_message_id_for_sync : TeamMessage → Text
  build_message_id_for_sync m =
      joined (trim_space m.team_id) (trim_space m.channel_id) (trim_space m.author_agent_id)
        (format_rfc3339 m.created_at) (trim_space m.content)

  -- One turn of the loop of `syncTeamMessages`.
  unfoldable pub scan_message : Text → TeamMessage → Runtime → Runtime
  scan_message channel_id raw r =
      let msg : TeamMessage = record raw {
        message_id =
            if is_nil (trim_space raw.message_id)
            then build_message_id_for_sync raw
            else raw.message_id;
      } in
      let key = id_key (codes "message:") msg.message_id in
      let m =
        normalize_sync path_unescape format_stamp format_rfc3339 now
          (record (carrier now r.node_id (codes "message") team_id) { message = some msg }) in
      (scan_item path_unescape format_stamp format_rfc3339 now first_scan (takes key) key
        (subject_key path_unescape format_stamp format_rfc3339 (codes "message:") team_id
          channel_id)
        msg.created_at m r).1

  -- One turn of the loop of `syncTeamHistory`.
  unfoldable pub scan_event : ChangeEvent → Runtime → Runtime
  scan_event event r =
      let key = id_key (codes "history:") event.event_id in
      let m =
        normalize_sync path_unescape format_stamp format_rfc3339 now
          (record (carrier now r.node_id (codes "history") team_id) { history = some event }) in
      let scanned =
        (scan_item path_unescape format_stamp format_rfc3339 now first_scan (takes key) key
          (cursor_key path_unescape format_stamp format_rfc3339 (codes "history:") team_id)
          event.created_at m r).1 in
      if is_nil (trim_space event.scope) || is_nil (trim_space event.event_id) then r else scanned

  -- One turn of the loop of `syncTeamTasks`.
  unfoldable pub scan_task : Task → Runtime → Runtime
  scan_task task r =
      let m =
        normalize_sync path_unescape format_stamp format_rfc3339 now
          (record (carrier now r.node_id (codes "task") team_id) { task = some task }) in
      let key = sync_key path_unescape format_stamp format_rfc3339 m in
      (scan_item path_unescape format_stamp format_rfc3339 now first_scan (takes key) key
        (subject_key path_unescape format_stamp format_rfc3339 (codes "task:") team_id task.task_id)
        (task_version task) m r).1

  -- `for i := len(items) - 1; i >= 0; i--`.
  unfoldable pub from_last {ℓ} : {A : Type ℓ} → (A → Runtime → Runtime) → List A → Runtime → Runtime
  from_last turn [] r = r
  from_last turn (item ∷ items) r = turn item (from_last turn items r)

  -- The loops.
  unfoldable pub sync_team_messages : Text → List TeamMessage → Runtime → Runtime
  sync_team_messages channel_id items r = from_last (scan_message channel_id) items r

  unfoldable pub sync_team_history : List ChangeEvent → Runtime → Runtime
  sync_team_history items r = from_last scan_event items r

  unfoldable pub sync_team_tasks : List Task → Runtime → Runtime
  sync_team_tasks items r = from_last scan_task items r
