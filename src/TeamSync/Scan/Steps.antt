-- ===== src/TeamSync/Scan/Steps.antt =====
-- The scans as runs of a node (internal/aip2p/team_sync.go).
use ai_p2p.Prelude.{ℕ, Bool, ◌||◌, List, [], ◌∷◌, is_nil, Option, inl, inr, Bool-cases}
use ai_p2p.Text.{Text, trim_space}
use ai_p2p.Team.Task.{Task}
use ai_p2p.TeamSync.Message.{TeamMessage, ChangeEvent}
use ai_p2p.TeamSync.Queue.{Runtime}
use ai_p2p.TeamSync.Receive.Runs.{Run}
use ai_p2p.TeamSync.Scan.{
  scan_message, scan_event, scan_task, from_last, sync_team_messages, sync_team_history,
  sync_team_tasks,
}

module _ (path_unescape : Text → Option Text) (format_stamp format_rfc3339 : ℕ → Text) where
  abbrev pub Runs : Runtime → Runtime → Type 0
  Runs = Run path_unescape format_stamp format_rfc3339

  Runs-trans : {r s last : Runtime} → Runs r s → Runs s last → Runs r last
  Runs-trans Run.start after = after
  Runs-trans (Run.scan now first_scan delivered key cursor version m rest) after =
      Run.scan now first_scan delivered key cursor version m (Runs-trans rest after)
  Runs-trans (Run.receipt now delivered m outcome rest) after =
      Run.receipt now delivered m outcome (Runs-trans rest after)
  Runs-trans (Run.prune now max_age rest) after = Run.prune now max_age (Runs-trans rest after)

  module _ (now : ℕ) (first_scan : Bool) (takes : Text → Bool) (team_id : Text) where
    from_last-Runs {ℓ} :
        {A : Type ℓ} (turn : A → Runtime → Runtime)
        → ((a : A) (r : Runtime) → Runs r (turn a r))
        → (items : List A) (r : Runtime)
        → Runs r (
            from_last path_unescape format_stamp format_rfc3339 now first_scan takes team_id turn
              items r)
    unfolding from_last
    from_last-Runs turn step [] r = Run.start
    from_last-Runs turn step (a ∷ items) r = Runs-trans (from_last-Runs turn step items r) (
        step a (
          from_last path_unescape format_stamp format_rfc3339 now first_scan takes team_id turn
            items r))

    -- The scan of a channel's messages, of a team's events and of its tasks are runs.
    sync_team_messages-Runs :
        (channel_id : Text) (items : List TeamMessage) (r : Runtime)
        → Runs r (
            sync_team_messages path_unescape format_stamp format_rfc3339 now first_scan takes
              team_id channel_id items r)
    unfolding sync_team_messages scan_message
    sync_team_messages-Runs channel_id items r =
        from_last-Runs _ (λ msg s. Run.scan now first_scan _ _ _ _ _ Run.start) items r

    sync_team_history-Runs :
        (items : List ChangeEvent) (r : Runtime)
        → Runs r (
            sync_team_history path_unescape format_stamp format_rfc3339 now first_scan takes team_id
              items r)
    unfolding sync_team_history scan_event
    sync_team_history-Runs items r = from_last-Runs _ step items r
      where
        step :
            (event : ChangeEvent) (s : Runtime)
            → Runs s (
                scan_event path_unescape format_stamp format_rfc3339 now first_scan takes team_id
                  event s)
        step event s =
            elim (Bool-cases
              (is_nil (trim_space event.scope) || is_nil (trim_space event.event_id))) [
                | inl skipped ↦ rw skipped Run.start
                | inr scanned ↦ rw scanned (Run.scan now first_scan _ _ _ _ _ Run.start)
              ]

    sync_team_tasks-Runs :
        (items : List Task) (r : Runtime)
        → Runs r (
            sync_team_tasks path_unescape format_stamp format_rfc3339 now first_scan takes team_id
              items r)
    unfolding sync_team_tasks scan_task
    sync_team_tasks-Runs items r =
        from_last-Runs _ (λ task s. Run.scan now first_scan _ _ _ _ _ Run.start) items r
