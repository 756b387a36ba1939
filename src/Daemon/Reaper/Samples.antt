-- ===== src/Daemon/Reaper/Samples.antt =====
-- Tests and an instance for the reaper.
use workingman.Prelude.{◌≡◌, refl, ℕ, false, true, none, str_eq, List, [], ◌∷◌, map}
use workingman.Agent.{Kind, planning_agent, wolf_agent, archive_agent, workingman_agent}
use workingman.Project
use workingman.Daemon.State.{World, planner, wolf_slot, archive_slot, parsed}
use workingman.Daemon.Events.{booted}
use workingman.Daemon.Samples.{sample_env, ready_world, in_status}
use workingman.Daemon.Reaper.{Key, at_slot, workingman_key, Tracked, reap_stranded_sessions}
use workingman.Daemon.Reaped.{Pairwise, Scanned, reap_stranded_sessions-Scanned}

abbrev since : Kind → ℕ → Tracked
since kind start = record {
  kind = kind;
  task_name = [];
  started_at = start;
  log_written = none;
  closed = false;
}

-- A working project whose planner has done its intake, and four silent agents.
abbrev planned : World
planned = record ready_world { file = parsed (in_status Project.working) }

abbrev silent : List (Key × Tracked)
silent =
    (at_slot planner, since planning_agent 100)
    ∷ (at_slot wolf_slot, since wolf_agent 0)
    ∷ (at_slot archive_slot, since archive_agent 100)
    ∷ (workingman_key, since workingman_agent 0)
    ∷ []

reap_stranded_sessions-Scanned_example :
    Pairwise
      (Scanned (record sample_env { now = 200 }) 1200 planned)
      silent
      (reap_stranded_sessions (record sample_env { now = 200 }) 1200 planned silent)
reap_stranded_sessions-Scanned_example =
    reap_stranded_sessions-Scanned (record sample_env { now = 200 }) 1200 planned silent

scan_closes_planner :
    map
      (λ (x : Key × Tracked). x.1.closed)
      (reap_stranded_sessions (record sample_env { now = 200 }) 1200 planned silent)
    ≡ true ∷ false ∷ false ∷ false ∷ []
unfolding reap_stranded_sessions Project.status_eq booted
scan_closes_planner = refl

-- An intake file that the planner was offered and that is still there keeps its stage open.
scan_spares_planner :
    map
      (λ (x : Key × Tracked). x.1.closed)
      (reap_stranded_sessions
        (record sample_env { now = 200 })
        1200
        (record planned { offered = planned.intake })
        silent)
    ≡ false ∷ false ∷ false ∷ false ∷ []
unfolding reap_stranded_sessions Project.status_eq booted str_eq
scan_spares_planner = refl
