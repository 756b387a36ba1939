-- ===== src/Daemon/Events.antt =====
-- The events of one project and its runs. A handler is one step: the interleavings inside a handler
-- are not modelled. Between steps, agents and people may write anything into the project's files.
use workingman.Prelude.{◌≡◌, true, false, not, List, [], Str, if◌then◌else◌, Option, none, some}
use workingman.Taskgraph.{Dir}
use workingman.Daemon.State.{World, Env, Kind, Session, Slot, ProjectFile, session_at, set_session}
use workingman.Daemon.Review.{on_review_poll}
use workingman.Daemon.Route.{
  handle_project, revisit_project, handle_project_seed, handle_intake_file, on_cron_fired,
}
use workingman.Daemon.Ends.{
  Exit, after_planning_session, after_project_session, after_task_session, after_commit_session,
  after_archive_session,
}
use workingman.Daemon.ReviewEnd.{after_review_session}

-- The callback that the launch of an agent of this kind gave to its session.
unfoldable pub on_end : Env → Exit → Session → World → World
unfolding after_planning_session after_project_session after_task_session after_commit_session
    after_archive_session after_review_session revisit_project
on_end env exit s w = elim s.kind [
  | Kind.project ↦ after_project_session env exit.wait_failed w
  | Kind.planning ↦ after_planning_session env exit.wait_failed w
  | Kind.task ↦ after_task_session env s.task_path s.captured w
  | Kind.commit ↦ after_commit_session env exit s.task_path s.captured w
  | Kind.wolf ↦ revisit_project env w
  | Kind.archive ↦ after_archive_session env w
  | Kind.review ↦ after_review_session env exit.wait_failed w
]

-- The goroutine of trackSession when the session at a key ends.
unfoldable pub end_session : Env → Exit → Slot → World → World
unfolding session_at set_session on_end
end_session env exit slot w = elim (session_at slot w) [
  | none ↦ w
  | some s ↦
      let untracked = set_session slot none w in
      if not env.running then untracked else on_end env exit s untracked
]

-- An event of the watcher (`project_event`, `seed_event` and `intake_event` with the text of the
-- file), of the scheduler, or the end of a session; `outside_write` is any change of the disk.
pub data Event : Type 0 where
  outside_write : ProjectFile → Dir → List Str → Event
  project_event : Event
  seed_event intake_event : Option Str → Event
  cron_fires review_poll_fires : Event
  session_ends : Slot → Exit → Event

unfoldable pub step : Env → Event → World → World
unfolding handle_project handle_project_seed handle_intake_file on_cron_fired on_review_poll
    end_session
step env (outside_write file tasks intake) w = record w {
  file = file;
  tasks = tasks;
  intake = intake;
}
step env project_event w = handle_project env w
step env (seed_event text) w = handle_project_seed env text w
step env (intake_event text) w = handle_intake_file env text w
step env cron_fires w = if env.has_scheduler then on_cron_fired env w else w
step env review_poll_fires w = on_review_poll env w
step env (session_ends slot exit) w = end_session env exit slot w

-- The state of a daemon that has just started, on any disk.
unfoldable pub booted : ProjectFile → Dir → List Str → World
booted file tasks intake = record {
  file = file;
  tasks = tasks;
  intake = intake;
  main_session = none;
  planner_session = none;
  wolf_session = none;
  archive_session = none;
  planning_busy = false;
  offered = [];
  planning_failures = 0;
  project_failures = 0;
  cleanup_in_flight = false;
  cron_spec = none;
  review_rung = none;
  review_finger = none;
  review_backoff = 0;
  review_fix_cycles = 0;
  review_errors = 0;
  launches = [];
  notices = [];
  draws = 0;
}

-- The states of a daemon that has not begun to shut down. The environment may differ in each step.
pub data Reachable : World → Type 0 where
  boot :
      (file : ProjectFile) (tasks : Dir) (intake : List Str) → Reachable (booted file tasks intake)
  next :
      {w : World} (env : Env) (e : Event)
      → env.running ≡ true
      → Reachable w
      → Reachable (step env e w)
