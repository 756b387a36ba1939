-- ===== src/Daemon/State.antt =====
-- What the handlers of internal/daemon read and write for one project: its part of the disk, the
-- daemon's maps at the keys of this project, and the starts and notifications that leave the
-- daemon. Paths of task files are relative to the project's tasks directory.
use workingman.Prelude.{
  ℕ, suc, Bool, true, false, not, List, [], ◌∷◌, Str, str_eq, if◌then◌else◌, Option, none, some,
  is_some,
}
use workingman.Task.{Task, savable}
use workingman.Project.{Project, Reason, Writer, daemon, saved_as}
use workingman.Taskgraph.{Entry, Dir, missing, unreadable, entries}

-- agent.Kind, without the workingman agent, which belongs to no project.
pub data Kind : Type 0 where
  project planning task commit wolf archive review : Kind

-- The keys of the session map: the project's path, and the path with a marker.
pub data Slot : Type 0 where
  main planner wolf_slot archive_slot : Slot

-- A tracked session, with what its end callback has captured.
pub record Session : Type 0 where
  pub kind : Kind
  pub task_path : Str
  pub captured : Project
  pub closed : Bool

-- project.Load: a missing file, one that does not parse, or a project.
pub data ProjectFile : Type 0 where
  absent : ProjectFile
  broken : ProjectFile
  parsed : Project → ProjectFile

pub record World : Type 0 where
  -- the disk
  pub file : ProjectFile
  pub tasks : Dir
  pub intake : List Str
  -- sessions
  pub main_session : Option Session
  pub planner_session : Option Session
  pub wolf_session : Option Session
  pub archive_session : Option Session
  -- planningBusy, planningOffered, planningFailures, projectFailures, cleanupInFlight
  pub planning_busy : Bool
  pub offered : List Str
  pub planning_failures : ℕ
  pub project_failures : ℕ
  pub cleanup_in_flight : Bool
  -- the scheduler's specs at the project's key and at its #review key (a rung of the ladder)
  pub cron_spec : Option Str
  pub review_rung : Option ℕ
  -- reviewFinger, reviewBackoff, reviewFixCycles, reviewErrors
  pub review_finger : Option Str
  pub review_backoff : ℕ
  pub review_fix_cycles : ℕ
  pub review_errors : ℕ
  -- what leaves the daemon, last first, and how many outcomes of the outside were used
  pub launches : List (Kind × Str)
  pub notices : List Reason
  pub draws : ℕ

-- What a handler asks of the outside. The outcomes of writes and starts are drawn in order.
pub record Env : Type 0 where
  pub now : ℕ
  pub save_succeeds : ℕ → Bool
  pub start_succeeds : ℕ → Bool
  pub has_runner : Bool
  pub has_scheduler : Bool
  pub valid_spec : Str → Bool
  pub fingerprint : Project → Option Str
  pub repos_with_commits : Project → Option (List Str)
  pub running : Bool
  pub digest : Str → Str
  pub work_stream : Str
  pub tasks_dir : Str

unfoldable pub session_at : Slot → World → Option Session
session_at main w = w.main_session
session_at planner w = w.planner_session
session_at wolf_slot w = w.wolf_session
session_at archive_slot w = w.archive_session

unfoldable pub set_session : Slot → Option Session → World → World
set_session main s w = record w { main_session = s }
set_session planner s w = record w { planner_session = s }
set_session wolf_slot s w = record w { wolf_session = s }
set_session archive_slot s w = record w { archive_session = s }

-- hasSession
unfoldable pub has_session : Slot → World → Bool
unfolding session_at
has_session slot w = is_some (session_at slot w)

pub record Saved : Type 0 where
  pub world : World
  pub succeeded : Bool

-- project.SaveAs. A failed write leaves the old file.
unfoldable pub save_as : Env → Writer → Project → World → Saved
save_as env by p w =
    if env.save_succeeds w.draws
    then record {
      world = record w { file = parsed (record p { updated_by = by }); draws = suc (w.draws) };
      succeeded = true;
    }
    else record { world = record w { draws = suc (w.draws) }; succeeded = false }

-- project.Save
unfoldable pub save : Env → Project → World → Saved
unfolding save_as
save env p w = save_as env daemon p w

-- task.Load on a task's file.
pub data TaskFile : Type 0 where
  task_absent : TaskFile
  task_broken : TaskFile
  task_found : Task → TaskFile

unfoldable pub find_entry : List Entry → Str → TaskFile
find_entry [] path = task_absent
find_entry (e ∷ es) path =
    if str_eq e.file path
    then elim e.parsed [ none ↦ task_broken | some t ↦ task_found t ]
    else find_entry es path

unfoldable pub load_task_file : Dir → Str → TaskFile
unfolding find_entry
load_task_file missing path = task_absent
load_task_file unreadable path = task_absent
load_task_file (entries es) path = find_entry es path

unfoldable pub write_entry : List Entry → Str → Task → List Entry
write_entry [] path t = record { file = path; is_dir = false; parsed = some t } ∷ []
write_entry (e ∷ es) path t =
    if str_eq e.file path then record e { parsed = some t } ∷ es else e ∷ write_entry es path t

unfoldable pub write_dir : Dir → Str → Task → Dir
unfolding write_entry
write_dir (entries es) path t = entries (write_entry es path t)
write_dir dir path t = dir

-- task.Save: the guard on the name, then the write.
unfoldable pub save_task : Env → Str → Task → World → Saved
unfolding savable write_dir
save_task env path t w =
    if not (savable t)
    then record { world = w; succeeded = false }
    else if env.save_succeeds w.draws
    then record {
      world = record w { tasks = write_dir w.tasks path t; draws = suc (w.draws) };
      succeeded = true;
    }
    else record { world = record w { draws = suc (w.draws) }; succeeded = false }

-- How startSessionTracked ends: tracked, started and closed again because the key was taken, or
-- an error of the runner.
pub data Start : Type 0 where
  started lost failed : Start

pub record Started : Type 0 where
  pub world : World
  pub outcome : Start

abbrev pub session : Kind → Str → Project → Session
session kind path p = record { kind = kind; task_path = path; captured = p; closed = false }

-- startSessionTracked with trackSession.
unfoldable pub start_session : Env → Slot → Kind → Str → Project → World → Started
unfolding has_session set_session
start_session env slot kind path p w =
    let drawn = record w { draws = suc (w.draws) } in
    if not (env.start_succeeds w.draws)
    then record { world = drawn; outcome = failed }
    else if has_session slot w
    then record { world = drawn; outcome = lost }
    else record {
      world =
          set_session slot (some (session kind path p))
            (record drawn { launches = (kind, path) ∷ w.launches });
      outcome = started;
    }

-- clearReviewPolling and clearReviewState
unfoldable pub clear_review_polling : World → World
clear_review_polling w = record w { review_finger = none; review_backoff = 0 }

unfoldable pub clear_review_state : World → World
clear_review_state w = record w {
  review_finger = none;
  review_backoff = 0;
  review_fix_cycles = 0;
  review_errors = 0;
}

-- scheduler.Unregister at the two keys of the project, where there is a scheduler.
unfoldable pub unregister_cron : Env → World → World
unregister_cron env w = if env.has_scheduler then record w { cron_spec = none } else w

unfoldable pub unregister_review : Env → World → World
unregister_review env w = if env.has_scheduler then record w { review_rung = none } else w

-- isStopped
unfoldable pub is_stopped : World → Bool
is_stopped w = elim w.file [
  | parsed p ↦ workingman.Project.status_eq p.status workingman.Project.stopped
  | _ ↦ false
]
