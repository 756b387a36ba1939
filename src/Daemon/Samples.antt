-- ===== src/Daemon/Samples.antt =====
-- Tests of the daemon's steps on one project.
use workingman.Prelude.{
  List, ◌+◌, ◌<◌, is_some, ◌||◌, ◌≡◌, refl, arith, true, false, none, some, [], ◌∷◌, codes, str_eq,
  all,
}
use workingman.Sbx.Samples.{sample_digest}
use workingman.Project
use workingman.Project.{Project, empty_project, cron_expired, cron_unbounded}
use workingman.Taskgraph.{all_committed, sorted_tasks}
use workingman.Taskgraph.Samples.{sample_dir, sample_graph, sample_loads}
use workingman.Daemon.State.{World, Env, Kind, session, planner, parsed, save}
use workingman.Daemon.Route.{handle_project, dispatch_project}
use workingman.Daemon.Tasks.{dispatch_next_task}
use workingman.Daemon.Ends.{Exit}
use workingman.Daemon.Events.{boot, next, step, booted, project_event, session_ends}
use workingman.Daemon.Protocol.{Moves, slots_of}
use workingman.Daemon.Protocol.Route.{dispatch_project-Moves}
use workingman.Daemon.Slots.{IsGuarded, Reachable-IsGuarded}
use workingman.Daemon.Stop.{is_own, step-stopped}
use workingman.Daemon.Liveness.{CanStart, Holds, is_resumable, dispatch_next_task-Holds}
use workingman.Daemon.Dispatch.{register_cron_if_any}
use workingman.Daemon.Cron.{register_cron_if_any-dropped}
use workingman.Daemon.Ends.{handle_task_failure, max_task_attempts}
use workingman.Daemon.Attempts.{handle_task_failure-recorded}
use workingman.Daemon.State.{load_task_file, task_found}
use workingman.Task
use workingman.Task.{Task}
use workingman.Taskgraph.{Entry, entries}
use workingman.Taskgraph.Samples.{sample_task}
use workingman.Daemon.Writes.{handle_project-save}

-- An environment in which every write and start succeeds.
abbrev pub sample_env : Env
sample_env = record {
  now = 10;
  save_succeeds = λ _. true;
  start_succeeds = λ _. true;
  has_runner = true;
  has_scheduler = true;
  valid_spec = λ _. true;
  fingerprint = λ _. none;
  repos_with_commits = λ _. some [];
  running = true;
  digest = sample_digest;
  work_stream = codes "orch-s";
  tasks_dir = codes "t";
}

abbrev pub in_status : Project.Status → Project
in_status s = record empty_project { description = codes "auth"; status = s; created_at = some 1 }

-- A project that is ready when the daemon starts, and the start of its planning agent.
abbrev pub ready_world : World
ready_world = booted (parsed (in_status Project.ready)) sample_dir (codes "intake/a.md" ∷ [])

abbrev planned_world : World
planned_world = step sample_env project_event ready_world

planned_world-launches : planned_world.launches ≡ (Kind.planning, []) ∷ []
unfolding step booted str_eq
planned_world-launches = refl

Reachable-IsGuarded_example : IsGuarded planned_world
Reachable-IsGuarded_example = Reachable-IsGuarded planned_world (
    next sample_env project_event refl
      (boot (parsed (in_status Project.ready)) sample_dir (codes "intake/a.md" ∷ [])))

dispatch_project-Moves_example :
    Moves
      (slots_of ready_world)
      (slots_of (dispatch_project sample_env (in_status Project.ready) ready_world))
dispatch_project-Moves_example =
    dispatch_project-Moves sample_env (in_status Project.ready) ready_world

-- A stopped project whose planning agent is still being closed.
abbrev stopped_world : World
stopped_world = record (booted (parsed (in_status Project.stopped)) sample_dir []) {
  planner_session = some (session Kind.planning [] (in_status Project.ready));
  planning_busy = true;
}

abbrev crashed : Exit
crashed = record { wait_failed = true; start_failure = [] }

stopped_own : is_own (session_ends planner crashed) ≡ true
unfolding is_own
stopped_own = refl

stopped_file : stopped_world.file ≡ parsed (in_status Project.stopped)
unfolding booted
stopped_file = refl

step-stopped_example :
    (step sample_env (session_ends planner crashed) stopped_world).launches ≡ stopped_world.launches
step-stopped_example =
    step-stopped sample_env (session_ends planner crashed) (in_status Project.stopped) stopped_world
      stopped_own stopped_file refl

-- A working project with a task that is ready.
abbrev working_world : World
working_world = booted (parsed (in_status Project.working)) sample_dir []

working_loads :
    workingman.Taskgraph.load sample_env.digest sample_env.work_stream sample_env.tasks_dir
      working_world.tasks
    ≡ workingman.Taskgraph.ok sample_graph
unfolding booted
working_loads = sample_loads

sample_open : all_committed sample_graph ≡ false
unfolding all_committed
sample_open = refl

sample_resumable : all is_resumable (sorted_tasks sample_graph) ≡ true
unfolding sorted_tasks is_resumable str_eq
sample_resumable = refl

working-CanStart : CanStart sample_env working_world
unfolding booted
working-CanStart = record { runner = refl; free = refl; starts = refl }

dispatch_next_task-Holds_example :
    Holds
      (in_status Project.working)
      sample_graph
      ((dispatch_next_task sample_env (in_status Project.working) working_world).main_session)
dispatch_next_task-Holds_example =
    dispatch_next_task-Holds sample_env (in_status Project.working) sample_graph working_world
      working_loads (omega arith) sample_open sample_resumable working-CanStart

-- The save of a project that an agent has written.
sample_saved : (save sample_env (in_status Project.idle) ready_world).succeeded ≡ true
unfolding save
sample_saved = refl

handle_project-save_example :
    handle_project sample_env ((save sample_env (in_status Project.idle) ready_world).world)
    ≡ (save sample_env (in_status Project.idle) ready_world).world
handle_project-save_example =
    handle_project-save sample_env sample_env (in_status Project.idle) ready_world sample_saved

-- A schedule whose runs are used up.
abbrev spent_project : Project
spent_project = record (in_status Project.idle) {
  cron = codes "@hourly";
  cron_max_runs = 2;
  cron_runs = 2;
}

spent-expired : (cron_expired sample_env.now spent_project || cron_unbounded spent_project) ≡ true
unfolding cron_expired cron_unbounded
spent-expired = refl

register_cron_if_any-dropped_example :
    ((register_cron_if_any sample_env spent_project
      (record ready_world { cron_spec = some (codes "@hourly") })).world
    ).cron_spec
    ≡ none
register_cron_if_any-dropped_example =
    register_cron_if_any-dropped sample_env spent_project
      (record ready_world { cron_spec = some (codes "@hourly") }) refl refl spent-expired

-- A task that has failed once.
abbrev failed_task : Task
failed_task = record (sample_task (codes "b") [] Task.failed) {
  attempts = 1;
  failure_reason = codes "tests fail";
}

abbrev failed_files : List Entry
failed_files = record { file = codes "b.yaml"; is_dir = false; parsed = some failed_task } ∷ []

abbrev failed_world : World
failed_world = booted (parsed (in_status Project.working)) (entries failed_files) []

failed_tasks : failed_world.tasks ≡ entries failed_files
unfolding booted
failed_tasks = refl

failed_free : failed_world.main_session ≡ none
unfolding booted
failed_free = refl

failed_restarts :
    is_some (
      (handle_task_failure sample_env
        (codes "b.yaml")
        (in_status Project.working)
        failed_task
        failed_world).main_session)
    ≡ true
unfolding handle_task_failure booted str_eq
failed_restarts = refl

handle_task_failure-recorded_example :
    (failed_task.attempts < max_task_attempts)
    × (load_task_file
          ((handle_task_failure sample_env
            (codes "b.yaml")
            (in_status Project.working)
            failed_task
            failed_world).tasks)
          (codes "b.yaml")
        ≡ task_found (record failed_task {
          attempts = failed_task.attempts + 1;
          status = Task.ready;
          failure_reason = [];
        }))
handle_task_failure-recorded_example =
    handle_task_failure-recorded sample_env (codes "b.yaml") (in_status Project.working) failed_task
      failed_files failed_world failed_tasks failed_free failed_restarts
