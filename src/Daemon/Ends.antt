-- ===== src/Daemon/Ends.antt =====
-- The callbacks at the end of a session (internal/daemon/dispatch.go and dispatch_lifecycle.go; that
-- of the review agent is in `ReviewEnd`). Each runs when its session has left the session map.
use workingman.Prelude.{
  ℕ, ◌+◌, Bool, true, false, ◌&&◌, not, [], Str, leb, is_empty, if◌then◌else◌, none, some, is_some,
}
use workingman.Task
use workingman.Task.{Task, is_push_task}
use workingman.Taskgraph.{all_committed, ready}
use workingman.Project.{
  Project, Status, status_eq, unpopulated, planning_could_not_run, project_could_not_run,
  planning_no_progress, project_no_progress, task_file_missing, task_load_error, task_save_error,
  task_reported_blocked, task_committed_itself, task_failed, commit_load_error,
  commit_not_committed, commit_could_not_start, no_ready_tasks_remain,
}
use workingman.Daemon.State.{
  World, Env, save, save_task, load_task_file, task_absent, task_broken, task_found, parsed,
  is_stopped,
}
use workingman.Daemon.Blocked.{transition_project_blocked}
use workingman.Daemon.Review.{transition_project_complete}
use workingman.Daemon.Tasks.{
  defer_to_planner, load_task_graph, launch_commit_agent, launch_task_agent, dispatch_ready_task,
  first_uncommitted_success, first_of_list,
}
use workingman.Daemon.Dispatch.{end_planning, end_cleanup}
use workingman.Daemon.Route.{dispatch_project, revisit_project, clear_replan}

-- How a session ended: whether Wait returned an error, and what the runner says of a failed start.
pub record Exit : Type 0 where
  pub wait_failed : Bool
  pub start_failure : Str

abbrev pub max_planning_retries : ℕ
max_planning_retries = 3

abbrev pub max_project_retries : ℕ
max_project_retries = 3

abbrev pub max_task_attempts : ℕ
max_task_attempts = 3

-- resetPlanningFailures and resetProjectFailures
unfoldable pub reset_planning_failures : World → World
reset_planning_failures w = record w { planning_failures = 0 }

unfoldable pub reset_project_failures : World → World
reset_project_failures w = record w { project_failures = 0 }

-- bumpPlanningFailures and bumpProjectFailures
unfoldable pub bump_planning_failures : World → World
bump_planning_failures w = record w { planning_failures = w.planning_failures + 1 }

unfoldable pub bump_project_failures : World → World
bump_project_failures w = record w { project_failures = w.project_failures + 1 }

-- The part of afterPlanningSession where the project is still ready.
unfoldable pub retry_planning : Env → Bool → Project → World → World
unfolding reset_planning_failures bump_planning_failures transition_project_blocked revisit_project
retry_planning env wait_failed p w =
    if wait_failed
    then transition_project_blocked env p planning_could_not_run (reset_planning_failures w)
    else let bumped = bump_planning_failures w in
      if leb max_planning_retries bumped.planning_failures
      then transition_project_blocked env p (planning_no_progress bumped.planning_failures)
          (reset_planning_failures bumped)
      else if env.running
      then revisit_project env bumped
      else bumped

-- afterPlanningSession
unfoldable pub after_planning_session : Env → Bool → World → World
unfolding end_planning reset_planning_failures clear_replan dispatch_project retry_planning
after_planning_session env wait_failed w =
    let ended = end_planning w in
    elim ended.file [
      | parsed p ↦
          if not (status_eq p.status Status.ready)
          then (let cleared = clear_replan env p (reset_planning_failures ended) in
              dispatch_project env cleared.project cleared.world)
          else retry_planning env wait_failed p ended
      | _ ↦ reset_planning_failures ended
    ]

-- The part of afterProjectSession where the project is still unpopulated.
unfoldable pub retry_project : Env → Bool → Project → World → World
unfolding reset_project_failures bump_project_failures transition_project_blocked revisit_project
retry_project env wait_failed p w =
    if wait_failed
    then transition_project_blocked env p project_could_not_run (reset_project_failures w)
    else let bumped = bump_project_failures w in
      if leb max_project_retries bumped.project_failures
      then transition_project_blocked env p (project_no_progress bumped.project_failures)
          (reset_project_failures bumped)
      else if env.running
      then revisit_project env bumped
      else bumped

-- afterProjectSession
unfoldable pub after_project_session : Env → Bool → World → World
unfolding reset_project_failures unpopulated dispatch_project retry_project
after_project_session env wait_failed w = elim w.file [
  | parsed p ↦
      if not (unpopulated p)
      then dispatch_project env p (reset_project_failures w)
      else retry_project env wait_failed p w
  | _ ↦ reset_project_failures w
]

-- retainSandbox
unfoldable pub retain_sandbox : Env → Str → Task → World → World
unfolding save_task
retain_sandbox env path t w =
    if t.save_sandbox then w else (save_task env path (record t { save_sandbox = true }) w).world

-- handleTaskFailure
unfoldable pub handle_task_failure : Env → Str → Project → Task → World → World
unfolding retain_sandbox save_task launch_task_agent transition_project_blocked
handle_task_failure env path p t w =
    if leb max_task_attempts t.attempts
    then transition_project_blocked env p (task_failed t.name t.attempts t.failure_reason)
        (retain_sandbox env path t w)
    else let updated = record t {
      attempts = t.attempts + 1;
      status = Task.ready;
      failure_reason = [];
    } in
      let saved = save_task env path updated w in
      if not saved.succeeded
      then transition_project_blocked env p (task_save_error path) saved.world
      else launch_task_agent env p updated saved.world

-- The switch of afterTaskSession.
unfoldable pub after_task_status : Env → Str → Project → Task → World → World
unfolding handle_task_failure launch_commit_agent retain_sandbox transition_project_blocked
after_task_status env path p t w = elim t.status [
  | Task.success ↦ launch_commit_agent env p t w
  | Task.failed ↦ handle_task_failure env path p t w
  | Task.running ↦ handle_task_failure env path p t w
  | Task.ready ↦ handle_task_failure env path p t w
  | Task.blocked ↦
      transition_project_blocked env p (task_reported_blocked t.name t.blocked_reason)
        (retain_sandbox env path t w)
  | Task.committed ↦ transition_project_blocked env p (task_committed_itself t.name) w
]

-- afterTaskSession
unfoldable pub after_task_session : Env → Str → Project → World → World
unfolding is_stopped load_task_file transition_project_blocked after_task_status
after_task_session env path p w = if is_stopped w then w else elim (load_task_file w.tasks path) [
  | task_absent ↦ transition_project_blocked env p (task_file_missing path) w
  | task_broken ↦ transition_project_blocked env p (task_load_error path) w
  | task_found t ↦ after_task_status env path p t w
]

-- The CompletedAt step of afterCommitSession.
unfoldable pub stamp_completed_at : Env → Str → Task → World → World
unfolding save_task
stamp_completed_at env path t w =
    if is_some t.completed_at
    then w
    else (save_task env path (record t { completed_at = some (env.now) }) w).world

-- afterCommitSession from loadTaskGraph on.
unfoldable pub next_after_commit : Env → Project → World → World
unfolding load_task_graph defer_to_planner transition_project_complete first_uncommitted_success
    launch_commit_agent transition_project_blocked dispatch_ready_task
next_after_commit env p w =
    let loaded = load_task_graph env p w in
    elim loaded.graph [
      | none ↦ loaded.world
      | some g ↦
          if all_committed g
          then (if defer_to_planner loaded.world
              then loaded.world
              else transition_project_complete env p loaded.world)
          else elim (first_uncommitted_success g) [
            | some t ↦ launch_commit_agent env p t loaded.world
            | none ↦ elim (first_of_list (ready g)) [
              | some t ↦ dispatch_ready_task env p t loaded.world
              | none ↦
                  if defer_to_planner loaded.world
                  then loaded.world
                  else transition_project_blocked env p no_ready_tasks_remain loaded.world
            ]
          ]
    ]

-- afterCommitSession
unfoldable pub after_commit_session : Env → Exit → Str → Project → World → World
unfolding is_stopped load_task_file transition_project_blocked stamp_completed_at next_after_commit
after_commit_session env exit path p w =
    if is_stopped w then w else elim (load_task_file w.tasks path) [
      | task_found t ↦
          if not (Task.status_eq t.status Task.committed)
          then transition_project_blocked env p
              (if exit.wait_failed && not (is_empty exit.start_failure)
                then commit_could_not_start (t.name)
                else commit_not_committed (t.name))
              w
          else next_after_commit env p (stamp_completed_at env path t w)
      | _ ↦ transition_project_blocked env p (commit_load_error path) w
    ]

-- afterArchiveSession; endCleanup is deferred to its end.
unfoldable pub after_archive_session : Env → World → World
unfolding end_cleanup save revisit_project
after_archive_session env w = elim w.file [
  | parsed p ↦
      if not p.cleanup
      then end_cleanup (revisit_project env w)
      else let saved = save env (record p { cleanup = false }) w in
        if not saved.succeeded
        then end_cleanup saved.world
        else end_cleanup (revisit_project env saved.world)
  | _ ↦ end_cleanup w
]
