-- ===== src/Daemon/Tasks.antt =====
-- The agents of the task graph (internal/daemon/dispatch.go and dispatch_lifecycle.go).
use workingman.Prelude.{Bool, true, false, not, List, [], ◌∷◌, if◌then◌else◌, Option, none, some}
use workingman.Task
use workingman.Task.{Task, is_push_task, success}
use workingman.Project.{
  Project, Reason, taskgraph_error, task_agent_start_failed, commit_agent_start_failed,
}
use workingman.Taskgraph.{Graph, ok, err, load, all_committed, ready, sorted_tasks}
use workingman.Daemon.State.{World, Env, Kind, main, has_session, start_session, failed}
use workingman.Daemon.Blocked.{transition_project_blocked}
use workingman.Daemon.Review.{Handled, transition_project_complete}

-- deferToPlanner, with planningInFlight
unfoldable pub defer_to_planner : World → Bool
defer_to_planner w = w.planning_busy

pub record Loaded : Type 0 where
  pub world : World
  pub graph : Option Graph

-- loadTaskGraph
unfoldable pub load_task_graph : Env → Project → World → Loaded
unfolding defer_to_planner
load_task_graph env p w = elim (load env.digest env.work_stream env.tasks_dir w.tasks) [
  | ok g ↦ record { world = w; graph = some g }
  | err e ↦
      if defer_to_planner w
      then record { world = w; graph = none }
      else record { world = transition_project_blocked env p taskgraph_error w; graph = none }
]

-- The common part of launchTaskAgent and launchCommitAgent.
unfoldable pub launch_in_main : Env → Kind → Reason → Project → Task → World → World
unfolding has_session start_session
launch_in_main env kind why p t w =
    if not env.has_runner
    then w
    else if has_session main w
    then w
    else let start = start_session env main kind t.path p w in
      elim start.outcome [
        | failed ↦ transition_project_blocked env p why start.world
        | _ ↦ start.world
      ]

-- launchTaskAgent
unfoldable pub launch_task_agent : Env → Project → Task → World → World
unfolding launch_in_main
launch_task_agent env p t w = launch_in_main env Kind.task (task_agent_start_failed t.name) p t w

-- launchCommitAgent
unfoldable pub launch_commit_agent : Env → Project → Task → World → World
unfolding launch_in_main
launch_commit_agent env p t w =
    launch_in_main env Kind.commit (commit_agent_start_failed t.name) p t w

-- dispatchReadyTask
unfoldable pub dispatch_ready_task : Env → Project → Task → World → World
unfolding launch_task_agent launch_commit_agent is_push_task
dispatch_ready_task env p t w =
    if is_push_task t then launch_commit_agent env p t w else launch_task_agent env p t w

-- The loop of firstUncommittedSuccess.
unfoldable pub first_success : List Task → Option Task
first_success [] = none
first_success (t ∷ ts) =
    let rest = first_success ts in if Task.status_eq t.status success then some t else rest

-- firstUncommittedSuccess
unfoldable pub first_uncommitted_success : Graph → Option Task
unfolding first_success
first_uncommitted_success g = first_success (sorted_tasks g)

-- `ready[0]`
abbrev pub first_of_list : List Task → Option Task
first_of_list [] = none
first_of_list (t ∷ ts) = some t

-- dispatchReadyOrPending
unfoldable pub dispatch_ready_or_pending : Env → Project → Graph → World → Handled
unfolding first_uncommitted_success dispatch_ready_task
dispatch_ready_or_pending env p g w = elim (first_uncommitted_success g) [
  | some t ↦ record { world = launch_commit_agent env p t w; handled = true }
  | none ↦ elim (first_of_list (ready g)) [
    | none ↦ record { world = w; handled = false }
    | some t ↦ record { world = dispatch_ready_task env p t w; handled = true }
  ]
]

-- dispatchNextTask
unfoldable pub dispatch_next_task : Env → Project → World → World
unfolding load_task_graph dispatch_ready_or_pending
dispatch_next_task env p w =
    let loaded = load_task_graph env p w in
    elim loaded.graph [
      | none ↦ loaded.world
      | some g ↦
          if all_committed g
          then (if defer_to_planner loaded.world
              then loaded.world
              else transition_project_complete env p loaded.world)
          else (dispatch_ready_or_pending env p g loaded.world).world
    ]

-- dispatchPendingTasks
unfoldable pub dispatch_pending_tasks : Env → Project → World → Handled
unfolding load_task_graph dispatch_ready_or_pending
dispatch_pending_tasks env p w =
    let loaded = load_task_graph env p w in
    elim loaded.graph [
      | none ↦ record { world = loaded.world; handled = true }
      | some g ↦
          if all_committed g
          then record { world = loaded.world; handled = false }
          else dispatch_ready_or_pending env p g loaded.world
    ]
