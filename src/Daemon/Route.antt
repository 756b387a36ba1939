-- ===== src/Daemon/Route.antt =====
-- dispatchProject and its callers (internal/daemon/dispatch.go, intake.go), and the firing of a
-- cron schedule.
use workingman.Prelude.{
  trim_space, ◌+◌, true, false, ◌&&◌, ◌||◌, not, Str, length, ltb, is_empty, if◌then◌else◌, Option,
  none, some,
}
use workingman.Project.{
  Project, Status, Writer, status_eq, is_daemon, watching_pr, cron_expired, unpopulated,
  empty_project, no_reason,
}
use workingman.Daemon.State.{
  World, Env, save, save_as, absent, parsed, unregister_review, unregister_cron,
}
use workingman.Daemon.Blocked.{launch_wolf_agent}
use workingman.Daemon.Review.{
  Handled, ensure_review_poll, force_review_now, maybe_transition_merged,
}
use workingman.Daemon.Tasks.{dispatch_next_task, dispatch_pending_tasks}
use workingman.Daemon.Dispatch.{
  Current, launch_project_root_agent, launch_planning_agent, register_cron_if_any,
  launch_archive_agent, enforce_stopped, stamp_created_at, replan_seed, unoffered_intake,
}

-- The branch of an idle project.
unfoldable pub route_idle : Env → Project → World → World
unfolding dispatch_pending_tasks maybe_transition_merged ensure_review_poll force_review_now
route_idle env p w =
    let pending = dispatch_pending_tasks env p w in
    if pending.handled
    then pending.world
    else let done = maybe_transition_merged env p pending.world in
      if done.handled
      then done.world
      else if watching_pr p
      then (let armed = ensure_review_poll env done.world in
          if p.review_now then force_review_now env p armed else armed)
      else done.world

-- The branch of a working project.
unfoldable pub route_working : Env → Project → World → World
unfolding unoffered_intake launch_planning_agent dispatch_next_task
route_working env p w =
    dispatch_next_task env p
      (if ltb 0 (length (unoffered_intake w)) then launch_planning_agent env p w else w)

-- The switch on the status at the end of dispatchProject.
unfoldable pub route : Env → Project → World → World
unfolding launch_planning_agent route_working launch_wolf_agent unregister_review route_idle
route env p w = elim p.status [
  | Status.ready ↦ launch_planning_agent env p w
  | Status.working ↦ route_working env p w
  | Status.blocked ↦ launch_wolf_agent env p w
  | Status.merged ↦ unregister_review env w
  | Status.idle ↦ route_idle env p w
  | _ ↦ w
]

-- dispatchProject from the cron step on.
unfoldable pub dispatch_populated : Env → Project → World → World
unfolding register_cron_if_any launch_archive_agent replan_seed route
dispatch_populated env p w =
    let cron = register_cron_if_any env p w in
    if not cron.handled
    then cron.world
    else if p.cleanup
    then launch_archive_agent env p cron.world
    else let seeded = replan_seed env p cron.world in route env seeded.project seeded.world

-- dispatchProject
unfoldable pub dispatch_project : Env → Project → World → World
unfolding enforce_stopped launch_project_root_agent stamp_created_at dispatch_populated
dispatch_project env p w =
    if status_eq p.status Status.stopped
    then enforce_stopped env w
    else if unpopulated p
    then launch_project_root_agent env p w
    else let stamped = stamp_created_at env p w in
      dispatch_populated env stamped.project stamped.world

-- handleProject
unfoldable pub handle_project : Env → World → World
unfolding dispatch_project
handle_project env w = elim w.file [
  | parsed p ↦ if is_daemon p.updated_by then w else dispatch_project env p w
  | _ ↦ w
]

-- revisitProject
unfoldable pub revisit_project : Env → World → World
unfolding dispatch_project
revisit_project env w = elim w.file [ parsed p ↦ dispatch_project env p w | _ ↦ w ]

-- handleProjectSeed on a PROJECT.md with this text; `none` is a file that cannot be read.
unfoldable pub handle_project_seed : Env → Option Str → World → World
unfolding save_as trim_space
handle_project_seed env text w = elim w.file [
  | absent ↦ elim text [
    | none ↦ w
    | some s ↦
        if is_empty (trim_space s)
        then w
        else (save_as env Writer.agent (record empty_project { description = trim_space s })
            w).world
  ]
  | _ ↦ w
]

-- handleIntakeFile on a file with this text.
unfoldable pub handle_intake_file : Env → Option Str → World → World
unfolding save_as trim_space revisit_project
handle_intake_file env text w = elim text [
  | none ↦ w
  | some s ↦ if is_empty (trim_space s) then w else elim w.file [
    | parsed p ↦
        if w.planning_busy
        then w
        else if status_eq p.status Status.working
        then revisit_project env w
        else (save_as env Writer.agent
            (record p { status = Status.ready; blocked_reason = no_reason }) w).world
    | _ ↦ w
  ]
]

-- requestCronReplan; `handled` says that the cycle was requested.
unfoldable pub request_cron_replan : Env → Project → World → Handled
unfolding save
request_cron_replan env p w =
    let skip =
      p.cleanup
      || p.archive
      || (status_eq p.status Status.idle && watching_pr p)
      || (not (status_eq p.status Status.idle) && not (status_eq p.status Status.ready)) in
    if skip
    then record { world = w; handled = false }
    else let saved = save env (record p { status = Status.ready; replan = true }) w in
      record { world = saved.world; handled = saved.succeeded }

-- countCronRun
unfoldable pub count_cron_run : Env → World → Current
unfolding save
count_cron_run env w = elim w.file [
  | parsed p ↦
      (let counted = record p { cron_runs = p.cron_runs + 1 } in
        let saved = save env counted w in
        record { world = saved.world; project = if saved.succeeded then counted else p })
  | _ ↦ record { world = w; project = empty_project }
]

-- onCronFired
unfoldable pub on_cron_fired : Env → World → World
unfolding request_cron_replan count_cron_run unregister_cron revisit_project
on_cron_fired env w = elim w.file [
  | parsed p ↦
      if cron_expired env.now p
      then unregister_cron env w
      else let asked = request_cron_replan env p w in
        if not asked.handled
        then revisit_project env asked.world
        else let counted = count_cron_run env asked.world in
          revisit_project env (
            if cron_expired env.now counted.project
            then unregister_cron env counted.world
            else counted.world)
  | _ ↦ w
]

-- clearReplan
unfoldable pub clear_replan : Env → Project → World → Current
unfolding save
clear_replan env p w =
    if not p.replan
    then record { world = w; project = p }
    else let updated = record p { replan = false } in
      let saved = save env updated w in
      record { world = saved.world; project = if saved.succeeded then updated else p }
