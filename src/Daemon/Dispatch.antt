-- ===== src/Daemon/Dispatch.antt =====
-- The routing of one project's file and its schedules (internal/daemon/dispatch.go, stop.go,
-- intake.go and the archive agent's launch of dispatch_lifecycle.go). The contents of a plan, the
-- planned-repositories snapshot of a planning run and the audit log are output only and left out.
use workingman.Prelude.{
  Bool, true, false, ◌&&◌, ◌||◌, not, List, [], Str, length, ltb, is_empty, if◌then◌else◌, Option,
  none, some, is_some, keep, contains,
}
use workingman.Project.{
  Project, Status, status_eq, cron_expired, cron_unbounded, project_agent_start_failed,
  planning_agent_start_failed, cron_no_stop_condition,
}
use workingman.Taskgraph.{load, has_pending_seed, ok, err}
use workingman.Daemon.State.{
  World, Env, Kind, Session, main, planner, archive_slot, has_session, save, start_session, started,
  lost, failed, parsed, unregister_review, unregister_cron, clear_review_state,
}
use workingman.Daemon.Blocked.{transition_project_blocked}
use workingman.Daemon.Review.{Handled}

-- hasPendingSeed
unfoldable pub has_pending_seed_on_disk : Env → World → Bool
has_pending_seed_on_disk env w = elim (load env.digest env.work_stream env.tasks_dir w.tasks) [
  | ok g ↦ has_pending_seed g
  | err e ↦ false
]

-- hasPendingIntake
unfoldable pub has_pending_intake : World → Bool
has_pending_intake w = ltb 0 (length w.intake)

-- beginPlanning, where no planning agent is in flight
unfoldable pub begin_planning : List Str → World → World
begin_planning files w = record w { planning_busy = true; offered = files }

-- endPlanning: of the offered files those that are still pending, which stay offered.
unfoldable pub leftover_of : World → List Str
unfolding contains
leftover_of w = keep (λ f. contains w.intake f) w.offered

unfoldable pub end_planning : World → World
unfolding leftover_of
end_planning w = record w { planning_busy = false; offered = leftover_of w }

-- unofferedIntake
unfoldable pub unoffered_intake : World → List Str
unfolding contains
unoffered_intake w = keep (λ f. not (contains w.offered f)) w.intake

-- launchProjectRootAgent with the project agent, its only use.
unfoldable pub launch_project_root_agent : Env → Project → World → World
unfolding has_session start_session transition_project_blocked
launch_project_root_agent env p w =
    if not env.has_runner
    then w
    else if has_session main w
    then w
    else let start = start_session env main Kind.project [] p w in
      elim start.outcome [
        | failed ↦ transition_project_blocked env p project_agent_start_failed start.world
        | _ ↦ start.world
      ]

-- runsAlongsidePlanning
unfoldable pub runs_alongside_planning : Kind → Bool
runs_alongside_planning Kind.task = true
runs_alongside_planning Kind.commit = true
runs_alongside_planning _ = false

-- Whether launchPlanningAgent waits for the main slot.
unfoldable pub must_wait : Option Session → Project → Bool
unfolding runs_alongside_planning
must_wait none p = false
must_wait (some s) p = not (runs_alongside_planning s.kind) || p.replan

-- launchPlanningAgent
unfoldable pub launch_planning_agent : Env → Project → World → World
unfolding must_wait begin_planning end_planning start_session transition_project_blocked
launch_planning_agent env p w =
    if not env.has_runner
    then w
    else if must_wait w.main_session p
    then w
    else if w.planning_busy
    then w
    else let start = start_session env planner Kind.planning [] p (begin_planning w.intake w) in
      elim start.outcome [
        | started ↦ start.world
        | lost ↦ end_planning start.world
        | failed ↦
            transition_project_blocked env p planning_agent_start_failed (end_planning start.world)
      ]

-- registerCronIfAny; `handled` says that the routing goes on.
unfoldable pub register_cron_if_any : Env → Project → World → Handled
unfolding cron_unbounded cron_expired unregister_cron transition_project_blocked
register_cron_if_any env p w =
    if not env.has_scheduler || is_empty p.cron
    then record { world = w; handled = true }
    else if cron_unbounded p
    then (if status_eq p.status Status.blocked
        then record { world = unregister_cron env w; handled = true }
        else record {
          world =
              transition_project_blocked env p (cron_no_stop_condition p.cron)
                (unregister_cron env w);
          handled = false;
        })
    else if cron_expired env.now p
    then record { world = unregister_cron env w; handled = true }
    else record {
      world = if env.valid_spec p.cron then record w { cron_spec = some (p.cron) } else w;
      handled = true;
    }

-- Whether the file on disk asks for no cleanup.
unfoldable pub is_stale_cleanup : World → Bool
is_stale_cleanup w = elim w.file [ parsed p ↦ not p.cleanup | _ ↦ false ]

-- endCleanup
unfoldable pub end_cleanup : World → World
end_cleanup w = record w { cleanup_in_flight = false }

-- launchArchiveAgent with beginCleanup
unfoldable pub launch_archive_agent : Env → Project → World → World
unfolding is_stale_cleanup start_session end_cleanup
launch_archive_agent env p w =
    if not env.has_runner
    then w
    else if w.cleanup_in_flight
    then w
    else let begun = record w { cleanup_in_flight = true } in
      if is_stale_cleanup begun
      then end_cleanup begun
      else let start = start_session env archive_slot Kind.archive [] p begun in
        elim start.outcome [ failed ↦ end_cleanup start.world | _ ↦ start.world ]

abbrev pub close_session : Option Session → Option Session
close_session none = none
close_session (some s) = some (record s { closed = true })

-- enforceStopped with killProjectSessions. A closed session stays tracked until it ends.
unfoldable pub enforce_stopped : Env → World → World
unfolding unregister_review unregister_cron clear_review_state
enforce_stopped env w = clear_review_state (
    unregister_review env (
      unregister_cron env (record w {
        main_session = close_session (w.main_session);
        planner_session = close_session (w.planner_session);
        wolf_session = close_session (w.wolf_session);
        archive_session = close_session (w.archive_session);
      })))

pub record Current : Type 0 where
  pub world : World
  pub project : Project

-- The CreatedAt step of dispatchProject.
unfoldable pub stamp_created_at : Env → Project → World → Current
unfolding save
stamp_created_at env p w =
    if is_some p.created_at
    then record { world = w; project = p }
    else let stamped = record p { created_at = some (env.now) } in
      let saved = save env stamped w in
      record { world = saved.world; project = if saved.succeeded then stamped else p }

-- The seed-replan step of dispatchProject.
unfoldable pub replan_seed : Env → Project → World → Current
unfolding save has_pending_seed_on_disk has_pending_intake
replan_seed env p w =
    if (status_eq p.status Status.idle || status_eq p.status Status.merged)
      && not w.planning_busy
      && (has_pending_seed_on_disk env w || has_pending_intake w)
    then (let updated = record p { status = Status.ready } in
        let saved = save env updated w in
        record { world = saved.world; project = if saved.succeeded then updated else p })
    else record { world = w; project = p }
