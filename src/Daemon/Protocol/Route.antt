-- ===== src/Daemon/Protocol/Route.antt =====
-- dispatchProject and its callers are sequences of moves of the protocol.
use workingman.Prelude.{
  ◌≡◌, refl, not, ◌||◌, ◌&&◌, Option, none, some, is_some, ◌∙◌, sym, Str, length, ltb, is_empty,
  if-cases,
}
use workingman.Project.{
  Project, Status, status_eq, watching_pr, cron_expired, cron_unbounded, unpopulated,
}
use workingman.Daemon.State.{World, Env, Session, unregister_review}
use workingman.Daemon.Blocked.{launch_wolf_agent}
use workingman.Daemon.Review.{maybe_transition_merged}
use workingman.Daemon.Tasks.{dispatch_pending_tasks}
use workingman.Daemon.Dispatch.{
  Current, register_cron_if_any, enforce_stopped, stamp_created_at, replan_seed, unoffered_intake,
  close_session, launch_planning_agent, has_pending_seed_on_disk, has_pending_intake,
}
use workingman.Daemon.Route
use workingman.Daemon.Route.{
  route_idle, route_working, dispatch_populated, dispatch_project, handle_project, revisit_project,
  handle_project_seed, handle_intake_file, on_cron_fired, request_cron_replan, count_cron_run,
  clear_replan,
}
use workingman.Daemon.Protocol.{Moves, stay, slots_of, kind_of}
use workingman.Daemon.Protocol.Quiet.{
  slots_of-save, slots_of-unregister_review, slots_of-unregister_cron, slots_of-clear_review_state,
}
use workingman.Daemon.Protocol.Combine.{
  Moves-trans, Moves-before, Moves-quiet, Moves-if, Moves-if_handled,
}
use workingman.Daemon.Protocol.Launch.{
  launch_wolf_agent-Moves, transition_project_blocked-Moves, launch_planning_agent-Moves,
  launch_archive_agent-Moves, launch_project_root_agent-Moves,
}
use workingman.Daemon.Protocol.Graph.{
  ensure_review_poll-Moves, force_review_now-Moves, maybe_transition_merged-Moves,
  dispatch_next_task-Moves, dispatch_pending_tasks-Moves,
}

route_idle-Moves :
    (env : Env) (p : Project) (w : World) → Moves (slots_of w) (slots_of (route_idle env p w))
unfolding route_idle
route_idle-Moves env p w = Moves-trans (dispatch_pending_tasks-Moves env p w) (
    Moves-if ((dispatch_pending_tasks env p w).handled) _ _ (λ _. stay)
      (λ _. Moves-trans (maybe_transition_merged-Moves env p _) (
        Moves-if ((maybe_transition_merged env p ((dispatch_pending_tasks env p w).world)).handled)
          _ _ (λ _. stay)
          (λ _.
            Moves-if (watching_pr p) _ _
              (λ _.
                Moves-trans (ensure_review_poll-Moves env _)
                  (Moves-if p.review_now _ _ (λ _. force_review_now-Moves env p _) (λ _. stay)))
              (λ _. stay)))))

route_working-Moves :
    (env : Env) (p : Project) (w : World) → Moves (slots_of w) (slots_of (route_working env p w))
unfolding route_working
route_working-Moves env p w =
    Moves-trans
      (Moves-if (ltb 0 (length (unoffered_intake w))) _ _ (λ _. launch_planning_agent-Moves env p w)
        (λ _. stay))
      (dispatch_next_task-Moves env p _)

route-Moves :
    (env : Env) (p : Project) (w : World) → Moves (slots_of w) (slots_of (Route.route env p w))
unfolding Route.route
route-Moves env p w = by_status p.status
  where
    by_status :
        (s : Status)
        → Moves (slots_of w) (
            slots_of (elim s [
              | Status.ready ↦ launch_planning_agent env p w
              | Status.working ↦ route_working env p w
              | Status.blocked ↦ launch_wolf_agent env p w
              | Status.merged ↦ unregister_review env w
              | Status.idle ↦ route_idle env p w
              | _ ↦ w
            ]))
    by_status Status.ready = launch_planning_agent-Moves env p w
    by_status Status.working = route_working-Moves env p w
    by_status Status.blocked = launch_wolf_agent-Moves env p w
    by_status Status.merged = Moves-quiet (sym (slots_of-unregister_review env w))
    by_status Status.idle = route_idle-Moves env p w
    by_status Status.unset = stay
    by_status Status.stopped = stay

slots_of-registered :
    (c : Option Str) (w : World) → slots_of (record w { cron_spec = c }) ≡ slots_of w
unfolding slots_of
slots_of-registered c w = refl

register_cron_if_any-Moves :
    (env : Env) (p : Project) (w : World)
    → Moves (slots_of w) (slots_of ((register_cron_if_any env p w).world))
unfolding register_cron_if_any
register_cron_if_any-Moves env p w =
    let dropped = Moves-quiet (sym (slots_of-unregister_cron env w)) in
    Moves-if_handled (not env.has_scheduler || is_empty p.cron) _ _ (λ _. stay)
      (λ _.
        Moves-if_handled (cron_unbounded p) _ _
          (λ _.
            Moves-if_handled (status_eq p.status Status.blocked) _ _ (λ _. dropped)
              (λ _.
                Moves-before (slots_of-unregister_cron env w)
                  (transition_project_blocked-Moves env p _ _)))
          (λ _.
            Moves-if_handled (cron_expired env.now p) _ _ (λ _. dropped)
              (λ _.
                Moves-if (env.valid_spec p.cron) _ _
                  (λ _. Moves-quiet (sym (slots_of-registered _ w))) (λ _. stay))))

slots_of-replan_seed :
    (env : Env) (p : Project) (w : World) → slots_of ((replan_seed env p w).world) ≡ slots_of w
unfolding replan_seed
slots_of-replan_seed env p w =
    if-cases
      ((status_eq p.status Status.idle || status_eq p.status Status.merged)
        && not w.planning_busy
        && (has_pending_seed_on_disk env w || has_pending_intake w))
      (λ c. slots_of (Current.world c) ≡ slots_of w)
      (λ _. slots_of-save env (record p { status = Status.ready }) w) (λ _. refl)

slots_of-stamp :
    (env : Env) (p : Project) (w : World) → slots_of ((stamp_created_at env p w).world) ≡ slots_of w
unfolding stamp_created_at
slots_of-stamp env p w =
    if-cases (is_some p.created_at) (λ c. slots_of (Current.world c) ≡ slots_of w) (λ _. refl)
      (λ _. slots_of-save env (record p { created_at = some (env.now) }) w)

dispatch_populated-Moves :
    (env : Env) (p : Project) (w : World)
    → Moves (slots_of w) (slots_of (dispatch_populated env p w))
unfolding dispatch_populated
dispatch_populated-Moves env p w = Moves-trans (register_cron_if_any-Moves env p w) (
    Moves-if (not ((register_cron_if_any env p w).handled)) _ _ (λ _. stay)
      (λ _.
        Moves-if p.cleanup _ _ (λ _. launch_archive_agent-Moves env p _)
          (λ _. Moves-before (slots_of-replan_seed env p _) (route-Moves env _ _))))

kind_of-close_session : (o : Option Session) → kind_of (close_session o) ≡ kind_of o
unfolding kind_of
kind_of-close_session none = refl
kind_of-close_session (some s) = refl

slots_of-closed :
    (w : World)
    → slots_of (record w {
      main_session = close_session (w.main_session);
      planner_session = close_session (w.planner_session);
      wolf_session = close_session (w.wolf_session);
      archive_session = close_session (w.archive_session);
    })
      ≡ slots_of w
unfolding slots_of
slots_of-closed w =
    rw
      (
        kind_of-close_session w.main_session,
        kind_of-close_session w.planner_session,
        kind_of-close_session w.wolf_session,
        kind_of-close_session w.archive_session,
      )
      (refl)

pub slots_of-enforce_stopped :
    (env : Env) (w : World) → slots_of (enforce_stopped env w) ≡ slots_of w
unfolding enforce_stopped
slots_of-enforce_stopped env w =
    slots_of-clear_review_state _
    ∙ slots_of-unregister_review env _
    ∙ slots_of-unregister_cron env _
    ∙ slots_of-closed w

-- dispatchProject, whatever project it is given, keeps the protocol of the session map: it is a
-- sequence of moves, each under its guard.
pub dispatch_project-Moves :
    (env : Env) (p : Project) (w : World) → Moves (slots_of w) (slots_of (dispatch_project env p w))
unfolding dispatch_project
dispatch_project-Moves env p w =
    Moves-if (status_eq p.status Status.stopped) _ _
      (λ _. Moves-quiet (sym (slots_of-enforce_stopped env w)))
      (λ _.
        Moves-if (unpopulated p) _ _ (λ _. launch_project_root_agent-Moves env p w)
          (λ _. Moves-before (slots_of-stamp env p w) (dispatch_populated-Moves env _ _)))
