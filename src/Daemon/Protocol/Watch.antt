-- ===== src/Daemon/Protocol/Watch.antt =====
-- The handlers of the watcher and of the schedules are sequences of moves of the protocol.
use workingman.Prelude.{
  trim_space, ◌≡◌, refl, true, false, not, ◌||◌, ◌&&◌, Option, none, some, ◌∙◌, sym, Str, is_empty,
  if◌then◌else◌, if-cases, ◌+◌,
}
use workingman.Project.{
  Project, Status, Writer, status_eq, watching_pr, cron_expired, is_daemon, no_reason,
  empty_project,
}
use workingman.Daemon.State.{
  World, Env, main, has_session, save, save_as, absent, broken, parsed, unregister_review,
  unregister_cron,
}
use workingman.Daemon.Review.{Handled, grow_review_backoff, on_review_poll, same_finger}
use workingman.Daemon.Dispatch.{Current}
use workingman.Daemon.Route.{
  handle_project, revisit_project, handle_project_seed, handle_intake_file, on_cron_fired,
  request_cron_replan, count_cron_run, clear_replan,
}
use workingman.Daemon.Protocol.{Moves, stay, slots_of}
use workingman.Daemon.Protocol.Quiet.{
  slots_of-save, slots_of-save_as, slots_of-unregister_review, slots_of-unregister_cron,
}
use workingman.Daemon.Protocol.Combine.{
  Moves-trans, Moves-before, Moves-quiet, Moves-if, Moves-option, Moves-file,
}
use workingman.Daemon.Protocol.Launch.{dispatch_review_agent-Moves}
use workingman.Daemon.Protocol.Graph.{slots_of-reschedule, slots_of-backoff}
use workingman.Daemon.Protocol.Route.{dispatch_project-Moves}

pub revisit_project-Moves :
    (env : Env) (w : World) → Moves (slots_of w) (slots_of (revisit_project env w))
unfolding revisit_project
revisit_project-Moves env w = Moves-file w.file _ _ stay (λ p _. dispatch_project-Moves env p w)

pub handle_project-Moves :
    (env : Env) (w : World) → Moves (slots_of w) (slots_of (handle_project env w))
unfolding handle_project
handle_project-Moves env w =
    Moves-file w.file _ _ stay (λ p _.
      Moves-if (is_daemon p.updated_by) _ _ (λ _. stay) (λ _. dispatch_project-Moves env p w))

pub handle_project_seed-Moves :
    (env : Env) (text : Option Str) (w : World)
    → Moves (slots_of w) (slots_of (handle_project_seed env text w))
unfolding handle_project_seed
handle_project_seed-Moves env text w = by_file w.file
  where
    by_file :
        (f : workingman.Daemon.State.ProjectFile)
        → Moves (slots_of w) (
            slots_of (elim f [
              | absent ↦ elim text [
                | none ↦ w
                | some s ↦
                    if is_empty (trim_space s)
                    then w
                    else (save_as env Writer.agent
                        (record empty_project { description = trim_space s })
                        w).world
              ]
              | _ ↦ w
            ]))
    by_file absent = Moves-option text _ _ stay (λ s _.
        Moves-if (is_empty (trim_space s)) _ _ (λ _. stay)
          (λ _. Moves-quiet (
            sym (
              slots_of-save_as env Writer.agent
                (record empty_project { description = trim_space s }) w))))
    by_file broken = stay
    by_file (parsed p) = stay

pub handle_intake_file-Moves :
    (env : Env) (text : Option Str) (w : World)
    → Moves (slots_of w) (slots_of (handle_intake_file env text w))
unfolding handle_intake_file
handle_intake_file-Moves env text w = Moves-option text _ _ stay (λ s _.
    Moves-if (is_empty (trim_space s)) _ _ (λ _. stay)
      (λ _. Moves-file w.file _ _ stay (λ p _.
        Moves-if w.planning_busy _ _ (λ _. stay)
          (λ _.
            Moves-if (status_eq p.status Status.working) _ _ (λ _. revisit_project-Moves env w)
              (λ _. Moves-quiet (
                sym (
                  slots_of-save_as env Writer.agent
                    (record p { status = Status.ready; blocked_reason = no_reason }) w)))))))

slots_of-request :
    (env : Env) (p : Project) (w : World)
    → slots_of ((request_cron_replan env p w).world) ≡ slots_of w
unfolding request_cron_replan
slots_of-request env p w =
    if-cases
      (p.cleanup
        || p.archive
        || (status_eq p.status Status.idle && watching_pr p)
        || (not (status_eq p.status Status.idle) && not (status_eq p.status Status.ready)))
      (λ h. slots_of (Handled.world h) ≡ slots_of w) (λ _. refl)
      (λ _. slots_of-save env (record p { status = Status.ready; replan = true }) w)

slots_of-count : (env : Env) (w : World) → slots_of ((count_cron_run env w).world) ≡ slots_of w
unfolding count_cron_run
slots_of-count env w = by_file w.file
  where
    by_file :
        (f : workingman.Daemon.State.ProjectFile)
        → slots_of (
            Current.world (elim f [
              | parsed p ↦
                  (let counted = record p { cron_runs = p.cron_runs + 1 } in
                    let saved = save env counted w in
                    record {
                      world = saved.world;
                      project = if saved.succeeded then counted else p;
                    })
              | _ ↦ record { world = w; project = empty_project }
            ]))
          ≡ slots_of w
    by_file absent = refl
    by_file broken = refl
    by_file (parsed p) = slots_of-save env (record p { cron_runs = p.cron_runs + 1 }) w

pub on_cron_fired-Moves :
    (env : Env) (w : World) → Moves (slots_of w) (slots_of (on_cron_fired env w))
unfolding on_cron_fired
on_cron_fired-Moves env w = Moves-file w.file _ _ stay (λ p _.
    Moves-if (cron_expired env.now p) _ _ (λ _. Moves-quiet (sym (slots_of-unregister_cron env w)))
      (λ _. Moves-before (slots_of-request env p w) (
        Moves-if (not ((request_cron_replan env p w).handled)) _ _
          (λ _. revisit_project-Moves env _)
          (λ _. Moves-before (slots_of-count env _) (
            Moves-trans
              (Moves-if
                (cron_expired env.now
                  ((count_cron_run env ((request_cron_replan env p w).world)).project))
                _ _ (λ _. Moves-quiet (sym (slots_of-unregister_cron env _))) (λ _. stay))
              (revisit_project-Moves env _))))))

slots_of-grown : (w : World) → slots_of (grow_review_backoff w) ≡ slots_of w
unfolding grow_review_backoff slots_of
slots_of-grown w = refl

pub on_review_poll-Moves :
    (env : Env) (w : World) → Moves (slots_of w) (slots_of (on_review_poll env w))
unfolding on_review_poll
on_review_poll-Moves env w =
    Moves-if (not env.has_scheduler) _ _ (λ _. stay)
      (λ _. Moves-file w.file _ _ dropped (λ p _.
        Moves-if (not (status_eq p.status Status.idle) || not (watching_pr p)) _ _ (λ _. dropped)
          (λ _.
            Moves-if (has_session main w || w.planning_busy) _ _ (λ _. stay)
              (λ _.
                Moves-if (same_finger (env.fingerprint p) w.review_finger) _ _
                  (λ _. Moves-quiet (sym (slots_of-reschedule env _ _ ∙ slots_of-grown w)))
                  (λ _.
                    Moves-before (slots_of-reschedule env 0 _ ∙ slots_of-backoff w)
                      (dispatch_review_agent-Moves env p _))))))
  where
    dropped : Moves (slots_of w) (slots_of (unregister_review env w))
    dropped = Moves-quiet (sym (slots_of-unregister_review env w))

pub slots_of-clear_replan :
    (env : Env) (p : Project) (w : World) → slots_of ((clear_replan env p w).world) ≡ slots_of w
unfolding clear_replan
slots_of-clear_replan env p w =
    if-cases (not p.replan) (λ c. slots_of (Current.world c) ≡ slots_of w) (λ _. refl)
      (λ _. slots_of-save env (record p { replan = false }) w)
