-- ===== src/Daemon/Stop.antt =====
-- A stopped project (internal/daemon/stop.go and the guards of the other handlers).
mod Ends
use workingman.Prelude.{
  ◌≡◌, refl, sym, ◌∙◌, ap, subst, Bool, true, false, not, ◌||◌, ◌&&◌, Option, none, some, Str,
  if-cases, false≢true, if◌then◌else◌, arith,
}
use workingman.Project.{Project, Status, status_eq, stopped, unpopulated, is_daemon, cron_expired}
use workingman.Daemon.State.{
  World, Env, Kind, Session, Slot, ProjectFile, absent, broken, parsed, set_session, session_at,
  save, save_as, unregister_cron, unregister_review, clear_review_state, is_stopped, main, planner,
  wolf_slot, archive_slot,
}
use workingman.Daemon.Review.{Handled, on_review_poll}
use workingman.Daemon.Dispatch.{enforce_stopped, end_planning, end_cleanup, Current}
use workingman.Daemon.Route.{
  dispatch_project, handle_project, revisit_project, clear_replan, handle_project_seed,
  on_cron_fired, request_cron_replan,
}
use workingman.Daemon.Ends.{
  Exit, after_planning_session, after_project_session, after_task_session, after_commit_session,
  after_archive_session, reset_planning_failures, reset_project_failures,
}
use workingman.Daemon.ReviewEnd.{after_review_session}
use workingman.Daemon.Events.{
  Event, step, end_session, on_end, outside_write, project_event, seed_event, intake_event,
  cron_fires, review_poll_fires, session_ends,
}
use workingman.Daemon.Stop.Ends.{
  file-parsed, if-true, is_stopped-parsed, launches-unregister, launches-dispatch_project,
  launches-revisit_project, launches-save, status-clear_replan, launches-clear_replan, not-ready,
  launches-after_planning_session, populated, launches-after_project_session, launches-after_save,
  launches-after_archive_session, launches-on_end, file-set_session, launches-set_session,
  launches-end_session,
}

-- The events but a write to the disk from outside and a new intake file, which queues work.
unfoldable pub is_own : Event → Bool
is_own (outside_write _ _ _) = false
is_own (intake_event _) = false
is_own _ = true

launches-handle_project :
    (env : Env) (p : Project) (w : World)
    → w.file ≡ parsed p
    → p.status ≡ stopped
    → (handle_project env w).launches ≡ w.launches
unfolding handle_project
launches-handle_project env p w f s =
    ap (λ (x : World). x.launches) (file-parsed w.file p _ _ f)
    ∙ if-cases (is_daemon p.updated_by) (λ (x : World). x.launches ≡ w.launches) (λ _. refl)
        (λ _. launches-dispatch_project env p w s)

launches-handle_project_seed :
    (env : Env) (text : Option Str) (p : Project) (w : World)
    → w.file ≡ parsed p
    → (handle_project_seed env text w).launches ≡ w.launches
unfolding handle_project_seed
launches-handle_project_seed env text p w f = by_file w.file f
  where
    by_file :
        (g : ProjectFile)
        → g ≡ parsed p
        → (handle_project_seed env text (record w { file = g })).launches ≡ w.launches
    by_file absent e = absurd (false≢true (ap (λ g. elim g [ absent ↦ false | _ ↦ true ]) e))
    by_file broken e = refl
    by_file (parsed q) e = refl

launches-unregister_cron : (env : Env) (w : World) → (unregister_cron env w).launches ≡ w.launches
unfolding unregister_cron
launches-unregister_cron env w = ground arith

launches-unregister_review :
    (env : Env) (w : World) → (unregister_review env w).launches ≡ w.launches
unfolding unregister_review
launches-unregister_review env w = ground arith

last_true : (a b c d : Bool) → d ≡ true → (a || b || c || d) ≡ true
last_true a b c d e = ground arith

request_cron_replan-stopped :
    (env : Env) (p : Project) (w : World)
    → p.status ≡ stopped
    → request_cron_replan env p w ≡ record { world = w; handled = false }
unfolding request_cron_replan status_eq
request_cron_replan-stopped env p w s = if-true _ _ _ (
    last_true p.cleanup p.archive _ _
      (ap (λ x. not (status_eq x Status.idle) && not (status_eq x Status.ready)) s))

launches-on_cron_fired :
    (env : Env) (p : Project) (w : World)
    → w.file ≡ parsed p
    → p.status ≡ stopped
    → (on_cron_fired env w).launches ≡ w.launches
unfolding on_cron_fired
launches-on_cron_fired env p w f s =
    ap (λ (x : World). x.launches) (file-parsed w.file p _ _ f)
    ∙ if-cases (cron_expired env.now p) (λ (x : World). x.launches ≡ w.launches)
        (λ _. launches-unregister_cron env w)
        (λ _.
          subst
            (λ (h : Handled).
              World.launches (
                if not h.handled
                then revisit_project env h.world
                else let counted = workingman.Daemon.Route.count_cron_run env h.world in
                  revisit_project env (
                    if cron_expired env.now counted.project
                    then unregister_cron env counted.world
                    else counted.world))
              ≡ w.launches)
            (sym (request_cron_replan-stopped env p w s)) (launches-revisit_project env p w f s))

launches-on_review_poll :
    (env : Env) (p : Project) (w : World)
    → w.file ≡ parsed p
    → p.status ≡ stopped
    → (on_review_poll env w).launches ≡ w.launches
unfolding on_review_poll status_eq
launches-on_review_poll env p w f s =
    if-cases (not env.has_scheduler) (λ (x : World). x.launches ≡ w.launches) (λ _. refl)
      (λ _.
        ap (λ (x : World). x.launches)
          (file-parsed w.file p _ _ f
            ∙ if-true _ _ _ (or_left _ (ap (λ x. not (status_eq x Status.idle)) s)))
        ∙ launches-unregister_review env w)
  where
    or_left : {a : Bool} (b : Bool) → a ≡ true → (a || b) ≡ true
    or_left {a} b e = ap (λ c. c || b) e

-- While the project file says stopped, no event launches an agent: not the end of any session,
-- however it ended, nor a project event, a seed, a cron firing or a firing of the review poll. The
-- events left out are a write from outside and a new intake file.
pub step-stopped :
    (env : Env) (e : Event) (p : Project) (w : World)
    → is_own e ≡ true
    → w.file ≡ parsed p
    → p.status ≡ stopped
    → (step env e w).launches ≡ w.launches
unfolding step is_own
step-stopped env (outside_write _ _ _) p w own f s = absurd (false≢true own)
step-stopped env (intake_event _) p w own f s = absurd (false≢true own)
step-stopped env project_event p w own f s = launches-handle_project env p w f s
step-stopped env (seed_event text) p w own f s = launches-handle_project_seed env text p w f
step-stopped env cron_fires p w own f s =
    if-cases env.has_scheduler (λ (x : World). x.launches ≡ w.launches)
      (λ _. launches-on_cron_fired env p w f s) (λ _. refl)
step-stopped env review_poll_fires p w own f s = launches-on_review_poll env p w f s
step-stopped env (session_ends slot exit) p w own f s = launches-end_session env exit slot p w f s
