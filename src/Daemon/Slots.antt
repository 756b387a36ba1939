-- ===== src/Daemon/Slots.antt =====
-- Every state that a daemon reaches, by any sequence of events and one handler after another, keeps the
-- protocol of the session map and the guards around it (internal/daemon).
mod Ends
mod Kinds
use workingman.Prelude.{
  ℕ, ◌<◌, ◌≡◌, refl, sym, subst, Bool, true, false, not, ◌||◌, Option, none, some, is_some,
  is_some-true, List, Str, if-cases, true≢false, false≢true, inl, inr, if◌then◌else◌, ap, ◌∙◌,
  arith, Option-cases, ◌≢◌,
}
use workingman.Project.{Project}
use workingman.Taskgraph.{Dir}
use workingman.Daemon.State.{
  World, Env, Kind, Session, Slot, ProjectFile, session_at, set_session, main, planner, wolf_slot,
  archive_slot,
}
use workingman.Daemon.Dispatch.{launch_planning_agent, end_planning}
use workingman.Daemon.Ends.{Exit}
use workingman.Daemon.Events.{
  Event, Reachable, boot, next, step, end_session, on_end, booted, outside_write, project_event,
  seed_event, intake_event, cron_fires, review_poll_fires, session_ends,
}
use workingman.Daemon.Protocol.{is_worker, Slots, Moves, slots_of, kind_of}
use workingman.Daemon.Protocol.Invariant.{IsSound, main_kind, only}
use workingman.Daemon.Ends.{max_planning_retries, max_project_retries}
use workingman.Daemon.Protocol.Watch.{
  revisit_project-Moves, handle_project-Moves, handle_project_seed-Moves, handle_intake_file-Moves,
  on_cron_fired-Moves, on_review_poll-Moves,
}
use workingman.Daemon.Protocol.Ends.{after_task_session-Moves, after_commit_session-Moves}
use workingman.Daemon.Protocol.Reviews.{after_review_session-Moves}
use workingman.Daemon.Slots.Ends.{
  kept, after_project_session-Sound, planner_ended, after_planning_session-Sound, archive_ending,
  after_archive_session-Sound,
}
use workingman.Daemon.Slots.Kinds.{
  main_ended, wolf_ended, on_end_main, on_end_planner, on_end_wolf, on_end_archive,
}

if_running :
    (up : Bool) (x y : World)
    → up ≡ true
    → IsSound false (slots_of y)
    → IsSound false (slots_of (if not up then x else y))
if_running true x y e ok = ok
if_running false x y e ok = absurd (false≢true e)

-- The end of a session where the daemon is not shutting down.
end_session-Sound :
    (env : Env) (exit : Exit) (slot : Slot) (w : World)
    → env.running ≡ true
    → IsSound false (slots_of w)
    → IsSound false (slots_of (end_session env exit slot w))
unfolding end_session session_at slots_of kind_of
end_session-Sound env exit main w up ok = held w.main_session refl
  where
    held :
        (o : Option Session)
        → w.main_session ≡ o
        → IsSound false (
            slots_of (elim o [
              | none ↦ w
              | some s ↦
                  if not env.running
                  then set_session main none w
                  else on_end env exit s (set_session main none w)
            ]))
    held none e = ok
    held (some s) e = if_running env.running (set_session main none w) _ up (
        on_end_main env exit s (set_session main none w)
          (subst (λ o. main_kind (kind_of o) ≡ true) e ok.main_ok) (main_ended w ok))
end_session-Sound env exit planner w up ok = held w.planner_session refl
  where
    held :
        (o : Option Session)
        → w.planner_session ≡ o
        → IsSound false (
            slots_of (elim o [
              | none ↦ w
              | some s ↦
                  if not env.running
                  then set_session planner none w
                  else on_end env exit s (set_session planner none w)
            ]))
    held none e = ok
    held (some s) e = if_running env.running (set_session planner none w) _ up (
        on_end_planner env exit s (set_session planner none w)
          (subst (λ o. only Kind.planning (kind_of o) ≡ true) e ok.planner_ok) (planner_ended w ok))
end_session-Sound env exit wolf_slot w up ok = held w.wolf_session refl
  where
    held :
        (o : Option Session)
        → w.wolf_session ≡ o
        → IsSound false (
            slots_of (elim o [
              | none ↦ w
              | some s ↦
                  if not env.running
                  then set_session wolf_slot none w
                  else on_end env exit s (set_session wolf_slot none w)
            ]))
    held none e = ok
    held (some s) e = if_running env.running (set_session wolf_slot none w) _ up (
        on_end_wolf env exit s (set_session wolf_slot none w)
          (subst (λ o. only Kind.wolf (kind_of o) ≡ true) e ok.wolf_ok) (wolf_ended w ok))
end_session-Sound env exit archive_slot w up ok = held w.archive_session refl
  where
    held :
        (o : Option Session)
        → w.archive_session ≡ o
        → IsSound false (
            slots_of (elim o [
              | none ↦ w
              | some s ↦
                  if not env.running
                  then set_session archive_slot none w
                  else on_end env exit s (set_session archive_slot none w)
            ]))
    held none e = ok
    held (some s) e = if_running env.running (set_session archive_slot none w) _ up (
        on_end_archive env exit s (set_session archive_slot none w)
          (subst (λ o. only Kind.archive (kind_of o) ≡ true) e ok.archive_ok)
          (archive_ending w s e ok))

booted-Sound :
    (file : ProjectFile) (tasks : Dir) (intake : List Str)
    → IsSound false (slots_of (booted file tasks intake))
unfolding booted slots_of kind_of main_kind only
booted-Sound file tasks intake = record {
  main_ok = refl;
  planner_ok = refl;
  wolf_ok = refl;
  archive_ok = refl;
  planning_guard = refl;
  cleanup_guard = refl;
  ended = λ e. absurd (false≢true e);
  review_alone = λ e. refl;
  planning_budget = omega arith;
  project_budget = omega arith;
}

slots_of-outside :
    (file : ProjectFile) (tasks : Dir) (intake : List Str) (w : World)
    → slots_of (record w { file = file; tasks = tasks; intake = intake }) ≡ slots_of w
unfolding slots_of
slots_of-outside file tasks intake w = refl

step-Sound :
    (env : Env) (e : Event) (w : World)
    → env.running ≡ true
    → IsSound false (slots_of w)
    → IsSound false (slots_of (step env e w))
unfolding step
step-Sound env (outside_write file tasks intake) w up ok =
    subst (λ s. IsSound false s) (sym (slots_of-outside file tasks intake w)) ok
step-Sound env project_event w up ok = kept _ _ (handle_project-Moves env w) ok
step-Sound env (seed_event text) w up ok = kept _ _ (handle_project_seed-Moves env text w) ok
step-Sound env (intake_event text) w up ok = kept _ _ (handle_intake_file-Moves env text w) ok
step-Sound env cron_fires w up ok =
    if-cases env.has_scheduler (λ x. IsSound false (slots_of x))
      (λ _. kept _ _ (on_cron_fired-Moves env w) ok) (λ _. ok)
step-Sound env review_poll_fires w up ok = kept _ _ (on_review_poll-Moves env w) ok
step-Sound env (session_ends slot exit) w up ok = end_session-Sound env exit slot w up ok

Reachable-IsSound : (w : World) → Reachable w → IsSound false (slots_of w)
Reachable-IsSound _ (boot file tasks intake) = booted-Sound file tasks intake
Reachable-IsSound _ (next {w} env e up before) = step-Sound env e w up (Reachable-IsSound w before)

-- Each key of the session map is held by an agent of its own kinds; a tracked planning session and a
-- tracked cleanup have their reservation; and the counters of fruitless runs are below their bounds.
pub record IsGuarded (w : World) : Type 0 where
  pub main_ok : main_kind (kind_of w.main_session) ≡ true
  pub planner_ok : only Kind.planning (kind_of w.planner_session) ≡ true
  pub wolf_ok : only Kind.wolf (kind_of w.wolf_session) ≡ true
  pub archive_ok : only Kind.archive (kind_of w.archive_session) ≡ true
  pub planning_reserved : (s : Session) → w.planner_session ≡ some s → w.planning_busy ≡ true
  pub cleanup_reserved : (s : Session) → w.archive_session ≡ some s → w.cleanup_in_flight ≡ true
  pub planning_budget : w.planning_failures < max_planning_retries
  pub project_budget : w.project_failures < max_project_retries

-- In every state that a daemon whose handlers run one after another reaches before it shuts down, by any
-- sequence of file events, cron and review-poll firings, session ends and writes from outside: each key
-- of the session map is held by an agent of its own kinds; while a planning session is tracked the
-- planning reservation is held, and while an archive session is tracked the cleanup reservation; and
-- fewer than three fruitless planning or project runs are counted.
pub Reachable-IsGuarded : (w : World) → Reachable w → IsGuarded w
unfolding slots_of kind_of
Reachable-IsGuarded w r =
    let ok = Reachable-IsSound w r in
    record {
      main_ok = ok.main_ok;
      planner_ok = ok.planner_ok;
      wolf_ok = ok.wolf_ok;
      archive_ok = ok.archive_ok;
      planning_reserved = λ s e. ok.planning_guard ∙ ap (λ o. is_some (kind_of o)) e;
      cleanup_reserved = λ s e. ok.cleanup_guard ∙ ap (λ o. is_some (kind_of o) || false) e;
      planning_budget = ok.planning_budget;
      project_budget = ok.project_budget;
    }
