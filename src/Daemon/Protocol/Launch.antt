-- ===== src/Daemon/Protocol/Launch.antt =====
-- Every launch of internal/daemon is a sequence of moves of the protocol.
use workingman.Prelude.{
  ◌≡◌, refl, true, false, not, ◌||◌, Option, none, some, inl, inr, Bool-cases, Option-cases,
  is_some, is_some-false, is_some-true, not_or_left, not_or_right, [], ◌∙◌, sym, ap, Str, ℕ, suc,
  if-cases, not-false, ◌∷◌, List,
}
use workingman.Project.{Project, Reason, Status, planning_agent_start_failed}
use workingman.Task.{Task, is_push_task}
use workingman.Daemon.State.{
  World, Env, Kind, Slot, main, planner, archive_slot, start_session, started, lost, failed,
  session_at, set_session, has_session, clear_review_state, Start, Started, Session, session,
}
use workingman.Daemon.Blocked.{launch_wolf_agent, transition_project_blocked}
use workingman.Daemon.Review.{launch_review_agent, dispatch_review_agent}
use workingman.Daemon.Tasks.{
  launch_in_main, launch_task_agent, launch_commit_agent, dispatch_ready_task,
}
use workingman.Daemon.Dispatch.{
  launch_project_root_agent, launch_planning_agent, launch_archive_agent, must_wait, begin_planning,
  end_planning, end_cleanup, is_stale_cleanup,
}
use workingman.Daemon.Protocol.{
  Moves, stay, move, take_wolf, take_main, take_review, take_planner, take_archive, keep_guard,
  is_worker, slots_of, kind_of, beside_planning,
}
use workingman.Daemon.Protocol.Quiet.{slots_of-save, slots_of-unregister_review, slots_of-noted}
use workingman.Daemon.Protocol.Combine.{Moves-trans, Moves-before, Moves-quiet, Moves-if}

-- A start on a free key, by the key.
pub launch_wolf_agent-Moves :
    (env : Env) (p : Project) (w : World)
    → Moves (slots_of w) (slots_of (launch_wolf_agent env p w))
unfolding launch_wolf_agent start_session has_session session_at set_session slots_of kind_of
launch_wolf_agent-Moves env p w = elim (Bool-cases env.has_runner) [
  | inr e ↦ rw e stay
  | inl e ↦ elim (Option-cases w.wolf_session) [
    | inr (s, f) ↦ rw (e, f) stay
    | inl f ↦ elim (Bool-cases (env.start_succeeds w.draws)) [
      | inl g ↦ rw (e, f, g) (move (take_wolf refl) stay)
      | inr g ↦ rw (e, f, g) stay
    ]
  ]
]

pub transition_project_blocked-Moves :
    (env : Env) (p : Project) (why : Reason) (w : World)
    → Moves (slots_of w) (slots_of (transition_project_blocked env p why w))
unfolding transition_project_blocked clear_review_state
transition_project_blocked-Moves env p why w =
    let updated = record p { status = Status.blocked; blocked_reason = why } in
    Moves-before (slots_of-unregister_review env _ ∙ slots_of-save env updated w)
      (Moves-before (slots_of-noted why _) (launch_wolf_agent-Moves env updated _))

-- What a launch does with the outcome of its start.
pub blocked_on_failure-Moves :
    (env : Env) (p : Project) (why : Reason) (o : Start) (w : World)
    → Moves
        (slots_of w)
        (slots_of (elim o [ failed ↦ transition_project_blocked env p why w | _ ↦ w ]))
blocked_on_failure-Moves env p why failed w = transition_project_blocked-Moves env p why w
blocked_on_failure-Moves env p why started w = stay
blocked_on_failure-Moves env p why lost w = stay

-- A start of a worker in the free main slot.
pub start_main-Moves :
    (env : Env) (k : Kind) (path : Str) (p : Project) (w : World)
    → is_worker k ≡ true
    → has_session main w ≡ false
    → Moves (slots_of w) (slots_of ((start_session env main k path p w).world))
unfolding start_session has_session session_at set_session slots_of kind_of
start_main-Moves env k path p w is free =
    let f = is_some-false (w.main_session) free in
    elim (Bool-cases (env.start_succeeds w.draws)) [
      | inl g ↦ rw (f, g) (move (take_main k refl is) stay)
      | inr g ↦ rw (f, g) stay
    ]

pub launch_in_main-Moves :
    (env : Env) (k : Kind) (why : Reason) (p : Project) (t : Task) (w : World)
    → is_worker k ≡ true
    → Moves (slots_of w) (slots_of (launch_in_main env k why p t w))
unfolding launch_in_main
launch_in_main-Moves env k why p t w is =
    Moves-if (not env.has_runner) _ _ (λ _. stay)
      (λ _.
        Moves-if (has_session main w) _ _ (λ _. stay)
          (λ free.
            Moves-trans (start_main-Moves env k t.path p w is free) (
              blocked_on_failure-Moves env p why ((start_session env main k t.path p w).outcome)
                _)))

pub launch_task_agent-Moves :
    (env : Env) (p : Project) (t : Task) (w : World)
    → Moves (slots_of w) (slots_of (launch_task_agent env p t w))
unfolding launch_task_agent is_worker
launch_task_agent-Moves env p t w = launch_in_main-Moves env Kind.task _ p t w refl

pub launch_commit_agent-Moves :
    (env : Env) (p : Project) (t : Task) (w : World)
    → Moves (slots_of w) (slots_of (launch_commit_agent env p t w))
unfolding launch_commit_agent is_worker
launch_commit_agent-Moves env p t w = launch_in_main-Moves env Kind.commit _ p t w refl

pub dispatch_ready_task-Moves :
    (env : Env) (p : Project) (t : Task) (w : World)
    → Moves (slots_of w) (slots_of (dispatch_ready_task env p t w))
unfolding dispatch_ready_task
dispatch_ready_task-Moves env p t w =
    Moves-if (is_push_task t) _ _ (λ _. launch_commit_agent-Moves env p t w)
      (λ _. launch_task_agent-Moves env p t w)

pub launch_project_root_agent-Moves :
    (env : Env) (p : Project) (w : World)
    → Moves (slots_of w) (slots_of (launch_project_root_agent env p w))
unfolding launch_project_root_agent is_worker
launch_project_root_agent-Moves env p w =
    Moves-if (not env.has_runner) _ _ (λ _. stay)
      (λ _.
        Moves-if (has_session main w) _ _ (λ _. stay)
          (λ free. Moves-trans (start_main-Moves env Kind.project [] p w refl free) (
            blocked_on_failure-Moves env p _ ((start_session env main Kind.project [] p w).outcome)
              _)))

start_review-Moves :
    (env : Env) (p : Project) (w : World)
    → has_session main w ≡ false
    → w.planning_busy ≡ false
    → Moves (slots_of w) (slots_of ((start_session env main Kind.review [] p w).world))
unfolding start_session has_session session_at set_session slots_of kind_of
start_review-Moves env p w free calm =
    let f = is_some-false (w.main_session) free in
    elim (Bool-cases (env.start_succeeds w.draws)) [
      | inl g ↦ rw (f, g) (move (take_review refl calm) stay)
      | inr g ↦ rw (f, g) stay
    ]

-- The review agent's start, where the main slot is free and no planning agent is in flight.
pub dispatch_review_agent-Moves :
    (env : Env) (p : Project) (w : World)
    → Moves (slots_of w) (slots_of (dispatch_review_agent env p w))
unfolding dispatch_review_agent launch_review_agent
dispatch_review_agent-Moves env p w =
    Moves-if (has_session main w || w.planning_busy) _ _ (λ _. stay)
      (λ free.
        Moves-if (not env.has_runner) _ _ (λ _. stay)
          (λ _. start_review-Moves env p w (not_or_left _ _ free) (not_or_right _ _ free)))

-- A property of what a start gives, by its outcome.
pub start-cases :
    (env : Env) (slot : Slot) (k : Kind) (path : Str) (p : Project) (w : World)
    (P : Started → Type 0)
    → P (record { world = record w { draws = suc (w.draws) }; outcome = failed })
    → (is_some (session_at slot w) ≡ true
        → P (record { world = record w { draws = suc (w.draws) }; outcome = lost }))
    → (is_some (session_at slot w) ≡ false
        → P (record {
          world =
              set_session slot
                (some (session k path p))
                (record w { draws = suc (w.draws); launches = (k, path) ∷ w.launches });
          outcome = started;
        }))
    → P (start_session env slot k path p w)
unfolding start_session has_session
start-cases env slot k path p w P on_failed on_lost on_started =
    if-cases (not (env.start_succeeds w.draws)) P (λ _. on_failed)
      (λ _. if-cases (is_some (session_at slot w)) P on_lost on_started)

-- A planning agent that did not start leaves the guard as it was.
slots_of-end_planning :
    (d : ℕ) (files : List Str) (w : World)
    → w.planning_busy ≡ false
    → slots_of (end_planning (record (begin_planning files w) { draws = d })) ≡ slots_of w
unfolding slots_of end_planning begin_planning
slots_of-end_planning d files w calm = ap (λ b. record (slots_of w) { busy = b }) (sym calm)

beside_planning-must_wait :
    (o : Option Session) (p : Project) → must_wait o p ≡ false → beside_planning (kind_of o) ≡ true
unfolding must_wait beside_planning kind_of
beside_planning-must_wait none p e = refl
beside_planning-must_wait (some s) p e = not-false _ (not_or_left _ _ e)

start_planner-Moves :
    (d : ℕ) (n : Session) (files : List Str) (launched : List (Kind × Str)) (w : World)
    → w.planner_session ≡ none
    → w.planning_busy ≡ false
    → beside_planning (kind_of w.main_session) ≡ true
    → n.kind ≡ Kind.planning
    → Moves (slots_of w) (
        slots_of (record (begin_planning files w) {
          planner_session = some n;
          draws = d;
          launches = launched;
        }))
unfolding slots_of begin_planning kind_of
start_planner-Moves d n files launched w free calm beside is =
    rw (is) (move (take_planner (ap kind_of free) calm beside) stay)

free_planner :
    (files : List Str) (w : World)
    → is_some ((begin_planning files w).planner_session) ≡ false
    → w.planner_session ≡ none
unfolding begin_planning
free_planner files w e = is_some-false (w.planner_session) e

pub launch_planning_agent-Moves :
    (env : Env) (p : Project) (w : World)
    → Moves (slots_of w) (slots_of (launch_planning_agent env p w))
unfolding launch_planning_agent session_at set_session
launch_planning_agent-Moves env p w =
    Moves-if (not env.has_runner) _ _ (λ _. stay)
      (λ _.
        Moves-if (must_wait w.main_session p) _ _ (λ _. stay)
          (λ beside.
            Moves-if w.planning_busy _ _ (λ _. stay)
              (λ calm.
                start-cases env planner Kind.planning [] p (begin_planning w.intake w)
                  (λ start. Moves (slots_of w) (
                    slots_of (elim start.outcome [
                      | started ↦ start.world
                      | lost ↦ end_planning start.world
                      | failed ↦
                          transition_project_blocked env p planning_agent_start_failed
                            (end_planning start.world)
                    ])))
                  (Moves-before (slots_of-end_planning _ w.intake w calm)
                    (transition_project_blocked-Moves env p _ _))
                  (λ _. Moves-quiet (sym (slots_of-end_planning _ w.intake w calm)))
                  (λ free.
                    start_planner-Moves _ _ w.intake _ w (free_planner w.intake w free) calm
                      (beside_planning-must_wait w.main_session p beside) refl))))

-- The guard of the archive agent, taken in `begun`.
archive_ended :
    (d : ℕ) (w : World)
    → w.cleanup_in_flight ≡ false
    → slots_of (end_cleanup (record w { cleanup_in_flight = true; draws = d })) ≡ slots_of w
unfolding slots_of end_cleanup
archive_ended d w idle = ap (λ b. record (slots_of w) { in_flight = b }) (sym idle)

archive_lost :
    (d : ℕ) (w : World)
    → is_some w.archive_session ≡ true
    → Moves (slots_of w) (slots_of (record w { cleanup_in_flight = true; draws = d }))
unfolding slots_of kind_of
archive_lost d w held =
    let (s, e) = is_some-true (w.archive_session) held in
    move (keep_guard s.kind (ap kind_of e)) stay

archive_started :
    (d : ℕ) (n : Session) (launched : List (Kind × Str)) (w : World)
    → w.archive_session ≡ none
    → w.cleanup_in_flight ≡ false
    → n.kind ≡ Kind.archive
    → Moves (slots_of w) (
        slots_of (record w {
          cleanup_in_flight = true;
          archive_session = some n;
          draws = d;
          launches = launched;
        }))
unfolding slots_of kind_of
archive_started d n launched w free idle is =
    rw (is) (move (take_archive (ap kind_of free) idle) stay)

pub launch_archive_agent-Moves :
    (env : Env) (p : Project) (w : World)
    → Moves (slots_of w) (slots_of (launch_archive_agent env p w))
unfolding launch_archive_agent session_at set_session
launch_archive_agent-Moves env p w =
    Moves-if (not env.has_runner) _ _ (λ _. stay)
      (λ _.
        Moves-if w.cleanup_in_flight _ _ (λ _. stay)
          (λ idle.
            let begun = record w { cleanup_in_flight = true } in
            Moves-if (is_stale_cleanup begun) _ _
              (λ _. Moves-quiet (sym (archive_ended w.draws w idle)))
              (λ _.
                start-cases env archive_slot Kind.archive [] p begun
                  (λ start. Moves (slots_of w) (
                    slots_of
                      (elim start.outcome [ failed ↦ end_cleanup start.world | _ ↦ start.world ])))
                  (Moves-quiet (sym (archive_ended _ w idle))) (λ held. archive_lost _ w held)
                  (λ free.
                    archive_started _ _ _ w (is_some-false (w.archive_session) free) idle refl))))
