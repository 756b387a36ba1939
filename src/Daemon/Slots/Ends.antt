-- ===== src/Daemon/Slots/Ends.antt =====
-- The callbacks that move the guards and the counters of fruitless runs keep the soundness of the
-- slots (internal/daemon).
use workingman.Prelude.{
  ℕ, ◌+◌, ◌<◌, ◌≡◌, refl, sym, ◌∙◌, subst, Bool, true, false, not, none, some, is_some, if-cases,
  leb, arith, ◌||◌, false≢true, ap,
}
use workingman.Project.{Project, Status, status_eq, unpopulated}
use workingman.Daemon.State.{
  World, Env, Session, ProjectFile, absent, broken, parsed, set_session, planner, archive_slot,
  save,
}
use workingman.Daemon.Dispatch.{end_planning, end_cleanup}
use workingman.Daemon.Ends.{
  retry_planning, retry_project, after_planning_session, after_project_session,
  after_archive_session, bump_planning_failures, bump_project_failures, reset_planning_failures,
  reset_project_failures, max_planning_retries, max_project_retries,
}
use workingman.Daemon.Protocol.{Slots, Moves, slots_of, kind_of}
use workingman.Daemon.Protocol.Invariant.{IsSound, Moves-IsSound, only}
use workingman.Daemon.Protocol.Quiet.{slots_of-save}
use workingman.Daemon.Protocol.Launch.{transition_project_blocked-Moves}
use workingman.Daemon.Protocol.Route.{dispatch_project-Moves}
use workingman.Daemon.Protocol.Watch.{revisit_project-Moves, slots_of-clear_replan}

pub kept :
    {ending : Bool} (w v : World)
    → Moves (slots_of w) (slots_of v)
    → IsSound ending (slots_of w)
    → IsSound ending (slots_of v)
kept w v ms ok = Moves-IsSound _ _ _ ms ok

kept_quiet : {s : Slots} (t : Slots) → t ≡ s → IsSound false s → IsSound false t
kept_quiet t e ok = subst (λ x. IsSound false x) (sym e) ok

with_planning :
    (n : ℕ) (w : World)
    → n < max_planning_retries
    → IsSound false (slots_of w)
    → IsSound false (slots_of (record w { planning_failures = n }))
unfolding slots_of
with_planning n w few ok = record {
  main_ok = ok.main_ok;
  planner_ok = ok.planner_ok;
  wolf_ok = ok.wolf_ok;
  archive_ok = ok.archive_ok;
  planning_guard = ok.planning_guard;
  cleanup_guard = ok.cleanup_guard;
  ended = ok.ended;
  review_alone = ok.review_alone;
  planning_budget = few;
  project_budget = ok.project_budget;
}

with_project :
    (n : ℕ) (w : World)
    → n < max_project_retries
    → IsSound false (slots_of w)
    → IsSound false (slots_of (record w { project_failures = n }))
unfolding slots_of
with_project n w few ok = record {
  main_ok = ok.main_ok;
  planner_ok = ok.planner_ok;
  wolf_ok = ok.wolf_ok;
  archive_ok = ok.archive_ok;
  planning_guard = ok.planning_guard;
  cleanup_guard = ok.cleanup_guard;
  ended = ok.ended;
  review_alone = ok.review_alone;
  planning_budget = ok.planning_budget;
  project_budget = few;
}

leb-< : (m n : ℕ) → leb m n ≡ false → n < m
leb-< m n e = ground arith

retry_planning-Sound :
    (env : Env) (wait_failed : Bool) (p : Project) (w : World)
    → IsSound false (slots_of w)
    → IsSound false (slots_of (retry_planning env wait_failed p w))
unfolding retry_planning reset_planning_failures bump_planning_failures
retry_planning-Sound env wait_failed p w ok =
    let reset = with_planning 0 w (omega arith) ok in
    if-cases wait_failed (λ x. IsSound false (slots_of x))
      (λ _. kept _ _ (transition_project_blocked-Moves env p _ _) reset)
      (λ _.
        if-cases (leb max_planning_retries (w.planning_failures + 1))
          (λ x. IsSound false (slots_of x))
          (λ _. kept _ _ (transition_project_blocked-Moves env p _ _) reset)
          (λ few.
            let bumped = with_planning (w.planning_failures + 1) w (leb-< _ _ few) ok in
            if-cases env.running (λ x. IsSound false (slots_of x))
              (λ _. kept _ _ (revisit_project-Moves env _) bumped) (λ _. bumped)))

retry_project-Sound :
    (env : Env) (wait_failed : Bool) (p : Project) (w : World)
    → IsSound false (slots_of w)
    → IsSound false (slots_of (retry_project env wait_failed p w))
unfolding retry_project reset_project_failures bump_project_failures
retry_project-Sound env wait_failed p w ok =
    let reset = with_project 0 w (omega arith) ok in
    if-cases wait_failed (λ x. IsSound false (slots_of x))
      (λ _. kept _ _ (transition_project_blocked-Moves env p _ _) reset)
      (λ _.
        if-cases (leb max_project_retries (w.project_failures + 1))
          (λ x. IsSound false (slots_of x))
          (λ _. kept _ _ (transition_project_blocked-Moves env p _ _) reset)
          (λ few.
            let bumped = with_project (w.project_failures + 1) w (leb-< _ _ few) ok in
            if-cases env.running (λ x. IsSound false (slots_of x))
              (λ _. kept _ _ (revisit_project-Moves env _) bumped) (λ _. bumped)))

-- A case on the project file.
file-cases :
    (file : ProjectFile) (P : World → Type 0) {x : World} {f : Project → World}
    → P x
    → ((p : Project) → P (f p))
    → P (elim file [ parsed p ↦ f p | _ ↦ x ])
file-cases absent P otherwise on_parsed = otherwise
file-cases broken P otherwise on_parsed = otherwise
file-cases (parsed p) P otherwise on_parsed = on_parsed p

pub after_project_session-Sound :
    (env : Env) (wait_failed : Bool) (w : World)
    → IsSound false (slots_of w)
    → IsSound false (slots_of (after_project_session env wait_failed w))
unfolding after_project_session reset_project_failures
after_project_session-Sound env wait_failed w ok =
    let reset = with_project 0 w (omega arith) ok in
    file-cases w.file (λ x. IsSound false (slots_of x)) reset
      (λ p.
        if-cases (not (unpopulated p)) (λ x. IsSound false (slots_of x))
          (λ _. kept _ _ (dispatch_project-Moves env p _) reset)
          (λ _. retry_project-Sound env wait_failed p w ok))

-- The slots when the planning agent's session has left the map and endPlanning has run.
pub planner_ended :
    (w : World)
    → IsSound false (slots_of w)
    → IsSound false (slots_of (end_planning (set_session planner none w)))
unfolding slots_of kind_of end_planning set_session only
planner_ended w ok = record {
  main_ok = ok.main_ok;
  planner_ok = refl;
  wolf_ok = ok.wolf_ok;
  archive_ok = ok.archive_ok;
  planning_guard = refl;
  cleanup_guard = ok.cleanup_guard;
  ended = ok.ended;
  review_alone = λ _. refl;
  planning_budget = ok.planning_budget;
  project_budget = ok.project_budget;
}

pub after_planning_session-Sound :
    (env : Env) (wait_failed : Bool) (w : World)
    → IsSound false (slots_of (end_planning w))
    → IsSound false (slots_of (after_planning_session env wait_failed w))
unfolding after_planning_session reset_planning_failures
after_planning_session-Sound env wait_failed w ok =
    let reset = with_planning 0 (end_planning w) (omega arith) ok in
    file-cases ((end_planning w).file) (λ x. IsSound false (slots_of x)) reset
      (λ p.
        if-cases (not (status_eq p.status Status.ready)) (λ x. IsSound false (slots_of x))
          (λ _.
            kept _ _ (dispatch_project-Moves env _ _)
              (kept_quiet _ (slots_of-clear_replan env p _) reset))
          (λ _. retry_planning-Sound env wait_failed p _ ok))

-- The slots while, and when, the callback of an archive session runs.
pub archive_ending :
    (w : World) (s : Session)
    → w.archive_session ≡ some s
    → IsSound false (slots_of w)
    → IsSound true (slots_of (set_session archive_slot none w))
unfolding slots_of kind_of set_session only
archive_ending w s held ok = record {
  main_ok = ok.main_ok;
  planner_ok = ok.planner_ok;
  wolf_ok = ok.wolf_ok;
  archive_ok = refl;
  planning_guard = ok.planning_guard;
  cleanup_guard = ok.cleanup_guard ∙ ap (λ o. is_some (kind_of o) || false) held;
  ended = λ _. refl;
  review_alone = ok.review_alone;
  planning_budget = ok.planning_budget;
  project_budget = ok.project_budget;
}

archive_ended : (w : World) → IsSound true (slots_of w) → IsSound false (slots_of (end_cleanup w))
unfolding slots_of end_cleanup
archive_ended w ok = record {
  main_ok = ok.main_ok;
  planner_ok = ok.planner_ok;
  wolf_ok = ok.wolf_ok;
  archive_ok = ok.archive_ok;
  planning_guard = ok.planning_guard;
  cleanup_guard = ap (λ o. is_some o || false) (sym (ok.ended refl));
  ended = λ e. absurd (false≢true e);
  review_alone = ok.review_alone;
  planning_budget = ok.planning_budget;
  project_budget = ok.project_budget;
}

pub after_archive_session-Sound :
    (env : Env) (w : World)
    → IsSound true (slots_of w)
    → IsSound false (slots_of (after_archive_session env w))
unfolding after_archive_session
after_archive_session-Sound env w ok =
    file-cases w.file (λ x. IsSound false (slots_of x)) (archive_ended w ok)
      (λ p.
        let cleared = record p { cleanup = false } in
        let saved_ok = subst (λ x. IsSound true x) (sym (slots_of-save env cleared w)) ok in
        if-cases (not p.cleanup) (λ x. IsSound false (slots_of x))
          (λ _. archive_ended _ (kept _ _ (revisit_project-Moves env w) ok))
          (λ _.
            if-cases (not ((save env cleared w).succeeded)) (λ x. IsSound false (slots_of x))
              (λ _. archive_ended _ saved_ok)
              (λ _. archive_ended _ (kept _ _ (revisit_project-Moves env _) saved_ok))))
