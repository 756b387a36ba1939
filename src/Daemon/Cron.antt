-- ===== src/Daemon/Cron.antt =====
-- The cron schedule of a project (internal/daemon/dispatch.go).
use workingman.Prelude.{
  ◌≡◌, sym, ap, ◌∙◌, Bool, true, false, ◌||◌, not, none, is_empty, arith, if◌then◌else◌, if-cases,
  true≢false,
}
use workingman.Project.{Project, Reason, Status, status_eq, cron_expired, cron_unbounded}
use workingman.Daemon.State.{
  World, Env, unregister_cron, unregister_review, save, save_as, start_session, set_session,
  clear_review_state,
}
use workingman.Daemon.Blocked.{transition_project_blocked, launch_wolf_agent}
use workingman.Daemon.Review.{Handled}
use workingman.Daemon.Dispatch.{register_cron_if_any}

cron_spec-launch_wolf_agent :
    (env : Env) (p : Project) (w : World) → (launch_wolf_agent env p w).cron_spec ≡ w.cron_spec
unfolding launch_wolf_agent start_session set_session
cron_spec-launch_wolf_agent env p w = ground arith

cron_spec-unregister_review :
    (env : Env) (w : World) → (unregister_review env w).cron_spec ≡ w.cron_spec
unfolding unregister_review
cron_spec-unregister_review env w = ground arith

cron_spec-save :
    (env : Env) (p : Project) (w : World) → ((save env p w).world).cron_spec ≡ w.cron_spec
unfolding save save_as
cron_spec-save env p w = ground arith

cron_spec-transition_project_blocked :
    (env : Env) (p : Project) (why : Reason) (w : World)
    → (transition_project_blocked env p why w).cron_spec ≡ w.cron_spec
unfolding transition_project_blocked clear_review_state
cron_spec-transition_project_blocked env p why w =
    let updated = record p { status = Status.blocked; blocked_reason = why } in
    cron_spec-launch_wolf_agent env updated _
    ∙ cron_spec-unregister_review env _
    ∙ cron_spec-save env updated w

cron_spec-unregister_cron :
    (env : Env) (w : World) → env.has_scheduler ≡ true → (unregister_cron env w).cron_spec ≡ none
unfolding unregister_cron
cron_spec-unregister_cron env w e =
    ap (λ (x : World). x.cron_spec) (ap (λ b. if b then record w { cron_spec = none } else w) e)

no_disjunct : (a b : Bool) → (a || b) ≡ true → b ≡ false → a ≡ true
no_disjunct a b e f = ground arith

-- Where there is a scheduler and the project has a cron text whose schedule has expired, or has no
-- stop condition at all, registerCronIfAny leaves no schedule registered, whatever was registered
-- before and whether or not the block it may lead to could be saved.
pub register_cron_if_any-dropped :
    (env : Env) (p : Project) (w : World)
    → env.has_scheduler ≡ true
    → is_empty p.cron ≡ false
    → (cron_expired env.now p || cron_unbounded p) ≡ true
    → ((register_cron_if_any env p w).world).cron_spec ≡ none
unfolding register_cron_if_any
register_cron_if_any-dropped env p w sched has_cron over =
    let gone = cron_spec-unregister_cron env w sched in
    if-cases (not env.has_scheduler || is_empty p.cron) (λ (h : Handled). h.world.cron_spec ≡ none)
      (λ e. absurd (true≢false (sym e ∙ none_of sched has_cron)))
      (λ _.
        if-cases (cron_unbounded p) (λ (h : Handled). h.world.cron_spec ≡ none)
          (λ _.
            if-cases (status_eq p.status Status.blocked) (λ (h : Handled). h.world.cron_spec ≡ none)
              (λ _. gone) (λ _. cron_spec-transition_project_blocked env p _ _ ∙ gone))
          (λ bounded.
            if-cases (cron_expired env.now p) (λ (h : Handled). h.world.cron_spec ≡ none)
              (λ _. gone)
              (λ live. absurd (true≢false (sym (no_disjunct _ _ over bounded) ∙ live)))))
  where
    none_of : {a b : Bool} → a ≡ true → b ≡ false → (not a || b) ≡ false
    none_of {a} {b} e f = ground arith
