-- ===== src/Daemon/Protocol/Reviews.antt =====
-- The callback of the review agent is a sequence of moves of the protocol.
use workingman.Prelude.{◌≡◌, refl, Bool, ◌||◌, ◌&&◌, Option, none, some, ◌∙◌, Str, ltb, ℕ, ◌+◌}
use workingman.Project.{Project, Status, status_eq, watching_pr}
use workingman.Daemon.State.{World, Env, is_stopped, unregister_review, clear_review_polling}
use workingman.Daemon.Review.{maybe_transition_merged}
use workingman.Daemon.Dispatch.{has_pending_intake, has_pending_seed_on_disk}
use workingman.Daemon.ReviewEnd.{
  after_review_error, store_review_finger, after_review_status, after_review_session,
  max_review_errors, max_review_fix_cycles,
}
use workingman.Daemon.Protocol.{Moves, stay, slots_of}
use workingman.Daemon.Protocol.Quiet.{slots_of-unregister_review, slots_of-clear_review_state}
use workingman.Daemon.Protocol.Combine.{Moves-trans, Moves-before, Moves-if, Moves-file}
use workingman.Daemon.Protocol.Launch.{transition_project_blocked-Moves}
use workingman.Daemon.Protocol.Graph.{maybe_transition_merged-Moves}
use workingman.Daemon.Protocol.Watch.{revisit_project-Moves}

-- The counters of the review loop are not part of the protocol.
slots_of-review :
    (errors cycles : ℕ) (w : World)
    → slots_of (record w { review_errors = errors; review_fix_cycles = cycles }) ≡ slots_of w
unfolding slots_of
slots_of-review errors cycles w = refl

slots_of-clear_review_polling : (w : World) → slots_of (clear_review_polling w) ≡ slots_of w
unfolding clear_review_polling slots_of
slots_of-clear_review_polling w = refl

slots_of-store_review_finger :
    (env : Env) (p : Project) (w : World) → slots_of (store_review_finger env p w) ≡ slots_of w
unfolding store_review_finger slots_of
slots_of-store_review_finger env p w = by_finger (env.fingerprint p)
  where
    by_finger :
        (o : Option Str)
        → slots_of (elim o [ none ↦ w | some f ↦ record w { review_finger = some f } ]) ≡ slots_of w
    by_finger none = refl
    by_finger (some f) = refl

after_review_error-Moves :
    (env : Env) (w : World) → Moves (slots_of w) (slots_of (after_review_error env w))
unfolding after_review_error
after_review_error-Moves env w =
    Moves-before (slots_of-review (w.review_errors + 1) w.review_fix_cycles w) (
      Moves-if (ltb (w.review_errors + 1) max_review_errors) _ _ (λ _. stay)
        (λ _. Moves-before (slots_of-unregister_review env _) (
          Moves-file
            ((unregister_review env (record w { review_errors = w.review_errors + 1 })).file) _ _
            stay (λ p _. transition_project_blocked-Moves env p _ _))))

after_review_status-Moves :
    (env : Env) (p : Project) (w : World)
    → Moves (slots_of w) (slots_of (after_review_status env p w))
unfolding after_review_status
after_review_status-Moves env p w =
    let seen = store_review_finger env p (record w { review_fix_cycles = 0 }) in
    Moves-if (status_eq p.status Status.idle && watching_pr p) _ _
      (λ _.
        Moves-before (slots_of-store_review_finger env p _ ∙ slots_of-review w.review_errors 0 w) (
          Moves-if (has_pending_intake seen || has_pending_seed_on_disk env seen) _ _
            (λ _. revisit_project-Moves env _) (λ _. stay)))
      (λ _.
        Moves-if (status_eq p.status Status.working) _ _
          (λ _.
            Moves-before
              (slots_of-clear_review_polling _
                ∙ slots_of-unregister_review env _
                ∙ slots_of-review w.review_errors _ w)
              (Moves-if (ltb max_review_fix_cycles (w.review_fix_cycles + 1)) _ _
                (λ _. transition_project_blocked-Moves env p _ _)
                (λ _. revisit_project-Moves env _)))
          (λ _.
            Moves-before (slots_of-clear_review_state _ ∙ slots_of-unregister_review env w)
              (revisit_project-Moves env _)))

pub after_review_session-Moves :
    (env : Env) (wait_failed : Bool) (w : World)
    → Moves (slots_of w) (slots_of (after_review_session env wait_failed w))
unfolding after_review_session
after_review_session-Moves env wait_failed w =
    let reset = record w { review_errors = 0 } in
    Moves-if (is_stopped w) _ _ (λ _. stay)
      (λ _.
        Moves-if wait_failed _ _ (λ _. after_review_error-Moves env w)
          (λ _. Moves-before (slots_of-review 0 w.review_fix_cycles w) (
            Moves-file reset.file _ _ stay (λ p _.
              Moves-trans (maybe_transition_merged-Moves env p reset) (
                Moves-if ((maybe_transition_merged env p reset).handled) _ _ (λ _. stay)
                  (λ _. after_review_status-Moves env p _))))))
