-- ===== src/Daemon/ReviewEnd.antt =====
-- The callback at the end of a review session (internal/daemon/review.go).
use workingman.Prelude.{ℕ, ◌+◌, Bool, ◌&&◌, ◌||◌, ltb, if◌then◌else◌, none, some}
use workingman.Project.{
  Project, Status, status_eq, watching_pr, review_agent_failed, review_not_converging,
}
use workingman.Daemon.State.{
  World, Env, parsed, is_stopped, unregister_review, clear_review_polling, clear_review_state,
}
use workingman.Daemon.Blocked.{transition_project_blocked}
use workingman.Daemon.Review.{maybe_transition_merged}
use workingman.Daemon.Dispatch.{has_pending_intake, has_pending_seed_on_disk}
use workingman.Daemon.Route.{revisit_project}

abbrev pub max_review_errors : ℕ
max_review_errors = 5

abbrev pub max_review_fix_cycles : ℕ
max_review_fix_cycles = 10

-- afterReviewSession where the run failed.
unfoldable pub after_review_error : Env → World → World
unfolding unregister_review transition_project_blocked
after_review_error env w =
    let bumped = record w { review_errors = w.review_errors + 1 } in
    if ltb (bumped.review_errors) max_review_errors
    then bumped
    else let unscheduled = unregister_review env bumped in
      elim unscheduled.file [
        | parsed p ↦
            transition_project_blocked env p (review_agent_failed bumped.review_errors) unscheduled
        | _ ↦ unscheduled
      ]

-- storeReviewFinger, where there is a fingerprint.
unfoldable pub store_review_finger : Env → Project → World → World
store_review_finger env p w = elim (env.fingerprint p) [
  | none ↦ w
  | some f ↦ record w { review_finger = some f }
]

-- The switch of afterReviewSession.
unfoldable pub after_review_status : Env → Project → World → World
unfolding store_review_finger has_pending_intake has_pending_seed_on_disk revisit_project
    unregister_review clear_review_polling clear_review_state transition_project_blocked
after_review_status env p w =
    if status_eq p.status Status.idle && watching_pr p
    then (let seen = store_review_finger env p (record w { review_fix_cycles = 0 }) in
        if has_pending_intake seen || has_pending_seed_on_disk env seen
        then revisit_project env seen
        else seen)
    else if status_eq p.status Status.working
    then (let cycles = w.review_fix_cycles + 1 in
        let cleared =
          clear_review_polling (unregister_review env (record w { review_fix_cycles = cycles })) in
        if ltb max_review_fix_cycles cycles
        then transition_project_blocked env p (review_not_converging cycles) cleared
        else revisit_project env cleared)
    else revisit_project env (clear_review_state (unregister_review env w))

-- afterReviewSession
unfoldable pub after_review_session : Env → Bool → World → World
unfolding is_stopped after_review_error maybe_transition_merged after_review_status
after_review_session env wait_failed w =
    if is_stopped w
    then w
    else if wait_failed
    then after_review_error env w
    else let reset = record w { review_errors = 0 } in
      elim reset.file [
        | parsed p ↦
            (let done = maybe_transition_merged env p reset in
              if done.handled then done.world else after_review_status env p done.world)
        | _ ↦ reset
      ]
