-- ===== src/Daemon/Review.antt =====
-- The pull-request poll and the resting states (internal/daemon/review.go and transitionProjectIdle
-- of internal/daemon/dispatch_lifecycle.go). The fingerprint of the pull requests (`gh`) and the
-- repositories with commits (`git`) are answers of the environment.
use workingman.Prelude.{
  ℕ, ◌+◌, Bool, true, false, ◌&&◌, ◌||◌, not, [], Str, str_eq, length, leb, ◌==◌, is_empty,
  if◌then◌else◌, Option, none, some, is_some,
}
use workingman.Project.{Project, Status, status_eq, watching_pr, all_branches_merged, cron_expired}
use workingman.Daemon.State.{
  World, Env, main, review, has_session, save, start_session, absent, broken, parsed,
  unregister_review, unregister_cron, clear_review_state,
}

-- reviewPollSpecs has four rungs; a spec is its index.
abbrev pub last_rung : ℕ
last_rung = 3

-- launchReviewAgent
unfoldable pub launch_review_agent : Env → Project → World → World
unfolding start_session
launch_review_agent env p w =
    if not env.has_runner then w else (start_session env main review [] p w).world

-- dispatchReviewAgent
unfoldable pub dispatch_review_agent : Env → Project → World → World
unfolding has_session
dispatch_review_agent env p w =
    if has_session main w || w.planning_busy then w else launch_review_agent env p w

-- rescheduleReviewPoll
unfoldable pub reschedule_review_poll : Env → ℕ → World → World
reschedule_review_poll env rung w =
    if not env.has_scheduler then w else record w { review_rung = some rung }

-- ensureReviewPoll. The specs of the ladder are valid, so Register does not fail.
unfoldable pub ensure_review_poll : Env → World → World
unfolding dispatch_review_agent
ensure_review_poll env w =
    if not env.has_scheduler
    then w
    else if is_some w.review_rung
    then w
    else let armed = record w { review_rung = some 0 } in
      elim w.file [ absent ↦ armed | broken ↦ armed | parsed p ↦ dispatch_review_agent env p armed ]

-- growReviewBackoff
unfoldable pub grow_review_backoff : World → World
grow_review_backoff w = record w {
  review_backoff = if leb last_rung (w.review_backoff) then last_rung else w.review_backoff + 1;
}

abbrev pub same_finger : Option Str → Option Str → Bool
same_finger (some a) (some b) = str_eq a b
same_finger _ _ = false

-- onReviewPoll
unfoldable pub on_review_poll : Env → World → World
unfolding grow_review_backoff reschedule_review_poll
on_review_poll env w = if not env.has_scheduler then w else elim w.file [
  | absent ↦ unregister_review env w
  | broken ↦ unregister_review env w
  | parsed p ↦
      if not (status_eq p.status Status.idle) || not (watching_pr p)
      then unregister_review env w
      else if has_session main w || w.planning_busy
      then w
      else if same_finger (env.fingerprint p) w.review_finger
      then (let grown = grow_review_backoff w in
          reschedule_review_poll env grown.review_backoff grown)
      else dispatch_review_agent env p
          (reschedule_review_poll env 0 (record w { review_backoff = 0 }))
]

-- forceReviewNow. The agent gets the cleared project, or the old one if the clear was not saved.
unfoldable pub force_review_now : Env → Project → World → World
unfolding save reschedule_review_poll
force_review_now env p w =
    let cleared = record p { review_now = false } in
    let saved = save env cleared w in
    dispatch_review_agent env (if saved.succeeded then cleared else p)
      (reschedule_review_poll env 0 (record (saved.world) { review_backoff = 0 }))

-- transitionProjectMerged
unfoldable pub transition_project_merged : Env → Project → World → World
unfolding save unregister_cron unregister_review clear_review_state
transition_project_merged env p w =
    let updated = record p { status = Status.merged } in
    let saved = save env updated w in
    if not saved.succeeded
    then saved.world
    else clear_review_state (
        unregister_review env (
          if is_empty updated.cron || cron_expired env.now updated
          then unregister_cron env saved.world
          else saved.world))

pub record Handled : Type 0 where
  pub world : World
  pub handled : Bool

-- maybeTransitionMerged
unfoldable pub maybe_transition_merged : Env → Project → World → Handled
unfolding transition_project_merged
maybe_transition_merged env p w =
    let no : Handled = record { world = w; handled = false } in
    if not (status_eq p.status Status.idle) || length p.pull_requests == 0
    then no
    else if not (all_branches_merged p [])
    then no
    else elim (env.repos_with_commits p) [
      | none ↦ no
      | some extra ↦
          if not (all_branches_merged p extra)
          then no
          else record { world = transition_project_merged env p w; handled = true }
    ]

-- transitionProjectIdle
unfoldable pub transition_project_idle : Env → Project → World → World
unfolding save unregister_cron unregister_review clear_review_state
transition_project_idle env p w =
    let updated = record p { status = Status.idle } in
    let saved = save env updated w in
    if not saved.succeeded
    then saved.world
    else clear_review_state (
        unregister_review env (
          if not (is_empty updated.cron) && not (cron_expired env.now updated)
          then saved.world
          else unregister_cron env saved.world))

-- transitionProjectIdleWatching
unfoldable pub transition_project_idle_watching : Env → Project → World → World
unfolding save ensure_review_poll
transition_project_idle_watching env p w =
    let saved = save env (record p { status = Status.idle }) w in
    if not saved.succeeded then saved.world else ensure_review_poll env saved.world

-- transitionProjectComplete
unfoldable pub transition_project_complete : Env → Project → World → World
unfolding transition_project_idle transition_project_idle_watching
transition_project_complete env p w =
    if env.has_scheduler && watching_pr p
    then transition_project_idle_watching env p w
    else transition_project_idle env p w
