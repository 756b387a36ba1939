-- ===== src/Daemon/Blocked.antt =====
-- launchWolfAgent and transitionProjectBlocked (internal/daemon/dispatch_lifecycle.go). The prompt
-- context of the wolf and its announcements are output only and left out.
use workingman.Prelude.{not, [], ◌∷◌, if◌then◌else◌}
use workingman.Project.{Project, Reason, Status}
use workingman.Daemon.State.{
  World, Env, wolf_slot, wolf, has_session, save, start_session, unregister_review,
  clear_review_state,
}

-- launchWolfAgent
unfoldable pub launch_wolf_agent : Env → Project → World → World
unfolding has_session start_session
launch_wolf_agent env p w =
    if not env.has_runner
    then w
    else if has_session wolf_slot w
    then w
    else (start_session env wolf_slot wolf [] p w).world

-- transitionProjectBlocked. The wolf starts whether or not the status could be saved.
unfoldable pub transition_project_blocked : Env → Project → Reason → World → World
unfolding save unregister_review clear_review_state
transition_project_blocked env p why w =
    let updated = record p { status = Status.blocked; blocked_reason = why } in
    let saved = save env updated w in
    let cleared = clear_review_state (unregister_review env saved.world) in
    launch_wolf_agent env updated (record cleared { notices = why ∷ cleared.notices })
