-- ===== src/Daemon/Attempts.antt =====
-- The attempts of a failed task (internal/daemon/dispatch_lifecycle.go).
use workingman.Prelude.{
  ℕ, ◌+◌, ◌<◌, ◌≡◌, refl, sym, ap, ◌∙◌, true, false, not, none, is_some, List, [], ◌∷◌, Str,
  str_eq_refl, leb, arith, if-cases, not-false, if◌then◌else◌, Bool-cases, inl, inr, false≢true,
}
use workingman.Task
use workingman.Task.{Task}
use workingman.Project.{Project, Reason, Status}
use workingman.Taskgraph.{Entry, entries}
use workingman.Daemon.State.{
  World, Env, TaskFile, Started, Start, task_found, find_entry, load_task_file, write_entry,
  write_dir, save_task, save, save_as, start_session, set_session, session_at, has_session,
  unregister_review, clear_review_state, wolf_slot, main, failed,
}
use workingman.Daemon.Blocked.{transition_project_blocked, launch_wolf_agent}
use workingman.Daemon.Tasks.{launch_task_agent, launch_in_main}
use workingman.Daemon.Protocol.Launch.{start-cases}
use workingman.Daemon.Ends.{handle_task_failure, retain_sandbox, max_task_attempts}

main-launch_wolf_agent :
    (env : Env) (p : Project) (w : World)
    → (launch_wolf_agent env p w).main_session ≡ w.main_session
unfolding launch_wolf_agent start_session set_session
main-launch_wolf_agent env p w = ground arith

main-unregister_review :
    (env : Env) (w : World) → (unregister_review env w).main_session ≡ w.main_session
unfolding unregister_review
main-unregister_review env w = ground arith

main-save :
    (env : Env) (p : Project) (w : World) → ((save env p w).world).main_session ≡ w.main_session
unfolding save save_as
main-save env p w = ground arith

main-transition_project_blocked :
    (env : Env) (p : Project) (why : Reason) (w : World)
    → (transition_project_blocked env p why w).main_session ≡ w.main_session
unfolding transition_project_blocked clear_review_state
main-transition_project_blocked env p why w =
    let updated = record p { status = Status.blocked; blocked_reason = why } in
    main-launch_wolf_agent env updated _ ∙ main-unregister_review env _ ∙ main-save env updated w

main-save_task :
    (env : Env) (path : Str) (t : Task) (w : World)
    → ((save_task env path t w).world).main_session ≡ w.main_session
unfolding save_task
main-save_task env path t w = ground arith

main-retain_sandbox :
    (env : Env) (path : Str) (t : Task) (w : World)
    → (retain_sandbox env path t w).main_session ≡ w.main_session
unfolding retain_sandbox
main-retain_sandbox env path t w = elim (Bool-cases t.save_sandbox) [
  | inl e ↦
      ap (λ (x : World). x.main_session)
        (ap (λ b. if b then w else (save_task env path (record t { save_sandbox = true }) w).world)
          e)
  | inr e ↦
      ap (λ (x : World). x.main_session)
        (ap (λ b. if b then w else (save_task env path (record t { save_sandbox = true }) w).world)
          e)
      ∙ main-save_task env path (record t { save_sandbox = true }) w
]

tasks-launch_wolf_agent :
    (env : Env) (p : Project) (w : World) → (launch_wolf_agent env p w).tasks ≡ w.tasks
unfolding launch_wolf_agent start_session set_session
tasks-launch_wolf_agent env p w = ground arith

tasks-unregister_review : (env : Env) (w : World) → (unregister_review env w).tasks ≡ w.tasks
unfolding unregister_review
tasks-unregister_review env w = ground arith

tasks-save : (env : Env) (p : Project) (w : World) → ((save env p w).world).tasks ≡ w.tasks
unfolding save save_as
tasks-save env p w = ground arith

tasks-transition_project_blocked :
    (env : Env) (p : Project) (why : Reason) (w : World)
    → (transition_project_blocked env p why w).tasks ≡ w.tasks
unfolding transition_project_blocked clear_review_state
tasks-transition_project_blocked env p why w =
    let updated = record p { status = Status.blocked; blocked_reason = why } in
    tasks-launch_wolf_agent env updated _ ∙ tasks-unregister_review env _ ∙ tasks-save env updated w

tasks-launch_in_main :
    (env : Env) (p : Project) (k : workingman.Daemon.State.Kind) (why : Reason) (t : Task)
    (w : World)
    → (launch_in_main env k why p t w).tasks ≡ w.tasks
unfolding launch_in_main set_session
tasks-launch_in_main env p k why t w =
    if-cases (not env.has_runner) (λ (x : World). x.tasks ≡ w.tasks) (λ _. refl)
      (λ _.
        if-cases (has_session main w) (λ (x : World). x.tasks ≡ w.tasks) (λ _. refl)
          (λ _.
            start-cases env main k t.path p w
              (λ start.
                World.tasks (elim start.outcome [
                  | failed ↦ transition_project_blocked env p why start.world
                  | _ ↦ start.world
                ])
                ≡ w.tasks)
              (tasks-transition_project_blocked env p why _) (λ _. refl) (λ _. refl)))

find-write_entry :
    (es : List Entry) (path : Str) (t : Task)
    → find_entry (write_entry es path t) path ≡ task_found t
unfolding find_entry write_entry
find-write_entry [] path t = ground (arith, str_eq_refl path)
find-write_entry (e ∷ es) path t = ground (arith, find-write_entry es path t)

-- A save of a task that succeeds is what is read back.
load-save_task :
    (env : Env) (path : Str) (t : Task) (es : List Entry) (w : World)
    → w.tasks ≡ entries es
    → (save_task env path t w).succeeded ≡ true
    → load_task_file (((save_task env path t w).world).tasks) path ≡ task_found t
unfolding save_task load_task_file write_dir
load-save_task env path t es w d =
    if-cases (not (workingman.Task.savable t))
      (λ (r : workingman.Daemon.State.Saved).
        r.succeeded ≡ true → load_task_file r.world.tasks path ≡ task_found t)
      (λ _ e. absurd (false≢true e))
      (λ _.
        if-cases (env.save_succeeds w.draws)
          (λ (r : workingman.Daemon.State.Saved).
            r.succeeded ≡ true → load_task_file r.world.tasks path ≡ task_found t)
          (λ _ _. ap (λ x. load_task_file (write_dir x path t) path) d ∙ find-write_entry es path t)
          (λ _ e. absurd (false≢true e)))

-- A failed task is started again only within its budget and after the attempt was recorded: where
-- the main slot is free and handleTaskFailure leaves a session in it, the task had fewer than three
-- attempts, and the task file holds the task as ready, with one attempt more and no failure reason.
pub handle_task_failure-recorded :
    (env : Env) (path : Str) (p : Project) (t : Task) (es : List Entry) (w : World)
    → w.tasks ≡ entries es
    → w.main_session ≡ none
    → is_some ((handle_task_failure env path p t w).main_session) ≡ true
    → (t.attempts < max_task_attempts)
      × (load_task_file ((handle_task_failure env path p t w).tasks) path
          ≡ task_found
              (record t { attempts = t.attempts + 1; status = Task.ready; failure_reason = [] }))
unfolding handle_task_failure launch_task_agent
handle_task_failure-recorded env path p t es w d free =
    let updated = record t {
      attempts = t.attempts + 1;
      status = Task.ready;
      failure_reason = [];
    } in
    let Goal : World → Type 0 = λ x.
      is_some x.main_session ≡ true
      → (t.attempts < max_task_attempts) × (load_task_file x.tasks path ≡ task_found updated) in
    if-cases (leb max_task_attempts t.attempts) Goal
      (λ _ held. absurd (
        false≢true (
          ap (λ o. is_some o)
            (sym
              (main-transition_project_blocked env p _ _ ∙ main-retain_sandbox env path t w ∙ free))
          ∙ held)))
      (λ few.
        if-cases (not ((save_task env path updated w).succeeded)) Goal
          (λ _ held. absurd (
            false≢true (
              ap (λ o. is_some o)
                (sym (
                  main-transition_project_blocked env p _ _
                  ∙ main-save_task env path updated w
                  ∙ free))
              ∙ held)))
          (λ saved _. (
            below t.attempts few,
            ap (λ x. load_task_file x path) (tasks-launch_in_main env p _ _ updated _)
                ∙ load-save_task env path updated es w d (not-false _ saved),
          )))
  where
    below : (n : ℕ) → leb max_task_attempts n ≡ false → n < max_task_attempts
    below n e = ground arith
