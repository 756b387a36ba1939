-- ===== src/Daemon/Protocol/Ends.antt =====
-- The callbacks of the task and commit agents are sequences of moves of the protocol.
use workingman.Prelude.{
  ◌≡◌, refl, true, not, ◌&&◌, some, is_some, Str, [], leb, is_empty, if◌then◌else◌, if-cases, ◌+◌,
}
use workingman.Task
use workingman.Task.{Task}
use workingman.Taskgraph.{all_committed, ready}
use workingman.Project.{
  Project, Reason, Status, status_eq, watching_pr, task_file_missing, task_load_error,
  task_reported_blocked,
}
use workingman.Daemon.State.{
  World, Env, save_task, load_task_file, TaskFile, task_absent, task_broken, task_found, is_stopped,
}
use workingman.Daemon.Blocked.{transition_project_blocked}
use workingman.Daemon.Tasks.{
  load_task_graph, defer_to_planner, first_uncommitted_success, first_of_list, launch_commit_agent,
}
use workingman.Daemon.Ends.{
  Exit, retain_sandbox, handle_task_failure, after_task_status, after_task_session,
  stamp_completed_at, next_after_commit, after_commit_session, max_task_attempts,
}
use workingman.Daemon.Protocol.{Moves, stay, slots_of}
use workingman.Daemon.Protocol.Quiet.{slots_of-save_task}
use workingman.Daemon.Protocol.Combine.{Moves-trans, Moves-before, Moves-if, Moves-option}
use workingman.Daemon.Protocol.Launch.{
  transition_project_blocked-Moves, launch_commit_agent-Moves, launch_task_agent-Moves,
  dispatch_ready_task-Moves,
}
use workingman.Daemon.Protocol.Graph.{load_task_graph-Moves, transition_project_complete-Moves}

slots_of-retain_sandbox :
    (env : Env) (path : Str) (t : Task) (w : World)
    → slots_of (retain_sandbox env path t w) ≡ slots_of w
unfolding retain_sandbox
slots_of-retain_sandbox env path t w =
    if-cases (t.save_sandbox) (λ x. slots_of x ≡ slots_of w) (λ _. refl)
      (λ _. slots_of-save_task env path (record t { save_sandbox = true }) w)

handle_task_failure-Moves :
    (env : Env) (path : Str) (p : Project) (t : Task) (w : World)
    → Moves (slots_of w) (slots_of (handle_task_failure env path p t w))
unfolding handle_task_failure
handle_task_failure-Moves env path p t w =
    let updated = record t {
      attempts = t.attempts + 1;
      status = Task.ready;
      failure_reason = [];
    } in
    Moves-if (leb max_task_attempts t.attempts) _ _
      (λ _.
        Moves-before (slots_of-retain_sandbox env path t w)
          (transition_project_blocked-Moves env p _ _))
      (λ _. Moves-before (slots_of-save_task env path updated w) (
        Moves-if (not ((save_task env path updated w).succeeded)) _ _
          (λ _. transition_project_blocked-Moves env p _ _)
          (λ _. launch_task_agent-Moves env p updated _)))

after_task_status-Moves :
    (env : Env) (path : Str) (p : Project) (t : Task) (w : World)
    → Moves (slots_of w) (slots_of (after_task_status env path p t w))
unfolding after_task_status
after_task_status-Moves env path p t w = by_status t.status
  where
    by_status :
        (s : Task.Status)
        → Moves (slots_of w) (
            slots_of (elim s [
              | Task.success ↦ launch_commit_agent env p t w
              | Task.failed ↦ handle_task_failure env path p t w
              | Task.running ↦ handle_task_failure env path p t w
              | Task.ready ↦ handle_task_failure env path p t w
              | Task.blocked ↦
                  transition_project_blocked env p
                    (task_reported_blocked t.name t.blocked_reason)
                    (retain_sandbox env path t w)
              | Task.committed ↦
                  transition_project_blocked env p
                    (workingman.Project.task_committed_itself t.name)
                    w
            ]))
    by_status Task.success = launch_commit_agent-Moves env p t w
    by_status Task.failed = handle_task_failure-Moves env path p t w
    by_status Task.running = handle_task_failure-Moves env path p t w
    by_status Task.ready = handle_task_failure-Moves env path p t w
    by_status Task.blocked =
        Moves-before (slots_of-retain_sandbox env path t w)
          (transition_project_blocked-Moves env p _ _)
    by_status Task.committed = transition_project_blocked-Moves env p _ w

pub after_task_session-Moves :
    (env : Env) (path : Str) (p : Project) (w : World)
    → Moves (slots_of w) (slots_of (after_task_session env path p w))
unfolding after_task_session
after_task_session-Moves env path p w =
    Moves-if (is_stopped w) _ _ (λ _. stay) (λ _. by_file (load_task_file w.tasks path))
  where
    by_file :
        (f : TaskFile)
        → Moves (slots_of w) (
            slots_of (elim f [
              | task_absent ↦ transition_project_blocked env p (task_file_missing path) w
              | task_broken ↦ transition_project_blocked env p (task_load_error path) w
              | task_found t ↦ after_task_status env path p t w
            ]))
    by_file task_absent = transition_project_blocked-Moves env p _ w
    by_file task_broken = transition_project_blocked-Moves env p _ w
    by_file (task_found t) = after_task_status-Moves env path p t w

next_after_commit-Moves :
    (env : Env) (p : Project) (w : World)
    → Moves (slots_of w) (slots_of (next_after_commit env p w))
unfolding next_after_commit
next_after_commit-Moves env p w = Moves-trans (load_task_graph-Moves env p w) (
    Moves-option ((load_task_graph env p w).graph) _ _ stay (λ g _.
      Moves-if (all_committed g) _ _
        (λ _.
          Moves-if (defer_to_planner ((load_task_graph env p w).world)) _ _ (λ _. stay)
            (λ _. transition_project_complete-Moves env p _))
        (λ _.
          Moves-option (first_uncommitted_success g) _ _
            (Moves-option (first_of_list (ready g)) _ _
              (Moves-if (defer_to_planner ((load_task_graph env p w).world)) _ _ (λ _. stay)
                (λ _. transition_project_blocked-Moves env p _ _))
              (λ t _. dispatch_ready_task-Moves env p t _))
            (λ t _. launch_commit_agent-Moves env p t _))))

slots_of-stamp_completed_at :
    (env : Env) (path : Str) (t : Task) (w : World)
    → slots_of (stamp_completed_at env path t w) ≡ slots_of w
unfolding stamp_completed_at
slots_of-stamp_completed_at env path t w =
    if-cases (is_some t.completed_at) (λ x. slots_of x ≡ slots_of w) (λ _. refl)
      (λ _. slots_of-save_task env path (record t { completed_at = some (env.now) }) w)

pub after_commit_session-Moves :
    (env : Env) (exit : Exit) (path : Str) (p : Project) (w : World)
    → Moves (slots_of w) (slots_of (after_commit_session env exit path p w))
unfolding after_commit_session
after_commit_session-Moves env exit path p w =
    Moves-if (is_stopped w) _ _ (λ _. stay) (λ _. by_file (load_task_file w.tasks path))
  where
    by_file :
        (f : TaskFile)
        → Moves (slots_of w) (
            slots_of (elim f [
              | task_found t ↦
                  if not (Task.status_eq t.status Task.committed)
                  then transition_project_blocked env p
                      (if exit.wait_failed && not (is_empty exit.start_failure)
                        then workingman.Project.commit_could_not_start (t.name)
                        else workingman.Project.commit_not_committed (t.name))
                      w
                  else next_after_commit env p (stamp_completed_at env path t w)
              | _ ↦ transition_project_blocked env p (workingman.Project.commit_load_error path) w
            ]))
    by_file task_absent = transition_project_blocked-Moves env p _ w
    by_file task_broken = transition_project_blocked-Moves env p _ w
    by_file (task_found t) =
        Moves-if (not (Task.status_eq t.status Task.committed)) _ _
          (λ _. transition_project_blocked-Moves env p _ w)
          (λ _.
            Moves-before (slots_of-stamp_completed_at env path t w)
              (next_after_commit-Moves env p _))
