-- ===== src/Daemon/Protocol/Graph.antt =====
-- The resting states, the graph's dispatch and the review poll are sequences of moves of the protocol.
use workingman.Prelude.{
  ◌≡◌, refl, Bool, false, not, ◌||◌, ◌&&◌, Option, none, some, is_some, ◌∙◌, sym, length, ◌==◌, [],
  if◌then◌else◌, if-cases, ℕ,
}
use workingman.Project.{
  Project, Status, status_eq, watching_pr, all_branches_merged, taskgraph_error,
}
use workingman.Taskgraph.{Graph, Result, ok, err, load, all_committed, ready}
use workingman.Daemon.State.{
  World, Env, save, unregister_review, unregister_cron, clear_review_state,
}
use workingman.Daemon.Blocked.{transition_project_blocked}
use workingman.Daemon.Review.{
  ensure_review_poll, reschedule_review_poll, force_review_now, transition_project_merged,
  maybe_transition_merged, transition_project_idle, transition_project_idle_watching,
  transition_project_complete,
}
use workingman.Daemon.Tasks.{
  Loaded, load_task_graph, defer_to_planner, dispatch_ready_or_pending, dispatch_next_task,
  dispatch_pending_tasks, first_uncommitted_success, first_of_list,
}
use workingman.Daemon.Protocol.{Moves, stay, slots_of}
use workingman.Daemon.Protocol.Quiet.{
  slots_of-save, slots_of-unregister_review, slots_of-unregister_cron, slots_of-clear_review_state,
}
use workingman.Daemon.Protocol.Combine.{
  Moves-trans, Moves-before, Moves-quiet, Moves-if, Moves-if_handled, Moves-option,
  Moves-option_handled, Moves-file,
}
use workingman.Daemon.Protocol.Launch.{
  transition_project_blocked-Moves, launch_commit_agent-Moves, dispatch_ready_task-Moves,
  dispatch_review_agent-Moves,
}

pub slots_of-reschedule :
    (env : Env) (n : ℕ) (w : World) → slots_of (reschedule_review_poll env n w) ≡ slots_of w
unfolding reschedule_review_poll slots_of
slots_of-reschedule env n w =
    if-cases (not env.has_scheduler) (λ x. slots_of x ≡ slots_of w) (λ _. refl) (λ _. refl)

slots_of-clear :
    (env : Env) (b : Bool) (w : World)
    → slots_of (clear_review_state (unregister_review env (if b then w else unregister_cron env w)))
      ≡ slots_of w
slots_of-clear env b w =
    slots_of-clear_review_state _
    ∙ slots_of-unregister_review env _
    ∙ if-cases b (λ x. slots_of x ≡ slots_of w) (λ _. refl) (λ _. slots_of-unregister_cron env w)

slots_of-clear' :
    (env : Env) (b : Bool) (w : World)
    → slots_of (clear_review_state (unregister_review env (if b then unregister_cron env w else w)))
      ≡ slots_of w
slots_of-clear' env b w =
    slots_of-clear_review_state _
    ∙ slots_of-unregister_review env _
    ∙ if-cases b (λ x. slots_of x ≡ slots_of w) (λ _. slots_of-unregister_cron env w) (λ _. refl)

transition_project_merged-Moves :
    (env : Env) (p : Project) (w : World)
    → Moves (slots_of w) (slots_of (transition_project_merged env p w))
unfolding transition_project_merged
transition_project_merged-Moves env p w =
    Moves-before (slots_of-save env (record p { status = Status.merged }) w) (
      Moves-if (not ((save env (record p { status = Status.merged }) w).succeeded)) _ _ (λ _. stay)
        (λ _. Moves-quiet (sym (slots_of-clear' env _ _))))

transition_project_idle-Moves :
    (env : Env) (p : Project) (w : World)
    → Moves (slots_of w) (slots_of (transition_project_idle env p w))
unfolding transition_project_idle
transition_project_idle-Moves env p w =
    Moves-before (slots_of-save env (record p { status = Status.idle }) w) (
      Moves-if (not ((save env (record p { status = Status.idle }) w).succeeded)) _ _ (λ _. stay)
        (λ _. Moves-quiet (sym (slots_of-clear env _ _))))

pub slots_of-backoff : (w : World) → slots_of (record w { review_backoff = 0 }) ≡ slots_of w
unfolding slots_of
slots_of-backoff w = refl

slots_of-armed : (n : Option ℕ) (w : World) → slots_of (record w { review_rung = n }) ≡ slots_of w
unfolding slots_of
slots_of-armed n w = refl

pub ensure_review_poll-Moves :
    (env : Env) (w : World) → Moves (slots_of w) (slots_of (ensure_review_poll env w))
unfolding ensure_review_poll
ensure_review_poll-Moves env w =
    Moves-if (not env.has_scheduler) _ _ (λ _. stay)
      (λ _.
        Moves-if (is_some w.review_rung) _ _ (λ _. stay)
          (λ _.
            Moves-file w.file _ _ (Moves-quiet (sym (slots_of-armed _ w)))
              (λ p _. Moves-before (slots_of-armed _ w) (dispatch_review_agent-Moves env p _))))

pub transition_project_complete-Moves :
    (env : Env) (p : Project) (w : World)
    → Moves (slots_of w) (slots_of (transition_project_complete env p w))
unfolding transition_project_complete transition_project_idle_watching
transition_project_complete-Moves env p w =
    Moves-if (env.has_scheduler && watching_pr p) _ _
      (λ _. Moves-before (slots_of-save env (record p { status = Status.idle }) w) (
        Moves-if (not ((save env (record p { status = Status.idle }) w).succeeded)) _ _ (λ _. stay)
          (λ _. ensure_review_poll-Moves env _)))
      (λ _. transition_project_idle-Moves env p w)

pub force_review_now-Moves :
    (env : Env) (p : Project) (w : World) → Moves (slots_of w) (slots_of (force_review_now env p w))
unfolding force_review_now
force_review_now-Moves env p w =
    let saved = save env (record p { review_now = false }) w in
    Moves-before
      (slots_of-reschedule env 0 _
        ∙ slots_of-backoff (saved.world)
        ∙ slots_of-save env (record p { review_now = false }) w)
      (dispatch_review_agent-Moves env _ _)

pub maybe_transition_merged-Moves :
    (env : Env) (p : Project) (w : World)
    → Moves (slots_of w) (slots_of ((maybe_transition_merged env p w).world))
unfolding maybe_transition_merged
maybe_transition_merged-Moves env p w =
    Moves-if_handled (not (status_eq p.status Status.idle) || length p.pull_requests == 0) _ _
      (λ _. stay)
      (λ _.
        Moves-if_handled (not (all_branches_merged p [])) _ _ (λ _. stay)
          (λ _. Moves-option_handled (env.repos_with_commits p) _ _ stay (λ extra _.
            Moves-if_handled (not (all_branches_merged p extra)) _ _ (λ _. stay)
              (λ _. transition_project_merged-Moves env p w))))

-- loadTaskGraph on what the loading of the graph gave.
loaded-Moves :
    (env : Env) (p : Project) (w : World) (r : Result Graph)
    → Moves (slots_of w) (
        slots_of (
          Loaded.world (elim r [
            | ok g ↦ record { world = w; graph = some g }
            | err e ↦ if defer_to_planner w then record { world = w; graph = none } else record {
              world = transition_project_blocked env p taskgraph_error w;
              graph = none;
            }
          ])))
loaded-Moves env p w (ok g) = stay
loaded-Moves env p w (err e) =
    if-cases (defer_to_planner w) (λ l. Moves (slots_of w) (slots_of (Loaded.world l))) (λ _. stay)
      (λ _. transition_project_blocked-Moves env p _ w)

pub load_task_graph-Moves :
    (env : Env) (p : Project) (w : World)
    → Moves (slots_of w) (slots_of ((load_task_graph env p w).world))
unfolding load_task_graph
load_task_graph-Moves env p w =
    loaded-Moves env p w (load env.digest env.work_stream env.tasks_dir w.tasks)

pub dispatch_ready_or_pending-Moves :
    (env : Env) (p : Project) (g : Graph) (w : World)
    → Moves (slots_of w) (slots_of ((dispatch_ready_or_pending env p g w).world))
unfolding dispatch_ready_or_pending
dispatch_ready_or_pending-Moves env p g w =
    Moves-option_handled (first_uncommitted_success g) _ _
      (Moves-option_handled (first_of_list (ready g)) _ _ stay
        (λ t _. dispatch_ready_task-Moves env p t w))
      (λ t _. launch_commit_agent-Moves env p t w)

pub dispatch_next_task-Moves :
    (env : Env) (p : Project) (w : World)
    → Moves (slots_of w) (slots_of (dispatch_next_task env p w))
unfolding dispatch_next_task
dispatch_next_task-Moves env p w = Moves-trans (load_task_graph-Moves env p w) (
    Moves-option ((load_task_graph env p w).graph) _ _ stay (λ g _.
      Moves-if (all_committed g) _ _
        (λ _.
          Moves-if (defer_to_planner ((load_task_graph env p w).world)) _ _ (λ _. stay)
            (λ _. transition_project_complete-Moves env p _))
        (λ _. dispatch_ready_or_pending-Moves env p g _)))

pub dispatch_pending_tasks-Moves :
    (env : Env) (p : Project) (w : World)
    → Moves (slots_of w) (slots_of ((dispatch_pending_tasks env p w).world))
unfolding dispatch_pending_tasks
dispatch_pending_tasks-Moves env p w = Moves-trans (load_task_graph-Moves env p w) (
    Moves-option_handled ((load_task_graph env p w).graph) _ _ stay (λ g _.
      Moves-if_handled (all_committed g) _ _ (λ _. stay)
        (λ _. dispatch_ready_or_pending-Moves env p g _)))
