-- ===== src/Daemon/Liveness.antt =====
-- dispatchNextTask does not strand a project whose graph still has open tasks (internal/daemon,
-- on the graphs of internal/taskgraph).
use workingman.Prelude.{
  suc, ◌≡◌, ◌<◌, refl, sym, ◌∙◌, ap, subst, Bool, true, false, not, Option, none, some, is_some,
  List, [], ◌∷◌, inl, inr, length, Str, true≢false, false≢true, if◌then◌else◌, if-cases, Bool-cases,
  all, all_at, arith,
}
use mathlib.Core.List.{Memᴰ}
use mathlib.Core.Option.{some-injective}
use workingman.Task
use workingman.Task.{Task, is_push_task}
use workingman.Project.{Project, Reason}
use workingman.Taskgraph.{Graph, Result, ok, err, load, all_committed, ready, sorted_tasks}
use workingman.Taskgraph.Progress.{load-IsNext, IsNext, IsReady, ready-mem}
use workingman.Daemon.State.{
  World, Env, Kind, Session, Started, session, main, start_session, started, failed, has_session,
  session_at, set_session,
}
use workingman.Daemon.Review.{Handled}
use workingman.Daemon.Tasks.{
  Loaded, load_task_graph, launch_in_main, launch_task_agent, launch_commit_agent,
  dispatch_ready_task, first_success, first_uncommitted_success, first_of_list,
  dispatch_ready_or_pending, dispatch_next_task, defer_to_planner,
}

if-false {ℓ} : {A : Type ℓ} (b : Bool) (x y : A) → b ≡ false → (if b then x else y) ≡ y
if-false b x y e = ap (λ c. if c then x else y) e

-- The main slot is free, there is a runner and the next start succeeds.
pub record CanStart (env : Env) (w : World) : Type 0 where
  pub runner : env.has_runner ≡ true
  pub free : w.main_session ≡ none
  pub starts : env.start_succeeds w.draws ≡ true

-- No task of the graph waits for its commit.
abbrev NoneSucceeded : Graph → Type 0
NoneSucceeded g =
    (u : Task) → Memᴰ u (sorted_tasks g) → Task.status_eq u.status Task.success ≡ false

-- The main slot is held by the agent that a task of the graph asks for: the commit agent for a task
-- that succeeded; and where no task did, for a ready task with committed dependencies, the commit
-- agent if the task is the push task and else the task agent.
pub data Holds (p : Project) (g : Graph) : Option Session → Type 0 where
  commits :
      (t : Task)
      → Memᴰ t (sorted_tasks g)
      → t.status ≡ Task.success
      → Holds p g (some (session Kind.commit t.path p))
  pushes :
      (t : Task)
      → IsReady g t
      → NoneSucceeded g
      → is_push_task t ≡ true
      → Holds p g (some (session Kind.commit t.path p))
  runs :
      (t : Task)
      → IsReady g t
      → NoneSucceeded g
      → is_push_task t ≡ false
      → Holds p g (some (session Kind.task t.path p))

start_main :
    (env : Env) (k : Kind) (path : Str) (p : Project) (w : World)
    → CanStart env w
    → start_session env main k path p w ≡ record {
      world = record w {
        main_session = some (session k path p);
        draws = suc (w.draws);
        launches = (k, path) ∷ w.launches;
      };
      outcome = started;
    }
unfolding start_session has_session session_at set_session
start_main env k path p w can =
    if-false _ _ _ (ap not can.starts) ∙ if-false _ _ _ (ap (λ o. is_some o) can.free)

launch_in_main-holds :
    (env : Env) (k : Kind) (why : Reason) (p : Project) (t : Task) (w : World)
    → CanStart env w
    → (launch_in_main env k why p t w).main_session ≡ some (session k t.path p)
unfolding launch_in_main has_session session_at
launch_in_main-holds env k why p t w can =
    ap (λ (x : World). x.main_session)
      (if-false _ _ _ (ap not can.runner) ∙ if-false _ _ _ (ap (λ o. is_some o) can.free))
    ∙ ap
        (λ (r : Started). World.main_session (elim r.outcome [
          | failed ↦ workingman.Daemon.Blocked.transition_project_blocked env p why r.world
          | _ ↦ r.world
        ]))
        (start_main env k t.path p w can)

dispatch_ready_task-Holds :
    (env : Env) (p : Project) (g : Graph) (t : Task) (w : World)
    → CanStart env w
    → IsReady g t
    → NoneSucceeded g
    → Holds p g ((dispatch_ready_task env p t w).main_session)
unfolding dispatch_ready_task launch_commit_agent launch_task_agent
dispatch_ready_task-Holds env p g t w can is_ready none_succeeded =
    if-cases (is_push_task t) (λ (x : World). Holds p g x.main_session)
      (λ push.
        subst (Holds p g) (sym (launch_in_main-holds env Kind.commit _ p t w can))
          (pushes t is_ready none_succeeded push))
      (λ plain.
        subst (Holds p g) (sym (launch_in_main-holds env Kind.task _ p t w can))
          (runs t is_ready none_succeeded plain))

-- What the two picks of the dispatch find.
first_success-mem :
    (ts : List Task) (t : Task)
    → first_success ts ≡ some t
    → Memᴰ t ts × (Task.status_eq t.status Task.success ≡ true)
unfolding first_success
first_success-mem [] t e = absurd (false≢true (ap (λ o. is_some o) e))
first_success-mem (x ∷ xs) t e = elim (Bool-cases (Task.status_eq x.status Task.success)) [
  | inl f ↦
      let same = some-injective t x (sym e ∙ if-true f) in
      (
        Memᴰ.head same,
        subst (λ (y : Task). Task.status_eq y.status Task.success ≡ true) (sym same) f,
      )
  | inr f ↦ let (m, h) = first_success-mem xs t (sym (if-false _ _ _ f) ∙ e) in (Memᴰ.tail m, h)
]
  where
    if-true :
        Task.status_eq x.status Task.success ≡ true
        → (if Task.status_eq x.status Task.success then some x else first_success xs) ≡ some x
    if-true f = ap (λ c. if c then some x else first_success xs) f

first_success-none :
    (ts : List Task)
    → first_success ts ≡ none
    → (t : Task) → Memᴰ t ts
    → Task.status_eq t.status Task.success ≡ false
unfolding first_success
first_success-none [] e t m = elim m [ ]
first_success-none (x ∷ xs) e t m = elim (Bool-cases (Task.status_eq x.status Task.success)) [
  | inl f ↦ absurd (
      true≢false
        (ap (λ o. is_some o) (sym (ap (λ c. if c then some x else first_success xs) f) ∙ e)))
  | inr f ↦ elim m [
    | Memᴰ.head q ↦ subst (λ y. Task.status_eq (Task.Task.status y) Task.success ≡ false) (sym q) f
    | Memᴰ.tail n ↦ first_success-none xs (sym (if-false _ _ _ f) ∙ e) t n
  ]
]

first_of_list-some :
    (ts : List Task) (t : Task) → Memᴰ t ts → (x : Task) × Memᴰ x ts × (first_of_list ts ≡ some x)
first_of_list-some [] t m = elim m [ ]
first_of_list-some (x ∷ xs) t m = (x, Memᴰ.head refl, refl)

-- A task whose status waits for the daemon: it can be run or its result committed, or it is done.
unfoldable pub is_resumable : Task → Bool
is_resumable t = elim t.status [
  | Task.ready ↦ true
  | Task.success ↦ true
  | Task.committed ↦ true
  | _ ↦ false
]

resumable-ready :
    (t : Task)
    → is_resumable t ≡ true
    → Task.status_eq t.status Task.committed ≡ false
    → Task.status_eq t.status Task.success ≡ false
    → t.status ≡ Task.ready
unfolding is_resumable Task.status_eq
resumable-ready t r c s = by_status t.status r c s
  where
    by_status :
        (x : Task.Status)
        → elim x [ Task.ready ↦ true | Task.success ↦ true | Task.committed ↦ true | _ ↦ false ]
          ≡ true
        → Task.status_eq x Task.committed ≡ false
        → Task.status_eq x Task.success ≡ false
        → x ≡ Task.ready
    by_status Task.ready _ _ _ = refl
    by_status Task.success _ _ f = absurd (true≢false f)
    by_status Task.committed _ f _ = absurd (true≢false f)
    by_status Task.running f _ _ = absurd (false≢true f)
    by_status Task.failed f _ _ = absurd (false≢true f)
    by_status Task.blocked f _ _ = absurd (false≢true f)

is_success : (x : Task.Status) → Task.status_eq x Task.success ≡ true → x ≡ Task.success
unfolding Task.status_eq
is_success x h = ground arith

-- The picks on a graph that has an open task.
dispatch_ready_or_pending-Holds :
    (env : Env) (p : Project) (g : Graph) (w : World)
    → CanStart env w
    → all is_resumable (sorted_tasks g) ≡ true
    → (n : Task) → IsNext g n
    → (n.status ≡ Task.ready → Memᴰ n (ready g))
    → Holds p g ((dispatch_ready_or_pending env p g w).world.main_session)
unfolding dispatch_ready_or_pending first_uncommitted_success launch_commit_agent
dispatch_ready_or_pending-Holds env p g w can all_resumable n next offered =
    by_pending (first_success (sorted_tasks g)) refl
  where
    by_ready :
        (o : Option Task)
        → first_of_list (ready g) ≡ o
        → (x : Task) → Memᴰ x (ready g)
        → o ≡ some x
        → NoneSucceeded g
        → Holds p g (
            World.main_session (
              Handled.world (elim o [
                | none ↦ record { world = w; handled = false }
                | some t ↦ record { world = dispatch_ready_task env p t w; handled = true }
              ])))
    by_ready none e x m f none_succeeded = absurd (false≢true (ap (λ o. is_some o) f))
    by_ready (some t) e x m f none_succeeded =
        dispatch_ready_task-Holds env p g t w can
          ((ready-mem g t).0 (subst (λ y. Memᴰ y (ready g)) (sym (some-injective t x f)) m))
          none_succeeded

    by_pending :
        (o : Option Task)
        → first_success (sorted_tasks g) ≡ o
        → Holds p g (
            World.main_session (
              Handled.world (elim o [
                | some t ↦ record { world = launch_commit_agent env p t w; handled = true }
                | none ↦ elim (first_of_list (ready g)) [
                  | none ↦ record { world = w; handled = false }
                  | some t ↦ record { world = dispatch_ready_task env p t w; handled = true }
                ]
              ])))
    by_pending (some t) e =
        let (m, h) = first_success-mem (sorted_tasks g) t e in
        subst (Holds p g) (sym (launch_in_main-holds env Kind.commit _ p t w can))
          (commits t m (is_success t.status h))
    by_pending none e =
        let none_succeeded = first_success-none (sorted_tasks g) e in
        let is_ready =
          resumable-ready n (all_at is_resumable (sorted_tasks g) all_resumable next.listed)
            next.open_task (none_succeeded n next.listed) in
        let (x, m, f) = first_of_list-some (ready g) n (offered is_ready) in
        by_ready (first_of_list (ready g)) refl x m f none_succeeded

load_task_graph-ok :
    (env : Env) (p : Project) (g : Graph) (w : World)
    → load env.digest env.work_stream env.tasks_dir w.tasks ≡ ok g
    → load_task_graph env p w ≡ record { world = w; graph = some g }
unfolding load_task_graph
load_task_graph-ok env p g w e =
    ap
      (λ (r : Result Graph). (elim r [
        | ok h ↦ record { world = w; graph = some h }
        | err _ ↦ if defer_to_planner w then record { world = w; graph = none } else record {
          world =
              workingman.Daemon.Blocked.transition_project_blocked env p
                workingman.Project.taskgraph_error w;
          graph = none;
        }
      ]))
      e

-- Where the tasks directory loads as a graph with some task, not all of it committed and none of
-- it running, failed or blocked, dispatchNextTask leaves the main slot held by the agent that is due,
-- provided that the slot was free, there is a runner and the start succeeds: the commit agent for a
-- task that succeeded, or, where no task did, for a ready task whose dependencies are all committed,
-- the commit agent if this is the push task and the task agent if it is not.
pub dispatch_next_task-Holds :
    (env : Env) (p : Project) (g : Graph) (w : World)
    → load env.digest env.work_stream env.tasks_dir w.tasks ≡ ok g
    → 0 < length g.tasks
    → all_committed g ≡ false
    → all is_resumable (sorted_tasks g) ≡ true
    → CanStart env w
    → Holds p g ((dispatch_next_task env p w).main_session)
unfolding dispatch_next_task
dispatch_next_task-Holds env p g w loaded some_task open_graph all_resumable can =
    let (n, next, offered) =
      load-IsNext env.digest env.work_stream env.tasks_dir w.tasks g loaded some_task open_graph in
    subst
      (λ (l : Loaded). Holds p g (
        World.main_session (elim l.graph [
          | none ↦ l.world
          | some h ↦
              if all_committed h
              then (if defer_to_planner l.world
                  then l.world
                  else workingman.Daemon.Review.transition_project_complete env p l.world)
              else (dispatch_ready_or_pending env p h l.world).world
        ])))
      (sym (load_task_graph-ok env p g w loaded))
      (if-cases (all_committed g) (λ (x : World). Holds p g x.main_session)
        (λ e. absurd (true≢false (sym e ∙ open_graph)))
        (λ _. dispatch_ready_or_pending-Holds env p g w can all_resumable n next offered))
