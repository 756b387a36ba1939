-- ===== src/Daemon/Stop/Ends.antt =====
-- The end of a session of a stopped project launches nothing (internal/daemon/stop.go and the
-- callbacks).
use workingman.Prelude.{
  ◌≡◌, refl, ◌∙◌, ap, Bool, true, false, not, Option, none, some, if-cases, if◌then◌else◌, arith,
}
use workingman.Project.{Project, Status, status_eq, stopped, unpopulated}
use workingman.Daemon.State.{
  World, Env, Kind, Session, Slot, ProjectFile, absent, broken, parsed, set_session, session_at,
  save, save_as, unregister_cron, unregister_review, clear_review_state, is_stopped, main, planner,
  wolf_slot, archive_slot,
}
use workingman.Daemon.Dispatch.{enforce_stopped, end_planning, end_cleanup, Current}
use workingman.Daemon.Route.{dispatch_project, revisit_project, clear_replan}
use workingman.Daemon.Ends.{
  Exit, after_planning_session, after_project_session, after_task_session, after_commit_session,
  after_archive_session, reset_planning_failures, reset_project_failures,
}
use workingman.Daemon.ReviewEnd.{after_review_session}
use workingman.Daemon.Events.{end_session, on_end}

-- What a case on the project file gives for a file that parses.
pub file-parsed {ℓ} :
    {A : Type ℓ} (file : ProjectFile) (p : Project) (f : Project → A) (x : A)
    → file ≡ parsed p
    → elim file [ parsed q ↦ f q | _ ↦ x ] ≡ f p
file-parsed file p f x e = ap (λ g. elim g [ parsed q ↦ f q | _ ↦ x ]) e

pub if-true {ℓ} : {A : Type ℓ} (b : Bool) (x y : A) → b ≡ true → (if b then x else y) ≡ x
if-true b x y e = ap (λ c. if c then x else y) e

pub is_stopped-parsed :
    (p : Project) (w : World) → w.file ≡ parsed p → p.status ≡ stopped → is_stopped w ≡ true
unfolding is_stopped status_eq
is_stopped-parsed p w f s =
    file-parsed w.file p (λ q. status_eq q.status stopped) false f ∙ ap (λ x. status_eq x stopped) s

pub launches-unregister :
    (env : Env) (w : World)
    → (clear_review_state (unregister_review env (unregister_cron env w))).launches ≡ w.launches
unfolding clear_review_state unregister_review unregister_cron
launches-unregister env w = ground arith

pub launches-dispatch_project :
    (env : Env) (p : Project) (w : World)
    → p.status ≡ stopped
    → (dispatch_project env p w).launches ≡ w.launches
unfolding dispatch_project enforce_stopped status_eq
launches-dispatch_project env p w s =
    ap (λ (x : World). x.launches)
      (if-true (status_eq p.status stopped) _ _ (ap (λ x. status_eq x stopped) s))
    ∙ launches-unregister env _

pub launches-revisit_project :
    (env : Env) (p : Project) (w : World)
    → w.file ≡ parsed p
    → p.status ≡ stopped
    → (revisit_project env w).launches ≡ w.launches
unfolding revisit_project
launches-revisit_project env p w f s =
    ap (λ (x : World). x.launches) (file-parsed w.file p _ _ f)
    ∙ launches-dispatch_project env p w s

pub launches-save :
    (env : Env) (p : Project) (w : World) → ((save env p w).world).launches ≡ w.launches
unfolding save save_as
launches-save env p w = ground arith

pub status-clear_replan :
    (env : Env) (p : Project) (w : World) → ((clear_replan env p w).project).status ≡ p.status
unfolding clear_replan
status-clear_replan env p w =
    if-cases (not p.replan) (λ (c : Current). c.project.status ≡ p.status) (λ _. refl)
      (λ _.
        if-cases ((save env (record p { replan = false }) w).succeeded)
          (λ (q : Project). q.status ≡ p.status) (λ _. refl) (λ _. refl))

pub launches-clear_replan :
    (env : Env) (p : Project) (w : World) → ((clear_replan env p w).world).launches ≡ w.launches
unfolding clear_replan
launches-clear_replan env p w =
    if-cases (not p.replan) (λ (c : Current). c.world.launches ≡ w.launches) (λ _. refl)
      (λ _. launches-save env (record p { replan = false }) w)

pub not-ready : (s : Status) → s ≡ stopped → not (status_eq s Status.ready) ≡ true
unfolding status_eq
not-ready s e = ap (λ x. not (status_eq x Status.ready)) e

pub launches-after_planning_session :
    (env : Env) (b : Bool) (p : Project) (w : World)
    → w.file ≡ parsed p
    → p.status ≡ stopped
    → (after_planning_session env b w).launches ≡ w.launches
unfolding after_planning_session end_planning reset_planning_failures
launches-after_planning_session env b p w f s =
    ap (λ (x : World). x.launches)
      (file-parsed w.file p _ _ f ∙ if-true _ _ _ (not-ready p.status s))
    ∙ launches-dispatch_project env _ _ (status-clear_replan env p _ ∙ s)
    ∙ launches-clear_replan env p _

pub populated : (p : Project) → p.status ≡ stopped → not (unpopulated p) ≡ true
unfolding unpopulated status_eq
populated p s = ap (λ x. not (status_eq x Status.unset)) s

pub launches-after_project_session :
    (env : Env) (b : Bool) (p : Project) (w : World)
    → w.file ≡ parsed p
    → p.status ≡ stopped
    → (after_project_session env b w).launches ≡ w.launches
unfolding after_project_session reset_project_failures
launches-after_project_session env b p w f s =
    ap (λ (x : World). x.launches) (file-parsed w.file p _ _ f ∙ if-true _ _ _ (populated p s))
    ∙ launches-dispatch_project env p _ s

-- What is on disk after the daemon's save of a stopped project, whether or not it succeeded.
pub launches-after_save :
    (env : Env) (p q : Project) (w : World)
    → w.file ≡ parsed p
    → p.status ≡ stopped
    → q.status ≡ stopped
    → (revisit_project env ((save env q w).world)).launches ≡ w.launches
unfolding save save_as
launches-after_save env p q w f s t =
    if-cases (env.save_succeeds w.draws)
      (λ (x : workingman.Daemon.State.Saved). (revisit_project env x.world).launches ≡ w.launches)
      (λ _. launches-revisit_project env _ _ refl t) (λ _. launches-revisit_project env p _ f s)

pub launches-after_archive_session :
    (env : Env) (p : Project) (w : World)
    → w.file ≡ parsed p
    → p.status ≡ stopped
    → (after_archive_session env w).launches ≡ w.launches
unfolding after_archive_session end_cleanup
launches-after_archive_session env p w f s =
    ap (λ (x : World). x.launches) (file-parsed w.file p _ _ f)
    ∙ if-cases (not p.cleanup) (λ (x : World). x.launches ≡ w.launches)
        (λ _. launches-revisit_project env p w f s)
        (λ _.
          if-cases (not ((save env (record p { cleanup = false }) w).succeeded))
            (λ (x : World). x.launches ≡ w.launches)
            (λ _. launches-save env (record p { cleanup = false }) w)
            (λ _. launches-after_save env p (record p { cleanup = false }) w f s s))

pub launches-on_end :
    (env : Env) (exit : Exit) (n : Session) (p : Project) (w : World)
    → w.file ≡ parsed p
    → p.status ≡ stopped
    → (on_end env exit n w).launches ≡ w.launches
unfolding on_end after_task_session after_commit_session after_review_session
launches-on_end env exit n p w f s = by_kind n.kind
  where
    still : (x : World) → (if is_stopped w then w else x).launches ≡ w.launches
    still x =
        ap (λ (v : World). v.launches) (if-true (is_stopped w) w x (is_stopped-parsed p w f s))

    by_kind : (k : Kind) → (on_end env exit (record n { kind = k }) w).launches ≡ w.launches
    by_kind Kind.project = launches-after_project_session env exit.wait_failed p w f s
    by_kind Kind.planning = launches-after_planning_session env exit.wait_failed p w f s
    by_kind Kind.task = still _
    by_kind Kind.commit = still _
    by_kind Kind.wolf = launches-revisit_project env p w f s
    by_kind Kind.archive = launches-after_archive_session env p w f s
    by_kind Kind.review = still _

pub file-set_session : (slot : Slot) (w : World) → (set_session slot none w).file ≡ w.file
unfolding set_session
file-set_session main w = refl
file-set_session planner w = refl
file-set_session wolf_slot w = refl
file-set_session archive_slot w = refl

pub launches-set_session :
    (slot : Slot) (w : World) → (set_session slot none w).launches ≡ w.launches
unfolding set_session
launches-set_session main w = refl
launches-set_session planner w = refl
launches-set_session wolf_slot w = refl
launches-set_session archive_slot w = refl

pub launches-end_session :
    (env : Env) (exit : Exit) (slot : Slot) (p : Project) (w : World)
    → w.file ≡ parsed p
    → p.status ≡ stopped
    → (end_session env exit slot w).launches ≡ w.launches
unfolding end_session
launches-end_session env exit slot p w f s = held (session_at slot w)
  where
    held :
        (o : Option Session)
        → World.launches (elim o [
          | none ↦ w
          | some n ↦
              if not env.running
              then set_session slot none w
              else on_end env exit n (set_session slot none w)
        ])
          ≡ w.launches
    held none = refl
    held (some n) =
        if-cases (not env.running) (λ (x : World). x.launches ≡ w.launches)
          (λ _. launches-set_session slot w)
          (λ _.
            launches-on_end env exit n p _ (file-set_session slot w ∙ f) s
            ∙ launches-set_session slot w)
