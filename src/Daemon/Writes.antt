-- ===== src/Daemon/Writes.antt =====
-- The daemon's own writes of a project file (internal/daemon, internal/project).
use workingman.Prelude.{suc, ◌≡◌, refl, Bool, true, false, if◌then◌else◌, false≢true}
use workingman.Project.{Project}
use workingman.Daemon.State.{World, Env, Saved, save, save_as}
use workingman.Daemon.Route.{handle_project}

-- After a save of any project by the daemon that succeeded, handleProject, in any environment,
-- leaves the state as it is.
pub handle_project-save :
    (env later : Env) (p : Project) (w : World)
    → (save env p w).succeeded ≡ true
    → handle_project later ((save env p w).world) ≡ (save env p w).world
unfolding handle_project save save_as
handle_project-save env later p w e = by_outcome (env.save_succeeds w.draws) e
  where
    saved : Bool → Saved
    saved b =
        if b
        then record {
          world = record w {
            file =
                workingman.Daemon.State.parsed
                  (record p { updated_by = workingman.Project.daemon });
            draws = suc (w.draws);
          };
          succeeded = true;
        }
        else record { world = record w { draws = suc (w.draws) }; succeeded = false }

    by_outcome :
        (b : Bool)
        → (saved b).succeeded ≡ true
        → handle_project later ((saved b).world) ≡ (saved b).world
    by_outcome true f = refl
    by_outcome false f = absurd (false≢true f)
