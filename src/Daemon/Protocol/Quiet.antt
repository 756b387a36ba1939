-- ===== src/Daemon/Protocol/Quiet.antt =====
-- The operations of internal/daemon that start no session and touch no guard.
use workingman.Prelude.{◌≡◌, refl, Str, arith, ◌∷◌}
use workingman.Project.{Project, Writer, Reason}
use workingman.Task.{Task}
use workingman.Daemon.State.{
  World, Env, save, save_as, save_task, unregister_review, unregister_cron, clear_review_state,
}
use workingman.Daemon.Protocol.{slots_of}

pub slots_of-save_as :
    (env : Env) (by : Writer) (p : Project) (w : World)
    → slots_of ((save_as env by p w).world) ≡ slots_of w
unfolding save_as slots_of
slots_of-save_as env by p w = ground arith

pub slots_of-save :
    (env : Env) (p : Project) (w : World) → slots_of ((save env p w).world) ≡ slots_of w
unfolding save
slots_of-save env p w = slots_of-save_as env _ p w

pub slots_of-save_task :
    (env : Env) (path : Str) (t : Task) (w : World)
    → slots_of ((save_task env path t w).world) ≡ slots_of w
unfolding save_task slots_of
slots_of-save_task env path t w = ground arith

pub slots_of-unregister_review :
    (env : Env) (w : World) → slots_of (unregister_review env w) ≡ slots_of w
unfolding unregister_review slots_of
slots_of-unregister_review env w = ground arith

pub slots_of-unregister_cron :
    (env : Env) (w : World) → slots_of (unregister_cron env w) ≡ slots_of w
unfolding unregister_cron slots_of
slots_of-unregister_cron env w = ground arith

pub slots_of-clear_review_state : (w : World) → slots_of (clear_review_state w) ≡ slots_of w
unfolding clear_review_state slots_of
slots_of-clear_review_state w = refl

-- The block's notice, after the review state is cleared.
pub slots_of-noted :
    (why : Reason) (w : World)
    → (let cleared = clear_review_state w in
        slots_of (record cleared { notices = why ∷ cleared.notices }))
      ≡ slots_of w
unfolding clear_review_state slots_of
slots_of-noted why w = refl
