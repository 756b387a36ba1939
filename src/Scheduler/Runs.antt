-- ===== src/Scheduler/Runs.antt =====
-- Sequences of calls of a scheduler.
use workingman.Prelude.{List, ◌∷◌, Option, none, some, Str, []}
use workingman.Scheduler.{CronLib, Error, Scheduler, empty_scheduler, register, unregister}
use workingman.Scheduler.Synced.{IsSynced, empty_scheduler-IsSynced}
use workingman.Scheduler.Register.{Registers, register-Registers}
use workingman.Scheduler.Unregister.{unregister-Unregisters}

module _ {Fn : Type 0} (lib : CronLib Fn) where
  -- A call of the scheduler.
  pub data Call : Type 0 where
    registers : Str → Str → Fn → Call
    unregisters : Str → Call

  -- The scheduler after some calls.
  unfoldable pub run : Scheduler lib → List Call → Scheduler lib
  run s [] = s
  run s (registers key spec fn ∷ calls) = run (register lib s key spec fn).0 calls
  run s (unregisters key ∷ calls) = run (unregister lib s key) calls

  registered-IsSynced :
      (s : Scheduler lib) (r : Scheduler lib × Option Error) (key spec : Str) (fn : Fn)
      → IsSynced lib s
      → Registers lib s key spec fn r
      → IsSynced lib r.0
  registered-IsSynced s (s', none) key spec fn synced h = h.0
  registered-IsSynced s (s', some e) key spec fn synced h = rw h.0 synced

  runs : (calls : List Call) (s : Scheduler lib) → IsSynced lib s → IsSynced lib (run s calls)
  unfolding run
  runs [] s synced = synced
  runs (registers key spec fn ∷ calls) s synced =
      runs calls _
        (registered-IsSynced s _ key spec fn synced (register-Registers lib s key spec fn synced))
  runs (unregisters key ∷ calls) s synced = runs calls _ (unregister-Unregisters lib s key synced).0

  -- After any calls of Register and Unregister on a new scheduler it is synced: a key is on record with
  -- a spec exactly when it has an entry, that entry is live in the library with this spec, no two keys
  -- share an entry, and no entry is live that no key has.
  pub run-IsSynced : (calls : List Call) → IsSynced lib (run (empty_scheduler lib) calls)
  run-IsSynced calls = runs calls (empty_scheduler lib) (empty_scheduler-IsSynced lib)
