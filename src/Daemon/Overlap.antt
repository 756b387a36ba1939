-- ===== src/Daemon/Overlap.antt =====
-- The reservations of the planning and the cleanup agent under any overlap of the goroutines that launch
-- and end them (internal/daemon/dispatch.go, dispatch_lifecycle.go, daemon.go). A step is what happens
-- under one lock; runner.Start and the agent's own run lie between steps. Shutting down is left out.
pub mod Exclusive
pub mod Samples
use workingman.Prelude.{
  ℕ, zero, suc, Bool, true, false, ◌&&◌, ◌||◌, not, List, [], ◌∷◌, if◌then◌else◌, Option, none,
  some,
}

-- Where a goroutine is that has reserved: on its way to a tracked session, waiting for the session that
-- is tracked, or in the callback of the session that is not tracked any more.
pub data Phase : Type 0 where
  starting running ended : Phase

-- One reservation of a project with its key of the session map, and the goroutines that made it.
pub record Reservation : Type 0 where
  pub reserved : Bool
  pub tracked : Bool
  pub runs : List Phase

abbrev pub phase_at : List Phase → ℕ → Option Phase
phase_at [] i = none
phase_at (x ∷ xs) zero = some x
phase_at (x ∷ xs) (suc i) = phase_at xs i

abbrev pub set_phase : Phase → List Phase → ℕ → List Phase
set_phase new [] i = []
set_phase new (x ∷ xs) zero = new ∷ xs
set_phase new (x ∷ xs) (suc i) = x ∷ set_phase new xs i

abbrev pub drop_run : List Phase → ℕ → List Phase
drop_run [] i = []
drop_run (x ∷ xs) zero = xs
drop_run (x ∷ xs) (suc i) = x ∷ drop_run xs i

-- beginPlanning, beginCleanup
unfoldable pub begin : Reservation → Reservation
begin r = if r.reserved then r else record r { reserved = true; runs = starting ∷ r.runs }

-- endPlanning, endCleanup, by the goroutine at a place, which goes on without the reservation.
unfoldable pub release : ℕ → Reservation → Reservation
release i r = record r { reserved = false; runs = drop_run r.runs i }

-- A launch that comes to no session: Start fails, or the request is stale.
unfoldable pub give_up : ℕ → Reservation → Reservation
unfolding release
give_up i r = elim (phase_at r.runs i) [ some starting ↦ release i r | _ ↦ r ]

-- trackSession. Where the key is taken, launchPlanningAgent and the adoption at a restart (reconcile.go)
-- release, and launchArchiveAgent does not.
unfoldable pub track : Bool → ℕ → Reservation → Reservation
unfolding release
track releases i r = elim (phase_at r.runs i) [
  | some starting ↦
      if r.tracked
      then (if releases then release i r else record r { runs = drop_run r.runs i })
      else record r { tracked = true; runs = set_phase running r.runs i }
  | _ ↦ r
]

-- The goroutine of trackSession: the session has exited and its key is deleted.
unfoldable pub untrack : ℕ → Reservation → Reservation
untrack i r = elim (phase_at r.runs i) [
  | some running ↦ record r { tracked = false; runs = set_phase ended r.runs i }
  | _ ↦ r
]

-- The release in afterPlanningSession and afterArchiveSession.
unfoldable pub finish : ℕ → Reservation → Reservation
unfolding release
finish i r = elim (phase_at r.runs i) [ some ended ↦ release i r | _ ↦ r ]

-- What a goroutine does next; any launch or adoption may begin at any time.
pub data Step : Type 0 where
  begins : Step
  gives_up untracks finishes : ℕ → Step
  tracks : Bool → ℕ → Step

unfoldable pub step : Step → Reservation → Reservation
unfolding begin give_up track untrack finish
step begins r = begin r
step (gives_up i) r = give_up i r
step (tracks releases i) r = track releases i r
step (untracks i) r = untrack i r
step (finishes i) r = finish i r

abbrev pub unreserved : Reservation
unreserved = record { reserved = false; tracked = false; runs = [] }

-- Any steps of any goroutines, the last one first.
unfoldable pub after : List Step → Reservation
unfolding step
after [] = unreserved
after (s ∷ steps) = step s (after steps)
