-- ===== src/Daemon/Overlap/Exclusive.antt =====
-- However the goroutines overlap, one run at most holds the reservation.
use workingman.Prelude.{zero, suc, true, false, List, [], ◌∷◌}
use workingman.Daemon.Overlap.{
  starting, running, ended, Reservation, Step, begins, gives_up, tracks, untracks, finishes, step,
  unreserved, after,
}

-- The reservation is free and nothing is tracked, or one run holds it: before its session is tracked,
-- while it is, or afterwards until the run has finished.
pub data IsExclusive : Reservation → Type 0 where
  free : IsExclusive unreserved
  launching : IsExclusive (record { reserved = true; tracked = false; runs = starting ∷ [] })
  at_work : IsExclusive (record { reserved = true; tracked = true; runs = running ∷ [] })
  finishing : IsExclusive (record { reserved = true; tracked = false; runs = ended ∷ [] })

step-IsExclusive : (s : Step) (r : Reservation) → IsExclusive r → IsExclusive (step s r)
unfolding step
step-IsExclusive begins _ free = launching
step-IsExclusive (gives_up i) _ free = free
step-IsExclusive (tracks releases i) _ free = free
step-IsExclusive (untracks i) _ free = free
step-IsExclusive (finishes i) _ free = free
step-IsExclusive begins _ launching = launching
step-IsExclusive (gives_up zero) _ launching = free
step-IsExclusive (gives_up (suc i)) _ launching = launching
step-IsExclusive (tracks releases zero) _ launching = at_work
step-IsExclusive (tracks releases (suc i)) _ launching = launching
step-IsExclusive (untracks zero) _ launching = launching
step-IsExclusive (untracks (suc i)) _ launching = launching
step-IsExclusive (finishes zero) _ launching = launching
step-IsExclusive (finishes (suc i)) _ launching = launching
step-IsExclusive begins _ at_work = at_work
step-IsExclusive (gives_up zero) _ at_work = at_work
step-IsExclusive (gives_up (suc i)) _ at_work = at_work
step-IsExclusive (tracks releases zero) _ at_work = at_work
step-IsExclusive (tracks releases (suc i)) _ at_work = at_work
step-IsExclusive (untracks zero) _ at_work = finishing
step-IsExclusive (untracks (suc i)) _ at_work = at_work
step-IsExclusive (finishes zero) _ at_work = at_work
step-IsExclusive (finishes (suc i)) _ at_work = at_work
step-IsExclusive begins _ finishing = finishing
step-IsExclusive (gives_up zero) _ finishing = finishing
step-IsExclusive (gives_up (suc i)) _ finishing = finishing
step-IsExclusive (tracks releases zero) _ finishing = finishing
step-IsExclusive (tracks releases (suc i)) _ finishing = finishing
step-IsExclusive (untracks zero) _ finishing = finishing
step-IsExclusive (untracks (suc i)) _ finishing = finishing
step-IsExclusive (finishes zero) _ finishing = free
step-IsExclusive (finishes (suc i)) _ finishing = finishing

-- However the goroutines that launch, adopt and end the planning (or the archive) agents of a project
-- overlap before the daemon shuts down, at most one of them holds the reservation at any time; its
-- session is tracked only while it does, and the reservation is free exactly if none of them is between
-- its reserving and its releasing.
pub after-IsExclusive : (steps : List Step) → IsExclusive (after steps)
unfolding after
after-IsExclusive [] = free
after-IsExclusive (s ∷ steps) = step-IsExclusive s (after steps) (after-IsExclusive steps)
