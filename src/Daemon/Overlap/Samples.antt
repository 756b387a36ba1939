-- ===== src/Daemon/Overlap/Samples.antt =====
-- Tests and an instance for the reservations.
use workingman.Prelude.{◌≡◌, refl, true, false, [], ◌∷◌, List}
use workingman.Daemon.Overlap.{Step, begins, tracks, untracks, finishes, after, ended}
use workingman.Daemon.Overlap.Exclusive.{IsExclusive, after-IsExclusive}

-- A second launch while the first session is tracked, and a third when it has exited.
abbrev overlapping : List Step
overlapping = begins ∷ untracks 0 ∷ begins ∷ tracks true 0 ∷ begins ∷ []

after-IsExclusive_example : IsExclusive (after overlapping)
after-IsExclusive_example = after-IsExclusive overlapping

-- The session is gone, its run still holds the reservation.
wider_than_session :
    after overlapping ≡ record { reserved = true; tracked = false; runs = ended ∷ [] }
unfolding after
wider_than_session = refl

finished_is_free : (after (finishes 0 ∷ overlapping)).reserved ≡ false
unfolding after
finished_is_free = refl
