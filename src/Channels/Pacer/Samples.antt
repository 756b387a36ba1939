-- ===== src/Channels/Pacer/Samples.antt =====
-- Tests and an instance for the pacer.
use workingman.Prelude.{◌+◌, ◌≤◌, ◌≡◌, refl, List, [], ◌∷◌, ◌++◌, All}
use workingman.Channels.Pacer.{Pacer, new_pacer, Call, waits, backs_off, turns}
use workingman.Channels.Pacer.Spaced.{AreSpaced, turns-AreSpaced}

abbrev calls : List Call
calls = waits 10 ∷ waits 10 ∷ []

turns-AreSpaced_example :
    AreSpaced 2 (turns (new_pacer 2) (calls ++ backs_off 12 30 ∷ waits 13 ∷ []))
    × ((p : Pacer) → All (λ later. 12 + 30 ≤ later) (turns p (backs_off 12 30 ∷ waits 13 ∷ [])))
turns-AreSpaced_example = turns-AreSpaced 2 calls (waits 13 ∷ []) 12 30

given : turns (new_pacer 2) (calls ++ backs_off 12 30 ∷ waits 13 ∷ []) ≡ 10 ∷ 12 ∷ 42 ∷ []
unfolding turns
given = refl
