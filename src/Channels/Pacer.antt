-- ===== src/Channels/Pacer.antt =====
-- internal/channels/signal/ratelimit.go: the pacer that spaces the sends of the Signal channel. Times
-- are numbers, and the zero time is before all of them.
pub mod Spaced
pub mod Samples
use workingman.Prelude.{ℕ, ◌+◌, ltb, if◌then◌else◌, List, [], ◌∷◌}

-- pacer, without its clock.
pub record Pacer : Type 0 where
  pub gap : ℕ
  pub next : ℕ

-- newPacer
abbrev pub new_pacer : ℕ → Pacer
new_pacer gap = record { gap = gap; next = 0 }

-- The time of this caller's turn in wait.
unfoldable pub turn_at : Pacer → ℕ → ℕ
turn_at p now = if ltb p.next now then now else p.next

-- wait: the reservation of the slot; the caller then sleeps until its turn or gives up.
unfoldable pub wait : Pacer → ℕ → Pacer
unfolding turn_at
wait p now = record p { next = turn_at p now + p.gap }

-- backoff by the server's retry-after.
unfoldable pub backoff : Pacer → ℕ → ℕ → Pacer
backoff p now d = if ltb p.next (now + d) then record p { next = now + d } else p

-- A call of the pacer, with the time at which it is made.
pub data Call : Type 0 where
  waits : ℕ → Call
  backs_off : ℕ → ℕ → Call

-- The turns that calls of wait are given, in the order of the calls.
unfoldable pub turns : Pacer → List Call → List ℕ
unfolding turn_at wait backoff
turns p [] = []
turns p (waits now ∷ calls) = turn_at p now ∷ turns (wait p now) calls
turns p (backs_off now d ∷ calls) = turns (backoff p now d) calls
