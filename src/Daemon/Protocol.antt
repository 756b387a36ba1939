-- ===== src/Daemon/Protocol.antt =====
-- The protocol of the session map that the handlers of internal/daemon keep: which keys are held by
-- which kind of agent, the planning and cleanup guards and the retry counters. A handler is a
-- sequence of the moves below; `Quiet` has the operations that move nothing,
-- `Combine` the sequences, `Launch`, `Graph`, `Route`, `Watch`, `Ends` and
-- `Reviews` the handlers and `Invariant` what runs keep.
pub mod Quiet
pub mod Combine
pub mod Launch
pub mod Graph
pub mod Route
pub mod Watch
pub mod Ends
pub mod Reviews
pub mod Invariant
use workingman.Prelude.{ℕ, ◌≡◌, Bool, true, false, not, Option, none, some}
use workingman.Project.{Project}
use workingman.Daemon.State.{World, Kind, Session}
use workingman.Daemon.Dispatch.{runs_alongside_planning}

pub record Slots : Type 0 where
  pub main : Option Kind
  pub planner : Option Kind
  pub wolf : Option Kind
  pub archive : Option Kind
  pub busy : Bool
  pub in_flight : Bool
  pub planning_failures : ℕ
  pub project_failures : ℕ

unfoldable pub kind_of : Option Session → Option Kind
kind_of none = none
kind_of (some s) = some (s.kind)

-- What a state shows of its sessions and guards.
unfoldable pub slots_of : World → Slots
unfolding kind_of
slots_of w = record {
  main = kind_of w.main_session;
  planner = kind_of w.planner_session;
  wolf = kind_of w.wolf_session;
  archive = kind_of w.archive_session;
  busy = w.planning_busy;
  in_flight = w.cleanup_in_flight;
  planning_failures = w.planning_failures;
  project_failures = w.project_failures;
}

-- The kinds that a launch in the main slot has, but for the review agent.
unfoldable pub is_worker : Kind → Bool
is_worker Kind.project = true
is_worker Kind.task = true
is_worker Kind.commit = true
is_worker _ = false

-- Whether a planning run may start beside the holder of the main slot.
unfoldable pub beside_planning : Option Kind → Bool
unfolding runs_alongside_planning
beside_planning none = true
beside_planning (some k) = runs_alongside_planning k

-- One move of the protocol: a launch under its guard, or the guard of the archive agent taken where
-- the agent is tracked already.
pub data Move : Slots → Slots → Type 0 where
  take_main :
      {s : Slots} (k : Kind)
      → s.main ≡ none
      → is_worker k ≡ true
      → Move s (record s { main = some k })
  take_review :
      {s : Slots} → s.main ≡ none → s.busy ≡ false → Move s (record s { main = some (Kind.review) })
  take_planner :
      {s : Slots}
      → s.planner ≡ none
      → s.busy ≡ false
      → beside_planning (s.main) ≡ true
      → Move s (record s { planner = some (Kind.planning); busy = true })
  take_wolf : {s : Slots} → s.wolf ≡ none → Move s (record s { wolf = some (Kind.wolf) })
  take_archive :
      {s : Slots}
      → s.archive ≡ none
      → s.in_flight ≡ false
      → Move s (record s { archive = some (Kind.archive); in_flight = true })
  keep_guard : {s : Slots} (k : Kind) → s.archive ≡ some k → Move s (record s { in_flight = true })

pub data Moves : Slots → Slots → Type 0 where
  stay : {s : Slots} → Moves s s
  move : {s t u : Slots} → Move s t → Moves t u → Moves s u
