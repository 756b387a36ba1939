-- ===== src/Daemon.antt =====
-- internal/daemon: the dispatch of agents for one project, by file events, session ends and
-- schedules. `State` has what the handlers read and write, `Blocked` the transitions that end in a
-- block, `Review` the pull-request poll, `Tasks` the task graph's agents, `Dispatch` the launches of
-- the other agents, `Route` the routing of a project, `Ends` and `ReviewEnd` the callbacks at the end
-- of a session and `Events` the runs of the whole. `Protocol` and `Slots` are about the session map,
-- `Overlap` about its reservations when launches and ends overlap,
-- the other modules about what their names say.
mod State
mod Blocked
mod Review
mod Tasks
mod Dispatch
mod Route
mod Ends
mod ReviewEnd
mod Events
pub mod Reaper
pub mod Reaped
pub mod Planned
pub mod Protocol
pub mod Slots
pub mod Overlap
pub mod Stop
pub mod Liveness
pub mod Writes
pub mod Cron
pub mod Attempts
pub mod Samples
unfoldable pub use State.*
unfoldable pub use Blocked.*
unfoldable pub use Review.*
unfoldable pub use Tasks.*
unfoldable pub use Dispatch.*
unfoldable pub use Route.*
unfoldable pub use Ends.*
unfoldable pub use ReviewEnd.*
unfoldable pub use Events.*
