-- ===== src/Taskgraph.antt =====
-- internal/taskgraph/graph.go: a project's task graph, its loading and its queries.
-- `Taskgraph.Defs` has the graph and its validation, `Taskgraph.Load` the loading.
mod Defs
mod Load
pub mod Loaded
pub mod Sound
pub mod Cycle
pub mod Fuel
pub mod Verdict
pub mod Progress
pub mod Dedupe
pub mod Samples
unfoldable pub use Defs.*
unfoldable pub use Load.*
