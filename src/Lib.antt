-- ===== src/Lib.antt =====
-- Workingman: a daemon that runs coding agents. It watches project directories, each with a
-- project.yaml and a directory of task files, and starts agents in sandboxes: a project agent for an
-- unpopulated project, a planning agent that writes tasks, task and commit agents for the tasks, a
-- review agent for open pull requests, an archive agent at the end, and the wolf for a project that
-- is blocked. The agents write the files; the daemon reads them when a file changes, when a session
-- ends or when a schedule fires.
--
-- The parts, the files that model them and the code:
--   Prelude       tests, lists, texts as lists of bytes, and maps as association lists.
--   Policy        internal/policy/policy.go: a sandbox rule, Validate, Encode, Decode.
--   Sbx           internal/sbx/name.go: SanitizeName, FitNameTo, NameBudget, CheckName.
--   Task          internal/task/task.go: statuses, ValidName, Slugify, SlugifyFor, the record.
--   Taskgraph     internal/taskgraph/graph.go: Load with its repairs, validate, Ready.
--   Project       internal/project/project.go and status.go: the record and its predicates.
--   Scheduler     internal/scheduler/scheduler.go: schedules by key over a cron library, which is a
--                 parameter with the laws of its AddFunc and Remove.
--   Agent         internal/agent/agent.go: the kinds of agents and their names.
--   Channels      internal/channels: Channels.Signal has the ids and the access policy of the Signal
--                 channel, Channels.Pacer the pacing of its sends, Channels.Whatsapp the identities of
--                 the WhatsApp channel.
--   Router        internal/router: Router.Commands and Router.Permission read a reply, Router.Chats has
--                 the queue of a chat and the destination of its messages, Router.Handle what an inbound
--                 message does, Router.Runs the runs.
--   Daemon        internal/daemon, for one project: Daemon.State has the disk, the session map at
--                 the four keys of the project, the guards and counters; Blocked, Review, Tasks,
--                 Dispatch, Route, Ends and ReviewEnd have a function for each handler, named after
--                 it in snake case; Events has the runs. Protocol has an abstract view of the
--                 session map, the moves that it allows, and the proofs that every handler is a
--                 sequence of moves. Reaper closes silent sessions, with sessions as it reads them;
--                 Planned has internal/project/planned_snapshot.go and the repositories that are
--                 added to the workspace before a planning run. Overlap has the reservations of the
--                 planning and the archive agent, lock by lock, for launches and ends that overlap.
-- The daemon registers its schedules with the scheduler, whose firing is an event of it. The channels
-- admit inbound messages by their policies and hand them to the router, which puts them to the wolf of
-- a project or to the workingman agent, and an agent's request for permission to the chat.
-- The daemon uses Taskgraph.load for the files of a project, Task and Project for their records, and
-- Taskgraph repairs names with Task.slugify_for, which shortens them with Sbx.fit_name_to.
--
-- How the code is rendered. State is passed explicitly. What leaves the daemon is in the state: the
-- agents that it started and the notices of blocks. What comes from outside is an environment, which
-- may differ in each step: the time, whether a write or a start succeeds (a function of how many were
-- made before), the fingerprint of pull requests, the repositories with commits, whether a cron text
-- parses. SHA-256 is a parameter of which only the length and the alphabet of its text are used.
-- Between steps agents and people may write anything to the files. But for Daemon.Overlap, a handler is
-- one step, with the starts in it, and so is the end of a session with its callback: the windows in
-- which a reservation is held without a session, or a review start is under way without one, are in
-- Daemon.Overlap alone (the review's in no file). What happens after shutdown begins is not modelled.
-- The case of letters is folded in ASCII only.
--
-- Bounds and fuel. Numbers that the code keeps as int are natural numbers and no test or sum of the
-- model comes near the range of int. The depth-first search of validate has one unit of fuel more than
-- there are tasks, which is enough since each call colours a task that had no colour; the loop of
-- dedupeName has the same, since its candidates differ. The loop of Expand recurs on the free
-- places among 64 and on its queue. Everything else is structural.
--
-- Not modelled: YAML, processes, sandboxes, git and GitHub, the transports of the messaging channels,
-- the attachment of the router to agents and the outcome of their turns, the terminal interface,
-- prompts, logs, the state snapshot, the adoption of sessions at a restart, and the work of the agents,
-- which is the arbitrary writes above.
pub mod Prelude
pub mod Policy
pub mod Sbx
pub mod Task
pub mod Taskgraph
pub mod Project
pub mod Scheduler
pub mod Agent
pub mod Channels
pub mod Router
pub mod Daemon
