-- ===== src/Daemon/Reaper.antt =====
-- internal/daemon/reaper.go: the sessions that are closed because their agent is done or silent.
pub mod Samples
use workingman.Prelude.{
  ℕ, ◌+◌, Bool, true, false, ◌||◌, ◌&&◌, not, List, [], ◌∷◌, Str, is_empty, contains, leb, ltb,
  if◌then◌else◌, Option, none, some, get,
}
use workingman.Agent.{
  Kind, project_agent, planning_agent, task_agent, wolf_agent, commit_agent, archive_agent,
  review_agent, workingman_agent, interactive,
}
use workingman.Task
use workingman.Task.{Task}
use workingman.Project
use workingman.Project.{Project, unpopulated}
use workingman.Taskgraph.{load, ok, err}
use workingman.Daemon.State.{World, Env, Slot, main, planner, archive_slot, parsed}

-- A key of the session map: a slot of the project, or the workingman agent's.
pub data Key : Type 0 where
  at_slot : Slot → Key
  workingman_key : Key

-- What the reaper reads of a sessionEntry; `log_written` is the time of the last write to its stream
-- log, if there is a log, and `closed` says that the reaper has called Close.
pub record Tracked : Type 0 where
  pub kind : Kind
  pub task_name : Str
  pub started_at : ℕ
  pub log_written : Option ℕ
  pub closed : Bool

-- sessionDoneGrace, in seconds.
abbrev pub session_done_grace : ℕ
session_done_grace = 90

-- reapCauseStageComplete and reapCauseIdleTimeout
pub data Cause : Type 0 where
  stage_done idle_timeout : Cause

-- plannerOwesIntake
unfoldable pub owes : List Str → List Str → Bool
unfolding contains
owes [] pending = false
owes (f ∷ fs) pending = contains pending f || owes fs pending

unfoldable pub planner_owes_intake : World → Bool
unfolding owes
planner_owes_intake w = owes w.offered w.intake

-- The project that a key names when the marker of a slot is cut from it; elsewhere there is no file.
unfoldable pub load_stripped : Slot → Key → World → Option Project
load_stripped slot key w = elim key [
  | at_slot main ↦ elim w.file [ parsed p ↦ some p | _ ↦ none ]
  | at_slot planner ↦ elim slot [
    | planner ↦ elim w.file [ parsed p ↦ some p | _ ↦ none ]
    | _ ↦ none
  ]
  | at_slot archive_slot ↦ elim slot [
    | archive_slot ↦ elim w.file [ parsed p ↦ some p | _ ↦ none ]
    | _ ↦ none
  ]
  | _ ↦ none
]

abbrev task_done : Kind → Task.Status → Bool
task_done commit_agent s = Task.status_eq s Task.committed
task_done _ s = Task.status_eq s Task.success || Task.status_eq s Task.failed

-- stageComplete of a task or commit agent.
unfoldable pub task_stage_complete : Env → World → Key → Tracked → Bool
task_stage_complete env w workingman_key e = false
task_stage_complete env w (at_slot slot) e =
    if is_empty e.task_name
    then false
    else elim (load env.digest env.work_stream env.tasks_dir w.tasks) [
      | err _ ↦ false
      | ok g ↦ elim (get g.tasks e.task_name) [ none ↦ false | some t ↦ task_done e.kind t.status ]
    ]

-- stageComplete
unfoldable pub stage_complete : Env → World → Key → Tracked → Bool
unfolding task_stage_complete load_stripped planner_owes_intake
stage_complete env w key e = elim e.kind [
  | task_agent ↦ task_stage_complete env w key e
  | commit_agent ↦ task_stage_complete env w key e
  | planning_agent ↦ elim (load_stripped planner key w) [
    | none ↦ false
    | some p ↦ not (Project.status_eq p.status Project.ready) && not (planner_owes_intake w)
  ]
  | project_agent ↦ elim (load_stripped main key w) [ none ↦ false | some p ↦ not (unpopulated p) ]
  | archive_agent ↦ elim (load_stripped archive_slot key w) [ none ↦ false | some p ↦ p.archive ]
  | _ ↦ false
]

-- The time of the last activity in sessionIdle.
unfoldable pub last_active : Tracked → ℕ
last_active e = elim e.log_written [
  | none ↦ e.started_at
  | some t ↦ if ltb e.started_at t then t else e.started_at
]

-- sessionIdle compared with a bound: whether the session was silent for so long.
unfoldable pub idle_for : Env → Tracked → ℕ → Bool
unfolding last_active
idle_for env e bound = leb (last_active e + bound) env.now

-- The verdict on a session of a kind that is reaped at all.
unfoldable pub timed_verdict : Env → ℕ → Bool → Tracked → Option Cause
unfolding idle_for
timed_verdict env timeout complete e =
    if complete
    then (if idle_for env e session_done_grace then some stage_done else none)
    else if idle_for env e timeout
    then some idle_timeout
    else none

-- e.kind == agent.WorkingmanAgent
abbrev pub is_workingman : Kind → Bool
is_workingman workingman_agent = true
is_workingman _ = false

-- strandedVerdict; `timeout` is sessionIdleTimeout.
unfoldable pub stranded_verdict : Env → ℕ → World → Key → Tracked → Option Cause
unfolding stage_complete timed_verdict
stranded_verdict env timeout w key e =
    if interactive e.kind
    then none
    else if is_workingman e.kind
    then none
    else timed_verdict env timeout (stage_complete env w key e) e

-- Close of a victim.
unfoldable pub reap : Option Cause → Tracked → Tracked
reap none e = e
reap (some c) e = record e { closed = true }

-- reapStrandedSessions: every verdict is taken before the first session is closed.
unfoldable pub reap_stranded_sessions :
    Env → ℕ → World → List (Key × Tracked) → List (Key × Tracked)
unfolding stranded_verdict reap
reap_stranded_sessions env timeout w [] = []
reap_stranded_sessions env timeout w ((key, e) ∷ sessions) =
    (key, reap (stranded_verdict env timeout w key e) e)
    ∷ reap_stranded_sessions env timeout w sessions
