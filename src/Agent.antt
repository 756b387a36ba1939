-- ===== src/Agent.antt =====
-- internal/agent/agent.go: the kinds of agents and their names.
pub mod Names
pub mod Samples
use workingman.Prelude.{Bool, true, false, Option, none, some, Str, codes, str_eq, if◌then◌else◌}

pub data Kind : Type 0 where
  project_agent planning_agent task_agent wolf_agent commit_agent archive_agent review_agent
        workingman_agent :
      Kind

-- Kind.String
abbrev pub kind_text : Kind → Str
kind_text project_agent = codes "project"
kind_text planning_agent = codes "planning"
kind_text task_agent = codes "task"
kind_text wolf_agent = codes "wolf"
kind_text commit_agent = codes "commit"
kind_text archive_agent = codes "archive"
kind_text review_agent = codes "review"
kind_text workingman_agent = codes "workingman"

-- ParseKind
unfoldable pub parse_kind : Str → Option Kind
unfolding str_eq
parse_kind s =
    if str_eq s (codes "project")
    then some project_agent
    else if str_eq s (codes "planning")
    then some planning_agent
    else if str_eq s (codes "task")
    then some task_agent
    else if str_eq s (codes "wolf")
    then some wolf_agent
    else if str_eq s (codes "commit")
    then some commit_agent
    else if str_eq s (codes "archive")
    then some archive_agent
    else if str_eq s (codes "review")
    then some review_agent
    else if str_eq s (codes "workingman")
    then some workingman_agent
    else none

-- Kind.Interactive
abbrev pub interactive : Kind → Bool
interactive wolf_agent = true
interactive _ = false
