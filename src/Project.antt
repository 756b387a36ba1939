-- ===== src/Project.antt =====
-- internal/project: the project file, its statuses and flags, and what the daemon asks of them.
pub mod Merged
pub mod Samples
use workingman.Prelude.{
  ℕ, Bool, true, false, ◌&&◌, ◌||◌, not, List, [], ◌++◌, map, Str, codes, str_eq, contains, length,
  leb, ltb, ◌==◌, is_empty, all, any, keep, if◌then◌else◌, Option, none, some, is_some, cut,
}
use workingman.Task.{to_lower}

-- status.go. `unset` is the empty status of an unpopulated file.
pub data Status : Type 0 where
  unset ready working blocked idle stopped merged : Status

unfoldable pub status_eq : Status → Status → Bool
status_eq unset unset = true
status_eq ready ready = true
status_eq working working = true
status_eq blocked blocked = true
status_eq idle idle = true
status_eq stopped stopped = true
status_eq merged merged = true
status_eq _ _ = false

unfoldable pub status_text : Status → Str
status_text unset = []
status_text ready = codes "ready"
status_text working = codes "working"
status_text blocked = codes "blocked"
status_text idle = codes "idle"
status_text stopped = codes "stopped"
status_text merged = codes "merged"

-- Status.UnmarshalYAML with the legacy aliases; `none` is the error.
unfoldable pub parse_status : Str → Option Status
parse_status raw =
    if is_empty raw
    then some unset
    else if str_eq raw (codes "done") || str_eq raw (codes "reviewing")
    then some idle
    else if str_eq raw (codes "ready")
    then some ready
    else if str_eq raw (codes "working")
    then some working
    else if str_eq raw (codes "blocked")
    then some blocked
    else if str_eq raw (codes "idle")
    then some idle
    else if str_eq raw (codes "stopped")
    then some stopped
    else if str_eq raw (codes "merged")
    then some merged
    else none

-- project.go. `other` is any text but the two writers.
pub data Writer : Type 0 where
  agent daemon other : Writer

-- Writer.Valid
unfoldable pub valid_writer : Writer → Bool
valid_writer other = false
valid_writer _ = true

abbrev pub is_daemon : Writer → Bool
is_daemon daemon = true
is_daemon _ = false

pub record Repo : Type 0 where
  pub org : Str
  pub name : Str
  pub base_branch : Str
  pub visibility : Str

-- Repo.UnmarshalYAML on a scalar, "org/name" or "org/name@base_branch"; `none` is the error.
unfoldable pub parse_repo : Str → Option Repo
unfolding cut
parse_repo value =
    let at = cut b'@' value in
    let spec = if at.found then at.before else value in
    let base = if at.found then at.after else [] in
    let parts = cut b'/' spec in
    if not parts.found || is_empty parts.before || is_empty parts.after
    then none
    else some
        (record { org = parts.before; name = parts.after; base_branch = base; visibility = [] })

pub record PullRequest : Type 0 where
  pub repo : Str
  pub number : ℕ
  pub url : Str
  pub head_sha : Str
  pub state : Str

-- The reason of a block: a text that somebody wrote, or one of the daemon's messages, by the
-- function that formats it.
pub data Reason : Type 0 where
  no_reason : Reason
  written : Str → Reason
  marked_blocked_by : Writer → Reason
  project_agent_start_failed planning_agent_start_failed : Reason
  planning_could_not_run project_could_not_run : Reason
  planning_no_progress project_no_progress : (attempts : ℕ) → Reason
  cron_no_stop_condition : Str → Reason
  taskgraph_error : Reason
  task_agent_start_failed commit_agent_start_failed : (task : Str) → Reason
  task_file_missing task_load_error task_save_error : (path : Str) → Reason
  task_reported_blocked : (task reason : Str) → Reason
  task_committed_itself : (task : Str) → Reason
  task_failed : (task : Str) (attempts : ℕ) (failure : Str) → Reason
  commit_load_error : (path : Str) → Reason
  commit_not_committed : (task : Str) → Reason
  commit_could_not_start : (task : Str) → Reason
  review_agent_failed review_not_converging : (times : ℕ) → Reason
  no_ready_tasks_remain : Reason

abbrev pub is_no_reason : Reason → Bool
is_no_reason no_reason = true
is_no_reason (written s) = is_empty s
is_no_reason _ = false

-- Times are numbers of nanoseconds, a pointer to one is an option.
pub record Project : Type 0 where
  pub description : Str
  pub repos : List Repo
  pub new_repos : List Repo
  pub branch : Str
  pub status : Status
  pub cron : Str
  pub cron_until : Option ℕ
  pub cron_max_runs : ℕ
  pub cron_runs : ℕ
  pub blocked_reason : Reason
  pub archive : Bool
  pub cleanup : Bool
  pub replan : Bool
  pub created_at : Option ℕ
  pub review : Bool
  pub review_now : Bool
  pub pull_requests : List PullRequest
  pub hide : Bool
  pub stopped_from : Status
  pub updated_by : Writer

abbrev pub empty_project : Project
empty_project = record {
  description = [];
  repos = [];
  new_repos = [];
  branch = [];
  status = unset;
  cron = [];
  cron_until = none;
  cron_max_runs = 0;
  cron_runs = 0;
  blocked_reason = no_reason;
  archive = false;
  cleanup = false;
  replan = false;
  created_at = none;
  review = false;
  review_now = false;
  pull_requests = [];
  hide = false;
  stopped_from = unset;
  updated_by = other;
}

-- Empty
unfoldable pub empty : Project → Bool
unfolding status_eq
empty p =
    is_empty p.description
    && length p.repos == 0
    && length p.new_repos == 0
    && is_empty p.branch
    && status_eq p.status unset

-- Unpopulated
unfoldable pub unpopulated : Project → Bool
unfolding status_eq
unpopulated p = status_eq p.status unset

pub data StopReason : Type 0 where
  until_passed : ℕ → StopReason
  max_runs_reached : (max runs : ℕ) → StopReason

-- CronStopReason at the time `now`; `none` is the empty text.
unfoldable pub cron_stop_reason : ℕ → Project → Option StopReason
cron_stop_reason now p =
    let by_count =
      if ltb 0 p.cron_max_runs && leb p.cron_max_runs p.cron_runs
      then some (max_runs_reached p.cron_max_runs p.cron_runs)
      else none in
    elim p.cron_until [
      | none ↦ by_count
      | some until ↦ if leb until now then some (until_passed until) else by_count
    ]

-- CronExpired
unfoldable pub cron_expired : ℕ → Project → Bool
unfolding cron_stop_reason
cron_expired now p = is_some (cron_stop_reason now p)

-- CronUnbounded
unfoldable pub cron_unbounded : Project → Bool
cron_unbounded p = not (is_empty p.cron) && not (is_some p.cron_until) && p.cron_max_runs == 0

-- hasOpenPR
unfoldable pub has_open_pr : List PullRequest → Bool
has_open_pr prs =
    any (λ pr. not (str_eq pr.state (codes "merged")) && not (str_eq pr.state (codes "closed"))) prs

-- WatchingPR
unfoldable pub watching_pr : Project → Bool
unfolding status_eq has_open_pr
watching_pr p = if status_eq p.status merged then false else p.review || has_open_pr p.pull_requests

abbrev pub is_merged_pr : PullRequest → Bool
is_merged_pr pr = str_eq pr.state (codes "merged")

-- AllBranchesMerged. Its two sets are lists of keys. `to_lower` is exact on ASCII, which the names
-- of repositories are.
unfoldable pub all_branches_merged : Project → List Str → Bool
unfolding has_open_pr to_lower contains
all_branches_merged p repos_with_commits =
    let merged_keys = map (λ pr. to_lower pr.repo) (keep is_merged_pr p.pull_requests) in
    let counted = map (λ pr. to_lower pr.repo) p.pull_requests ++ map to_lower repos_with_commits in
    if length merged_keys == 0
    then false
    else if not (all (contains merged_keys) counted)
    then false
    else not (has_open_pr p.pull_requests)

-- What SaveAs writes; `none` is the refusal of an unknown writer.
unfoldable pub saved_as : Writer → Project → Option Project
unfolding valid_writer
saved_as by p = if valid_writer by then some (record p { updated_by = by }) else none
