-- ===== src/Taskgraph/Samples.antt =====
-- Tests of the graph, on two directories of task files.
use mathlib.Core.List.{Memᴰ}
use workingman.Prelude.{
  ℕ, ◌≡◌, ◌⊎◌, refl, arith, true, false, none, some, [], ◌∷◌, List, Str, codes, str_eq, has,
}
use workingman.Sbx.Samples.{sample_digest}
use workingman.Task.{Task, Status, ready, committed, max_name_len_for}
use workingman.Taskgraph.{
  Graph, Entry, Dir, entries, Error, ok, err, load, validate, names, all_committed, dedupe_name,
  candidate,
}
use workingman.Taskgraph
use workingman.Taskgraph.Sound.{DependsOn, IsGrounded, validate-IsGrounded}
use workingman.Taskgraph.Verdict.{Rejects, validate-Rejects}
use workingman.Taskgraph.Loaded.{IsIndexed, load-IsIndexed}
use workingman.Taskgraph.Progress.{IsNext, IsReady, load-IsNext, ready-mem}
use workingman.Taskgraph.Dedupe.{dedupe_name-fresh}

abbrev pub sample_task : Str → List Str → Status → Task
sample_task name deps status = record {
  name = name;
  description = codes "work";
  depends_on = deps;
  status = status;
  attempts = 0;
  failure_reason = [];
  blocked_reason = [];
  summary = [];
  commits = [];
  created_files = [];
  completed_at = none;
  static_mcps = [];
  policies = [];
  save_sandbox = false;
  model = [];
  source = none;
  path = name;
}

abbrev file : Str → Task → Entry
file name t = record { file = name; is_dir = false; parsed = some t }

-- A committed task, and one that depends on it.
abbrev pub sample_dir : Dir
sample_dir = entries (
    file (codes "a.yaml") (sample_task (codes "a") [] committed)
    ∷ file (codes "b.yaml") (sample_task (codes "b") (codes "a" ∷ []) ready)
    ∷ [])

abbrev stream : Str
stream = codes "orch-s"

abbrev task_a : Task
task_a = sample_task (codes "a") [] committed

abbrev task_b : Task
task_b = sample_task (codes "b") (codes "a" ∷ []) ready

abbrev pub sample_graph : Graph
sample_graph = record {
  dir = codes "t";
  tasks = (codes "a", task_a) ∷ (codes "b", task_b) ∷ [];
  deps = (codes "a", []) ∷ (codes "b", codes "a" ∷ []) ∷ [];
  warnings = [];
  seeds = 0;
}

pub sample_loads : load sample_digest stream (codes "t") sample_dir ≡ ok sample_graph
unfolding load str_eq
sample_loads = refl

sample_valid : validate sample_graph ≡ ok tt
unfolding validate str_eq
sample_valid = refl

validate-IsGrounded_example :
    ((n d : Str) → DependsOn sample_graph.deps d n → has sample_graph.tasks d ≡ true)
    × ((n : Str) → Memᴰ n (names sample_graph.tasks) → IsGrounded sample_graph.deps n)
validate-IsGrounded_example = validate-IsGrounded sample_graph sample_valid

-- A graph with a cycle.
abbrev loop_graph : Graph
loop_graph = record sample_graph {
  deps = (codes "a", codes "b" ∷ []) ∷ (codes "b", codes "a" ∷ []) ∷ [];
}

loop_invalid : validate loop_graph ≡ err (Taskgraph.cycle (codes "a" ∷ codes "b" ∷ codes "a" ∷ []))
unfolding validate str_eq
loop_invalid = refl

validate-Rejects_example :
    Rejects loop_graph (Taskgraph.cycle (codes "a" ∷ codes "b" ∷ codes "a" ∷ []))
validate-Rejects_example =
    validate-Rejects loop_graph (Taskgraph.cycle (codes "a" ∷ codes "b" ∷ codes "a" ∷ []))
      loop_invalid

load-IsIndexed_example : IsIndexed sample_graph.tasks × (validate sample_graph ≡ ok tt)
load-IsIndexed_example =
    load-IsIndexed sample_digest stream (codes "t") sample_dir sample_graph sample_loads

sample_open : all_committed sample_graph ≡ false
unfolding all_committed
sample_open = refl

load-IsNext_example :
    (t : Task) × IsNext sample_graph t × (t.status ≡ ready → Memᴰ t (Taskgraph.ready sample_graph))
load-IsNext_example =
    load-IsNext sample_digest stream (codes "t") sample_dir sample_graph sample_loads (omega arith)
      sample_open

ready-mem_example :
    (Memᴰ task_b (Taskgraph.ready sample_graph) → IsReady sample_graph task_b)
    × (IsReady sample_graph task_b → Memᴰ task_b (Taskgraph.ready sample_graph))
ready-mem_example = ready-mem sample_graph task_b

dedupe_name-fresh_example :
    (s : Str) × (dedupe_name (codes "a") sample_graph.tasks stream ≡ some s)
    × (has sample_graph.tasks s ≡ false)
    × ((s ≡ codes "a") ⊎ ((j : ℕ) × (s ≡ candidate (codes "a") (max_name_len_for stream) j)))
dedupe_name-fresh_example = dedupe_name-fresh (codes "a") sample_graph.tasks stream
