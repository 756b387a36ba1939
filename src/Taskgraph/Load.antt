-- ===== src/Taskgraph/Load.antt =====
-- Load and dedupeName of internal/taskgraph/graph.go.
use workingman.Prelude.{
  ℕ, zero, suc, ◌+◌, ◌-◌, Bool, true, false, ◌&&◌, ◌||◌, not, List, [], ◌∷◌, ◌++◌, map, Str, codes,
  str_eq, length, take, leb, ltb, ◌==◌, is_empty, if◌then◌else◌, Option, none, some, Assoc, get,
  put, has,
}
use Prim.Native.Nat.{◌/◌, ◌%◌}
use workingman.Policy.{is_blank}
use workingman.Task.{Task, valid_name_for, slugify_for, max_name_len_for}
use workingman.Taskgraph.Defs.{
  Graph, Result, ok, err, unreadable_dir, bad_file, duplicate, out_of_fuel, ◌>>=◌, ◌>>◌, validate,
}

-- One entry of os.ReadDir, with what task.Load returns for it (`none` is an error).
pub record Entry : Type 0 where
  pub file : Str
  pub is_dir : Bool
  pub parsed : Option Task

-- What os.ReadDir finds.
pub data Dir : Type 0 where
  missing : Dir
  unreadable : Dir
  entries : List Entry → Dir

-- strings.HasSuffix and strings.TrimSuffix.
unfoldable pub has_suffix : Str → Str → Bool
has_suffix suffix [] = is_empty suffix
has_suffix suffix (c ∷ s) = str_eq (c ∷ s) suffix || has_suffix suffix s

unfoldable pub trim_suffix : Str → Str → Str
trim_suffix suffix [] = []
trim_suffix suffix (c ∷ s) =
    let rest = c ∷ trim_suffix suffix s in if str_eq (c ∷ s) suffix then [] else rest

-- Decimal digits (`%d`), on fuel that bounds the number.
unfoldable pub digits : ℕ → ℕ → Str
digits zero n = []
digits (suc fuel) n =
    let rest = digits fuel (n / 10) ++ (48 + n % 10) ∷ [] in
    if ltb n 10 then (48 + n) ∷ [] else rest

unfoldable pub show_nat : ℕ → Str
unfolding digits
show_nat n = digits (suc n) n

-- The candidate of round `i` of dedupeName.
unfoldable pub candidate : Str → ℕ → ℕ → Str
unfolding show_nat
candidate name budget i =
    let suffix = b'-' ∷ show_nat i in
    let over = length name + length suffix - budget in
    (if ltb 0 over
      then (if leb (length name) over then [] else take (length name - over) name)
      else name)
    ++ suffix

-- The loop of dedupeName, on fuel; see `Taskgraph.Dedupe` for why it never runs out.
unfoldable pub first_free : Assoc Task → Str → ℕ → ℕ → ℕ → Option Str
first_free tasks name budget zero i = none
first_free tasks name budget (suc fuel) i =
    let rest = first_free tasks name budget fuel (suc i) in
    if has tasks (candidate name budget i) then rest else some (candidate name budget i)

-- dedupeName
unfoldable pub dedupe_name : Str → Assoc Task → Str → Option Str
dedupe_name name tasks work_stream =
    if has tasks name
    then first_free tasks name (max_name_len_for work_stream) (suc (length tasks)) 2
    else some name

pub record Loading : Type 0 where
  pub graph : Graph
  pub renamed : Assoc Str

-- The last lines of the loop: a task under its final name.
unfoldable pub add_task : Str → Task → Loading → Result Loading
unfolding get put
add_task name t l =
    if has l.graph.tasks name
    then err (duplicate name)
    else ok (record l {
      graph = record (l.graph) {
        tasks = put l.graph.tasks name t;
        deps = put l.graph.deps name t.depends_on;
      };
    })

module _ (digest : Str → Str) (work_stream : Str) where
  -- The body of the loop for a file that parsed.
  unfoldable pub load_task : Entry → Task → Loading → Result Loading
  unfolding is_blank valid_name_for slugify_for dedupe_name first_free candidate add_task
      trim_suffix
  load_task e t l =
      if is_empty t.name && not (is_blank t.description)
      then ok (record l { graph = record (l.graph) { seeds = l.graph.seeds + 1 } })
      else if valid_name_for t.name work_stream
      then add_task t.name t l
      else let slug =
          slugify_for digest
            (if is_empty t.name then trim_suffix (codes ".yaml") e.file else t.name) work_stream in
        elim (dedupe_name slug l.graph.tasks work_stream) [
          | none ↦ err out_of_fuel
          | some repaired ↦
              add_task repaired (record t { name = repaired })
                (record {
                  graph = record (l.graph) {
                    warnings =
                        l.graph.warnings
                        ++ record { file = e.file; original = t.name; repaired = repaired } ∷ [];
                  };
                  renamed = if is_empty t.name then l.renamed else put l.renamed t.name repaired;
                })
        ]

  -- The loop over the directory's entries.
  unfoldable pub load_entries : List Entry → Loading → Result Loading
  unfolding load_task has_suffix
  load_entries [] l = ok l
  load_entries (e ∷ es) l = elim (e.is_dir || not (has_suffix (codes ".yaml") e.file)) [
    | true ↦ load_entries es l
    | false ↦ elim e.parsed [
      | none ↦ err (bad_file e.file)
      | some t ↦ load_task e t l >>= λ l'. load_entries es l'
    ]
  ]

-- A dependency after the repairs.
abbrev pub rename_dep : Assoc Str → Str → Str
rename_dep renamed dep = elim (get renamed dep) [ none ↦ dep | some to ↦ to ]

-- The loop that carries the repairs into the edges.
unfoldable pub rename_edges : Assoc Str → Graph → Graph
unfolding get put
rename_edges renamed g = if length renamed == 0 then g else record g {
  deps = map (λ e. (e.0, map (rename_dep renamed) e.1)) g.deps;
  tasks =
      map
        (λ e. (
          e.0,
          elim (get g.deps e.0) [
            | none ↦ e.1
            | some ds ↦ record (e.1) { depends_on = map (rename_dep renamed) ds }
          ],
        ))
        g.tasks;
}

abbrev pub empty_graph : Str → Graph
empty_graph dir = record { dir = dir; tasks = []; deps = []; warnings = []; seeds = 0 }

-- Load. `work_stream` is the base name of the directory above `dir`.
unfoldable pub load : (Str → Str) → Str → Str → Dir → Result Graph
unfolding load_entries rename_edges validate
load digest work_stream dir missing = ok (empty_graph dir)
load digest work_stream dir unreadable = err unreadable_dir
load digest work_stream dir (entries es) = do
  l ← load_entries digest work_stream es (record { graph = empty_graph dir; renamed = [] })
  let g = rename_edges l.renamed l.graph
  validate g
  ok g
