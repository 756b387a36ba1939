-- ===== src/Taskgraph/Defs.antt =====
-- The graph of internal/taskgraph/graph.go, its queries and its validation.
use workingman.Prelude.{
  ℕ, zero, suc, Bool, true, false, ◌&&◌, ◌||◌, List, [], ◌∷◌, ◌++◌, map, Str, str_eq, length, ltb,
  ◌==◌, all, keep, if◌then◌else◌, none, some, Assoc, get, put, has,
}
use workingman.Task.{Task, Status, committed, status_eq}

-- What `Warnings` reports of one repaired name.
pub record Repair : Type 0 where
  pub file : Str
  pub original : Str
  pub repaired : Str

pub record Graph : Type 0 where
  pub dir : Str
  pub tasks : Assoc Task
  pub deps : Assoc (List Str)
  pub warnings : List Repair
  pub seeds : ℕ

pub data Error : Type 0 where
  unreadable_dir : Error
  bad_file : Str → Error
  duplicate : Str → Error
  unknown_dependency : Str → Str → Error
  cycle : List Str → Error
  out_of_fuel : Error

pub data Result (A : Type 0) : Type 0 where
  ok : A → Result A
  err : Error → Result A

infixl 5 ◌>>=◌ ◌>>◌
abbrev pub ◌>>=◌ : {A B : Type 0} → Result A → (A → Result B) → Result B
ok a >>= f = f a
err e >>= f = err e

abbrev pub ◌>>◌ : {A B : Type 0} → Result A → Result B → Result B
m >> k = m >>= λ _. k

-- a < b on strings, byte by byte.
unfoldable pub str_lt : Str → Str → Bool
str_lt [] [] = false
str_lt [] (b ∷ bs) = true
str_lt (a ∷ as') [] = false
str_lt (a ∷ as') (b ∷ bs) = ltb a b || a == b && str_lt as' bs

-- sort.Strings, on the entries of a map by their keys.
unfoldable pub insert_entry : {V : Type 0} → Str × V → Assoc V → Assoc V
insert_entry e [] = e ∷ []
insert_entry (k, v) ((j, w) ∷ m) =
    if str_lt k j then (k, v) ∷ (j, w) ∷ m else (j, w) ∷ insert_entry (k, v) m

unfoldable pub sort_entries : {V : Type 0} → Assoc V → Assoc V
unfolding insert_entry str_lt
sort_entries [] = []
sort_entries (e ∷ m) = insert_entry e (sort_entries m)

-- g.deps[name]
abbrev pub deps_of : Assoc (List Str) → Str → List Str
deps_of deps name = elim (get deps name) [ none ↦ [] | some ds ↦ ds ]

-- Graph.Tasks
unfoldable pub sorted_tasks : Graph → List Task
unfolding sort_entries
sorted_tasks g = map (λ e. e.1) (sort_entries g.tasks)

-- The status test of depsCommitted on one name. Validation has made sure that the name exists.
abbrev pub is_committed : Assoc Task → Str → Bool
is_committed tasks name = elim (get tasks name) [
  | none ↦ false
  | some t ↦ status_eq t.status committed
]

-- Graph.depsCommitted
unfoldable pub deps_committed : Graph → Str → Bool
unfolding status_eq get
deps_committed g name = all (is_committed g.tasks) (deps_of g.deps name)

-- Graph.Ready
unfoldable pub ready : Graph → List Task
unfolding deps_committed sorted_tasks
ready g = keep (λ t. status_eq t.status Status.ready && deps_committed g t.name) (sorted_tasks g)

-- Graph.AllCommitted
unfoldable pub all_committed : Graph → Bool
unfolding status_eq
all_committed g =
    if length g.tasks == 0 then false else all (λ e. status_eq e.1.status committed) g.tasks

-- Graph.Empty
unfoldable pub empty : Graph → Bool
empty g = length g.tasks == 0

-- Graph.HasPendingSeed
unfoldable pub has_pending_seed : Graph → Bool
has_pending_seed g = ltb 0 g.seeds

-- The first loop of validate.
unfoldable pub check_deps : Assoc Task → Str → List Str → Result (Unit {0})
check_deps tasks name [] = ok tt
check_deps tasks name (d ∷ ds) =
    if has tasks d then check_deps tasks name ds else err (unknown_dependency name d)

unfoldable pub check_all_deps : Assoc Task → Assoc (List Str) → Result (Unit {0})
unfolding check_deps get
check_all_deps tasks [] = ok tt
check_all_deps tasks ((name, ds) ∷ rest) = check_deps tasks name ds >> check_all_deps tasks rest

pub data Color : Type 0 where
  white gray black : Color

abbrev pub color_of : Assoc Color → Str → Color
color_of c name = elim (get c name) [ none ↦ white | some k ↦ k ]

-- formatCycle: the part of the path from the node that closes the cycle, and that node again.
unfoldable pub format_cycle : List Str → Str → List Str
format_cycle [] closer = closer ∷ []
format_cycle (n ∷ path) closer =
    if str_eq n closer then (n ∷ path) ++ closer ∷ [] else format_cycle path closer

-- The `for` loop over the dependencies inside `visit`.
unfoldable pub visit_each :
    (Str → Assoc Color → Result (Assoc Color)) → List Str → Assoc Color → Result (Assoc Color)
visit_each visit [] c = ok c
visit_each visit (d ∷ ds) c = do c' ← visit d c; visit_each visit ds c'

-- The closure `visit`, with the colours passed along and fuel for its depth.
unfoldable pub visit : Assoc (List Str) → ℕ → List Str → Str → Assoc Color → Result (Assoc Color)
unfolding visit_each format_cycle get put
visit deps zero path name c = err out_of_fuel
visit deps (suc fuel) path name c = elim (color_of c name) [
  | gray ↦ err (cycle (format_cycle path name))
  | black ↦ ok c
  | white ↦ do
    c' ← visit_each (visit deps fuel (path ++ name ∷ [])) (deps_of deps name) (put c name gray)
    ok (put c' name black)
]

-- The last loop of validate. A node that is not white has been visited already.
unfoldable pub visit_roots : Assoc (List Str) → ℕ → List Str → Assoc Color → Result (Assoc Color)
unfolding visit
visit_roots deps fuel [] c = ok c
visit_roots deps fuel (n ∷ ns) c = elim (color_of c n) [
  | white ↦ do c' ← visit deps fuel [] n c; visit_roots deps fuel ns c'
  | _ ↦ visit_roots deps fuel ns c
]

abbrev pub names : {V : Type 0} → Assoc V → List Str
names m = map (λ e. e.0) m

-- Graph.validate. The depth of `visit` is at most the number of tasks, see `Taskgraph.Fuel`.
unfoldable pub validate : Graph → Result (Unit {0})
unfolding check_all_deps visit_roots
validate g = do
  check_all_deps g.tasks g.deps
  visit_roots g.deps (suc (length g.tasks)) (names g.tasks) []
  ok tt
