-- ===== src/Taskgraph/Loaded.antt =====
-- The shape of a graph that Load returns (internal/taskgraph/graph.go): each task stands once,
-- under its own name.
use mathlib.Core.List.{Memᴰ}
use workingman.Prelude.{
  ◌≡◌, refl, ap, ◌∙◌, sym, true, false, ◌&&◌, ◌||◌, not, inl, inr, List, [], ◌∷◌, ◌++◌, map, Str,
  codes, str_eq, str_eq_iff, str_eq_refl, length, ◌==◌, is_empty, arith, if◌then◌else◌, Option,
  none, some, Assoc, get, put, has, get-put, Bool-cases, Option-cases,
}
use workingman.Policy.{is_blank}
use workingman.Task.{Task, valid_name_for, slugify_for}
use workingman.Taskgraph.{
  Graph, ok, err, out_of_fuel, bad_file, validate, Entry, Dir, missing, unreadable, entries,
  has_suffix, trim_suffix, dedupe_name, Loading, add_task, load_task, load_entries, rename_dep,
  rename_edges, empty_graph, load,
}
use workingman.Taskgraph.Sound.{>>=-eq-ok}

-- Each task stands under its own name, and no name stands twice.
pub IsIndexed : Assoc Task → Type 0
IsIndexed [] = Unit
IsIndexed ((k, t) ∷ m) = (t.name ≡ k) × (has m k ≡ false) × IsIndexed m

pub IsIndexed-name :
    (m : Assoc Task) (k : Str) (t : Task) → IsIndexed m → Memᴰ (k, t) m → t.name ≡ k
unfolding IsIndexed
IsIndexed-name [] k t h i = elim i [ ]
IsIndexed-name ((j, u) ∷ m) k t h (Memᴰ.head e) =
    ap (λ (x : Str × Task). x.1.name) e ∙ h.0 ∙ sym (ap (λ (x : Str × Task). x.0) e)
IsIndexed-name ((j, u) ∷ m) k t h (Memᴰ.tail i) = IsIndexed-name m k t h.2 i

pub get-mem : (m : Assoc Task) (k : Str) (t : Task) → get m k ≡ some t → Memᴰ (k, t) m
unfolding get
get-mem [] k t h = cc
get-mem ((j, u) ∷ m) k t h = elim (Bool-cases (str_eq j k)) [
  | inl e ↦
      let same : j ≡ k = (str_eq_iff j k).0 e in
      let task : u ≡ t = ground arith in Memᴰ.head (rw (same, task))
  | inr e ↦ Memᴰ.tail (get-mem m k t (rw (e, get) at h))
]

-- The entry that a map holds is the one that a lookup finds.
pub mem-get : (m : Assoc Task) (k : Str) (t : Task) → IsIndexed m → Memᴰ (k, t) m → get m k ≡ some t
unfolding IsIndexed get
mem-get [] k t h i = elim i [ ]
mem-get ((j, u) ∷ m) k t h (Memᴰ.head e) =
    let key : k ≡ j = ap (λ (x : Str × Task). x.0) e in
    let task : t ≡ u = ap (λ (x : Str × Task). x.1) e in
    rw (key, task) (ground (arith, str_eq_refl j))
mem-get ((j, u) ∷ m) k t h (Memᴰ.tail i) =
    let found = mem-get m k t h.2 i in ground (arith, found, h.1, str_eq_iff j k)

get-put-has :
    (m : Assoc Task) (k j : Str) (t : Task)
    → has (put m k t) j ≡ (if str_eq k j then true else has m j)
get-put-has m k j t = ground (arith, get-put m k j t)

put-IsIndexed :
    (m : Assoc Task) (k : Str) (t : Task)
    → t.name ≡ k
    → has m k ≡ false
    → IsIndexed m
    → IsIndexed (put m k t)
unfolding IsIndexed put get
put-IsIndexed [] k t e f h = (e, refl, tt)
put-IsIndexed ((j, u) ∷ m) k t e f h = elim (Bool-cases (str_eq j k)) [
  | inl same ↦ cc
  | inr other ↦ rw other (
    h.0,
    ground (arith, get-put-has m k j t, str_eq_iff k j, str_eq_iff j k, h.1),
    put-IsIndexed m k t e (ground arith) h.2,
  )
]

add_task-IsIndexed :
    (name : Str) (t : Task) (l l' : Loading)
    → t.name ≡ name
    → IsIndexed l.graph.tasks
    → add_task name t l ≡ ok l'
    → IsIndexed l'.graph.tasks
unfolding add_task
add_task-IsIndexed name t l l' e h q = elim (Bool-cases (has l.graph.tasks name)) [
  | inl dup ↦ absurd (ground arith)
  | inr new ↦
      let same : put l.graph.tasks name t ≡ l'.graph.tasks = ground arith in
      rw (← same) (put-IsIndexed l.graph.tasks name t e new h)
]

load_task-IsIndexed :
    (digest : Str → Str) (work_stream : Str) (e : Entry) (t : Task) (l l' : Loading)
    → IsIndexed l.graph.tasks
    → load_task digest work_stream e t l ≡ ok l'
    → IsIndexed l'.graph.tasks
unfolding load_task
load_task-IsIndexed digest work_stream e t l l' h q =
    elim (Bool-cases (is_empty t.name && not (is_blank t.description))) [
      | inl seed ↦ let same : l.graph.tasks ≡ l'.graph.tasks = ground arith in rw (← same) h
      | inr task ↦ elim (Bool-cases (valid_name_for t.name work_stream)) [
        | inl valid ↦ add_task-IsIndexed t.name t l l' refl h (rw (task, valid) at q)
        | inr invalid ↦
            repaired (dedupe_name slug l.graph.tasks work_stream) (rw (task, invalid) at q)
      ]
    ]
  where
    slug : Str
    slug =
        slugify_for digest (if is_empty t.name then trim_suffix (codes ".yaml") e.file else t.name)
          work_stream

    repaired :
        (o : Option Str)
        → (elim o [
          | none ↦ err out_of_fuel
          | some n ↦
              add_task n
                (record t { name = n })
                (record {
                  graph = record (l.graph) {
                    warnings =
                        l.graph.warnings
                        ++ record { file = e.file; original = t.name; repaired = n } ∷ [];
                  };
                  renamed = if is_empty t.name then l.renamed else put l.renamed t.name n;
                })
        ])
          ≡ ok l'
        → IsIndexed l'.graph.tasks
    repaired none p = cc
    repaired (some n) p = add_task-IsIndexed n (record t { name = n }) _ l' refl h p

load_entries-IsIndexed :
    (digest : Str → Str) (work_stream : Str) (es : List Entry) (l l' : Loading)
    → IsIndexed l.graph.tasks
    → load_entries digest work_stream es l ≡ ok l'
    → IsIndexed l'.graph.tasks
unfolding load_entries
load_entries-IsIndexed digest work_stream [] l l' h q =
    let same : l ≡ l' = ground arith in rw (← same) h
load_entries-IsIndexed digest work_stream (e ∷ es) l l' h q =
    elim (Bool-cases (e.is_dir || not (has_suffix (codes ".yaml") e.file))) [
      | inl skipped ↦
          load_entries-IsIndexed digest work_stream es l l' h (rw (skipped, load_entries) at q)
      | inr file ↦ elim (Option-cases e.parsed) [
        | inl bad ↦ absurd (read_bad (rw (file, bad, load_entries) at q))
        | inr (t, parsed) ↦
            let (l₁, first, rest) =
              >>=-eq-ok (load_task digest work_stream e t l) (load_entries digest work_stream es)
                (rw (file, parsed, load_entries) at q) in
            load_entries-IsIndexed digest work_stream es l₁ l'
              (load_task-IsIndexed digest work_stream e t l l₁ h first) rest
      ]
    ]
  where
    read_bad : {A : Type 0} {a : A} {f : Str} → ¬ (err (bad_file f) ≡ ok a)
    read_bad p = cc

-- The second loop keeps the keys and the names.
retarget : Assoc Str → Assoc (List Str) → Str × Task → Str × Task
retarget renamed deps e = (
  e.0,
  elim (get deps e.0) [
    | none ↦ e.1
    | some ds ↦ record (e.1) { depends_on = map (rename_dep renamed) ds }
  ],
)

has-retarget :
    (renamed : Assoc Str) (deps : Assoc (List Str)) (m : Assoc Task) (k : Str)
    → has (map (retarget renamed deps) m) k ≡ has m k
unfolding retarget get
has-retarget renamed deps [] k = refl
has-retarget renamed deps ((j, t) ∷ m) k = ground (arith, has-retarget renamed deps m k)

retarget-IsIndexed :
    (renamed : Assoc Str) (deps : Assoc (List Str)) (m : Assoc Task)
    → IsIndexed m
    → IsIndexed (map (retarget renamed deps) m)
unfolding IsIndexed retarget
retarget-IsIndexed renamed deps [] h = tt
retarget-IsIndexed renamed deps ((k, t) ∷ m) h =
    (ground arith, has-retarget renamed deps m k ∙ h.1, retarget-IsIndexed renamed deps m h.2)

rename_edges-IsIndexed :
    (renamed : Assoc Str) (g : Graph) → IsIndexed g.tasks → IsIndexed (rename_edges renamed g).tasks
unfolding rename_edges
rename_edges-IsIndexed renamed g h = elim (Bool-cases (length renamed == 0)) [
  | inl none_renamed ↦ rw none_renamed h
  | inr some_renamed ↦
      rw some_renamed (unfold retarget in retarget-IsIndexed renamed g.deps g.tasks h)
]

-- A graph that Load returns passes validation, and each of its tasks stands once, under its name.
pub load-IsIndexed :
    (digest : Str → Str) (work_stream dir : Str) (files : Dir) (g : Graph)
    → load digest work_stream dir files ≡ ok g
    → IsIndexed g.tasks × (validate g ≡ ok tt)
unfolding load
load-IsIndexed digest work_stream dir missing g h =
    let same : empty_graph dir ≡ g = ground arith in
    rw (← same) (unfold IsIndexed in tt, unfold validate in refl)
load-IsIndexed digest work_stream dir unreadable g h = cc
load-IsIndexed digest work_stream dir (entries es) g h =
    let (l, read, rest) = >>=-eq-ok (load_entries digest work_stream es _) _ h in
    let renamed : Graph = rename_edges l.renamed l.graph in
    let (u, valid, last) = >>=-eq-ok (validate renamed) (λ _. ok renamed) rest in
    let same : renamed ≡ g = ground arith in
    let nothing : IsIndexed [] = unfold IsIndexed in tt in
    let indexed : IsIndexed l.graph.tasks =
      load_entries-IsIndexed digest work_stream es _ l nothing read in
    rw (← same) (rename_edges-IsIndexed l.renamed l.graph indexed, valid)
