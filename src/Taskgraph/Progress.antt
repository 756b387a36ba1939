-- ===== src/Taskgraph/Progress.antt =====
-- What Ready offers (internal/taskgraph/graph.go), and why a loaded graph never strands: the
-- theorem behind the daemon's choice of the next task.
use mathlib.Core.WellFounded.{Acc}
use mathlib.Core.List.{Memᴰ}
use workingman.Prelude.{
  ◌<◌, ◌≡◌, refl, ap, Bool, true, false, inl, inr, List, [], ◌∷◌, map, Str, length, arith, some,
  Assoc, get, has, Bool-cases, Option-cases, all, all_at, all_of, keep,
}
use workingman.Task.{Task, Status, committed, status_eq}
use workingman.Taskgraph.{
  Graph, ok, Dir, load, names, deps_of, is_committed, deps_committed, sorted_tasks, sort_entries,
  insert_entry, str_lt, ready, all_committed,
}
use workingman.Taskgraph.Sound.{DependsOn, IsGrounded, validate-IsGrounded}
use workingman.Taskgraph.Loaded.{IsIndexed, IsIndexed-name, get-mem, mem-get, load-IsIndexed}

module _ {ℓ} {A : Type ℓ} where
  all-false : (p : A → Bool) (xs : List A) → all p xs ≡ false → (x : A) × Memᴰ x xs × (p x ≡ false)
  all-false p [] h = cc
  all-false p (x ∷ xs) h = elim (Bool-cases (p x)) [
    | inl e ↦ let (y, m, f) = all-false p xs (rw e at h) in (y, Memᴰ.tail m, f)
    | inr e ↦ (x, Memᴰ.head refl, e)
  ]

  keep-mem : (p : A → Bool) (xs : List A) {x : A} → Memᴰ x xs → p x ≡ true → Memᴰ x (keep p xs)
  keep-mem p [] m h = elim m [ ]
  keep-mem p (y ∷ ys) (Memᴰ.head e) h = rw (← e) (rw (h, keep) (Memᴰ.head refl))
  keep-mem p (y ∷ ys) (Memᴰ.tail m) h = elim (Bool-cases (p y)) [
    | inl e ↦ rw (e, keep) (Memᴰ.tail (keep-mem p ys m h))
    | inr e ↦ rw (e, keep) (keep-mem p ys m h)
  ]

  mem-keep : (p : A → Bool) (xs : List A) {x : A} → Memᴰ x (keep p xs) → Memᴰ x xs × (p x ≡ true)
  mem-keep p [] m = elim m [ ]
  mem-keep p (y ∷ ys) {x} m = elim (Bool-cases (p y)) [
    | inl e ↦ kept e (mem-keep p ys) (rw (e, keep) at m)
    | inr e ↦ let (i, h) = mem-keep p ys (rw (e, keep) at m) in (Memᴰ.tail i, h)
  ]
    where
      kept :
          p y ≡ true
          → (Memᴰ x (keep p ys) → Memᴰ x ys × (p x ≡ true))
          → Memᴰ x (y ∷ keep p ys)
          → Memᴰ x (y ∷ ys) × (p x ≡ true)
      kept e rest (Memᴰ.head q) = (Memᴰ.head q, rw q e)
      kept e rest (Memᴰ.tail i) = let (j, h) = rest i in (Memᴰ.tail j, h)

module _ {V : Type 0} where
  swap_head : {f e d : Str × V} {m : Assoc V} → Memᴰ f (e ∷ d ∷ m) → Memᴰ f (d ∷ e ∷ m)
  swap_head (Memᴰ.head p) = Memᴰ.tail (Memᴰ.head p)
  swap_head (Memᴰ.tail (Memᴰ.head p)) = Memᴰ.head p
  swap_head (Memᴰ.tail (Memᴰ.tail i)) = Memᴰ.tail (Memᴰ.tail i)

  under_head :
      {f d : Str × V} {m n : Assoc V} → (Memᴰ f m → Memᴰ f n) → Memᴰ f (d ∷ m) → Memᴰ f (d ∷ n)
  under_head g (Memᴰ.head p) = Memᴰ.head p
  under_head g (Memᴰ.tail i) = Memᴰ.tail (g i)

  insert_entry-mem :
      (k : Str) (v : V) (f : Str × V) (m : Assoc V)
      → (Memᴰ f ((k, v) ∷ m) → Memᴰ f (insert_entry (k, v) m))
        × (Memᴰ f (insert_entry (k, v) m) → Memᴰ f ((k, v) ∷ m))
  unfolding insert_entry
  insert_entry-mem k v f [] = (λ i. i, λ i. i)
  insert_entry-mem k v f ((j, w) ∷ m) = elim (Bool-cases (str_lt k j)) [
    | inl e ↦ rw (e, insert_entry) (λ i. i, λ i. i)
    | inr e ↦
        let (into, out) = insert_entry-mem k v f m in
        rw (e, insert_entry) (λ i. under_head into (swap_head i), λ i. swap_head (under_head out i))
  ]

  sort_entries-mem :
      (f : Str × V) (m : Assoc V)
      → (Memᴰ f m → Memᴰ f (sort_entries m)) × (Memᴰ f (sort_entries m) → Memᴰ f m)
  unfolding sort_entries
  sort_entries-mem f [] = (λ i. i, λ i. i)
  sort_entries-mem f ((k, v) ∷ m) =
      let (into, out) = sort_entries-mem f m in
      let (put_in, taken) = insert_entry-mem k v f (sort_entries m) in
      (λ i. put_in (under_head into i), λ i. under_head out (taken i))

  values-mem : (k : Str) (v : V) (m : Assoc V) → Memᴰ (k, v) m → Memᴰ v (map (λ e. e.1) m)
  values-mem k v (e ∷ m) (Memᴰ.head p) = Memᴰ.head (ap (λ x. x.1) p)
  values-mem k v (e ∷ m) (Memᴰ.tail i) = Memᴰ.tail (values-mem k v m i)
  values-mem k v [] i = elim i [ ]

  mem-values : (v : V) (m : Assoc V) → Memᴰ v (map (λ e. e.1) m) → (k : Str) × Memᴰ (k, v) m
  mem-values v [] i = elim i [ ]
  mem-values v ((k, w) ∷ m) (Memᴰ.head p) = (k, Memᴰ.head (rw p))
  mem-values v (e ∷ m) (Memᴰ.tail i) = let (k, j) = mem-values v m i in (k, Memᴰ.tail j)

-- The tasks that Tasks lists are those of the map.
pub sorted_tasks-mem :
    (g : Graph) (k : Str) (t : Task) → Memᴰ (k, t) g.tasks → Memᴰ t (sorted_tasks g)
unfolding sorted_tasks
sorted_tasks-mem g k t i =
    values-mem k t (sort_entries g.tasks) ((sort_entries-mem (k, t) g.tasks).0 i)

mem-sorted_tasks :
    (g : Graph) (t : Task) → Memᴰ t (sorted_tasks g) → (k : Str) × Memᴰ (k, t) g.tasks
unfolding sorted_tasks
mem-sorted_tasks g t i =
    let (k, j) = mem-values t (sort_entries g.tasks) i in (k, (sort_entries-mem (k, t) g.tasks).1 j)

-- A task of the map that is `ready`, each of whose dependencies names a committed task of the map.
pub record IsReady (g : Graph) (t : Task) : Type 0 where
  pub listed : (k : Str) × Memᴰ (k, t) g.tasks
  pub waits : t.status ≡ Status.ready
  pub done :
      (d : Str)
      → Memᴰ d (deps_of g.deps t.name)
      → (u : Task) × (get g.tasks d ≡ some u) × (u.status ≡ committed)

-- depsCommitted, read off the map.
deps_committed-at :
    (g : Graph) (n : Str)
    → deps_committed g n ≡ true
    → (d : Str) → Memᴰ d (deps_of g.deps n)
    → (u : Task) × (get g.tasks d ≡ some u) × (u.status ≡ committed)
unfolding deps_committed
deps_committed-at g n h d m =
    let c = all_at (is_committed g.tasks) (deps_of g.deps n) h m in
    elim (Option-cases (get g.tasks d)) [
      | inl absent ↦ absurd (ground (arith, c, absent))
      | inr (u, found) ↦ (u, found, ground (arith, c, found))
    ]

-- Ready offers exactly the tasks of the graph's map whose status is `ready` and each of whose
-- dependencies is the name of a committed task of the map.
pub ready-mem :
    (g : Graph) (t : Task) → (Memᴰ t (ready g) → IsReady g t) × (IsReady g t → Memᴰ t (ready g))
unfolding ready deps_committed
ready-mem g t = (
  λ i.
      let (j, h) = mem-keep _ (sorted_tasks g) i in
      record {
        listed = mem-sorted_tasks g t j;
        waits = ground arith;
        done = deps_committed-at g t.name (ground arith);
      },
  λ r.
      let (k, i) = r.listed in
      let s = r.waits in
      let d =
        all_of (is_committed g.tasks) (deps_of g.deps t.name)
          (λ x m. let (u, found, c) = r.done x m in ground (arith, found, c)) in
      keep-mem _ (sorted_tasks g) (sorted_tasks-mem g k t i) (ground arith),
)

-- A task that is not committed although all of its dependencies are.
pub record IsNext (g : Graph) (t : Task) : Type 0 where
  pub listed : Memᴰ t (sorted_tasks g)
  pub open_task : status_eq t.status committed ≡ false
  pub unblocked : deps_committed g t.name ≡ true

module _ (g : Graph) (indexed : IsIndexed g.tasks)
    (known : (n d : Str) → DependsOn g.deps d n → has g.tasks d ≡ true) where
  IsNext-of :
      (n : Str) (t : Task)
      → get g.tasks n ≡ some t
      → is_committed g.tasks n ≡ false
      → deps_committed g n ≡ true
      → IsNext g t
  IsNext-of n t found u d =
      let i = get-mem g.tasks n t found in
      record {
        listed = sorted_tasks-mem g n t i;
        open_task = ground (arith, found, u);
        unblocked = rw (IsIndexed-name g.tasks n t indexed i) d;
      }

  IsNext-from :
      (n : Str)
      → IsGrounded g.deps n
      → has g.tasks n ≡ true
      → is_committed g.tasks n ≡ false
      → (t : Task) × IsNext g t
  IsNext-from n (Acc.intro _ smaller) h u = elim (Option-cases (get g.tasks n)) [
    | inl absent ↦ absurd (ground arith)
    | inr (t, found) ↦ elim (Bool-cases (deps_committed g n)) [
      | inl d ↦ (t, IsNext-of n t found u d)
      | inr d ↦
          let (x, m, f) =
            all-false (is_committed g.tasks) (deps_of g.deps n) (unfold deps_committed in d) in
          IsNext-from x (smaller x m) (known n x m) f
    ]
  ]

-- A graph with some task that Load returns does not strand: unless every task is committed, some
-- task that is not has only committed dependencies, and Ready offers it if its status is `ready`.
pub load-IsNext :
    (digest : Str → Str) (work_stream dir : Str) (files : Dir) (g : Graph)
    → load digest work_stream dir files ≡ ok g
    → 0 < length g.tasks
    → all_committed g ≡ false
    → (t : Task) × IsNext g t × (t.status ≡ Status.ready → Memᴰ t (ready g))
load-IsNext digest work_stream dir files g h nonempty u =
    let (indexed, valid) = load-IsIndexed digest work_stream dir files g h in
    let (known, grounded) = validate-IsGrounded g valid in
    let ((k, t), i, f) = all-false _ g.tasks (uncommitted u) in
    let found = mem-get g.tasks k t indexed i in
    let (next, is_next) =
      IsNext-from g indexed known k (grounded k (entry-mem k t g.tasks i)) (ground (arith, found))
        (ground (arith, found, f)) in
    (
      next,
      is_next,
      λ r. (ready-mem g next).1 (record {
        listed = mem-sorted_tasks g next is_next.listed;
        waits = r;
        done = deps_committed-at g next.name is_next.unblocked;
      }),
    )
  where
    uncommitted :
        all_committed g ≡ false → all (λ e. status_eq e.1.status committed) g.tasks ≡ false
    uncommitted a = unfold all_committed in ground arith

    entry-mem : (k : Str) (t : Task) (m : Assoc Task) → Memᴰ (k, t) m → Memᴰ k (names m)
    entry-mem k t [] i = elim i [ ]
    entry-mem k t (e ∷ m) (Memᴰ.head p) = Memᴰ.head (ap (λ x. x.0) p)
    entry-mem k t (e ∷ m) (Memᴰ.tail i) = Memᴰ.tail (entry-mem k t m i)
