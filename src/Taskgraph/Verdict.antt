-- ===== src/Taskgraph/Verdict.antt =====
-- `validate` (internal/taskgraph/graph.go) decides whether a graph is well founded: what each of
-- its errors means, and that the model's own error does not occur.
use mathlib.Core.List.{Memᴰ}
use workingman.Prelude.{
  ℕ, suc, ◌≡◌, refl, sym, ap, ◌∙◌, subst, true, false, List, [], ◌∷◌, Str, length, arith, str_eq,
  str_eq_iff, Assoc, get, has, Bool-cases, inl, inr,
}
use workingman.Task.{Task}
use workingman.Taskgraph.{
  Graph, Result, ok, err, Error, unreadable_dir, bad_file, duplicate, unknown_dependency, cycle,
  out_of_fuel, names, Color, visit_roots, check_deps, check_all_deps, validate, ◌>>=◌, ◌>>◌,
}
use workingman.Taskgraph.Sound.{check_all_deps-has, color_of-nil}
use workingman.Taskgraph.Cycle.{HasCycle, Fails, roots-Fails}
use workingman.Taskgraph.Fuel.{roots_fueled, whites-nil}

-- The dependency that the first loop complains of.
check_deps-Rejects :
    (tasks : Assoc Task) (name : Str) (ds : List Str) (e : Error)
    → check_deps tasks name ds ≡ err e
    → (d : Str) × (e ≡ unknown_dependency name d) × Memᴰ d ds × (has tasks d ≡ false)
unfolding check_deps
check_deps-Rejects tasks name [] e h = cc
check_deps-Rejects tasks name (d ∷ ds) e h = elim (Bool-cases (has tasks d)) [
  | inl there ↦
      let (x, p, i, f) = check_deps-Rejects tasks name ds e (ground arith) in (x, p, Memᴰ.tail i, f)
  | inr absent ↦ (d, ground arith, Memᴰ.head refl, absent)
]

-- What each error of validate means: the dependency stands in the graph and the task does not
-- exist, or there is a cycle. The model's own error is excluded.
abbrev pub Rejects : Graph → Error → Type 0
Rejects g (unknown_dependency n d) =
    (ds : List Str) × Memᴰ (n, ds) g.deps × Memᴰ d ds × (has g.tasks d ≡ false)
Rejects g (cycle path) = HasCycle g.deps
Rejects g _ = ⊥

check_all_deps-Rejects :
    (tasks : Assoc Task) (deps : Assoc (List Str)) (e : Error)
    → check_all_deps tasks deps ≡ err e
    → (n d : Str) × (e ≡ unknown_dependency n d)
      × ((ds : List Str) × Memᴰ (n, ds) deps × Memᴰ d ds × (has tasks d ≡ false))
unfolding check_all_deps
check_all_deps-Rejects tasks [] e h = cc
check_all_deps-Rejects tasks ((n, ds) ∷ deps) e h =
    go (check_all_deps-Rejects tasks deps) (check_deps tasks n ds) refl h
  where
    Found : Assoc (List Str) → Error → Type 0
    Found m x =
        (a d : Str) × (x ≡ unknown_dependency a d)
        × ((es : List Str) × Memᴰ (a, es) m × Memᴰ d es × (has tasks d ≡ false))

    go :
        ((x : Error) → check_all_deps tasks deps ≡ err x → Found deps x)
        → (r : Result (Unit {0})) → check_deps tasks n ds ≡ r
        → (r >>= λ _. check_all_deps tasks deps) ≡ err e
        → Found ((n, ds) ∷ deps) e
    go rest (ok u) p q =
        let (a, d, x, (es, i, j, f)) = rest e q in (a, d, x, (es, Memᴰ.tail i, j, f))
    go rest (err x) p q =
        let (d, y, i, f) = check_deps-Rejects tasks n ds e (p ∙ q) in
        (n, d, y, (ds, Memᴰ.head refl, i, f))

has-names : (tasks : Assoc Task) (d : Str) → has tasks d ≡ true → Memᴰ d (names tasks)
unfolding get
has-names [] d h = cc
has-names ((k, t) ∷ m) d h = elim (Bool-cases (str_eq k d)) [
  | inl e ↦ Memᴰ.head (sym ((str_eq_iff k d).0 e))
  | inr e ↦ Memᴰ.tail (has-names m d (rw (e, get) at h))
]

length-names : (tasks : Assoc Task) → length (names tasks) ≡ length tasks
length-names [] = refl
length-names (e ∷ m) = ap suc (length-names m)

-- Every error of validate is justified: an unknown dependency is one that a task of the graph
-- names and no task bears, and after a cycle error there is a task that depends on itself through
-- others. The search never runs out of fuel.
pub validate-Rejects : (g : Graph) (e : Error) → validate g ≡ err e → Rejects g e
unfolding validate
validate-Rejects g e h = known (check_all_deps g.tasks g.deps) refl h
  where
    fuel : ℕ
    fuel = suc (length g.tasks)

    walk : Result (Assoc Color)
    walk = visit_roots g.deps fuel (names g.tasks) []

    searched :
        check_all_deps g.tasks g.deps ≡ ok tt
        → (r : Result (Assoc Color)) → walk ≡ r
        → (r >> ok tt) ≡ err e
        → Rejects g e
    searched k (ok c) p q = cc
    searched k (err x) p q = let same : x ≡ e = ground arith in verdict e (rw (← same) p)
      where
        fails : (y : Error) → walk ≡ err y → Fails g.deps y
        fails y w =
            roots-Fails g.deps fuel (names g.tasks) [] y w (λ m b. cc (color_of-nil m))
              (λ m b. cc (color_of-nil m))

        verdict : (y : Error) → walk ≡ err y → Rejects g y
        verdict (cycle path) w = fails (cycle path) w
        verdict unreadable_dir w = fails unreadable_dir w
        verdict (bad_file f) w = fails (bad_file f) w
        verdict (duplicate n) w = fails (duplicate n) w
        verdict (unknown_dependency n d) w = absurd (fails (unknown_dependency n d) w)
        verdict out_of_fuel w =
            roots_fueled g.deps (names g.tasks)
              (λ n d i. has-names g.tasks d (check_all_deps-has g.tasks g.deps n d k i)) fuel
              (names g.tasks) [] (λ n i. i)
              (omega (arith, whites-nil (names g.tasks), length-names g.tasks)) w

    known :
        (r : Result (Unit {0}))
        → check_all_deps g.tasks g.deps ≡ r
        → (r >>= λ _. walk >> ok tt) ≡ err e
        → Rejects g e
    known (ok u) p q = searched p walk refl q
    known (err x) p q =
        let (n, d, y, found) = check_all_deps-Rejects g.tasks g.deps e (p ∙ q) in
        subst (Rejects g) (sym y) found
