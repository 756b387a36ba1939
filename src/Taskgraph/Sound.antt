-- ===== src/Taskgraph/Sound.antt =====
-- What `validate` accepts (internal/taskgraph/graph.go): every dependency exists, and following
-- dependencies from any task ends.
use mathlib.Core.WellFounded.{Acc}
use mathlib.Core.List.{Memᴰ}
use workingman.Prelude.{
  ℕ, zero, suc, ◌≡◌, ◌≢◌, refl, true, inl, inr, List, [], ◌∷◌, ◌++◌, Str, str_eq, str_eq_iff,
  str_eq_refl, length, arith, if◌then◌else◌, Assoc, get, put, has, get-put, Bool-cases,
}
use workingman.Task.{Task}
use workingman.Taskgraph.{
  Graph, Result, ok, err, Color, white, gray, black, color_of, deps_of, names, visit, visit_each,
  visit_roots, check_deps, check_all_deps, validate, ◌>>=◌, ◌>>◌,
}

-- `d` is one of the dependencies of `n`.
abbrev pub DependsOn : Assoc (List Str) → Str → Str → Type 0
DependsOn deps d n = Memᴰ d (deps_of deps n)

-- Following dependencies from `n` ends.
abbrev pub IsGrounded : Assoc (List Str) → Str → Type 0
IsGrounded deps n = Acc (DependsOn deps) n

pub color_of-put :
    (c : Assoc Color) (n m : Str) (k : Color)
    → color_of (put c n k) m ≡ (if str_eq n m then k else color_of c m)
color_of-put c n m k = ground (arith, get-put c n m k)

-- From `c` to `c'`: black nodes stay black.
abbrev pub Grows : Assoc Color → Assoc Color → Type 0
Grows c c' = (m : Str) → color_of c m ≡ black → color_of c' m ≡ black

-- From `c` to `c'`: no node turns gray for good.
abbrev pub Settles : Assoc Color → Assoc Color → Type 0
Settles c c' = (m : Str) → color_of c' m ≡ gray → color_of c m ≡ gray

pub >>=-eq-ok :
    {A B : Type 0} (r : Result A) (f : A → Result B) {b : B}
    → (r >>= f) ≡ ok b
    → (a : A) × (r ≡ ok a) × (f a ≡ ok b)
>>=-eq-ok (ok a) f h = (a, refl, h)
>>=-eq-ok (err e) f h = cc

module _ (deps : Assoc (List Str)) where
  -- Every black node is grounded.
  abbrev pub BlackGrounded : Assoc Color → Type 0
  BlackGrounded c = (m : Str) → color_of c m ≡ black → IsGrounded deps m

  -- What a call of `visit` that succeeds on `n` has done.
  abbrev pub Visited : Str → Assoc Color → Assoc Color → Type 0
  Visited n c c' = Grows c c' × BlackGrounded c' × (color_of c' n ≡ black) × Settles c c'

  each :
      (v : Str → Assoc Color → Result (Assoc Color))
      → ((d : Str) (c c' : Assoc Color) → v d c ≡ ok c' → BlackGrounded c → Visited d c c')
      → (ds : List Str) (c c' : Assoc Color) → visit_each v ds c ≡ ok c'
      → BlackGrounded c
      → Grows c c'
        × BlackGrounded c'
        × ((d : Str) → Memᴰ d ds → color_of c' d ≡ black)
        × Settles c c'
  unfolding visit_each
  each v step [] c c' h g =
      let e : c ≡ c' = ground arith in
      (λ m b. rw (← e) b, λ m b. g m (rw e b), λ d m. elim m [ ], λ m b. rw e b)
  each v step (d ∷ ds) c c' h g =
      let (c₁, first, rest) = >>=-eq-ok (v d c) (visit_each v ds) h in
      let (grows, grounded, here, settles) = step d c c₁ first g in
      let (grows', grounded', there, settles') = each v step ds c₁ c' rest grounded in
      (
        λ m b. grows' m (grows m b),
        grounded',
        λ m i. split m i (λ e. rw e (grows' d here)) (there m),
        λ m b. settles m (settles' m b),
      )
    where
      split :
          (m : Str)
          → Memᴰ m (d ∷ ds)
          → (m ≡ d → color_of c' m ≡ black)
          → (Memᴰ m ds → color_of c' m ≡ black)
          → color_of c' m ≡ black
      split m (Memᴰ.head e) p q = p e
      split m (Memᴰ.tail i) p q = q i

  -- Painting a white node gray takes no black away and adds none.
  pub gray-BlackGrounded :
      (c : Assoc Color) (n : Str) → BlackGrounded c → BlackGrounded (put c n gray)
  gray-BlackGrounded c n g m b = g m (ground (arith, color_of-put c n m gray))

  gray-Grows : (c : Assoc Color) (n : Str) → color_of c n ≡ white → Grows c (put c n gray)
  gray-Grows c n w m b = ground (arith, color_of-put c n m gray, str_eq_iff n m)

  black-BlackGrounded :
      (c : Assoc Color) (n : Str)
      → BlackGrounded c
      → IsGrounded deps n
      → BlackGrounded (put c n black)
  black-BlackGrounded c n g a m b = elim (Bool-cases (str_eq n m)) [
    | inl e ↦ rw (← ((str_eq_iff n m).0 e)) a
    | inr e ↦ g m (ground (arith, color_of-put c n m black))
  ]

  black-Grows : (c : Assoc Color) (n : Str) → Grows c (put c n black)
  black-Grows c n m b = ground (arith, color_of-put c n m black)

  black-Settles :
      (c c₁ : Assoc Color) (n : Str) → Settles (put c n gray) c₁ → Settles c (put c₁ n black)
  black-Settles c c₁ n settles m b =
      ground (arith, color_of-put c₁ n m black, color_of-put c n m gray, settles m)

  pub visit-Visited :
      (fuel : ℕ) (path : List Str) (n : Str) (c c' : Assoc Color)
      → visit deps fuel path n c ≡ ok c'
      → BlackGrounded c
      → Visited n c c'
  unfolding visit
  visit-Visited zero path n c c' h g = cc
  visit-Visited (suc fuel) path n c c' h g =
      go (visit-Visited fuel (path ++ n ∷ [])) (color_of c n) refl h
    where
      next : List Str
      next = path ++ n ∷ []

      go :
          ((d : Str) (a a' : Assoc Color)
            → visit deps fuel next d a ≡ ok a'
            → BlackGrounded a
            → Visited d a a')
          → (k : Color) → color_of c n ≡ k
          → (elim k [
            | gray ↦ err (workingman.Taskgraph.cycle (workingman.Taskgraph.format_cycle path n))
            | black ↦ ok c
            | white ↦ visit_each (visit deps fuel next) (deps_of deps n) (put c n gray) >>= λ c₁.
                ok (put c₁ n black)
          ])
            ≡ ok c'
          → Visited n c c'
      go step gray k q = cc
      go step black k q =
          let e : c ≡ c' = ground arith in
          (λ m b. rw (← e) b, λ m b. g m (rw e b), rw (← e) k, λ m b. rw e b)
      go step white k q =
          let (c₁, inner, last) =
            >>=-eq-ok (visit_each (visit deps fuel next) (deps_of deps n) (put c n gray)) _ q in
          let (grows, grounded, done, settles) =
            each (visit deps fuel next) step (deps_of deps n) (put c n gray) c₁ inner
              (gray-BlackGrounded c n g) in
          let acc : IsGrounded deps n = Acc.intro n (λ d m. grounded d (done d m)) in
          let e : put c₁ n black ≡ c' = ground arith in
          (
            λ m b. rw (← e) (black-Grows c₁ n m (grows m (gray-Grows c n k m b))),
            λ m b. black-BlackGrounded c₁ n grounded acc m (rw e b),
            rw (← e) (ground (arith, color_of-put c₁ n n black, str_eq_refl n)),
            λ m b. black-Settles c c₁ n settles m (rw e b),
          )

  roots-BlackGrounded :
      (fuel : ℕ) (ns : List Str) (c c' : Assoc Color)
      → visit_roots deps fuel ns c ≡ ok c'
      → BlackGrounded c
      → ((m : Str) → color_of c m ≢ gray)
      → Grows c c' × BlackGrounded c' × ((n : Str) → Memᴰ n ns → color_of c' n ≡ black)
  unfolding visit_roots
  roots-BlackGrounded fuel [] c c' h g clear =
      let e : c ≡ c' = ground arith in (λ m b. rw (← e) b, λ m b. g m (rw e b), λ d m. elim m [ ])
  roots-BlackGrounded fuel (n ∷ ns) c c' h g clear =
      go (roots-BlackGrounded fuel ns) (color_of c n) refl h
    where
      split :
          (m : Str) (c₁ : Assoc Color)
          → color_of c₁ n ≡ black
          → Grows c₁ c'
          → (Memᴰ m ns → color_of c' m ≡ black)
          → Memᴰ m (n ∷ ns)
          → color_of c' m ≡ black
      split m c₁ b grows rest (Memᴰ.head e) = rw e (grows n b)
      split m c₁ b grows rest (Memᴰ.tail i) = rest i

      Rest : Type 0
      Rest =
          (a a' : Assoc Color)
          → visit_roots deps fuel ns a ≡ ok a'
          → BlackGrounded a
          → ((m : Str) → color_of a m ≢ gray)
          → Grows a a' × BlackGrounded a' × ((m : Str) → Memᴰ m ns → color_of a' m ≡ black)

      go :
          Rest
          → (k : Color) → color_of c n ≡ k
          → (elim k [
            | white ↦ visit deps fuel [] n c >>= λ c₁. visit_roots deps fuel ns c₁
            | _ ↦ visit_roots deps fuel ns c
          ])
            ≡ ok c'
          → Grows c c' × BlackGrounded c' × ((m : Str) → Memᴰ m (n ∷ ns) → color_of c' m ≡ black)
      go rest gray k q = absurd (clear n k)
      go rest black k q =
          let (grows, grounded, done) = rest c c' q g clear in
          (grows, grounded, λ m. split m c k grows (done m))
      go rest white k q =
          let (c₁, first, last) = >>=-eq-ok (visit deps fuel [] n c) (visit_roots deps fuel ns) q in
          let (grows, grounded, here, settles) = visit-Visited fuel [] n c c₁ first g in
          let (grows', grounded', done) = rest c₁ c' last grounded (λ m b. clear m (settles m b)) in
          (λ m b. grows' m (grows m b), grounded', λ m. split m c₁ here grows' (done m))

-- What the first loop of validate establishes.
check_deps-has :
    (tasks : Assoc Task) (name d : Str) (ds : List Str)
    → check_deps tasks name ds ≡ ok tt
    → Memᴰ d ds
    → has tasks d ≡ true
unfolding check_deps
check_deps-has tasks name d [] h m = elim m [ ]
check_deps-has tasks name d (x ∷ ds) h (Memᴰ.head e) = rw e (ground arith)
check_deps-has tasks name d (x ∷ ds) h (Memᴰ.tail m) =
    check_deps-has tasks name d ds (ground arith) m

pub deps_of-cons :
    (j n : Str) (ds : List Str) (deps : Assoc (List Str))
    → deps_of ((j, ds) ∷ deps) n ≡ (if str_eq j n then ds else deps_of deps n)
unfolding get
deps_of-cons j n ds deps = ground arith

pub color_of-nil : (m : Str) → color_of [] m ≡ white
unfolding get
color_of-nil m = refl

pub check_all_deps-has :
    (tasks : Assoc Task) (deps : Assoc (List Str)) (n d : Str)
    → check_all_deps tasks deps ≡ ok tt
    → DependsOn deps d n
    → has tasks d ≡ true
unfolding check_all_deps
check_all_deps-has tasks [] n d h m = elim m [ ]
check_all_deps-has tasks ((j, ds) ∷ deps) n d h m =
    let (u, here, there) = >>=-eq-ok (check_deps tasks j ds) (λ _. check_all_deps tasks deps) h in
    let member : Memᴰ d (if str_eq j n then ds else deps_of deps n) =
      rw (deps_of-cons j n ds deps) at m in
    elim (Bool-cases (str_eq j n)) [
      | inl e ↦ check_deps-has tasks j d ds here (rw e at member)
      | inr e ↦ check_all_deps-has tasks deps n d there (rw e at member)
    ]

-- A graph that passes validation has every dependency that it names, and following dependencies
-- from any of its tasks ends: there is no cycle.
pub validate-IsGrounded :
    (g : Graph)
    → validate g ≡ ok tt
    → ((n d : Str) → DependsOn g.deps d n → has g.tasks d ≡ true)
      × ((n : Str) → Memᴰ n (names g.tasks) → IsGrounded g.deps n)
unfolding validate
validate-IsGrounded g h =
    let (u, known, rest) = >>=-eq-ok (check_all_deps g.tasks g.deps) _ h in
    let (c, walked, last) =
      >>=-eq-ok (visit_roots g.deps (suc (length g.tasks)) (names g.tasks) []) _ rest in
    let (grows, grounded, done) =
      roots-BlackGrounded g.deps (suc (length g.tasks)) (names g.tasks) [] c walked
        (λ m b. cc (color_of-nil m)) (λ m b. cc (color_of-nil m)) in
    (λ n d. check_all_deps-has g.tasks g.deps n d known, λ n m. grounded n (done n m))
