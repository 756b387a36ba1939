-- ===== src/Taskgraph/Cycle.antt =====
-- What `validate` rejects (internal/taskgraph/graph.go): a dependency that does not exist, or a
-- cycle that is really there.
use mathlib.Core.List.{Memᴰ}
use workingman.Prelude.{
  ℕ, zero, suc, ◌≡◌, ◌≢◌, refl, ◌∙◌, subst, inl, inr, List, [], ◌∷◌, ◌++◌, Str, str_eq, str_eq_iff,
  arith, Assoc, put, Bool-cases,
}
use workingman.Taskgraph.{
  Result, ok, err, Error, cycle, out_of_fuel, format_cycle, Color, white, gray, black, color_of,
  deps_of, visit, visit_each, visit_roots, ◌>>=◌,
}
use workingman.Taskgraph.Sound.{
  DependsOn, BlackGrounded, Visited, Settles, visit-Visited, gray-BlackGrounded, color_of-put,
}

-- `a` depends on `b`, directly or through others.
pub data Reaches (deps : Assoc (List Str)) (a : Str) : Str → Type 0 where
  one : {b : Str} → DependsOn deps b a → Reaches deps a b
  more : {b c : Str} → Reaches deps a b → DependsOn deps c b → Reaches deps a c

abbrev pub HasCycle : Assoc (List Str) → Type 0
HasCycle deps = (n : Str) × Reaches deps n n

-- What an error of `visit` says of the dependencies.
abbrev pub Fails : Assoc (List Str) → Error → Type 0
Fails deps (cycle path) = HasCycle deps
Fails deps out_of_fuel = Unit
Fails deps _ = ⊥

module _ (deps : Assoc (List Str)) where
  -- The call of `visit` that failed, and the colours it was given.
  record Failed (v : Str → Assoc Color → Result (Assoc Color)) (ds : List Str) (c : Assoc Color)
      (e : Error) : Type 0 where
    at : Str
    colors : Assoc Color
    member : Memᴰ at ds
    failed : v at colors ≡ err e
    grounded : BlackGrounded deps colors
    settles : Settles c colors

  each-err :
      (v : Str → Assoc Color → Result (Assoc Color))
      → ((d : Str) (c c' : Assoc Color)
          → v d c ≡ ok c'
          → BlackGrounded deps c
          → Visited deps d c c')
      → (ds : List Str) (c : Assoc Color) (e : Error) → visit_each v ds c ≡ err e
      → BlackGrounded deps c
      → Failed v ds c e
  unfolding visit_each
  each-err v step [] c e h g = cc
  each-err v step (d ∷ ds) c e h g = go (each-err v step ds) (v d c) refl h
    where
      go :
          ((c₁ : Assoc Color) (x : Error)
            → visit_each v ds c₁ ≡ err x
            → BlackGrounded deps c₁
            → Failed v ds c₁ x)
          → (r : Result (Assoc Color)) → v d c ≡ r
          → (r >>= visit_each v ds) ≡ err e
          → Failed v (d ∷ ds) c e
      go rest (err x) p q = record {
        at = d;
        colors = c;
        member = Memᴰ.head refl;
        failed = p ∙ q;
        grounded = g;
        settles = λ m b. b;
      }
      go rest (ok c₁) p q =
          let (grows, grounded₁, here, settles₁) = step d c c₁ p g in
          let f = rest c₁ e q grounded₁ in
          record {
            at = f.at;
            colors = f.colors;
            member = Memᴰ.tail f.member;
            failed = f.failed;
            grounded = f.grounded;
            settles = λ m b. settles₁ m (f.settles m b);
          }

  visit-Fails :
      (fuel : ℕ) (path : List Str) (n : Str) (c : Assoc Color) (e : Error)
      → visit deps fuel path n c ≡ err e
      → BlackGrounded deps c
      → ((m : Str) → color_of c m ≡ gray → Reaches deps m n)
      → Fails deps e
  unfolding visit
  visit-Fails zero path n c e h g reach =
      let same : out_of_fuel ≡ e = ground arith in subst (Fails deps) same tt
  visit-Fails (suc fuel) path n c e h g reach =
      go (visit-Fails fuel (path ++ n ∷ [])) (color_of c n) refl h
    where
      next : List Str
      next = path ++ n ∷ []

      inner : Str → Assoc Color → Result (Assoc Color)
      inner = visit deps fuel next

      Rec : Type 0
      Rec =
          (d : Str) (a : Assoc Color) (x : Error)
          → inner d a ≡ err x
          → BlackGrounded deps a
          → ((m : Str) → color_of a m ≡ gray → Reaches deps m d)
          → Fails deps x

      reach_dep :
          (d m : Str) → DependsOn deps d n → color_of (put c n gray) m ≡ gray → Reaches deps m d
      reach_dep d m i b = elim (Bool-cases (str_eq n m)) [
        | inl same ↦ one (rw (← ((str_eq_iff n m).0 same)) i)
        | inr other ↦ more (reach m (ground (arith, color_of-put c n m gray))) i
      ]

      go :
          Rec
          → (k : Color) → color_of c n ≡ k
          → (elim k [
            | gray ↦ err (cycle (format_cycle path n))
            | black ↦ ok c
            | white ↦ visit_each (visit deps fuel next) (deps_of deps n) (put c n gray) >>= λ c₁.
                ok (put c₁ n black)
          ])
            ≡ err e
          → Fails deps e
      go rec gray k q =
          let same : cycle (format_cycle path n) ≡ e = ground arith in
          subst (Fails deps) same (n, reach n k)
      go rec black k q = cc
      go rec white k q = below (visit_each inner (deps_of deps n) (put c n gray)) refl q
        where
          below :
              (r : Result (Assoc Color))
              → visit_each inner (deps_of deps n) (put c n gray) ≡ r
              → (r >>= λ c₁. ok (put c₁ n black)) ≡ err e
              → Fails deps e
          below (ok c₁) p z = cc
          below (err x) p z =
              let f =
                each-err inner (λ d a a'. visit-Visited deps fuel next d a a') (deps_of deps n)
                  (put c n gray) e (p ∙ z) (gray-BlackGrounded deps c n g) in
              rec f.at f.colors e f.failed f.grounded
                (λ m b. reach_dep f.at m f.member (f.settles m b))

  pub roots-Fails :
      (fuel : ℕ) (ns : List Str) (c : Assoc Color) (e : Error)
      → visit_roots deps fuel ns c ≡ err e
      → BlackGrounded deps c
      → ((m : Str) → color_of c m ≢ gray)
      → Fails deps e
  unfolding visit_roots
  roots-Fails fuel [] c e h g clear = cc
  roots-Fails fuel (n ∷ ns) c e h g clear = go (roots-Fails fuel ns) (color_of c n) refl h
    where
      Rest : Type 0
      Rest =
          (a : Assoc Color) (x : Error)
          → visit_roots deps fuel ns a ≡ err x
          → BlackGrounded deps a
          → ((m : Str) → color_of a m ≢ gray)
          → Fails deps x

      first :
          Rest
          → (r : Result (Assoc Color)) → visit deps fuel [] n c ≡ r
          → (r >>= visit_roots deps fuel ns) ≡ err e
          → Fails deps e
      first rest (err x) p q = visit-Fails fuel [] n c e (p ∙ q) g (λ m b. absurd (clear m b))
      first rest (ok c₁) p q =
          let (grows, grounded, here, settles) = visit-Visited deps fuel [] n c c₁ p g in
          rest c₁ e q grounded (λ m b. clear m (settles m b))

      go :
          Rest
          → (k : Color) → color_of c n ≡ k
          → (elim k [
            | white ↦ visit deps fuel [] n c >>= λ c₁. visit_roots deps fuel ns c₁
            | _ ↦ visit_roots deps fuel ns c
          ])
            ≡ err e
          → Fails deps e
      go rest gray k q = rest c e q g clear
      go rest black k q = rest c e q g clear
      go rest white k q = first rest (visit deps fuel [] n c) refl q
