-- ===== src/Taskgraph/Fuel.antt =====
-- The depth-first search of `validate` (internal/taskgraph/graph.go) ends: the recursion of
-- `visit` is never deeper than the number of tasks, so the fuel given is never used up.
use mathlib.Core.List.{Memᴰ}
use workingman.Prelude.{
  ℕ, zero, suc, ◌+◌, ◌≤◌, ◌<◌, ◌≡◌, ◌≢◌, refl, ◌∙◌, List, [], ◌∷◌, ◌++◌, Str, str_eq_iff, length,
  arith, Assoc, put,
}
use workingman.Taskgraph.{
  Result, ok, err, cycle, out_of_fuel, format_cycle, Color, white, gray, black, color_of, deps_of,
  visit, visit_each, visit_roots, ◌>>=◌,
}
use workingman.Taskgraph.Sound.{DependsOn, color_of-put, color_of-nil, >>=-eq-ok}

abbrev one_if_white : Color → ℕ
one_if_white white = 1
one_if_white _ = 0

-- How many of the names are still white.
pub whites : List Str → Assoc Color → ℕ
whites [] c = 0
whites (n ∷ ns) c = one_if_white (color_of c n) + whites ns c

-- From `c` to `c'`: no node turns white.
abbrev Fades : Assoc Color → Assoc Color → Type 0
Fades c c' = (m : Str) → color_of c' m ≡ white → color_of c m ≡ white

whites_mono : (ns : List Str) (c c' : Assoc Color) → Fades c c' → whites ns c' ≤ whites ns c
unfolding whites
whites_mono [] c c' f = omega arith
whites_mono (n ∷ ns) c c' f = ground (arith, f n, whites_mono ns c c' f)

put-Fades : (c : Assoc Color) (n : Str) (k : Color) → k ≢ white → Fades c (put c n k)
put-Fades c n k h m b = ground (arith, color_of-put c n m k)

whites-put :
    (ns : List Str) (c : Assoc Color) (n : Str)
    → Memᴰ n ns
    → color_of c n ≡ white
    → whites ns (put c n gray) < whites ns c
unfolding whites
whites-put [] c n i w = elim i [ ]
whites-put (m ∷ ns) c n (Memᴰ.head e) w = ground (
  arith,
  e,
  color_of-put c n m gray,
  str_eq_iff n m,
  whites_mono ns c (put c n gray) (put-Fades c n gray (λ z. cc)),
)
whites-put (m ∷ ns) c n (Memᴰ.tail i) w =
    let rest = whites-put ns c n i w in
    ground (arith, rest, color_of-put c n m gray, put-Fades c n gray (λ z. cc) m)

module _ (deps : Assoc (List Str)) where
  each-Fades :
      (v : Str → Assoc Color → Result (Assoc Color))
      → ((d : Str) (c c' : Assoc Color) → v d c ≡ ok c' → Fades c c')
      → (ds : List Str) (c c' : Assoc Color) → visit_each v ds c ≡ ok c'
      → Fades c c'
  unfolding visit_each
  each-Fades v step [] c c' h m b = let e : c ≡ c' = ground arith in rw e b
  each-Fades v step (d ∷ ds) c c' h m b =
      let (c₁, first, rest) = >>=-eq-ok (v d c) (visit_each v ds) h in
      step d c c₁ first m (each-Fades v step ds c₁ c' rest m b)

  visit-Fades :
      (fuel : ℕ) (path : List Str) (n : Str) (c c' : Assoc Color)
      → visit deps fuel path n c ≡ ok c'
      → Fades c c'
  unfolding visit
  visit-Fades zero path n c c' h = cc
  visit-Fades (suc fuel) path n c c' h =
      go (visit-Fades fuel (path ++ n ∷ [])) (color_of c n) refl h
    where
      inner : Str → Assoc Color → Result (Assoc Color)
      inner = visit deps fuel (path ++ n ∷ [])

      go :
          ((d : Str) (a a' : Assoc Color) → inner d a ≡ ok a' → Fades a a')
          → (k : Color) → color_of c n ≡ k
          → (elim k [
            | gray ↦ err (cycle (format_cycle path n))
            | black ↦ ok c
            | white ↦ visit_each inner (deps_of deps n) (put c n gray) >>= λ c₁. ok (put c₁ n black)
          ])
            ≡ ok c'
          → Fades c c'
      go rec gray k q m b = cc
      go rec black k q m b = let e : c ≡ c' = ground arith in rw e b
      go rec white k q m b =
          let (c₁, deeper, last) =
            >>=-eq-ok (visit_each inner (deps_of deps n) (put c n gray)) _ q in
          let e : put c₁ n black ≡ c' = ground arith in
          put-Fades c n gray (λ z. cc) m
            (each-Fades inner rec (deps_of deps n) (put c n gray) c₁ deeper m
              (put-Fades c₁ n black (λ z. cc) m (rw e b)))

  each_fueled :
      (v : Str → Assoc Color → Result (Assoc Color)) (ns : List Str) (bound : ℕ)
      → ((d : Str) (c c' : Assoc Color) → v d c ≡ ok c' → Fades c c')
      → ((d : Str) (c : Assoc Color) → Memᴰ d ns → whites ns c < bound → v d c ≢ err out_of_fuel)
      → (ds : List Str) (c : Assoc Color) → ((d : Str) → Memᴰ d ds → Memᴰ d ns)
      → whites ns c < bound
      → visit_each v ds c ≢ err out_of_fuel
  unfolding visit_each
  each_fueled v ns bound fades fueled [] c known w h = cc
  each_fueled v ns bound fades fueled (d ∷ ds) c known w h =
      go (each_fueled v ns bound fades fueled ds) (v d c) refl h
    where
      go :
          ((a : Assoc Color)
            → ((x : Str) → Memᴰ x ds → Memᴰ x ns)
            → whites ns a < bound
            → visit_each v ds a ≢ err out_of_fuel)
          → (r : Result (Assoc Color)) → v d c ≡ r
          → (r >>= visit_each v ds) ≡ err out_of_fuel
          → ⊥
      go rest (err x) p q = fueled d c (known d (Memᴰ.head refl)) w (p ∙ q)
      go rest (ok c₁) p q =
          rest c₁ (λ x i. known x (Memᴰ.tail i))
            (omega (arith, whites_mono ns c c₁ (fades d c c₁ p))) q

module _ (deps : Assoc (List Str)) (ns : List Str)
    (known : (n d : Str) → DependsOn deps d n → Memᴰ d ns) where
  visit_fueled :
      (fuel : ℕ) (path : List Str) (n : Str) (c : Assoc Color)
      → Memᴰ n ns
      → whites ns c < fuel
      → visit deps fuel path n c ≢ err out_of_fuel
  unfolding visit
  visit_fueled zero path n c i w h = elim w [ ]
  visit_fueled (suc fuel) path n c i w h =
      go (visit_fueled fuel (path ++ n ∷ [])) (color_of c n) refl h
    where
      inner : Str → Assoc Color → Result (Assoc Color)
      inner = visit deps fuel (path ++ n ∷ [])

      go :
          ((d : Str) (a : Assoc Color)
            → Memᴰ d ns
            → whites ns a < fuel
            → inner d a ≢ err out_of_fuel)
          → (k : Color) → color_of c n ≡ k
          → (elim k [
            | gray ↦ err (cycle (format_cycle path n))
            | black ↦ ok c
            | white ↦ visit_each inner (deps_of deps n) (put c n gray) >>= λ c₁. ok (put c₁ n black)
          ])
            ≡ err out_of_fuel
          → ⊥
      go rec gray k q = cc
      go rec black k q = cc
      go rec white k q = below (visit_each inner (deps_of deps n) (put c n gray)) refl q
        where
          below :
              (r : Result (Assoc Color))
              → visit_each inner (deps_of deps n) (put c n gray) ≡ r
              → (r >>= λ c₁. ok (put c₁ n black)) ≡ err out_of_fuel
              → ⊥
          below (ok c₁) p z = cc
          below (err x) p z =
              each_fueled deps inner ns fuel (visit-Fades deps fuel (path ++ n ∷ [])) rec
                (deps_of deps n) (put c n gray) (known n) (omega (arith, whites-put ns c n i k))
                (p ∙ z)

  pub roots_fueled :
      (fuel : ℕ) (ms : List Str) (c : Assoc Color)
      → ((n : Str) → Memᴰ n ms → Memᴰ n ns)
      → whites ns c < fuel
      → visit_roots deps fuel ms c ≢ err out_of_fuel
  unfolding visit_roots
  roots_fueled fuel [] c sub w h = cc
  roots_fueled fuel (n ∷ ms) c sub w h = go (roots_fueled fuel ms) (color_of c n) refl h
    where
      Rest : Type 0
      Rest =
          (a : Assoc Color)
          → ((x : Str) → Memᴰ x ms → Memᴰ x ns)
          → whites ns a < fuel
          → visit_roots deps fuel ms a ≢ err out_of_fuel

      first :
          Rest
          → (r : Result (Assoc Color)) → visit deps fuel [] n c ≡ r
          → (r >>= visit_roots deps fuel ms) ≡ err out_of_fuel
          → ⊥
      first rest (err x) p q = visit_fueled fuel [] n c (sub n (Memᴰ.head refl)) w (p ∙ q)
      first rest (ok c₁) p q =
          rest c₁ (λ x i. sub x (Memᴰ.tail i))
            (omega (arith, whites_mono ns c c₁ (visit-Fades deps fuel [] n c c₁ p))) q

      go :
          Rest
          → (k : Color) → color_of c n ≡ k
          → (elim k [
            | white ↦ visit deps fuel [] n c >>= λ c₁. visit_roots deps fuel ms c₁
            | _ ↦ visit_roots deps fuel ms c
          ])
            ≡ err out_of_fuel
          → ⊥
      go rest gray k q = rest c (λ x i. sub x (Memᴰ.tail i)) w q
      go rest black k q = rest c (λ x i. sub x (Memᴰ.tail i)) w q
      go rest white k q = first rest (visit deps fuel [] n c) refl q

pub whites-nil : (ns : List Str) → whites ns [] ≡ length ns
unfolding whites
whites-nil [] = refl
whites-nil (n ∷ ns) = ground (arith, color_of-nil n, whites-nil ns)
