-- ===== src/Prelude/Maps.antt =====
-- Go maps with string keys, as association lists without double keys: `put` replaces, `del` removes.
-- The order of the entries stands for the order in which Go iterates, which a program cannot rely on.
use mathlib.Core.Path.{◌≡◌, refl}
use mathlib.Core.Bool.{Bool, true, false}
use mathlib.Core.Option.{Option, none, some}
use mathlib.Core.List.{List, [], ◌∷◌}
use native.Mathlib.Omega.{arith}
use workingman.Prelude.Tests.{if◌then◌else◌, is_some}
use workingman.Prelude.Text.{Str, str_eq, str_eq_iff}

abbrev pub Assoc {ℓ} : Type ℓ → Type ℓ
Assoc V = List (Str × V)

module _ {ℓ} {V : Type ℓ} where
  -- v, ok := m[k]
  unfoldable pub get : Assoc V → Str → Option V
  get [] k = none
  get ((j, v) ∷ m) k = if str_eq j k then some v else get m k

  -- delete(m, k)
  unfoldable pub del : Assoc V → Str → Assoc V
  del [] k = []
  del ((j, v) ∷ m) k = let rest = del m k in if str_eq j k then rest else (j, v) ∷ rest

  -- m[k] = v
  unfoldable pub put : Assoc V → Str → V → Assoc V
  put [] k v = (k, v) ∷ []
  put ((j, w) ∷ m) k v = if str_eq j k then (k, v) ∷ m else (j, w) ∷ put m k v

  abbrev pub has : Assoc V → Str → Bool
  has m k = is_some (get m k)

  pub get-put :
      (m : Assoc V) (k j : Str) (v : V)
      → get (put m k v) j ≡ (if str_eq k j then some v else get m j)
  unfolding get put
  get-put [] k j v = refl
  get-put ((i, w) ∷ m) k j v =
      ground (arith, str_eq_iff k j, str_eq_iff i k, str_eq_iff i j, get-put m k j v)

  pub get-del : (m : Assoc V) (k j : Str) → get (del m k) j ≡ (if str_eq k j then none else get m j)
  unfolding get del
  get-del [] k j = ground arith
  get-del ((i, w) ∷ m) k j =
      ground (arith, str_eq_iff k j, str_eq_iff i k, str_eq_iff i j, get-del m k j)

  pub get-put_same :
      (m : Assoc V) (k j : Str) (v : V) → str_eq k j ≡ true → get (put m k v) j ≡ some v
  get-put_same m k j v e = rw (get-put m k j v) (ground (arith, e))

  pub get-put_other :
      (m : Assoc V) (k j : Str) (v : V) → str_eq k j ≡ false → get (put m k v) j ≡ get m j
  get-put_other m k j v e = rw (get-put m k j v) (ground (arith, e))

  pub get-del_same : (m : Assoc V) (k j : Str) → str_eq k j ≡ true → get (del m k) j ≡ none
  get-del_same m k j e = rw (get-del m k j) (ground (arith, e))

  pub get-del_other : (m : Assoc V) (k j : Str) → str_eq k j ≡ false → get (del m k) j ≡ get m j
  get-del_other m k j e = rw (get-del m k j) (ground (arith, e))
