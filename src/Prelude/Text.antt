-- ===== src/Prelude/Text.antt =====
-- Go strings: lists of bytes. A text literal of the source is `codes "…"`, which is its bytes for
-- the ASCII literals that are used here.
use Prim.Native.Nat.{ℕ, zero, suc, ◌≤◌, ◌+◌}
use Prim.Native.Char.{code}
use Prim.Native.String.{String}
use mathlib.Core.Path.{◌≡◌, refl}
use mathlib.Core.Logic.{◌↔◌}
use mathlib.Core.Bool.{Bool, true, false, ◌&&◌, ◌||◌}
use mathlib.Core.Option.{Option, none, some}
use mathlib.Core.List.{List, [], ◌∷◌, ◌++◌, map}
use native.Mathlib.Omega.{arith}
use native.Mathlib.Decide.{ℕ_discrete}
use workingman.Prelude.Tests.{◌==◌, leb, if◌then◌else◌}
use workingman.Prelude.Lists.{length}

abbrev pub Str : Type 0
Str = List ℕ

abbrev pub codes : String → Str
codes String.[] = []
codes (String.◌∷◌ c s) = code c ∷ codes s

-- `a == b` on strings.
unfoldable pub str_eq : Str → Str → Bool
str_eq [] [] = true
str_eq [] (y ∷ ys) = false
str_eq (x ∷ xs) [] = false
str_eq (x ∷ xs) (y ∷ ys) = x == y && str_eq xs ys

pub str_eq_refl : (s : Str) → str_eq s s ≡ true
unfolding str_eq
str_eq_refl [] = refl
str_eq_refl (x ∷ xs) = ground (arith, str_eq_refl xs)

pub str_eq→eq : (s t : Str) → str_eq s t ≡ true → s ≡ t
unfolding str_eq
str_eq→eq [] [] h = refl
str_eq→eq [] (y ∷ t) h = cc
str_eq→eq (x ∷ s) [] h = cc
str_eq→eq (x ∷ s) (y ∷ t) h = ground (arith, str_eq→eq s t)

pub eq→str_eq : (s t : Str) → s ≡ t → str_eq s t ≡ true
eq→str_eq s t e = rw e (str_eq_refl t)

pub str_eq_iff : (s t : Str) → (str_eq s t ≡ true) ↔ (s ≡ t)
str_eq_iff s t = (str_eq→eq s t, eq→str_eq s t)

pub Str-discrete : Discrete Str
Str-discrete = hlevel ℕ_discrete

-- `slices.Contains` on strings.
unfoldable pub contains : List Str → Str → Bool
contains [] s = false
contains (x ∷ xs) s = str_eq x s || contains xs s

abbrev pub is_empty : Str → Bool
is_empty [] = true
is_empty (x ∷ xs) = false

-- strings.TrimLeft and strings.TrimRight with a cutset of one character.
unfoldable pub trim_left : ℕ → Str → Str
trim_left c [] = []
trim_left c (x ∷ xs) = let rest = trim_left c xs in if x == c then rest else x ∷ xs

abbrev pub drop_last_of : ℕ → ℕ → Str → Str
drop_last_of c x [] = if x == c then [] else x ∷ []
drop_last_of c x (y ∷ ys) = x ∷ y ∷ ys

unfoldable pub trim_right : ℕ → Str → Str
trim_right c [] = []
trim_right c (x ∷ xs) = drop_last_of c x (trim_right c xs)

-- strings.Trim
unfoldable pub trim : ℕ → Str → Str
unfolding trim_left trim_right
trim c s = trim_right c (trim_left c s)

pub length-trim_left : (c : ℕ) (s : Str) → length (trim_left c s) ≤ length s
unfolding trim_left
length-trim_left c [] = omega arith
length-trim_left c (x ∷ xs) = ground (arith, length-trim_left c xs)

pub length-trim_right : (c : ℕ) (s : Str) → length (trim_right c s) ≤ length s
unfolding trim_right
length-trim_right c [] = omega arith
length-trim_right c (x ∷ xs) = step (trim_right c xs) (length-trim_right c xs)
  where
    step : (r : Str) → length r ≤ length xs → length (drop_last_of c x r) ≤ suc (length xs)
    step [] h = ground arith
    step (y ∷ ys) h = omega arith

pub length-trim : (c : ℕ) (s : Str) → length (trim c s) ≤ length s
unfolding trim
length-trim c s = omega (arith, length-trim_right c (trim_left c s), length-trim_left c s)

-- The text before and after the first byte `sep`; `found` is false when there is none.
pub record Cut : Type 0 where
  pub before : Str
  pub after : Str
  pub found : Bool

unfoldable pub cut : ℕ → Str → Cut
cut sep [] = record { before = []; after = []; found = false }
cut sep (c ∷ cs) =
    let rest = cut sep cs in
    if c == sep
    then record { before = []; after = cs; found = true }
    else record { before = c ∷ rest.before; after = rest.after; found = rest.found }

-- No byte of the text is `sep`.
abbrev pub is_free_of : ℕ → Str → Bool
is_free_of sep [] = true
is_free_of sep (c ∷ cs) = elim (c == sep) [ true ↦ false | false ↦ is_free_of sep cs ]

pub cut-append :
    (sep : ℕ) (s t : Str)
    → is_free_of sep s ≡ true
    → cut sep (s ++ sep ∷ t) ≡ record { before = s; after = t; found = true }
unfolding cut
cut-append sep [] t h = ground arith
cut-append sep (c ∷ s) t h = ground (arith, cut-append sep s t)

pub cut-found :
    (sep : ℕ) (s : Str)
    → (cut sep s).found ≡ true
    → s ≡ (cut sep s).before ++ sep ∷ (cut sep s).after
unfolding cut
cut-found sep [] h = cc
cut-found sep (c ∷ s) h = ground (arith, cut-found sep s)

pub cut_not_found : (sep : ℕ) (s : Str) → is_free_of sep s ≡ true → (cut sep s).found ≡ false
unfolding cut
cut_not_found sep [] h = refl
cut_not_found sep (c ∷ s) h = ground (arith, cut_not_found sep s)

-- strings.CutPrefix: the rest after the prefix, if it is one.
unfoldable pub cut_prefix : Str → Str → Option Str
cut_prefix [] s = some s
cut_prefix (p ∷ ps) [] = none
cut_prefix (p ∷ ps) (c ∷ s) = let rest = cut_prefix ps s in if p == c then rest else none

-- The characters of unicode.IsSpace, in UTF-8.
abbrev spaces : List Str
spaces =
    (9 ∷ [])
    ∷ (10 ∷ [])
    ∷ (11 ∷ [])
    ∷ (12 ∷ [])
    ∷ (13 ∷ [])
    ∷ (32 ∷ [])
    ∷ (194 ∷ 133 ∷ [])
    ∷ (194 ∷ 160 ∷ [])
    ∷ (225 ∷ 154 ∷ 128 ∷ [])
    ∷ (226 ∷ 128 ∷ 128 ∷ [])
    ∷ (226 ∷ 128 ∷ 129 ∷ [])
    ∷ (226 ∷ 128 ∷ 130 ∷ [])
    ∷ (226 ∷ 128 ∷ 131 ∷ [])
    ∷ (226 ∷ 128 ∷ 132 ∷ [])
    ∷ (226 ∷ 128 ∷ 133 ∷ [])
    ∷ (226 ∷ 128 ∷ 134 ∷ [])
    ∷ (226 ∷ 128 ∷ 135 ∷ [])
    ∷ (226 ∷ 128 ∷ 136 ∷ [])
    ∷ (226 ∷ 128 ∷ 137 ∷ [])
    ∷ (226 ∷ 128 ∷ 138 ∷ [])
    ∷ (226 ∷ 128 ∷ 168 ∷ [])
    ∷ (226 ∷ 128 ∷ 169 ∷ [])
    ∷ (226 ∷ 128 ∷ 175 ∷ [])
    ∷ (226 ∷ 129 ∷ 159 ∷ [])
    ∷ (227 ∷ 128 ∷ 128 ∷ [])
    ∷ []

-- The rest after the first of the prefixes that is one.
unfoldable pub cut_any : List Str → Str → Option Str
unfolding cut_prefix
cut_any [] s = none
cut_any (p ∷ ps) s = elim (cut_prefix p s) [ some rest ↦ some rest | none ↦ cut_any ps s ]

-- A text without the prefixes that it begins with. The fuel is the text's length, since no prefix is empty.
unfoldable pub drop_all : ℕ → List Str → Str → Str
unfolding cut_any
drop_all zero ps s = s
drop_all (suc n) ps s = elim (cut_any ps s) [ none ↦ s | some rest ↦ drop_all n ps rest ]

-- A text read backwards, before another one.
unfoldable pub backwards : Str → Str → Str
backwards [] after = after
backwards (c ∷ s) after = backwards s (c ∷ after)

-- strings.TrimSpace
unfoldable pub trim_space : Str → Str
unfolding drop_all backwards
trim_space s =
    let left = drop_all (length s) spaces s in
    backwards (drop_all (length s) (map (λ p. backwards p []) spaces) (backwards left [])) []

-- strings.TrimPrefix, with the prefix first.
unfoldable pub trim_prefix : Str → Str → Str
unfolding cut_prefix
trim_prefix p s = elim (cut_prefix p s) [ none ↦ s | some rest ↦ rest ]

-- strings.ToLower on ASCII.
abbrev pub to_lower : Str → Str
to_lower s = map (λ c. if leb b'A' c && leb c b'Z' then c + 32 else c) s

pub contains-append :
    (xs ys : List Str) (id : Str) → contains (xs ++ ys) id ≡ (contains xs id || contains ys id)
unfolding contains
contains-append [] ys id = refl
contains-append (x ∷ xs) ys id = ground (arith, contains-append xs ys id)
