-- ===== src/Policy.antt =====
-- internal/policy/policy.go: sandbox policy rules and their text form for repeatable flags.
pub mod Codec
pub mod Samples
use workingman.Prelude.{
  ℕ, ◌≡◌, Bool, true, false, ◌&&◌, ◌||◌, not, List, [], ◌∷◌, ◌++◌, Str, codes, str_eq, leb, ◌==◌,
  if◌then◌else◌, cut,
}

-- An action or a kind is a Go string, valid or not.
pub record Rule : Type 0 where
  pub action : Str
  pub kind : Str
  pub resource : Str

-- Action.Valid
unfoldable pub valid_action : Str → Bool
valid_action a = str_eq a (codes "allow") || str_eq a (codes "deny")

-- Kind.Valid
unfoldable pub valid_kind : Str → Bool
valid_kind k = str_eq k (codes "network") || str_eq k (codes "filesystem")

-- unicode.IsSpace, on the runes of one, two and three bytes.
abbrev space_1 : ℕ → Bool
space_1 a = a == 32 || leb 9 a && leb a 13

abbrev space_2 : ℕ → ℕ → Bool
space_2 a b = a == 0xC2 && (b == 0x85 || b == 0xA0)

abbrev space_3 : ℕ → ℕ → ℕ → Bool
space_3 a b c =
    a == 0xE1 && b == 0x9A && c == 0x80
    || a == 0xE2 && b == 0x80 && (leb 0x80 c && leb c 0x8A || c == 0xA8 || c == 0xA9 || c == 0xAF)
    || a == 0xE2 && b == 0x81 && c == 0x9F
    || a == 0xE3 && b == 0x80 && c == 0x80

-- strings.TrimSpace(s) == "": every rune is a space.
unfoldable pub is_blank : Str → Bool
is_blank [] = true
is_blank (a ∷ []) = space_1 a
is_blank (a ∷ b ∷ []) = space_1 a && space_1 b || space_2 a b
is_blank (a ∷ b ∷ c ∷ r) = elim (space_1 a) [
  | true ↦ is_blank (b ∷ c ∷ r)
  | false ↦ elim (space_2 a b) [
    | true ↦ is_blank (c ∷ r)
    | false ↦ elim (space_3 a b c) [ true ↦ is_blank r | false ↦ false ]
  ]
]

pub data Error : Type 0 where
  invalid_action : Str → Error
  invalid_type : Str → Error
  resource_required : Error
  malformed : Str → Error

pub data Result (A : Type 0) : Type 0 where
  ok : A → Result A
  err : Error → Result A

-- Rule.Validate
unfoldable pub validate : Rule → Result (Unit {0})
unfolding valid_action valid_kind is_blank
validate r =
    if not (valid_action r.action)
    then err (invalid_action r.action)
    else if not (valid_kind r.kind)
    then err (invalid_type r.kind)
    else if is_blank r.resource
    then err resource_required
    else ok tt

-- Rule.CLIArgs
unfoldable pub cli_args : Rule → Str → List Str
cli_args r sandbox_name =
    codes "policy" ∷ r.action ∷ r.kind ∷ codes "--sandbox" ∷ sandbox_name ∷ r.resource ∷ []

-- Rule.Encode
unfoldable pub encode : Rule → Str
encode r = r.action ++ b':' ∷ (r.kind ++ b':' ∷ r.resource)

-- strings.SplitN(s, ":", 3) and its length check, as two cuts.
unfoldable pub split_fields : Str → Result Rule
unfolding cut
split_fields s =
    let first = cut b':' s in
    let second = cut b':' first.after in
    if first.found && second.found
    then ok (record { action = first.before; kind = second.before; resource = second.after })
    else err (malformed s)

infixl 5 ◌>>=◌ ◌>>◌
abbrev pub ◌>>=◌ : {A B : Type 0} → Result A → (A → Result B) → Result B
ok a >>= f = f a
err e >>= f = err e

abbrev pub ◌>>◌ : {A B : Type 0} → Result A → Result B → Result B
m >> k = m >>= λ _. k

-- Decode
unfoldable pub decode : Str → Result Rule
unfolding split_fields validate
decode s = do r ← split_fields s; validate r; ok r
