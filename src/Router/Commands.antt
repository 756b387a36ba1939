-- ===== src/Router/Commands.antt =====
-- internal/router/commands.go: the commands of a chat and the choice of a wolf.
use workingman.Prelude.{
  ℕ, Bool, ◌&&◌, ◌||◌, not, ◌==◌, leb, if◌then◌else◌, Option, none, some, is_some, List, [], ◌∷◌,
  Str, str_eq, is_empty, trim_space, to_lower, cut_prefix, any, keep,
}

-- Session: a live agent session; an empty `ref` cannot be attached to.
pub record Session : Type 0 where
  pub key : Str
  pub id : Str
  pub ref : Str
  pub work_stream : Str

pub record Command : Type 0 where
  pub name : Str
  pub args : Str

abbrev pub is_letter : ℕ → Bool
is_letter c = (leb b'A' c && leb c b'Z') || (leb b'a' c && leb c b'z')

-- The class \s of regexp.
abbrev pub is_blank : ℕ → Bool
is_blank c = c == 9 || c == 10 || c == 12 || c == 13 || c == 32

unfoldable pub drop_blanks : Str → Str
drop_blanks [] = []
drop_blanks (c ∷ s) = let rest = drop_blanks s in if is_blank c then rest else c ∷ s

-- The letters at the beginning of a text, and what follows them.
unfoldable pub letters : Str → Str
letters [] = []
letters (c ∷ s) = let rest = letters s in if is_letter c then c ∷ rest else []

unfoldable pub after_letters : Str → Str
after_letters [] = []
after_letters (c ∷ s) = let rest = after_letters s in if is_letter c then rest else c ∷ s

-- The second group of commandRE: blanks and a line, or nothing.
unfoldable pub arguments : Str → Option Str
unfolding drop_blanks trim_space
arguments [] = some []
arguments (c ∷ s) =
    let line = drop_blanks s in
    if is_blank c && not (any (λ d. d == 10) line) then some (trim_space line) else none

-- parseCommand
unfoldable pub parse_command : Str → Option Command
unfolding letters after_letters arguments
parse_command [] = none
parse_command (c ∷ s) =
    if not (c == b'/') || is_empty (letters s) then none else elim (arguments (after_letters s)) [
      | none ↦ none
      | some args ↦ some (record { name = to_lower (letters s); args = args })
    ]

-- strings.Contains, with the part first.
unfoldable pub has_part : Str → Str → Bool
unfolding cut_prefix
has_part part [] = is_some (cut_prefix part [])
has_part part (c ∷ s) = is_some (cut_prefix part (c ∷ s)) || has_part part s

-- matchWolves
unfoldable pub match_wolves : List Session → Str → List Session
unfolding str_eq has_part
match_wolves wolves arg =
    let exact = keep (λ (w : Session). str_eq (to_lower w.work_stream) (to_lower arg)) wolves in
    let partial =
      keep
        (λ (w : Session).
          not (str_eq (to_lower w.work_stream) (to_lower arg))
          && has_part (to_lower arg) (to_lower w.work_stream))
        wolves in
    elim exact [ [] ↦ partial | w ∷ ws ↦ w ∷ ws ]
