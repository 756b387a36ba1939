-- ===== src/Router/Permission.antt =====
-- internal/router/permission.go: how a reply in a chat answers an agent's request for permission, with
-- the options of internal/acpchat/acpchat.go.
pub mod Consent
pub mod Samples
use workingman.Prelude.{
  ℕ, zero, suc, ◌+◌, ◌*◌, ◌-◌, Bool, true, false, ◌&&◌, ◌||◌, not, ◌==◌, leb, ltb, if◌then◌else◌,
  Option, none, some, is_some, List, [], ◌∷◌, Str, str_eq, codes, is_empty, contains, all, length,
  trim_space, to_lower, cut_prefix,
}

-- PermissionOption
pub record Choice : Type 0 where
  pub id : Str
  pub name : Str
  pub kind : Str

-- The first choice of a kind.
unfoldable pub choice_of : List Choice → Str → Option Str
unfolding str_eq
choice_of [] kind = none
choice_of (c ∷ cs) kind = if str_eq c.kind kind then some c.id else choice_of cs kind

-- pick with two kinds; the empty id is the zero decision.
unfoldable pub pick : List Choice → Str → Str → Str
unfolding choice_of
pick cs first second = elim (choice_of cs first) [
  | some id ↦ id
  | none ↦ elim (choice_of cs second) [ some id ↦ id | none ↦ [] ]
]

-- PermissionRequest.Allow and PermissionRequest.Reject
unfoldable pub allow : List Choice → Str
unfolding pick
allow cs = pick cs (codes "allow_once") (codes "allow_always")

unfoldable pub reject : List Choice → Str
unfolding pick
reject cs = pick cs (codes "reject_once") (codes "reject_always")

-- The words of yesRE, alwaysRE and noRE.
abbrev pub yes_words : List Str
yes_words =
    codes "y"
    ∷ codes "yes"
    ∷ codes "yep"
    ∷ codes "yeah"
    ∷ codes "ok"
    ∷ codes "okay"
    ∷ codes "sure"
    ∷ codes "allow"
    ∷ codes "approve"
    ∷ codes "approved"
    ∷ codes "go"
    ∷ codes "go ahead"
    ∷ codes "do it"
    ∷ []

abbrev pub always_words : List Str
always_words = codes "always" ∷ codes "allow always" ∷ codes "yes always" ∷ []

abbrev pub no_words : List Str
no_words =
    codes "n"
    ∷ codes "no"
    ∷ codes "nope"
    ∷ codes "nah"
    ∷ codes "deny"
    ∷ codes "denied"
    ∷ codes "reject"
    ∷ codes "rejected"
    ∷ codes "stop"
    ∷ codes "cancel"
    ∷ codes "don't"
    ∷ codes "dont"
    ∷ []

-- strings.Trim with the cutset ".!? ".
abbrev pub is_trimmed : ℕ → Bool
is_trimmed c = c == b'.' || c == b'!' || c == b'?' || c == b' '

unfoldable pub trim_marks_left : Str → Str
trim_marks_left [] = []
trim_marks_left (c ∷ s) = let rest = trim_marks_left s in if is_trimmed c then rest else c ∷ s

unfoldable pub trim_marks_right : Str → Str
trim_marks_right [] = []
trim_marks_right (c ∷ s) =
    let rest = trim_marks_right s in if is_trimmed c && is_empty rest then [] else c ∷ rest

-- The reply as parseDecision reads it.
unfoldable pub normal_reply : Str → Str
unfolding trim_marks_left trim_marks_right trim_space
normal_reply text = to_lower (trim_marks_right (trim_marks_left (trim_space text)))

abbrev pub is_digit : ℕ → Bool
is_digit c = leb b'0' c && leb c b'9'

unfoldable pub digits_value : ℕ → Str → ℕ
digits_value acc [] = acc
digits_value acc (c ∷ s) = digits_value (10 * acc + (c - b'0')) s

-- 2 ^ 63 - 1, the greatest int.
abbrev pub max_int : ℕ
max_int = 9223372036854775807

unfoldable pub unsigned : Bool → Str → Option (Bool × ℕ)
unfolding digits_value
unsigned negative [] = none
unsigned negative (c ∷ s) =
    if not (is_digit c && all is_digit s)
    then none
    else if leb (digits_value 0 (c ∷ s)) (if negative then suc max_int else max_int)
    then some (negative, digits_value 0 (c ∷ s))
    else none

-- strconv.Atoi: whether there is a minus, and the magnitude; none is its error.
unfoldable pub atoi : Str → Option (Bool × ℕ)
unfolding unsigned
atoi [] = none
atoi (c ∷ s) =
    if c == b'-'
    then unsigned true s
    else if c == b'+'
    then unsigned false s
    else unsigned false (c ∷ s)

-- req.Options[i]
unfoldable pub choice_at : List Choice → ℕ → Option Choice
choice_at [] i = none
choice_at (c ∷ cs) zero = some c
choice_at (c ∷ cs) (suc i) = choice_at cs i

-- The answer to a number.
unfoldable pub numbered : List Choice → Bool → ℕ → Option Str
unfolding choice_at
numbered cs true n = none
numbered cs false zero = none
numbered cs false (suc i) = elim (choice_at cs i) [ none ↦ none | some c ↦ some c.id ]

-- The choice whose name is the reply, where ASCII letters of either case are one.
unfoldable pub choice_named : List Choice → Str → Option Str
unfolding str_eq trim_space
choice_named [] t = none
choice_named (c ∷ cs) t =
    if str_eq (to_lower (trim_space c.name)) t then some c.id else choice_named cs t

-- The answer to a word.
unfoldable pub worded : List Choice → Str → Option Str
unfolding contains choice_of allow reject choice_named
worded cs t =
    if contains always_words t
    then elim (choice_of cs (codes "allow_always")) [ some id ↦ some id | none ↦ some (allow cs) ]
    else if contains yes_words t
    then some (allow cs)
    else if contains no_words t
    then some (reject cs)
    else choice_named cs t

-- parseDecision
unfoldable pub parse_decision : List Choice → Str → Option Str
unfolding normal_reply atoi numbered worded
parse_decision cs text = elim (atoi (normal_reply text)) [
  | some (negative, n) ↦ numbered cs negative n
  | none ↦ worded cs (normal_reply text)
]

-- strings.HasPrefix(o.Kind, "allow")
abbrev pub allows : Choice → Bool
allows c = is_some (cut_prefix (codes "allow") c.kind)

-- isAllow
unfoldable pub is_allow : List Choice → Str → Bool
unfolding str_eq cut_prefix
is_allow [] id = false
is_allow (c ∷ cs) id = if str_eq c.id id then allows c else is_allow cs id
