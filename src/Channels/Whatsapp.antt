-- ===== src/Channels/Whatsapp.antt =====
-- internal/channels/whatsapp/identity.go: the identities of a WhatsApp sender. The resolver, which knows
-- the other ids of a person, is a parameter.
pub mod Fresh
pub mod Closure
pub mod Samples
use workingman.Prelude.{
  ℕ, zero, suc, Bool, true, false, ◌&&◌, ◌||◌, not, ◌==◌, leb, ltb, if◌then◌else◌, Option, none,
  some, List, [], ◌∷◌, ◌++◌, Str, str_eq, codes, is_empty, contains, map, keep, all, length,
  trim_space, trim_prefix, cut,
}
use workingman.Taskgraph.{str_lt}

abbrev pub is_digit : ℕ → Bool
is_digit c = leb b'0' c && leb c b'9'

-- digitsRE
abbrev pub bare_digits : Str → Bool
bare_digits s = not (is_empty s) && all is_digit s

-- agentSuffixRE: digits, an underscore, digits; the first group.
unfoldable pub strip_agent : Str → Str
unfolding cut
strip_agent s =
    if (cut b'_' s).found && bare_digits (cut b'_' s).before && bare_digits (cut b'_' s).after
    then (cut b'_' s).before
    else s

-- NormalizeID
unfoldable pub normalize_id : Str → Str
unfolding strip_agent cut trim_space trim_prefix
normalize_id v =
    let plain = trim_space (trim_prefix (codes "+") (trim_space v)) in
    strip_agent ((cut b'@' ((cut b':' plain).before)).before)

-- maxAliases
abbrev pub max_aliases : ℕ
max_aliases = 64

-- The aliases of an id that are put on the queue.
unfoldable pub fresh_aliases : List Str → List Str → List Str
unfolding normalize_id contains
fresh_aliases out [] = []
fresh_aliases out (a ∷ as') =
    let rest = fresh_aliases out as' in
    if is_empty (normalize_id a) || contains out (normalize_id a)
    then rest
    else normalize_id a ∷ rest

-- The loop of Expand with so many free places, the queue, and the ids found, last first.
unfoldable pub expand_loop : (Str → List Str) → ℕ → List Str → List Str → List Str
unfolding contains fresh_aliases
expand_loop aliases zero queue out = out
expand_loop aliases (suc free) [] out = out
expand_loop aliases (suc free) (cur ∷ queue) out = elim (contains out cur || is_empty cur) [
  | true ↦ expand_loop aliases (suc free) queue out
  | false ↦ expand_loop aliases free (queue ++ fresh_aliases (cur ∷ out) (aliases cur)) (cur ∷ out)
]

-- Expand; without a resolver an id has no aliases.
unfoldable pub expand : (Str → List Str) → Str → List Str
unfolding normalize_id expand_loop
expand aliases id =
    if is_empty (normalize_id id)
    then []
    else expand_loop aliases max_aliases (normalize_id id ∷ []) []

-- Canonical: the best of the ids so far, and the shortest, then least, of the ids.
unfoldable pub better : Str → Str → Str
unfolding str_lt
better best a =
    if is_empty best || ltb (length a) (length best) || (length a == length best && str_lt a best)
    then a
    else best

unfoldable pub canonical_of : Str → List Str → Str
unfolding better
canonical_of best [] = best
canonical_of best (a ∷ as') = canonical_of (better best a) as'

unfoldable pub canonical : (Str → List Str) → Str → Str
unfolding expand canonical_of
canonical aliases id = canonical_of [] (expand aliases id)

-- intersects, whichever of the sets is the smaller.
unfoldable pub intersects : List Str → List Str → Bool
unfolding contains
intersects [] b = false
intersects (x ∷ a) b = contains b x || intersects a b
