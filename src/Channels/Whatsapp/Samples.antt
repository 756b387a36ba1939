-- ===== src/Channels/Whatsapp/Samples.antt =====
-- Tests and an instance for the WhatsApp identities.
use mathlib.Core.List.{Memᴰ}
use workingman.Prelude.{
  ◌≡◌, ◌<◌, ◌≤◌, refl, true, List, [], ◌∷◌, Str, codes, str_eq, contains, length, if◌then◌else◌,
}
use workingman.Channels.Whatsapp.{normalize_id, expand, max_aliases, canonical}
use workingman.Channels.Whatsapp.Closure.{IsReachable, expand-IsReachable}

-- A phone number and a linked identity that know of one another.
abbrev linked : Str → List Str
linked id =
    if str_eq id (codes "6012")
    then codes "99@lid" ∷ []
    else if str_eq id (codes "99")
    then codes "6012:3@s.whatsapp.net" ∷ []
    else []

stripped : normalize_id (codes " +6012_0:3@lid") ≡ codes "6012"
unfolding normalize_id
stripped = refl

both_found : expand linked (codes "6012@c.us") ≡ codes "99" ∷ codes "6012" ∷ []
unfolding expand str_eq
both_found = refl

shortest : canonical linked (codes "6012@c.us") ≡ codes "99"
unfolding canonical str_eq
shortest = refl

expand-IsReachable_example :
    (length (expand linked (codes "6012")) ≤ max_aliases)
    × (contains (expand linked (codes "6012")) (normalize_id (codes "6012")) ≡ true)
    × ((x : Str)
        → Memᴰ x (expand linked (codes "6012"))
        → IsReachable linked (normalize_id (codes "6012")) x)
    × (length (expand linked (codes "6012")) < max_aliases
        → (x : Str) → IsReachable linked (normalize_id (codes "6012")) x
        → contains (expand linked (codes "6012")) x ≡ true)
unfolding normalize_id
expand-IsReachable_example = expand-IsReachable linked (codes "6012") refl
