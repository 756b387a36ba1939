-- ===== src/Router/Permission/Samples.antt =====
-- Tests and instances for the answers to permission requests.
use workingman.Prelude.{
  ◌≡◌, refl, true, false, none, some, List, [], ◌∷◌, Str, codes, str_eq, contains,
}
use workingman.Router.Permission.{Choice, parse_decision, is_allow, normal_reply}
use workingman.Router.Permission.Consent.{
  AreDistinct, IsConsent, parse_decision-IsConsent, parse_decision_refuses,
}

abbrev choices : List Choice
choices =
    record { id = codes "a"; name = codes "Allow once"; kind = codes "allow_once" }
    ∷ record { id = codes "b"; name = codes "Always"; kind = codes "allow_always" }
    ∷ record { id = codes "c"; name = codes "Reject"; kind = codes "reject_once" }
    ∷ []

choices_distinct : AreDistinct choices
unfolding str_eq
choices_distinct = (refl, (refl, (refl, tt)), (refl, (refl, tt), (refl, tt, tt)))

by_its_number : parse_decision choices (codes " 2.") ≡ some (codes "b")
unfolding parse_decision str_eq
by_its_number = refl

allowed : is_allow choices (codes "b") ≡ true
unfolding is_allow
allowed = refl

refused : parse_decision choices (codes "No!") ≡ some (codes "c")
unfolding parse_decision str_eq
refused = refl

not_read : parse_decision choices (codes "4") ≡ none
unfolding parse_decision str_eq
not_read = refl

parse_decision-IsConsent_example : IsConsent choices (normal_reply (codes " 2."))
parse_decision-IsConsent_example =
    parse_decision-IsConsent choices choices_distinct (codes " 2.") (codes "b") by_its_number
      allowed

parse_decision_refuses_example :
    (id : Str) × (parse_decision choices (codes "No!") ≡ some id) × (is_allow choices id ≡ false)
unfolding normal_reply contains str_eq
parse_decision_refuses_example = parse_decision_refuses choices choices_distinct (codes "No!") refl
