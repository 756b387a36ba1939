-- ===== src/Channels/Signal/Samples.antt =====
-- Tests and instances for the Signal access policy.
use workingman.Prelude.{◌≡◌, ◌↔◌, refl, true, false, some, [], ◌∷◌, codes, str_eq}
use workingman.Channels.Signal.{
  AccessConfig, Inbound, new_access_policy, decide, normalize_id, deny_group_disabled,
  reason_allowlisted,
}
use workingman.Channels.Signal.Admission.{IsAdmitted, decide_iff}

abbrev one_person : AccessConfig
one_person = record {
  allow_from = codes "+1 (555) 765-4321" ∷ codes "everyone" ∷ [];
  allow_all = false;
  note_to_self = false;
  groups = false;
  group_allow_from = [];
}

abbrev from_phone : Inbound
from_phone = record {
  chat_id = codes "+15557654321";
  sender_number = codes "+15557654321";
  sender_uuid = [];
  group_id = [];
  note_to_self = false;
}

decide_iff_example :
    (((decide (new_access_policy one_person) from_phone).allowed ≡ true)
      ↔ IsAdmitted one_person from_phone)
    × (((decide (new_access_policy one_person) from_phone).from_owner ≡ true)
        ↔ (IsAdmitted one_person from_phone × (from_phone.note_to_self ≡ true)))
decide_iff_example = decide_iff one_person from_phone

phone_admitted : (decide (new_access_policy one_person) from_phone).cause ≡ reason_allowlisted
unfolding decide new_access_policy str_eq
phone_admitted = refl

in_a_group :
    (decide (new_access_policy one_person) (record from_phone { group_id = codes "g" })).cause
    ≡ deny_group_disabled
unfolding decide new_access_policy
in_a_group = refl

uuid_lowered :
    normalize_id (codes " 0A1B2C3D-0000-4000-8000-00000000000F")
    ≡ some (codes "0a1b2c3d-0000-4000-8000-00000000000f")
unfolding normalize_id
uuid_lowered = refl
