-- ===== src/Channels/Signal.antt =====
-- internal/channels/signal/policy.go and config.go: which inbound Signal messages reach the daemon.
pub mod Listed
pub mod Admission
pub mod Samples
use workingman.Prelude.{
  ℕ, Bool, true, false, ◌&&◌, ◌||◌, not, ◌==◌, leb, if◌then◌else◌, Option, none, some, List, [],
  ◌∷◌, Str, codes, is_empty, contains, map, length, trim_space, trim_prefix, to_lower, all, ◌+◌,
}

-- The five characters that NormalizeNumber drops.
abbrev pub is_separator : ℕ → Bool
is_separator c = c == b' ' || c == b'-' || c == b'(' || c == b')' || c == b'.'

unfoldable pub drop_separators : Str → Str
drop_separators [] = []
drop_separators (c ∷ s) = let rest = drop_separators s in if is_separator c then rest else c ∷ rest

abbrev pub is_digit : ℕ → Bool
is_digit c = leb b'0' c && leb c b'9'

abbrev pub is_hex : ℕ → Bool
is_hex c = is_digit c || (leb b'a' c && leb c b'f') || (leb b'A' c && leb c b'F')

abbrev pub plus_digits : Str → Bool
plus_digits [] = false
plus_digits (c ∷ s) =
    leb b'1' c && leb c b'9' && all is_digit s && leb 6 (length s) && leb (length s) 14

-- e164RE
abbrev pub is_e164 : Str → Bool
is_e164 [] = false
is_e164 (c ∷ s) = c == b'+' && plus_digits s

-- uuidRE: a text that fits this template, where an x stands for a hexadecimal digit.
abbrev pub uuid_template : Str
uuid_template = codes "xxxxxxxx-xxxx-xxxx-xxxx-xxxxxxxxxxxx"

unfoldable pub fits : Str → Str → Bool
fits [] [] = true
fits [] (c ∷ s) = false
fits (t ∷ ts) [] = false
fits (t ∷ ts) (c ∷ s) = (if t == b'x' then is_hex c else c == t) && fits ts s

-- NormalizeNumber, where it succeeds.
unfoldable pub normalize_number : Str → Option Str
unfolding drop_separators trim_space
normalize_number s = let n = drop_separators (trim_space s) in if is_e164 n then some n else none

-- normalizeID
unfoldable pub normalize_id : Str → Option Str
unfolding normalize_number fits trim_space
normalize_id s = elim (normalize_number s) [
  | some n ↦ some n
  | none ↦ if fits uuid_template (trim_space s) then some (to_lower (trim_space s)) else none
]

-- GroupPrefix
abbrev pub group_prefix : Str
group_prefix = codes "group:"

-- AccessConfig
pub record AccessConfig : Type 0 where
  pub allow_from : List Str
  pub allow_all : Bool
  pub note_to_self : Bool
  pub groups : Bool
  pub group_allow_from : List Str

-- AccessPolicy, without its logger; the sets are lists.
pub record AccessPolicy : Type 0 where
  pub allow : List Str
  pub allow_all : Bool
  pub note_to_self : Bool
  pub groups : Bool
  pub group_allow : List Str

-- The allowlist of NewAccessPolicy: entries that are no person's id are dropped.
unfoldable pub allow_entries : List Str → List Str
unfolding normalize_id
allow_entries [] = []
allow_entries (e ∷ es) =
    let rest = allow_entries es in elim (normalize_id e) [ none ↦ rest | some n ↦ n ∷ rest ]

-- NewAccessPolicy
unfoldable pub new_access_policy : AccessConfig → AccessPolicy
unfolding allow_entries trim_space trim_prefix
new_access_policy cfg = record {
  allow = allow_entries cfg.allow_from;
  allow_all = cfg.allow_all;
  note_to_self = cfg.note_to_self;
  groups = cfg.groups;
  group_allow = map (λ g. trim_prefix group_prefix (trim_space g)) cfg.group_allow_from;
}

-- Inbound: what the policy reads of a message.
pub record Inbound : Type 0 where
  pub chat_id : Str
  pub sender_number : Str
  pub sender_uuid : Str
  pub group_id : Str
  pub note_to_self : Bool

pub data Reason : Type 0 where
  reason_allowlisted reason_allow_all reason_note_to_self reason_group_allowed : Reason
  deny_no_chat deny_no_sender deny_allowlist_empty deny_not_allowlisted deny_note_to_self_disabled :
      Reason
  deny_group_disabled deny_group_not_allowed deny_group_sender_not_allowed : Reason

pub record Decision : Type 0 where
  pub allowed : Bool
  pub cause : Reason
  pub from_owner : Bool

abbrev pub deny : Reason → Decision
deny r = record { allowed = false; cause = r; from_owner = false }

abbrev pub admit : Reason → Decision
admit r = record { allowed = true; cause = r; from_owner = false }

-- One id of senderListed.
unfoldable pub id_listed : List Str → Str → Bool
unfolding normalize_id contains
id_listed allow id = elim (normalize_id id) [ none ↦ false | some n ↦ contains allow n ]

-- senderListed
unfoldable pub sender_listed : AccessPolicy → Inbound → Bool
unfolding id_listed
sender_listed p m = id_listed p.allow m.sender_number || id_listed p.allow m.sender_uuid

-- decideDM
unfoldable pub decide_dm : AccessPolicy → Inbound → Decision
unfolding sender_listed
decide_dm p m =
    if p.allow_all
    then admit reason_allow_all
    else if length p.allow == 0
    then deny deny_allowlist_empty
    else if sender_listed p m
    then admit reason_allowlisted
    else deny deny_not_allowlisted

-- decideGroup
unfoldable pub decide_group : AccessPolicy → Inbound → Decision
unfolding sender_listed contains
decide_group p m =
    if not p.groups
    then deny deny_group_disabled
    else if not (contains p.group_allow m.group_id)
    then deny deny_group_not_allowed
    else if p.allow_all
    then admit reason_allow_all
    else if sender_listed p m
    then admit reason_group_allowed
    else deny deny_group_sender_not_allowed

-- decide
unfoldable pub decide : AccessPolicy → Inbound → Decision
unfolding decide_dm decide_group trim_space
decide p m =
    if is_empty (trim_space m.chat_id)
    then deny deny_no_chat
    else if m.note_to_self
    then (if not p.note_to_self
        then deny deny_note_to_self_disabled
        else record { allowed = true; cause = reason_note_to_self; from_owner = true })
    else if is_empty m.sender_number && is_empty m.sender_uuid
    then deny deny_no_sender
    else if not (is_empty m.group_id)
    then decide_group p m
    else decide_dm p m
