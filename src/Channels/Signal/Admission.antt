-- ===== src/Channels/Signal/Admission.antt =====
-- The access policy admits what its configuration says, and nothing else.
use workingman.Prelude.{
  ◌≡◌, ◌↔◌, ◌⊎◌, inl, inr, refl, sym, Bool, true, false, ◌&&◌, ◌||◌, not, if◌then◌else◌, arith,
  is_empty, contains, trim_space, length, ◌==◌, and_iff,
}
use workingman.Channels.Signal.{
  AccessConfig, AccessPolicy, Inbound, Decision, new_access_policy, sender_listed, decide_dm,
  decide_group, decide, admit, deny, reason_allowlisted, reason_allow_all, reason_note_to_self,
  reason_group_allowed, deny_no_chat, deny_no_sender, deny_allowlist_empty, deny_not_allowlisted,
  deny_note_to_self_disabled, deny_group_disabled, deny_group_not_allowed,
  deny_group_sender_not_allowed,
}
use workingman.Channels.Signal.Listed.{
  IsWelcome, IsServed, nobody_listed, IsWelcome-iff, IsServed-iff,
}

-- What may reach the daemon.
pub data IsAdmitted (cfg : AccessConfig) (m : Inbound) : Type 0 where
  own_note :
      is_empty (trim_space m.chat_id) ≡ false
      → m.note_to_self ≡ true
      → cfg.note_to_self ≡ true
      → IsAdmitted cfg m
  direct :
      is_empty (trim_space m.chat_id) ≡ false
      → m.note_to_self ≡ false
      → (is_empty m.sender_number && is_empty m.sender_uuid) ≡ false
      → is_empty m.group_id ≡ true
      → IsWelcome cfg m
      → IsAdmitted cfg m
  in_group :
      is_empty (trim_space m.chat_id) ≡ false
      → m.note_to_self ≡ false
      → (is_empty m.sender_number && is_empty m.sender_uuid) ≡ false
      → is_empty m.group_id ≡ false
      → IsServed cfg m
      → IsWelcome cfg m
      → IsAdmitted cfg m

dm_cases :
    (a z l : Bool)
    → (z ≡ true → l ≡ false)
    → (if a
        then admit reason_allow_all
        else if z
        then deny deny_allowlist_empty
        else if l
        then admit reason_allowlisted
        else deny deny_not_allowlisted).allowed
      ≡ (a || l)
dm_cases true z l h = refl
dm_cases false true l h = sym (h refl)
dm_cases false false true h = refl
dm_cases false false false h = refl

dm_lem :
    (p : AccessPolicy) (m : Inbound) → (decide_dm p m).allowed ≡ (p.allow_all || sender_listed p m)
unfolding decide_dm
dm_lem p m = dm_cases p.allow_all (length p.allow == 0) (sender_listed p m) (nobody_listed p m)

group_cases :
    (g c a l : Bool)
    → (if not g
        then deny deny_group_disabled
        else if not c
        then deny deny_group_not_allowed
        else if a
        then admit reason_allow_all
        else if l
        then admit reason_group_allowed
        else deny deny_group_sender_not_allowed).allowed
      ≡ ((g && c) && (a || l))
group_cases false c a l = refl
group_cases true false a l = refl
group_cases true true true l = refl
group_cases true true false true = refl
group_cases true true false false = refl

group_lem :
    (p : AccessPolicy) (m : Inbound)
    → (decide_group p m).allowed
      ≡ ((p.groups && contains p.group_allow m.group_id) && (p.allow_all || sender_listed p m))
unfolding decide_group
group_lem p m =
    group_cases p.groups (contains p.group_allow m.group_id) p.allow_all (sender_listed p m)

-- The verdict of `decide` by its tests: the chat is blank, the message is a note to self, those are
-- enabled, the sender is unknown, the message is in no group, and the verdicts of the two parts.
abbrev verdict : Bool → Bool → Bool → Bool → Bool → Bool → Bool → Bool
verdict blank note notes unknown alone dm gr =
    not blank && (if note then notes else (not unknown && (if alone then dm else gr)))

abbrev Passes : Bool → Bool → Bool → Bool → Bool → Bool → Bool → Type 0
Passes blank note notes unknown alone dm gr =
    (blank ≡ false)
    × (((note ≡ true) × (notes ≡ true))
        ⊎ ((note ≡ false)
            × (unknown ≡ false)
            × (((alone ≡ true) × (dm ≡ true)) ⊎ ((alone ≡ false) × (gr ≡ true)))))

verdict_iff :
    (blank note notes unknown alone dm gr : Bool)
    → (verdict blank note notes unknown alone dm gr ≡ true)
      ↔ Passes blank note notes unknown alone dm gr
verdict_iff true note notes unknown alone dm gr = (λ h. cc, λ h. cc h.0)
verdict_iff false true notes unknown alone dm gr =
    (λ h. (refl, inl (refl, h)), λ h. elim h.1 [ inl x ↦ x.1 | inr y ↦ cc y.0 ])
verdict_iff false false notes true alone dm gr =
    (λ h. cc, λ h. elim h.1 [ inl x ↦ cc x.0 | inr y ↦ cc y.1 ])
verdict_iff false false notes false true dm gr = (
  λ h. (refl, inr (refl, refl, inl (refl, h))),
  λ h. elim h.1 [ inl x ↦ cc x.0 | inr y ↦ elim y.2 [ inl d ↦ d.1 | inr g ↦ cc g.0 ] ],
)
verdict_iff false false notes false false dm gr = (
  λ h. (refl, inr (refl, refl, inr (refl, h))),
  λ h. elim h.1 [ inl x ↦ cc x.0 | inr y ↦ elim y.2 [ inl d ↦ cc d.0 | inr g ↦ g.1 ] ],
)

decide_cases :
    (blank note notes unknown alone : Bool) (g d : Decision)
    → g.from_owner ≡ false
    → d.from_owner ≡ false
    → let r =
        if blank
        then deny deny_no_chat
        else if note
        then (if not notes
            then deny deny_note_to_self_disabled
            else record { allowed = true; cause = reason_note_to_self; from_owner = true })
        else if unknown
        then deny deny_no_sender
        else if not alone
        then g
        else d in
      (r.allowed ≡ verdict blank note notes unknown alone d.allowed g.allowed)
      × (r.from_owner ≡ (note && verdict blank note notes unknown alone d.allowed g.allowed))
decide_cases true note notes unknown alone g d x y = (refl, ground arith)
decide_cases false true true unknown alone g d x y = (refl, refl)
decide_cases false true false unknown alone g d x y = (refl, refl)
decide_cases false false notes true alone g d x y = (refl, refl)
decide_cases false false notes false true g d x y = (refl, y)
decide_cases false false notes false false g d x y = (refl, x)

dm_owner : (p : AccessPolicy) (m : Inbound) → (decide_dm p m).from_owner ≡ false
unfolding decide_dm
dm_owner p m = by_tests p.allow_all (length p.allow == 0) (sender_listed p m)
  where
    by_tests :
        (a z l : Bool)
        → (if a
            then admit reason_allow_all
            else if z
            then deny deny_allowlist_empty
            else if l
            then admit reason_allowlisted
            else deny deny_not_allowlisted).from_owner
          ≡ false
    by_tests true z l = refl
    by_tests false true l = refl
    by_tests false false true = refl
    by_tests false false false = refl

group_owner : (p : AccessPolicy) (m : Inbound) → (decide_group p m).from_owner ≡ false
unfolding decide_group
group_owner p m =
    by_tests p.groups (contains p.group_allow m.group_id) p.allow_all (sender_listed p m)
  where
    by_tests :
        (g c a l : Bool)
        → (if not g
            then deny deny_group_disabled
            else if not c
            then deny deny_group_not_allowed
            else if a
            then admit reason_allow_all
            else if l
            then admit reason_group_allowed
            else deny deny_group_sender_not_allowed).from_owner
          ≡ false
    by_tests false c a l = refl
    by_tests true false a l = refl
    by_tests true true true l = refl
    by_tests true true false true = refl
    by_tests true true false false = refl

module _ (cfg : AccessConfig) (m : Inbound) where
  policy_verdict : Bool
  policy_verdict =
      verdict (is_empty (trim_space m.chat_id)) m.note_to_self cfg.note_to_self
        (is_empty m.sender_number && is_empty m.sender_uuid) (is_empty m.group_id)
        (decide_dm (new_access_policy cfg) m).allowed
        (decide_group (new_access_policy cfg) m).allowed

  decided :
      ((decide (new_access_policy cfg) m).allowed ≡ policy_verdict)
      × ((decide (new_access_policy cfg) m).from_owner ≡ (m.note_to_self && policy_verdict))
  unfolding decide policy_verdict new_access_policy
  decided =
      decide_cases (is_empty (trim_space m.chat_id)) m.note_to_self cfg.note_to_self
        (is_empty m.sender_number && is_empty m.sender_uuid) (is_empty m.group_id) _ _
        (group_owner (new_access_policy cfg) m) (dm_owner (new_access_policy cfg) m)

  direct_iff : ((decide_dm (new_access_policy cfg) m).allowed ≡ true) ↔ IsWelcome cfg m
  unfolding new_access_policy
  direct_iff = rw (dm_lem (new_access_policy cfg) m) (IsWelcome-iff cfg m)

  grouped_iff :
      ((decide_group (new_access_policy cfg) m).allowed ≡ true) ↔ (IsServed cfg m × IsWelcome cfg m)
  unfolding new_access_policy
  grouped_iff =
      rw (group_lem (new_access_policy cfg) m)
        (and_iff _ _ (IsServed-iff cfg m) (IsWelcome-iff cfg m))

  IsAdmitted-iff : (policy_verdict ≡ true) ↔ IsAdmitted cfg m
  unfolding policy_verdict
  IsAdmitted-iff =
      let parts =
        verdict_iff (is_empty (trim_space m.chat_id)) m.note_to_self cfg.note_to_self
          (is_empty m.sender_number && is_empty m.sender_uuid) (is_empty m.group_id)
          (decide_dm (new_access_policy cfg) m).allowed
          (decide_group (new_access_policy cfg) m).allowed in
      (
        λ h.
            let (chat, rest) = parts.0 h in
            elim rest [
              | inl (note, notes) ↦ own_note chat note notes
              | inr (note, known, inl (alone, d)) ↦ direct chat note known alone (direct_iff.0 d)
              | inr (note, known, inr (alone, g)) ↦
                  in_group chat note known alone (grouped_iff.0 g).0 (grouped_iff.0 g).1
            ],
        λ a. parts.1 (elim a [
          | own_note chat note notes ↦ (chat, inl (note, notes))
          | direct chat note known alone w ↦ (chat, inr (note, known, inl (alone, direct_iff.1 w)))
          | in_group chat note known alone s w ↦
              (chat, inr (note, known, inr (alone, grouped_iff.1 (s, w))))
        ]),
      )

-- The policy of a configuration admits a message exactly in these cases, in each of which the chat is
-- named: it is a note of the owner and those are enabled; or the sender has a number or a UUID and
-- everybody may write, or an entry of the allowlist and one of the sender's ids normalise to the same
-- id, and where the message stands in a group, groups are enabled and an entry of the list of groups
-- names it. It marks a message as the owner's exactly when it admits a note to self.
pub decide_iff :
    (cfg : AccessConfig) (m : Inbound)
    → (((decide (new_access_policy cfg) m).allowed ≡ true) ↔ IsAdmitted cfg m)
      × (((decide (new_access_policy cfg) m).from_owner ≡ true)
          ↔ (IsAdmitted cfg m × (m.note_to_self ≡ true)))
decide_iff cfg m =
    let (allowed, owner) = decided cfg m in
    (
      rw allowed (IsAdmitted-iff cfg m),
      rw owner (
          let both = and_iff m.note_to_self _ (λ h. h, λ h. h) (IsAdmitted-iff cfg m) in
          (λ h. ((both.0 h).1, (both.0 h).0), λ h. both.1 (h.1, h.0))),
    )
