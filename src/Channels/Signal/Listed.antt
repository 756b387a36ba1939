-- ===== src/Channels/Signal/Listed.antt =====
-- The tests of the Signal access policy on senders and groups decide what the configuration says.
use workingman.Prelude.{
  ◌≡◌, ◌↔◌, ◌⊎◌, inl, inr, refl, sym, ◌∙◌, ap, true, false, ◌&&◌, ◌||◌, arith, Option, none, some,
  List, [], ◌∷◌, Str, str_eq, str_eq_iff, contains, map, trim_space, trim_prefix, length,
  Option-cases, none-ne-some, some_inj, false≢true, ◌==◌, or_iff, and_iff,
}
use workingman.Channels.Signal.{
  AccessConfig, AccessPolicy, Inbound, normalize_id, allow_entries, new_access_policy, id_listed,
  sender_listed, group_prefix,
}

-- Some item of the list satisfies the predicate.
abbrev pub Any : (Str → Type 0) → List Str → Type 0
Any P [] = ⊥
Any P (x ∷ xs) = P x ⊎ Any P xs

-- Two texts are ids of persons, and the same.
abbrev pub SamePerson : Str → Str → Type 0
SamePerson a b = (n : Str) × (normalize_id a ≡ some n) × (normalize_id b ≡ some n)

-- An entry of the allowlist is the sender's number or UUID.
abbrev pub IsListed : AccessConfig → Inbound → Type 0
IsListed cfg m = Any (λ e. SamePerson e m.sender_number ⊎ SamePerson e m.sender_uuid) cfg.allow_from

-- Everybody may talk to the agent, or the sender is on the allowlist.
abbrev pub IsWelcome : AccessConfig → Inbound → Type 0
IsWelcome cfg m = (cfg.allow_all ≡ true) ⊎ IsListed cfg m

-- A message in a group: groups are served, and this one is.
abbrev pub IsServed : AccessConfig → Inbound → Type 0
IsServed cfg m =
    (cfg.groups ≡ true)
    × Any (λ g. trim_prefix group_prefix (trim_space g) ≡ m.group_id) cfg.group_allow_from

contains-map_iff :
    (f : Str → Str) (xs : List Str) (s : Str)
    → (contains (map f xs) s ≡ true) ↔ Any (λ x. f x ≡ s) xs
unfolding contains
contains-map_iff f [] s = (λ h. cc, λ h. elim h [ ])
contains-map_iff f (x ∷ xs) s =
    or_iff (str_eq (f x) s) _ (str_eq_iff (f x) s) (contains-map_iff f xs s)

Any-or : (P Q : Str → Type 0) (xs : List Str) → (Any P xs ⊎ Any Q xs) ↔ Any (λ x. P x ⊎ Q x) xs
Any-or P Q [] = (λ h. elim h [ inl e ↦ e | inr e ↦ e ], λ h. elim h [ ])
Any-or P Q (x ∷ xs) = (
  λ h. elim h [
    | inl (inl p) ↦ inl (inl p)
    | inl (inr r) ↦ inr ((Any-or P Q xs).0 (inl r))
    | inr (inl q) ↦ inl (inr q)
    | inr (inr r) ↦ inr ((Any-or P Q xs).0 (inr r))
  ],
  λ h. elim h [
    | inl (inl p) ↦ inl (inl p)
    | inl (inr q) ↦ inr (inl q)
    | inr r ↦ elim ((Any-or P Q xs).1 r) [ inl a ↦ inl (inr a) | inr b ↦ inr (inr b) ]
  ],
)

allow_entries_iff :
    (es : List Str) (n : Str)
    → (contains (allow_entries es) n ≡ true) ↔ Any (λ e. normalize_id e ≡ some n) es
unfolding allow_entries contains
allow_entries_iff [] n = (λ h. cc, λ h. elim h [ ])
allow_entries_iff (e ∷ es) n = by_id (normalize_id e) refl (allow_entries_iff es n)
  where
    by_id :
        (o : Option Str)
        → normalize_id e ≡ o
        → (contains (allow_entries es) n ≡ true) ↔ Any (λ e. normalize_id e ≡ some n) es
        → (contains (elim o [ none ↦ allow_entries es | some k ↦ k ∷ allow_entries es ]) n ≡ true)
          ↔ ((normalize_id e ≡ some n) ⊎ Any (λ e. normalize_id e ≡ some n) es)
    by_id none h ih = (
      λ c. inr (ih.0 c),
      λ a. elim a [ inl x ↦ absurd (none-ne-some (sym h ∙ x)) | inr y ↦ ih.1 y ],
    )
    by_id (some k) h ih =
        or_iff (str_eq k n) _
          (
            (λ x. h ∙ ap some ((str_eq_iff k n).0 x)),
            λ x. (str_eq_iff k n).1 (some_inj (sym h ∙ x)),
          )
          ih

Any-map : (P Q : Str → Type 0) (xs : List Str) → ((x : Str) → P x → Q x) → Any P xs → Any Q xs
Any-map P Q [] f a = elim a [ ]
Any-map P Q (x ∷ xs) f (inl p) = inl (f x p)
Any-map P Q (x ∷ xs) f (inr r) = inr (Any-map P Q xs f r)

id_listed_iff :
    (es : List Str) (id : Str)
    → (id_listed (allow_entries es) id ≡ true) ↔ Any (λ e. SamePerson e id) es
unfolding id_listed
id_listed_iff es id = by_id (normalize_id id) refl
  where
    by_id :
        (o : Option Str)
        → normalize_id id ≡ o
        → ((elim o [ none ↦ false | some n ↦ contains (allow_entries es) n ]) ≡ true)
          ↔ Any (λ e. SamePerson e id) es
    by_id none h = (λ c. absurd (false≢true c), λ a. absurd (nobody es a))
      where
        nobody : (es : List Str) → Any (λ e. SamePerson e id) es → ⊥
        nobody [] a = a
        nobody (e ∷ es) (inl (n, a, b)) = none-ne-some (sym h ∙ b)
        nobody (e ∷ es) (inr r) = nobody es r
    by_id (some n) h = (
      λ c. Any-map _ _ es (λ e a. (n, a, h)) ((allow_entries_iff es n).0 c),
      λ a. (allow_entries_iff es n).1 (Any-map _ _ es (λ e x. x.1 ∙ sym x.2 ∙ h) a),
    )

id_listed_none : (id : Str) → id_listed [] id ≡ false
unfolding id_listed contains
id_listed_none id = elim (Option-cases (normalize_id id)) [
  | inl e ↦ rw (id_listed, e) refl
  | inr (n, e) ↦ rw (id_listed, e) refl
]

pub nobody_listed :
    (p : AccessPolicy) (m : Inbound) → (length p.allow == 0) ≡ true → sender_listed p m ≡ false
unfolding sender_listed
nobody_listed p m h = of_none p.allow h
  where
    of_none :
        (allow : List Str)
        → (length allow == 0) ≡ true
        → (id_listed allow m.sender_number || id_listed allow m.sender_uuid) ≡ false
    of_none [] h = rw (id_listed_none m.sender_number) (id_listed_none m.sender_uuid)
    of_none (x ∷ xs) h = absurd (ground arith)

pub IsWelcome-iff :
    (cfg : AccessConfig) (m : Inbound)
    → ((cfg.allow_all || sender_listed (new_access_policy cfg) m) ≡ true) ↔ IsWelcome cfg m
unfolding sender_listed new_access_policy
IsWelcome-iff cfg m =
    or_iff cfg.allow_all _ (λ h. h, λ h. h)
      (let both =
          or_iff _ _ (id_listed_iff cfg.allow_from m.sender_number)
            (id_listed_iff cfg.allow_from m.sender_uuid) in
        let split =
          Any-or (λ e. SamePerson e m.sender_number) (λ e. SamePerson e m.sender_uuid)
            cfg.allow_from in
        (λ h. split.0 (both.0 h), λ h. both.1 (split.1 h)))

pub IsServed-iff :
    (cfg : AccessConfig) (m : Inbound)
    → ((cfg.groups && contains (new_access_policy cfg).group_allow m.group_id) ≡ true)
      ↔ IsServed cfg m
unfolding new_access_policy
IsServed-iff cfg m =
    and_iff cfg.groups _ (λ h. h, λ h. h) (contains-map_iff _ cfg.group_allow_from m.group_id)
