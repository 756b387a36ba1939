-- ===== src/Router/Permission/Consent.antt =====
-- An agent is allowed to go on only if the human said so.
use workingman.Prelude.{
  ℕ, suc, ◌≡◌, inl, inr, refl, sym, ◌∙◌, ap, Bool, true, false, ◌&&◌, ◌||◌, not, Option, none, some,
  is_some, List, [], ◌∷◌, Str, str_eq, codes, is_empty, contains, All, all, not_or_left,
  not_or_right, and_iff, trim_space, to_lower, cut_prefix, Bool-cases, none-ne-some, some_inj,
  true≢false, false≢true, subst, zero, str_eq_refl, str_eq→eq,
}
use mathlib.Core.List.{Memᴰ}
use workingman.Router.Permission.{
  Choice, choice_of, reject, yes_words, always_words, no_words, normal_reply, atoi, choice_at,
  numbered, choice_named, worded, parse_decision, allows, is_allow,
}

-- The ids of the choices are not empty, and differ.
abbrev pub AreDistinct : List Choice → Type 0
AreDistinct [] = Unit {0}
AreDistinct (c ∷ cs) =
    (is_empty c.id ≡ false) × All (λ d. str_eq c.id d.id ≡ false) cs × AreDistinct cs

-- The reply is a word of consent, or the number or the name of a choice that allows.
pub data IsConsent (cs : List Choice) (t : Str) : Type 0 where
  by_word : (contains always_words t || contains yes_words t) ≡ true → IsConsent cs t
  by_number :
      (i : ℕ) (c : Choice)
      → atoi t ≡ some (false, suc i)
      → choice_at cs i ≡ some c
      → allows c ≡ true
      → IsConsent cs t
  by_name :
      (c : Choice) → Memᴰ c cs → to_lower (trim_space c.name) ≡ t → allows c ≡ true → IsConsent cs t

All_at {ℓ} : {A : Type ℓ} (P : A → Type 0) (xs : List A) {x : A} → All P xs → Memᴰ x xs → P x
All_at P [] h m = elim m [ ]
All_at P (y ∷ ys) h (Memᴰ.head same) = subst P (sym same) h.0
All_at P (y ∷ ys) h (Memᴰ.tail m) = All_at P ys h.1 m

-- The id of an offered choice stands for that choice.
is_allow_of :
    (cs : List Choice) {c : Choice} → AreDistinct cs → Memᴰ c cs → is_allow cs c.id ≡ allows c
unfolding is_allow
is_allow_of [] h m = elim m [ ]
is_allow_of (d ∷ cs) {c} h (Memᴰ.head same) = rw (same, str_eq_refl d.id) refl
is_allow_of (d ∷ cs) {c} h (Memᴰ.tail m) =
    rw (All_at (λ e. str_eq d.id e.id ≡ false) cs h.1 m) (is_allow_of cs h.2 m)

is_allow_none : (cs : List Choice) → AreDistinct cs → is_allow cs [] ≡ false
unfolding is_allow
is_allow_none [] h = refl
is_allow_none (c ∷ cs) h = rw (differs c.id h.0) (is_allow_none cs h.2)
  where
    differs : (id : Str) → is_empty id ≡ false → str_eq id [] ≡ false
    differs [] e = absurd (true≢false e)
    differs (x ∷ xs) e = refl

-- What a search for a kind or a name finds is a choice on offer.
choice_of_mem :
    (cs : List Choice) (k id : Str)
    → choice_of cs k ≡ some id
    → (c : Choice) × Memᴰ c cs × (c.id ≡ id) × (c.kind ≡ k)
unfolding choice_of
choice_of_mem [] k id h = absurd (none-ne-some h)
choice_of_mem (c ∷ cs) k id h = elim (Bool-cases (str_eq c.kind k)) [
  | inl e ↦ (c, Memᴰ.head refl, some_inj (rw e at h), str_eq→eq c.kind k e)
  | inr e ↦ let (d, m, i, kind) = choice_of_mem cs k id (rw e at h) in (d, Memᴰ.tail m, i, kind)
]

choice_named_mem :
    (cs : List Choice) (t id : Str)
    → choice_named cs t ≡ some id
    → (c : Choice) × Memᴰ c cs × (c.id ≡ id) × (to_lower (trim_space c.name) ≡ t)
unfolding choice_named
choice_named_mem [] t id h = absurd (none-ne-some h)
choice_named_mem (c ∷ cs) t id h = elim (Bool-cases (str_eq (to_lower (trim_space c.name)) t)) [
  | inl e ↦ (c, Memᴰ.head refl, some_inj (rw e at h), str_eq→eq _ t e)
  | inr e ↦ let (d, m, i, name) = choice_named_mem cs t id (rw e at h) in (d, Memᴰ.tail m, i, name)
]

choice_at_mem : (cs : List Choice) (i : ℕ) (c : Choice) → choice_at cs i ≡ some c → Memᴰ c cs
unfolding choice_at
choice_at_mem [] i c h = absurd (none-ne-some h)
choice_at_mem (d ∷ cs) zero c h = Memᴰ.head (sym (some_inj h))
choice_at_mem (d ∷ cs) (suc i) c h = Memᴰ.tail (choice_at_mem cs i c h)

-- A decision of a kind that does not allow.
refusing :
    (cs : List Choice) (k id : Str)
    → AreDistinct cs
    → is_some (cut_prefix (codes "allow") k) ≡ false
    → choice_of cs k ≡ some id
    → is_allow cs id ≡ false
refusing cs k id h k_refuses found =
    let (c, m, i, kind) = choice_of_mem cs k id found in
    rw (sym i) (is_allow_of cs h m ∙ rw kind k_refuses)

is_allow-reject : (cs : List Choice) → AreDistinct cs → is_allow cs (reject cs) ≡ false
unfolding reject cut_prefix
is_allow-reject cs h =
    by_kinds (choice_of cs (codes "reject_once")) (choice_of cs (codes "reject_always")) refl refl
  where
    by_kinds :
        (once always : Option Str)
        → choice_of cs (codes "reject_once") ≡ once
        → choice_of cs (codes "reject_always") ≡ always
        → is_allow cs (elim once [ some id ↦ id | none ↦ elim always [ some id ↦ id | none ↦ [] ] ])
          ≡ false
    by_kinds (some id) always e f = refusing cs (codes "reject_once") id h refl e
    by_kinds none (some id) e f = refusing cs (codes "reject_always") id h refl f
    by_kinds none none e f = is_allow_none cs h

module _ (cs : List Choice) (distinct : AreDistinct cs) where
  number_consents :
      (t : Str) (negative : Bool) (n : ℕ) (id : Str)
      → atoi t ≡ some (negative, n)
      → numbered cs negative n ≡ some id
      → is_allow cs id ≡ true
      → IsConsent cs t
  unfolding numbered
  number_consents t true n id read h a = absurd (none-ne-some h)
  number_consents t false zero id read h a = absurd (none-ne-some h)
  number_consents t false (suc i) id read h a = by_choice (choice_at cs i) refl h
    where
      by_choice :
          (o : Option Choice)
          → choice_at cs i ≡ o
          → (elim o [ none ↦ none | some c ↦ some c.id ]) ≡ some id
          → IsConsent cs t
      by_choice none e h = absurd (none-ne-some h)
      by_choice (some c) e h = by_number i c read e (
          sym (is_allow_of cs distinct (choice_at_mem cs i c e))
          ∙ ap (is_allow cs) (some_inj h)
          ∙ a)

  word_consents :
      (t : Str) (id : Str) → worded cs t ≡ some id → is_allow cs id ≡ true → IsConsent cs t
  unfolding worded
  word_consents t id h a = elim (Bool-cases (contains always_words t || contains yes_words t)) [
    | inl e ↦ by_word e
    | inr e ↦ elim (Bool-cases (contains no_words t)) [
      | inl n ↦ absurd (
          false≢true
            (sym (is_allow-reject cs distinct) ∙ ap (is_allow cs) (some_inj (refusal e n ∙ h)) ∙ a))
      | inr n ↦
          let (c, m, i, name) = choice_named_mem cs t id (naming e n ∙ h) in
          by_name c m name (sym (is_allow_of cs distinct m) ∙ ap (is_allow cs) i ∙ a)
    ]
  ]
    where
      refusal :
          (contains always_words t || contains yes_words t) ≡ false
          → contains no_words t ≡ true
          → some (reject cs) ≡ worded cs t
      refusal e n =
          rw
            (
              worded,
              not_or_left (contains always_words t) (contains yes_words t) e,
              not_or_right (contains always_words t) (contains yes_words t) e,
              n,
            )
            refl

      naming :
          (contains always_words t || contains yes_words t) ≡ false
          → contains no_words t ≡ false
          → choice_named cs t ≡ worded cs t
      naming e n =
          rw
            (
              worded,
              not_or_left (contains always_words t) (contains yes_words t) e,
              not_or_right (contains always_words t) (contains yes_words t) e,
              n,
            )
            refl

  -- Where the choices of a request have different, non-empty ids and a reply is read as a decision that
  -- allows the request, the normalised reply is one of the words for yes or always, the number of a
  -- choice of a kind that allows, or the name of one.
  pub parse_decision-IsConsent :
      (text id : Str)
      → parse_decision cs text ≡ some id
      → is_allow cs id ≡ true
      → IsConsent cs (normal_reply text)
  unfolding parse_decision
  parse_decision-IsConsent text id h a = by_number_or_word (atoi (normal_reply text)) refl h
    where
      by_number_or_word :
          (o : Option (Bool × ℕ))
          → atoi (normal_reply text) ≡ o
          → (elim o [
            | some (negative, n) ↦ numbered cs negative n
            | none ↦ worded cs (normal_reply text)
          ])
            ≡ some id
          → IsConsent cs (normal_reply text)
      by_number_or_word none e h = word_consents (normal_reply text) id h a
      by_number_or_word (some (negative, n)) e h =
          number_consents (normal_reply text) negative n id e h a

-- What holds of every word of a list holds of a text in it.
word_of :
    (words : List Str) (t : Str) (p : Str → Bool)
    → all p words ≡ true
    → contains words t ≡ true
    → p t ≡ true
unfolding contains
word_of [] t p h m = absurd (false≢true m)
word_of (w ∷ ws) t p h m = elim (Bool-cases (str_eq w t)) [
  | inl e ↦
      subst (λ x. p x ≡ true) (str_eq→eq w t e)
        ((and_iff (p w) (all p ws) (λ x. x, λ x. x) (λ x. x, λ x. x)).0 h).0
  | inr e ↦
      word_of ws t p ((and_iff (p w) (all p ws) (λ x. x, λ x. x) (λ x. x, λ x. x)).0 h).1
        (rw e at m)
]

-- A text is no number, and no word for yes or always.
abbrev is_plain : Str → Bool
is_plain t = not (is_some (atoi t)) && not (contains always_words t || contains yes_words t)

no_words_plain : all is_plain no_words ≡ true
unfolding atoi contains str_eq
no_words_plain = refl

plain_atoi :
    (o : Option (Bool × ℕ)) (b : Bool)
    → (not (is_some o) && not b) ≡ true
    → (o ≡ none) × (b ≡ false)
plain_atoi none false h = (refl, refl)
plain_atoi none true h = cc
plain_atoi (some x) b h = cc

-- Where the choices of a request have different, non-empty ids, a reply that is one of the words for no
-- is read as a decision, and this decision does not allow the request.
pub parse_decision_refuses :
    (cs : List Choice)
    → AreDistinct cs
    → (text : Str) → contains no_words (normal_reply text) ≡ true
    → (id : Str) × (parse_decision cs text ≡ some id) × (is_allow cs id ≡ false)
unfolding parse_decision worded
parse_decision_refuses cs distinct text h =
    let (number, word) =
      plain_atoi _ _ (word_of no_words (normal_reply text) is_plain no_words_plain h) in
    (
      reject cs,
      rw
          (
            parse_decision,
            number,
            worded,
            not_or_left (contains always_words (normal_reply text))
                (contains yes_words (normal_reply text)) word,
            not_or_right (contains always_words (normal_reply text))
                (contains yes_words (normal_reply text)) word,
            h,
          )
          refl,
      is_allow-reject cs distinct,
    )
