-- ===== src/Channels/Whatsapp/Fresh.antt =====
-- The aliases that Expand puts on its queue.
use workingman.Prelude.{
  or_left, or_right, eq→str_eq, ◌≡◌, ◌⊎◌, inl, inr, refl, sym, ◌∙◌, ap, Bool, true, false, ◌||◌,
  if◌then◌else◌, List, [], ◌∷◌, Str, str_eq, is_empty, contains, true≢false,
}
use mathlib.Core.List.{Memᴰ}
use workingman.Channels.Whatsapp.{normalize_id, fresh_aliases}

pub fresh_at :
    (out as' : List Str) (x : Str)
    → Memᴰ x (fresh_aliases out as')
    → (a : Str) × Memᴰ a as' × (x ≡ normalize_id a) × (is_empty (normalize_id a) ≡ false)
unfolding fresh_aliases
fresh_at out [] x m = elim m [ ]
fresh_at out (a ∷ as') x m =
    by_test (is_empty (normalize_id a)) (contains out (normalize_id a)) refl (fresh_at out as' x) m
  where
    later :
        ((b : Str) × Memᴰ b as' × (x ≡ normalize_id b) × (is_empty (normalize_id b) ≡ false))
        → (b : Str) × Memᴰ b (a ∷ as') × (x ≡ normalize_id b) × (is_empty (normalize_id b) ≡ false)
    later (b, m, e, f) = (b, Memᴰ.tail m, e, f)

    by_test :
        (e c : Bool)
        → is_empty (normalize_id a) ≡ e
        → (Memᴰ x (fresh_aliases out as')
            → (b : Str) × Memᴰ b as' × (x ≡ normalize_id b) × (is_empty (normalize_id b) ≡ false))
        → Memᴰ x (if e || c then fresh_aliases out as' else normalize_id a ∷ fresh_aliases out as')
        → (b : Str) × Memᴰ b (a ∷ as') × (x ≡ normalize_id b) × (is_empty (normalize_id b) ≡ false)
    by_test true c h ih m = later (ih m)
    by_test false true h ih m = later (ih m)
    by_test false false h ih (Memᴰ.head e) = (a, Memᴰ.head refl, e, h)
    by_test false false h ih (Memᴰ.tail m) = later (ih m)

pub fresh_has :
    (out as' : List Str) (a : Str)
    → Memᴰ a as'
    → is_empty (normalize_id a) ≡ false
    → (contains out (normalize_id a) ≡ true)
      ⊎ (contains (fresh_aliases out as') (normalize_id a) ≡ true)
unfolding fresh_aliases contains
fresh_has out [] a m h = elim m [ ]
fresh_has out (b ∷ as') a m h = by_place m (fresh_has out as' a)
  where
    kept :
        (e c : Bool)
        → contains (fresh_aliases out as') (normalize_id a) ≡ true
        → contains
            (if e || c then fresh_aliases out as' else normalize_id b ∷ fresh_aliases out as')
            (normalize_id a)
          ≡ true
    kept true c y = y
    kept false true y = y
    kept false false y = or_right (str_eq (normalize_id b) (normalize_id a)) _ y

    here :
        normalize_id a ≡ normalize_id b
        → (e c : Bool) → is_empty (normalize_id b) ≡ e
        → contains out (normalize_id b) ≡ c
        → (contains out (normalize_id a) ≡ true)
          ⊎ (contains
                (if e || c then fresh_aliases out as' else normalize_id b ∷ fresh_aliases out as')
                (normalize_id a)
              ≡ true)
    here same true c x y = absurd (true≢false (sym x ∙ ap is_empty (sym same) ∙ h))
    here same false true x y = inl (ap (contains out) same ∙ y)
    here same false false x y =
        inr (or_left (str_eq (normalize_id b) (normalize_id a)) _ (eq→str_eq _ _ (sym same)))

    by_place :
        Memᴰ a (b ∷ as')
        → (Memᴰ a as'
            → is_empty (normalize_id a) ≡ false
            → (contains out (normalize_id a) ≡ true)
              ⊎ (contains (fresh_aliases out as') (normalize_id a) ≡ true))
        → (contains out (normalize_id a) ≡ true)
          ⊎ (contains
                (if is_empty (normalize_id b) || contains out (normalize_id b)
                  then fresh_aliases out as'
                  else normalize_id b ∷ fresh_aliases out as')
                (normalize_id a)
              ≡ true)
    by_place (Memᴰ.head e) ih =
        here (ap normalize_id e) (is_empty (normalize_id b)) (contains out (normalize_id b)) refl
          refl
    by_place (Memᴰ.tail m) ih = elim (ih m h) [
      | inl x ↦ inl x
      | inr y ↦ inr (kept (is_empty (normalize_id b)) (contains out (normalize_id b)) y)
    ]
