-- ===== src/Task/Names.antt =====
-- The names that Slugify and SlugifyFor make (internal/task/task.go).
use workingman.Prelude.{
  ℕ, zero, suc, ◌≤◌, ◌≡◌, refl, ◌⊎◌, inl, inr, Bool, true, false, ◌&&◌, ◌||◌, not, [], ◌∷◌, Str,
  codes, arith, ltb, ◌==◌, length, take, length-take, is_empty, trim_left, trim_right, drop_last_of,
  trim, length-trim, Bool-cases, if◌then◌else◌,
}
use workingman.Sbx.{is_alnum}
use workingman.Task.{name_re, valid_name, slug_runes, slugify, to_lower}

-- Letters, digits and hyphens, no two hyphens in a row; `dash` says that a hyphen stands before.
pub single : Bool → Str → Bool
single dash [] = true
single dash (c ∷ cs) = (is_alnum c || c == b'-' && not dash) && single (not (is_alnum c)) cs

slug_runes-single : (dash : Bool) (s : Str) → single dash (slug_runes dash s) ≡ true
unfolding single slug_runes
slug_runes-single dash [] = refl
slug_runes-single true (c ∷ s) = ground (arith, slug_runes-single false s, slug_runes-single true s)
slug_runes-single false (c ∷ s) =
    ground (arith, slug_runes-single false s, slug_runes-single true s)

trim_left-single :
    (dash : Bool) (s : Str) → single dash s ≡ true → single true (trim_left b'-' s) ≡ true
unfolding single trim_left
trim_left-single dash [] h = refl
trim_left-single dash (c ∷ s) h = ground (arith, trim_left-single true s, trim_left-single false s)

pub take-single :
    (n : ℕ) (dash : Bool) (s : Str) → single dash s ≡ true → single dash (take n s) ≡ true
unfolding single
take-single zero dash s h = refl
take-single (suc n) dash [] h = refl
take-single (suc n) dash (c ∷ s) h = ground (arith, take-single n (not (is_alnum c)) s)

-- A text of that kind, without its hyphens at the end, is empty or ends a name.
pub trim_right-name_re :
    (dash : Bool) (s : Str)
    → single dash s ≡ true
    → (name_re (not dash) (trim_right b'-' s) ≡ true) ⊎ (trim_right b'-' s ≡ [])
unfolding single trim_right name_re
trim_right-name_re dash [] h = inr refl
trim_right-name_re dash (c ∷ s) h =
    go (trim_right b'-' s) (trim_right-name_re (not (is_alnum c)) s (ground arith))
  where
    go :
        (t : Str)
        → (name_re (not (not (is_alnum c))) t ≡ true) ⊎ (t ≡ [])
        → (name_re (not dash) (drop_last_of b'-' c t) ≡ true) ⊎ (drop_last_of b'-' c t ≡ [])
    go [] ih = ground arith
    go (x ∷ t) ih = ground arith

pub name_re-single : (after : Bool) (s : Str) → name_re after s ≡ true → single (not after) s ≡ true
unfolding single name_re
name_re-single after [] h = refl
name_re-single after (c ∷ s) h = ground (arith, name_re-single (is_alnum c) s)

abbrev pub IsName : Str → Type 0
IsName s = (name_re false s ≡ true) ⊎ (s ≡ [])

trim-IsName : (dash : Bool) (s : Str) → single dash s ≡ true → IsName (trim b'-' s)
unfolding trim
trim-IsName dash s h = trim_right-name_re true (trim_left b'-' s) (trim_left-single dash s h)

IsName-single : (s : Str) → IsName s → single true s ≡ true
unfolding single
IsName-single s (inl h) = name_re-single false s h
IsName-single s (inr e) = rw e

-- The three stages of Slugify: the loop, the trimming and the cap.
capped-IsName :
    (slug : Str)
    → IsName slug
    → let capped = if ltb 63 (length slug) then trim b'-' (take 63 slug) else slug in
      IsName capped × (length capped ≤ 63)
capped-IsName slug h = elim (Bool-cases (ltb 63 (length slug))) [
  | inl long ↦ rw long (
    trim-IsName true (take 63 slug) (take-single 63 true slug (IsName-single slug h)),
    omega (arith, length-trim b'-' (take 63 slug), length-take 63 slug),
  )
  | inr short ↦ rw short (h, ground arith)
]

nonempty-valid_name :
    (s : Str) → IsName s → length s ≤ 63 → is_empty s ≡ false → valid_name s ≡ true
unfolding valid_name
nonempty-valid_name [] h l e = cc
nonempty-valid_name (c ∷ s) h l e = ground arith

-- Whatever text it is given, Slugify makes a valid task name.
pub slugify-valid_name : (s : Str) → valid_name (slugify s) ≡ true
unfolding slugify
slugify-valid_name s =
    go _ (capped-IsName _ (trim-IsName false _ (slug_runes-single false (to_lower s))))
  where
    go :
        (c : Str)
        → IsName c × (length c ≤ 63)
        → valid_name (if is_empty c then codes "task" else c) ≡ true
    go [] h = unfold valid_name in refl
    go (x ∷ c) h = nonempty-valid_name (x ∷ c) h.0 h.1 refl
