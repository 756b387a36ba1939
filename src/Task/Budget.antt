-- ===== src/Task/Budget.antt =====
-- SlugifyFor (internal/task/task.go): names that fit the budget of a work stream.
use workingman.Prelude.{
  ℕ, zero, suc, ◌-◌, ◌≤◌, ◌<◌, ◌≡◌, refl, ap, ◌&&◌, inl, inr, Bool, true, false, [], ◌∷◌, ◌++◌, Str,
  arith, leb, ltb, length, take, length-take, is_empty, trim_right, All,
}
use workingman.Sbx.{is_alnum, IsHexDigest, fit_name_to}
use workingman.Sbx.Fit.{length-fit_name_to}
use workingman.Task.{name_re, valid_name, valid_name_for, max_name_len_for, slugify, slugify_for}
use workingman.Task.Names.{
  IsName, name_re-single, take-single, trim_right-name_re, slugify-valid_name,
}

abbrev AllAlnum : Str → Type 0
AllAlnum = All (λ c. is_alnum c ≡ true)

take-AllAlnum : (n : ℕ) (s : Str) → AllAlnum s → AllAlnum (take n s)
take-AllAlnum zero s h = tt
take-AllAlnum (suc n) [] h = tt
take-AllAlnum (suc n) (c ∷ s) h = (h.0, take-AllAlnum n s h.1)

AllAlnum-name_re : (s : Str) → AllAlnum s → name_re true s ≡ true
unfolding name_re
AllAlnum-name_re [] h = refl
AllAlnum-name_re (c ∷ s) h = rw h.0 (AllAlnum-name_re s h.1)

AllAlnum-IsName : (s : Str) → AllAlnum s → IsName s
unfolding name_re
AllAlnum-IsName [] h = inr refl
AllAlnum-IsName (c ∷ s) h = inl (rw h.0 (AllAlnum-name_re s h.1))

-- Two names with a hyphen between them are a name.
name_re-join :
    (after : Bool) (s t : Str)
    → name_re after s ≡ true
    → name_re false t ≡ true
    → name_re after (s ++ b'-' ∷ t) ≡ true
unfolding name_re
name_re-join after [] t h k = ground arith
name_re-join after (c ∷ s) t h k = ground (arith, name_re-join (is_alnum c) s t)

name_of : (s : Str) → IsName s → 0 < length s → name_re false s ≡ true
name_of s (inl h) l = h
name_of s (inr e) l = absurd (omega (arith, ap length e))

valid_name-name_re : (s : Str) → valid_name s ≡ true → name_re false s ≡ true
unfolding valid_name
valid_name-name_re s h = ground arith

nonempty : (s : Str) → name_re false s ≡ true → is_empty s ≡ false
unfolding name_re
nonempty [] h = cc
nonempty (c ∷ s) h = refl

max_name_len_for-le : (work_stream : Str) → max_name_len_for work_stream ≤ 62
unfolding max_name_len_for
max_name_len_for-le work_stream = omega arith

valid_for :
    (s work_stream : Str)
    → name_re false s ≡ true
    → length s ≤ max_name_len_for work_stream
    → valid_name_for s work_stream ≡ true
unfolding valid_name_for
valid_for s work_stream h l =
    let e = nonempty s h in
    let m = max_name_len_for-le work_stream in fits (max_name_len_for work_stream) m e l
  where
    fits :
        (m : ℕ)
        → m ≤ 62
        → is_empty s ≡ false
        → length s ≤ m
        → valid_name s && leb (length s) m ≡ true
    fits m a e l = unfold valid_name in ground arith

module _ (digest : Str → Str) (law : IsHexDigest digest) where
  fit_name_to-IsName :
      (name : Str) (max : ℕ)
      → name_re false name ≡ true
      → 0 < max
      → name_re false (fit_name_to digest name max) ≡ true
  unfolding fit_name_to
  fit_name_to-IsName name max h pos =
      let alnum = take-AllAlnum 7 (digest name) (law.alnum name) in
      let hash = take 7 (digest name) in
      let hash_name =
        name_of hash (AllAlnum-IsName hash alnum)
          (omega (arith, length-take 7 (digest name), law.length_64 name)) in
      let cut_name : ltb max 7 ≡ true → name_re false (take max hash) ≡ true = λ short.
        name_of (take max hash) (AllAlnum-IsName _ (take-AllAlnum max hash alnum))
          (ground (arith, length-take max hash, length-take 7 (digest name), law.length_64 name)) in
      let kept = trim_right b'-' (take (max - 7 - 1) name) in
      let kept_name =
        trim_right-name_re true (take (max - 7 - 1) name)
          (take-single (max - 7 - 1) true name (name_re-single false name h)) in
      ground (arith, hash_name, cut_name, kept_name, name_re-join false kept hash)

  -- Under a work stream that leaves room for a name, SlugifyFor makes a name that is valid there.
  pub slugify_for-valid_name_for :
      (s work_stream : Str)
      → 0 < max_name_len_for work_stream
      → valid_name_for (slugify_for digest s work_stream) work_stream ≡ true
  unfolding slugify_for
  slugify_for-valid_name_for s work_stream pos =
      let name = valid_name-name_re (slugify s) (slugify-valid_name s) in
      let fit = fit_name_to-IsName (slugify s) (max_name_len_for work_stream) name pos in
      rw (nonempty _ fit) (
        valid_for _ work_stream fit
          (length-fit_name_to law (slugify s) (max_name_len_for work_stream)))
