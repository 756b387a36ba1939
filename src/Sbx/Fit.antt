-- ===== src/Sbx/Fit.antt =====
-- Lengths and stability of shortened names (internal/sbx/name.go).
use workingman.Prelude.{
  ℕ, ◌-◌, ◌≤◌, ◌≡◌, ◌∷◌, Str, length, take, length-take, length-append, trim_right,
  length-trim_right, arith,
}
use workingman.Sbx.{IsHexDigest, fit_name_to}

module _ {digest : Str → Str} (law : IsHexDigest digest) where
  -- A shortened name has at most `max` bytes.
  pub length-fit_name_to : (name : Str) (max : ℕ) → length (fit_name_to digest name max) ≤ max
  unfolding fit_name_to
  length-fit_name_to name max =
      let h = take 7 (digest name) in
      let kept = trim_right b'-' (take (max - 7 - 1) name) in
      ground (
        arith,
        law.length_64 name,
        length-take 7 (digest name),
        length-take max h,
        length-take (max - 7 - 1) name,
        length-trim_right b'-' (take (max - 7 - 1) name),
        length-append kept (b'-' ∷ h),
      )

  -- Shortening a name to a positive size twice is shortening it once.
  pub fit_name_to_idem :
      (name : Str) (max : ℕ)
      → fit_name_to digest (fit_name_to digest name max) max ≡ fit_name_to digest name max
  fit_name_to_idem name max = fits max (fit_name_to digest name max) (length-fit_name_to name max)
    where
      fits : (m : ℕ) (s : Str) → length s ≤ m → fit_name_to digest s m ≡ s
      fits m s h = unfold fit_name_to in ground arith
