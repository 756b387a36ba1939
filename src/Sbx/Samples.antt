-- ===== src/Sbx/Samples.antt =====
-- A digest that meets the laws of `IsHexDigest`, and tests.
use workingman.Prelude.{ℕ, zero, suc, ◌≡◌, ◌≤◌, refl, All, true, Str, [], ◌∷◌, codes, length}
use workingman.Sbx.{is_alnum, IsHexDigest, fit_name_to}
use workingman.Sbx.Fit.{length-fit_name_to, fit_name_to_idem}

abbrev pub repeat : ℕ → ℕ → Str
repeat zero c = []
repeat (suc n) c = c ∷ repeat n c

-- The digest of every text, here.
abbrev pub sample_digest : Str → Str
sample_digest s = repeat 64 b'a'

repeat-alnum : (n : ℕ) → All (λ c. is_alnum c ≡ true) (repeat n b'a')
repeat-alnum zero = tt
repeat-alnum (suc n) = (refl, repeat-alnum n)

pub sample_digest-IsHexDigest : IsHexDigest sample_digest
sample_digest-IsHexDigest = record { length_64 = λ s. refl; alnum = λ s. repeat-alnum 64 }

abbrev long_name : Str
long_name = codes "refactor-the-session-map-and-the-guards-around-it"

length-fit_name_to_example : length (fit_name_to sample_digest long_name 20) ≤ 20
length-fit_name_to_example = length-fit_name_to sample_digest-IsHexDigest long_name 20

fit_name_to_idem_example :
    fit_name_to sample_digest (fit_name_to sample_digest long_name 20) 20
    ≡ fit_name_to sample_digest long_name 20
fit_name_to_idem_example = fit_name_to_idem sample_digest-IsHexDigest long_name 20
