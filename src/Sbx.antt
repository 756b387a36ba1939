-- ===== src/Sbx.antt =====
-- internal/sbx/name.go: the names that `sbx create` accepts, and how a long name is shortened.
-- crypto/sha256 with encoding/hex is the parameter `digest`; the laws that are needed of it are in
-- `IsHexDigest`, and `Sbx.Samples` has a function that meets them.
pub mod Fit
pub mod Samples
use workingman.Prelude.{
  ℕ, ◌+◌, ◌-◌, ◌≡◌, All, Bool, true, false, ◌&&◌, ◌||◌, [], ◌∷◌, ◌++◌, Str, length, take, leb, ltb,
  ◌==◌, is_empty, trim_right, if◌then◌else◌, Option, none, some,
}

abbrev pub max_name_len : ℕ
max_name_len = 63

abbrev pub name_hash_len : ℕ
name_hash_len = 7

-- NameBudget
unfoldable pub name_budget : Str → ℕ
name_budget prefix = max_name_len - length prefix - 1

-- strings.ReplaceAll(name, "_", "-")
unfoldable pub replace_underscores : Str → Str
replace_underscores [] = []
replace_underscores (c ∷ cs) = (if c == b'_' then b'-' else c) ∷ replace_underscores cs

-- [a-z0-9]
abbrev pub is_alnum : ℕ → Bool
is_alnum c = leb b'a' c && leb c b'z' || leb b'0' c && leb c b'9'

-- What is used of the hex digest: it has 64 characters, lower-case letters and digits.
pub record IsHexDigest (digest : Str → Str) : Type 0 where
  pub length_64 : (s : Str) → length (digest s) ≡ 64
  pub alnum : (s : Str) → All (λ c. is_alnum c ≡ true) (digest s)

module _ (digest : Str → Str) where
  -- FitNameTo. `max <= 0` is 0 here: every caller passes `max_name_len` or a budget.
  unfoldable pub fit_name_to : Str → ℕ → Str
  fit_name_to name max =
      if max == 0
      then []
      else if leb (length name) max
      then name
      else let h = take name_hash_len (digest name) in
        if ltb max name_hash_len
        then take max h
        else let kept = trim_right b'-' (take (max - name_hash_len - 1) name) in
          if max - name_hash_len - 1 == 0 then h else if is_empty kept then h else kept ++ b'-' ∷ h

  -- FitName
  unfoldable pub fit_name : Str → Str
  unfolding fit_name_to
  fit_name name = fit_name_to name max_name_len

  -- SanitizeName
  unfoldable pub sanitize_name : Str → Str
  unfolding fit_name replace_underscores
  sanitize_name name = fit_name (replace_underscores name)

-- CheckName: `none` is no error, `some n` the reported length.
unfoldable pub check_name : Str → Option ℕ
check_name name = if ltb max_name_len (length name) then some (length name) else none
