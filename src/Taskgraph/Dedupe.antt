-- ===== src/Taskgraph/Dedupe.antt =====
-- dedupeName (internal/taskgraph/graph.go): its loop ends, and the name that it returns is free.
use Prim.Native.Nat.{◌/◌, ◌%◌}
use native.Mathlib.Decide.{ℕ_discrete}
use workingman.Prelude.{
  ℕ, zero, suc, ◌+◌, ◌-◌, ◌*◌, ◌≤◌, ◌<◌, ◌≡◌, ◌≢◌, refl, sym, ap, ◌∙◌, true, false, ◌||◌, ◌⊎◌, inl,
  inr, [], ◌∷◌, ◌++◌, Str, str_eq_iff, length, ltb, ◌==◌, any, arith, if◌then◌else◌, Option, none,
  some, Assoc, get, del, has, get-del, Bool-cases, Option-cases,
}
use workingman.Task.{Task, max_name_len_for}
use workingman.Taskgraph.{digits, show_nat, candidate, first_free, dedupe_name}

-- The text after the last hyphen, and the number that a decimal text writes.
last_field : Str → Str
last_field [] = []
last_field (c ∷ cs) =
    if any (λ x. x == b'-') cs then last_field cs else if c == b'-' then cs else c ∷ cs

value : ℕ → Str → ℕ
value acc [] = acc
value acc (c ∷ cs) = value (acc * 10 + (c - 48)) cs

any-append_hyphen : (xs d : Str) → any (λ x. x == b'-') (xs ++ b'-' ∷ d) ≡ true
any-append_hyphen [] d = refl
any-append_hyphen (x ∷ xs) d = ground (arith, any-append_hyphen xs d)

last_field-append : (xs d : Str) → any (λ x. x == b'-') d ≡ false → last_field (xs ++ b'-' ∷ d) ≡ d
unfolding last_field
last_field-append [] d h = ground arith
last_field-append (x ∷ xs) d h = rw (any-append_hyphen xs d) (last_field-append xs d h)

value-append : (acc d : ℕ) (s : Str) → value acc (s ++ d ∷ []) ≡ value acc s * 10 + (d - 48)
unfolding value
value-append acc d [] = refl
value-append acc d (c ∷ s) = value-append (acc * 10 + (c - 48)) d s

value-digits : (fuel n : ℕ) → n < fuel → value 0 (digits fuel n) ≡ n
unfolding digits value
value-digits zero n h = elim h [ ]
value-digits (suc fuel) n h = elim (Bool-cases (ltb n 10)) [
  | inl small ↦ rw small (ground arith)
  | inr large ↦ rw large (
      omega (
        arith,
        value-append 0 (48 + n % 10) (digits fuel (n / 10)),
        value-digits fuel (n / 10) (ground arith),
      ))
]

any-append :
    (s : Str) (d : ℕ) → any (λ x. x == b'-') (s ++ d ∷ []) ≡ (any (λ x. x == b'-') s || d == b'-')
any-append [] d = ground arith
any-append (c ∷ s) d = ground (arith, any-append s d)

digits_no_hyphen : (fuel n : ℕ) → any (λ x. x == b'-') (digits fuel n) ≡ false
unfolding digits
digits_no_hyphen zero n = refl
digits_no_hyphen (suc fuel) n =
    ground (arith, any-append (digits fuel (n / 10)) (48 + n % 10), digits_no_hyphen fuel (n / 10))

-- The number of a round can be read off its candidate.
value-candidate : (name : Str) (budget i : ℕ) → value 0 (last_field (candidate name budget i)) ≡ i
unfolding candidate
value-candidate name budget i =
    rw (last_field-append _ (show_nat i) (digits_no_hyphen (suc i) i))
      (value-digits (suc i) i (omega arith))

candidate-injective :
    (name : Str) (budget i j : ℕ) → candidate name budget i ≡ candidate name budget j → i ≡ j
candidate-injective name budget i j e =
    sym (value-candidate name budget i)
    ∙ ap (λ s. value 0 (last_field s)) e
    ∙ value-candidate name budget j

length-del : (m : Assoc Task) (k : Str) → length (del m k) ≤ length m
unfolding del
length-del [] k = omega arith
length-del ((j, t) ∷ m) k = ground (arith, length-del m k)

length-del-has : (m : Assoc Task) (k : Str) → has m k ≡ true → length (del m k) < length m
unfolding del get
length-del-has [] k h = cc
length-del-has ((j, t) ∷ m) k h = ground (arith, length-del m k, length-del-has m k)

-- A map that holds `n` different names has at least `n` entries.
length-ge :
    (f : ℕ → Str)
    → ((i j : ℕ) → f i ≡ f j → i ≡ j)
    → (n i : ℕ) (m : Assoc Task) → ((j : ℕ) → i ≤ j → j < i + n → has m (f j) ≡ true)
    → n ≤ length m
length-ge f inj zero i m h = omega arith
length-ge f inj (suc n) i m h = omega (
  arith,
  length-del-has m (f i) (h i (omega arith) (omega arith)),
  length-ge f inj n (suc i) (del m (f i)) rest,
)
  where
    rest : (j : ℕ) → suc i ≤ j → j < suc i + n → has (del m (f i)) (f j) ≡ true
    rest j a b =
        let apart : f i ≢ f j = λ e. absurd (omega (arith, inj i j e)) in
        let there = h j (omega arith) (omega arith) in
        ground (arith, get-del m (f i) (f j), str_eq_iff (f i) (f j), there, apart)

first_free-none :
    (tasks : Assoc Task) (name : Str) (budget fuel i : ℕ)
    → first_free tasks name budget fuel i ≡ none
    → (j : ℕ) → i ≤ j
    → j < i + fuel
    → has tasks (candidate name budget j) ≡ true
unfolding first_free
first_free-none tasks name budget zero i h j a b = absurd (omega arith)
first_free-none tasks name budget (suc fuel) i h j a b =
    elim (Bool-cases (has tasks (candidate name budget i))) [
      | inl taken ↦ elim (ℕ_discrete i j) [
        | yes same ↦ rw (← same) taken
        | no other ↦
            first_free-none tasks name budget fuel (suc i) (rw (taken, first_free) at h) j
              (omega arith) (omega arith)
      ]
      | inr free ↦ absurd (ground arith)
    ]

first_free-some :
    (tasks : Assoc Task) (name : Str) (budget fuel i : ℕ) {s : Str}
    → first_free tasks name budget fuel i ≡ some s
    → (has tasks s ≡ false) × ((j : ℕ) × (s ≡ candidate name budget j))
unfolding first_free
first_free-some tasks name budget zero i h = cc
first_free-some tasks name budget (suc fuel) i {s} h =
    elim (Bool-cases (has tasks (candidate name budget i))) [
      | inl taken ↦ first_free-some tasks name budget fuel (suc i) (rw (taken, first_free) at h)
      | inr free ↦
          let same : candidate name budget i ≡ s = ground arith in (rw (← same) free, (i, sym same))
    ]

-- The loop of dedupeName ends within one round more than there are tasks, with a name that no
-- task has: the given one if it is free, and else a candidate of some round.
pub dedupe_name-fresh :
    (name : Str) (tasks : Assoc Task) (work_stream : Str)
    → (s : Str) × (dedupe_name name tasks work_stream ≡ some s)
      × (has tasks s ≡ false)
      × ((s ≡ name) ⊎ ((j : ℕ) × (s ≡ candidate name (max_name_len_for work_stream) j)))
unfolding dedupe_name
dedupe_name-fresh name tasks work_stream = elim (Bool-cases (has tasks name)) [
  | inr free ↦ (name, rw free, free, inl refl)
  | inl taken ↦ elim (Option-cases search_result) [
    | inr (s, found) ↦
        let (free, shape) = first_free-some tasks name budget (suc (length tasks)) 2 found in
        (s, rw taken found, free, inr shape)
    | inl ran_out ↦ absurd (
        omega (
          arith,
          length-ge (candidate name budget) (candidate-injective name budget) (suc (length tasks)) 2
              tasks (first_free-none tasks name budget (suc (length tasks)) 2 ran_out),
        ))
  ]
]
  where
    budget : ℕ
    budget = max_name_len_for work_stream

    search_result : Option Str
    search_result = first_free tasks name budget (suc (length tasks)) 2
