-- ===== src/Channels/Whatsapp/Closure.antt =====
-- Expand finds the identities that are reachable, and all of them unless it fills up.
use workingman.Prelude.{
  contains-append, or_cases, or_left, or_right, str_eq→eq, str_eq_refl, ℕ, zero, suc, ◌+◌, ◌≤◌, ◌<◌,
  ◌≡◌, ◌⊎◌, inl, inr, refl, sym, ◌∙◌, ap, subst, Bool, true, false, ◌||◌, arith, List, [], ◌∷◌,
  ◌++◌, Str, str_eq, is_empty, contains, length, false≢true, true≢false,
}
use mathlib.Core.List.{Memᴰ}
use workingman.Channels.Whatsapp.{normalize_id, max_aliases, fresh_aliases, expand_loop, expand}
use workingman.Channels.Whatsapp.Fresh.{fresh_at, fresh_has}

module _ (aliases : Str → List Str) where
  -- The identities of the person with the id `n`, by the resolver.
  pub data IsReachable (n : Str) : Str → Type 0 where
    itself : IsReachable n n
    by_alias :
        {x : Str} (a : Str)
        → IsReachable n x
        → Memᴰ a (aliases x)
        → is_empty (normalize_id a) ≡ false
        → IsReachable n (normalize_id a)

  length-expand_loop :
      (free : ℕ) (queue out : List Str)
      → length (expand_loop aliases free queue out) ≤ free + length out
  unfolding expand_loop
  length-expand_loop zero queue out = omega arith
  length-expand_loop (suc free) [] out = omega arith
  length-expand_loop (suc free) (cur ∷ queue) out =
      elim (contains out cur || is_empty cur)
        as (λ b.
          length (elim b [
            | true ↦ expand_loop aliases (suc free) queue out
            | false ↦
                expand_loop aliases free (queue ++ fresh_aliases (cur ∷ out) (aliases cur))
                  (cur ∷ out)
          ])
          ≤ suc free + length out) [
            | true ↦ length-expand_loop (suc free) queue out
            | false ↦ omega (
              arith,
              length-expand_loop free (queue ++ fresh_aliases (cur ∷ out) (aliases cur))
                  (cur ∷ out),
            )
          ]

  mem_append : (xs ys : List Str) (x : Str) → Memᴰ x (xs ++ ys) → Memᴰ x xs ⊎ Memᴰ x ys
  mem_append [] ys x m = inr m
  mem_append (z ∷ xs) ys x (Memᴰ.head e) = inl (Memᴰ.head e)
  mem_append (z ∷ xs) ys x (Memᴰ.tail m) = elim (mem_append xs ys x m) [
    | inl l ↦ inl (Memᴰ.tail l)
    | inr r ↦ inr r
  ]

  loop_members :
      (n : Str) (free : ℕ) (queue out : List Str)
      → ((x : Str) → Memᴰ x queue → IsReachable n x)
      → ((x : Str) → Memᴰ x out → IsReachable n x)
      → (x : Str) → Memᴰ x (expand_loop aliases free queue out)
      → IsReachable n x
  unfolding expand_loop
  loop_members n zero queue out q o = o
  loop_members n (suc free) [] out q o = o
  loop_members n (suc free) (cur ∷ queue) out q o =
      elim (contains out cur || is_empty cur)
        as (λ b.
          (x : Str)
          → Memᴰ x (elim b [
            | true ↦ expand_loop aliases (suc free) queue out
            | false ↦
                expand_loop aliases free (queue ++ fresh_aliases (cur ∷ out) (aliases cur))
                  (cur ∷ out)
          ])
          → IsReachable n x) [
            | true ↦ loop_members n (suc free) queue out (λ x m. q x (Memᴰ.tail m)) o
            | false ↦
                loop_members n free (queue ++ fresh_aliases (cur ∷ out) (aliases cur)) (cur ∷ out)
                  (λ x m. elim (mem_append queue _ x m) [
                    | inl old ↦ q x (Memᴰ.tail old)
                    | inr new ↦
                        let (a, known, e, filled) = fresh_at (cur ∷ out) (aliases cur) x new in
                        subst (IsReachable n) (sym e)
                          (by_alias a (q cur (Memᴰ.head refl)) known filled)
                  ])
                  (λ x m. with_first n cur out (q cur (Memᴰ.head refl)) o x m)
          ]
    where
      with_first :
          (n cur : Str) (out : List Str)
          → IsReachable n cur
          → ((x : Str) → Memᴰ x out → IsReachable n x)
          → (x : Str) → Memᴰ x (cur ∷ out)
          → IsReachable n x
      with_first n cur out c o x (Memᴰ.head e) = subst (IsReachable n) (sym e) c
      with_first n cur out c o x (Memᴰ.tail m) = o x m

  -- The aliases of what was found are found, or wait.
  IsPending : List Str → List Str → Type 0
  IsPending queue out =
      (x a : Str)
      → contains out x ≡ true
      → Memᴰ a (aliases x)
      → is_empty (normalize_id a) ≡ false
      → (contains out (normalize_id a) ≡ true) ⊎ (contains queue (normalize_id a) ≡ true)

  -- The aliases of what was found are found.
  abbrev pub IsClosed : List Str → Type 0
  IsClosed out =
      (x a : Str)
      → contains out x ≡ true
      → Memᴰ a (aliases x)
      → is_empty (normalize_id a) ≡ false
      → contains out (normalize_id a) ≡ true

  skipped :
      (cur : Str) (queue out : List Str)
      → (contains out cur || is_empty cur) ≡ true
      → IsPending (cur ∷ queue) out
      → IsPending queue out
  unfolding IsPending contains
  skipped cur queue out seen h x a found known filled = elim (h x a found known filled) [
    | inl o ↦ inl o
    | inr q ↦ elim (or_cases (str_eq cur (normalize_id a)) (contains queue (normalize_id a)) q) [
      | inr later ↦ inr later
      | inl now ↦
          let same = str_eq→eq cur (normalize_id a) now in
          elim (or_cases (contains out cur) (is_empty cur) seen) [
            | inl o ↦ inl (ap (contains out) (sym same) ∙ o)
            | inr none ↦ absurd (true≢false (sym none ∙ ap is_empty same ∙ filled))
          ]
    ]
  ]

  taken :
      (cur : Str) (queue out : List Str)
      → IsPending (cur ∷ queue) out
      → IsPending (queue ++ fresh_aliases (cur ∷ out) (aliases cur)) (cur ∷ out)
  unfolding IsPending contains
  taken cur queue out h x a found known filled =
      elim (or_cases (str_eq cur x) (contains out x) found) [
        | inl now ↦
            elim (fresh_has (cur ∷ out) (aliases cur) a
              (subst (λ y. Memᴰ a (aliases y)) (sym (str_eq→eq cur x now)) known) filled) [
                | inl o ↦ inl o
                | inr q ↦ inr (
                    contains-append queue _ (normalize_id a)
                    ∙ or_right (contains queue (normalize_id a)) _ q)
              ]
        | inr before ↦ elim (h x a before known filled) [
          | inl o ↦ inl (or_right (str_eq cur (normalize_id a)) _ o)
          | inr q ↦
              elim (or_cases (str_eq cur (normalize_id a)) (contains queue (normalize_id a)) q) [
                | inl same ↦ inl (or_left _ _ same)
                | inr later ↦ inr (contains-append queue _ (normalize_id a) ∙ or_left _ _ later)
              ]
        ]
      ]

  loop_fills :
      (free : ℕ) (queue out : List Str)
      → IsPending queue out
      → (length (expand_loop aliases free queue out) ≡ free + length out)
        ⊎ IsClosed (expand_loop aliases free queue out)
  unfolding expand_loop
  loop_fills zero queue out h = inl (omega arith)
  loop_fills (suc free) [] out h = inr (finished h)
    where
      finished : IsPending [] out → IsClosed out
      finished h x a found known filled =
          unfold IsPending in
          elim (h x a found known filled) [
            | inl o ↦ o
            | inr q ↦ absurd (false≢true (unfold contains in q))
          ]
  loop_fills (suc free) (cur ∷ queue) out h =
      by_seen (contains out cur || is_empty cur) refl (λ p. loop_fills (suc free) queue out p)
        (loop_fills free (queue ++ fresh_aliases (cur ∷ out) (aliases cur)) (cur ∷ out)
          (taken cur queue out h))
    where
      after : Bool → List Str
      after b = elim b [
        | true ↦ expand_loop aliases (suc free) queue out
        | false ↦
            expand_loop aliases free (queue ++ fresh_aliases (cur ∷ out) (aliases cur)) (cur ∷ out)
      ]

      by_seen :
          (b : Bool)
          → (contains out cur || is_empty cur) ≡ b
          → (IsPending queue out
              → (length (expand_loop aliases (suc free) queue out) ≡ suc free + length out)
                ⊎ IsClosed (expand_loop aliases (suc free) queue out))
          → ((length (after false) ≡ free + length (cur ∷ out)) ⊎ IsClosed (after false))
          → (length (after b) ≡ suc free + length out) ⊎ IsClosed (after b)
      by_seen true e skip take = skip (skipped cur queue out e h)
      by_seen false e skip take = elim take [ inl l ↦ inl (omega (arith, l)) | inr c ↦ inr c ]

  loop_keeps :
      (free : ℕ) (queue out : List Str) (x : Str)
      → contains out x ≡ true
      → contains (expand_loop aliases free queue out) x ≡ true
  unfolding expand_loop contains
  loop_keeps zero queue out x h = h
  loop_keeps (suc free) [] out x h = h
  loop_keeps (suc free) (cur ∷ queue) out x h =
      elim (contains out cur || is_empty cur)
        as (λ b.
          contains
            (elim b [
              | true ↦ expand_loop aliases (suc free) queue out
              | false ↦
                  expand_loop aliases free (queue ++ fresh_aliases (cur ∷ out) (aliases cur))
                    (cur ∷ out)
            ])
            x
          ≡ true) [
            | true ↦ loop_keeps (suc free) queue out x h
            | false ↦
                loop_keeps free (queue ++ fresh_aliases (cur ∷ out) (aliases cur)) (cur ∷ out) x
                  (or_right (str_eq cur x) _ h)
          ]

  closed_reaches :
      (out : List Str) (n x : Str)
      → IsClosed out
      → contains out n ≡ true
      → IsReachable n x
      → contains out x ≡ true
  closed_reaches out n x c h itself = h
  closed_reaches out n x c h (by_alias a r known filled) =
      c _ a (closed_reaches out n _ c h r) known filled

  -- The loop of Expand on one id, with all places free.
  first_found :
      (n : Str)
      → is_empty n ≡ false
      → contains (expand_loop aliases max_aliases (n ∷ []) []) n ≡ true
  unfolding expand_loop contains
  first_found n h = by_empty (is_empty n) h
    where
      rest : Str → List Str
      rest n = expand_loop aliases 63 (fresh_aliases (n ∷ []) (aliases n)) (n ∷ [])

      by_empty :
          (b : Bool)
          → b ≡ false
          → contains (elim b [ true ↦ expand_loop aliases 64 [] [] | false ↦ rest n ]) n ≡ true
      by_empty true e = absurd (true≢false e)
      by_empty false e =
          loop_keeps 63 (fresh_aliases (n ∷ []) (aliases n)) (n ∷ []) n
            (or_left _ _ (str_eq_refl n))

  -- For an id that does not normalise to the empty text, Expand gives at most 64 ids, among them the
  -- normalised id; all of them are reached from it by aliases; and where it gives fewer than 64, every id
  -- that is reached is among them.
  pub expand-IsReachable :
      (id : Str)
      → is_empty (normalize_id id) ≡ false
      → (length (expand aliases id) ≤ max_aliases)
        × (contains (expand aliases id) (normalize_id id) ≡ true)
        × ((x : Str) → Memᴰ x (expand aliases id) → IsReachable (normalize_id id) x)
        × (length (expand aliases id) < max_aliases
            → (x : Str) → IsReachable (normalize_id id) x
            → contains (expand aliases id) x ≡ true)
  unfolding expand
  expand-IsReachable id h =
      rw (expand, h)
        (
          omega (arith, length-expand_loop max_aliases (n ∷ []) []),
          first_found n h,
          loop_members n max_aliases (n ∷ []) [] (λ x m. only x m) (λ x m. elim m [ ]),
          λ short x r. elim (loop_fills max_aliases (n ∷ []) [] nothing) [
            | inl full ↦ absurd (omega (arith, full, short))
            | inr closed ↦ closed_reaches _ n x closed (first_found n h) r
          ],
        )
    where
      n : Str
      n = normalize_id id

      only : (x : Str) → Memᴰ x (n ∷ []) → IsReachable n x
      only x (Memᴰ.head e) = subst (IsReachable n) (sym e) itself
      only x (Memᴰ.tail m) = elim m [ ]

      nothing : IsPending (n ∷ []) []
      nothing =
          unfold IsPending in
          λ x a found known filled. absurd (false≢true (unfold contains in found))
