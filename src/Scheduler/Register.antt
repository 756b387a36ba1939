-- ===== src/Scheduler/Register.antt =====
-- Register keeps the registry synced and changes the schedule of its key alone.
use workingman.Prelude.{
  some_cases, ℕ, ◌≡◌, ◌≢◌, refl, sym, ◌∙◌, true, false, not, ◌&&◌, ◌||◌, is_some, Option, none,
  some, arith, Str, str_eq, str_eq_refl, str_eq→eq, is_empty, get, put, get-put_same, get-put_other,
  some_inj, none-ne-some, eq→str_eq, true≢false, if◌then◌else◌, Bool-cases, Option-cases, inl, inr,
  ap, if-cases,
}
use workingman.Scheduler.{CronLib, Error, bad_spec, Scheduler, drop_entry, is_current, register}
use workingman.Scheduler.Synced.{IsSynced, schedule, schedule-none, schedule_at, entry-drop_entry}

module _ {Fn : Type 0} (lib : CronLib Fn) where
  module _ (s : Scheduler lib) (synced : IsSynced lib s) (key spec : Str) (fn : Fn) (id : ℕ)
      (c : lib.Cron) (added : lib.add_func s.cron spec fn ≡ some (id, c)) where
    replaced : Scheduler lib
    replaced = record {
      cron = drop_entry lib c (get s.entries key);
      entries = put s.entries key id;
      specs = put s.specs key spec;
    }

    fresh : (k : Str) → get s.entries k ≢ some id
    fresh k e =
        let (spec', fn', _, l) = synced.live k id e in
        none-ne-some (sym (lib.entry-add_func _ _ _ _ _ added).0 ∙ l)

    entry_new : lib.entry replaced.cron id ≡ some (spec, fn)
    unfolding replaced
    entry_new =
        (entry-drop_entry lib c (get s.entries key) id).1 (fresh key)
        ∙ (lib.entry-add_func _ _ _ _ _ added).1

    entry_old :
        (j : ℕ)
        → j ≢ id
        → get s.entries key ≢ some j
        → lib.entry replaced.cron j ≡ lib.entry s.cron j
    unfolding replaced
    entry_old j n m =
        (entry-drop_entry lib c (get s.entries key) j).1 m
        ∙ (lib.entry-add_func _ _ _ _ _ added).2 j n

    live_new :
        (k : Str) (i : ℕ)
        → get replaced.entries k ≡ some i
        → (spec : Str) × (fn : Fn) × (get replaced.specs k ≡ some spec)
          × (lib.entry replaced.cron i ≡ some (spec, fn))
    unfolding replaced
    live_new k i e = elim (Bool-cases (str_eq key k)) [
      | inl same ↦ (
        spec,
        fn,
        get-put_same s.specs key k spec same,
        ap (lib.entry replaced.cron)
              (sym (some_inj (sym (get-put_same s.entries key k id same) ∙ e)))
            ∙ entry_new,
      )
      | inr other ↦
          let old = sym (get-put_other s.entries key k id other) ∙ e in
          let (spec', fn', on_record, l) = synced.live k i old in
          (
            spec',
            fn',
            get-put_other s.specs key k spec other ∙ on_record,
            entry_old i (λ same. fresh k (old ∙ ap some same))
                  (λ mine.
                    true≢false (sym (eq→str_eq key k (synced.apart key k i mine old)) ∙ other))
                ∙ l,
          )
    ]

    apart_new :
        (k j : Str) (i : ℕ)
        → get replaced.entries k ≡ some i
        → get replaced.entries j ≡ some i
        → k ≡ j
    unfolding replaced
    apart_new k j i e f = elim (Bool-cases (str_eq key k)) [
      | inl mine ↦ elim (Bool-cases (str_eq key j)) [
        | inl his ↦ sym (str_eq→eq key k mine) ∙ str_eq→eq key j his
        | inr other ↦ absurd (
            fresh j (
              sym (get-put_other s.entries key j id other)
              ∙ f
              ∙ sym e
              ∙ get-put_same s.entries key k id mine))
      ]
      | inr other ↦ elim (Bool-cases (str_eq key j)) [
        | inl his ↦ absurd (
            fresh k (
              sym (get-put_other s.entries key k id other)
              ∙ e
              ∙ sym f
              ∙ get-put_same s.entries key j id his))
        | inr another ↦
            synced.apart k j i (sym (get-put_other s.entries key k id other) ∙ e)
              (sym (get-put_other s.entries key j id another) ∙ f)
      ]
    ]

    owned_new :
        (i : ℕ) → ((k : Str) → get replaced.entries k ≢ some i) → lib.entry replaced.cron i ≡ none
    unfolding replaced
    owned_new i unused = elim (some_cases (get s.entries key) i) [
      | inl mine ↦ (entry-drop_entry lib c (get s.entries key) i).0 mine
      | inr other ↦
          entry_old i
            (λ same.
              unused key (get-put_same s.entries key key id (str_eq_refl key) ∙ ap some (sym same)))
            other
          ∙ synced.owned i (λ k e. elim (Bool-cases (str_eq key k)) [
            | inl same ↦ other (rw (str_eq→eq key k same) e)
            | inr another ↦ unused k (get-put_other s.entries key k id another ∙ e)
          ])
    ]

    replaced-IsSynced : IsSynced lib replaced
    unfolding replaced
    replaced-IsSynced = record {
      bare = λ k e. elim (Bool-cases (str_eq key k)) [
        | inl same ↦ absurd (none-ne-some (sym e ∙ get-put_same s.entries key k id same))
        | inr other ↦
            get-put_other s.specs key k spec other
            ∙ synced.bare k (sym (get-put_other s.entries key k id other) ∙ e)
      ];
      live = live_new;
      apart = apart_new;
      owned = owned_new;
    }

    schedule-replaced :
        (k : Str)
        → schedule lib replaced k ≡ (if str_eq key k then some (spec, fn) else schedule lib s k)
    unfolding replaced
    schedule-replaced k = elim (Bool-cases (str_eq key k)) [
      | inl same ↦
          rw same (schedule_at lib replaced k id (get-put_same s.entries key k id same) ∙ entry_new)
      | inr other ↦ elim (Option-cases (get s.entries k)) [
        | inl e ↦ rw other (
            schedule-none lib replaced k (get-put_other s.entries key k id other ∙ e)
            ∙ sym (schedule-none lib s k e))
        | inr (j, e) ↦ rw other (
            schedule_at lib replaced k j (get-put_other s.entries key k id other ∙ e)
            ∙ entry_old j (λ same. fresh k (e ∙ ap some same))
                (λ mine. true≢false (sym (eq→str_eq key k (synced.apart key k j mine e)) ∙ other))
            ∙ sym (schedule_at lib s k j e))
      ]
    ]

  -- What Register does to the schedule: with a key and a spec, either the new schedule replaces that of
  -- the key, unless the spec is the one on record, or the library refuses the spec and nothing changes.
  abbrev pub Registers : Scheduler lib → Str → Str → Fn → Scheduler lib × Option Error → Type 0
  Registers s key spec fn (s', none) =
      IsSynced lib s'
      × ((is_empty key || is_empty spec) ≡ false)
      × ((k : Str)
          → schedule lib s' k ≡ (
              if str_eq key k && not (is_current lib s key spec)
              then some (spec, fn)
              else schedule lib s k))
  Registers s key spec fn (s', some e) =
      (s' ≡ s)
      × ((is_empty key || is_empty spec || not (is_some (lib.add_func s.cron spec fn))) ≡ true)

  -- In a synced registry, Register either returns an error and changes nothing, and then the key or the
  -- spec is empty or the library refuses the spec; or it returns none for a key and a spec that are not
  -- empty, the registry is synced again, and the key alone fires the new callback by the new spec, where
  -- the spec on record is another one, while everything else fires as before.
  pub register-Registers :
      (s : Scheduler lib) (key spec : Str) (fn : Fn)
      → IsSynced lib s
      → Registers s key spec fn (register lib s key spec fn)
  unfolding register
  register-Registers s key spec fn synced =
      if-cases (is_empty key) (Registers s key spec fn) (λ e. (refl, ground (arith, e)))
        (λ e.
          if-cases (is_empty spec) (Registers s key spec fn) (λ e'. (refl, ground (arith, e, e')))
            (λ e'.
              if-cases (is_current lib s key spec) (Registers s key spec fn)
                (λ current. (synced, ground (arith, e, e'), λ k. rw current (ground arith)))
                (λ changed. by_answer e e' changed (lib.add_func s.cron spec fn) refl)))
    where
      by_answer :
          is_empty key ≡ false
          → is_empty spec ≡ false
          → is_current lib s key spec ≡ false
          → (o : Option (ℕ × lib.Cron)) → lib.add_func s.cron spec fn ≡ o
          → Registers s key spec fn (elim o [
            | none ↦ (s, some bad_spec)
            | some (id, c) ↦ (
              record {
                cron = drop_entry lib c (get s.entries key);
                entries = put s.entries key id;
                specs = put s.specs key spec;
              },
              none,
            )
          ])
      by_answer e e' changed none added = (refl, rw added (ground (arith, e, e')))
      by_answer e e' changed (some (id, c)) added =
          unfold replaced in
          (
            replaced-IsSynced s synced key spec fn id c added,
            ground (arith, e, e'),
            λ k. rw changed (ground (arith, schedule-replaced s synced key spec fn id c added k)),
          )
