-- ===== src/Scheduler/Unregister.antt =====
-- Unregister keeps the registry synced and clears the schedule of its key alone.
use workingman.Prelude.{
  some_cases, ℕ, ◌≡◌, ◌≢◌, refl, sym, ◌∙◌, false, Option, none, some, Str, str_eq, str_eq→eq, get,
  del, get-del_same, get-del_other, some_inj, none-ne-some, eq→str_eq, true≢false, if◌then◌else◌,
  Bool-cases, Option-cases, inl, inr, ap,
}
use workingman.Scheduler.{CronLib, Scheduler, unregister}
use workingman.Scheduler.Synced.{IsSynced, schedule, schedule-none, schedule_at}

module _ {Fn : Type 0} (lib : CronLib Fn) where
  module _ (s : Scheduler lib) (synced : IsSynced lib s) (key : Str) (id : ℕ)
      (registered : get s.entries key ≡ some id) where
    cleared : Scheduler lib
    cleared = record {
      cron = lib.remove s.cron id;
      entries = del s.entries key;
      specs = del s.specs key;
    }

    id_kept : (k : Str) (i : ℕ) → str_eq key k ≡ false → get s.entries k ≡ some i → i ≢ id
    id_kept k i other e same =
        true≢false
          (sym (eq→str_eq key k (synced.apart key k id registered (e ∙ ap some same))) ∙ other)

    get-cleared :
        (k : Str) (i : ℕ)
        → get cleared.entries k ≡ some i
        → (str_eq key k ≡ false) × (get s.entries k ≡ some i)
    unfolding cleared
    get-cleared k i e = elim (Bool-cases (str_eq key k)) [
      | inl same ↦ absurd (none-ne-some (sym (get-del_same s.entries key k same) ∙ e))
      | inr other ↦ (other, sym (get-del_other s.entries key k other) ∙ e)
    ]

    cleared-IsSynced : IsSynced lib cleared
    unfolding cleared
    cleared-IsSynced = record {
      bare = λ k e. elim (Bool-cases (str_eq key k)) [
        | inl same ↦ get-del_same s.specs key k same
        | inr other ↦
            get-del_other s.specs key k other
            ∙ synced.bare k (sym (get-del_other s.entries key k other) ∙ e)
      ];
      live = λ k i e.
          let (other, was) = get-cleared k i e in
          let (spec, fn, on_record, l) = synced.live k i was in
          (
            spec,
            fn,
            get-del_other s.specs key k other ∙ on_record,
            (lib.entry-remove s.cron id).1 i (id_kept k i other was) ∙ l,
          );
      apart = λ k j i e f. synced.apart k j i (get-cleared k i e).1 (get-cleared j i f).1;
      owned = λ i unused. elim (some_cases (some id) i) [
        | inl same ↦ rw (sym (some_inj same)) ((lib.entry-remove s.cron id).0)
        | inr n ↦
            (lib.entry-remove s.cron id).1 i (λ e. n (ap some (sym e)))
            ∙ synced.owned i (λ k e. elim (Bool-cases (str_eq key k)) [
              | inl same ↦ n (sym registered ∙ rw (str_eq→eq key k same) e)
              | inr other ↦ unused k (get-del_other s.entries key k other ∙ e)
            ])
      ];
    }

    schedule-cleared :
        (k : Str) → schedule lib cleared k ≡ (if str_eq key k then none else schedule lib s k)
    unfolding cleared
    schedule-cleared k = elim (Bool-cases (str_eq key k)) [
      | inl same ↦ rw same (schedule-none lib cleared k (get-del_same s.entries key k same))
      | inr other ↦ elim (Option-cases (get s.entries k)) [
        | inl e ↦ rw other (
            schedule-none lib cleared k (get-del_other s.entries key k other ∙ e)
            ∙ sym (schedule-none lib s k e))
        | inr (j, e) ↦ rw other (
            schedule_at lib cleared k j (get-del_other s.entries key k other ∙ e)
            ∙ (lib.entry-remove s.cron id).1 j (id_kept k j other e)
            ∙ sym (schedule_at lib s k j e))
      ]
    ]

  abbrev pub Unregisters : Scheduler lib → Str → Scheduler lib → Type 0
  Unregisters s key s' =
      IsSynced lib s'
      × ((k : Str) → schedule lib s' k ≡ (if str_eq key k then none else schedule lib s k))

  -- In a synced registry, Unregister leaves a synced registry in which the key fires nothing and every
  -- other key fires as before.
  pub unregister-Unregisters :
      (s : Scheduler lib) (key : Str) → IsSynced lib s → Unregisters s key (unregister lib s key)
  unfolding unregister
  unregister-Unregisters s key synced = by_entry (get s.entries key) refl
    where
      by_entry :
          (o : Option ℕ)
          → get s.entries key ≡ o
          → Unregisters s key (elim o [
            | none ↦ s
            | some id ↦ record {
              cron = lib.remove s.cron id;
              entries = del s.entries key;
              specs = del s.specs key;
            }
          ])
      by_entry none e = (
        synced,
        λ k. elim (Bool-cases (str_eq key k)) [
          | inl same ↦ rw same (schedule-none lib s k (rw (← str_eq→eq key k same) e))
          | inr other ↦ rw other refl
        ],
      )
      by_entry (some id) e =
          unfold cleared in (cleared-IsSynced s synced key id e, schedule-cleared s synced key id e)
