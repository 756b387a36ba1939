-- ===== src/Scheduler/Synced.antt =====
-- The registry and the cron library never disagree, and what fires for a key is what was registered.
use workingman.Prelude.{ℕ, ◌≡◌, ◌≢◌, refl, sym, Option, none, some, arith, Str, get, ap}
use workingman.Scheduler.{CronLib, Scheduler, empty_scheduler, drop_entry}

module _ {Fn : Type 0} (lib : CronLib Fn) where
  -- Every registered key has one live entry with the spec on record, no two keys share an entry, and
  -- every live entry belongs to a key.
  pub record IsSynced (s : Scheduler lib) : Type 0 where
    pub bare : (key : Str) → get s.entries key ≡ none → get s.specs key ≡ none
    pub live :
        (key : Str) (id : ℕ)
        → get s.entries key ≡ some id
        → (spec : Str) × (fn : Fn) × (get s.specs key ≡ some spec)
          × (lib.entry s.cron id ≡ some (spec, fn))
    pub apart :
        (key other : Str) (id : ℕ)
        → get s.entries key ≡ some id
        → get s.entries other ≡ some id
        → key ≡ other
    pub owned : (id : ℕ) → ((key : Str) → get s.entries key ≢ some id) → lib.entry s.cron id ≡ none

  -- What fires for a key.
  abbrev pub schedule : Scheduler lib → Str → Option (Str × Fn)
  schedule s key = elim (get s.entries key) [ none ↦ none | some id ↦ lib.entry s.cron id ]

  pub schedule-none : (s : Scheduler lib) (k : Str) → get s.entries k ≡ none → schedule s k ≡ none
  schedule-none s k e = rw (e, schedule) refl

  pub schedule_at :
      (s : Scheduler lib) (k : Str) (id : ℕ)
      → get s.entries k ≡ some id
      → schedule s k ≡ lib.entry s.cron id
  schedule_at s k id e = rw (e, schedule) refl

  pub empty_scheduler-IsSynced : IsSynced (empty_scheduler lib)
  unfolding empty_scheduler get
  empty_scheduler-IsSynced = record {
    bare = λ key e. refl;
    live = λ key id e. cc;
    apart = λ key other id e f. cc;
    owned = λ id h. lib.entry-new id;
  }

  pub entry-drop_entry :
      (c : lib.Cron) (o : Option ℕ) (j : ℕ)
      → (o ≡ some j → lib.entry (drop_entry lib c o) j ≡ none)
        × (o ≢ some j → lib.entry (drop_entry lib c o) j ≡ lib.entry c j)
  unfolding drop_entry
  entry-drop_entry c none j = (λ e. cc, λ n. refl)
  entry-drop_entry c (some old) j = (
    λ e. ground (arith, lib.entry-remove c old),
    λ n. (lib.entry-remove c old).1 j (λ e. n (ap some (sym e))),
  )
