-- ===== src/Scheduler.antt =====
-- internal/scheduler/scheduler.go: schedules by key over a cron library. The library
-- (github.com/robfig/cron) is the parameter `CronLib`; `Fn` is the type of its callbacks.
pub mod Synced
pub mod Register
pub mod Unregister
pub mod Runs
pub mod Samples
use workingman.Prelude.{
  ℕ, ◌≡◌, Bool, true, false, Option, none, some, Str, str_eq, is_empty, [], ◌≢◌, Assoc, get, put,
  del, if◌then◌else◌,
}

-- What is used of cron.Cron: AddFunc gives a new entry an id or refuses the spec, Remove removes an
-- entry; neither touches the other entries. `entry` is what an id stands for, if it is live.
pub record CronLib (Fn : Type 0) : Type 1 where
  pub Cron : Type 0
  pub new : Cron
  pub add_func : Cron → Str → Fn → Option (ℕ × Cron)
  pub remove : Cron → ℕ → Cron
  pub entry : Cron → ℕ → Option (Str × Fn)
  pub entry-new : (id : ℕ) → entry new id ≡ none
  pub entry-add_func :
      (c : Cron) (spec : Str) (fn : Fn) (id : ℕ) (c' : Cron)
      → add_func c spec fn ≡ some (id, c')
      → (entry c id ≡ none)
        × (entry c' id ≡ some (spec, fn))
        × ((j : ℕ) → j ≢ id → entry c' j ≡ entry c j)
  pub entry-remove :
      (c : Cron) (id : ℕ)
      → (entry (remove c id) id ≡ none) × ((j : ℕ) → j ≢ id → entry (remove c id) j ≡ entry c j)

pub data Error : Type 0 where
  key_required spec_required bad_spec : Error

module _ {Fn : Type 0} (lib : CronLib Fn) where
  open lib use {Cron}

  pub record Scheduler : Type 0 where
    pub cron : Cron
    pub entries : Assoc ℕ
    pub specs : Assoc Str

  -- New
  unfoldable pub empty_scheduler : Scheduler
  empty_scheduler = record { cron = lib.new; entries = []; specs = [] }

  -- Remove of the entry that a key had, if any.
  unfoldable pub drop_entry : Cron → Option ℕ → Cron
  drop_entry c none = c
  drop_entry c (some old) = lib.remove c old

  -- Whether the key is registered with this spec already.
  unfoldable pub is_current : Scheduler → Str → Str → Bool
  unfolding get str_eq
  is_current s key spec = elim (get s.specs key) [
    | none ↦ false
    | some existing ↦ str_eq existing spec
  ]

  -- Register; the error leaves the scheduler as it was.
  unfoldable pub register : Scheduler → Str → Str → Fn → Scheduler × Option Error
  unfolding drop_entry is_current
  register s key spec fn =
      if is_empty key
      then (s, some key_required)
      else if is_empty spec
      then (s, some spec_required)
      else if is_current s key spec
      then (s, none)
      else elim (lib.add_func s.cron spec fn) [
        | none ↦ (s, some bad_spec)
        | some (id, c) ↦ (
          record {
            cron = drop_entry c (get s.entries key);
            entries = put s.entries key id;
            specs = put s.specs key spec;
          },
          none,
        )
      ]

  -- Unregister
  unfoldable pub unregister : Scheduler → Str → Scheduler
  unregister s key = elim (get s.entries key) [
    | none ↦ s
    | some id ↦ record {
      cron = lib.remove s.cron id;
      entries = del s.entries key;
      specs = del s.specs key;
    }
  ]

  -- Spec; the empty text stands for none.
  unfoldable pub spec_of : Scheduler → Str → Str
  spec_of s key = elim (get s.specs key) [ none ↦ [] | some spec ↦ spec ]
