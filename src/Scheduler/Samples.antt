-- ===== src/Scheduler/Samples.antt =====
-- Tests and instances for the scheduler: a cron library that numbers its entries.
use workingman.Prelude.{
  ℕ, suc, ◌≡◌, ◌≢◌, refl, Option, none, some, arith, Str, codes, is_empty, List, [], ◌∷◌, ◌==◌, ◌≤◌,
  if◌then◌else◌, put, get,
}
use workingman.Scheduler.{CronLib, Scheduler, empty_scheduler, register, unregister, spec_of}
use workingman.Scheduler.Synced.{IsSynced, schedule}
use workingman.Scheduler.Register.{Registers, register-Registers}
use workingman.Scheduler.Unregister.{Unregisters, unregister-Unregisters}
use workingman.Scheduler.Runs.{Call, registers, run, run-IsSynced}

-- The entries by id, the newest first; a removed entry stays as a blank.
abbrev Table : Type 0
Table = List (Option (Str × ℕ))

abbrev table_size : Table → ℕ
table_size [] = 0
table_size (x ∷ t) = suc (table_size t)

abbrev entry_of : Table → ℕ → Option (Str × ℕ)
entry_of [] id = none
entry_of (x ∷ t) id = if id == table_size t then x else entry_of t id

abbrev blank : Table → ℕ → Table
blank [] id = []
blank (x ∷ t) id = (if id == table_size t then none else x) ∷ blank t id

abbrev add_entry : Table → Str → ℕ → Option (ℕ × Table)
add_entry t spec fn = if is_empty spec then none else some (table_size t, some (spec, fn) ∷ t)

entry_of_beyond : (t : Table) (id : ℕ) → table_size t ≤ id → entry_of t id ≡ none
entry_of_beyond [] id h = refl
entry_of_beyond (x ∷ t) id h = ground (arith, entry_of_beyond t id)

table_size-blank : (t : Table) (id : ℕ) → table_size (blank t id) ≡ table_size t
table_size-blank [] id = refl
table_size-blank (x ∷ t) id = ground (arith, table_size-blank t id)

entry_of-blank :
    (t : Table) (id j : ℕ) → entry_of (blank t id) j ≡ (if j == id then none else entry_of t j)
entry_of-blank [] id j = ground arith
entry_of-blank (x ∷ t) id j = ground (arith, entry_of-blank t id j, table_size-blank t id)

entry_of-add_entry :
    (t : Table) (spec : Str) (fn id : ℕ) (t' : Table)
    → add_entry t spec fn ≡ some (id, t')
    → (entry_of t id ≡ none)
      × (entry_of t' id ≡ some (spec, fn))
      × ((j : ℕ) → j ≢ id → entry_of t' j ≡ entry_of t j)
entry_of-add_entry t spec fn id t' h =
    (ground (arith, entry_of_beyond t id), ground arith, λ j n. ground arith)

entry_of-blank_others :
    (t : Table) (id : ℕ)
    → (entry_of (blank t id) id ≡ none)
      × ((j : ℕ) → j ≢ id → entry_of (blank t id) j ≡ entry_of t j)
entry_of-blank_others t id =
    (ground (arith, entry_of-blank t id id), λ j n. ground (arith, entry_of-blank t id j))

abbrev numbered : CronLib ℕ
numbered = record {
  Cron = Table;
  new = [];
  add_func = add_entry;
  remove = blank;
  entry = entry_of;
  entry-new = λ id. refl;
  entry-add_func = entry_of-add_entry;
  entry-remove = entry_of-blank_others;
}

abbrev hourly : Str
hourly = codes "@hourly"

abbrev daily : Str
daily = codes "@daily"

abbrev key_a : Str
key_a = codes "project"

-- A schedule that changes.
abbrev calls : List (Call {Fn = ℕ} numbered)
calls =
    registers key_a hourly 1 ∷ registers (codes "review") hourly 2 ∷ registers key_a daily 3 ∷ []

abbrev changed : Scheduler numbered
changed = run numbered (empty_scheduler numbered) calls

run-IsSynced_example : IsSynced numbered changed
run-IsSynced_example = run-IsSynced numbered calls

register-Registers_example :
    Registers numbered changed key_a hourly 4 (register numbered changed key_a hourly 4)
register-Registers_example = register-Registers numbered changed key_a hourly 4 run-IsSynced_example

unregister-Unregisters_example :
    Unregisters numbered changed key_a (unregister numbered changed key_a)
unregister-Unregisters_example = unregister-Unregisters numbered changed key_a run-IsSynced_example

changed_spec : spec_of numbered changed key_a ≡ daily
unfolding spec_of run empty_scheduler register put get
changed_spec = refl

changed_fires : schedule numbered changed key_a ≡ some (daily, 3)
unfolding run empty_scheduler register put get
changed_fires = refl

changed_gone : entry_of changed.cron 0 ≡ none
unfolding run empty_scheduler register put get
changed_gone = refl
