-- ===== src/Daemon/Planned/Samples.antt =====
-- Tests and an instance for the planned repositories.
use workingman.Prelude.{◌≡◌, refl, true, false, none, some, List, [], ◌∷◌, Str, codes, str_eq}
use workingman.Project.{Project, Repo, empty_project}
use workingman.Daemon.Planned.{
  Answers, Store, written, emptied, snapshot_missing, planning_cycle, added_to, describe,
  snapshot_from_project,
}

abbrev repo : Str → Repo
repo name = record { org = codes "o"; name = name; base_branch = []; visibility = [] }

abbrev listing : List Repo → Project
listing rs = record empty_project { repos = rs; branch = codes "f" }

abbrev all_well : Answers
all_well = record { has_manager = true; add_succeeds = true; write = written; creates = true }

abbrev clone_fails : Answers
clone_fails = record all_well { add_succeeds = false }

abbrev ab : Project
ab = listing (repo (codes "a") ∷ repo (codes "b") ∷ [])

abbrev abc : Project
abc = listing (repo (codes "a") ∷ repo (codes "b") ∷ repo (codes "c") ∷ [])

abbrev write_fails : Answers
write_fails = record all_well { write = emptied }

c_is_added :
    describe (snapshot_from_project ab) abc ≡ added_to (codes "repos") (codes "o/c" ∷ []) ∷ []
unfolding describe str_eq
c_is_added = refl

-- Where Create fails after the first snapshot was written, the snapshot has a repository that no
-- workspace has. Changed to another one and back before a clone succeeds, it is never added.
abbrev after_failed_create : Store
after_failed_create =
    planning_cycle (record all_well { creates = false }) ab
      (record { file = snapshot_missing; workspace = none })

abbrev after_change : Store
after_change =
    planning_cycle all_well (listing (repo (codes "a") ∷ repo (codes "c") ∷ [])) after_failed_create

b_is_missing :
    (planning_cycle all_well abc after_change).workspace
    ≡ some (codes "o/c" ∷ codes "o/a" ∷ codes "o/c" ∷ [])
unfolding planning_cycle str_eq
b_is_missing = refl
