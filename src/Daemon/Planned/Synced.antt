-- ===== src/Daemon/Planned/Synced.antt =====
-- What the synchronisation of planned repositories (internal/daemon/repo_sync.go) keeps of the snapshot
-- and the workspace.
use workingman.Prelude.{
  contains-append, or_left, or_right, ◌≡◌, refl, sym, ◌∙◌, Bool, true, false, not, ◌⊎◌, inl, inr,
  List, [], ◌∷◌, ◌++◌, Str, contains, if◌then◌else◌, Option, none, some, false≢true,
}
use workingman.Project.{Project}
use workingman.Daemon.Planned.{
  PlannedSnapshot, identities, describe, Change, SnapshotFile, snapshot_missing, snapshot_broken,
  snapshot_saved, Write, written, untouched, emptied, garbled, written_file, Store, Answers,
  save_snapshot, add_to_workspace, listed, adopt_existing_workspace, sync_added, to_add,
  sync_planned_repos,
}
use workingman.Daemon.Planned.Covered.{listed_covered}

abbrev pub repos_of : SnapshotFile → List Str
repos_of (snapshot_saved s) = identities (s.repos ++ s.new_repos)
repos_of _ = []

-- The repositories in the workspace; none where there is no workspace.
abbrev pub cloned_in : Option (List Str) → List Str
cloned_in none = []
cloned_in (some cloned) = cloned

-- All of the first list are in the second.
abbrev pub AreIn : List Str → List Str → Type 0
AreIn xs ys = (id : Str) → contains xs id ≡ true → contains ys id ≡ true

-- The repositories of a saved snapshot are in the workspace.
abbrev pub IsKept : Store → Type 0
IsKept st = AreIn (repos_of st.file) (cloned_in st.workspace)

-- Everything that a project lists is in the workspace.
abbrev pub IsCloned : Project → Store → Type 0
IsCloned p st = AreIn (listed p) (cloned_in st.workspace)

-- After a cycle the snapshot is kept, and everything is in the workspace if AddRepos succeeded.
abbrev pub IsDone : Answers → Project → Store → Type 0
IsDone env p st = IsKept st × (env.add_succeeds ≡ true → IsCloned p st)

pub empty-AreIn : (ys : List Str) → AreIn [] ys
unfolding contains
empty-AreIn ys id h = absurd (false≢true h)

-- A write adds no repositories to the file but those that the project lists.
pub written_file-AreIn :
    (a : Write) (p : Project) (f : SnapshotFile) (ys : List Str)
    → AreIn (repos_of f) ys
    → AreIn (listed p) ys
    → AreIn (repos_of (written_file a p f)) ys
written_file-AreIn written p f ys old new = new
written_file-AreIn untouched p f ys old new = old
written_file-AreIn emptied p f ys old new = empty-AreIn ys
written_file-AreIn garbled p f ys old new = empty-AreIn ys

save_snapshot-IsDone :
    (env : Answers) (p : Project) (st : Store)
    → IsKept st
    → IsCloned p st
    → IsDone env p (save_snapshot env p st)
unfolding save_snapshot
save_snapshot-IsDone env p st h full =
    (written_file-AreIn env.write p st.file (cloned_in st.workspace) h full, λ a. full)

grown_left : (xs ys zs : List Str) → AreIn xs ys → AreIn xs (ys ++ zs)
grown_left xs ys zs h id m = contains-append ys zs id ∙ or_left _ _ (h id m)

grown_right : (xs ys zs : List Str) → AreIn xs zs → AreIn xs (ys ++ zs)
grown_right xs ys zs h id m = contains-append ys zs id ∙ or_right (contains ys id) _ (h id m)

-- What follows AddRepos: nothing where it failed.
abbrev saved_after : Answers → Project → Store → Option Store → Store
saved_after env p st o = elim o [ none ↦ st | some after ↦ save_snapshot env p after ]

added-IsDone :
    (env : Answers) (p : Project) (file : SnapshotFile) (ids cloned : List Str)
    → IsKept (record { file = file; workspace = some cloned })
    → ((id : Str)
        → contains (listed p) id ≡ true
        → (contains ids id ≡ true) ⊎ (contains cloned id ≡ true))
    → let st : Store = record { file = file; workspace = some cloned } in
      IsDone env p (saved_after env p st (add_to_workspace env ids st))
unfolding add_to_workspace
added-IsDone env p file ids cloned h all_in = by_answer env.add_succeeds refl
  where
    by_answer :
        (b : Bool)
        → env.add_succeeds ≡ b
        → IsDone env p (
            saved_after env p
              (record { file = file; workspace = some cloned })
              (if b then some (record { file = file; workspace = some (ids ++ cloned) }) else none))
    by_answer false a = (h, λ t. absurd (false≢true (sym a ∙ t)))
    by_answer true a =
        save_snapshot-IsDone env p (record { file = file; workspace = some (ids ++ cloned) })
          (grown_right (repos_of file) ids cloned h)
          (λ id m.
            contains-append ids cloned id
            ∙ elim (all_in id m) [ inl x ↦ or_left _ _ x | inr y ↦ or_right (contains ids id) _ y ])

-- The synchronisation with a workspace manager.
module _ (env : Answers) (p : Project) (manager : env.has_manager ≡ true) where
  sync_added-IsDone :
      (s : PlannedSnapshot) (cloned : List Str) (changes : List Change)
      → AreIn (identities (s.repos ++ s.new_repos)) cloned
      → (ids : List Str) → to_add s p ≡ ids
      → IsDone env p (
          sync_added env p ids changes
            (record { file = snapshot_saved s; workspace = some cloned }))
  unfolding sync_added contains
  sync_added-IsDone s cloned changes inside ids e = by_ids ids changes e
    where
      all_in :
          (id : Str)
          → contains (listed p) id ≡ true
          → (contains (to_add s p) id ≡ true) ⊎ (contains cloned id ≡ true)
      all_in id m = elim (listed_covered s p id m) [ inl x ↦ inr (inside id x) | inr y ↦ inl y ]

      full : to_add s p ≡ [] → AreIn (listed p) cloned
      full none_new id m = elim (all_in id m) [
        | inl x ↦ absurd (false≢true (rw none_new at x))
        | inr y ↦ y
      ]

      by_ids :
          (ids : List Str) (changes : List Change)
          → to_add s p ≡ ids
          → IsDone env p (
              sync_added env p ids changes
                (record { file = snapshot_saved s; workspace = some cloned }))
      by_ids [] [] e = (inside, λ a. full e)
      by_ids [] (change ∷ changes) e =
          save_snapshot-IsDone env p (record { file = snapshot_saved s; workspace = some cloned })
            inside (full e)
      by_ids (id ∷ ids) changes e =
          rw manager
            (added-IsDone env p (snapshot_saved s) (id ∷ ids) cloned inside (rw e at all_in))

  adopted-IsDone :
      (file : SnapshotFile) (cloned : List Str)
      → AreIn (repos_of file) cloned
      → IsDone env p
          (adopt_existing_workspace env p (record { file = file; workspace = some cloned }))
  unfolding adopt_existing_workspace
  adopted-IsDone file cloned h = by_list (listed p) refl
    where
      by_list :
          (ids : List Str)
          → listed p ≡ ids
          → let st : Store = record { file = file; workspace = some cloned } in
            IsDone env p (elim ids [
              | [] ↦ save_snapshot env p st
              | id ∷ ids ↦
                  if not env.has_manager
                  then save_snapshot env p st
                  else saved_after env p st (add_to_workspace env (id ∷ ids) st)
            ])
      by_list [] e =
          save_snapshot-IsDone env p (record { file = file; workspace = some cloned }) h
            (rw e (empty-AreIn cloned))
      by_list (id ∷ ids) e =
          rw manager (added-IsDone env p file (id ∷ ids) cloned h (λ i m. inl (rw e at m)))

  -- The synchronisation with a workspace that exists.
  pub synced-IsDone :
      (file : SnapshotFile) (cloned : List Str)
      → AreIn (repos_of file) cloned
      → IsDone env p
          ((sync_planned_repos env p (record { file = file; workspace = some cloned })).1)
  unfolding sync_planned_repos
  synced-IsDone (snapshot_saved s) cloned h =
      sync_added-IsDone s cloned (describe s p) h (to_add s p) refl
  synced-IsDone snapshot_missing cloned h = adopted-IsDone snapshot_missing cloned h
  synced-IsDone snapshot_broken cloned h = adopted-IsDone snapshot_broken cloned h

  -- Without one, the most that it does is to save the snapshot.
  abbrev pub Unsynced : SnapshotFile → Store → Type 0
  Unsynced file st =
      (st.workspace ≡ none) × ((st.file ≡ file) ⊎ (st.file ≡ written_file env.write p file))

  sync_added-Unsynced :
      (file : SnapshotFile) (ids : List Str) (changes : List Change)
      → Unsynced file (sync_added env p ids changes (record { file = file; workspace = none }))
  unfolding sync_added add_to_workspace save_snapshot
  sync_added-Unsynced file [] [] = (refl, inl refl)
  sync_added-Unsynced file [] (change ∷ changes) = (refl, inr refl)
  sync_added-Unsynced file (id ∷ ids) changes = rw manager (refl, inl refl)

  pub sync_planned_repos-Unsynced :
      (file : SnapshotFile)
      → Unsynced file ((sync_planned_repos env p (record { file = file; workspace = none })).1)
  unfolding sync_planned_repos adopt_existing_workspace save_snapshot
  sync_planned_repos-Unsynced (snapshot_saved s) =
      sync_added-Unsynced (snapshot_saved s) (to_add s p) (describe s p)
  sync_planned_repos-Unsynced snapshot_missing = (refl, inr refl)
  sync_planned_repos-Unsynced snapshot_broken = (refl, inr refl)
