-- ===== src/Daemon/Planned.antt =====
-- internal/project/planned_snapshot.go and internal/daemon/repo_sync.go: what was planned last, what a
-- human changed since, and the repositories that go into the workspace. The workspace manager is known by
-- what it is documented to do: Path tells whether a workspace exists, Create clones into one that does not
-- exist, AddRepos into one that does. One branch, so one workspace.
pub mod Covered
pub mod Kept
pub mod Synced
pub mod Samples
use workingman.Prelude.{
  ℕ, Bool, true, false, ◌||◌, not, List, [], ◌∷◌, ◌++◌, map, keep, Str, codes, str_eq, contains,
  is_empty, if◌then◌else◌, Option, none, some,
}
use workingman.Project.{Project, Repo}
use workingman.Taskgraph.{str_lt}

-- PlannedSnapshot
pub record PlannedSnapshot : Type 0 where
  pub description : Str
  pub repos : List Repo
  pub new_repos : List Repo
  pub branch : Str
  pub cron : Str
  pub cron_until : Option ℕ
  pub cron_max_runs : ℕ

-- SnapshotFromProject
abbrev pub snapshot_from_project : Project → PlannedSnapshot
snapshot_from_project p = record {
  description = p.description;
  repos = p.repos;
  new_repos = p.new_repos;
  branch = p.branch;
  cron = p.cron;
  cron_until = p.cron_until;
  cron_max_runs = p.cron_max_runs;
}

-- repoIdentity
abbrev pub repo_identity : Repo → Str
repo_identity r = r.org ++ b'/' ∷ r.name

abbrev pub identities : List Repo → List Str
identities rs = map repo_identity rs

-- One list of AddedRepos: the repositories that the snapshot has under neither field.
unfoldable pub added_among : List Str → List Repo → List Repo
unfolding contains
added_among had rs = keep (λ r. not (contains had (repo_identity r))) rs

-- AddedRepos: the existing ones and the new ones.
unfoldable pub added_repos : PlannedSnapshot → Project → List Repo × List Repo
unfolding added_among
added_repos s p =
    let had = identities (s.repos ++ s.new_repos) in
    (added_among had p.repos, added_among had p.new_repos)

-- A sorted list without double entries, as a map's keys are sorted.
unfoldable pub insert_id : Str → List Str → List Str
unfolding str_lt str_eq
insert_id id [] = id ∷ []
insert_id id (x ∷ xs) =
    if str_eq id x then x ∷ xs else if str_lt id x then id ∷ x ∷ xs else x ∷ insert_id id xs

unfoldable pub sorted_ids : List Str → List Str
unfolding insert_id
sorted_ids [] = []
sorted_ids (id ∷ ids) = insert_id id (sorted_ids ids)

-- The lines of Describe, by what they say; the first text of a repository line is the field.
pub data Change : Type 0 where
  description_changed branch_changed cron_changed : Str → Str → Change
  added_to removed_from : Str → List Str → Change

abbrev pub line_of : Change → List Str → List Change
line_of change [] = []
line_of change (id ∷ ids) = change ∷ []

-- describeRepoChanges
unfoldable pub describe_repo_changes : Str → List Repo → List Repo → List Change
unfolding contains sorted_ids
describe_repo_changes field before after =
    let added =
      sorted_ids (keep (λ id. not (contains (identities before) id)) (identities after)) in
    let removed =
      sorted_ids (keep (λ id. not (contains (identities after) id)) (identities before)) in
    line_of (added_to field added) added ++ line_of (removed_from field removed) removed

-- Describe
unfoldable pub describe : PlannedSnapshot → Project → List Change
unfolding str_eq describe_repo_changes
describe s p =
    (if str_eq s.description p.description
      then []
      else description_changed s.description p.description ∷ [])
    ++ (describe_repo_changes (codes "repos") s.repos p.repos
        ++ (describe_repo_changes (codes "new_repos") s.new_repos p.new_repos
            ++ ((if str_eq s.branch p.branch then [] else branch_changed s.branch p.branch ∷ [])
                ++ (if str_eq s.cron p.cron then [] else cron_changed s.cron p.cron ∷ []))))

-- LoadPlannedSnapshot: no file, one that does not parse, or a snapshot.
pub data SnapshotFile : Type 0 where
  snapshot_missing snapshot_broken : SnapshotFile
  snapshot_saved : PlannedSnapshot → SnapshotFile

-- What a write of the snapshot's file comes to. os.WriteFile truncates the file first, so that a failed
-- write may leave it empty or with a text that does not parse; a text that is cut off and parses all the
-- same is not modelled.
pub data Write : Type 0 where
  written untouched emptied garbled : Write

-- The snapshot's file and the workspace of the branch, if it exists: the repositories in it.
pub record Store : Type 0 where
  pub file : SnapshotFile
  pub workspace : Option (List Str)

-- Whether there is a workspace manager, what becomes of the write of the snapshot, whether AddRepos
-- succeeds and whether Create makes a workspace that is not there, in one cycle.
pub record Answers : Type 0 where
  pub has_manager : Bool
  pub add_succeeds : Bool
  pub write : Write
  pub creates : Bool

-- LoadPlannedSnapshot reads an empty file as this one.
abbrev pub empty_snapshot : PlannedSnapshot
empty_snapshot = record {
  description = [];
  repos = [];
  new_repos = [];
  branch = [];
  cron = [];
  cron_until = none;
  cron_max_runs = 0;
}

abbrev pub written_file : Write → Project → SnapshotFile → SnapshotFile
written_file written p old = snapshot_saved (snapshot_from_project p)
written_file untouched p old = old
written_file emptied p old = snapshot_saved empty_snapshot
written_file garbled p old = snapshot_broken

-- SavePlannedSnapshot of the project
unfoldable pub save_snapshot : Answers → Project → Store → Store
save_snapshot env p st = record st { file = written_file env.write p st.file }

-- Manager.AddRepos, into a workspace that exists; none is its error.
unfoldable pub add_to_workspace : Answers → List Str → Store → Option Store
add_to_workspace env ids st = elim st.workspace [
  | none ↦ none
  | some cloned ↦
      if env.add_succeeds then some (record st { workspace = some (ids ++ cloned) }) else none
]

-- The repositories of both fields of a project.
abbrev pub listed : Project → List Str
listed p = identities (p.repos ++ p.new_repos)

-- adoptExistingWorkspace
unfoldable pub adopt_existing_workspace : Answers → Project → Store → Store
unfolding add_to_workspace save_snapshot
adopt_existing_workspace env p st = elim st.workspace [
  | none ↦ save_snapshot env p st
  | some cloned ↦ elim (listed p) [
    | [] ↦ save_snapshot env p st
    | id ∷ ids ↦
        if not env.has_manager
        then save_snapshot env p st
        else elim (add_to_workspace env (id ∷ ids) st) [
          | none ↦ st
          | some after ↦ save_snapshot env p after
        ]
  ]
]

-- syncPlannedRepos where there is a snapshot, from the repositories to add and the changes on.
unfoldable pub sync_added : Answers → Project → List Str → List Change → Store → Store
unfolding add_to_workspace save_snapshot
sync_added env p [] [] st = st
sync_added env p [] (change ∷ changes) st = save_snapshot env p st
sync_added env p (id ∷ ids) changes st =
    if not env.has_manager then st else elim (add_to_workspace env (id ∷ ids) st) [
      | none ↦ st
      | some after ↦ save_snapshot env p after
    ]

-- addedWorkspaceRepos on the result of AddedRepos, by their identities.
abbrev pub to_add : PlannedSnapshot → Project → List Str
to_add s p = identities ((added_repos s p).0 ++ (added_repos s p).1)

-- syncPlannedRepos: the changes for the planning agent, and what it writes.
unfoldable pub sync_planned_repos : Answers → Project → Store → List Change × Store
unfolding adopt_existing_workspace added_repos describe sync_added
sync_planned_repos env p st = elim st.file [
  | snapshot_saved s ↦ (describe s p, sync_added env p (to_add s p) (describe s p) st)
  | _ ↦ ([], adopt_existing_workspace env p st)
]

-- resolvePlanningWorktree, with Manager.Create, which clones the listed repositories into a workspace
-- that does not exist and leaves one that does.
unfoldable pub resolve_planning_worktree : Answers → Project → Store → Store
resolve_planning_worktree env p st =
    if not env.has_manager || is_empty p.branch then st else elim (listed p) [
      | [] ↦ st
      | id ∷ ids ↦ elim st.workspace [
        | some cloned ↦ st
        | none ↦ if env.creates then record st { workspace = some (id ∷ ids) } else st
      ]
    ]

-- The planning launch: the synchronisation, then the workspace.
unfoldable pub planning_cycle : Answers → Project → Store → Store
unfolding sync_planned_repos resolve_planning_worktree
planning_cycle env p st = resolve_planning_worktree env p (sync_planned_repos env p st).1
