-- ===== src/Project/Samples.antt =====
-- Tests of the predicates on projects.
use mathlib.Core.List.{Memᴰ}
use workingman.Prelude.{◌≡◌, refl, true, [], ◌∷◌, Str, codes, str_eq, ℕ}
use workingman.Project.{Project, PullRequest, empty_project, is_merged_pr, all_branches_merged}
use workingman.Project.Merged.{AllMerged, all_branches_merged-AllMerged}

abbrev pr : Str → Str → PullRequest
pr repo state = record { repo = repo; number = 1; url = []; head_sha = []; state = state }

-- A merged pull request, and one of the same repository that was closed.
abbrev done_project : Project
done_project = record empty_project {
  pull_requests =
      pr (codes "org/App") (codes "merged") ∷ pr (codes "org/app") (codes "closed") ∷ [];
}

abbrev committed_repos : workingman.Prelude.List Str
committed_repos = codes "ORG/app" ∷ []

done_merged : all_branches_merged done_project committed_repos ≡ true
unfolding all_branches_merged str_eq
done_merged = refl

all_branches_merged-AllMerged_example :
    ((q : PullRequest) × Memᴰ q done_project.pull_requests × (is_merged_pr q ≡ true))
    × AllMerged done_project.pull_requests committed_repos
all_branches_merged-AllMerged_example =
    all_branches_merged-AllMerged done_project committed_repos done_merged
