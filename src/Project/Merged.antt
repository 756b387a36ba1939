-- ===== src/Project/Merged.antt =====
-- What AllBranchesMerged promises (internal/project/project.go).
use mathlib.Core.List.{Memᴰ}
use mathlib.Core.List.Memᴰ
use workingman.Prelude.{
  ◌≡◌, refl, sym, ap, subst, ◌∙◌, Bool, true, false, ◌&&◌, ◌||◌, not, List, [], ◌∷◌, ◌++◌, map, Str,
  codes, str_eq, str_eq→eq, contains, length, any, all, all_at, keep, if◌then◌else◌, Bool-cases,
  inl, inr, false≢true, true≢false, arith, ◌==◌,
}
use workingman.Task.{to_lower}
use workingman.Project.{Project, PullRequest, is_merged_pr, has_open_pr, all_branches_merged}

-- A merged pull request of the list whose repository is the given one, but for upper and lower case.
unfoldable pub HasMergedPr : List PullRequest → Str → Type 0
HasMergedPr prs repo =
    (pr : PullRequest) × Memᴰ pr prs × (is_merged_pr pr ≡ true) × (to_lower pr.repo ≡ to_lower repo)

-- Every pull request is merged or closed, and every repository that has a pull request or commits of
-- its own has a merged one.
pub record AllMerged (prs : List PullRequest) (repos : List Str) : Type 0 where
  pub settled :
      (pr : PullRequest)
      → Memᴰ pr prs
      → ((str_eq pr.state (codes "merged")) || (str_eq pr.state (codes "closed"))) ≡ true
  pub of_prs : (pr : PullRequest) → Memᴰ pr prs → HasMergedPr prs pr.repo
  pub of_repos : (repo : Str) → Memᴰ repo repos → HasMergedPr prs repo

contains-mem : (xs : List Str) (s : Str) → contains xs s ≡ true → Memᴰ s xs
unfolding contains
contains-mem [] s e = absurd (false≢true e)
contains-mem (x ∷ xs) s e = elim (Bool-cases (str_eq x s)) [
  | inl f ↦ Memᴰ.head (sym (str_eq→eq x s f))
  | inr f ↦ Memᴰ.tail (contains-mem xs s (rw (f) at e))
]

module _ {A : Type 0} where
  keep-at : (p : A → Bool) (xs : List A) (x : A) → Memᴰ x (keep p xs) → Memᴰ x xs × (p x ≡ true)
  keep-at p [] x m = elim m [ ]
  keep-at p (y ∷ ys) x m = by_test (keep-at p ys x) (p y) refl m
    where
      by_test :
          (Memᴰ x (keep p ys) → Memᴰ x ys × (p x ≡ true))
          → (b : Bool) → p y ≡ b
          → Memᴰ x (elim b [ true ↦ y ∷ keep p ys | false ↦ keep p ys ])
          → Memᴰ x (y ∷ ys) × (p x ≡ true)
      by_test rec true e (Memᴰ.head q) = (Memᴰ.head q, ap p q ∙ e)
      by_test rec true e (Memᴰ.tail n) = let (i, f) = rec n in (Memᴰ.tail i, f)
      by_test rec false e n = let (i, f) = rec n in (Memᴰ.tail i, f)

  map-at :
      {B : Type 0} (f : A → B) (xs : List A) (b : B)
      → Memᴰ b (map f xs)
      → (x : A) × Memᴰ x xs × (b ≡ f x)
  map-at f [] b m = elim m [ ]
  map-at f (y ∷ ys) b (Memᴰ.head e) = (y, Memᴰ.head refl, e)
  map-at f (y ∷ ys) b (Memᴰ.tail m) = let (x, i, e) = map-at f ys b m in (x, Memᴰ.tail i, e)

  any-at : (p : A → Bool) (xs : List A) (x : A) → any p xs ≡ false → Memᴰ x xs → p x ≡ false
  any-at p [] x e m = elim m [ ]
  any-at p (y ∷ ys) x e (Memᴰ.head q) = ground (arith, ap p q)
  any-at p (y ∷ ys) x e (Memᴰ.tail m) = any-at p ys x (ground arith) m

-- A key of the merged pull requests comes from one of them.
merged_key :
    (prs : List PullRequest) (repo : Str)
    → contains (map (λ pr. to_lower pr.repo) (keep is_merged_pr prs)) (to_lower repo) ≡ true
    → HasMergedPr prs repo
unfolding HasMergedPr
merged_key prs repo e =
    let (pr, kept, same) =
      map-at (λ pr. to_lower pr.repo) (keep is_merged_pr prs) (to_lower repo)
        (contains-mem _ _ e) in
    let (listed, is_merged) = keep-at is_merged_pr prs pr kept in (pr, listed, is_merged, sym same)

settled_state : (a b : Bool) → (not a && not b) ≡ false → (a || b) ≡ true
settled_state a b e = ground arith

-- If AllBranchesMerged holds of a project and the repositories with commits, there is a merged
-- pull request, every pull request is merged or closed, and for every repository that has a pull
-- request or commits there is a merged pull request, where names of repositories are compared
-- without regard to upper and lower case.
pub all_branches_merged-AllMerged :
    (p : Project) (repos : List Str)
    → all_branches_merged p repos ≡ true
    → ((pr : PullRequest) × Memᴰ pr p.pull_requests × (is_merged_pr pr ≡ true))
      × AllMerged p.pull_requests repos
unfolding all_branches_merged
all_branches_merged-AllMerged p repos e =
    by_tests (length keys == 0) refl (all (contains keys) counted) refl
      (has_open_pr p.pull_requests) refl e
  where
    keys : List Str
    keys = map (λ pr. to_lower pr.repo) (keep is_merged_pr p.pull_requests)

    counted : List Str
    counted = map (λ pr. to_lower pr.repo) p.pull_requests ++ map to_lower repos

    by_tests :
        (a : Bool)
        → (length keys == 0) ≡ a
        → (b : Bool) → all (contains keys) counted ≡ b
        → (c : Bool) → has_open_pr p.pull_requests ≡ c
        → (if a then false else if not b then false else not c) ≡ true
        → ((pr : PullRequest) × Memᴰ pr p.pull_requests × (is_merged_pr pr ≡ true))
          × AllMerged p.pull_requests repos
    by_tests true x b y c z e = absurd (false≢true e)
    by_tests false x false y c z e = absurd (false≢true e)
    by_tests false x true y true z e = absurd (false≢true e)
    by_tests false x true y false z e = (
      some_merged keys x refl,
      record {
        settled =
            λ pr i. settled_state _ _ (any-at _ p.pull_requests pr (unfold has_open_pr in z) i);
        of_prs = λ pr i. merged_key p.pull_requests pr.repo (
            all_at (contains keys) counted y
              (Memᴰ.append_left (map to_lower repos) (Memᴰ.map (λ q. to_lower q.repo) i)));
        of_repos = λ repo i. merged_key p.pull_requests repo (
            all_at (contains keys) counted y (
              Memᴰ.append_right (map (λ pr. to_lower pr.repo) p.pull_requests)
                (Memᴰ.map to_lower i)));
      },
    )
      where
        some_merged :
            (ks : List Str)
            → (length ks == 0) ≡ false
            → ks ≡ keys
            → (pr : PullRequest) × Memᴰ pr p.pull_requests × (is_merged_pr pr ≡ true)
        some_merged [] f g = absurd (true≢false f)
        some_merged (k ∷ ks) f g =
            let (pr, kept, same) =
              map-at (λ pr. to_lower pr.repo) (keep is_merged_pr p.pull_requests) k
                (subst (λ l. Memᴰ k l) g (Memᴰ.head refl)) in
            let (listed, is_merged) = keep-at is_merged_pr p.pull_requests pr kept in
            (pr, listed, is_merged)
