-- ===== src/Daemon/Protocol/Invariant.antt =====
-- What the moves of the protocol keep, and so every step of a daemon.
use workingman.Prelude.{
  ◌≡◌, refl, Bool, true, false, ◌||◌, Option, none, some, is_some, ◌∙◌, sym, ap, subst, or_true,
  ◌≢◌, ◌<◌, true≢false, false≢true,
}
use workingman.Daemon.State.{Kind}
use workingman.Daemon.Protocol.{
  Slots, Move, Moves, take_main, take_review, take_planner, take_wolf, take_archive, keep_guard,
  stay, move, is_worker, beside_planning,
}
use workingman.Daemon.Dispatch.{runs_alongside_planning}
use workingman.Daemon.Ends.{max_planning_retries, max_project_retries}

-- The kinds that each key may be held by.
unfoldable pub main_kind : Option Kind → Bool
unfolding is_worker
main_kind none = true
main_kind (some Kind.review) = true
main_kind (some k) = is_worker k

unfoldable pub only : Kind → Option Kind → Bool
only k none = true
only Kind.planning (some Kind.planning) = true
only Kind.wolf (some Kind.wolf) = true
only Kind.archive (some Kind.archive) = true
only _ (some _) = false

-- The slots are sound, between the handlers of a daemon that runs one after another: each key is held
-- by an agent of its kind; a planning agent is in flight just
-- when its key is held, and a cleanup when the archive key is (or, with `ending`, while the
-- callback of an archive session runs); the review agent is never beside a planning agent; and the
-- counters of fruitless runs are below their bounds.
pub record IsSound (ending : Bool) (s : Slots) : Type 0 where
  pub main_ok : main_kind s.main ≡ true
  pub planner_ok : only Kind.planning s.planner ≡ true
  pub wolf_ok : only Kind.wolf s.wolf ≡ true
  pub archive_ok : only Kind.archive s.archive ≡ true
  pub planning_guard : s.busy ≡ is_some s.planner
  pub cleanup_guard : s.in_flight ≡ (is_some s.archive || ending)
  pub ended : ending ≡ true → s.archive ≡ none
  pub review_alone : s.main ≡ some Kind.review → s.busy ≡ false
  pub planning_budget : s.planning_failures < max_planning_retries
  pub project_budget : s.project_failures < max_project_retries

not_planning_beside_review : (o : Option Kind) → beside_planning o ≡ true → o ≢ some Kind.review
unfolding beside_planning runs_alongside_planning
not_planning_beside_review o b e = false≢true (subst (λ x. beside_planning x ≡ true) e b)

worker-not_review : (k : Kind) → is_worker k ≡ true → main_kind (some k) ≡ true
unfolding main_kind is_worker
worker-not_review Kind.review is = refl
worker-not_review Kind.project is = refl
worker-not_review Kind.task is = refl
worker-not_review Kind.commit is = refl
worker-not_review Kind.planning is = is
worker-not_review Kind.wolf is = is
worker-not_review Kind.archive is = is

worker≢review : (k : Kind) → is_worker k ≡ true → some k ≢ some Kind.review
unfolding is_worker
worker≢review k is e =
    false≢true (subst (λ o. elim o [ none ↦ true | some x ↦ is_worker x ] ≡ true) e is)

Move-IsSound : (ending : Bool) (s t : Slots) → Move s t → IsSound ending s → IsSound ending t
unfolding main_kind only
Move-IsSound ending s _ (take_main k free is) ok = record {
  main_ok = worker-not_review k is;
  planner_ok = ok.planner_ok;
  wolf_ok = ok.wolf_ok;
  archive_ok = ok.archive_ok;
  planning_guard = ok.planning_guard;
  cleanup_guard = ok.cleanup_guard;
  ended = ok.ended;
  review_alone = λ e. absurd (worker≢review k is e);
  planning_budget = ok.planning_budget;
  project_budget = ok.project_budget;
}
Move-IsSound ending s _ (take_review free calm) ok = record {
  main_ok = refl;
  planner_ok = ok.planner_ok;
  wolf_ok = ok.wolf_ok;
  archive_ok = ok.archive_ok;
  planning_guard = ok.planning_guard;
  cleanup_guard = ok.cleanup_guard;
  ended = ok.ended;
  review_alone = λ _. calm;
  planning_budget = ok.planning_budget;
  project_budget = ok.project_budget;
}
Move-IsSound ending s _ (take_planner free calm beside) ok = record {
  main_ok = ok.main_ok;
  planner_ok = refl;
  wolf_ok = ok.wolf_ok;
  archive_ok = ok.archive_ok;
  planning_guard = refl;
  cleanup_guard = ok.cleanup_guard;
  ended = ok.ended;
  review_alone = λ e. absurd (not_planning_beside_review s.main beside e);
  planning_budget = ok.planning_budget;
  project_budget = ok.project_budget;
}
Move-IsSound ending s _ (take_wolf free) ok = record {
  main_ok = ok.main_ok;
  planner_ok = ok.planner_ok;
  wolf_ok = refl;
  archive_ok = ok.archive_ok;
  planning_guard = ok.planning_guard;
  cleanup_guard = ok.cleanup_guard;
  ended = ok.ended;
  review_alone = ok.review_alone;
  planning_budget = ok.planning_budget;
  project_budget = ok.project_budget;
}
Move-IsSound true s _ (take_archive free idle) ok =
    absurd (true≢false (or_true (is_some s.archive) ∙ sym (ok.cleanup_guard) ∙ idle))
Move-IsSound false s _ (take_archive free idle) ok = record {
  main_ok = ok.main_ok;
  planner_ok = ok.planner_ok;
  wolf_ok = ok.wolf_ok;
  archive_ok = refl;
  planning_guard = ok.planning_guard;
  cleanup_guard = refl;
  ended = λ e. absurd (false≢true e);
  review_alone = ok.review_alone;
  planning_budget = ok.planning_budget;
  project_budget = ok.project_budget;
}
Move-IsSound ending s _ (keep_guard k held) ok = record {
  main_ok = ok.main_ok;
  planner_ok = ok.planner_ok;
  wolf_ok = ok.wolf_ok;
  archive_ok = ok.archive_ok;
  planning_guard = ok.planning_guard;
  cleanup_guard = sym (ap (λ o. is_some o || ending) held);
  ended = ok.ended;
  review_alone = ok.review_alone;
  planning_budget = ok.planning_budget;
  project_budget = ok.project_budget;
}

pub Moves-IsSound : (ending : Bool) (s t : Slots) → Moves s t → IsSound ending s → IsSound ending t
Moves-IsSound ending s _ stay ok = ok
Moves-IsSound ending s u (move {t = t} m ms) ok =
    Moves-IsSound ending t u ms (Move-IsSound ending s t m ok)
