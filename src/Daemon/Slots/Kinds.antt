-- ===== src/Daemon/Slots/Kinds.antt =====
-- The end of a session of each key, by the kinds that the key may be held by.
use workingman.Prelude.{◌≡◌, refl, true, false, none, some, is_some, false≢true, ap}
use workingman.Daemon.State.{World, Env, Kind, Session, set_session, main, wolf_slot}
use workingman.Daemon.Dispatch.{end_planning}
use workingman.Daemon.Ends.{Exit}
use workingman.Daemon.Events.{on_end}
use workingman.Daemon.Protocol.{is_worker, slots_of, kind_of}
use workingman.Daemon.Protocol.Invariant.{IsSound, main_kind, only}
use workingman.Daemon.Protocol.Watch.{revisit_project-Moves}
use workingman.Daemon.Protocol.Ends.{after_task_session-Moves, after_commit_session-Moves}
use workingman.Daemon.Protocol.Reviews.{after_review_session-Moves}
use workingman.Daemon.Slots.Ends.{
  kept, after_project_session-Sound, after_planning_session-Sound, after_archive_session-Sound,
}

-- The slots when a session of the main slot, or the wolf, has left the map.
pub main_ended :
    (w : World) → IsSound false (slots_of w) → IsSound false (slots_of (set_session main none w))
unfolding slots_of kind_of set_session main_kind
main_ended w ok = record {
  main_ok = refl;
  planner_ok = ok.planner_ok;
  wolf_ok = ok.wolf_ok;
  archive_ok = ok.archive_ok;
  planning_guard = ok.planning_guard;
  cleanup_guard = ok.cleanup_guard;
  ended = ok.ended;
  review_alone = λ e. absurd (false≢true (ap (λ o. is_some o) e));
  planning_budget = ok.planning_budget;
  project_budget = ok.project_budget;
}

pub wolf_ended :
    (w : World)
    → IsSound false (slots_of w)
    → IsSound false (slots_of (set_session wolf_slot none w))
unfolding slots_of kind_of set_session only
wolf_ended w ok = record {
  main_ok = ok.main_ok;
  planner_ok = ok.planner_ok;
  wolf_ok = refl;
  archive_ok = ok.archive_ok;
  planning_guard = ok.planning_guard;
  cleanup_guard = ok.cleanup_guard;
  ended = ok.ended;
  review_alone = ok.review_alone;
  planning_budget = ok.planning_budget;
  project_budget = ok.project_budget;
}

-- The end of a session that a slot may hold.
pub on_end_main :
    (env : Env) (exit : Exit) (s : Session) (w : World)
    → main_kind (some (s.kind)) ≡ true
    → IsSound false (slots_of w)
    → IsSound false (slots_of (on_end env exit s w))
unfolding on_end main_kind is_worker
on_end_main env exit s w is ok = by_kind s.kind is
  where
    by_kind :
        (k : Kind)
        → main_kind (some k) ≡ true
        → IsSound false (slots_of (on_end env exit (record s { kind = k }) w))
    by_kind Kind.project e = after_project_session-Sound env exit.wait_failed w ok
    by_kind Kind.task e = kept _ _ (after_task_session-Moves env s.task_path s.captured w) ok
    by_kind Kind.commit e =
        kept _ _ (after_commit_session-Moves env exit s.task_path s.captured w) ok
    by_kind Kind.review e = kept _ _ (after_review_session-Moves env exit.wait_failed w) ok
    by_kind Kind.planning e = absurd (false≢true e)
    by_kind Kind.wolf e = absurd (false≢true e)
    by_kind Kind.archive e = absurd (false≢true e)

pub on_end_planner :
    (env : Env) (exit : Exit) (s : Session) (w : World)
    → only Kind.planning (some (s.kind)) ≡ true
    → IsSound false (slots_of (end_planning w))
    → IsSound false (slots_of (on_end env exit s w))
unfolding on_end only
on_end_planner env exit s w is ok = by_kind s.kind is
  where
    by_kind :
        (k : Kind)
        → only Kind.planning (some k) ≡ true
        → IsSound false (slots_of (on_end env exit (record s { kind = k }) w))
    by_kind Kind.planning e = after_planning_session-Sound env exit.wait_failed w ok
    by_kind Kind.project e = absurd (false≢true e)
    by_kind Kind.task e = absurd (false≢true e)
    by_kind Kind.commit e = absurd (false≢true e)
    by_kind Kind.review e = absurd (false≢true e)
    by_kind Kind.wolf e = absurd (false≢true e)
    by_kind Kind.archive e = absurd (false≢true e)

pub on_end_wolf :
    (env : Env) (exit : Exit) (s : Session) (w : World)
    → only Kind.wolf (some (s.kind)) ≡ true
    → IsSound false (slots_of w)
    → IsSound false (slots_of (on_end env exit s w))
unfolding on_end only
on_end_wolf env exit s w is ok = by_kind s.kind is
  where
    by_kind :
        (k : Kind)
        → only Kind.wolf (some k) ≡ true
        → IsSound false (slots_of (on_end env exit (record s { kind = k }) w))
    by_kind Kind.wolf e = kept _ _ (revisit_project-Moves env w) ok
    by_kind Kind.project e = absurd (false≢true e)
    by_kind Kind.task e = absurd (false≢true e)
    by_kind Kind.commit e = absurd (false≢true e)
    by_kind Kind.review e = absurd (false≢true e)
    by_kind Kind.planning e = absurd (false≢true e)
    by_kind Kind.archive e = absurd (false≢true e)

pub on_end_archive :
    (env : Env) (exit : Exit) (s : Session) (w : World)
    → only Kind.archive (some (s.kind)) ≡ true
    → IsSound true (slots_of w)
    → IsSound false (slots_of (on_end env exit s w))
unfolding on_end only
on_end_archive env exit s w is ok = by_kind s.kind is
  where
    by_kind :
        (k : Kind)
        → only Kind.archive (some k) ≡ true
        → IsSound false (slots_of (on_end env exit (record s { kind = k }) w))
    by_kind Kind.archive e = after_archive_session-Sound env w ok
    by_kind Kind.project e = absurd (false≢true e)
    by_kind Kind.task e = absurd (false≢true e)
    by_kind Kind.commit e = absurd (false≢true e)
    by_kind Kind.review e = absurd (false≢true e)
    by_kind Kind.planning e = absurd (false≢true e)
    by_kind Kind.wolf e = absurd (false≢true e)
