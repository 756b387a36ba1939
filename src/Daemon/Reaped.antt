-- ===== src/Daemon/Reaped.antt =====
-- What one scan of the reaper closes.
use workingman.Prelude.{
  ℕ, ◌+◌, ◌≤◌, ◌≡◌, ◌≢◌, ◌↔◌, ◌⊎◌, inl, inr, refl, Bool, true, false, List, [], ◌∷◌, if◌then◌else◌,
  Option, none, some, arith, is_some,
}
use workingman.Agent.{Kind, wolf_agent, workingman_agent, interactive}
use workingman.Daemon.State.{World, Env}
use workingman.Daemon.Reaper.{
  Key, Tracked, Cause, session_done_grace, stage_complete, last_active, idle_for, stranded_verdict,
  reap, is_workingman, timed_verdict, reap_stranded_sessions,
}

-- An agent that nobody talks to, silent for the grace once its stage is complete, and otherwise for the
-- timeout.
pub record IsStranded (env : Env) (timeout : ℕ) (w : World) (key : Key) (e : Tracked) : Type 0 where
  pub autonomous : (e.kind ≢ wolf_agent) × (e.kind ≢ workingman_agent)
  pub silent :
      last_active e + (if stage_complete env w key e then session_done_grace else timeout) ≤ env.now

-- What a scan makes of one session.
pub record Scanned (env : Env) (timeout : ℕ) (w : World) (before after : Key × Tracked)
    : Type 0 where
  pub same : (after.0 ≡ before.0) × (record after.1 { closed = before.1.closed } ≡ before.1)
  pub closed_iff :
      (after.1.closed ≡ true)
      ↔ ((before.1.closed ≡ true) ⊎ IsStranded env timeout w before.0 before.1)

interactive_iff : (k : Kind) → (interactive k ≡ false) ↔ (k ≢ wolf_agent)
interactive_iff wolf_agent = (λ e. cc, λ n. absurd (n refl))
interactive_iff _ = (λ e same. cc, λ n. refl)

is_workingman_iff : (k : Kind) → (is_workingman k ≡ false) ↔ (k ≢ workingman_agent)
is_workingman_iff workingman_agent = (λ e. cc, λ n. absurd (n refl))
is_workingman_iff _ = (λ e same. cc, λ n. refl)

timed_iff :
    (env : Env) (timeout : ℕ) (complete : Bool) (e : Tracked)
    → (is_some (timed_verdict env timeout complete e) ≡ true)
      ↔ (last_active e + (if complete then session_done_grace else timeout) ≤ env.now)
unfolding timed_verdict idle_for
timed_iff env timeout true e = (λ h. ground arith, λ h. ground arith)
timed_iff env timeout false e = (λ h. ground arith, λ h. ground arith)

gate :
    (a b : Bool) (o : Option Cause)
    → (is_some (if a then none else if b then none else o) ≡ true)
      ↔ ((a ≡ false) × (b ≡ false) × (is_some o ≡ true))
gate true b o = (λ h. cc, λ h. cc h.0)
gate false true o = (λ h. cc, λ h. cc h.1)
gate false false o = (λ h. (refl, refl, h), λ h. h.2)

-- strandedVerdict names a cause exactly for a stranded session.
stranded_lem :
    (env : Env) (timeout : ℕ) (w : World) (key : Key) (e : Tracked)
    → (is_some (stranded_verdict env timeout w key e) ≡ true) ↔ IsStranded env timeout w key e
unfolding stranded_verdict
stranded_lem env timeout w key e =
    let passes =
      gate (interactive e.kind) (is_workingman e.kind)
        (timed_verdict env timeout (stage_complete env w key e) e) in
    let timed = timed_iff env timeout (stage_complete env w key e) e in
    (
      λ h.
          let (i, m, t) = passes.0 h in
          record {
            autonomous = ((interactive_iff e.kind).0 i, (is_workingman_iff e.kind).0 m);
            silent = timed.0 t;
          },
      λ h. passes.1 (
        (interactive_iff e.kind).1 h.autonomous.0,
        (is_workingman_iff e.kind).1 h.autonomous.1,
        timed.1 h.silent,
      ),
    )

reap_closed :
    (o : Option Cause) (e : Tracked)
    → ((reap o e).closed ≡ true) ↔ ((e.closed ≡ true) ⊎ (is_some o ≡ true))
unfolding reap
reap_closed none e = (λ h. inl h, λ h. elim h [ inl was ↦ was | inr n ↦ cc ])
reap_closed (some c) e = (λ h. inr refl, λ h. refl)

reap_same : (o : Option Cause) (e : Tracked) → record (reap o e) { closed = e.closed } ≡ e
unfolding reap
reap_same none e = refl
reap_same (some c) e = refl

-- The two lists have the same length, and what stands at one place is related.
abbrev pub Pairwise :
    (Key × Tracked → Key × Tracked → Type 0) → List (Key × Tracked) → List (Key × Tracked) → Type 0
Pairwise R [] [] = Unit {0}
Pairwise R [] (y ∷ ys) = ⊥
Pairwise R (x ∷ xs) [] = ⊥
Pairwise R (x ∷ xs) (y ∷ ys) = R x y × Pairwise R xs ys

-- A scan of the reaper keeps every session with its key, and changes nothing in it but that it is
-- closed; it closes exactly the stranded ones: those of an agent other than the wolf and the
-- workingman agent, that were silent for the grace of 90 seconds where the stage is complete, and for
-- the idle timeout where it is not.
pub reap_stranded_sessions-Scanned :
    (env : Env) (timeout : ℕ) (w : World) (sessions : List (Key × Tracked))
    → Pairwise (Scanned env timeout w) sessions (reap_stranded_sessions env timeout w sessions)
unfolding reap_stranded_sessions
reap_stranded_sessions-Scanned env timeout w [] = tt
reap_stranded_sessions-Scanned env timeout w ((key, e) ∷ sessions) = (
  record {
    same = (refl, reap_same (stranded_verdict env timeout w key e) e);
    closed_iff = (
      λ h. elim ((reap_closed (stranded_verdict env timeout w key e) e).0 h) [
        | inl was ↦ inl was
        | inr s ↦ inr ((stranded_lem env timeout w key e).0 s)
      ],
      λ h.
          (reap_closed (stranded_verdict env timeout w key e) e).1
            (elim h [ inl was ↦ inl was | inr s ↦ inr ((stranded_lem env timeout w key e).1 s) ]),
    );
  },
  reap_stranded_sessions-Scanned env timeout w sessions,
)
