-- ===== src/Channels/Pacer/Spaced.antt =====
-- Sends keep their distance, and wait out what the server asks for.
use workingman.Prelude.{ℕ, ◌+◌, ◌≤◌, ◌≡◌, refl, ◌∙◌, arith, List, [], ◌∷◌, ◌++◌, All}
use workingman.Channels.Pacer.{
  Pacer, new_pacer, turn_at, wait, backoff, Call, waits, backs_off, turns,
}

-- Every turn is at least so long after all that were given before.
abbrev pub AreSpaced : ℕ → List ℕ → Type 0
AreSpaced gap [] = Unit {0}
AreSpaced gap (t ∷ ts) = All (λ later. t + gap ≤ later) ts × AreSpaced gap ts

All-from :
    (a b : ℕ) (ts : List ℕ) → a ≤ b → All (λ later. b ≤ later) ts → All (λ later. a ≤ later) ts
All-from a b [] h k = tt
All-from a b (t ∷ ts) h k = (omega (arith, h, k.0), All-from a b ts h k.1)

wait_next :
    (p : Pacer) (now : ℕ)
    → (p.next ≤ turn_at p now) × (now ≤ turn_at p now) × ((wait p now).next ≡ turn_at p now + p.gap)
unfolding turn_at wait
wait_next p now = ground arith

backoff_next :
    (p : Pacer) (now d : ℕ)
    → (p.next ≤ (backoff p now d).next)
      × (now + d ≤ (backoff p now d).next)
      × ((backoff p now d).gap ≡ p.gap)
unfolding backoff
backoff_next p now d = ground arith

-- No turn is given before the pacer's next slot.
turns_from : (calls : List Call) (p : Pacer) → All (λ later. p.next ≤ later) (turns p calls)
unfolding turns
turns_from [] p = tt
turns_from (waits now ∷ calls) p = (
  (wait_next p now).0,
  All-from p.next (wait p now).next (turns (wait p now) calls) (omega (arith, wait_next p now))
      (turns_from calls (wait p now)),
)
turns_from (backs_off now d ∷ calls) p =
    All-from p.next (backoff p now d).next (turns (backoff p now d) calls)
      ((backoff_next p now d).0) (turns_from calls (backoff p now d))

spaced_from :
    (gap : ℕ) (calls : List Call) (p : Pacer) → p.gap ≡ gap → AreSpaced gap (turns p calls)
unfolding turns
spaced_from gap [] p e = tt
spaced_from gap (waits now ∷ calls) p e = (
  All-from (turn_at p now + gap) (wait p now).next (turns (wait p now) calls)
      (omega (arith, wait_next p now, e)) (turns_from calls (wait p now)),
  spaced_from gap calls (wait p now) (same e),
)
  where
    same : p.gap ≡ gap → (wait p now).gap ≡ gap
    same e = unfold wait in e
spaced_from gap (backs_off now d ∷ calls) p e =
    spaced_from gap calls (backoff p now d) ((backoff_next p now d).2 ∙ e)

-- Whatever calls are made at whatever times, each turn that a new pacer gives is at least the gap after
-- every turn that it gave before; and after a backoff no turn is given before the time of the backoff
-- plus what the server asked for.
pub turns-AreSpaced :
    (gap : ℕ) (before after : List Call) (now d : ℕ)
    → AreSpaced gap (turns (new_pacer gap) (before ++ backs_off now d ∷ after))
      × ((p : Pacer) → All (λ later. now + d ≤ later) (turns p (backs_off now d ∷ after)))
unfolding turns
turns-AreSpaced gap before after now d = (
  spaced_from gap (before ++ backs_off now d ∷ after) (new_pacer gap) refl,
  λ p.
      All-from (now + d) (backoff p now d).next (turns (backoff p now d) after)
        ((backoff_next p now d).1) (turns_from after (backoff p now d)),
)
