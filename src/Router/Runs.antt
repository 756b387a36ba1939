-- ===== src/Router/Runs.antt =====
-- Runs of the router: inbound messages, rounds of the workers and the end, in any order.
use workingman.Prelude.{
  ℕ, ◌≤◌, ◌≡◌, refl, sym, subst, Bool, true, false, ◌&&◌, ◌||◌, not, leb, if◌then◌else◌, arith,
  is_some, List, [], ◌∷◌, ◌++◌, Str, get, str_eq, is_empty, trim_space, length, length-append,
  if-cases, false≢true, true≢false, ◌==◌,
}
use workingman.Router.Commands.{parse_command}
use workingman.Router.Chats.{Env, Router, Item, work}
use workingman.Router.Handle.{handle, chat_key}
use workingman.Router.Queue.{View, view}
use workingman.Router.Fifo.{handle-view, is_accepted, is_pending}
use workingman.Router.Work.{worked, work-view}

-- A router without chats (New).
abbrev pub empty_router : Router
empty_router = record { chats = []; closed = false; outputs = [] }

-- A message with its channel, chat, the message that it replies to and its text; a round of the worker
-- of a chat; Close. The sessions and the index may differ in each event.
pub data Event : Type 0 where
  message : Env → Str → Str → Str → Str → Event
  round : Env → Str → Event
  closes : Event

abbrev sized : ℕ → Env → Env
sized size env = record env { queue_size = size }

unfoldable pub step : ℕ → Event → Router → Router
unfolding handle work
step size (message env channel id reply_to text) r =
    handle (sized size env) channel id reply_to text r
step size (round env key) r = work (sized size env) key r
step size closes r = record r { closed = true }

unfoldable pub run : ℕ → Router → List Event → Router
unfolding step
run size r [] = r
run size r (e ∷ es) = run size (step size e r) es

-- The bound on a queue for a configured size.
abbrev pub bound_of : ℕ → ℕ
bound_of size = if size == 0 then 5 else size

-- The queue is within the bound, and where no worker is on it, it is empty.
abbrev pub IsOrderly : ℕ → View → Type 0
IsOrderly bound v = (length v.0 ≤ bound) × (v.1 ≡ false → v.0 ≡ [])

appended :
    (bound : ℕ) (q : List Item) (it : Item)
    → leb bound (length q) ≡ false
    → IsOrderly bound (q ++ it ∷ [], true)
appended bound q it room =
    (ground (arith, length-append q (it ∷ []), room), λ b. absurd (true≢false b))

-- The last test of an accepted message.
has_room : (a b c d e : Bool) → (a && (b && (c && (d && not e)))) ≡ true → e ≡ false
has_room true true true true false h = refl
has_room true true true true true h = sym h
has_room true true true false e h = absurd (false≢true h)
has_room true true false d e h = absurd (false≢true h)
has_room true false c d e h = absurd (false≢true h)
has_room false b c d e h = absurd (false≢true h)

worked-IsOrderly :
    (bound : ℕ) (closed : Bool) (v : View) → IsOrderly bound v → IsOrderly bound (worked closed v)
worked-IsOrderly bound true v h = (omega arith, λ b. refl)
worked-IsOrderly bound false ([], busy) h = (omega arith, λ b. refl)
worked-IsOrderly bound false (it ∷ rest, busy) h =
    (omega (arith, h.0), λ b. absurd (cons_ne (h.1 b)))
  where
    cons_ne : it ∷ rest ≡ [] → ⊥
    cons_ne e = cc

step-IsOrderly :
    (size : ℕ) (e : Event) (r : Router) (k : Str)
    → IsOrderly (bound_of size) (view k r)
    → IsOrderly (bound_of size) (view k (step size e r))
unfolding step
step-IsOrderly size (message env channel id reply_to text) r k h =
    subst (IsOrderly (bound_of size))
      (sym (handle-view (sized size env) channel id reply_to text r k))
      (if-cases (is_accepted (sized size env) k r channel id text) (IsOrderly (bound_of size))
        (λ ok. appended (bound_of size) _ _ (
          has_room (str_eq (chat_key channel id) k)
            (not (is_empty (trim_space text) || is_empty id || r.closed))
            (not (is_some (parse_command (trim_space text)))) (not (is_pending (get r.chats k)))
            (leb (bound_of size) (length (view k r).0)) ok))
        (λ _. h))
step-IsOrderly size (round env key) r k h =
    subst (IsOrderly (bound_of size)) (sym (work-view (sized size env) key r k)) (
      if-cases (str_eq key k && is_some (get r.chats key)) (IsOrderly (bound_of size))
        (λ _. worked-IsOrderly (bound_of size) r.closed (view k r) h) (λ _. h))
step-IsOrderly size closes r k h = h

runs :
    (size : ℕ) (es : List Event) (r : Router) (k : Str)
    → IsOrderly (bound_of size) (view k r)
    → IsOrderly (bound_of size) (view k (run size r es))
unfolding run
runs size [] r k h = h
runs size (e ∷ es) r k h = runs size es (step size e r) k (step-IsOrderly size e r k h)

-- After any messages, rounds of the workers and closing of a new router, the queue of every chat holds
-- at most as many messages as the configured size, or five where that is zero, and a chat without a
-- worker has an empty queue, so no message waits that nobody will take.
pub run-IsOrderly :
    (size : ℕ) (es : List Event) (k : Str)
    → IsOrderly (bound_of size) (view k (run size empty_router es))
unfolding get
run-IsOrderly size es k = runs size es empty_router k (omega arith, λ b. refl)
