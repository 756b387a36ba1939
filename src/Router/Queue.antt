-- ===== src/Router/Queue.antt =====
-- What commands and answers leave alone: the queue of every chat and its worker.
use workingman.Prelude.{
  ℕ, ◌≡◌, refl, sym, ◌∙◌, ap, Bool, true, false, ◌||◌, if◌then◌else◌, Option, none, some, List, [],
  ◌∷◌, Str, str_eq, str_eq→eq, is_empty, codes, inl, inr, Bool-cases, Assoc, get, get-put_same,
  get-put_other, if-cases, subst, ◌==◌,
}
use workingman.Router.Permission.{Choice, parse_decision, is_allow}
use workingman.Router.Commands.{Session, Command}
use workingman.Router.Chats.{
  who_wolf, who_agent, binding_over, on_host, now_on_wolf, attach, decided, answer_again,
  permission_allowed, permission_rejected, Env, Router, Chat, Item, notify, emit, set_chat,
  live_wolf,
}
use workingman.Router.Handle.{
  cmd_who, cmd_wolf, pick_wolf, handle_command, clear_pending, answer_permission,
}

-- What is seen of a chat: its queue, and whether a worker is on it.
abbrev pub View : Type 0
View = List Item × Bool

abbrev pub view_of : Option Chat → View
view_of none = ([], false)
view_of (some c) = (c.queue, c.busy)

abbrev pub view : Str → Router → View
view k r = view_of (get r.chats k)

pub view-set_chat :
    (k key : Str) (c : Chat) (r : Router)
    → view k (set_chat key c r) ≡ (if str_eq key k then (c.queue, c.busy) else view k r)
view-set_chat k key c r = elim (Bool-cases (str_eq key k)) [
  | inl e ↦ rw e (ap view_of (get-put_same r.chats key k c e))
  | inr e ↦ rw e (ap view_of (get-put_other r.chats key k c e))
]

pub pair_path : {q q' : List Item} {b b' : Bool} → q ≡ q' → b ≡ b' → ◌≡◌ {A = View} (q, b) (q', b')
pair_path e f = λ i. (e i, f i)

-- A router in which this chat looks the same.
pub data IsUnseen (k : Str) (r after : Router) : Type 0 where
  unseen : view k after ≡ view k r → IsUnseen k r after

IsUnseen-if :
    {k : Str} {r x y : Router} (b : Bool)
    → IsUnseen k r x
    → IsUnseen k r y
    → IsUnseen k r (if b then x else y)
IsUnseen-if true p q = p
IsUnseen-if false p q = q

pub seen : {k : Str} {r after : Router} → IsUnseen k r after → view k after ≡ view k r
seen (unseen e) = e

module _ (k key : Str) (c : Chat) (r : Router) (on_record : get r.chats key ≡ some c) where
  -- A write that keeps the queue and the worker is not seen.
  pub view-set_chat_same :
      (c' : Chat) → c'.queue ≡ c.queue → c'.busy ≡ c.busy → view k (set_chat key c' r) ≡ view k r
  view-set_chat_same c' q b =
      view-set_chat k key c' r
      ∙ if-cases (str_eq key k) (λ v. v ≡ view k r)
          (λ e.
            pair_path q b
            ∙ sym (ap view_of (subst (λ x. get r.chats x ≡ some c) (str_eq→eq key k e) on_record)))
          (λ e. refl)

  cmd_who-view : (env : Env) → view k (cmd_who env key c r) ≡ view k r
  unfolding cmd_who
  cmd_who-view env = by_binding c.wolf
    where
      by_live :
          (b : Session) (l : Option Session)
          → view k (elim l [
            | some _ ↦ emit (notify key (who_wolf b.work_stream)) r
            | none ↦ emit (notify key binding_over) (set_chat key (record c { wolf = none }) r)
          ])
            ≡ view k r
      by_live b (some w) = refl
      by_live b none = view-set_chat_same (record c { wolf = none }) refl refl

      by_binding :
          (o : Option Session)
          → view k (elim o [
            | none ↦ emit (notify key who_agent) r
            | some b ↦ elim (live_wolf env.wolves b) [
              | some _ ↦ emit (notify key (who_wolf b.work_stream)) r
              | none ↦ emit (notify key binding_over) (set_chat key (record c { wolf = none }) r)
            ]
          ])
            ≡ view k r
      by_binding none = refl
      by_binding (some b) = by_live b (live_wolf env.wolves b)

  cmd_wolf-view : (env : Env) (arg : Str) → view k (cmd_wolf env key c arg r) ≡ view k r
  unfolding cmd_wolf
  cmd_wolf-view env arg = by_pick (pick_wolf env.wolves arg).0
    where
      by_pick :
          (o : Option Session)
          → view k (elim o [
            | none ↦ emit (notify key (pick_wolf env.wolves arg).1) r
            | some w ↦
                if is_empty w.ref
                then emit (notify key on_host) r
                else emit
                    (attach key w)
                    (emit (notify key now_on_wolf) (set_chat key (record c { wolf = some w }) r))
          ])
            ≡ view k r
      by_pick none = refl
      by_pick (some w) =
          if-cases (is_empty w.ref) (λ after. view k after ≡ view k r) (λ e. refl)
            (λ e. view-set_chat_same (record c { wolf = some w }) refl refl)

  pub handle_command-view :
      (env : Env) (cmd : Command) → IsUnseen k r (handle_command env key c cmd r)
  unfolding handle_command
  handle_command-view env cmd =
      IsUnseen-if (str_eq cmd.name (codes "help") || str_eq cmd.name (codes "start")) (unseen refl)
        (IsUnseen-if (str_eq cmd.name (codes "status")) (unseen refl) (
          IsUnseen-if (str_eq cmd.name (codes "agent"))
            (unseen (view-set_chat_same (record c { wolf = none }) refl refl))
            (IsUnseen-if (str_eq cmd.name (codes "who")) (unseen (cmd_who-view env)) (
              IsUnseen-if (str_eq cmd.name (codes "wolf")) (unseen (cmd_wolf-view env cmd.args))
                (unseen refl)))))

-- The clearing of a request is not seen.
view_of-clear_pending :
    (p : ℕ) (m : Assoc Chat) (k : Str) → view_of (get (clear_pending p m) k) ≡ view_of (get m k)
unfolding get clear_pending
view_of-clear_pending p [] k = refl
view_of-clear_pending p ((key, c) ∷ m) k = elim (Bool-cases (str_eq key k)) [
  | inr e ↦ rw e (view_of-clear_pending p m k)
  | inl e ↦ rw e (by_request c.pending)
]
  where
    by_request :
        (o : Option (ℕ × List Choice))
        → view_of (
            some (elim o [
              | none ↦ c
              | some (q, choices) ↦ if q == p then record c { pending = none } else c
            ]))
          ≡ (c.queue, c.busy)
    by_request none = refl
    by_request (some (q, choices)) =
        if-cases (q == p) (λ (d : Chat). view_of (some d) ≡ (c.queue, c.busy)) (λ e. refl)
          (λ e. refl)

pub answer_permission-view :
    (k key : Str) (p : ℕ) (choices : List Choice) (text : Str) (r : Router)
    → view k (answer_permission key p choices text r) ≡ view k r
unfolding answer_permission
answer_permission-view k key p choices text r = by_answer (parse_decision choices text)
  where
    by_answer :
        (o : Option Str)
        → view k (elim o [
          | none ↦ emit (notify key answer_again) r
          | some id ↦
              emit
                (notify key
                  (if is_allow choices id then permission_allowed else permission_rejected))
                (emit (decided p id) (record r { chats = clear_pending p r.chats }))
        ])
          ≡ view k r
    by_answer none = refl
    by_answer (some id) = view_of-clear_pending p r.chats k
