-- ===== src/Router/Work.antt =====
-- A round of a chat's worker takes the first message of its queue.
use workingman.Prelude.{
  ◌≡◌, refl, ◌∙◌, Bool, true, false, ◌&&◌, if◌then◌else◌, Option, none, some, is_some, List, [],
  ◌∷◌, Str, str_eq, str_eq→eq, inl, inr, Bool-cases, get, get-put_same, str_eq_refl, subst,
}
use workingman.Router.Commands.{Session}
use workingman.Router.Chats.{
  Notice, turn, to_agent, to_wolf, binding_over, Env, Router, Chat, Item, notify, emit, set_chat,
  live_wolf, process_bound, process, work_chat, work, reply_target, resolve_reply_target,
  ConversationTarget,
}
use workingman.Router.Queue.{View, view, view-set_chat, view-set_chat_same}
use workingman.Router.Fifo.{if_and_false}

-- The chat after a round of its worker: the first message is taken, and where there is none the worker
-- stops; a closed router drops the queue.
abbrev pub worked : Bool → View → View
worked true v = ([], false)
worked false ([], busy) = ([], false)
worked false (it ∷ rest, busy) = (rest, busy)

process_bound-view :
    (env : Env) (k key : Str) (c : Chat) (it : Item) (r : Router)
    → get r.chats key ≡ some c
    → view k (process_bound env key c it r) ≡ view k r
unfolding process_bound
process_bound-view env k key c it r e = by_binding c.wolf
  where
    by_live :
        (l : Option Session)
        → view k (elim l [
          | some w ↦ emit (turn key (to_wolf w) it.text) r
          | none ↦ emit (notify key binding_over) (set_chat key (record c { wolf = none }) r)
        ])
          ≡ view k r
    by_live (some w) = refl
    by_live none = view-set_chat_same k key c r e (record c { wolf = none }) refl refl

    by_binding :
        (b : Option Session)
        → view k (elim b [
          | none ↦ emit (turn key to_agent it.text) r
          | some b ↦ elim (live_wolf env.wolves b) [
            | some w ↦ emit (turn key (to_wolf w) it.text) r
            | none ↦ emit (notify key binding_over) (set_chat key (record c { wolf = none }) r)
          ]
        ])
          ≡ view k r
    by_binding none = refl
    by_binding (some b) = by_live (live_wolf env.wolves b)

process-view :
    (env : Env) (k key : Str) (c : Chat) (it : Item) (r : Router)
    → get r.chats key ≡ some c
    → view k (process env key c it r) ≡ view k r
unfolding process
process-view env k key c it r e = by_reply (reply_target env c it)
  where
    by_session :
        (n : Notice) (l : Option Session)
        → view k (elim l [
          | some w ↦ emit (turn key (to_wolf w) it.text) r
          | none ↦ emit (notify key n) r
        ])
          ≡ view k r
    by_session n (some w) = refl
    by_session n none = refl

    by_reply :
        (t : Option ConversationTarget)
        → view k (elim t [
          | none ↦ process_bound env key c it r
          | some ct ↦ elim (resolve_reply_target env.wolves ct).0 [
            | some w ↦ emit (turn key (to_wolf w) it.text) r
            | none ↦ emit (notify key (resolve_reply_target env.wolves ct).1) r
          ]
        ])
          ≡ view k r
    by_reply none = process_bound-view env k key c it r e
    by_reply (some ct) =
        by_session (resolve_reply_target env.wolves ct).1 (resolve_reply_target env.wolves ct).0

-- A round of a chat's worker takes the first message of its queue and leaves the rest in their order, or
-- stops the worker where the queue is empty, and drops the queue where the router is closed; no other
-- chat's queue changes.
pub work-view :
    (env : Env) (key : Str) (r : Router) (k : Str)
    → view k (work env key r)
      ≡ (if str_eq key k && is_some (get r.chats key) then worked r.closed (view k r) else view k r)
unfolding work work_chat
work-view env key r k = by_chat (get r.chats key) refl
  where
    at_chat :
        (c : Chat)
        → get r.chats key ≡ some c
        → (closed : Bool) (q : List Item) → c.queue ≡ q
        → view k (
            if closed then set_chat key (record c { busy = false; queue = [] }) r else elim q [
              | [] ↦ set_chat key (record c { busy = false; queue = [] }) r
              | it ∷ rest ↦
                  process env key
                    (record c { queue = rest })
                    it
                    (set_chat key (record c { queue = rest }) r)
            ])
          ≡ (if str_eq key k then worked closed (q, c.busy) else view k r)
    at_chat c e true q same = view-set_chat k key _ r
    at_chat c e false [] same = view-set_chat k key _ r
    at_chat c e false (it ∷ rest) same =
        process-view env k key (record c { queue = rest }) it
          (set_chat key (record c { queue = rest }) r)
          (get-put_same r.chats key key _ (str_eq_refl key))
        ∙ view-set_chat k key _ r

    by_chat :
        (o : Option Chat)
        → get r.chats key ≡ o
        → view k (elim o [ none ↦ r | some c ↦ work_chat env key c r ])
          ≡ (if str_eq key k && is_some o then worked r.closed (view k r) else view k r)
    by_chat none e = if_and_false _ _ (str_eq key k)
    by_chat (some c) e = at_chat c e r.closed c.queue refl ∙ elim (Bool-cases (str_eq key k)) [
      | inl same ↦ rw (same, subst (λ x. get r.chats x ≡ some c) (str_eq→eq key k same) e) refl
      | inr other ↦ rw other refl
    ]
