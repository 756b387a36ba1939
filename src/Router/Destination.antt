-- ===== src/Router/Destination.antt =====
-- A queued message reaches the agent that it was meant for, or nobody.
use workingman.Prelude.{
  ◌≡◌, inl, inr, refl, sym, ◌∙◌, Bool, true, false, ◌&&◌, not, Option, none, some, List, [], ◌∷◌,
  Str, str_eq, str_eq→eq, is_empty, Bool-cases, none-ne-some, some_inj, subst, eq→str_eq,
  true≢false,
}
use mathlib.Core.List.{Memᴰ}
use workingman.Router.Commands.{Session}
use workingman.Router.Chats.{
  Env, Router, Chat, Item, Output, notify, turn, to_agent, to_wolf, Notice, binding_over,
  session_over, earlier_session, unreachable, ConversationTarget, resolve_reply_target, live_wolf,
  reply_target, process_bound, process, emit, set_chat,
}
use workingman.Router.Reply.{
  RepliesTo, RepliesToNone, IsFirst, IsOver, IsCurrent, Resolves, reached, stale, hosted, over,
  resolve_reply_target-Resolves, reply_target-RepliesTo, reply_target-none,
}

-- What becomes of a message of a chat.
pub data IsMeant (env : Env) (key : Str) (c : Chat) (it : Item) : Output → Type 0 where
  reply_reaches :
      (ct : ConversationTarget) (w : Session)
      → RepliesTo env c it ct
      → IsFirst ct.session_key w env.wolves
      → IsCurrent ct w
      → is_empty w.ref ≡ false
      → IsMeant env key c it (turn key (to_wolf w) it.text)
  reply_stale :
      (ct : ConversationTarget) (w : Session)
      → RepliesTo env c it ct
      → IsFirst ct.session_key w env.wolves
      → ¬ IsCurrent ct w
      → IsMeant env key c it (notify key earlier_session)
  reply_to_host :
      (ct : ConversationTarget) (w : Session)
      → RepliesTo env c it ct
      → IsFirst ct.session_key w env.wolves
      → IsCurrent ct w
      → is_empty w.ref ≡ true
      → IsMeant env key c it (notify key unreachable)
  reply_over :
      (ct : ConversationTarget)
      → RepliesTo env c it ct
      → IsOver ct.session_key env.wolves
      → IsMeant env key c it (notify key session_over)
  wolf_reached :
      (b w : Session)
      → RepliesToNone env c it
      → c.wolf ≡ some b
      → Memᴰ w env.wolves
      → w.key ≡ b.key
      → w.id ≡ b.id
      → is_empty w.ref ≡ false
      → IsMeant env key c it (turn key (to_wolf w) it.text)
  wolf_lost :
      (b : Session)
      → RepliesToNone env c it
      → c.wolf ≡ some b
      → ((w : Session) → Memᴰ w env.wolves → w.key ≡ b.key → w.id ≡ b.id → is_empty w.ref ≡ true)
      → IsMeant env key c it (notify key binding_over)
  agent_reached :
      RepliesToNone env c it → c.wolf ≡ none → IsMeant env key c it (turn key to_agent it.text)

abbrev BoundWolf : List Session → Session → Session → Type 0
BoundWolf ws b w = Memᴰ w ws × (w.key ≡ b.key) × (w.id ≡ b.id) × (is_empty w.ref ≡ false)

three : (a b c : Bool) → (a && b && not c) ≡ true → (a ≡ true) × (b ≡ true) × (c ≡ false)
three true true false h = (refl, refl, refl)
three true true true h = cc
three true false c h = cc
three false b c h = cc

live_found : (ws : List Session) (b w : Session) → live_wolf ws b ≡ some w → BoundWolf ws b w
unfolding live_wolf
live_found [] b w h = absurd (none-ne-some h)
live_found (v ∷ ws) b w h =
    elim (Bool-cases (str_eq v.key b.key && str_eq v.id b.id && not (is_empty v.ref))) [
      | inl hit ↦
          let (k, i, ref) = three (str_eq v.key b.key) (str_eq v.id b.id) (is_empty v.ref) hit in
          subst (BoundWolf (v ∷ ws) b) (some_inj (rw hit at h))
            (Memᴰ.head refl, str_eq→eq v.key b.key k, str_eq→eq v.id b.id i, ref)
      | inr miss ↦ let (m, k, i, ref) = live_found ws b w (rw miss at h) in (Memᴰ.tail m, k, i, ref)
    ]

-- A bound wolf that is not found is not there, or runs on the host.
live_missed :
    (ws : List Session) (b : Session)
    → live_wolf ws b ≡ none
    → (w : Session) → Memᴰ w ws
    → w.key ≡ b.key
    → w.id ≡ b.id
    → is_empty w.ref ≡ true
unfolding live_wolf
live_missed [] b h w m k i = elim m [ ]
live_missed (v ∷ ws) b h w m k i =
    elim (Bool-cases (str_eq v.key b.key && str_eq v.id b.id && not (is_empty v.ref))) [
      | inl hit ↦ absurd (none-ne-some (sym (rw hit at h)))
      | inr miss ↦ by_place miss (λ n. live_missed ws b (rw miss at h) w n k i) m
    ]
  where
    by_place :
        (str_eq v.key b.key && str_eq v.id b.id && not (is_empty v.ref)) ≡ false
        → (Memᴰ w ws → is_empty w.ref ≡ true)
        → Memᴰ w (v ∷ ws)
        → is_empty w.ref ≡ true
    by_place miss further (Memᴰ.tail m) = further m
    by_place miss further (Memᴰ.head e) = on_host_here (is_empty w.ref) (
        subst
          (λ (x : Session).
            (str_eq x.key b.key && str_eq x.id b.id && not (is_empty x.ref)) ≡ false)
          (sym e) miss)
      where
        on_host_here :
            (a : Bool) → (str_eq w.key b.key && str_eq w.id b.id && not a) ≡ false → a ≡ true
        on_host_here true miss = refl
        on_host_here false miss = absurd (
            true≢false (
              sym (both (str_eq w.key b.key) (str_eq w.id b.id) (eq→str_eq _ _ k) (eq→str_eq _ _ i))
              ∙ miss))
          where
            both : (x y : Bool) → x ≡ true → y ≡ true → (x && y && not false) ≡ true
            both true true p q = refl
            both true false p q = q
            both false y p q = cc

-- The router did one thing outside, and it is meant.
abbrev pub DoesOne : Env → Str → Chat → Item → Router → Router → Type 0
DoesOne env key c it r after =
    (o : Output) × (after.outputs ≡ o ∷ r.outputs) × IsMeant env key c it o

process_bound-DoesOne :
    (env : Env) (key : Str) (c : Chat) (it : Item) (r : Router)
    → RepliesToNone env c it
    → DoesOne env key c it r (process_bound env key c it r)
unfolding process_bound
process_bound-DoesOne env key c it r e = by_binding c.wolf refl
  where
    by_live :
        (b : Session)
        → c.wolf ≡ some b
        → (l : Option Session) → live_wolf env.wolves b ≡ l
        → DoesOne env key c it r (elim l [
          | some w ↦ emit (turn key (to_wolf w) it.text) r
          | none ↦ emit (notify key binding_over) (set_chat key (record c { wolf = none }) r)
        ])
    by_live b bound (some w) l =
        let (m, k, i, ref) = live_found env.wolves b w l in
        (turn key (to_wolf w) it.text, refl, wolf_reached b w e bound m k i ref)
    by_live b bound none l =
        (notify key binding_over, refl, wolf_lost b e bound (live_missed env.wolves b l))

    by_binding :
        (b : Option Session)
        → c.wolf ≡ b
        → DoesOne env key c it r (elim b [
          | none ↦ emit (turn key to_agent it.text) r
          | some b ↦ elim (live_wolf env.wolves b) [
            | some w ↦ emit (turn key (to_wolf w) it.text) r
            | none ↦ emit (notify key binding_over) (set_chat key (record c { wolf = none }) r)
          ]
        ])
    by_binding none bound = (turn key to_agent it.text, refl, agent_reached e bound)
    by_binding (some b) bound = by_live b bound (live_wolf env.wolves b) refl

-- Processing a message does exactly one thing outside. Where the message replies to a notification of a
-- wolf, the first live session under the key of that notification gets it, if the session has the
-- noted id (or none was noted) and does not run on the host; if its id is another one, the chat is told
-- that this was an earlier session, if it runs on the host, that it is unreachable, and if no live
-- session has the key, that the session is over. Where it is no such reply and the chat is bound to a
-- wolf, it is sent to a live session with the bound key and id that does not run on the host, or the
-- chat is told that the binding is over if there is none. It is sent to the workingman agent only where
-- it is no such reply and the chat is bound to no wolf.
pub process-DoesOne :
    (env : Env) (key : Str) (c : Chat) (it : Item) (r : Router)
    → DoesOne env key c it r (process env key c it r)
unfolding process
process-DoesOne env key c it r = by_reply (reply_target env c it) refl
  where
    by_session :
        (ct : ConversationTarget)
        → RepliesTo env c it ct
        → (l : Option Session × Notice) → Resolves ct env.wolves l
        → DoesOne env key c it r (elim l.0 [
          | some w ↦ emit (turn key (to_wolf w) it.text) r
          | none ↦ emit (notify key l.1) r
        ])
    by_session ct replies _ (reached w first current ref) =
        (turn key (to_wolf w) it.text, refl, reply_reaches ct w replies first current ref)
    by_session ct replies _ (stale w first old) =
        (notify key earlier_session, refl, reply_stale ct w replies first old)
    by_session ct replies _ (hosted w first current ref) =
        (notify key unreachable, refl, reply_to_host ct w replies first current ref)
    by_session ct replies _ (over gone) =
        (notify key session_over, refl, reply_over ct replies gone)

    by_reply :
        (t : Option ConversationTarget)
        → reply_target env c it ≡ t
        → DoesOne env key c it r (elim t [
          | none ↦ process_bound env key c it r
          | some ct ↦ elim (resolve_reply_target env.wolves ct).0 [
            | some w ↦ emit (turn key (to_wolf w) it.text) r
            | none ↦ emit (notify key (resolve_reply_target env.wolves ct).1) r
          ]
        ])
    by_reply none e = process_bound-DoesOne env key c it r (reply_target-none env c it e)
    by_reply (some ct) e =
        by_session ct (reply_target-RepliesTo env c it ct e) _
          (resolve_reply_target-Resolves env.wolves ct)
