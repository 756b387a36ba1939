-- ===== src/Router/Fifo.antt =====
-- The queue of a chat is a bounded first-in-first-out queue, and its worker stops only when it is empty.
use workingman.Prelude.{
  ℕ, ◌+◌, ◌≡◌, refl, ◌∙◌, ap, Bool, true, false, ◌&&◌, ◌||◌, not, leb, if◌then◌else◌, Option, none,
  some, is_some, List, [], ◌∷◌, ◌++◌, Str, str_eq, str_eq→eq, is_empty, trim_space, length, inl,
  inr, Bool-cases, get, get-put_same, str_eq_refl, subst,
}
use workingman.Router.Permission.{Choice}
use workingman.Router.Commands.{Command, parse_command}
use workingman.Router.Chats.{
  queued_at, queue_full, Env, Router, Chat, Item, notify, queue_bound, emit, set_chat, enqueue,
}
use workingman.Router.Handle.{
  handle_command, answer_permission, handle_text, handle, new_chat, chat_key,
}
use workingman.Router.Queue.{
  View, view_of, view, view-set_chat, seen, handle_command-view, answer_permission-view,
}

abbrev pub is_pending : Option Chat → Bool
is_pending none = false
is_pending (some c) = is_some c.pending

if_and_true : (x y : View) (b : Bool) → (if b then x else y) ≡ (if b && true then x else y)
if_and_true x y true = refl
if_and_true x y false = refl

pub if_and_false : (x y : View) (b : Bool) → y ≡ (if b && false then x else y)
if_and_false x y true = refl
if_and_false x y false = refl

-- Whether a message is put on the queue of the chat at `k`: it is for this chat, it says something, the
-- router is open, it is no command, no request for permission is pending, and there is room.
abbrev pub is_accepted : Env → Str → Router → Str → Str → Str → Bool
is_accepted env k r channel id message =
    str_eq (chat_key channel id) k
    && (not (is_empty (trim_space message) || is_empty id || r.closed)
        && (not (is_some (parse_command (trim_space message)))
            && (not (is_pending (get r.chats k))
                && not (leb (queue_bound env) (length (view k r).0)))))

-- Whether a text for this chat is queued.
abbrev is_queued : Env → Chat → Str → Bool
is_queued env c text =
    not (is_some (parse_command text))
    && (not (is_some c.pending) && not (leb (queue_bound env) (length c.queue)))

module _ (env : Env) (k key : Str) (c : Chat) (r : Router)
    (on_record : get r.chats key ≡ some c) where
  view_here : str_eq key k ≡ true → view k r ≡ (c.queue, c.busy)
  view_here e = ap view_of (subst (λ x. get r.chats x ≡ some c) (str_eq→eq key k e) on_record)

  enqueue-view :
      (it : Item)
      → view k (enqueue env key c it r) ≡ (
          if str_eq key k && not (leb (queue_bound env) (length c.queue))
          then (c.queue ++ it ∷ [], true)
          else view k r)
  unfolding enqueue
  enqueue-view it = by_tests (leb (queue_bound env) (length c.queue)) c.busy
    where
      queued : Router
      queued = set_chat key (record c { queue = c.queue ++ it ∷ []; busy = true }) r

      by_tests :
          (full busy : Bool)
          → view k (
              if full
              then emit (notify key (queue_full (length c.queue + 1))) r
              else if busy
              then emit (notify key (queued_at (length c.queue + 1))) queued
              else queued)
            ≡ (if str_eq key k && not full then (c.queue ++ it ∷ [], true) else view k r)
      by_tests true busy = if_and_false _ _ (str_eq key k)
      by_tests false true = view-set_chat k key _ r ∙ if_and_true _ _ (str_eq key k)
      by_tests false false = view-set_chat k key _ r ∙ if_and_true _ _ (str_eq key k)

  handle_text-view :
      (reply_to text : Str)
      → view k (handle_text env key c reply_to text r) ≡ (
          if str_eq key k && is_queued env c text
          then (c.queue ++ record { reply_to = reply_to; text = text } ∷ [], true)
          else view k r)
  unfolding handle_text
  handle_text-view reply_to text = by_command (parse_command text)
    where
      it : Item
      it = record { reply_to = reply_to; text = text }

      by_pending :
          (o : Option (ℕ × List Choice))
          → view k (elim o [
            | some (p, choices) ↦ answer_permission key p choices text r
            | none ↦ enqueue env key c it r
          ])
            ≡ (if str_eq key k && (not (is_some o) && not (leb (queue_bound env) (length c.queue)))
                then (c.queue ++ it ∷ [], true)
                else view k r)
      by_pending none = enqueue-view it
      by_pending (some (p, choices)) =
          answer_permission-view k key p choices text r ∙ if_and_false _ _ (str_eq key k)

      by_command :
          (o : Option Command)
          → view k (elim o [
            | some cmd ↦ handle_command env key c cmd r
            | none ↦ elim c.pending [
              | some (p, choices) ↦ answer_permission key p choices text r
              | none ↦ enqueue env key c it r
            ]
          ])
            ≡ (if str_eq key k
                  && (not (is_some o)
                      && (not (is_some c.pending) && not (leb (queue_bound env) (length c.queue))))
                then (c.queue ++ it ∷ [], true)
                else view k r)
      by_command none = by_pending c.pending
      by_command (some cmd) =
          seen (handle_command-view k key c r on_record env cmd) ∙ if_and_false _ _ (str_eq key k)

-- A message changes at most the queue of its own chat: where the message is accepted, it is appended to
-- the queue of its chat and a worker is on it, and every other queue is as it was; where it is not, no
-- queue changes.
pub handle-view :
    (env : Env) (channel id reply_to message : Str) (r : Router) (k : Str)
    → view k (handle env channel id reply_to message r) ≡ (
        if is_accepted env k r channel id message
        then ((view k r).0 ++ record { reply_to = reply_to; text = trim_space message } ∷ [], true)
        else view k r)
unfolding handle
handle-view env channel id reply_to message r k =
    by_blank (is_empty (trim_space message) || is_empty id || r.closed)
  where
    key : Str
    key = chat_key channel id

    text : Str
    text = trim_space message

    it : Item
    it = record { reply_to = reply_to; text = text }

    on_chat : Bool → Bool
    on_chat blank =
        not blank
        && (not (is_some (parse_command text))
            && (not (is_pending (get r.chats k))
                && not (leb (queue_bound env) (length (view k r).0))))

    here : {o : Option Chat} → get r.chats key ≡ o → str_eq key k ≡ true → get r.chats k ≡ o
    here {o} e same = subst (λ x. get r.chats x ≡ o) (str_eq→eq key k same) e

    new : Router
    new = set_chat key (new_chat channel) r

    known : get new.chats key ≡ some (new_chat channel)
    known = get-put_same r.chats key key (new_chat channel) (str_eq_refl key)

    by_chat :
        (o : Option Chat)
        → get r.chats key ≡ o
        → view k (elim o [
          | some c ↦ handle_text env key c reply_to text r
          | none ↦ handle_text env key (new_chat channel) reply_to text new
        ])
          ≡ (if str_eq key k && on_chat false then ((view k r).0 ++ it ∷ [], true) else view k r)
    by_chat (some c) e =
        handle_text-view env k key c r e reply_to text ∙ elim (Bool-cases (str_eq key k)) [
          | inl same ↦ rw (same, here e same) refl
          | inr other ↦ rw other refl
        ]
    by_chat none e =
        handle_text-view env k key (new_chat channel) new known reply_to text
        ∙ elim (Bool-cases (str_eq key k)) [
          | inl same ↦
              rw (same, here e same, get-put_same r.chats key k (new_chat channel) same) refl
          | inr other ↦ rw other (view-set_chat k key (new_chat channel) r ∙ rw other refl)
        ]

    by_blank :
        (blank : Bool)
        → view k (
            if blank then r else elim (get r.chats key) [
              | some c ↦ handle_text env key c reply_to text r
              | none ↦ handle_text env key (new_chat channel) reply_to text new
            ])
          ≡ (if str_eq key k && on_chat blank then ((view k r).0 ++ it ∷ [], true) else view k r)
    by_blank true = if_and_false _ _ (str_eq key k)
    by_blank false = by_chat (get r.chats key) refl
