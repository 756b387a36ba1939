-- ===== src/Router/Chats.antt =====
-- internal/router/router.go: the queue of a chat and the destination of its messages.
use workingman.Prelude.{
  ℕ, ◌+◌, Bool, true, false, ◌&&◌, not, ◌==◌, leb, if◌then◌else◌, Option, none, some, List, [], ◌∷◌,
  ◌++◌, Str, str_eq, is_empty, length, Assoc, get, put,
}
use workingman.Router.Permission.{Choice}
use workingman.Router.Commands.{Session}

-- channels.ConversationTarget
pub record ConversationTarget : Type 0 where
  pub is_wolf : Bool
  pub work_stream : Str
  pub session_key : Str
  pub session_id : Str

-- target
pub data Target : Type 0 where
  to_agent : Target
  to_wolf : Session → Target

-- The router's own messages to a chat, by what they say.
pub data Notice : Type 0 where
  help_text status_line on_agent unknown_command no_wolf several_wolves no_match ambiguous on_host :
      Notice
  now_on_wolf who_agent answer_again permission_allowed permission_rejected : Notice
  earlier_session unreachable session_over binding_over : Notice
  who_wolf : Str → Notice
  queue_full queued_at : ℕ → Notice

-- What the router does outside, with the key of the chat.
pub data Output : Type 0 where
  notify : Str → Notice → Output
  turn : Str → Target → Str → Output
  attach : Str → Session → Output
  decided : ℕ → Str → Output

-- item
pub record Item : Type 0 where
  pub reply_to : Str
  pub text : Str

-- chat; a pending permission request is known by a number.
pub record Chat : Type 0 where
  pub channel : Str
  pub wolf : Option Session
  pub queue : List Item
  pub busy : Bool
  pub pending : Option (ℕ × List Choice)

-- Router, with what it did, last first.
pub record Router : Type 0 where
  pub chats : Assoc Chat
  pub closed : Bool
  pub outputs : List Output

-- The answers of Source and Index, and the queue size of the configuration.
pub record Env : Type 0 where
  pub wolves : List Session
  pub lookup : Option (Str → Str → Option ConversationTarget)
  pub queue_size : ℕ

-- QueueSize after applyDefaults.
abbrev pub queue_bound : Env → ℕ
queue_bound env = if env.queue_size == 0 then 5 else env.queue_size

abbrev pub emit : Output → Router → Router
emit o r = record r { outputs = o ∷ r.outputs }

abbrev pub set_chat : Str → Chat → Router → Router
set_chat key c r = record r { chats = put r.chats key c }

-- enqueue
unfoldable pub enqueue : Env → Str → Chat → Item → Router → Router
unfolding put
enqueue env key c it r =
    if leb (queue_bound env) (length c.queue)
    then emit (notify key (queue_full (length c.queue + 1))) r
    else let queued = set_chat key (record c { queue = c.queue ++ it ∷ []; busy = true }) r in
      if c.busy then emit (notify key (queued_at (length c.queue + 1))) queued else queued

-- resolveReplyTarget
unfoldable pub resolve_reply_target : List Session → ConversationTarget → Option Session × Notice
unfolding str_eq
resolve_reply_target [] ct = (none, session_over)
resolve_reply_target (w ∷ ws) ct =
    if not (str_eq w.key ct.session_key)
    then resolve_reply_target ws ct
    else if not (is_empty ct.session_id) && not (str_eq w.id ct.session_id)
    then (none, earlier_session)
    else if is_empty w.ref
    then (none, unreachable)
    else (some w, session_over)

-- The search of boundWolf.
unfoldable pub live_wolf : List Session → Session → Option Session
unfolding str_eq
live_wolf [] b = none
live_wolf (w ∷ ws) b =
    if str_eq w.key b.key && str_eq w.id b.id && not (is_empty w.ref)
    then some w
    else live_wolf ws b

-- The conversation that a reply belongs to, where it is one with a wolf.
unfoldable pub reply_target : Env → Chat → Item → Option ConversationTarget
reply_target env c it = if is_empty it.reply_to then none else elim env.lookup [
  | none ↦ none
  | some lookup ↦ elim (lookup c.channel it.reply_to) [
    | none ↦ none
    | some ct ↦ if ct.is_wolf then some ct else none
  ]
]

-- process from rule 3 on, with boundWolf.
unfoldable pub process_bound : Env → Str → Chat → Item → Router → Router
unfolding live_wolf put
process_bound env key c it r = elim c.wolf [
  | none ↦ emit (turn key to_agent it.text) r
  | some b ↦ elim (live_wolf env.wolves b) [
    | some w ↦ emit (turn key (to_wolf w) it.text) r
    | none ↦ emit (notify key binding_over) (set_chat key (record c { wolf = none }) r)
  ]
]

-- process; the outcome of the turn is not part of it.
unfoldable pub process : Env → Str → Chat → Item → Router → Router
unfolding reply_target resolve_reply_target process_bound
process env key c it r = elim (reply_target env c it) [
  | none ↦ process_bound env key c it r
  | some ct ↦ elim (resolve_reply_target env.wolves ct).0 [
    | some w ↦ emit (turn key (to_wolf w) it.text) r
    | none ↦ emit (notify key (resolve_reply_target env.wolves ct).1) r
  ]
]

-- One round of work for the chat at a key.
unfoldable pub work_chat : Env → Str → Chat → Router → Router
unfolding process put
work_chat env key c r =
    if r.closed then set_chat key (record c { busy = false; queue = [] }) r else elim c.queue [
      | [] ↦ set_chat key (record c { busy = false; queue = [] }) r
      | it ∷ rest ↦
          process env key (record c { queue = rest }) it
            (set_chat key (record c { queue = rest }) r)
    ]

unfoldable pub work : Env → Str → Router → Router
unfolding get work_chat
work env key r = elim (get r.chats key) [ none ↦ r | some c ↦ work_chat env key c r ]
