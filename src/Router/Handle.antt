-- ===== src/Router/Handle.antt =====
-- Router.Handle: what one inbound message does (internal/router/router.go, commands.go, permission.go).
use workingman.Prelude.{
  ℕ, false, ◌||◌, ◌==◌, if◌then◌else◌, Option, none, some, List, [], ◌∷◌, ◌++◌, Str, codes, str_eq,
  is_empty, trim_space, Assoc, get, put,
}
use workingman.Router.Permission.{Choice, parse_decision, is_allow}
use workingman.Router.Commands.{Session, Command, parse_command, match_wolves}
use workingman.Router.Chats.{
  Env, Router, Chat, Notice, notify, attach, decided, help_text, status_line, on_agent,
  unknown_command, no_wolf, several_wolves, no_match, ambiguous, on_host, now_on_wolf, who_agent,
  who_wolf, answer_again, permission_allowed, permission_rejected, binding_over, emit, set_chat,
  live_wolf, enqueue,
}

-- cmdWho, with boundWolf
unfoldable pub cmd_who : Env → Str → Chat → Router → Router
unfolding live_wolf put
cmd_who env key c r = elim c.wolf [
  | none ↦ emit (notify key who_agent) r
  | some b ↦ elim (live_wolf env.wolves b) [
    | some _ ↦ emit (notify key (who_wolf b.work_stream)) r
    | none ↦ emit (notify key binding_over) (set_chat key (record c { wolf = none }) r)
  ]
]

-- The wolf that cmdWolf picks, or why there is none.
unfoldable pub pick_of : List Session → Option Session × Notice
pick_of [] = (none, no_match)
pick_of (w ∷ []) = (some w, no_match)
pick_of (w ∷ v ∷ ws) = (none, ambiguous)

unfoldable pub pick_wolf : List Session → Str → Option Session × Notice
unfolding pick_of match_wolves
pick_wolf [] arg = (none, no_wolf)
pick_wolf (w ∷ ws) arg =
    if is_empty arg
    then elim ws [ [] ↦ (some w, no_wolf) | v ∷ vs ↦ (none, several_wolves) ]
    else pick_of (match_wolves (w ∷ ws) arg)

-- cmdWolf
unfoldable pub cmd_wolf : Env → Str → Chat → Str → Router → Router
unfolding pick_wolf put
cmd_wolf env key c arg r = elim (pick_wolf env.wolves arg).0 [
  | none ↦ emit (notify key (pick_wolf env.wolves arg).1) r
  | some w ↦
      if is_empty w.ref
      then emit (notify key on_host) r
      else emit (attach key w)
          (emit (notify key now_on_wolf) (set_chat key (record c { wolf = some w }) r))
]

-- handleCommand
unfoldable pub handle_command : Env → Str → Chat → Command → Router → Router
unfolding str_eq cmd_who cmd_wolf put
handle_command env key c cmd r =
    if str_eq cmd.name (codes "help") || str_eq cmd.name (codes "start")
    then emit (notify key help_text) r
    else if str_eq cmd.name (codes "status")
    then emit (notify key status_line) r
    else if str_eq cmd.name (codes "agent")
    then emit (notify key on_agent) (set_chat key (record c { wolf = none }) r)
    else if str_eq cmd.name (codes "who")
    then cmd_who env key c r
    else if str_eq cmd.name (codes "wolf")
    then cmd_wolf env key c cmd.args r
    else emit (notify key unknown_command) r

-- The clearing of a request in resolve.
unfoldable pub clear_pending : ℕ → Assoc Chat → Assoc Chat
clear_pending p [] = []
clear_pending p ((key, c) ∷ m) =
    (
      key,
      elim c.pending [
        | none ↦ c
        | some (q, choices) ↦ if q == p then record c { pending = none } else c
      ],
    )
    ∷ clear_pending p m

-- answerPermission with a request pending, with resolve: no other answer was given before, since the
-- request would not be pending any more.
unfoldable pub answer_permission : Str → ℕ → List Choice → Str → Router → Router
unfolding parse_decision is_allow clear_pending
answer_permission key p choices text r = elim (parse_decision choices text) [
  | none ↦ emit (notify key answer_again) r
  | some id ↦
      emit (notify key (if is_allow choices id then permission_allowed else permission_rejected))
        (emit (decided p id) (record r { chats = clear_pending p r.chats }))
]

-- Handle from the command on, for a chat that is on record.
unfoldable pub handle_text : Env → Str → Chat → Str → Str → Router → Router
unfolding parse_command handle_command answer_permission enqueue
handle_text env key c reply_to text r = elim (parse_command text) [
  | some cmd ↦ handle_command env key c cmd r
  | none ↦ elim c.pending [
    | some (p, choices) ↦ answer_permission key p choices text r
    | none ↦ enqueue env key c (record { reply_to = reply_to; text = text }) r
  ]
]

abbrev pub new_chat : Str → Chat
new_chat channel = record {
  channel = channel;
  wolf = none;
  queue = [];
  busy = false;
  pending = none;
}

abbrev pub chat_key : Str → Str → Str
chat_key channel id = channel ++ 0 ∷ id

-- Handle, with chatFor. The router's context is live until Close.
unfoldable pub handle : Env → Str → Str → Str → Str → Router → Router
unfolding trim_space get put handle_text
handle env channel id reply_to message r =
    if is_empty (trim_space message) || is_empty id || r.closed
    then r
    else elim (get r.chats (chat_key channel id)) [
      | some c ↦ handle_text env (chat_key channel id) c reply_to (trim_space message) r
      | none ↦
          handle_text env (chat_key channel id) (new_chat channel) reply_to (trim_space message)
            (set_chat (chat_key channel id) (new_chat channel) r)
    ]
