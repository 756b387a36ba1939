-- ===== src/Router/Samples.antt =====
-- Tests and instances for the router.
use workingman.Prelude.{
  ◌≡◌, refl, true, ◌&&◌, none, some, is_some, if◌then◌else◌, List, [], ◌∷◌, ◌++◌, Str, codes,
  str_eq, trim_space, get, put,
}
use workingman.Router.Commands.{Session, parse_command}
use workingman.Router.Chats.{
  Env, Router, Chat, Item, Output, notify, turn, to_wolf, queued_at, process, work,
  ConversationTarget,
}
use workingman.Router.Handle.{handle, chat_key, new_chat}
use workingman.Router.Queue.{view}
use workingman.Router.Fifo.{handle-view, is_accepted}
use workingman.Router.Work.{worked, work-view}
use workingman.Router.Runs.{
  Event, message, round, run, empty_router, bound_of, IsOrderly, run-IsOrderly,
}
use workingman.Router.Destination.{DoesOne, process-DoesOne}

abbrev auth_wolf : Session
auth_wolf = record {
  key = codes "p#wolf";
  id = codes "w2";
  ref = codes "dir";
  work_stream = codes "auth";
}

-- One wolf runs, and message m7 was a notification of it.
abbrev sample_env : Env
sample_env = record {
  wolves = auth_wolf ∷ [];
  lookup = some (λ channel id.
      if str_eq id (codes "m7")
      then some (record {
        is_wolf = true;
        work_stream = codes "auth";
        session_key = codes "p#wolf";
        session_id = codes "w2";
      })
      else none);
  queue_size = 1;
}

abbrev sample_key : Str
sample_key = chat_key (codes "signal") (codes "me")

abbrev says : Str → Event
says text = message sample_env (codes "signal") (codes "me") [] text

abbrev sample_run : List Event
sample_run =
    says (codes "hello")
    ∷ says (codes "/wolf auth")
    ∷ round sample_env sample_key
    ∷ says (codes "again")
    ∷ []

run-IsOrderly_example : IsOrderly (bound_of 1) (view sample_key (run 1 empty_router sample_run))
run-IsOrderly_example = run-IsOrderly 1 sample_run sample_key

-- The command overtook the first message, which therefore went to the wolf.
sample_run-outputs :
    (run 1 empty_router sample_run).outputs
    ≡ notify sample_key (queued_at 1)
      ∷ turn sample_key (to_wolf auth_wolf) (codes "hello")
      ∷ workingman.Router.Chats.attach sample_key auth_wolf
      ∷ notify sample_key workingman.Router.Chats.now_on_wolf
      ∷ []
unfolding run handle work get put str_eq
sample_run-outputs = refl

reply : Item
reply = record { reply_to = codes "m7"; text = codes "go on" }

process-DoesOne_example :
    DoesOne sample_env sample_key
      (new_chat (codes "signal"))
      reply
      empty_router
      (process sample_env sample_key (new_chat (codes "signal")) reply empty_router)
process-DoesOne_example =
    process-DoesOne sample_env sample_key (new_chat (codes "signal")) reply empty_router

handle-view_example :
    view sample_key
      (handle sample_env (codes "signal") (codes "me") [] (codes "hello") empty_router)
    ≡ (if is_accepted sample_env sample_key empty_router
          (codes "signal")
          (codes "me")
          (codes "hello")
        then (
          (view sample_key empty_router).0
              ++ record { reply_to = []; text = trim_space (codes "hello") } ∷ [],
          true,
        )
        else view sample_key empty_router)
handle-view_example =
    handle-view sample_env (codes "signal") (codes "me") [] (codes "hello") empty_router sample_key

work-view_example : view sample_key (work sample_env sample_key (run 1 empty_router sample_run)) ≡ (
    if str_eq sample_key sample_key
      && is_some (get (run 1 empty_router sample_run).chats sample_key)
    then worked
        (run 1 empty_router sample_run).closed
        (view sample_key (run 1 empty_router sample_run))
    else view sample_key (run 1 empty_router sample_run))
work-view_example = work-view sample_env sample_key (run 1 empty_router sample_run) sample_key

a_path : parse_command (codes "/etc/hosts") ≡ none
unfolding parse_command
a_path = refl

with_arguments :
    parse_command (codes "/Wolf  auth") ≡ some (record { name = codes "wolf"; args = codes "auth" })
unfolding parse_command
with_arguments = refl

-- A no-break space before and an ideographic space after.
trims_spaces : trim_space (194 ∷ 160 ∷ codes "hi " ++ 227 ∷ 128 ∷ 128 ∷ []) ≡ codes "hi"
unfolding trim_space
trims_spaces = refl
