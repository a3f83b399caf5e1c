-- ===== src/Agent/OpenCode/Turn.antt =====
-- OpenCodeTurnStream of agent/opencode_server.py: what a turn yields, and how it is completed from
-- the server's own copy of the assistant's message.
pub mod Rests
pub mod Whole
use aw_bot.Prelude.{
  String, Bool, true, false, not, ◌&&◌, ◌||◌, Option, none, some, List, [], ◌∷◌, ◌++◌, str_eq,
  if◌then◌else◌,
}
use Prim.Native.String
use aw_bot.Prelude.Json.{Json, str, obj, arr, Items, nil, cons, Fields}
use aw_bot.Prelude.Action.{return, raise}
use aw_bot.Prelude.Fallible.{◌>>=◌}
use aw_bot.Prelude.Text.{truthy, after_prefix}
use aw_bot.Core.Events.{
  AgentEvent, text_delta, thinking_delta, user_input_requested, run_completed, run_failed,
  run_interrupted, run_timed_out,
}
use aw_bot.Agent.Payload.{Checked, type_error, get}

-- The fields that change while the events are read.
pub record TurnStream : Type 0 where
  pub text : String
  pub thinking : String
  pub saw_activity : Bool
  pub pending_question_id : Option String

abbrev pub new_stream : TurnStream
new_stream = record { text = ""; thinking = ""; saw_activity = false; pending_question_id = none }

-- `_remember_emitted`
unfoldable pub remember_emitted : AgentEvent → TurnStream → TurnStream
remember_emitted (user_input_requested id prompt payload) s = record s {
  saw_activity = true;
  pending_question_id = some id;
}
remember_emitted (text_delta text) s = record s {
  saw_activity = true;
  text = String.◌++◌ s.text text;
}
remember_emitted (thinking_delta text) s = record s {
  saw_activity = true;
  thinking = String.◌++◌ s.thinking text;
}
remember_emitted event s = record s { saw_activity = true }

unfoldable pub remember_all : List AgentEvent → TurnStream → TurnStream
remember_all [] s = s
remember_all (event ∷ rest) s = remember_all rest (remember_emitted event s)

abbrev or_empty : Option String → String
or_empty none = ""
or_empty (some rest) = rest

-- `_remaining_suffix`
unfoldable pub remaining_suffix : String → String → String
remaining_suffix current snapshot = or_empty (after_prefix current snapshot)

abbrev pub same_text : Option Json → String → Bool
same_text (some (str text)) wanted = str_eq text wanted
same_text v wanted = false

abbrev as_part : Json → Checked Fields
as_part (obj part) = return part
as_part v = raise (type_error "part")

abbrev part_text : Option Json → Checked String
part_text (some (str text)) = return text
part_text v = raise (type_error "part text")

-- The texts of the parts of one type.
unfoldable pub part_texts : Items → String → Checked (List String)
part_texts nil part_type = return []
part_texts (cons v rest) part_type = do
  part ← as_part v
  let of_type = same_text (get part "type") part_type
  if of_type
      then (do
        text ← part_text (get part "text")
        texts ← part_texts rest part_type
        return (text ∷ texts))
      else part_texts rest part_type

-- `"".join(values)`
unfoldable pub concat : List String → String
concat [] = ""
concat (x ∷ rest) = String.◌++◌ x (concat rest)

abbrev pub joined : List String → Option String
joined [] = none
joined (x ∷ rest) = some (concat (x ∷ rest))

-- `_joined_part_text`
unfoldable pub joined_part_text : Items → String → Checked (Option String)
joined_part_text parts part_type = do texts ← part_texts parts part_type; return (joined texts)

abbrev as_message : Json → Checked Fields
as_message (obj message) = return message
as_message v = raise (type_error "message")

abbrev as_info : Option Json → Checked Fields
as_info (some (obj info)) = return info
as_info v = raise (type_error "info")

abbrev as_parts : Option Json → Checked Items
as_parts (some (arr parts)) = return parts
as_parts v = raise (type_error "parts")

-- `_assistant_message_for_turn`
unfoldable pub assistant_message_for_turn : Items → String → Checked (Option Fields)
assistant_message_for_turn nil turn = return none
assistant_message_for_turn (cons v rest) turn = do
  message ← as_message v
  info ← as_info (get message "info")
  if same_text (get info "role") "assistant" && same_text (get info "parentID") turn
      then return (some message)
      else assistant_message_for_turn rest turn

-- The rest of a snapshot that was not streamed, as an event, if there is any.
unfoldable pub rest_event : (String → AgentEvent) → String → Option String → List AgentEvent
rest_event make current none = []
rest_event make current (some snapshot) =
    let delta = remaining_suffix current snapshot in if truthy delta then make delta ∷ [] else []

unfoldable pub snapshot_of : TurnStream → Option Fields → Checked (List AgentEvent × Bool)
snapshot_of s none = return ([], false)
snapshot_of s (some assistant) = do
  parts ← as_parts (get assistant "parts")
  thinking ← joined_part_text parts "reasoning"
  text ← joined_part_text parts "text"
  return (rest_event thinking_delta s.thinking thinking ++ rest_event text_delta s.text text, true)

-- `_assistant_snapshot_events`, for the messages that the server gives
unfoldable pub assistant_snapshot_events :
    Items → String → TurnStream → Checked (List AgentEvent × Bool)
assistant_snapshot_events messages turn s = do
  assistant ← assistant_message_for_turn messages turn
  snapshot_of s assistant

-- What the loop of `_events` yields for an event of the queue, the state after it and whether it is
-- over. At the end the router's `unregister` is called.
abbrev pub Yielded : Type 0
Yielded = List AgentEvent × TurnStream × Bool

abbrev pub completed_with : TurnStream → List AgentEvent × Bool → Yielded
completed_with s (events, assistant_seen) =
    let after = remember_all events s in
    if not after.saw_activity && not assistant_seen
    then (events, after, false)
    else (events ++ run_completed ∷ [], after, true)

unfoldable pub next_events :
    (messages : Items) (turn : String) → AgentEvent → TurnStream → Checked Yielded
next_events messages turn run_completed s = do
  snapshot ← assistant_snapshot_events messages turn s
  return (completed_with s snapshot)
next_events messages turn (run_failed error) s = return (run_failed error ∷ [], s, true)
next_events messages turn run_interrupted s = return (run_interrupted ∷ [], s, true)
next_events messages turn run_timed_out s = return (run_timed_out ∷ [], s, true)
next_events messages turn event s = return (event ∷ [], remember_emitted event s, false)

-- What is yielded for an event, followed by what is yielded for those after it unless it is over.
abbrev pub go_on : (TurnStream → Checked Yielded) → Yielded → Checked Yielded
go_on next (events, s, true) = return (events, s, true)
go_on next (events, s, false) = do
  (more, after, over) ← next s
  return (events ++ more, after, over)

-- The loop of `_events`, for the events that the queue gives
unfoldable pub events_of :
    (messages : Items) (turn : String) → List AgentEvent → TurnStream → Checked Yielded
events_of messages turn [] s = return ([], s, false)
events_of messages turn (event ∷ rest) s = do
  now ← next_events messages turn event s
  go_on (events_of messages turn rest) now
