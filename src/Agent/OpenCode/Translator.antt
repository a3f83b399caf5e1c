-- ===== src/Agent/OpenCode/Translator.antt =====
-- agent/opencode_translator.py: an event of the OpenCode server as an event of the core.
pub mod Sent
use aw_bot.Prelude.{
  String, Bool, true, false, ◌||◌, Option, none, some, List, [], ◌∷◌, str_eq, if◌then◌else◌,
}
use aw_bot.Prelude.Json.{Json, str, obj, Fields}
use aw_bot.Prelude.Action.{return, raise}
use aw_bot.Prelude.Fallible.{◌>>=◌}
use aw_bot.Prelude.Text.{truthy}
use aw_bot.Core.Events.{
  AgentEvent, text_delta, thinking_delta, tool_started, tool_finished, approval_requested,
  run_completed, run_failed,
}
use aw_bot.Agent.Payload.{Checked, type_error, get, required_str, required_dict, str_or_none}

pub record TranslatedOpenCodeEvent : Type 0 where
  pub session_id : String
  pub message_id : Option String
  pub event : AgentEvent

-- The types that are translated; `none` of `kind_of` is any other one.
pub data Kind : Type 0 where
  next_text next_reasoning part_delta part_updated tool_before tool_after permission_asked : Kind
  session_idle session_status turn_close session_error : Kind

abbrev pub kind_table : List (String × Kind)
kind_table =
    ("session.next.text.delta", next_text)
    ∷ ("session.next.reasoning.delta", next_reasoning)
    ∷ ("message.part.delta", part_delta)
    ∷ ("message.part.updated", part_updated)
    ∷ ("tool.execute.before", tool_before)
    ∷ ("tool.execute.after", tool_after)
    ∷ ("permission.asked", permission_asked)
    ∷ ("session.idle", session_idle)
    ∷ ("session.status", session_status)
    ∷ ("session.turn.close", turn_close)
    ∷ ("session.error", session_error)
    ∷ []

abbrev pub find_kind : String → List (String × Kind) → Option Kind
find_kind name [] = none
find_kind name ((n, k) ∷ rest) = if str_eq n name then some k else find_kind name rest

unfoldable pub kind_of : String → Option Kind
kind_of name = find_kind name kind_table

-- `value`, or the one under `key` in `inner` where that is a dict
unfoldable pub or_inside : Option Json → Option Json → String → Option Json
or_inside (some v) inner key = some v
or_inside none (some (obj part)) key = get part key
or_inside none inner key = none

-- `_optional_message_id`
unfoldable pub optional_message_id : Fields → Checked (Option String)
optional_message_id properties = str_or_none "messageID" (
    or_inside (or_inside (get properties "messageID") (get properties "part") "messageID")
      (get properties "tool") "messageID")

-- `_optional_session_id`
unfoldable pub optional_session_id : Fields → Checked (Option String)
optional_session_id properties =
    str_or_none "sessionID"
      (or_inside (get properties "sessionID") (get properties "part") "sessionID")

-- Whether a value is one of the texts that name reasoning.
unfoldable pub names_reasoning : Option Json → Bool
names_reasoning (some (str name)) = str_eq name "reasoning" || str_eq name "thinking"
names_reasoning v = false

-- `_is_reasoning_part`
unfoldable pub is_reasoning_part : Option Json → Bool
is_reasoning_part (some (obj part)) = names_reasoning (get part "type")
is_reasoning_part part = false

-- `_is_reasoning_delta`
unfoldable pub is_reasoning_delta : Fields → Option Json → Bool
is_reasoning_delta properties part =
    is_reasoning_part part
    || names_reasoning (get properties "_partType")
    || names_reasoning (get properties "field")

abbrev pub is_text : String → Option Json → Bool
is_text name (some (str text)) = str_eq text name
is_text name v = false

-- `_is_tool_part`, with the part as a dict where it is one
unfoldable pub tool_part : Option Json → Option Fields
tool_part (some (obj part)) = if is_text "tool" (get part "type") then some part else none
tool_part part = none

-- `_tool_part_event`
unfoldable pub tool_part_event : Fields → Checked (Option AgentEvent)
tool_part_event part = do
  state ← required_dict part "state"
  status ← required_str state "status"
  if str_eq status "running"
      then (do
        id ← required_str part "id"
        tool ← required_str part "tool"
        input ← required_dict state "input"
        return (some (tool_started id tool input)))
      else if str_eq status "completed"
      then (do
        id ← required_str part "id"
        output ← required_str state "output"
        return (some (tool_finished id output false)))
      else if str_eq status "error"
      then (do
        id ← required_str part "id"
        error ← required_str state "error"
        return (some (tool_finished id error true)))
      else return none

abbrev pub message_or : String → Option Json → Checked String
message_or name none = return name
message_or name (some (str message)) = return message
message_or name (some v) = raise (type_error "message")

-- `_error_message`
unfoldable pub error_message : Fields → Checked String
error_message error = do
  name ← required_str error "name"
  details ← required_dict error "data"
  message_or name (get details "message")

-- An event for a text that is a delta: none for what is no text or an empty one.
unfoldable pub delta_event : Bool → Option Json → Option AgentEvent
delta_event reasoning (some (str text)) =
    if truthy text then some (if reasoning then thinking_delta text else text_delta text) else none
delta_event reasoning v = none

abbrev pub some_event : Option String → Option AgentEvent → Option (Option String × AgentEvent)
some_event message_id none = none
some_event message_id (some event) = some (message_id, event)

-- An event of `session.next.text.delta` or `session.next.reasoning.delta`.
unfoldable pub next_delta : Bool → Fields → Checked (Option (Option String × AgentEvent))
next_delta reasoning properties = do
  text ← required_str properties "delta"
  if truthy text
      then (do
        id ← required_str properties "assistantMessageID"
        return (some_event (some id) (delta_event reasoning (some (str text)))))
      else return none

-- `text` of a `message.part.delta`: the delta, or the text of the part where there is none
unfoldable pub delta_text : Fields → Option Json
delta_text properties = or_inside (get properties "delta") (get properties "part") "text"

unfoldable pub updated_event : Fields → Option Fields → Checked (Option AgentEvent)
updated_event properties (some part) = tool_part_event part
updated_event properties none =
    return
      (delta_event (is_reasoning_delta properties (get properties "part")) (get properties "delta"))

unfoldable pub status_event : Fields → Checked (Option AgentEvent)
status_event properties = do
  status ← required_dict properties "status"
  status_type ← required_str status "type"
  return (if str_eq status_type "idle" then some run_completed else none)

-- The event of a kind whose message id is `_optional_message_id`.
unfoldable pub event_of : Kind → Fields → Checked (Option AgentEvent)
event_of part_delta properties =
    return
      (delta_event (is_reasoning_delta properties (get properties "part")) (delta_text properties))
event_of part_updated properties = updated_event properties (tool_part (get properties "part"))
event_of tool_before properties = do
  id ← required_str properties "callID"
  tool ← required_str properties "tool"
  input ← required_dict properties "args"
  return (some (tool_started id tool input))
event_of tool_after properties = do
  id ← required_str properties "callID"
  output ← required_str properties "output"
  return (some (tool_finished id output false))
event_of permission_asked properties = do
  id ← required_str properties "id"
  permission ← required_str properties "permission"
  return (some (approval_requested id permission properties))
event_of session_status properties = status_event properties
event_of session_error properties = do
  error ← required_dict properties "error"
  message ← error_message error
  return (some (run_failed message))
event_of session_idle properties = return (some run_completed)
event_of turn_close properties = return (some run_completed)
-- The other two have a message id of their own: `next_delta`.
event_of kind properties = return none

-- The event of a kind and its message id.
unfoldable pub message_event :
    Option Kind → Option String → Fields → Checked (Option (Option String × AgentEvent))
message_event none message_id properties = return none
message_event (some next_text) message_id properties = next_delta false properties
message_event (some next_reasoning) message_id properties = next_delta true properties
message_event (some kind) message_id properties = do
  event ← event_of kind properties
  return (some_event message_id event)

abbrev pub translated :
    String → Option (Option String × AgentEvent) → Option TranslatedOpenCodeEvent
translated session_id none = none
translated session_id (some (message_id, event)) =
    some (record { session_id = session_id; message_id = message_id; event = event })

unfoldable pub translate_in :
    String → Fields → Option String → Checked (Option TranslatedOpenCodeEvent)
translate_in event_type properties none = return none
translate_in event_type properties (some session_id) = do
  message_id ← optional_message_id properties
  found ← message_event (kind_of event_type) message_id properties
  return (translated session_id found)

unfoldable pub translate_opencode_event : Fields → Checked (Option TranslatedOpenCodeEvent)
translate_opencode_event raw = do
  event_type ← required_str raw "type"
  properties ← required_dict raw "properties"
  session_id ← optional_session_id properties
  translate_in event_type properties session_id
