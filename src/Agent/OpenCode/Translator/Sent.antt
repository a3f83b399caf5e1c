-- ===== src/Agent/OpenCode/Translator/Sent.antt =====
-- Which events the translation of agent/opencode_translator.py can give.
use aw_bot.Prelude.{
  String, Bool, true, false, Option, none, some, ◌≡◌, Bool-cases, inl, inr, str_eq, if◌then◌else◌,
}
use aw_bot.Prelude.Json.{Json, null, bool, int, float, str, arr, obj, Fields}
use aw_bot.Prelude.Action.{return}
use aw_bot.Prelude.Fallible.{
  Returns, Found, Returns-bind, Returns-then, Returns-return, Returns-if, returns, ◌>>=◌,
}
use aw_bot.Prelude.Text.{truthy}
use aw_bot.Core.Events.{
  AgentEvent, text_delta, thinking_delta, user_input_requested, usage_updated, run_interrupted,
  run_timed_out, run_completed,
}
use aw_bot.Agent.Payload.{get, required_str, required_dict}
use aw_bot.Agent.OpenCode.Translator.{
  TranslatedOpenCodeEvent, Kind, next_text, next_reasoning, part_delta, part_updated, tool_before,
  tool_after, permission_asked, session_idle, session_status, turn_close, session_error,
  tool_part_event, delta_event, some_event, next_delta, updated_event, status_event, event_of,
  message_event, translated, translate_in, translate_opencode_event, kind_of, tool_part,
  optional_message_id, optional_session_id,
}

-- A delta has a text, and an OpenCode turn neither asks for input, reports usage, is interrupted nor
-- times out by an event of the server.
abbrev pub IsSent : AgentEvent → Type 0
IsSent (text_delta text) = truthy text ≡ true
IsSent (thinking_delta text) = truthy text ≡ true
IsSent (user_input_requested id prompt payload) = ⊥
IsSent (usage_updated input output) = ⊥
IsSent run_interrupted = ⊥
IsSent run_timed_out = ⊥
IsSent event = Unit

abbrev IsSentIn : Option String × AgentEvent → Type 0
IsSentIn (message_id, event) = IsSent event

tool_part_event-IsSent : (part : Fields) → Returns (Found IsSent) (tool_part_event part)
unfolding tool_part_event
tool_part_event-IsSent part = search returns depth 20

delta-IsSent :
    (reasoning : Bool) (text : String)
    → truthy text ≡ true
    → IsSent (if reasoning then thinking_delta text else text_delta text)
delta-IsSent true text e = e
delta-IsSent false text e = e

delta_event-IsSent : (reasoning : Bool) (v : Option Json) → Found IsSent (delta_event reasoning v)
unfolding delta_event
delta_event-IsSent reasoning (some (str text)) = elim (Bool-cases (truthy text)) [
  | inl full ↦ rw full (delta-IsSent reasoning text full)
  | inr empty ↦ rw empty tt
]
delta_event-IsSent reasoning none = tt
delta_event-IsSent reasoning (some null) = tt
delta_event-IsSent reasoning (some (bool b)) = tt
delta_event-IsSent reasoning (some (int i)) = tt
delta_event-IsSent reasoning (some (float f)) = tt
delta_event-IsSent reasoning (some (arr a)) = tt
delta_event-IsSent reasoning (some (obj a)) = tt

some_event-IsSentIn :
    (message_id : Option String) (event : Option AgentEvent)
    → Found IsSent event
    → Found IsSentIn (some_event message_id event)
some_event-IsSentIn message_id none h = tt
some_event-IsSentIn message_id (some event) h = h

next_delta-IsSentIn :
    (reasoning : Bool) (properties : Fields)
    → Returns (Found IsSentIn) (next_delta reasoning properties)
unfolding next_delta
next_delta-IsSentIn reasoning properties = Returns-bind (required_str properties "delta") (λ text _.
    Returns-if (truthy text)
      (Returns-bind (required_str properties "assistantMessageID") (λ id _. Returns-return _ (
        some_event-IsSentIn (some id) (delta_event reasoning (some (str text)))
          (delta_event-IsSent reasoning (some (str text))))))
      (Returns-return none tt))

updated_event-IsSent :
    (properties : Fields) (part : Option Fields)
    → Returns (Found IsSent) (updated_event properties part)
unfolding updated_event
updated_event-IsSent properties (some part) = tool_part_event-IsSent part
updated_event-IsSent properties none = Returns-return _ (delta_event-IsSent _ _)

completed-IsSent : (idle : Bool) → Found IsSent (if idle then some run_completed else none)
completed-IsSent true = tt
completed-IsSent false = tt

status_event-IsSent : (properties : Fields) → Returns (Found IsSent) (status_event properties)
unfolding status_event
status_event-IsSent properties = Returns-bind (required_dict properties "status") (λ status _.
    Returns-bind (required_str status "type")
      (λ status_type _. Returns-return _ (completed-IsSent (str_eq status_type "idle"))))

event_of-IsSent :
    (kind : Kind) (properties : Fields) → Returns (Found IsSent) (event_of kind properties)
unfolding event_of
event_of-IsSent part_delta properties = Returns-return _ (delta_event-IsSent _ _)
event_of-IsSent part_updated properties =
    updated_event-IsSent properties (tool_part (get properties "part"))
event_of-IsSent tool_before properties = search returns depth 8
event_of-IsSent tool_after properties = search returns depth 8
event_of-IsSent permission_asked properties = search returns depth 8
event_of-IsSent session_idle properties = search returns
event_of-IsSent turn_close properties = search returns
event_of-IsSent session_status properties = status_event-IsSent properties
event_of-IsSent session_error properties = search returns depth 8
event_of-IsSent next_text properties = search returns
event_of-IsSent next_reasoning properties = search returns

with_message_id :
    (kind : Kind) (message_id : Option String) (properties : Fields)
    → Returns
        (Found IsSentIn)
        (do event ← event_of kind properties; return (some_event message_id event))
with_message_id kind message_id properties =
    Returns-then (event_of kind properties) (event_of-IsSent kind properties)
      (λ event h. Returns-return _ (some_event-IsSentIn message_id event h))

message_event-IsSentIn :
    (kind : Option Kind) (message_id : Option String) (properties : Fields)
    → Returns (Found IsSentIn) (message_event kind message_id properties)
unfolding message_event
message_event-IsSentIn none message_id properties = Returns-return none tt
message_event-IsSentIn (some next_text) message_id properties = next_delta-IsSentIn false properties
message_event-IsSentIn (some next_reasoning) message_id properties =
    next_delta-IsSentIn true properties
message_event-IsSentIn (some part_delta) message_id properties =
    with_message_id part_delta message_id properties
message_event-IsSentIn (some part_updated) message_id properties =
    with_message_id part_updated message_id properties
message_event-IsSentIn (some tool_before) message_id properties =
    with_message_id tool_before message_id properties
message_event-IsSentIn (some tool_after) message_id properties =
    with_message_id tool_after message_id properties
message_event-IsSentIn (some permission_asked) message_id properties =
    with_message_id permission_asked message_id properties
message_event-IsSentIn (some session_idle) message_id properties =
    with_message_id session_idle message_id properties
message_event-IsSentIn (some session_status) message_id properties =
    with_message_id session_status message_id properties
message_event-IsSentIn (some turn_close) message_id properties =
    with_message_id turn_close message_id properties
message_event-IsSentIn (some session_error) message_id properties =
    with_message_id session_error message_id properties

abbrev SendsSent : Option TranslatedOpenCodeEvent → Type 0
SendsSent = Found (λ t. IsSent t.event)

translated-SendsSent :
    (session_id : String) (found : Option (Option String × AgentEvent))
    → Found IsSentIn found
    → SendsSent (translated session_id found)
translated-SendsSent session_id none h = tt
translated-SendsSent session_id (some (message_id, event)) h = h

translate_in-SendsSent :
    (event_type : String) (properties : Fields) (session_id : Option String)
    → Returns SendsSent (translate_in event_type properties session_id)
unfolding translate_in
translate_in-SendsSent event_type properties none = Returns-return none tt
translate_in-SendsSent event_type properties (some session_id) =
    Returns-bind (optional_message_id properties) (λ message_id _.
      Returns-then (message_event (kind_of event_type) message_id properties)
        (message_event-IsSentIn (kind_of event_type) message_id properties)
        (λ found h. Returns-return _ (translated-SendsSent session_id found h)))

-- Of whatever payload, what is translated is a text that is not empty, a step of a tool, a request
-- for approval, or a completed or failed run.
pub translate_opencode_event-SendsSent :
    (raw : Fields) → Returns (Found (λ t. IsSent t.event)) (translate_opencode_event raw)
unfolding translate_opencode_event
translate_opencode_event-SendsSent raw = Returns-bind (required_str raw "type") (λ event_type _.
    Returns-bind (required_dict raw "properties") (λ properties _.
      Returns-bind (optional_session_id properties)
        (λ session_id _. translate_in-SendsSent event_type properties session_id)))
