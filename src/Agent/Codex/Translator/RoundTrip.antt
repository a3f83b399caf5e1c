-- ===== src/Agent/Codex/Translator/RoundTrip.antt =====
-- Messages of the Codex app server for each event, and their translation back.
use aw_bot.Prelude.{String, Bool, true, false, Option, none, some, ◌≡◌, refl, Bool-cases, inl, inr}
use aw_bot.Prelude.Json.{Json, int, str, obj, arr, nil, cons, Fields, end, field}
use aw_bot.Prelude.Action.{return}
use aw_bot.Prelude.Text.{truthy, join, empty_of_not_truthy}
use aw_bot.Core.Events.{
  AgentEvent, text_delta, thinking_delta, tool_started, tool_finished, user_input_requested,
  approval_requested, usage_updated, run_completed, run_failed, run_interrupted, run_timed_out,
}
use aw_bot.Agent.Payload.{
  Builtins, lookup, not_none, item, required_str, required_dict, required_list, required_int,
  optional_str, str_in, is_true, get_or, str_of,
}
use aw_bot.Agent.Codex.Translator.{
  Method, request_user_input, agent_message_delta, reasoning_text_delta, item_started,
  item_completed, command_approval, token_usage_updated, turn_completed, TranslatedCodexEvent,
  method_of, turn_id_of, is_unrouted, as_dict, questions_of, failure_in, completed_turn,
  tool_started_in, tool_finished_in, approval_in, event_of, translate_method, translate_codex_event,
}
use aw_bot.Agent.Codex.Translator.Methods.{name_of}

abbrev message : Method → Fields → Fields
message method params = field "method" (str (name_of method)) (field "params" (obj params) end)

abbrev request : String → Method → Fields → Fields
request id method params =
    field "id" (str id) (field "method" (str (name_of method)) (field "params" (obj params) end))

abbrev on_turn : String → String → Fields → Fields
on_turn thread turn rest = field "threadId" (str thread) (field "turnId" (str turn) rest)

abbrev ended_turn : String → String → Fields → Fields
ended_turn thread turn rest =
    message turn_completed
      (on_turn thread turn (field "turn" (obj (field "id" (str turn) rest)) end))

abbrev status_of : Bool → String
status_of true = "failed"
status_of false = "completed"

-- A message of a turn of a thread for each event, as the protocol has it.
abbrev pub encode : String → String → AgentEvent → Fields
encode thread turn (text_delta text) =
    message agent_message_delta (on_turn thread turn (field "delta" (str text) end))
encode thread turn (thinking_delta text) =
    message reasoning_text_delta (on_turn thread turn (field "delta" (str text) end))
encode thread turn (tool_started id name input) = message item_started (
    on_turn thread turn (
      field "item"
        (obj (
          field "type" (str "mcpToolCall")
            (field "id" (str id) (field "tool" (str name) (field "arguments" (obj input) end)))))
        end))
encode thread turn (tool_finished id output is_error) = message item_completed (
    on_turn thread turn (
      field "item"
        (obj (
          field "type" (str "commandExecution") (
            field "id" (str id) (
              field "status" (str (status_of is_error))
                (field "aggregatedOutput" (str output) end)))))
        end))
encode thread turn (user_input_requested id prompt payload) = request id request_user_input payload
encode thread turn (approval_requested id prompt payload) = request id command_approval payload
encode thread turn (usage_updated input output) = message token_usage_updated (
    on_turn thread turn (
      field "tokenUsage"
        (obj (
          field "last"
            (obj (field "inputTokens" (int input) (field "outputTokens" (int output) end))) end))
        end))
encode thread turn run_completed = ended_turn thread turn (field "status" (str "completed") end)
encode thread turn (run_failed error) =
    ended_turn thread turn
      (field "status" (str "failed") (field "error" (obj (field "message" (str error) end)) end))
encode thread turn run_interrupted = ended_turn thread turn (field "status" (str "interrupted") end)
encode thread turn run_timed_out = ended_turn thread turn (field "status" (str "timed_out") end)

-- The params of a request are its payload: they name the thread and the turn, and hold the prompt.
abbrev pub IsEncodable : String → String → AgentEvent → Type 0
IsEncodable thread turn (user_input_requested id prompt payload) =
    (lookup payload "threadId" ≡ some (str thread))
    × (lookup payload "turnId" ≡ some (str turn))
    × (lookup payload "questions" ≡ some (arr (cons (obj (field "question" (str prompt) end)) nil)))
IsEncodable thread turn (approval_requested id prompt payload) =
    (lookup payload "threadId" ≡ some (str thread))
    × (lookup payload "turnId" ≡ some (str turn))
    × (lookup payload "reason" ≡ some (str prompt))
    × (truthy prompt ≡ true)
IsEncodable thread turn event = Unit

abbrev pub request_id_of : AgentEvent → Option Json
request_id_of (user_input_requested id prompt payload) = some (str id)
request_id_of (approval_requested id prompt payload) = some (str id)
request_id_of event = none

abbrev pub as_sent : String → String → AgentEvent → TranslatedCodexEvent
as_sent thread turn event = record {
  turn_id = some turn;
  thread_id = some thread;
  event = event;
  request_id = request_id_of event;
}

output_back :
    (python : Builtins) (output : String) → get_or python (some (str output)) (str "") ≡ str output
unfolding get_or is_true
output_back python output = elim (Bool-cases (truthy output)) [
  | inl full ↦ rw full refl
  | inr empty ↦ rw (empty, empty_of_not_truthy output empty) refl
]

-- The translation of the message for an event is that event, of the turn and the thread, with the
-- identifier of a request.
pub translate_codex_event-encode :
    (python : Builtins) (thread turn : String) (event : AgentEvent)
    → IsEncodable thread turn event
    → translate_codex_event python (encode thread turn event)
      ≡ return (some (as_sent thread turn event))
unfolding translate_codex_event translate_method event_of method_of turn_id_of is_unrouted
    required_str required_dict item lookup not_none optional_str tool_started_in tool_finished_in
    as_dict required_int required_list failure_in completed_turn questions_of str_in approval_in
    get_or is_true str_of join
translate_codex_event-encode python thread turn (text_delta text) h = refl
translate_codex_event-encode python thread turn (thinking_delta text) h = refl
translate_codex_event-encode python thread turn (tool_started id name input) h = refl
translate_codex_event-encode python thread turn (tool_finished id output true) h =
    rw (output_back python output) refl
translate_codex_event-encode python thread turn (tool_finished id output false) h =
    rw (output_back python output) refl
translate_codex_event-encode python thread turn (user_input_requested id prompt payload) h =
    rw (h.0, h.1, h.2) refl
translate_codex_event-encode python thread turn (approval_requested id prompt payload) h =
    rw (h.0, h.1, h.2, h.3) refl
translate_codex_event-encode python thread turn (usage_updated input output) h = refl
translate_codex_event-encode python thread turn run_completed h = refl
translate_codex_event-encode python thread turn (run_failed error) h = refl
translate_codex_event-encode python thread turn run_interrupted h = refl
translate_codex_event-encode python thread turn run_timed_out h = refl
