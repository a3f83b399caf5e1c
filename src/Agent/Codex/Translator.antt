-- ===== src/Agent/Codex/Translator.antt =====
-- agent/codex_translator.py: a notification or request of the Codex app server as an event of the
-- core.
pub mod Methods
pub mod RoundTrip
pub mod Answerable
use aw_bot.Prelude.{
  String, Bool, true, false, not, ◌&&◌, Option, none, some, List, [], ◌∷◌, str_eq, if◌then◌else◌,
  is_some,
}
use aw_bot.Prelude.Json.{Json, str, obj, arr, Items, nil, cons, Fields, end, field}
use aw_bot.Prelude.Action.{return, raise}
use aw_bot.Prelude.Fallible.{◌>>=◌}
use aw_bot.Prelude.Text.{join}
use aw_bot.Core.Events.{
  AgentEvent, text_delta, thinking_delta, tool_started, tool_finished, user_input_requested,
  approval_requested, usage_updated, run_completed, run_failed, run_interrupted, run_timed_out,
}
use aw_bot.Agent.Payload.{
  Checked, Builtins, key_error, type_error, value_error, no_text, item, get, required_str,
  required_dict, required_list, required_bool, required_int, optional_str, str_in, get_or, str_of,
}

-- The methods that are translated, in the order of the set that names them.
pub data Method : Type 0 where
  agent_message_delta reasoning_text_delta reasoning_summary_delta item_started item_completed :
      Method
  request_user_input command_approval file_change_approval permissions_approval : Method
  token_usage_updated turn_completed failure : Method

pub record TranslatedCodexEvent : Type 0 where
  pub turn_id : Option String
  pub thread_id : Option String
  pub event : AgentEvent
  pub request_id : Option Json

abbrev pub method_table : List (String × Method)
method_table =
    ("item/agentMessage/delta", agent_message_delta)
    ∷ ("item/reasoning/textDelta", reasoning_text_delta)
    ∷ ("item/reasoning/summaryTextDelta", reasoning_summary_delta)
    ∷ ("item/started", item_started)
    ∷ ("item/completed", item_completed)
    ∷ ("item/tool/requestUserInput", request_user_input)
    ∷ ("item/commandExecution/requestApproval", command_approval)
    ∷ ("item/fileChange/requestApproval", file_change_approval)
    ∷ ("item/permissions/requestApproval", permissions_approval)
    ∷ ("thread/tokenUsage/updated", token_usage_updated)
    ∷ ("turn/completed", turn_completed)
    ∷ ("error", failure)
    ∷ []

abbrev pub find_method : String → List (String × Method) → Option Method
find_method name [] = none
find_method name ((n, m) ∷ rest) = if str_eq n name then some m else find_method name rest

-- `method not in {…}` gives `none`.
unfoldable pub method_of : String → Option Method
method_of name = find_method name method_table

abbrev is_usage : Method → Bool
is_usage token_usage_updated = true
is_usage _ = false

-- `turn_id`, from the turn itself where a completed turn names it only there
unfoldable pub turn_id_of : Method → Fields → Option String → Checked (Option String)
turn_id_of turn_completed params none = do
  turn ← required_dict params "turn"
  id ← required_str turn "id"
  return (some id)
turn_id_of method params given = return given

-- Whether an event without a turn and a thread is dropped.
unfoldable pub is_unrouted : Method → Option String → Option String → Bool
is_unrouted method turn_id thread_id =
    not (is_usage method) && not (is_some turn_id) && not (is_some thread_id)

-- `_as_dict`
unfoldable pub as_dict : Json → Fields
as_dict (obj fields) = fields
as_dict v = field "value" v end

abbrev failed_status : String → Bool
failed_status status = not (str_eq status "completed")

unfoldable pub questions_of : Items → Checked (List String)
questions_of nil = return []
questions_of (cons question rest) = do
  q ← str_in question "question"
  qs ← questions_of rest
  return (q ∷ qs)

abbrev prompt_or_raise : Json → Checked String
prompt_or_raise (str text) = return text
prompt_or_raise v = raise (type_error "approval prompt")

abbrev pub id_or_raise : Option Json → Checked Json
id_or_raise none = raise (key_error "id")
id_or_raise (some id) = return id

abbrev text_or_stop : String → Json → Checked String
text_or_stop key (str text) = return text
text_or_stop key v = raise (no_text key)

-- `RunFailed(_required_str(_required_dict(payload, "error"), "message"))`
unfoldable pub failure_in : Fields → Checked AgentEvent
failure_in payload = do
  error ← required_dict payload "error"
  message ← required_str error "message"
  return (run_failed message)

unfoldable pub completed_turn : String → Fields → Checked AgentEvent
completed_turn status turn =
    if str_eq status "completed"
    then return run_completed
    else if str_eq status "interrupted"
    then return run_interrupted
    else if str_eq status "timed_out"
    then return run_timed_out
    else if str_eq status "failed"
    then failure_in turn
    else raise (value_error status)

-- What `_tool_started` gives for a call of a tool.
abbrev pub call_of : String → Fields → Checked (Option AgentEvent)
call_of id started = do
  tool ← required_str started "tool"
  arguments ← item started "arguments"
  return (some (tool_started id tool (as_dict arguments)))

-- `_tool_started`
unfoldable pub tool_started_in : Fields → Checked (Option AgentEvent)
tool_started_in started = do
  item_type ← required_str started "type"
  id ← required_str started "id"
  if str_eq item_type "commandExecution"
      then (do
        command ← required_str started "command"
        return (some (tool_started id "command" (field "command" (str command) end))))
      else if str_eq item_type "fileChange"
      then (do
        changes ← required_list started "changes"
        return (some (tool_started id "file_change" (field "changes" (arr changes) end))))
      else if str_eq item_type "mcpToolCall"
      then call_of id started
      else if str_eq item_type "dynamicToolCall"
      then call_of id started
      else return none

module _ (python : Builtins) where
  -- What `_tool_finished` gives for a call of a tool.
  abbrev pub call_result : String → Fields → Checked (Option AgentEvent)
  call_result id finished = do
    status ← required_str finished "status"
    return (some (tool_finished id (python.dumps (obj finished)) (failed_status status)))

  -- `_tool_finished`
  unfoldable pub tool_finished_in : Fields → Checked (Option AgentEvent)
  tool_finished_in finished = do
    item_type ← required_str finished "type"
    id ← required_str finished "id"
    if str_eq item_type "commandExecution"
        then (do
          status ← required_str finished "status"
          output ←
              text_or_stop "aggregatedOutput"
                (get_or python (get finished "aggregatedOutput") (str ""))
          return (some (tool_finished id output (failed_status status))))
        else if str_eq item_type "fileChange"
        then (do
          status ← required_str finished "status"
          changes ← item finished "changes"
          return (some (tool_finished id (python.dumps changes) (failed_status status))))
        else if str_eq item_type "mcpToolCall"
        then call_result id finished
        else if str_eq item_type "dynamicToolCall"
        then call_result id finished
        else return none

  unfoldable pub approval_in : Option Json → Fields → Checked (Option AgentEvent)
  approval_in request_id params = do
    id ← id_or_raise request_id
    prompt ← prompt_or_raise (
        get_or python (get params "reason")
          (get_or python (get params "command") (str "Approval required")))
    return (some (approval_requested (str_of python id) prompt params))

  -- The event of a method, with the request's `id`; `none` where the code returns None.
  unfoldable pub event_of : Method → Option Json → Fields → Checked (Option AgentEvent)
  event_of agent_message_delta request_id params = do
    delta ← required_str params "delta"
    return (some (text_delta delta))
  event_of reasoning_text_delta request_id params = do
    delta ← required_str params "delta"
    return (some (thinking_delta delta))
  event_of reasoning_summary_delta request_id params = do
    delta ← required_str params "delta"
    return (some (thinking_delta delta))
  event_of item_started request_id params = do
    started ← required_dict params "item"
    tool_started_in started
  event_of item_completed request_id params = do
    finished ← required_dict params "item"
    tool_finished_in finished
  event_of request_user_input request_id params = do
    id ← id_or_raise request_id
    questions ← required_list params "questions"
    texts ← questions_of questions
    return (some (user_input_requested (str_of python id) (join "\n" texts) params))
  event_of command_approval request_id params = approval_in request_id params
  event_of file_change_approval request_id params = approval_in request_id params
  event_of permissions_approval request_id params = approval_in request_id params
  event_of token_usage_updated request_id params = do
    usage ← required_dict params "tokenUsage"
    last ← required_dict usage "last"
    input ← required_int last "inputTokens"
    output ← required_int last "outputTokens"
    return (some (usage_updated input output))
  event_of turn_completed request_id params = do
    turn ← required_dict params "turn"
    status ← required_str turn "status"
    event ← completed_turn status turn
    return (some event)
  event_of failure request_id params = do
    will_retry ← required_bool params "willRetry"
    if will_retry then return none else do event ← failure_in params; return (some event)

  abbrev pub translated :
      Option String → Option String → Option Json → Option AgentEvent → Option TranslatedCodexEvent
  translated turn_id thread_id request_id none = none
  translated turn_id thread_id request_id (some event) =
      some (record {
        turn_id = turn_id;
        thread_id = thread_id;
        event = event;
        request_id = request_id;
      })

  unfoldable pub translate_method : Fields → Option Method → Checked (Option TranslatedCodexEvent)
  translate_method raw none = return none
  translate_method raw (some method) = do
    params ← required_dict raw "params"
    thread_id ← optional_str params "threadId"
    given ← optional_str params "turnId"
    turn_id ← turn_id_of method params given
    let request_id = get raw "id"
    if is_unrouted method turn_id thread_id then return none else do
      event ← event_of method request_id params
      return (translated turn_id thread_id request_id event)

  unfoldable pub translate_codex_event : Fields → Checked (Option TranslatedCodexEvent)
  translate_codex_event raw = do
    method ← required_str raw "method"
    translate_method raw (method_of method)
