-- ===== src/Agent/Codex/Translator/Answerable.antt =====
-- Requests of the Codex app server carry the identifier by which they are answered.
use aw_bot.Prelude.{String, Option, none, some, ◌≡◌, refl, subst}
use aw_bot.Prelude.Json.{Json, Fields}
use aw_bot.Prelude.Action.{return}
use aw_bot.Prelude.Fallible.{
  Returns, Found, Returns-bind, Returns-then, Returns-return, Returns-if, OnReturn, returns, ◌>>=◌,
}
use aw_bot.Core.Events.{AgentEvent, user_input_requested, approval_requested}
use aw_bot.Agent.Payload.{
  Checked, Builtins, PayloadError, get, required_str, required_dict, optional_str, required_bool,
  str_of,
}
use aw_bot.Agent.Codex.Translator.{
  Method, request_user_input, agent_message_delta, reasoning_text_delta, reasoning_summary_delta,
  item_started, item_completed, command_approval, file_change_approval, permissions_approval,
  token_usage_updated, turn_completed, failure, call_of, TranslatedCodexEvent,
  translate_codex_event, translate_method, event_of, method_of, approval_in, tool_started_in,
  tool_finished_in, completed_turn, failure_in, id_or_raise, translated, turn_id_of, is_unrouted,
}

-- A request of a method names itself by the text of the identifier that came with it.
abbrev pub IsAnswerable : Builtins → Method → Option Json → AgentEvent → Type 0
IsAnswerable python method id (user_input_requested pending_id prompt payload) =
    (method ≡ request_user_input)
    × ((raw_id : Json) × (id ≡ some raw_id) × (pending_id ≡ str_of python raw_id))
IsAnswerable python method id (approval_requested pending_id prompt payload) =
    (raw_id : Json) × (id ≡ some raw_id) × (pending_id ≡ str_of python raw_id)
IsAnswerable python method id event = Unit

-- What the code finds in a request, if it finds an event.
abbrev pub Answers : Builtins → Method → Option Json → Option AgentEvent → Type 0
Answers python method id = Found (IsAnswerable python method id)

module _ (python : Builtins) where
  failure_in-IsAnswerable :
      (method : Method) (id : Option Json) (payload : Fields)
      → Returns (IsAnswerable python method id) (failure_in payload)
  unfolding failure_in
  failure_in-IsAnswerable method id payload = search returns

  completed_turn-IsAnswerable :
      (method : Method) (id : Option Json) (status : String) (turn : Fields)
      → Returns (IsAnswerable python method id) (completed_turn status turn)
  unfolding completed_turn
  completed_turn-IsAnswerable method id status turn = search (returns, failure_in-IsAnswerable)

  call_of-IsAnswerable :
      (method : Method) (id : Option Json) (tool_id : String) (started : Fields)
      → Returns (Answers python method id) (call_of tool_id started)
  call_of-IsAnswerable method id tool_id started = search returns

  tool_started_in-IsAnswerable :
      (method : Method) (id : Option Json) (started : Fields)
      → Returns (Answers python method id) (tool_started_in started)
  unfolding tool_started_in
  tool_started_in-IsAnswerable method id started = search (returns, call_of-IsAnswerable) depth 14

  tool_finished_in-IsAnswerable :
      (method : Method) (id : Option Json) (finished : Fields)
      → Returns (Answers python method id) (tool_finished_in python finished)
  unfolding tool_finished_in
  tool_finished_in-IsAnswerable method id finished = search returns depth 14

  id_or_raise-is_some :
      (id : Option Json) (raw_id : Json) → id_or_raise id ≡ return raw_id → id ≡ some raw_id
  id_or_raise-is_some none raw_id e = cc
  id_or_raise-is_some (some id) raw_id e = cc

  approval-IsAnswerable :
      (method : Method) (id : Option Json) (raw_id : Json) (prompt : String) (params : Fields)
      → id_or_raise id ≡ return raw_id
      → IsAnswerable python method id (approval_requested (str_of python raw_id) prompt params)
  approval-IsAnswerable method id raw_id prompt params e =
      (raw_id, id_or_raise-is_some id raw_id e, refl)

  user_input-IsAnswerable :
      (id : Option Json) (raw_id : Json) (prompt : String) (params : Fields)
      → id_or_raise id ≡ return raw_id
      → IsAnswerable python request_user_input id
          (user_input_requested (str_of python raw_id) prompt params)
  user_input-IsAnswerable id raw_id prompt params e =
      (refl, (raw_id, id_or_raise-is_some id raw_id e, refl))

  approval_in-IsAnswerable :
      (method : Method) (id : Option Json) (params : Fields)
      → Returns (Answers python method id) (approval_in python id params)
  unfolding approval_in
  approval_in-IsAnswerable method id params = search (returns, approval-IsAnswerable)

  found-Answers :
      (method : Method) (id : Option Json) (m : Checked AgentEvent)
      → Returns (IsAnswerable python method id) m
      → Returns (Answers python method id) (do event ← m; return (some event))
  found-Answers method id m r = Returns-then m r (λ event h. Returns-return (some event) h)

  event_of-IsAnswerable :
      (method : Method) (id : Option Json) (params : Fields)
      → Returns (Answers python method id) (event_of python method id params)
  unfolding event_of
  event_of-IsAnswerable agent_message_delta id params = search returns
  event_of-IsAnswerable reasoning_text_delta id params = search returns
  event_of-IsAnswerable reasoning_summary_delta id params = search returns
  event_of-IsAnswerable item_started id params = search (returns, tool_started_in-IsAnswerable)
  event_of-IsAnswerable item_completed id params = search (returns, tool_finished_in-IsAnswerable)
  event_of-IsAnswerable request_user_input id params =
      search (returns, user_input-IsAnswerable) depth 8
  event_of-IsAnswerable command_approval id params =
      approval_in-IsAnswerable command_approval id params
  event_of-IsAnswerable file_change_approval id params =
      approval_in-IsAnswerable file_change_approval id params
  event_of-IsAnswerable permissions_approval id params =
      approval_in-IsAnswerable permissions_approval id params
  event_of-IsAnswerable token_usage_updated id params = search returns depth 8
  event_of-IsAnswerable turn_completed id params =
      Returns-bind (required_dict params "turn") (λ turn _.
        Returns-bind (required_str turn "status") (λ status _.
          found-Answers turn_completed id (completed_turn status turn)
            (completed_turn-IsAnswerable turn_completed id status turn)))
  event_of-IsAnswerable failure id params =
      Returns-bind (required_bool params "willRetry") (λ will_retry _.
        Returns-if will_retry (Returns-return none tt) (
          found-Answers failure id (failure_in params) (failure_in-IsAnswerable failure id params)))

-- What the router keeps of a message that was translated.
pub record IsTranslation (python : Builtins) (raw : Fields) (t : TranslatedCodexEvent)
    : Type 0 where
  pub method : Method
  pub name : String
  pub params : Fields
  pub reads_name : required_str raw "method" ≡ return name
  pub is_method : method_of name ≡ some method
  pub reads_params : required_dict raw "params" ≡ return params
  pub keeps_id : t.request_id ≡ get raw "id"
  pub answerable : IsAnswerable python method (get raw "id") t.event

module _ (python : Builtins) (raw : Fields) where
  abbrev Translates : Option TranslatedCodexEvent → Type 0
  Translates = Found (IsTranslation python raw)

  translated-IsTranslation :
      (method : Method) (name : String) (params : Fields) (turn_id thread_id : Option String)
      (event : Option AgentEvent)
      → required_str raw "method" ≡ return name
      → method_of name ≡ some method
      → required_dict raw "params" ≡ return params
      → Returns
          (Answers python method (get raw "id"))
          (event_of python method (get raw "id") params)
      → event_of python method (get raw "id") params ≡ return event
      → Returns {E = PayloadError} Translates
          (return (translated python turn_id thread_id (get raw "id") event))
  translated-IsTranslation method name params turn_id thread_id none en em ep r e = record {
    holds = tt;
  }
  translated-IsTranslation method name params turn_id thread_id (some event) en em ep r e = record {
    holds = record {
      method = method;
      name = name;
      params = params;
      reads_name = en;
      is_method = em;
      reads_params = ep;
      keeps_id = refl;
      answerable = subst (OnReturn (Answers python method (get raw "id"))) e r.holds;
    };
  }

  translate_method-IsTranslation :
      (name : String) (method : Option Method)
      → required_str raw "method" ≡ return name
      → method_of name ≡ method
      → Returns Translates (translate_method python raw method)
  unfolding translate_method
  translate_method-IsTranslation name none en em = Returns-return none tt
  translate_method-IsTranslation name (some method) en em =
      Returns-bind (required_dict raw "params") (λ params ep.
        Returns-bind (optional_str params "threadId") (λ thread_id _.
          Returns-bind (optional_str params "turnId") (λ given _.
            Returns-bind (turn_id_of method params given) (λ turn_id _.
              Returns-if (is_unrouted method turn_id thread_id) (Returns-return none tt) (
                Returns-bind (event_of python method (get raw "id") params) (λ event e.
                  translated-IsTranslation method name params turn_id thread_id event en em ep
                    (event_of-IsAnswerable python method (get raw "id") params) e))))))

  -- What is translated is a message of a translated method with params, whose identifier is kept; a
  -- request for input or approval has one, and is named by its text.
  pub translate_codex_event-IsTranslation :
      Returns (Found (IsTranslation python raw)) (translate_codex_event python raw)
  unfolding translate_codex_event
  translate_codex_event-IsTranslation =
      Returns-bind (required_str raw "method")
        (λ name en. translate_method-IsTranslation name (method_of name) en refl)
