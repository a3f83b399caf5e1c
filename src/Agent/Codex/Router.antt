-- ===== src/Agent/Codex/Router.antt =====
-- CodexEventRouter and CodexTurnStream of agent/codex_app_server.py. The queue object that a stream
-- holds is the one that the router has under the stream's turn; queues have no bound, so a put never
-- waits. What is sent to the server is a result of the method that sends it.
pub mod Delivery
mod Requests
pub mod Answers
use aw_bot.Prelude.{
  String, Bool, true, false, ◌&&◌, ◌||◌, Option, none, some, List, [], ◌∷◌, ◌++◌, str_eq,
  if◌then◌else◌,
}
use aw_bot.Prelude.Json.{Json, str, arr, obj, Items, nil, cons, Fields, end, field}
use aw_bot.Prelude.Action.{return, raise, Action, pure, throw, get, modify, ◌>>=◌, ◌>>◌}
use aw_bot.Prelude.Text.{truthy}
use aw_bot.Core.Controller.State.{assign}
use aw_bot.Core.Events.{AgentEvent, run_completed, run_failed, run_interrupted, run_timed_out}
use aw_bot.Agent.Payload.{
  set_field, Checked, Builtins, PayloadError, key_error, type_error, value_error, no_text, item,
  required_str, required_dict, required_list, str_of,
}
use aw_bot.Agent.Codex.Translator.{TranslatedCodexEvent, translate_codex_event}

pub record Request : Type 0 where
  pub raw_id : Json
  pub method : String
  pub params : Fields
  pub turn_id : Option String

-- A key that `_early_events` lacks stands for the empty list, which it is read as. `requests` keeps
-- the order of insertion of the dict.
pub record Router : Type 0 where
  pub queues : String → Option (List AgentEvent)
  pub thread_turns : String → Option String
  pub early_events : String → List AgentEvent
  pub requests : List (String × Request)

abbrev pub R : Type 0 → Type 0
R A = Action Router PayloadError A

abbrev pub lift : {A : Type 0} → Checked A → R A
lift (return a) = pure a
lift (raise e) = throw e

-- `CodexEventRouter()`
abbrev pub new_router : Router
new_router = record {
  queues = λ k. none;
  thread_turns = λ k. none;
  early_events = λ k. [];
  requests = [];
}

unfoldable pub register : String → String → Router → Router
register turn thread r = record {
  queues =
      assign turn (some (r.early_events turn ++ assign turn [] r.early_events thread)) r.queues;
  thread_turns = assign thread (some turn) r.thread_turns;
  early_events = assign thread [] (assign turn [] r.early_events);
  requests = r.requests;
}

abbrev pub is_id : String → Option String → Bool
is_id id none = false
is_id id (some k) = str_eq k id

unfoldable pub unregister : String → String → Router → Router
unregister turn thread r = record r {
  queues = assign turn none r.queues;
  thread_turns =
      if is_id turn (r.thread_turns thread)
      then assign thread none r.thread_turns
      else r.thread_turns;
}

-- `self._requests[key] = request`: a key that is there keeps its place.
unfoldable pub put_request : String → Request → List (String × Request) → List (String × Request)
put_request key request [] = (key, request) ∷ []
put_request key request ((k, old) ∷ rest) =
    if str_eq k key then (key, request) ∷ rest else (k, old) ∷ put_request key request rest

-- The identifiers are those that are asked for; `none` asks for any.
abbrev pub asks : Option String → String → Bool
asks none id = true
asks (some wanted) id = str_eq id wanted

unfoldable pub is_asked : String → Option String → Option String → String → Request → Bool
is_asked turn request_id method id request =
    is_id turn request.turn_id && asks request_id id && asks method request.method

abbrev pub keep_first :
    String × Request
    → Option (Request × List (String × Request))
    → Option (Request × List (String × Request))
keep_first entry none = none
keep_first entry (some (found, others)) = some (found, entry ∷ others)

-- The first request that is asked for, and the others.
unfoldable pub take_first :
    (String → Request → Bool) → List (String × Request) → Option (Request × List (String × Request))
take_first p [] = none
take_first p ((k, request) ∷ rest) =
    let others = take_first p rest in
    if p k request then some (request, rest) else keep_first (k, request) others

-- `self._requests.pop(pending_id)`, or the KeyError of `take_request`, which names what was asked for.
unfoldable pub taken : String → Option (Request × List (String × Request)) → R Request
taken asked none = throw (key_error asked)
taken asked (some (request, others)) = do modify (λ r. record r { requests = others }); pure request

abbrev pub text_or : Option String → String → String
text_or none other = other
text_or (some text) other = if truthy text then text else other

-- `request_id or method or turn_id`
abbrev pub asked_for : String → Option String → Option String → String
asked_for turn request_id method = text_or request_id (text_or method turn)

unfoldable pub take_request : String → Option String → Option String → R Request
take_request turn request_id method = do
  r ← get
  taken (asked_for turn request_id method) (take_first (is_asked turn request_id method) r.requests)

-- `id`, or `other` for None
abbrev pub first_id : Option String → Option String → Option String
first_id (some id) other = some id
first_id none other = other

-- `thread_id` of an event, as a turn
abbrev pub turn_of_thread : (String → Option String) → Option String → Option String
turn_of_thread thread_turns none = none
turn_of_thread thread_turns (some thread) = thread_turns thread

-- `route_id`
unfoldable pub route_id : (String → Option String) → TranslatedCodexEvent → Option String
route_id thread_turns t = first_id t.turn_id (turn_of_thread thread_turns t.thread_id)

abbrev pub true_id : Option String → Option String → Option String
true_id none other = other
true_id (some id) other = if truthy id then some id else other

-- `translated.turn_id or translated.thread_id`
unfoldable pub early_id : TranslatedCodexEvent → Option String
early_id t = true_id t.turn_id t.thread_id

unfoldable pub file_early : Option String → AgentEvent → Router → Router
file_early none event r = r
file_early (some id) event r = record r {
  early_events = assign id (r.early_events id ++ event ∷ []) r.early_events;
}

abbrev pub queue_of : (String → Option (List AgentEvent)) → Option String → Option (List AgentEvent)
queue_of queues none = none
queue_of queues (some id) = queues id

-- `await queue.put(event)`, for the queue of a turn
abbrev pub put_event : Option String → List AgentEvent → AgentEvent → Router → Router
put_event none queue event r = r
put_event (some id) queue event r = record r {
  queues = assign id (some (queue ++ event ∷ [])) r.queues;
}

abbrev pub deliver : TranslatedCodexEvent → Option (List AgentEvent) → Router → Router
deliver t none r = file_early (early_id t) t.event r
deliver t (some queue) r = put_event (route_id r.thread_turns t) queue t.event r

-- The end of `handle_event`: the event is put into its queue or kept for one.
unfoldable pub route : TranslatedCodexEvent → Router → Router
route t r = deliver t (queue_of r.queues (route_id r.thread_turns t)) r

module _ (python : Builtins) where
  unfoldable pub keep_request : Fields → TranslatedCodexEvent → Option Json → R Unit
  keep_request raw t none = pure tt
  keep_request raw t (some id) = do
    method ← lift (required_str raw "method")
    params ← lift (required_dict raw "params")
    modify (λ r. record r {
      requests =
          put_request (str_of python id)
            (record { raw_id = id; method = method; params = params; turn_id = t.turn_id })
            r.requests;
    })

  unfoldable pub handle_translated : Fields → Option TranslatedCodexEvent → R Unit
  handle_translated raw none = pure tt
  handle_translated raw (some t) = do keep_request raw t t.request_id; modify (route t)

  unfoldable pub handle_event : Fields → R Unit
  handle_event raw = do
    translated ← lift (translate_codex_event python raw)
    handle_translated raw translated

abbrev pub is_last : AgentEvent → Bool
is_last run_completed = true
is_last (run_failed error) = true
is_last run_interrupted = true
is_last run_timed_out = true
is_last _ = false

-- What `_events` yields for the queue of the turn, or `none` where it waits.
abbrev pub next_of :
    String → String → Option (List AgentEvent) → Router → Option AgentEvent × Router
next_of turn thread none r = (none, r)
next_of turn thread (some []) r = (none, r)
next_of turn thread (some (event ∷ rest)) r =
    let left : Router = record r { queues = assign turn (some rest) r.queues } in
    (some event, if is_last event then unregister turn thread left else left)

unfoldable pub next_event : String → String → Router → Option AgentEvent × Router
next_event turn thread r = next_of turn thread (r.queues turn) r

abbrev is_one_of : String → List String → Bool
is_one_of text [] = false
is_one_of text (x ∷ rest) = str_eq text x || is_one_of text rest

-- `_approval_decision`
unfoldable pub approval_decision : String → Checked String
approval_decision decision =
    if is_one_of decision ("approve" ∷ "accept" ∷ "allow" ∷ [])
    then return "accept"
    else if is_one_of decision ("reject" ∷ "deny" ∷ "abort" ∷ "decline" ∷ "cancel" ∷ [])
    then return "decline"
    else raise (value_error decision)

-- What is sent is the request's id and the decision.
unfoldable pub answer_approval : String → String → String → R (Json × String)
answer_approval turn pending_request_id decision = do
  codex_decision ← lift (approval_decision decision)
  request ← take_request turn (some pending_request_id) none
  pure (request.raw_id, codex_decision)

abbrev text_or_stop : String → Checked Json → Checked String
text_or_stop key (return (str text)) = return text
text_or_stop key (return v) = raise (no_text key)
text_or_stop key (raise e) = raise e

-- `question["id"]`, which the protocol makes a text.
unfoldable pub question_id : Json → Checked String
question_id (obj question) = text_or_stop "id" (item question "id")
question_id v = raise (type_error "id")

-- The dict comprehension of `answer_user_input`, from the answers so far.
unfoldable pub answers_to : String → Items → Fields → R Fields
answers_to text nil answers = pure answers
answers_to text (cons question rest) answers = do
  id ← lift (question_id question)
  answers_to text rest
      (set_field id (obj (field "answers" (arr (cons (str text) nil)) end)) answers)

unfoldable pub answer_user_input : String → String → R (Json × Fields)
answer_user_input turn text = do
  request ← take_request turn none (some "item/tool/requestUserInput")
  questions ← lift (required_list request.params "questions")
  answers ← answers_to text questions end
  pure (request.raw_id, answers)
