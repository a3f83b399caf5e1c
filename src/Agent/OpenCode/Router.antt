-- ===== src/Agent/OpenCode/Router.antt =====
-- The queues of OpenCodeEventRouter in agent/opencode_server.py: registration of a turn, and delivery
-- of events to it. A key of a queue is (session_id, message_id), the message being the user's one.
pub mod Roles
pub mod Held
pub mod Kept
use aw_bot.Prelude.{
  String, Bool, true, false, ◌&&◌, Option, none, some, List, [], ◌∷◌, ◌++◌, str_eq, is_some,
  if◌then◌else◌,
}
use aw_bot.Core.Controller.State.{assign}
use aw_bot.Core.Events.{AgentEvent, approval_requested, text_delta, thinking_delta}
use aw_bot.Agent.OpenCode.Translator.{TranslatedOpenCodeEvent}

abbrev pub MessageKey : Type 0
MessageKey = String × String

abbrev pub same_message : MessageKey → MessageKey → Bool
same_message (a, b) (x, y) = str_eq a x && str_eq b y

abbrev pub put_message : {V : Type 0} → MessageKey → V → (MessageKey → V) → MessageKey → V
put_message key value d k = if same_message key k then value else d k

-- A key of `_early`, whose message may be missing.
abbrev pub EarlyKey : Type 0
EarlyKey = String × Option String

abbrev pub same_optional : Option String → Option String → Bool
same_optional none none = true
same_optional none (some y) = false
same_optional (some x) none = false
same_optional (some x) (some y) = str_eq x y

abbrev pub same_early : EarlyKey → EarlyKey → Bool
same_early (a, b) (x, y) = str_eq a x && same_optional b y

-- The dict in its order of insertion.
abbrev pub Early : Type 0
Early = List (EarlyKey × List AgentEvent)

pub record Router : Type 0 where
  pub queues : MessageKey → Option (List AgentEvent)
  pub session_messages : String → Option String
  pub session_assistants : String → Option String
  pub early : Early
  pub message_roles : MessageKey → Option String
  pub message_parents : MessageKey → Option String

abbrev pub new_router : Router
new_router = record {
  queues = λ k. none;
  session_messages = λ k. none;
  session_assistants = λ k. none;
  early = [];
  message_roles = λ k. none;
  message_parents = λ k. none;
}

-- `self._early.setdefault(key, []).append(event)`
unfoldable pub file_early : EarlyKey → AgentEvent → Early → Early
file_early key event [] = (key, event ∷ []) ∷ []
file_early key event ((k, events) ∷ rest) =
    if same_early k key
    then (k, events ++ event ∷ []) ∷ rest
    else (k, events) ∷ file_early key event rest

-- `self._early.pop(key, [])`, with what is left
unfoldable pub take_early : EarlyKey → Early → List AgentEvent × Early
take_early key [] = ([], [])
take_early key ((k, events) ∷ rest) =
    let (found, others) = take_early key rest in
    if same_early k key then (events, rest) else (found, (k, events) ∷ others)

abbrev pub is_id : String → Option String → Bool
is_id id none = false
is_id id (some k) = str_eq k id

-- Whether early events are those of an answer to a message.
unfoldable pub answers : (MessageKey → Option String) → String → String → EarlyKey → Bool
answers parents session message (k, none) = false
answers parents session message (k, some early) =
    str_eq k session && is_id message (parents (session, early))

abbrev pub last_of : Option String → Option String → Option String
last_of message none = message
last_of message (some later) = some later

-- The early events of the answers to a message, the last such answer, and the other early events.
-- Each key is there once, so that a pop takes the entry that the loop is at.
unfoldable pub collect :
    (MessageKey → Option String) → String → String → Early → List AgentEvent × Option String × Early
collect parents session message [] = ([], none, [])
collect parents session message ((key, events) ∷ rest) =
    let (found, assistant, others) = collect parents session message rest in
    if answers parents session message key
    then (events ++ found, last_of key.1 assistant, others)
    else (found, assistant, (key, events) ∷ others)

unfoldable pub register : String → String → Router → Router
register session message r =
    let (found, assistant, others) = collect r.message_parents session message r.early in
    record r {
      queues = put_message (session, message) (some found) r.queues;
      session_messages = assign session (some message) r.session_messages;
      session_assistants = assign session assistant r.session_assistants;
      early = others;
    }

unfoldable pub unregister : String → String → Router → Router
unregister session message r =
    let is_active = is_id message (r.session_messages session) in
    record r {
      queues = put_message (session, message) none r.queues;
      session_messages =
          if is_active then assign session none r.session_messages else r.session_messages;
      session_assistants =
          if is_active then assign session none r.session_assistants else r.session_assistants;
    }

abbrev with_queue : String → Option (List AgentEvent) → Option (String × List AgentEvent)
with_queue message none = none
with_queue message (some queue) = some (message, queue)

abbrev queue_at : String → Option String → Router → Option (String × List AgentEvent)
queue_at session none r = none
queue_at session (some message) r = with_queue message (r.queues (session, message))

-- `_queue_for_active_turn`, with the active turn's message
unfoldable pub queue_for_active_turn : String → Router → Option (String × List AgentEvent)
queue_for_active_turn session r = queue_at session (r.session_messages session) r

abbrev pub put_events : String → String → List AgentEvent → List AgentEvent → Router → Router
put_events session message queue events r = record r {
  queues = put_message (session, message) (some (queue ++ events)) r.queues;
}

-- The events that waited for an answer are put into the queue of its turn.
unfoldable pub bind_assistant : String → String → String → List AgentEvent → Router → Router
bind_assistant session assistant active queue r =
    let (found, others) = take_early (session, some assistant) r.early in
    put_events session active queue found (record r {
      session_assistants = assign session (some assistant) r.session_assistants;
      early = others;
    })

-- An event that has no queue waits.
unfoldable pub wait : EarlyKey → AgentEvent → Router → Router
wait key event r = record r { early = file_early key event r.early }

-- A put after `bind_assistant`, which has put what waited before it.
unfoldable pub bind_and_put :
    String → String → String → List AgentEvent → AgentEvent → Router → Router
bind_and_put session assistant active queue event r =
    let (found, others) = take_early (session, some assistant) r.early in
    put_events session active (queue ++ found) (event ∷ [])
      (bind_assistant session assistant active queue r)

-- `_queue_for_message`, and the put or the wait after it
unfoldable pub put_for_message :
    String → String → AgentEvent → Option (String × List AgentEvent) → Router → Router
put_for_message session message event none r = wait (session, some message) event r
put_for_message session message event (some (active, queue)) r =
    if str_eq message active
    then put_events session active queue (event ∷ []) r
    else if is_id message (r.session_assistants session)
    then put_events session active queue (event ∷ []) r
    else if is_id active (r.message_parents (session, message))
    then bind_and_put session message active queue event r
    else wait (session, some message) event r

unfoldable pub put_for_session :
    String → AgentEvent → Option (String × List AgentEvent) → Router → Router
put_for_session session event none r = wait (session, none) event r
put_for_session session event (some (active, queue)) r =
    put_events session active queue (event ∷ []) r

unfoldable pub is_user_text_event : TranslatedOpenCodeEvent → Router → Bool
is_user_text_event t r = is_user_text t.event t.message_id
  where
    is_user : Option String → Bool
    is_user none = false
    is_user (some message) = is_id "user" (r.message_roles (t.session_id, message))

    is_user_text : AgentEvent → Option String → Bool
    is_user_text (text_delta text) message = is_user message
    is_user_text (thinking_delta text) message = is_user message
    is_user_text event message = false

unfoldable pub put_translated : String → Option String → AgentEvent → Router → Router
put_translated session none (approval_requested id prompt payload) r = r
put_translated session none event r =
    put_for_session session event (queue_for_active_turn session r) r
put_translated session (some message) event r =
    put_for_message session message event (queue_for_active_turn session r) r

-- What `handle_event` does with a translated event.
unfoldable pub deliver : TranslatedOpenCodeEvent → Router → Router
deliver t r =
    if is_user_text_event t r then r else put_translated t.session_id t.message_id t.event r

-- `_remember_message_context` and `_replay_bound_assistant_events`, for an `info` whose identifiers
-- and role are texts, and whose parent is one if it is there
pub record MessageInfo : Type 0 where
  pub session_id : String
  pub message_id : String
  pub role : String
  pub parent_id : Option String

abbrev parents_with :
    MessageKey → Bool → Option String → (MessageKey → Option String) → MessageKey → Option String
parents_with key true (some parent) d = put_message key (some parent) d
parents_with key assistant parent d = d

unfoldable pub remember_message_context : MessageInfo → Router → Router
remember_message_context info r =
    let key : MessageKey = (info.session_id, info.message_id) in
    record r {
      message_roles = put_message key (some info.role) r.message_roles;
      message_parents =
          parents_with key (str_eq info.role "assistant") info.parent_id r.message_parents;
    }

unfoldable pub replay_to : MessageInfo → Option (String × List AgentEvent) → Router → Router
replay_to info none r = r
replay_to info (some (active, queue)) r =
    if str_eq info.role "assistant" && is_id active info.parent_id
    then bind_assistant info.session_id info.message_id active queue r
    else r

unfoldable pub replay_bound_assistant_events : MessageInfo → Router → Router
replay_bound_assistant_events info r = replay_to info (queue_for_active_turn info.session_id r) r
