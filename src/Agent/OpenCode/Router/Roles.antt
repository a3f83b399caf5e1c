-- ===== src/Agent/OpenCode/Router/Roles.antt =====
-- What the server tells OpenCodeEventRouter of one session, and which events the router is to leave
-- out by the roles that it was told.
use text.Mathlib.TextPositions.{eq_refl}
use aw_bot.Prelude.{
  String, Bool, true, false, ◌&&◌, ◌||◌, Option, none, some, List, [], ◌∷◌, str_eq, if◌then◌else◌,
  ◌≡◌, refl, ap, ◌∙◌,
}
use aw_bot.Core.Controller.State.{assign}
use aw_bot.Core.Events.{AgentEvent, text_delta, thinking_delta, approval_requested}
use aw_bot.Agent.OpenCode.Translator.{TranslatedOpenCodeEvent}
use aw_bot.Agent.OpenCode.Router.{
  Router, is_id, queue_for_active_turn, put_translated, put_for_session, put_for_message, wait,
  bind_and_put, bind_assistant, is_user_text_event, deliver, MessageInfo, remember_message_context,
  replay_to, replay_bound_assistant_events,
}

-- What the server tells the router of one session.
pub data Arrival : Type 0 where
  translated : (message_id : Option String) (event : AgentEvent) → Arrival
  told : (message_id role : String) (parent_id : Option String) → Arrival

abbrev pub event_in : String → Option String → AgentEvent → TranslatedOpenCodeEvent
event_in session message event = record {
  session_id = session;
  message_id = message;
  event = event;
}

abbrev pub info_in : String → String → String → Option String → MessageInfo
info_in session message role parent = record {
  session_id = session;
  message_id = message;
  role = role;
  parent_id = parent;
}

unfoldable pub arrive : String → Arrival → Router → Router
arrive session (translated message event) r = deliver (event_in session message event) r
arrive session (told message role parent) r =
    let info = info_in session message role parent in
    replay_bound_assistant_events info (remember_message_context info r)

unfoldable pub arrive_all : String → List Arrival → Router → Router
arrive_all session [] r = r
arrive_all session (arrival ∷ rest) r = arrive_all session rest (arrive session arrival r)

-- The role of each message of the session, as far as the server has told it.
abbrev pub Roles : Type 0
Roles = String → Option String

abbrev says_user : Option String → Bool
says_user none = false
says_user (some role) = str_eq role "user"

-- The events that are to be left out: texts of a message whose role is told to be the user's, and
-- requests for approval that name no message.
unfoldable pub leaves_out : Roles → Option String → AgentEvent → Bool
leaves_out roles none (approval_requested id prompt payload) = true
leaves_out roles (some message) (text_delta text) = says_user (roles message)
leaves_out roles (some message) (thinking_delta text) = says_user (roles message)
leaves_out roles message event = false

-- The router's record of the roles in a session.
abbrev pub Knows : String → Roles → Router → Type 0
Knows session roles r = (message : String) → r.message_roles (session, message) ≡ roles message

abbrev pub is_unbound : Option String → AgentEvent → Bool
is_unbound none (approval_requested id prompt payload) = true
is_unbound message event = false

or_false : (b : Bool) → b || false ≡ b
or_false true = refl
or_false false = refl

is_user_role : (role : Option String) → is_id "user" role ≡ says_user role
is_user_role none = refl
is_user_role (some role) = refl

pub leaves_out-agrees :
    (session : String) (roles : Roles) (message : Option String) (event : AgentEvent) (r : Router)
    → Knows session roles r
    → is_user_text_event (event_in session message event) r || is_unbound message event
      ≡ leaves_out roles message event
unfolding is_user_text_event leaves_out
leaves_out-agrees session roles none (text_delta text) r knows = refl
leaves_out-agrees session roles none (thinking_delta text) r knows = refl
leaves_out-agrees session roles none event r knows = refl
leaves_out-agrees session roles (some message) (text_delta text) r knows =
    or_false _ ∙ ap (is_id "user") (knows message) ∙ is_user_role (roles message)
leaves_out-agrees session roles (some message) (thinking_delta text) r knows =
    or_false _ ∙ ap (is_id "user") (knows message) ∙ is_user_role (roles message)
leaves_out-agrees session roles (some message) event r knows = refl

-- Delivery keeps the record of the roles.
record SameRoles (r x : Router) : Type 0 where
  same : x.message_roles ≡ r.message_roles

SameRoles-if :
    {r x y : Router} (b : Bool) → SameRoles r x → SameRoles r y → SameRoles r (if b then x else y)
SameRoles-if true x y = x
SameRoles-if false x y = y

put_for_message-SameRoles :
    (session message : String) (event : AgentEvent) (queue : Option (String × List AgentEvent))
    (r : Router)
    → SameRoles r (put_for_message session message event queue r)
unfolding put_for_message wait bind_and_put bind_assistant
put_for_message-SameRoles session message event none r = record { same = refl }
put_for_message-SameRoles session message event (some (active, queue)) r =
    SameRoles-if (str_eq message active) (record { same = refl })
      (SameRoles-if (is_id message (r.session_assistants session)) (record { same = refl })
        (SameRoles-if (is_id active (r.message_parents (session, message))) (record { same = refl })
          (record { same = refl })))

put_for_session-SameRoles :
    (session : String) (event : AgentEvent) (queue : Option (String × List AgentEvent)) (r : Router)
    → SameRoles r (put_for_session session event queue r)
unfolding put_for_session wait
put_for_session-SameRoles session event none r = record { same = refl }
put_for_session-SameRoles session event (some (active, queue)) r = record { same = refl }

put_translated-SameRoles :
    (session : String) (message : Option String) (event : AgentEvent) (r : Router)
    → SameRoles r (put_translated session message event r)
unfolding put_translated
put_translated-SameRoles session none (approval_requested id prompt payload) r = record {
  same = refl;
}
put_translated-SameRoles session none event r =
    put_for_session-SameRoles session event (queue_for_active_turn session r) r
put_translated-SameRoles session (some message) event r =
    put_for_message-SameRoles session message event (queue_for_active_turn session r) r

replay_to-SameRoles :
    (info : MessageInfo) (queue : Option (String × List AgentEvent)) (r : Router)
    → SameRoles r (replay_to info queue r)
unfolding replay_to bind_assistant
replay_to-SameRoles info none r = record { same = refl }
replay_to-SameRoles info (some (active, queue)) r =
    SameRoles-if (str_eq info.role "assistant" && is_id active info.parent_id)
      (record { same = refl }) (record { same = refl })

deliver-SameRoles :
    (session : String) (message : Option String) (event : AgentEvent) (r : Router)
    → SameRoles r (deliver (event_in session message event) r)
unfolding deliver
deliver-SameRoles session message event r =
    SameRoles-if (is_user_text_event (event_in session message event) r) (record { same = refl })
      (put_translated-SameRoles session message event r)

-- The roles after an arrival.
unfoldable pub roles_after : Arrival → Roles → Roles
roles_after (translated message event) roles = roles
roles_after (told message role parent) roles = assign message (some role) roles

pub arrive-Knows :
    (session : String) (arrival : Arrival) (roles : Roles) (r : Router)
    → Knows session roles r
    → Knows session (roles_after arrival roles) (arrive session arrival r)
unfolding arrive roles_after replay_bound_assistant_events remember_message_context assign
arrive-Knows session (translated message event) roles r knows m =
    ap (λ d. d (session, m)) (deliver-SameRoles session message event r).same ∙ knows m
arrive-Knows session (told message role parent) roles r knows m =
    let info = info_in session message role parent in
    let known = remember_message_context info r in
    ap (λ d. d (session, m))
      (replay_to-SameRoles info (queue_for_active_turn session known) known).same
    ∙ rw (eq_refl session)
        (ap (λ role_before. if str_eq message m then some role else role_before) (knows m))
