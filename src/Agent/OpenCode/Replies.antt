-- ===== src/Agent/OpenCode/Replies.antt =====
-- What OpenCodeTurnStream of agent/opencode_server.py sends to the server for an answer: the text for
-- a question, the decision for an approval. The client is given it, or an exception is raised.
use aw_bot.Prelude.{
  String, Bool, false, ◌&&◌, Option, none, some, List, [], ◌∷◌, str_eq, if◌then◌else◌, ◌≡◌, refl,
}
use aw_bot.Prelude.Action.{return, raise}
use aw_bot.Prelude.Fallible.{◌>>=◌}
use aw_bot.Core.Events.{AgentEvent, user_input_requested}
use aw_bot.Agent.Payload.{Checked, value_error}
use aw_bot.Agent.OpenCode.Decisions.{permission_decision}
use aw_bot.Agent.OpenCode.Turn.{TurnStream, new_stream, remember_emitted, remember_all}

pub record OpenCodeQuestionCapability : Type 0 where
  pub request_event : String
  pub reply_endpoint : String

-- `_question_capability_enabled`
unfoldable pub question_capability_enabled : Option OpenCodeQuestionCapability → Bool
question_capability_enabled none = false
question_capability_enabled (some capability) =
    str_eq capability.request_event "question.asked"
    && str_eq capability.reply_endpoint "/question/:requestID/reply"

-- The arguments of `answer_question` that come from the stream and the answer.
pub record QuestionReply : Type 0 where
  pub question_id : String
  pub answers : List (List String)

abbrev pub reply_to : Option String → String → Checked QuestionReply
reply_to none text = raise (value_error "OpenCode question request is not active")
reply_to (some id) text = return (record { question_id = id; answers = (text ∷ []) ∷ [] })

unfoldable pub answer_user_input :
    Option OpenCodeQuestionCapability → String → TurnStream → Checked QuestionReply
answer_user_input capability text s =
    if question_capability_enabled capability
    then reply_to s.pending_question_id text
    else raise (value_error "OpenCode question support is unavailable")

-- The permission and the decision that the client is given.
unfoldable pub answer_approval : String → String → Checked (String × String)
answer_approval pending_request_id decision = do
  sent ← permission_decision decision
  return (pending_request_id, sent)

-- The last question among some events, or an earlier one if there is none.
unfoldable pub last_question : Option String → List AgentEvent → Option String
last_question earlier [] = earlier
last_question earlier (user_input_requested id prompt payload ∷ rest) = last_question (some id) rest
last_question earlier (event ∷ rest) = last_question earlier rest

question-remember_all :
    (events : List AgentEvent) (s : TurnStream)
    → (remember_all events s).pending_question_id ≡ last_question s.pending_question_id events
unfolding remember_all remember_emitted last_question
question-remember_all [] s = refl
question-remember_all (user_input_requested id prompt payload ∷ rest) s =
    question-remember_all rest (remember_emitted (user_input_requested id prompt payload) s)
question-remember_all (event ∷ rest) s = question-remember_all rest (remember_emitted event s)

-- The capability with which the server's questions can be answered.
abbrev pub supported : OpenCodeQuestionCapability
supported = record {
  request_event = "question.asked";
  reply_endpoint = "/question/:requestID/reply";
}

-- After any events of a turn: if the server's capability is the supported one, an answer is sent to
-- the last question among the events, with the text as the only text of its only answer, and raises
-- ValueError if there was no question; without a capability it raises ValueError.
pub answer_user_input-last :
    (text : String) (events : List AgentEvent)
    → ((id : String)
        → last_question none events ≡ some id
        → answer_user_input (some supported) text (remember_all events new_stream)
          ≡ return (record { question_id = id; answers = (text ∷ []) ∷ [] }))
      × (last_question none events ≡ none
          → answer_user_input (some supported) text (remember_all events new_stream)
            ≡ raise (value_error "OpenCode question request is not active"))
      × (answer_user_input none text (remember_all events new_stream)
          ≡ raise (value_error "OpenCode question support is unavailable"))
unfolding answer_user_input question_capability_enabled
answer_user_input-last text events = (
  λ id asked. rw (question-remember_all events new_stream, asked) refl,
  λ unasked. rw (question-remember_all events new_stream, unasked) refl,
  refl,
)
