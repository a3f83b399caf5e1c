-- ===== src/Tests/OpenCodes.antt =====
-- Theorems on the OpenCode server's sessions at concrete inputs.
use aw_bot.Prelude.{◌≡◌, refl, some, none, List, [], ◌∷◌}
use aw_bot.Prelude.Json.{end}
use aw_bot.Core.Events.{AgentEvent, text_delta, run_completed, user_input_requested}
use aw_bot.Agent.OpenCode.Turn.{new_stream, remember_all}
use aw_bot.Agent.OpenCode.Replies.{
  supported, answer_user_input, last_question, answer_user_input-last,
}
use aw_bot.Prelude.{String, Bool, false, str_eq, ◌+◌}
use aw_bot.Prelude.Action.{return, raise}
use aw_bot.Agent.Payload.{value_error}
use aw_bot.Agent.OpenCode.Router.{
  new_router, wait, register, Router, file_early, take_early, answers, collect,
  queue_for_active_turn, bind_assistant, bind_and_put, put_for_message, put_for_session,
  put_translated, is_user_text_event, deliver, remember_message_context, replay_to,
  replay_bound_assistant_events,
}
use aw_bot.Core.Controller.State.{assign}
use aw_bot.Agent.OpenCode.Router.Held.{early_size, Holds}
use aw_bot.Agent.OpenCode.Router.Roles.{Arrival, translated, told, arrive, arrive_all}
use aw_bot.Agent.OpenCode.Router.Kept.{expected, register-arrive_all-Holds}

abbrev waiting : Router
waiting = wait ("s1", some "a1") (text_delta "a") new_router

abbrev arrivals : List Arrival
arrivals =
    translated (some "a1") (text_delta "b")
    ∷ told "a1" "assistant" (some "u1")
    ∷ translated (some "a1") (text_delta "c")
    ∷ translated none run_completed
    ∷ []

abbrev is_c : AgentEvent → Bool
is_c (text_delta text) = str_eq text "c"
is_c event = false

register-arrive_all-Holds_example :
    Holds is_c "s1" "u1"
      (expected is_c arrivals (λ message. waiting.message_roles ("s1", message))
        + early_size is_c waiting.early)
      (arrive_all "s1" arrivals (register "s1" "u1" waiting))
register-arrive_all-Holds_example = register-arrive_all-Holds is_c "s1" "u1" arrivals waiting

-- The user's own text is left out; the assistant's events come in order, those that waited first.
routed :
    (arrive_all "s1"
        (told "u1" "user" none ∷ translated (some "u1") (text_delta "hi") ∷ arrivals)
        (register "s1" "u1" waiting)).queues
      ("s1", "u1")
    ≡ some (text_delta "a" ∷ text_delta "b" ∷ text_delta "c" ∷ run_completed ∷ [])
unfolding wait file_early take_early answers collect register queue_for_active_turn bind_assistant
    bind_and_put put_for_message put_for_session put_translated is_user_text_event deliver
    remember_message_context replay_to replay_bound_assistant_events arrive arrive_all assign
routed = refl

abbrev questions : List AgentEvent
questions =
    user_input_requested "q1" "one?" end
    ∷ user_input_requested "q2" "two?" end
    ∷ text_delta "so"
    ∷ []

answer_user_input-last_example :
    ((id : String)
      → last_question none questions ≡ some id
      → answer_user_input (some supported) "yes" (remember_all questions new_stream)
        ≡ return (record { question_id = id; answers = ("yes" ∷ []) ∷ [] }))
    × (last_question none questions ≡ none
        → answer_user_input (some supported) "yes" (remember_all questions new_stream)
          ≡ raise (value_error "OpenCode question request is not active"))
    × (answer_user_input none "yes" (remember_all questions new_stream)
        ≡ raise (value_error "OpenCode question support is unavailable"))
answer_user_input-last_example = answer_user_input-last "yes" questions

asked_last : last_question none questions ≡ some "q2"
unfolding last_question
asked_last = refl
