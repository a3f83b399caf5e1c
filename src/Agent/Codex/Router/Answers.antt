-- ===== src/Agent/Codex/Router/Answers.antt =====
-- From a request of the Codex app server to the answer that goes back: the translator, the router
-- and CodexTurnStream.answer_approval together.
use aw_bot.Prelude.{String, Option, none, some, List, ◌≡◌, refl, sym, ◌∙◌, subst}
use aw_bot.Prelude.Json.{Json, Fields}
use aw_bot.Prelude.Fallible.{OnReturn, Found}
use aw_bot.Prelude.Action.{return, raise, pure, throw, get, modify, ◌>>=◌}
use aw_bot.Core.Events.{AgentEvent, approval_requested}
use aw_bot.Agent.Payload.{Builtins, key_error, get as field_of, str_of}
use aw_bot.Agent.Codex.Translator.{TranslatedCodexEvent, translate_codex_event}
use aw_bot.Agent.Codex.Translator.Answerable.{
  IsTranslation, IsAnswerable, translate_codex_event-IsTranslation,
}
use aw_bot.Agent.Codex.Router.{
  Request, Router, put_request, take_first, take_request, taken, asked_for, route, deliver,
  file_early, put_event, keep_request, handle_translated, handle_event, approval_decision,
  answer_approval, queue_of, route_id, early_id,
}
use aw_bot.Agent.Codex.Router.Requests.{IsDict, by_id, take_first-put, take_first-Lacks}

file_early-requests :
    (id : Option String) (event : AgentEvent) (r : Router)
    → (file_early id event r).requests ≡ r.requests
unfolding file_early
file_early-requests none event r = refl
file_early-requests (some id) event r = refl

route-requests : (t : TranslatedCodexEvent) (r : Router) → (route t r).requests ≡ r.requests
unfolding route
route-requests t r = delivered (queue_of r.queues (route_id r.thread_turns t))
  where
    put :
        (id : Option String) (queue : List AgentEvent)
        → (put_event id queue t.event r).requests ≡ r.requests
    put none queue = refl
    put (some id) queue = refl

    delivered : (queue : Option (List AgentEvent)) → (deliver t queue r).requests ≡ r.requests
    delivered none = file_early-requests (early_id t) t.event r
    delivered (some queue) = put (route_id r.thread_turns t) queue

-- The request that the router keeps, and its state then.
abbrev kept : (t : TranslatedCodexEvent) → Json → String → Fields → Request
kept t raw_id name params = record {
  raw_id = raw_id;
  method = name;
  params = params;
  turn_id = t.turn_id;
}

abbrev after_request : TranslatedCodexEvent → String → Request → Router → Router
after_request t id request r = route t (record r { requests = put_request id request r.requests })

handle_event-request :
    (python : Builtins) (raw : Fields) (t : TranslatedCodexEvent) (raw_id : Json) (r : Router)
    (known : IsTranslation python raw t)
    → translate_codex_event python raw ≡ return (some t)
    → t.request_id ≡ some raw_id
    → handle_event python raw r ≡ (
      return tt,
      after_request t (str_of python raw_id) (kept t raw_id known.name known.params) r,
    )
unfolding handle_event handle_translated keep_request ◌>>=◌ pure modify
handle_event-request python raw t raw_id r known translates id =
    rw (translates, id, known.reads_name, known.reads_params) refl

-- `answer_approval`, for a decision that Codex knows, by what the router finds.
answer_approval-found :
    (turn id decision codex_decision : String) (r : Router) (request : Request)
    (others : List (String × Request))
    → approval_decision decision ≡ return codex_decision
    → take_first (by_id turn id) r.requests ≡ some (request, others)
    → answer_approval turn id decision r
      ≡ (return (request.raw_id, codex_decision), record r { requests = others })
unfolding answer_approval take_request taken ◌>>=◌ pure modify get
answer_approval-found turn id decision codex_decision r request others known found =
    rw (known, found) refl

answer_approval-missing :
    (turn id decision codex_decision : String) (r : Router)
    → approval_decision decision ≡ return codex_decision
    → take_first (by_id turn id) r.requests ≡ none
    → answer_approval turn id decision r ≡ (raise (key_error (asked_for turn (some id) none)), r)
unfolding answer_approval take_request taken ◌>>=◌ pure throw get
answer_approval-missing turn id decision codex_decision r known found = rw (known, found) refl

-- What an answer to an approval does, in a state that the event left.
pub record IsAnsweredOnce (turn id decision codex_decision : String) (raw_id : Json) (r : Router)
    : Type 0 where
  pub left : Router
  pub answers : answer_approval turn id decision r ≡ (return (raw_id, codex_decision), left)
  pub keeps_queues : left.queues ≡ r.queues
  pub answers_no_more :
      answer_approval turn id decision left
      ≡ (raise (key_error (asked_for turn (some id) none)), left)

answered :
    (turn id decision codex_decision : String) (request : Request) (r : Router)
    (requests : List (String × Request))
    → approval_decision decision ≡ return codex_decision
    → request.turn_id ≡ some turn
    → IsDict requests
    → r.requests ≡ put_request id request requests
    → IsAnsweredOnce turn id decision codex_decision request.raw_id r
answered turn id decision codex_decision request r requests known of_turn dict keeps =
    let (others, found, lacks) = take_first-put turn id request requests of_turn dict in
    record {
      left = record r { requests = others };
      answers =
          answer_approval-found turn id decision codex_decision r request others known
            (rw keeps found);
      keeps_queues = refl;
      answers_no_more =
          answer_approval-missing turn id decision codex_decision (record r { requests = others })
            known (take_first-Lacks turn id others lacks);
    }

module _ (python : Builtins) where
  approval-id :
      (raw : Fields) (t : TranslatedCodexEvent) (id prompt : String) (payload : Fields)
      (known : IsTranslation python raw t)
      → t.event ≡ approval_requested id prompt payload
      → (raw_id : Json) × (t.request_id ≡ some raw_id) × (id ≡ str_of python raw_id)
  approval-id raw t id prompt payload known e =
      let (raw_id, has, named) =
        subst (IsAnswerable python known.method (field_of raw "id")) e known.answerable in
      (raw_id, known.keeps_id ∙ has, named)

  translated-IsTranslation :
      (raw : Fields) (t : TranslatedCodexEvent)
      → translate_codex_event python raw ≡ return (some t)
      → IsTranslation python raw t
  translated-IsTranslation raw t e =
      subst (OnReturn (Found (IsTranslation python raw))) e
        (translate_codex_event-IsTranslation python raw).holds

  answered_by :
      (raw : Fields) (t : TranslatedCodexEvent) (turn id decision codex_decision : String)
      (r : Router) (of_raw : IsTranslation python raw t) (raw_id : Json)
      → IsDict r.requests
      → translate_codex_event python raw ≡ return (some t)
      → t.request_id ≡ some raw_id
      → id ≡ str_of python raw_id
      → t.turn_id ≡ some turn
      → approval_decision decision ≡ return codex_decision
      → (raw_id : Json) × (r' : Router) × (t.request_id ≡ some raw_id)
        × (handle_event python raw r ≡ (return tt, r'))
        × IsAnsweredOnce turn id decision codex_decision raw_id r'
  answered_by raw t turn id decision codex_decision r of_raw raw_id dict translates has_id named
        of_turn known =
      let request = kept t raw_id of_raw.name of_raw.params in
      let r' = after_request t (str_of python raw_id) request r in
      (
        raw_id,
        r',
        has_id,
        handle_event-request python raw t raw_id r of_raw translates has_id,
        answered turn id decision codex_decision request r' r.requests known of_turn dict (
            subst (λ i. r'.requests ≡ put_request i request r.requests) (sym named)
              (route-requests t
                (record r { requests = put_request (str_of python raw_id) request r.requests }))),
      )

  -- If the router's requests have distinct keys and a message of the server is translated to a
  -- request for approval of a turn, then handling it succeeds, and a decision that Codex knows,
  -- given for the request's identifier and that turn, is sent with the identifier of the message,
  -- once: a second answer raises KeyError and changes nothing.
  pub handle_event-answer_approval :
      (raw : Fields) (t : TranslatedCodexEvent) (turn id prompt decision codex_decision : String)
      (payload : Fields) (r : Router)
      → IsDict r.requests
      → translate_codex_event python raw ≡ return (some t)
      → t.event ≡ approval_requested id prompt payload
      → t.turn_id ≡ some turn
      → approval_decision decision ≡ return codex_decision
      → (raw_id : Json) × (r' : Router) × (t.request_id ≡ some raw_id)
        × (handle_event python raw r ≡ (return tt, r'))
        × IsAnsweredOnce turn id decision codex_decision raw_id r'
  handle_event-answer_approval raw t turn id prompt decision codex_decision payload r dict
        translates event of_turn known =
      let of_raw = translated-IsTranslation raw t translates in
      let (raw_id, has_id, named) = approval-id raw t id prompt payload of_raw event in
      answered_by raw t turn id decision codex_decision r of_raw raw_id dict translates has_id named
        of_turn known
