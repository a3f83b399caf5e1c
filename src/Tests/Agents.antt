-- ===== src/Tests/Agents.antt =====
-- Theorems on the agents' events at concrete inputs.
use aw_bot.Prelude.{String, true, Option, none, some, List, [], ◌∷◌, ◌≡◌, refl, false}
use aw_bot.Prelude.Json.{Json, str, arr, obj, Items, nil, cons, Fields, end, field}
use aw_bot.Prelude.Action.{return}
use aw_bot.Prelude.Fallible.{Returns, Found}
use aw_bot.Core.Events.{AgentEvent, text_delta, thinking_delta, run_failed, approval_requested}
use aw_bot.Agent.Payload.{Builtins, lookup, not_none, set_field}
use aw_bot.Agent.Codex.Translator.{TranslatedCodexEvent, translate_codex_event}
use aw_bot.Agent.Codex.Translator.RoundTrip.{
  encode, as_sent, IsEncodable, translate_codex_event-encode,
}
use aw_bot.Agent.Codex.Router.{Router, new_router, handle_event, approval_decision}
use aw_bot.Agent.Codex.Router.Answers.{IsAnsweredOnce, handle_event-answer_approval}
use aw_bot.Agent.OpenCode.Parts.{
  PartKey, no_parts, or_empty, properties_of, delta_of, remember_delta, remember_part_delta,
  update_in, delta_from, update_part, with_delta, with_update, with_part_update_delta,
}
use aw_bot.Agent.OpenCode.Parts.Texts.{note_part, note_parts, sent_for, sent_by, note_parts-text}
use Prim.Native.String
use aw_bot.Agent.OpenCode.Turn.{joined_part_text, part_texts, concat, assistant_message_for_turn}
use aw_bot.Agent.OpenCode.Turn.Whole.{HasMessage, ArePassing, YieldsWhole, events_of-YieldsWhole}
use aw_bot.Core.RunView.Fold.{streamed_text, streamed_thinking}
use aw_bot.Prelude.Text.{after_prefix}
use aw_bot.Agent.OpenCode.Translator.{or_inside, translate_opencode_event}
use aw_bot.Agent.OpenCode.Translator.Sent.{IsSent, translate_opencode_event-SendsSent}

abbrev python : Builtins
python = record { to_str = λ v. "?"; dumps = λ v. "{}"; float_truth = λ literal. true }

translate_codex_event-encode_example :
    translate_codex_event python (encode "thread" "turn" (run_failed "no disk"))
    ≡ return (some (as_sent "thread" "turn" (run_failed "no disk")))
translate_codex_event-encode_example =
    translate_codex_event-encode python "thread" "turn" (run_failed "no disk") tt

abbrev idle : Fields
idle =
    field "type" (str "session.idle")
      (field "properties" (obj (field "sessionID" (str "s1") end)) end)

translate_opencode_event-SendsSent_example :
    Returns (Found (λ t. IsSent t.event)) (translate_opencode_event idle)
translate_opencode_event-SendsSent_example = translate_opencode_event-SendsSent idle

abbrev params : Fields
params =
    field "threadId" (str "thread")
      (field "turnId" (str "turn") (field "reason" (str "run it?") end))

abbrev approval : AgentEvent
approval = approval_requested "7" "run it?" params

approval-IsEncodable : IsEncodable "thread" "turn" approval
unfolding lookup
approval-IsEncodable = (refl, refl, refl, refl)

allow-accepts : approval_decision "allow" ≡ return "accept"
unfolding approval_decision
allow-accepts = refl

handle_event-answer_approval_example :
    (raw_id : Json) × (r' : Router) × (some (str "7") ≡ some raw_id)
    × (handle_event python (encode "thread" "turn" approval) new_router ≡ (return tt, r'))
    × IsAnsweredOnce "turn" "7" "allow" "accept" raw_id r'
handle_event-answer_approval_example =
    handle_event-answer_approval python (encode "thread" "turn" approval)
      (as_sent "thread" "turn" approval) "turn" "7" "run it?" "allow" "accept" params new_router tt
      (translate_codex_event-encode python "thread" "turn" approval approval-IsEncodable) refl refl
      allow-accepts

abbrev text_event : Option String → Option String → String → TranslatedCodexEvent
text_event turn thread text = record {
  turn_id = turn;
  thread_id = thread;
  event = text_delta text;
  request_id = none;
}

abbrev early : List TranslatedCodexEvent
early = text_event none (some "thread") "b" ∷ text_event (some "turn") (some "thread") "a" ∷ []

abbrev late : List TranslatedCodexEvent
late = text_event none (some "thread") "c" ∷ text_event (some "other") none "x" ∷ []

abbrev part_of : String → String → Json
part_of type text = obj (field "type" (str type) (field "text" (str text) end))

abbrev parts : Items
parts =
    cons (part_of "reasoning" "so") (cons (part_of "text" "hello") (cons (part_of "text" "!") nil))

abbrev message_of : String → String → Fields
message_of role parent =
    field "info" (obj (field "role" (str role) (field "parentID" (str parent) end)))
      (field "parts" (arr parts) end)

abbrev messages : Items
messages =
    cons (obj (message_of "assistant" "t0"))
      (cons (obj (message_of "user" "")) (cons (obj (message_of "assistant" "t1")) nil))

abbrev streamed : List AgentEvent
streamed = thinking_delta "so" ∷ text_delta "he" ∷ text_delta "l" ∷ []

messages-HasMessage : HasMessage messages "t1" streamed "so" "hello!"
unfolding lookup not_none part_texts concat joined_part_text assistant_message_for_turn
    streamed_text streamed_thinking after_prefix
messages-HasMessage = record {
  message = message_of "assistant" "t1";
  parts = parts;
  found = refl;
  its_parts = refl;
  its_thinking = refl;
  its_text = refl;
  thinking_rest = "";
  extends_thinking = refl;
  text_rest = "lo!";
  extends_text = refl;
}

streamed-ArePassing : ArePassing streamed
unfolding ArePassing
streamed-ArePassing = (tt, (tt, (tt, tt)))

events_of-YieldsWhole_example : YieldsWhole messages "t1" streamed "so" "hello!"
events_of-YieldsWhole_example =
    events_of-YieldsWhole messages "t1" streamed "so" "hello!" messages-HasMessage
      streamed-ArePassing

abbrev delta_event_of : String → Fields
delta_event_of text = field "type" (str "message.part.delta") (
    field "properties"
      (obj (
        field "sessionID" (str "s1") (
          field "messageID" (str "m1") (field "partID" (str "p1") (field "delta" (str text) end)))))
      end)

abbrev update_event_of : String → Fields
update_event_of text = field "type" (str "message.part.updated") (
    field "properties"
      (obj (
        field "sessionID" (str "s1") (
          field "part"
            (obj
              (field "messageID" (str "m1") (field "id" (str "p1") (field "text" (str text) end))))
            end)))
      end)

abbrev part_p1 : PartKey
part_p1 = ("s1", "m1", "p1")

abbrev part_events : List Fields
part_events = delta_event_of "he" ∷ update_event_of "hello" ∷ delta_event_of "!" ∷ []

part_p1-clear : (note_parts part_events no_parts).part_conflicts part_p1 ≡ false
unfolding lookup not_none set_field or_inside properties_of delta_of remember_delta
    remember_part_delta update_in delta_from update_part with_delta with_update
    with_part_update_delta note_part note_parts after_prefix
part_p1-clear = refl

update-sends_rest :
    sent_for part_p1 (update_event_of "hello") (note_part (delta_event_of "he") no_parts).1 ≡ "llo"
unfolding lookup not_none set_field or_inside properties_of delta_of remember_delta
    remember_part_delta update_in delta_from update_part with_delta with_update
    with_part_update_delta note_part note_parts after_prefix sent_for
update-sends_rest = refl

note_parts-text_example :
    (no_parts.part_conflicts part_p1 ≡ false)
    × ((or_empty ((note_parts part_events no_parts).part_texts part_p1))
        ≡ String.◌++◌ "" (sent_by part_p1 part_events no_parts))
note_parts-text_example = note_parts-text part_p1 part_events no_parts part_p1-clear
