-- ===== src/Agent/OpenCode/Turn/Rests.antt =====
-- The texts that events of an OpenCode turn carry: what OpenCodeTurnStream in
-- agent/opencode_server.py remembers, and the rests of a snapshot.
use Prim.Native.String
use text.Mathlib.TextLemmas.{
  append_assoc as text_append_assoc, append-nil as text_append-nil, nil-append,
}
use aw_bot.Prelude.{String, some, List, [], ◌∷◌, ◌++◌, ◌≡◌, refl, sym, ap, ◌∙◌, if◌then◌else◌}
use aw_bot.Prelude.Text.{truthy, after_prefix}
use aw_bot.Core.Events.{AgentEvent, text_delta, thinking_delta}
use aw_bot.Core.RunView.Fold.{streamed_text, streamed_thinking}
use aw_bot.Agent.OpenCode.Turn.{
  TurnStream, remember_emitted, remember_all, remaining_suffix, rest_event,
}

pub text-remember_all :
    (events : List AgentEvent) (s : TurnStream)
    → (remember_all events s).text ≡ String.◌++◌ s.text (streamed_text events)
unfolding remember_all remember_emitted streamed_text
text-remember_all [] s = sym (text_append-nil s.text)
text-remember_all (text_delta text ∷ events) s =
    text-remember_all events (remember_emitted (text_delta text) s)
    ∙ text_append_assoc s.text text (streamed_text events)
text-remember_all (event ∷ events) s = text-remember_all events (remember_emitted event s)

pub thinking-remember_all :
    (events : List AgentEvent) (s : TurnStream)
    → (remember_all events s).thinking ≡ String.◌++◌ s.thinking (streamed_thinking events)
unfolding remember_all remember_emitted streamed_thinking
thinking-remember_all [] s = sym (text_append-nil s.thinking)
thinking-remember_all (thinking_delta text ∷ events) s =
    thinking-remember_all events (remember_emitted (thinking_delta text) s)
    ∙ text_append_assoc s.thinking text (streamed_thinking events)
thinking-remember_all (event ∷ events) s = thinking-remember_all events (remember_emitted event s)

pub streamed_text-append :
    (xs ys : List AgentEvent)
    → streamed_text (xs ++ ys) ≡ String.◌++◌ (streamed_text xs) (streamed_text ys)
unfolding streamed_text
streamed_text-append [] ys = sym (nil-append (streamed_text ys))
streamed_text-append (text_delta text ∷ xs) ys =
    ap (String.◌++◌ text) (streamed_text-append xs ys)
    ∙ sym (text_append_assoc text (streamed_text xs) (streamed_text ys))
streamed_text-append (event ∷ xs) ys = streamed_text-append xs ys

pub streamed_thinking-append :
    (xs ys : List AgentEvent)
    → streamed_thinking (xs ++ ys) ≡ String.◌++◌ (streamed_thinking xs) (streamed_thinking ys)
unfolding streamed_thinking
streamed_thinking-append [] ys = sym (nil-append (streamed_thinking ys))
streamed_thinking-append (thinking_delta text ∷ xs) ys =
    ap (String.◌++◌ text) (streamed_thinking-append xs ys)
    ∙ sym (text_append_assoc text (streamed_thinking xs) (streamed_thinking ys))
streamed_thinking-append (event ∷ xs) ys = streamed_thinking-append xs ys

-- The event for a rest, if there is one.
abbrev event_for : (String → AgentEvent) → String → List AgentEvent
event_for make rest = if truthy rest then make rest ∷ [] else []

text-event_for : (rest : String) → streamed_text (event_for text_delta rest) ≡ rest
unfolding streamed_text
text-event_for String.[] = refl
text-event_for (String.◌∷◌ c rest) = text_append-nil (String.◌∷◌ c rest)

text-event_for_thinking : (rest : String) → streamed_text (event_for thinking_delta rest) ≡ ""
unfolding streamed_text
text-event_for_thinking String.[] = refl
text-event_for_thinking (String.◌∷◌ c rest) = refl

thinking-event_for : (rest : String) → streamed_thinking (event_for thinking_delta rest) ≡ rest
unfolding streamed_thinking
thinking-event_for String.[] = refl
thinking-event_for (String.◌∷◌ c rest) = text_append-nil (String.◌∷◌ c rest)

thinking-event_for_text : (rest : String) → streamed_thinking (event_for text_delta rest) ≡ ""
unfolding streamed_thinking
thinking-event_for_text String.[] = refl
thinking-event_for_text (String.◌∷◌ c rest) = refl

pub rest_event-found :
    (make : String → AgentEvent) (current snapshot rest : String)
    → after_prefix current snapshot ≡ some rest
    → rest_event make current (some snapshot) ≡ event_for make rest
unfolding rest_event remaining_suffix
rest_event-found make current snapshot rest e = rw (e) refl

-- The events for the rests of both texts.
abbrev pub rests : String → String → List AgentEvent
rests thinking text = event_for thinking_delta thinking ++ event_for text_delta text

pub streamed_text-rests : (thinking text : String) → streamed_text (rests thinking text) ≡ text
streamed_text-rests thinking text =
    streamed_text-append (event_for thinking_delta thinking) (event_for text_delta text)
    ∙ ap (λ first. String.◌++◌ first (streamed_text (event_for text_delta text)))
        (text-event_for_thinking thinking)
    ∙ nil-append _
    ∙ text-event_for text

pub streamed_thinking-rests :
    (thinking text : String) → streamed_thinking (rests thinking text) ≡ thinking
streamed_thinking-rests thinking text =
    streamed_thinking-append (event_for thinking_delta thinking) (event_for text_delta text)
    ∙ ap (String.◌++◌ (streamed_thinking (event_for thinking_delta thinking)))
        (thinking-event_for_text text)
    ∙ text_append-nil _
    ∙ thinking-event_for thinking
