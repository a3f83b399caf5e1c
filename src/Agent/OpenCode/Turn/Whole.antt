-- ===== src/Agent/OpenCode/Turn/Whole.antt =====
-- The text of a turn that completes: what the loop of OpenCodeTurnStream in
-- agent/opencode_server.py has yielded by then, against the server's copy of the message.
use Prim.Native.String
use text.Mathlib.TextLemmas.{nil-append}
use aw_bot.Prelude.{
  String, true, false, some, Bool-cases, inl, inr, List, [], ◌∷◌, ◌++◌, ◌≡◌, refl, sym, ap, ◌∙◌,
  append_assoc,
}
use aw_bot.Prelude.Json.{arr, Items, Fields}
use aw_bot.Prelude.Action.{return, raise}
use aw_bot.Prelude.Fallible.{◌>>=◌}
use aw_bot.Prelude.Text.Prefixes.{append-after_prefix}
use aw_bot.Prelude.Text.{after_prefix}
use aw_bot.Core.Events.{
  AgentEvent, text_delta, thinking_delta, run_completed, run_failed, run_interrupted, run_timed_out,
}
use aw_bot.Core.RunView.Fold.{streamed_text, streamed_thinking}
use aw_bot.Agent.Payload.{Checked, get}
use aw_bot.Agent.OpenCode.Turn.{
  TurnStream, new_stream, remember_emitted, remember_all, joined_part_text,
  assistant_message_for_turn, snapshot_of, assistant_snapshot_events, completed_with, Yielded,
  next_events, events_of,
}
use aw_bot.Agent.OpenCode.Turn.Rests.{
  text-remember_all, thinking-remember_all, streamed_text-append, streamed_thinking-append,
  rest_event-found, rests, streamed_text-rests, streamed_thinking-rests,
}

-- The server has the assistant's message of a turn, with its thinking and text, which extend what
-- has been streamed by the rests.
pub record HasMessage (messages : Items) (turn : String) (streamed : List AgentEvent)
    (thinking text : String) : Type 0 where
  pub message : Fields
  pub parts : Items
  pub found : assistant_message_for_turn messages turn ≡ return (some message)
  pub its_parts : get message "parts" ≡ some (arr parts)
  pub its_thinking : joined_part_text parts "reasoning" ≡ return (some thinking)
  pub its_text : joined_part_text parts "text" ≡ return (some text)
  pub thinking_rest : String
  pub extends_thinking : after_prefix (streamed_thinking streamed) thinking ≡ some thinking_rest
  pub text_rest : String
  pub extends_text : after_prefix (streamed_text streamed) text ≡ some text_rest

assistant_snapshot_events-rests :
    (messages : Items) (turn : String) (streamed : List AgentEvent) (thinking text : String)
    (h : HasMessage messages turn streamed thinking text) (s : TurnStream)
    → s.thinking ≡ streamed_thinking streamed
    → s.text ≡ streamed_text streamed
    → assistant_snapshot_events messages turn s ≡ return (rests h.thinking_rest h.text_rest, true)
unfolding assistant_snapshot_events snapshot_of
assistant_snapshot_events-rests messages turn streamed thinking text h s same_thinking same_text =
    let thinking_found =
      rest_event-found thinking_delta (streamed_thinking streamed) thinking h.thinking_rest
        h.extends_thinking in
    let text_found =
      rest_event-found text_delta (streamed_text streamed) text h.text_rest h.extends_text in
    rw
      (
        h.found, h.its_parts, h.its_thinking, h.its_text, same_thinking, same_text, thinking_found,
        text_found,
      )
      refl

-- The events that do not end a turn.
abbrev pub IsPassing : AgentEvent → Type 0
IsPassing run_completed = ⊥
IsPassing (run_failed error) = ⊥
IsPassing run_interrupted = ⊥
IsPassing run_timed_out = ⊥
IsPassing event = Unit

unfoldable pub ArePassing : List AgentEvent → Type 0
ArePassing [] = Unit
ArePassing (event ∷ rest) = IsPassing event × ArePassing rest

next_events-passing :
    (messages : Items) (turn : String) (event : AgentEvent) (s : TurnStream)
    → IsPassing event
    → next_events messages turn event s ≡ return (event ∷ [], remember_emitted event s, false)
unfolding next_events
next_events-passing messages turn run_completed s h = elim h [ ]
next_events-passing messages turn (run_failed error) s h = elim h [ ]
next_events-passing messages turn run_interrupted s h = elim h [ ]
next_events-passing messages turn run_timed_out s h = elim h [ ]
next_events-passing messages turn event s h = refl

abbrev after_all : List AgentEvent → Checked Yielded → Checked Yielded
after_all events m = do (more, after, over) ← m; return (events ++ more, after, over)

after_all-nil : (m : Checked Yielded) → m ≡ after_all [] m
after_all-nil (return (events, s, over)) = refl
after_all-nil (raise e) = refl

after_all-cons :
    (event : AgentEvent) (events : List AgentEvent) (m : Checked Yielded)
    → after_all (event ∷ []) (after_all events m) ≡ after_all (event ∷ events) m
after_all-cons event events (return (more, s, over)) = refl
after_all-cons event events (raise e) = refl

events_of-passing :
    (messages : Items) (turn : String) (events rest : List AgentEvent) (s : TurnStream)
    → ArePassing events
    → events_of messages turn (events ++ rest) s
      ≡ after_all events (events_of messages turn rest (remember_all events s))
unfolding events_of remember_all ArePassing
events_of-passing messages turn [] rest s h = after_all-nil (events_of messages turn rest s)
events_of-passing messages turn (event ∷ events) rest s (h, hs) =
    let rest_after = events_of-passing messages turn events rest (remember_emitted event s) hs in
    rw (next_events-passing messages turn event s h) (
      ap (after_all (event ∷ [])) rest_after
      ∙ after_all-cons event events
          (events_of messages turn rest (remember_all events (remember_emitted event s))))

-- What a turn that completes has yielded: the server's texts, and run_completed as its last event.
pub record YieldsWhole (messages : Items) (turn : String) (streamed : List AgentEvent)
    (thinking text : String) : Type 0 where
  pub yielded : List AgentEvent
  pub after : TurnStream
  pub is_over :
      events_of messages turn (streamed ++ run_completed ∷ []) new_stream
      ≡ return (yielded ++ run_completed ∷ [], after, true)
  pub all_thinking : streamed_thinking yielded ≡ thinking
  pub all_text : streamed_text yielded ≡ text

completed_with-seen :
    (s : TurnStream) (events : List AgentEvent)
    → completed_with s (events, true) ≡ (events ++ run_completed ∷ [], remember_all events s, true)
completed_with-seen s events = elim (Bool-cases (remember_all events s).saw_activity) [
  | inl e ↦ rw (e) refl
  | inr e ↦ rw (e) refl
]

next_events-rests :
    (messages : Items) (turn : String) (streamed : List AgentEvent) (thinking text : String)
    (h : HasMessage messages turn streamed thinking text) (s : TurnStream)
    → s.thinking ≡ streamed_thinking streamed
    → s.text ≡ streamed_text streamed
    → (after : TurnStream) × (next_events messages turn run_completed s
        ≡ return (rests h.thinking_rest h.text_rest ++ run_completed ∷ [], after, true))
unfolding next_events
next_events-rests messages turn streamed thinking text h s same_thinking same_text = (
  remember_all (rests h.thinking_rest h.text_rest) s,
  rw
      (assistant_snapshot_events-rests messages turn streamed thinking text h s same_thinking
        same_text)
      (ap return (completed_with-seen s (rests h.thinking_rest h.text_rest))),
)

events_of-last :
    (messages : Items) (turn : String) (s : TurnStream) (events : List AgentEvent)
    (after : TurnStream)
    → next_events messages turn run_completed s ≡ return (events, after, true)
    → events_of messages turn (run_completed ∷ []) s ≡ return (events, after, true)
unfolding events_of
events_of-last messages turn s events after e = rw (e) refl

-- If the server has the assistant's message of a turn, whose thinking and text extend what the
-- queue brought, and the queue brings events that do not end the turn and then run_completed, then
-- the stream is over, its last event is run_completed, and the events before it add up to exactly
-- the thinking and the text of the server's message.
pub events_of-YieldsWhole :
    (messages : Items) (turn : String) (streamed : List AgentEvent) (thinking text : String)
    → HasMessage messages turn streamed thinking text
    → ArePassing streamed
    → YieldsWhole messages turn streamed thinking text
events_of-YieldsWhole messages turn streamed thinking text h passing =
    let s = remember_all streamed new_stream in
    let events = rests h.thinking_rest h.text_rest in
    let same_thinking =
      thinking-remember_all streamed new_stream ∙ nil-append (streamed_thinking streamed) in
    let same_text = text-remember_all streamed new_stream ∙ nil-append (streamed_text streamed) in
    let (after, completed) =
      next_events-rests messages turn streamed thinking text h s same_thinking same_text in
    record {
      yielded = streamed ++ events;
      after = after;
      is_over =
          events_of-passing messages turn streamed (run_completed ∷ []) new_stream passing
          ∙ ap (after_all streamed)
              (events_of-last messages turn s (events ++ run_completed ∷ []) after completed)
          ∙ ap (λ all. return (all, after, true))
              (sym (append_assoc streamed events (run_completed ∷ [])));
      all_thinking =
          streamed_thinking-append streamed events
          ∙ ap (String.◌++◌ (streamed_thinking streamed))
              (streamed_thinking-rests h.thinking_rest h.text_rest)
          ∙ append-after_prefix (streamed_thinking streamed) thinking h.thinking_rest
              h.extends_thinking;
      all_text =
          streamed_text-append streamed events
          ∙ ap (String.◌++◌ (streamed_text streamed))
              (streamed_text-rests h.thinking_rest h.text_rest)
          ∙ append-after_prefix (streamed_text streamed) text h.text_rest h.extends_text;
    }
