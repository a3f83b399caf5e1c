-- ===== src/Core/Controller/Trace/Draining.antt =====
-- A chat with queued messages comes to rest once its agent turns end.
use aw_bot.Prelude.{
  ℕ, ◌<◌, String, Bool, true, false, none, some, List, [], ◌∷◌, All, length, ◌≡◌, refl, sym, ap,
  ◌∙◌, subst, Bool-cases, Option-cases, inl, inr, arith, if◌then◌else◌,
}
use aw_bot.Prelude.Action.{throw, get, ◌>>=◌}
use aw_bot.Core.Types.{AgentSession, is_terminal}
use aw_bot.Core.Events.{
  AgentEvent, run_completed, run_failed, run_interrupted, run_timed_out, text_delta, thinking_delta,
  tool_started, tool_finished, user_input_requested, approval_requested, usage_updated,
}
use aw_bot.Core.RunView.{RunView, reduce_run_view}
use aw_bot.Core.Queue.{pop_next_merged_prompt}
use aw_bot.Core.Queue.Merge.{pop_next_merged_prompt-shrinks}
use aw_bot.Core.Controller.State.{Env, ActiveRun, Controller, active_run_of, or_raise}
use aw_bot.Core.Controller.Consume.{consume_event, effective_event, merge_window}
use aw_bot.Core.Controller.Trace.{Known, known, quiet, Runs-at}
use aw_bot.Core.Controller.Trace.Stop.{consume_event-ends}
use aw_bot.Core.Controller.Trace.NextTurn.{consume_event-Runs-next}

-- The events that end an agent turn.
abbrev pub IsLast : AgentEvent → Type 0
IsLast run_completed = Unit
IsLast (run_failed error) = Unit
IsLast run_interrupted = Unit
IsLast run_timed_out = Unit
IsLast event = ⊥

-- What the loop does for one event after another of the chat's turns.
unfoldable pub consume_all : Env → String → List AgentEvent → Controller → Controller
consume_all env scope [] s = s
consume_all env scope (event ∷ rest) s =
    consume_all env scope rest (consume_event env scope event s).1

reduce-terminal :
    (view : RunView) (event : AgentEvent)
    → IsLast event
    → is_terminal (reduce_run_view view event).status ≡ true
unfolding reduce_run_view is_terminal
reduce-terminal view run_completed last = refl
reduce-terminal view (run_failed error) last = refl
reduce-terminal view run_interrupted last = refl
reduce-terminal view run_timed_out last = refl
reduce-terminal view (text_delta text) last = elim last [ ]
reduce-terminal view (thinking_delta text) last = elim last [ ]
reduce-terminal view (tool_started id name input) last = elim last [ ]
reduce-terminal view (tool_finished id output is_error) last = elim last [ ]
reduce-terminal view (user_input_requested id prompt payload) last = elim last [ ]
reduce-terminal view (approval_requested id prompt payload) last = elim last [ ]
reduce-terminal view (usage_updated input output) last = elim last [ ]

effective-terminal :
    (a : ActiveRun) (event : AgentEvent)
    → IsLast event
    → is_terminal (reduce_run_view a.run_view (effective_event a event)).status ≡ true
effective-terminal a event last = elim (Bool-cases a.stop_requested) [
  | inl stopping ↦ on true stopping (reduce-terminal a.run_view run_interrupted tt)
  | inr going ↦ on false going (reduce-terminal a.run_view event last)
]
  where
    on :
        (b : Bool)
        → a.stop_requested ≡ b
        → is_terminal (reduce_run_view a.run_view (if b then run_interrupted else event)).status
          ≡ true
        → is_terminal (reduce_run_view a.run_view (effective_event a event)).status ≡ true
    on b e h =
        subst
          (λ b.
            is_terminal (reduce_run_view a.run_view (if b then run_interrupted else event)).status
            ≡ true)
          (sym e) h

none_below : (n : ℕ) → n < 0 → ⊥
none_below n h = omega arith

module _ (e : Env) (scope : String) where
  -- Without an active run an event changes nothing.
  consume_event-idle :
      (event : AgentEvent) (s : Controller)
      → s.active_runs scope ≡ none
      → (consume_event (quiet e) scope event s).1 ≡ s
  unfolding consume_event active_run_of or_raise ◌>>=◌ get throw
  consume_event-idle event s idle = rw idle refl

  consume_all-idle :
      (events : List AgentEvent) (s : Controller)
      → s.active_runs scope ≡ none
      → (consume_all (quiet e) scope events s).active_runs scope ≡ none
  unfolding consume_all
  consume_all-idle [] s idle = idle
  consume_all-idle (event ∷ rest) s idle =
      subst (λ t. (consume_all (quiet e) scope rest t).active_runs scope ≡ none)
        (sym (consume_event-idle event s idle)) (consume_all-idle rest s idle)

  -- If no port raises, then in a chat with an active run that has not timed out, whose session is
  -- selected, more events that end a turn than messages are queued leave no active run: each queued
  -- message is used up by one of the turns, and the chat takes new messages again.
  pub consume_all-drains :
      (events : List AgentEvent) (s : Controller) (a : ActiveRun) (session : AgentSession)
      → s.active_runs scope ≡ some a
      → s.fresh_session_scope_ids scope ≡ false
      → s.selected_sessions scope ≡ some session
      → a.timed_out ≡ false
      → a.completion_future ≡ none
      → All IsLast events
      → length a.queued_messages < length events
      → (consume_all (quiet e) scope events s).active_runs scope ≡ none
  unfolding consume_all
  consume_all-drains [] s a session stored old selected live unset last enough =
      elim (none_below (length a.queued_messages) enough) [ ]
  consume_all-drains (event ∷ rest) s a session stored old selected live unset last enough =
      elim (Option-cases (pop_next_merged_prompt a.queued_messages merge_window)) [
        | inl emptied ↦
            consume_all-idle rest (consume_event (quiet e) scope event s).1
              (consume_event-ends e scope s a event stored live unset
                ((pop_next_merged_prompt-shrinks merge_window a.queued_messages).1 emptied)
                (effective-terminal a event last.0)).1.0
        | inr (merged, popped) ↦
            let r =
              Runs-at scope (known scope s) (consume_event (quiet e) scope event) _ _
                (consume_event-Runs-next e scope event session merged stored old selected live
                  (effective-terminal a event last.0) popped)
                s refl in
            let fewer =
              (pop_next_merged_prompt-shrinks merge_window a.queued_messages).0 merged popped in
            consume_all-drains rest (consume_event (quiet e) scope event s).1 _ session
              (ap (λ (k : Known). k.active) r.1) (ap (λ (k : Known). k.fresh) r.1 ∙ old)
              (ap (λ (k : Known). k.selected) r.1 ∙ selected) live unset last.1
              (omega (arith, fewer, enough))
      ]
