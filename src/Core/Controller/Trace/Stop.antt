-- ===== src/Core/Controller/Trace/Stop.antt =====
-- What stopping, a final event, a timeout and a broken stream do to the run of one chat, and which
-- requests are refused.
use aw_bot.Prelude.{
  ℕ, String, true, false, Option, none, some, List, [], ◌∷◌, ◌≡◌, refl, ap, if◌then◌else◌,
}
use Prim.Native.String
use aw_bot.Prelude.Action.{return, raise, pure, ◌>>=◌}
use aw_bot.Core.Types.{RunStatus, interrupted, is_terminal, Attachment}
use aw_bot.Core.Events.{AgentEvent, run_interrupted}
use aw_bot.Core.RunView.{PendingRequestView, reduce_run_view}
use aw_bot.Core.Controller.State.{
  Env, ActiveRun, Controller, M, Call, runtime_error, record_run_event, record_run_terminal_status,
  publish, stream_stop, set_result,
}
use aw_bot.Core.Controller.Consume.{consume_event, effective_event}
use aw_bot.Core.Controller.Handlers.{
  stop_run, queue_message, answer_user_input, answer_approval, require_active_run, owned_or_raise,
  owned_by, no_active_run,
}
use aw_bot.Core.Controller.Machine.{
  Stimulus, stop, queue, answer_input, answer_request, handle, nothing_of,
}
use aw_bot.Core.Controller.Trace.{known, quiet, cancelled_before, Runs-at}
use aw_bot.Core.Controller.Trace.Ending.{
  ended, closed_before, stop_run-Runs-pending, consume_event-Runs-terminal,
}

-- The calls that the end of a run makes last: its terminal status, its timer, its future.
abbrev pub closing_calls : Env → ℕ → ActiveRun → RunStatus → List Call → List Call
closing_calls e reads a status calls =
    set_result (ended e reads a status)
    ∷ cancelled_before a.idle_timeout_handle
        (record_run_terminal_status a.run.run_id status (e.isoformat (e.clock reads)) ∷ calls)

module _ (e : Env) (scope : String) (s : Controller) where
  -- If no port raises, /stop of a run that waits for an answer, whose coroutine has returned,
  -- ends it as interrupted and forgets it. The calls are the stop of the turn, the publication, the
  -- terminal status, the timer's cancellation and the result: the pending request is not closed.
  pub stop_run-pending :
      (a : ActiveRun) (p : PendingRequestView)
      → s.active_runs scope ≡ some a
      → a.run_view.pending ≡ some p
      → a.completion_future ≡ none
      → let r = stop_run (quiet e) scope a.user_id s in
        (r.0 ≡ return (some (ended e s.clock_reads a interrupted)))
        × ((r.1.active_runs scope ≡ none)
            × (r.1.calls
                ≡ closing_calls e s.clock_reads a interrupted (
                    publish scope (reduce_run_view a.run_view run_interrupted)
                    ∷ stream_stop a.turn_stream
                    ∷ s.calls)))
  unfolding reduce_run_view
  stop_run-pending a p stored pending unset =
      let r =
        Runs-at scope (known scope s) (stop_run (quiet e) scope a.user_id) _ _
          (stop_run-Runs-pending e scope p stored pending unset) s refl in
      (r.0, (ap (λ k. k.active) r.1, ap (λ k. k.calls) r.1))

  -- If no port raises, an event that ends a run without queued messages, and no timeout before it,
  -- gives the run with the status of its view, and forgets it. The event is recorded, the view
  -- published, the timer cancelled, the status recorded and the result set, once each, in this
  -- order. A run that was asked to stop takes any event as the end by interruption.
  pub consume_event-ends :
      (a : ActiveRun) (event : AgentEvent)
      → s.active_runs scope ≡ some a
      → a.timed_out ≡ false
      → a.completion_future ≡ none
      → a.queued_messages ≡ []
      → is_terminal (reduce_run_view a.run_view (effective_event a event)).status ≡ true
      → let r = consume_event (quiet e) scope event s in
        let view = reduce_run_view a.run_view (effective_event a event) in
        (r.0 ≡ return (some (ended e s.clock_reads a view.status)))
        × ((r.1.active_runs scope ≡ none)
            × (r.1.calls
                ≡ closing_calls e s.clock_reads
                    (record a { idle_timeout_handle = none })
                    view.status
                    (closed_before view.pending (
                      cancelled_before a.idle_timeout_handle (
                        publish scope view
                        ∷ record_run_event a.run.run_id (effective_event a event)
                        ∷ s.calls)))))
  consume_event-ends a event stored live unset idle done =
      let r =
        Runs-at scope (known scope s) (consume_event (quiet e) scope event) _ _
          (consume_event-Runs-terminal e scope event stored live unset idle done) s refl in
      (r.0, (ap (λ k. k.active) r.1, ap (λ k. k.calls) r.1))

-- The requests that a user makes about the active run of a chat.
pub data Asks (user : String) : Stimulus → Type 0 where
  asks_stop : Asks user (stop user)
  asks_queue :
      (text : String) (model opencode_agent : Option String) (attachments : List Attachment)
      → Asks user (queue user text model opencode_agent attachments)
  asks_input : (text : String) → Asks user (answer_input user text)
  asks_answer : (id decision : String) → Asks user (answer_request user id decision)

owned_or_raise-refused :
    (scope user : String) (o : Option ActiveRun)
    → owned_by user o ≡ false
    → owned_or_raise scope user o ≡ no_active_run scope
unfolding owned_or_raise owned_by
owned_or_raise-refused scope user none other = refl
owned_or_raise-refused scope user (some a) other =
    ap (λ b. if b then pure a else no_active_run scope) other

module _ (e : Env) (scope : String) (s : Controller) where
  -- What raising for a missing or another user's run gives.
  abbrev pub Refused : {A : Type 0} → M A → Type 0
  Refused m = m s ≡ (
    raise (runtime_error (String.◌++◌ "scope does not have an active run for user: " scope)),
    s,
  )

  require_active_run-bind :
      {A : Type 0} (user : String) (f : ActiveRun → M A)
      → owned_by user (s.active_runs scope) ≡ false
      → Refused (require_active_run scope user >>= f)
  unfolding require_active_run no_active_run ◌>>=◌
  require_active_run-bind user f other =
      rw (owned_or_raise-refused scope user (s.active_runs scope) other) refl

  Refused-nothing_of : {A : Type 0} (m : M A) → Refused m → Refused (nothing_of e m)
  unfolding nothing_of ◌>>=◌
  Refused-nothing_of m refused = rw refused refl

  -- Whatever the ports do, a request to stop, to queue a message or to answer, from a user who does
  -- not own the chat's active run, or where there is none, raises and changes nothing.
  pub handle-refuses :
      {stimulus : Stimulus} (user : String)
      → Asks user stimulus
      → owned_by user (s.active_runs scope) ≡ false
      → Refused (handle e scope stimulus)
  unfolding handle stop_run queue_message answer_user_input answer_approval
  handle-refuses user asks_stop other = require_active_run-bind user _ other
  handle-refuses user (asks_queue text model agent attachments) other =
      Refused-nothing_of _ (require_active_run-bind user _ other)
  handle-refuses user (asks_input text) other = require_active_run-bind user _ other
  handle-refuses user (asks_answer id decision) other = require_active_run-bind user _ other
