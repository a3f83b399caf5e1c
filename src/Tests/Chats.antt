-- ===== src/Tests/Chats.antt =====
-- The controller at a chat whose run waits for its agent or for its user.
use aw_bot.Prelude.{String, none, some, List, [], ◌∷◌, ◌≡◌, refl}
use Prim.Native.String
use aw_bot.Prelude.Action.{return, raise}
use aw_bot.Core.Types.{interrupted, timed_out, is_terminal}
use aw_bot.Core.Events.{text_delta, run_completed, run_interrupted, run_timed_out}
use aw_bot.Core.RunView.{reduce_run_view, initial_run_view}
use aw_bot.Core.Controller.State.{assign, runtime_error, publish, stream_stop, record_run_event}
use aw_bot.Core.Controller.Consume.{consume_event, consume_end, effective_event}
use aw_bot.Core.Controller.Handlers.{stop_run, start_text_run, queue_message, owned_by}
use aw_bot.Core.Controller.Invariant.{AllWf, SameAt}
use aw_bot.Core.Controller.Machine.{
  Stimulus, stop, queue, agent_event, stream_end, timer, handle, run_all, handle-SameAt,
  run_all-AllWf,
}
use aw_bot.Core.Controller.Trace.{quiet, cancelled_before}
use aw_bot.Core.Controller.Trace.Ending.{ended, closed_before}
use aw_bot.Core.Controller.Trace.Stop.{
  closing_calls, stop_run-pending, consume_event-ends, asks_queue, Refused, handle-refuses,
}
use aw_bot.Core.Controller.Trace.StreamEnd.{
  with_queued, arriving, consume_end-timed_out, consume_end-unfinished-busy,
}
use aw_bot.Core.Types.{AgentSession}
use aw_bot.Core.Controller.State.{start_turn}
use aw_bot.Core.Controller.Sessions.{start_turn_with_session_recovery}
use aw_bot.Core.Controller.Trace.LostThread.{
  forgetful, asked_for, saved_as, start_turn_with_session_recovery-replaces,
}
use aw_bot.Core.Queue.{MergedPrompt, pop_next_merged_prompt}
use aw_bot.Core.Controller.State.{ActiveRun, Controller, record_run_created}
use aw_bot.Core.Controller.Trace.NextTurn.{
  start_merged, next_run, next_active, consume_event-starts_next,
}
use aw_bot.Core.Events.{AgentEvent, run_failed}
use aw_bot.Prelude.{arith}
use aw_bot.Core.Controller.Trace.Draining.{consume_all, consume_all-drains}
use aw_bot.Tests.Values.{session, env, broken, active, waiting, question, state, state-AllWf}

abbrev day : List (String × Stimulus)
day =
    ("chat", queue "ann" "more" none none [])
    ∷ ("other", stop "bob")
    ∷ ("chat", agent_event (text_delta "hello"))
    ∷ ("chat", agent_event run_completed)
    ∷ ("chat", timer)
    ∷ ("chat", stream_end)
    ∷ []

run_all-AllWf_example : AllWf (run_all broken (state active) day)
run_all-AllWf_example = run_all-AllWf broken (state active) day state-AllWf

handle-SameAt_example :
    SameAt "other" (state active) (handle env "chat" (stop "ann") (state active)).1
handle-SameAt_example =
    handle-SameAt env "chat" (stop "ann") (state active) state-AllWf "other" (λ e. cc)

stop_run-pending_example :
    let r = stop_run (quiet env) "chat" "ann" (state waiting) in
    (r.0 ≡ return (some (ended env 0 waiting interrupted)))
    × ((r.1.active_runs "chat" ≡ none)
        × (r.1.calls
            ≡ closing_calls env 0 waiting interrupted (
                publish "chat" (reduce_run_view waiting.run_view run_interrupted)
                ∷ stream_stop "turn"
                ∷ [])))
unfolding assign
stop_run-pending_example =
    stop_run-pending env "chat" (state waiting) waiting question refl refl refl

consume_event-ends_example :
    let r = consume_event (quiet env) "chat" run_completed (state active) in
    let view = reduce_run_view active.run_view (effective_event active run_completed) in
    (r.0 ≡ return (some (ended env 0 active view.status)))
    × ((r.1.active_runs "chat" ≡ none)
        × (r.1.calls
            ≡ closing_calls env 0
                (record active { idle_timeout_handle = none })
                view.status
                (closed_before view.pending (
                  cancelled_before (some 0) (
                    publish "chat" view
                    ∷ record_run_event "run" (effective_event active run_completed)
                    ∷ [])))))
unfolding assign reduce_run_view is_terminal
consume_event-ends_example =
    consume_event-ends env "chat" (state active) active run_completed refl refl refl refl refl

consume_end-timed_out_example :
    let r = consume_end (quiet env) "chat" (
      run_all
        (quiet env)
        (state active)
        (("chat", timer) ∷ arriving "chat" (text_delta "late" ∷ []))) in
    (r.0 ≡ return (some (ended env 0 active timed_out)))
    × ((r.1.active_runs "chat" ≡ none)
        × (r.1.calls
            ≡ closing_calls env 0
                (record active { idle_timeout_handle = none })
                timed_out
                (publish "chat" (reduce_run_view active.run_view run_timed_out)
                  ∷ cancelled_before (some 0) (stream_stop "turn" ∷ []))))
unfolding assign initial_run_view
consume_end-timed_out_example =
    consume_end-timed_out env "chat" (state active) active (text_delta "late" ∷ []) refl refl refl
      refl

consume_end-unfinished-busy_example :
    let r = consume_end (quiet env) "chat" (state active) in
    let q = queue_message (quiet env) "chat" "ann" "again" none none [] r.1 in
    (r.0 ≡ raise (runtime_error "agent turn ended without a terminal event"))
    × (r.1.active_runs "chat" ≡ some (record active { idle_timeout_handle = none }))
    × (start_text_run (quiet env) "chat" "bob" "again" none none [] r.1
        ≡ (raise (runtime_error (String.◌++◌ "scope already has an active run: " "chat")), r.1))
    × (active.run_view.pending ≡ none
        → (q.0 ≡ return active.run)
          × (q.1.calls ≡ r.1.calls)
          × (q.1.active_runs "chat"
              ≡ some (
                  with_queued
                    (record {
                      user_id = "ann";
                      text = "again";
                      queued_at = env.clock r.1.clock_reads;
                      model = none;
                      opencode_agent = none;
                      attachments = [];
                    })
                    (record active { idle_timeout_handle = none }))))
unfolding assign
consume_end-unfinished-busy_example =
    consume_end-unfinished-busy env "chat" (state active) active "bob" "again" none none [] refl
      refl refl

handle-refuses_example :
    Refused broken "chat" (state active) (handle broken "chat" (queue "bob" "hi" none none []))
unfolding assign owned_by
handle-refuses_example =
    handle-refuses broken "chat" (state active) "bob" (asks_queue "hi" none none []) refl

abbrev queued : ActiveRun
queued = record active {
  queued_messages =
      record {
        user_id = "ann";
        text = "and then";
        queued_at = 5;
        model = none;
        opencode_agent = none;
        attachments = [];
      }
      ∷ [];
}

abbrev follow_up : MergedPrompt
follow_up = record {
  prompt = "and then";
  attachments = [];
  user_id = "ann";
  model = none;
  opencode_agent = none;
  remaining = [];
}

abbrev queued_state : Controller
queued_state = record (state queued) {
  selected_sessions = assign "chat" (some session) (λ _. none);
}

consume_event-starts_next_example :
    let r = consume_event (quiet env) "chat" run_completed queued_state in
    let view = reduce_run_view active.run_view run_completed in
    let before =
      start_merged session follow_up
      ∷ cancelled_before
          (some 0)
          (publish "chat" view ∷ record_run_event "run" run_completed ∷ []) in
    let run = next_run env 0 "chat" "ann" session "turn" in
    (r.0 ≡ return none)
    × ((r.1.active_runs "chat"
          ≡ some (next_active (record queued { idle_timeout_handle = none }) run "turn" session []))
        × (r.1.calls
            ≡ publish "chat" (initial_run_view run.run_id) ∷ record_run_created run ∷ before))
unfolding assign reduce_run_view is_terminal pop_next_merged_prompt
consume_event-starts_next_example =
    consume_event-starts_next env "chat" queued_state queued run_completed session follow_up refl
      refl refl refl refl refl

abbrev ends : List AgentEvent
ends = run_completed ∷ run_failed "no disk" ∷ []

consume_all-drains_example :
    (consume_all (quiet env) "chat" ends queued_state).active_runs "chat" ≡ none
unfolding assign
consume_all-drains_example =
    consume_all-drains env "chat" ends queued_state queued session refl refl refl refl refl
      (tt, (tt, tt)) (omega arith)

-- A session whose thread the agent has lost.
abbrev lost : AgentSession
lost = record session { agent_session_id = "lost" }

start_turn_with_session_recovery-replaces_example :
    let asked = asked_for env (state active) "chat" "ann" lost "go" none none [] in
    let started = start_turn session "go" none none [] ∷ saved_as env 0 session ∷ asked in
    let r =
      start_turn_with_session_recovery
        (forgetful "lost" env)
        "chat"
        "ann"
        lost
        "go"
        none
        none
        []
        (state active) in
    (r.0 ≡ return (session, "turn"))
    × ((r.1.selected_sessions "chat" ≡ some session) × (r.1.calls ≡ started))
start_turn_with_session_recovery-replaces_example =
    start_turn_with_session_recovery-replaces env "chat" "ann" lost "go" none none [] (state active)
      refl
