-- ===== src/Core/Controller/Consume.antt =====
-- What the controller does with each event of an agent turn, and with the end of its stream.
use aw_bot.Prelude.{ℕ, String, false, Option, none, some, List, [], ◌∷◌, is_some, if◌then◌else◌}
use Prim.Native.String
use aw_bot.Prelude.Action.{pure, throw, ◌>>=◌, ◌>>◌}
use aw_bot.Core.Types.{
  RunStatus, running, pending_user_input, pending_approval, interrupted, timed_out, Run,
  is_terminal, AgentSession, PendingKind, user_input, approval, cancelled, resolved,
}
use aw_bot.Core.Events.{
  AgentEvent, user_input_requested, approval_requested, run_interrupted, run_timed_out,
}
use aw_bot.Core.RunView.{PendingRequestView, initial_run_view, reduce_run_view}
use aw_bot.Core.Queue.{QueuedMessage, MergedPrompt, pop_next_merged_prompt}
use aw_bot.Core.Controller.State.{
  Env, ActiveRun, M, runtime_error, record_run_created, record_run_event,
  record_run_terminal_status, open_pending_request, close_pending_request, publish, set_result,
  put_active, active_run_of, call, now,
}
use aw_bot.Core.Controller.Timers.{arm_idle_timeout, cancel_idle_timeout}
use aw_bot.Core.Controller.Sessions.{session_for_new_turn, start_turn_with_session_recovery}

-- merge_window_seconds, in microseconds
abbrev pub merge_window : ℕ
merge_window = 1500000

-- What a consumed event leads to: the run that the consuming coroutine returns, or `none` where it
-- goes on to wait for the next event.
abbrev pub Outcome : Type 0
Outcome = Option Run

-- `if active_run.stop_requested: event = RunInterrupted()`
abbrev pub effective_event : ActiveRun → AgentEvent → AgentEvent
effective_event active_run event = if active_run.stop_requested then run_interrupted else event

module _ (env : Env) where
  unfoldable pub close_if_pending : Option PendingRequestView → M Unit
  close_if_pending none = pure tt
  close_if_pending (some pending) =
      call env (close_pending_request pending.pending_request_id cancelled)

  unfoldable pub finish : String → RunStatus → M Run
  finish scope status = do
    active_run ← active_run_of scope
    time ← now env
    let completed_run = record (active_run.run) { status = status; updated_at = env.isoformat time }
    close_if_pending active_run.run_view.pending
    call env (record_run_terminal_status completed_run.run_id status (env.isoformat time))
    cancel_idle_timeout env scope
    put_active scope none
    pure completed_run

  -- `if not active_run.completion_future.done(): active_run.completion_future.set_result(result)`
  -- The run whose future is set has been taken out of `active_runs` by then, so the result is only
  -- seen by who waits for the future: it is recorded as a call, and the field is not written.
  unfoldable pub set_result_once : ActiveRun → Run → M Unit
  set_result_once active_run result =
      if is_some active_run.completion_future then pure tt else call env (set_result result)

  -- `_finish` and the completion of the future, as the terminal branches have them.
  unfoldable pub finish_and_complete : String → RunStatus → M Outcome
  finish_and_complete scope status = do
    active_run ← active_run_of scope
    result ← finish scope status
    set_result_once active_run result
    pure (some result)

  -- Reduces the view of the run by the event, and publishes it.
  unfoldable pub show_event : String → AgentEvent → M ActiveRun
  show_event scope event = do
    active_run ← active_run_of scope
    let updated = record active_run { run_view = reduce_run_view active_run.run_view event }
    put_active scope (some updated)
    call env (publish scope updated.run_view)
    pure updated

  unfoldable pub new_run : String → String → AgentSession → String → M Run
  new_run scope user session turn = do
    created ← now env
    stamped ← now env
    pure (record {
      run_id = env.run_id_factory stamped;
      private_chat_scope_id = scope;
      user_id = user;
      agent_session_id = session.agent_session_id;
      agent_name = session.agent_name;
      agent_turn_id = turn;
      status = running;
      created_at = env.isoformat created;
      updated_at = env.isoformat created;
    })

  -- The part of `_start_queued_next_turn` after the new turn has started.
  unfoldable pub enter_next_run : String → String → AgentSession × String → M Outcome
  enter_next_run scope user (session, turn) = do
    active_run ← active_run_of scope
    run ← new_run active_run.run.private_chat_scope_id user session turn
    put_active scope (
        some (record active_run {
          run = run;
          run_view = initial_run_view run.run_id;
          turn_stream = turn;
          agent_session = session;
          user_id = user;
          stop_requested = false;
        }))
    call env (record_run_created run)
    call env (publish scope (initial_run_view run.run_id))
    pure none

  unfoldable pub run_merged : String → Option MergedPrompt → M Outcome
  run_merged scope none = do
    active_run ← active_run_of scope
    result ← finish scope active_run.run_view.status
    pure (some result)
  run_merged scope (some merged) = do
    active_run ← active_run_of scope
    put_active scope (some (record active_run { queued_messages = merged.remaining }))
    session ← session_for_new_turn env scope merged.user_id
    started ←
        start_turn_with_session_recovery env scope merged.user_id session merged.prompt merged.model
          merged.opencode_agent merged.attachments
    enter_next_run scope merged.user_id started

  unfoldable pub start_queued_next_turn : String → M Outcome
  start_queued_next_turn scope = do
    active_run ← active_run_of scope
    run_merged scope (pop_next_merged_prompt active_run.queued_messages merge_window)

  unfoldable pub open_pending : ActiveRun → PendingKind → Option PendingRequestView → M Unit
  open_pending active_run kind none =
      throw
        (runtime_error (String.◌++◌ "run does not have a pending request: " active_run.run.run_id))
  open_pending active_run kind (some pending) = call env (
      open_pending_request active_run.run.run_id (record {
        pending_request_id = pending.pending_request_id;
        run_id = active_run.run.run_id;
        kind = kind;
        payload = pending.payload;
      }))

  -- The two branches that pause the run, which differ in the kind and the status.
  unfoldable pub pause : String → PendingKind → RunStatus → M Outcome
  pause scope kind status = do
    cancel_idle_timeout env scope
    active_run ← active_run_of scope
    open_pending active_run kind active_run.run_view.pending
    let paused = record (active_run.run) { status = status }
    put_active scope (some (record active_run { run = paused }))
    pure (some paused)

  unfoldable pub next_or_finish : String → RunStatus → List QueuedMessage → M Outcome
  next_or_finish scope status [] = finish_and_complete scope status
  next_or_finish scope status (_ ∷ _) = start_queued_next_turn scope

  -- The last test of the loop's body.
  unfoldable pub end_or_wait : String → RunStatus → M Outcome
  end_or_wait scope status =
      if is_terminal status
      then (do
        cancel_idle_timeout env scope
        active_run ← active_run_of scope
        next_or_finish scope status active_run.queued_messages)
      else (do arm_idle_timeout env scope; pure none)

  unfoldable pub after_event : String → AgentEvent → RunStatus → M Outcome
  after_event scope (user_input_requested _ _ _) status = pause scope user_input pending_user_input
  after_event scope (approval_requested _ _ _) status = pause scope approval pending_approval
  after_event scope _ status = end_or_wait scope status

  unfoldable pub take_event : String → ActiveRun → AgentEvent → M Outcome
  take_event scope active_run event = do
    call env (record_run_event active_run.run.run_id event)
    updated ← show_event scope event
    after_event scope event updated.run_view.status

  -- The body of the `async for` loop of `_consume_until_pause_or_terminal`.
  unfoldable pub consume_event : String → AgentEvent → M Outcome
  consume_event scope event = do
    active_run ← active_run_of scope
    if active_run.timed_out
        then pure none
        else take_event scope active_run (effective_event active_run event)

  -- The same method after the loop, where the stream has ended.
  unfoldable pub end_with : String → AgentEvent → RunStatus → M Outcome
  end_with scope event status = do show_event scope event; finish_and_complete scope status

  unfoldable pub consume_end : String → M Outcome
  consume_end scope = do
    cancel_idle_timeout env scope
    active_run ← active_run_of scope
    if active_run.timed_out
        then end_with scope run_timed_out timed_out
        else if active_run.stop_requested
        then end_with scope run_interrupted interrupted
        else throw (runtime_error "agent turn ended without a terminal event")

  unfoldable pub resolve_view : String → ActiveRun → Option PendingRequestView → M Unit
  resolve_view scope active_run none =
      throw
        (runtime_error (String.◌++◌ "run does not have a pending request: " active_run.run.run_id))
  resolve_view scope active_run (some pending) = do
    call env (close_pending_request pending.pending_request_id resolved)
    let view = record (active_run.run_view) { status = running; pending = none }
    put_active scope (some (record active_run { run_view = view }))
    call env (publish active_run.run.private_chat_scope_id view)
    arm_idle_timeout env active_run.run.private_chat_scope_id

  unfoldable pub resolve_pending_request : String → M Unit
  resolve_pending_request scope = do
    active_run ← active_run_of scope
    resolve_view scope active_run active_run.run_view.pending
