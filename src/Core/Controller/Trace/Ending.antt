-- ===== src/Core/Controller/Trace/Ending.antt =====
-- How a run ends: by a terminal event, by /stop, by its timeout, or by a stream that breaks off.
use aw_bot.Prelude.{
  ℕ, suc, String, true, false, Option, none, some, List, [], ◌∷◌, ◌≡◌, refl, sym, subst, eq_iff,
  if◌then◌else◌,
}
use aw_bot.Prelude.Action.{throw}
use aw_bot.Core.Types.{Run, RunStatus, interrupted, timed_out, is_terminal, cancelled}
use aw_bot.Core.Events.{
  AgentEvent, text_delta, thinking_delta, tool_started, tool_finished, user_input_requested,
  approval_requested, usage_updated, run_completed, run_failed, run_interrupted, run_timed_out,
}
use aw_bot.Core.RunView.{RunView, PendingRequestView, reduce_run_view}
use aw_bot.Core.Controller.State.{
  Env, ActiveRun, Call, runtime_error, record_run_event, record_run_terminal_status,
  close_pending_request, publish, stream_stop, set_result,
}
use aw_bot.Core.Controller.Consume.{
  close_if_pending, finish, set_result_once, finish_and_complete, show_event, end_or_wait,
  next_or_finish, after_event, take_event, consume_event, effective_event, end_with, consume_end,
}
use aw_bot.Core.Controller.Handlers.{require_active_run, owned_or_raise, stop_as, stop_run}
use aw_bot.Core.Controller.Trace.{
  Known, quiet, cancelled_before, Runs, Runs-bind, Runs-pure, Runs-call, Runs-now, Runs-put,
  Runs-active_run_of, Runs-cancel, Runs-stored_some,
}

-- The run as `_finish` returns and records it.
abbrev pub ended : Env → ℕ → ActiveRun → RunStatus → Run
ended e reads a status = record (a.run) {
  status = status;
  updated_at = e.isoformat (e.clock reads);
}

abbrev pub closed_before : Option PendingRequestView → List Call → List Call
closed_before none calls = calls
closed_before (some pending) calls =
    close_pending_request pending.pending_request_id cancelled ∷ calls

module _ (e : Env) (scope : String) where
  close_if_pending-Runs :
      {k : Known} (pending : Option PendingRequestView)
      → Runs scope k
          (close_if_pending (quiet e) pending)
          tt
          (record k { calls = closed_before pending k.calls })
  unfolding close_if_pending
  close_if_pending-Runs none = Runs-pure scope tt
  close_if_pending-Runs (some pending) = Runs-call scope e _

  -- What is known after `_finish` of the stored run `a`.
  abbrev pub after_finish : Known → ActiveRun → RunStatus → Known
  after_finish k a status = record k {
    active = none;
    reads = suc k.reads;
    calls = cancelled_before a.idle_timeout_handle (
        record_run_terminal_status a.run.run_id status (e.isoformat (e.clock k.reads))
        ∷ closed_before a.run_view.pending k.calls);
  }

  finish-Runs :
      {k : Known} {a : ActiveRun} (status : RunStatus)
      → k.active ≡ some a
      → Runs scope k
          (finish (quiet e) scope status)
          (ended e k.reads a status)
          (after_finish k a status)
  unfolding finish
  finish-Runs {k} {a} status stored = Runs-bind scope _ (Runs-active_run_of scope stored) (
      Runs-bind scope _ (Runs-now scope e) (
        Runs-bind scope _ (close_if_pending-Runs a.run_view.pending) (
          Runs-bind scope _ (Runs-call scope e _) (
            Runs-bind scope _ (Runs-cancel scope e stored)
              (Runs-bind scope _ (Runs-put scope none) (Runs-pure scope _))))))

  set_result_once-Runs :
      {k : Known} (a : ActiveRun) (result : Run)
      → a.completion_future ≡ none
      → Runs scope k
          (set_result_once (quiet e) a result)
          tt
          (record k { calls = set_result result ∷ k.calls })
  unfolding set_result_once
  set_result_once-Runs a result unset = rw unset (Runs-call scope e (set_result result))

  -- The same after the completion of the future.
  abbrev pub after_complete : Known → ActiveRun → RunStatus → Known
  after_complete k a status =
      let k' = after_finish k a status in
      record k' { calls = set_result (ended e k.reads a status) ∷ k'.calls }

  pub finish_and_complete-Runs :
      {k : Known} {a : ActiveRun} (status : RunStatus)
      → k.active ≡ some a
      → a.completion_future ≡ none
      → Runs scope k
          (finish_and_complete (quiet e) scope status)
          (some (ended e k.reads a status))
          (after_complete k a status)
  unfolding finish_and_complete
  finish_and_complete-Runs {k} {a} status stored unset =
      Runs-bind scope _ (Runs-active_run_of scope stored) (
        Runs-bind scope _ (finish-Runs status stored)
          (Runs-bind scope _ (set_result_once-Runs a _ unset) (Runs-pure scope _)))

  abbrev pub shown : ActiveRun → AgentEvent → ActiveRun
  shown a event = record a { run_view = reduce_run_view a.run_view event }

  pub show_event-Runs :
      {k : Known} {a : ActiveRun} (event : AgentEvent)
      → k.active ≡ some a
      → Runs scope k (show_event (quiet e) scope event) (shown a event) (record k {
        active = some (shown a event);
        calls = publish scope (shown a event).run_view ∷ k.calls;
      })
  unfolding show_event
  show_event-Runs event stored = Runs-bind scope _ (Runs-active_run_of scope stored) (
      Runs-bind scope _ (Runs-put scope _)
        (Runs-bind scope _ (Runs-call scope e _) (Runs-pure scope _)))

  pub require_active_run-Runs :
      {k : Known} {a : ActiveRun} (user : String)
      → k.active ≡ some a
      → a.user_id ≡ user
      → Runs scope k (require_active_run scope user) a k
  unfolding require_active_run owned_or_raise
  require_active_run-Runs {a = a} user stored owner =
      Runs-stored_some scope (owned_or_raise scope user) stored
        (rw ((eq_iff a.user_id user).1 owner) (Runs-pure scope a))

  -- `a` as /stop marks it.
  abbrev pub stopping : ActiveRun → ActiveRun
  stopping a = record a { stop_requested = true; queued_messages = [] }

  pub stop_run-Runs-pending :
      {k : Known} {a : ActiveRun} (p : PendingRequestView)
      → k.active ≡ some a
      → a.run_view.pending ≡ some p
      → a.completion_future ≡ none
      → Runs scope k (stop_run (quiet e) scope a.user_id) (some (ended e k.reads a interrupted)) (
          after_complete
            (record k {
              calls =
                  publish scope (reduce_run_view a.run_view run_interrupted)
                  ∷ stream_stop a.turn_stream
                  ∷ k.calls;
            })
            (shown (stopping a) run_interrupted)
            interrupted)
  unfolding stop_run stop_as
  stop_run-Runs-pending {k} {a} p stored pending unset =
      Runs-bind scope _ (require_active_run-Runs a.user_id stored refl) (
        Runs-bind scope _ (Runs-put scope (some (stopping a))) (
          rw (pending, stop_as)
            (Runs-bind scope _ (Runs-call scope e (stream_stop a.turn_stream)) (
              Runs-bind scope _ (show_event-Runs run_interrupted refl)
                (finish_and_complete-Runs interrupted refl unset)))))

  end_or_wait-Runs :
      {k : Known} {a : ActiveRun} (status : RunStatus)
      → k.active ≡ some a
      → a.completion_future ≡ none
      → a.queued_messages ≡ []
      → is_terminal status ≡ true
      → Runs scope k (end_or_wait (quiet e) scope status) (some (ended e k.reads a status)) (
          after_complete
            (record k { calls = cancelled_before a.idle_timeout_handle k.calls })
            (record a { idle_timeout_handle = none })
            status)
  unfolding end_or_wait next_or_finish
  end_or_wait-Runs {k} {a} status stored unset idle done = rw done (
      Runs-bind scope _ (Runs-cancel scope e stored) (
        Runs-bind scope _ (Runs-active_run_of scope refl)
          (rw (idle, next_or_finish) (finish_and_complete-Runs status refl unset))))

  pub after_event-terminal :
      (event : AgentEvent) (view : RunView) (status : RunStatus)
      → is_terminal (reduce_run_view view event).status ≡ true
      → after_event (quiet e) scope event status ≡ end_or_wait (quiet e) scope status
  unfolding after_event reduce_run_view is_terminal
  after_event-terminal (text_delta _) view status done = refl
  after_event-terminal (thinking_delta _) view status done = refl
  after_event-terminal (tool_started _ _ _) view status done = refl
  after_event-terminal (tool_finished _ _ _) view status done = refl
  after_event-terminal (user_input_requested _ _ _) view status done = cc
  after_event-terminal (approval_requested _ _ _) view status done = cc
  after_event-terminal (usage_updated _ _) view status done = refl
  after_event-terminal run_completed view status done = refl
  after_event-terminal (run_failed _) view status done = refl
  after_event-terminal run_interrupted view status done = refl
  after_event-terminal run_timed_out view status done = refl

  -- What is known after an event that ends the run.
  abbrev pub after_terminal : Known → ActiveRun → AgentEvent → Known
  after_terminal k a event =
      after_complete
        (record k {
          calls = cancelled_before a.idle_timeout_handle (
              publish scope (shown a event).run_view
              ∷ record_run_event a.run.run_id event
              ∷ k.calls);
        })
        (record (shown a event) { idle_timeout_handle = none }) (shown a event).run_view.status

  take_event-Runs-terminal :
      {k : Known} {a : ActiveRun} (event : AgentEvent)
      → k.active ≡ some a
      → a.completion_future ≡ none
      → a.queued_messages ≡ []
      → is_terminal (reduce_run_view a.run_view event).status ≡ true
      → Runs scope k
          (take_event (quiet e) scope a event)
          (some (ended e k.reads a (reduce_run_view a.run_view event).status))
          (after_terminal k a event)
  unfolding take_event
  take_event-Runs-terminal {k} {a} event stored unset idle done =
      Runs-bind scope _ (Runs-call scope e (record_run_event a.run.run_id event)) (
        Runs-bind scope _ (show_event-Runs event stored) (
          rw (after_event-terminal event a.run_view (reduce_run_view a.run_view event).status done)
            (end_or_wait-Runs (reduce_run_view a.run_view event).status refl unset idle done)))

  pub consume_event-Runs-terminal :
      {k : Known} {a : ActiveRun} (event : AgentEvent)
      → k.active ≡ some a
      → a.timed_out ≡ false
      → a.completion_future ≡ none
      → a.queued_messages ≡ []
      → is_terminal (reduce_run_view a.run_view (effective_event a event)).status ≡ true
      → Runs scope k
          (consume_event (quiet e) scope event)
          (some (ended e k.reads a (reduce_run_view a.run_view (effective_event a event)).status))
          (after_terminal k a (effective_event a event))
  unfolding consume_event take_event
  consume_event-Runs-terminal {k} {a} event stored live unset idle done =
      Runs-bind scope _ (Runs-active_run_of scope stored)
        (rw live (take_event-Runs-terminal (effective_event a event) stored unset idle done))

  -- What is known after the stream of a run that is to end as `status` has ended.
  abbrev pub after_end : Known → ActiveRun → AgentEvent → RunStatus → Known
  after_end k a event status =
      after_complete
        (record k {
          calls =
              publish scope (shown a event).run_view
              ∷ cancelled_before a.idle_timeout_handle k.calls;
        })
        (record (shown a event) { idle_timeout_handle = none }) status

  end_with-Runs :
      {k : Known} {a : ActiveRun} (event : AgentEvent) (status : RunStatus)
      → k.active ≡ some a
      → a.completion_future ≡ none
      → Runs scope k (end_with (quiet e) scope event status) (some (ended e k.reads a status)) (
          after_complete
            (record k { calls = publish scope (shown a event).run_view ∷ k.calls })
            (shown a event)
            status)
  unfolding end_with
  end_with-Runs event status stored unset =
      Runs-bind scope _ (show_event-Runs event stored) (finish_and_complete-Runs status refl unset)

  pub consume_end-Runs-timed_out :
      {k : Known} {a : ActiveRun}
      → k.active ≡ some a
      → a.timed_out ≡ true
      → a.completion_future ≡ none
      → Runs scope k
          (consume_end (quiet e) scope)
          (some (ended e k.reads a timed_out))
          (after_end k a run_timed_out timed_out)
  unfolding consume_end
  consume_end-Runs-timed_out {k} {a} stored late unset =
      Runs-bind scope _ (Runs-cancel scope e stored) (
        Runs-bind scope _ (Runs-active_run_of scope refl) (
          subst
            (λ b.
              Runs scope
                (record k {
                  active = some (record a { idle_timeout_handle = none });
                  calls = cancelled_before a.idle_timeout_handle k.calls;
                })
                (if b
                  then end_with (quiet e) scope run_timed_out timed_out
                  else if a.stop_requested
                  then end_with (quiet e) scope run_interrupted interrupted
                  else throw (runtime_error "agent turn ended without a terminal event"))
                (some (ended e k.reads a timed_out)) (after_end k a run_timed_out timed_out))
            (sym late) (end_with-Runs run_timed_out timed_out refl unset)))
