-- ===== src/Core/Controller/Invariant/Consume.antt =====
-- What happens to a run on an event, and at the end of its stream, keeps the invariant.
use aw_bot.Prelude.{
  String, false, Option, none, some, List, [], ◌∷◌, is_some, refl, ◌≡◌, sym, subst,
}
use aw_bot.Prelude.Action.Ensures.{
  Ensures, Ensures-bind, Ensures-if, Ensures-pure, Ensures-known, Ensures-pre, Ensures-throw,
}
use aw_bot.Core.Types.{
  RunStatus, running, pending_user_input, pending_approval, interrupted, timed_out, Run,
  is_terminal, AgentSession, PendingKind, user_input, approval,
}
use aw_bot.Core.Events.{
  AgentEvent, user_input_requested, approval_requested, run_interrupted, run_timed_out,
}
use aw_bot.Core.RunView.{RunView, PendingRequestView, initial_run_view, reduce_run_view}
use aw_bot.Core.RunView.Status.{
  IsCoherent, reduce_run_view-IsCoherent, reduce_run_view-run_id, initial_run_view-IsCoherent,
  kind_of, pending_kind,
}
use aw_bot.Core.Queue.{QueuedMessage, MergedPrompt, pop_next_merged_prompt}
use aw_bot.Core.Controller.State.{Env, ActiveRun, Controller}
use aw_bot.Core.Controller.Timers.{arm_idle_timeout}
use aw_bot.Core.Controller.Consume.{
  merge_window, close_if_pending, finish, set_result_once, finish_and_complete, show_event, new_run,
  enter_next_run, run_merged, start_queued_next_turn, open_pending, pause, next_or_finish,
  end_or_wait, after_event, effective_event, take_event, consume_event, end_with, consume_end,
  resolve_view, resolve_pending_request,
}
use aw_bot.Core.Controller.Invariant.{
  IsWf, IsWf-flags, IsWf-view, IsWf-status, At, Holds, Sound, forget, IsWf-of, put_active-Holds,
  pop_active-Sound, pure-Holds, throw-Holds, call-Holds, now-Holds, loosen-Holds,
  active_run_of-Holds, known-Holds,
}
use aw_bot.Core.Controller.Invariant.Timers.{cancel_idle_timeout-Sound, arm_idle_timeout-Sound}
use aw_bot.Core.Controller.Invariant.Sessions.{
  session_for_new_turn-Holds, start_turn_with_session_recovery-Sound,
}

module _ (env : Env) (scope : String) (s0 : Controller) where
  close_if_pending-Holds :
      (a : ActiveRun) (pending : Option PendingRequestView)
      → Holds scope s0 (some a) (close_if_pending env pending) (some a)
  unfolding close_if_pending
  close_if_pending-Holds a none = pure-Holds scope s0 tt
  close_if_pending-Holds a (some pending) = call-Holds scope s0 env _

  finish-Sound :
      {o : Option ActiveRun} (status : RunStatus) → Holds scope s0 o (finish env scope status) none
  unfolding finish
  finish-Sound status = Ensures-bind (active_run_of-Holds scope s0) (λ a.
      Ensures-bind (now-Holds scope s0 env) (λ time.
        Ensures-bind (close_if_pending-Holds a a.run_view.pending) (λ _.
          Ensures-bind (loosen-Holds scope s0 (call-Holds scope s0 env _)) (λ _.
            Ensures-bind (cancel_idle_timeout-Sound env scope s0)
              (λ _. Ensures-bind (pop_active-Sound scope s0) (λ _. pure-Holds scope s0 _))))))

  set_result_once-Sound :
      (a : ActiveRun) (result : Run) → Sound scope s0 (set_result_once env a result)
  unfolding set_result_once
  set_result_once-Sound a result =
      Ensures-if (is_some a.completion_future) (λ _. pure-Holds scope s0 tt)
        (λ _. call-Holds scope s0 env _)

  pub finish_and_complete-Sound :
      {o : Option ActiveRun} (status : RunStatus)
      → Holds scope s0 o (finish_and_complete env scope status) none
  unfolding finish_and_complete
  finish_and_complete-Sound status = Ensures-bind (active_run_of-Holds scope s0) (λ a.
      Ensures-bind (finish-Sound status) (λ result.
        Ensures-bind (set_result_once-Sound a result) (λ _. pure-Holds scope s0 (some result))))

  pub show_event-Sound :
      {o : Option ActiveRun} (event : AgentEvent)
      → Holds scope s0 o (show_event env scope event) none
  unfolding show_event
  show_event-Sound event = Ensures-bind (active_run_of-Holds scope s0) (λ a.
      Ensures-bind
        (put_active-Holds scope s0 _ (λ s p.
          let w = IsWf-of scope s0 p in
          IsWf-view a (reduce_run_view a.run_view event) (reduce_run_view-run_id a.run_view event)
            (reduce_run_view-IsCoherent a.run_view event w.coherent) w))
        (λ _.
          Ensures-bind (call-Holds scope s0 env _)
            (λ _. loosen-Holds scope s0 (pure-Holds scope s0 _))))

  -- The new run agrees with the arguments that it is made from.
  pub record Made (user : String) (session : AgentSession) (turn : String) (run : Run)
      : Type 0 where
    pub scope_eq : run.private_chat_scope_id ≡ scope
    pub user_eq : run.user_id ≡ user
    pub session_eq : run.agent_session_id ≡ session.agent_session_id
    pub turn_eq : run.agent_turn_id ≡ turn

  pub new_run-Holds :
      {o : Option ActiveRun} (key user : String) (session : AgentSession) (turn : String)
      → key ≡ scope
      → Ensures
          (At scope s0 none)
          (At scope s0 o)
          (new_run env key user session turn)
          (λ run s. At scope s0 o s × Made user session turn run)
  unfolding new_run
  new_run-Holds key user session turn same = Ensures-bind (now-Holds scope s0 env) (λ created.
      Ensures-bind (now-Holds scope s0 env) (λ stamped. Ensures-pure _ (λ s p.
        (p, record { scope_eq = same; user_eq = refl; session_eq = refl; turn_eq = refl }))))

  next_run-IsWf :
      (a : ActiveRun) (user : String) (session : AgentSession) (turn : String) (run : Run)
      → IsWf scope a
      → Made user session turn run
      → IsWf scope (record a {
        run = run;
        run_view = initial_run_view run.run_id;
        turn_stream = turn;
        agent_session = session;
        user_id = user;
        stop_requested = false;
      })
  unfolding initial_run_view
  next_run-IsWf a user session turn run w made = record {
    scope_eq = made.scope_eq;
    view_eq = refl;
    coherent = initial_run_view-IsCoherent run.run_id;
    user_eq = made.user_eq;
    turn_eq = made.turn_eq;
    session_eq = made.session_eq;
    unfinished = w.unfinished;
  }

  enter_next_run-Sound :
      {o : Option ActiveRun} (user : String) (session : AgentSession) (turn : String)
      → Holds scope s0 o (enter_next_run env scope user (session, turn)) none
  unfolding enter_next_run
  enter_next_run-Sound user session turn = Ensures-bind (active_run_of-Holds scope s0) (λ a.
      known-Holds scope s0 (λ w.
        Ensures-bind (new_run-Holds a.run.private_chat_scope_id user session turn w.scope_eq)
          (λ run.
            Ensures-known (λ s p. p.1)
              (λ made.
                Ensures-pre (λ s p. p.0)
                  (Ensures-bind
                    (put_active-Holds scope s0 _
                      (λ s p. next_run-IsWf a user session turn run w made))
                    (λ _. Ensures-bind (loosen-Holds scope s0 (call-Holds scope s0 env _)) (λ _.
                      Ensures-bind (call-Holds scope s0 env _)
                        (λ _. pure-Holds scope s0 none))))))))

  run_merged-Sound :
      {o : Option ActiveRun} (merged : Option MergedPrompt)
      → Holds scope s0 o (run_merged env scope merged) none
  unfolding run_merged
  run_merged-Sound none = Ensures-bind (active_run_of-Holds scope s0) (λ a.
      Ensures-bind (finish-Sound a.run_view.status) (λ result. pure-Holds scope s0 (some result)))
  run_merged-Sound (some merged) = Ensures-bind (active_run_of-Holds scope s0) (λ a.
      known-Holds scope s0 (λ w.
        Ensures-bind
          (loosen-Holds scope s0 (
            put_active-Holds scope s0 _ (λ s p.
              IsWf-flags a merged.remaining a.stop_requested a.timed_out a.idle_timeout_handle w)))
          (λ _. Ensures-bind (session_for_new_turn-Holds env scope s0 merged.user_id) (λ session.
            Ensures-bind
              (start_turn_with_session_recovery-Sound env scope s0 merged.user_id session
                merged.prompt merged.model merged.opencode_agent merged.attachments)
              (λ (started, turn). enter_next_run-Sound merged.user_id started turn)))))

  start_queued_next_turn-Sound :
      {o : Option ActiveRun} → Holds scope s0 o (start_queued_next_turn env scope) none
  unfolding start_queued_next_turn
  start_queued_next_turn-Sound =
      Ensures-bind (active_run_of-Holds scope s0)
        (λ a. run_merged-Sound (pop_next_merged_prompt a.queued_messages merge_window))

  open_pending-Holds :
      (a : ActiveRun) (kind : PendingKind) (pending : Option PendingRequestView)
      → Holds scope s0 (some a) (open_pending env a kind pending) (some a)
  unfolding open_pending
  open_pending-Holds a kind none = Ensures-throw _ (λ s p. forget scope s0 p)
  open_pending-Holds a kind (some pending) = call-Holds scope s0 env _

  pause-Sound :
      (kind : PendingKind) (status : RunStatus) → Sound scope s0 (pause env scope kind status)
  unfolding pause
  pause-Sound kind status = Ensures-bind (cancel_idle_timeout-Sound env scope s0) (λ _.
      Ensures-bind (active_run_of-Holds scope s0) (λ a.
        Ensures-bind (open_pending-Holds a kind a.run_view.pending) (λ _.
          Ensures-bind
            (loosen-Holds scope s0
              (put_active-Holds scope s0 _ (λ s p. IsWf-status a status (IsWf-of scope s0 p))))
            (λ _. pure-Holds scope s0 _))))

  next_or_finish-Sound :
      {o : Option ActiveRun} (status : RunStatus) (queue : List QueuedMessage)
      → Holds scope s0 o (next_or_finish env scope status queue) none
  unfolding next_or_finish
  next_or_finish-Sound status [] = finish_and_complete-Sound status
  next_or_finish-Sound status (_ ∷ _) = start_queued_next_turn-Sound

  end_or_wait-Sound : (status : RunStatus) → Sound scope s0 (end_or_wait env scope status)
  unfolding end_or_wait
  end_or_wait-Sound status =
      Ensures-if (is_terminal status)
        (λ _. Ensures-bind (cancel_idle_timeout-Sound env scope s0) (λ _.
          Ensures-bind (active_run_of-Holds scope s0)
            (λ a. next_or_finish-Sound status a.queued_messages)))
        (λ _. Ensures-bind (arm_idle_timeout-Sound env scope s0) (λ _. pure-Holds scope s0 none))

  after_event-Sound :
      (event : AgentEvent) (status : RunStatus)
      → Sound scope s0 (after_event env scope event status)
  unfolding after_event
  after_event-Sound (user_input_requested _ _ _) status = pause-Sound user_input pending_user_input
  after_event-Sound (approval_requested _ _ _) status = pause-Sound approval pending_approval
  after_event-Sound _ status = end_or_wait-Sound status

  take_event-Sound :
      {o : Option ActiveRun} (a : ActiveRun) (event : AgentEvent)
      → Holds scope s0 o (take_event env scope a event) none
  unfolding take_event
  take_event-Sound a event = Ensures-bind (call-Holds scope s0 env _) (λ _.
      Ensures-bind (show_event-Sound event)
        (λ updated. after_event-Sound event updated.run_view.status))

  pub consume_event-Sound : (event : AgentEvent) → Sound scope s0 (consume_event env scope event)
  unfolding consume_event
  consume_event-Sound event = Ensures-bind (active_run_of-Holds scope s0) (λ a.
      Ensures-if a.timed_out (λ _. loosen-Holds scope s0 (pure-Holds scope s0 none))
        (λ _. take_event-Sound a (effective_event a event)))

  end_with-Sound :
      {o : Option ActiveRun} (event : AgentEvent) (status : RunStatus)
      → Holds scope s0 o (end_with env scope event status) none
  unfolding end_with
  end_with-Sound event status =
      Ensures-bind (show_event-Sound event) (λ _. finish_and_complete-Sound status)

  pub consume_end-Sound : Sound scope s0 (consume_end env scope)
  unfolding consume_end
  consume_end-Sound = Ensures-bind (cancel_idle_timeout-Sound env scope s0) (λ _.
      Ensures-bind (active_run_of-Holds scope s0) (λ a.
        Ensures-if a.timed_out (λ _. end_with-Sound run_timed_out timed_out)
          (λ _.
            Ensures-if a.stop_requested (λ _. end_with-Sound run_interrupted interrupted)
              (λ _. loosen-Holds scope s0 (throw-Holds scope s0 _)))))

  resolved_view-IsCoherent :
      (view : RunView) → IsCoherent (record view { status = running; pending = none })
  unfolding kind_of pending_kind
  resolved_view-IsCoherent view = record { kinds = refl }

  resolve_view-Sound :
      (a : ActiveRun) (pending : Option PendingRequestView)
      → Holds scope s0 (some a) (resolve_view env scope a pending) none
  unfolding resolve_view
  resolve_view-Sound a none = loosen-Holds scope s0 (throw-Holds scope s0 _)
  resolve_view-Sound a (some pending) = known-Holds scope s0 (λ w.
      Ensures-bind (call-Holds scope s0 env _) (λ _.
        Ensures-bind
          (loosen-Holds scope s0 (
            put_active-Holds scope s0 _ (λ s p.
              IsWf-view a (record (a.run_view) { status = running; pending = none }) refl
                (resolved_view-IsCoherent a.run_view) w)))
          (λ _. Ensures-bind (call-Holds scope s0 env _) (λ _.
            subst (λ k. Sound scope s0 (arm_idle_timeout env k)) (sym w.scope_eq)
              (arm_idle_timeout-Sound env scope s0)))))

  pub resolve_pending_request-Sound :
      {o : Option ActiveRun} → Holds scope s0 o (resolve_pending_request env scope) none
  unfolding resolve_pending_request
  resolve_pending_request-Sound =
      Ensures-bind (active_run_of-Holds scope s0) (λ a. resolve_view-Sound a a.run_view.pending)
