-- ===== src/Core/Controller/Invariant/Handlers.antt =====
-- The public methods keep the invariant.
use aw_bot.Prelude.{String, Bool, true, false, Option, none, some, List, [], is_some, refl, str_eq}
use aw_bot.Prelude.Action.Ensures.{
  Ensures, Ensures-bind, Ensures-if, Ensures-pure, Ensures-known, Ensures-pre, Ensures-throw,
}
use aw_bot.Core.Types.{
  Run, AgentSession, HistoricalAgentSession, Workspace, Attachment, interrupted, user_input,
  is_terminal,
}
use aw_bot.Core.Events.{run_interrupted}
use aw_bot.Core.RunView.{PendingRequestView, initial_run_view}
use aw_bot.Core.RunView.Status.{initial_run_view-IsCoherent}
use aw_bot.Core.Controller.State.{Env, ActiveRun, Controller, M, clear_current_session}
use aw_bot.Core.Controller.Consume.{Outcome}
use aw_bot.Core.Controller.Handlers.{
  owned_or_raise, require_active_run, no_active_run, enter_run, start_new_run, start_text_run,
  stop_as, stop_run, queue_message, is_kind, is_approval, answer_user_input, answer_approval,
  interrupted_run, reset_rest, decline_or_stop, finish_run_for_reset, finish_reset_after,
  end_run_with, reset_session, change_rest, change_workspace, clear_selected_session,
  resume_session, approval_id, owned_by,
}
use aw_bot.Core.Controller.Invariant.{
  IsWf, IsWf-flags, At, Holds, Sound, forget, IsWf-of, put_active-Holds, pure-Holds, throw-Holds,
  call-Holds, now-Holds, weaken-Holds, loosen-Holds, read-Holds, mark_fresh-Holds,
  select_session-Holds, set_workspace-Holds, stored-Ensures,
}
use aw_bot.Core.Controller.Invariant.Timers.{arm_idle_timeout-Sound}
use aw_bot.Core.Controller.Invariant.Sessions.{
  session_for_new_turn-Holds, start_turn_with_session_recovery-Sound, clear_session_selection-Holds,
  create_selected_session-Holds,
}
use aw_bot.Core.Controller.Invariant.Consume.{
  Made, new_run-Holds, show_event-Sound, finish_and_complete-Sound, resolve_pending_request-Sound,
}

module _ (env : Env) (scope : String) (s0 : Controller) where
  owned_or_raise-Holds :
      (user : String) (a : ActiveRun)
      → Ensures
          (At scope s0 none)
          (At scope s0 (some a))
          (owned_or_raise scope user (some a))
          (λ b. At scope s0 (some b))
  unfolding owned_or_raise no_active_run
  owned_or_raise-Holds user a =
      Ensures-if (str_eq a.user_id user) (λ _. Ensures-pure a (λ s p. p))
        (λ _. Ensures-throw _ (λ s p. forget scope s0 p))

  require_active_run-Holds :
      (user : String)
      → Ensures
          (At scope s0 none)
          (At scope s0 none)
          (require_active_run scope user)
          (λ a. At scope s0 (some a))
  unfolding require_active_run owned_or_raise no_active_run
  require_active_run-Holds user =
      stored-Ensures scope s0 (owned_or_raise scope user) (Ensures-throw _ (λ s p. p))
        (λ a w. owned_or_raise-Holds user a)

  entered-IsWf :
      (user : String) (session : AgentSession) (turn : String) (run : Run)
      → Made env scope s0 user session turn run
      → IsWf scope (record {
        run = run;
        run_view = initial_run_view run.run_id;
        turn_stream = turn;
        user_id = user;
        agent_session = session;
        queued_messages = [];
        stop_requested = false;
        completion_future = none;
        idle_timeout_handle = none;
        timed_out = false;
      })
  unfolding initial_run_view
  entered-IsWf user session turn run made = record {
    scope_eq = made.scope_eq;
    view_eq = refl;
    coherent = initial_run_view-IsCoherent run.run_id;
    user_eq = made.user_eq;
    turn_eq = made.turn_eq;
    session_eq = made.session_eq;
    unfinished = refl;
  }

  enter_run-Sound :
      (user : String) (session : AgentSession) (turn : String)
      → Sound scope s0 (enter_run env scope user (session, turn))
  unfolding enter_run
  enter_run-Sound user session turn =
      Ensures-bind (new_run-Holds env scope s0 scope user session turn refl) (λ run.
        Ensures-known (λ s p. p.1)
          (λ made.
            Ensures-pre (λ s p. p.0)
              (Ensures-bind (call-Holds scope s0 env _) (λ _.
                Ensures-bind (call-Holds scope s0 env _) (λ _.
                  Ensures-bind
                    (loosen-Holds scope s0 (
                      put_active-Holds scope s0 _ (λ s p. entered-IsWf user session turn run made)))
                    (λ _.
                      Ensures-bind (arm_idle_timeout-Sound env scope s0)
                        (λ _. pure-Holds scope s0 none)))))))

  pub start_text_run-Sound :
      (user text : String) (model agent : Option String) (attachments : List Attachment)
      → Sound scope s0 (start_text_run env scope user text model agent attachments)
  unfolding start_text_run start_new_run
  start_text_run-Sound user text model agent attachments = read-Holds scope s0 (λ s.
      Ensures-if (is_some (s.active_runs scope)) (λ _. throw-Holds scope s0 _)
        (λ _. Ensures-bind (session_for_new_turn-Holds env scope s0 user) (λ session.
          Ensures-bind
            (start_turn_with_session_recovery-Sound env scope s0 user session text model agent
              attachments)
            (λ (started, turn). enter_run-Sound user started turn))))

  stop_as-Sound :
      {o : Option ActiveRun} (a : ActiveRun) (pending : Option PendingRequestView)
      → Holds scope s0 o (stop_as env scope a pending) none
  unfolding stop_as
  stop_as-Sound a (some pending) = Ensures-bind (call-Holds scope s0 env _) (λ _.
      Ensures-bind (show_event-Sound env scope s0 run_interrupted)
        (λ _. finish_and_complete-Sound env scope s0 interrupted))
  stop_as-Sound a none =
      Ensures-bind (loosen-Holds scope s0 (call-Holds scope s0 env _))
        (λ _. pure-Holds scope s0 none)

  pub stop_run-Sound : (user : String) → Sound scope s0 (stop_run env scope user)
  unfolding stop_run
  stop_run-Sound user = Ensures-bind (require_active_run-Holds user) (λ a.
      Ensures-bind
        (put_active-Holds scope s0 _
          (λ s p. IsWf-flags a [] true a.timed_out a.idle_timeout_handle (IsWf-of scope s0 p)))
        (λ _. stop_as-Sound _ a.run_view.pending))

  pub queue_message-Sound :
      (user text : String) (model agent : Option String) (attachments : List Attachment)
      → Sound scope s0 (queue_message env scope user text model agent attachments)
  unfolding queue_message
  queue_message-Sound user text model agent attachments =
      Ensures-bind (require_active_run-Holds user) (λ a.
        Ensures-if (is_some a.run_view.pending)
          (λ _. loosen-Holds scope s0 (throw-Holds scope s0 _))
          (λ _. Ensures-bind (now-Holds scope s0 env) (λ time.
            Ensures-bind
              (loosen-Holds scope s0 (
                put_active-Holds scope s0 _ (λ s p.
                  IsWf-flags a _ a.stop_requested a.timed_out a.idle_timeout_handle
                    (IsWf-of scope s0 p))))
              (λ _. pure-Holds scope s0 a.run))))

  pub answer_user_input-Sound :
      (user text : String) → Sound scope s0 (answer_user_input env scope user text)
  unfolding answer_user_input
  answer_user_input-Sound user text = Ensures-bind (require_active_run-Holds user) (λ a.
      Ensures-if (is_kind user_input a.run_view.pending)
        (λ _. Ensures-bind (call-Holds scope s0 env _) (λ _.
          Ensures-bind (resolve_pending_request-Sound env scope s0)
            (λ _. pure-Holds scope s0 none)))
        (λ _. loosen-Holds scope s0 (throw-Holds scope s0 _)))

  pub answer_approval-Sound :
      (user id decision : String) → Sound scope s0 (answer_approval env scope user id decision)
  unfolding answer_approval
  answer_approval-Sound user id decision = Ensures-bind (require_active_run-Holds user) (λ a.
      Ensures-if (is_approval id a.run_view.pending)
        (λ _. Ensures-bind (call-Holds scope s0 env _) (λ _.
          Ensures-bind (resolve_pending_request-Sound env scope s0)
            (λ _. pure-Holds scope s0 none)))
        (λ _. loosen-Holds scope s0 (throw-Holds scope s0 _)))

  decline_or_stop-Sound :
      {o : Option ActiveRun} (user : String) (a : ActiveRun) (id : Option String)
      → Holds scope s0 o (decline_or_stop env scope user a id) none
  unfolding decline_or_stop
  decline_or_stop-Sound user a none = weaken-Holds scope s0 (stop_run-Sound user)
  decline_or_stop-Sound user a (some id) = Ensures-bind (call-Holds scope s0 env _) (λ _.
      Ensures-bind (resolve_pending_request-Sound env scope s0) (λ _. pure-Holds scope s0 none))

  finish_run_for_reset-Sound :
      (user : String) → Sound scope s0 (finish_run_for_reset env scope user)
  unfolding finish_run_for_reset
  finish_run_for_reset-Sound user =
      Ensures-bind (require_active_run-Holds user)
        (λ a. decline_or_stop-Sound user a (approval_id a.run_view.pending))

  pub finish_reset_after-Sound :
      (user : String) (run : Run) → Sound scope s0 (finish_reset_after env scope user run)
  unfolding finish_reset_after
  finish_reset_after-Sound user run =
      Ensures-if (is_terminal run.status) (λ _. pure-Holds scope s0 (some run))
        (λ _. stop_run-Sound user)

  end_run_with-Sound :
      (ending : M Outcome) (user : String) (active : Bool)
      → Sound scope s0 ending
      → Sound scope s0 (end_run_with env ending scope user active)
  unfolding end_run_with interrupted_run
  end_run_with-Sound ending user true sound = sound
  end_run_with-Sound ending user false sound =
      Ensures-bind (Ensures-bind (now-Holds scope s0 env) (λ time. pure-Holds scope s0 _))
        (λ run. pure-Holds scope s0 (some run))

  pub reset_rest-Sound :
      (user : String) (ended : Outcome) → Sound scope s0 (reset_rest env scope user ended)
  unfolding reset_rest
  reset_rest-Sound user none = pure-Holds scope s0 none
  reset_rest-Sound user (some run) = Ensures-bind (clear_session_selection-Holds env scope s0) (λ _.
      Ensures-bind (create_selected_session-Holds env scope s0 user)
        (λ _. pure-Holds scope s0 (some run)))

  pub reset_session-Sound : (user : String) → Sound scope s0 (reset_session env scope user)
  unfolding reset_session
  reset_session-Sound user = read-Holds scope s0 (λ s.
      Ensures-bind
        (end_run_with-Sound (finish_run_for_reset env scope user) user
          (owned_by user (s.active_runs scope)) (finish_run_for_reset-Sound user))
        (λ ended. reset_rest-Sound user ended))

  pub change_rest-Sound :
      (user : String) (workspace : Workspace) (ended : Outcome)
      → Sound scope s0 (change_rest env scope user workspace ended)
  unfolding change_rest
  change_rest-Sound user workspace none = pure-Holds scope s0 none
  change_rest-Sound user workspace (some run) =
      Ensures-bind (clear_session_selection-Holds env scope s0) (λ _.
        Ensures-bind (set_workspace-Holds scope s0 workspace) (λ _.
          Ensures-bind (create_selected_session-Holds env scope s0 user)
            (λ _. pure-Holds scope s0 (some run))))

  pub change_workspace-Sound :
      (user : String) (workspace : Workspace)
      → Sound scope s0 (change_workspace env scope user workspace)
  unfolding change_workspace
  change_workspace-Sound user workspace = read-Holds scope s0 (λ s.
      Ensures-bind
        (end_run_with-Sound (stop_run env scope user) user (owned_by user (s.active_runs scope))
          (stop_run-Sound user))
        (λ ended. change_rest-Sound user workspace ended))

  pub clear_selected_session-Sound : Sound scope s0 (clear_selected_session env scope)
  unfolding clear_selected_session
  clear_selected_session-Sound =
      Ensures-bind (call-Holds scope s0 env (clear_current_session scope)) (λ _.
        Ensures-bind (mark_fresh-Holds scope s0 true) (λ _. select_session-Holds scope s0 none))

  pub resume_session-Sound :
      (user : String) (historical : HistoricalAgentSession)
      → Sound scope s0 (resume_session env scope user historical)
  unfolding resume_session
  resume_session-Sound user historical = Ensures-bind (mark_fresh-Holds scope s0 false) (λ _.
      Ensures-bind (select_session-Holds scope s0 (some _))
        (λ _. Ensures-bind (now-Holds scope s0 env) (λ time. call-Holds scope s0 env _)))
