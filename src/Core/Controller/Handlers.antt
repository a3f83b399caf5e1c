-- ===== src/Core/Controller/Handlers.antt =====
-- The methods that the use cases call. An `Outcome` of `none` means that the method waits: for the
-- events of the agent turn, or for the completion future (`stop_run`).
use aw_bot.Prelude.{
  String, Bool, true, false, Option, none, some, List, [], ◌∷◌, ◌++◌, ◌&&◌, not, is_some, str_eq,
  if◌then◌else◌,
}
use Prim.Native.String
use aw_bot.Prelude.Action.{pure, throw, get, ◌>>=◌, ◌>>◌}
use aw_bot.Core.Types.{
  Run, interrupted, Workspace, AgentSession, HistoricalAgentSession, AccessMode, Attachment,
  PendingKind, user_input, approval, is_terminal,
}
use aw_bot.Core.Events.{run_interrupted}
use aw_bot.Core.RunView.{PendingRequestView, initial_run_view}
use aw_bot.Core.Controller.State.{
  Env, ActiveRun, M, runtime_error, record_run_created, publish, clear_current_session,
  save_agent_session, stream_stop, stream_answer_user_input, stream_answer_approval, put_active,
  select_session, mark_fresh, set_workspace, call, now,
}
use aw_bot.Core.Controller.Timers.{arm_idle_timeout}
use aw_bot.Core.Controller.Sessions.{
  session_for_new_turn, start_turn_with_session_recovery, clear_session_selection,
  create_selected_session,
}
use aw_bot.Core.Controller.Consume.{
  Outcome, new_run, show_event, finish_and_complete, resolve_pending_request,
}

abbrev pub is_kind : PendingKind → Option PendingRequestView → Bool
is_kind kind none = false
is_kind user_input (some pending) = elim pending.kind [ user_input ↦ true | approval ↦ false ]
is_kind approval (some pending) = elim pending.kind [ user_input ↦ false | approval ↦ true ]

-- has_any_active_run, on the stored run of the chat
unfoldable pub owned_by : String → Option ActiveRun → Bool
owned_by user none = false
owned_by user (some active_run) = str_eq active_run.user_id user

-- has_active_run
unfoldable pub is_running_for : String → Option ActiveRun → Bool
is_running_for user none = false
is_running_for user (some active_run) =
    str_eq active_run.user_id user && not (is_some active_run.run_view.pending)

-- has_open_user_input_pending_request
unfoldable pub awaits_input_of : String → Option ActiveRun → Bool
awaits_input_of user none = false
awaits_input_of user (some active_run) =
    str_eq active_run.user_id user && is_kind user_input active_run.run_view.pending

unfoldable pub approval_id : Option PendingRequestView → Option String
approval_id none = none
approval_id (some pending) = elim pending.kind [
  | user_input ↦ none
  | approval ↦ some pending.pending_request_id
]

-- open_approval_pending_request_id
unfoldable pub open_approval_of : String → Option ActiveRun → Option String
open_approval_of user none = none
open_approval_of user (some active_run) =
    if str_eq active_run.user_id user then approval_id active_run.run_view.pending else none

unfoldable pub no_active_run : String → M ActiveRun
no_active_run scope =
    throw (runtime_error (String.◌++◌ "scope does not have an active run for user: " scope))

unfoldable pub owned_or_raise : String → String → Option ActiveRun → M ActiveRun
owned_or_raise scope user none = no_active_run scope
owned_or_raise scope user (some active_run) =
    if str_eq active_run.user_id user then pure active_run else no_active_run scope

-- `_require_active_run`
unfoldable pub require_active_run : String → String → M ActiveRun
require_active_run scope user = do s ← get; owned_or_raise scope user (s.active_runs scope)

abbrev pub is_approval : String → Option PendingRequestView → Bool
is_approval id none = false
is_approval id (some pending) =
    is_kind approval (some pending) && str_eq pending.pending_request_id id

module _ (env : Env) where
  unfoldable pub enter_run : String → String → AgentSession × String → M Outcome
  enter_run scope user (session, turn) = do
    run ← new_run env scope user session turn
    call env (record_run_created run)
    call env (publish scope (initial_run_view run.run_id))
    put_active scope (
        some (record {
          run = run;
          run_view = initial_run_view run.run_id;
          turn_stream = turn;
          user_id = user;
          agent_session = session;
          queued_messages = [];
          stop_requested = false;
          completion_future = none;
          idle_timeout_handle = none;
          timed_out = false;
        }))
    arm_idle_timeout env scope
    pure none

  unfoldable pub start_new_run :
      String → String → String → Option String → Option String → List Attachment → M Outcome
  start_new_run scope user text model opencode_agent attachments = do
    session ← session_for_new_turn env scope user
    started ←
        start_turn_with_session_recovery env scope user session text model opencode_agent
          attachments
    enter_run scope user started

  unfoldable pub start_text_run :
      String → String → String → Option String → Option String → List Attachment → M Outcome
  start_text_run scope user text model opencode_agent attachments = do
    s ← get
    if is_some (s.active_runs scope)
        then throw (runtime_error (String.◌++◌ "scope already has an active run: " scope))
        else start_new_run scope user text model opencode_agent attachments

  unfoldable pub stop_as : String → ActiveRun → Option PendingRequestView → M Outcome
  stop_as scope active_run (some pending) = do
    call env (stream_stop active_run.turn_stream)
    show_event env scope run_interrupted
    finish_and_complete env scope interrupted
  stop_as scope active_run none = do call env (stream_stop active_run.turn_stream); pure none

  unfoldable pub stop_run : String → String → M Outcome
  stop_run scope user = do
    active_run ← require_active_run scope user
    let stopping = record active_run { stop_requested = true; queued_messages = [] }
    put_active scope (some stopping)
    stop_as scope stopping stopping.run_view.pending

  unfoldable pub queue_message :
      String → String → String → Option String → Option String → List Attachment → M Run
  queue_message scope user text model opencode_agent attachments = do
    active_run ← require_active_run scope user
    if is_some active_run.run_view.pending
        then throw (
            runtime_error (String.◌++◌ "scope has a pending request and cannot queue text: " scope))
        else do
          time ← now env
          put_active scope (
              some (record active_run {
                queued_messages =
                    active_run.queued_messages
                    ++ record {
                      user_id = user;
                      text = text;
                      queued_at = time;
                      model = model;
                      opencode_agent = opencode_agent;
                      attachments = attachments;
                    }
                      ∷ [];
              }))
          pure active_run.run

  unfoldable pub answer_user_input : String → String → String → M Outcome
  answer_user_input scope user text = do
    active_run ← require_active_run scope user
    if is_kind user_input active_run.run_view.pending
        then (do
          call env (stream_answer_user_input active_run.turn_stream text)
          resolve_pending_request env scope
          pure none)
        else throw (
            runtime_error
              (String.◌++◌ "scope does not have an open user-input pending request: " scope))

  unfoldable pub answer_approval : String → String → String → String → M Outcome
  answer_approval scope user pending_request_id decision = do
    active_run ← require_active_run scope user
    if is_approval pending_request_id active_run.run_view.pending
        then (do
          call env (stream_answer_approval active_run.turn_stream pending_request_id decision)
          resolve_pending_request env scope
          pure none)
        else throw (
            runtime_error
              (String.◌++◌ "scope does not have matching approval pending request: " scope))

  -- `_interrupted_run`
  unfoldable pub interrupted_run : String → String → M Run
  interrupted_run scope user = do
    time ← now env
    pure (record {
      run_id = "";
      private_chat_scope_id = scope;
      user_id = user;
      agent_session_id = "";
      agent_name = env.agent_name;
      agent_turn_id = "";
      status = interrupted;
      created_at = env.isoformat time;
      updated_at = env.isoformat time;
    })

  -- What `reset_session` does once the run has ended, at once or after a wait.
  unfoldable pub reset_rest : String → String → Outcome → M Outcome
  reset_rest scope user none = pure none
  reset_rest scope user (some run) = do
    clear_session_selection env scope
    create_selected_session env scope user
    pure (some run)

  unfoldable pub decline_or_stop : String → String → ActiveRun → Option String → M Outcome
  decline_or_stop scope user active_run none = stop_run scope user
  decline_or_stop scope user active_run (some pending_request_id) = do
    call env (stream_answer_approval active_run.turn_stream pending_request_id "cancel")
    resolve_pending_request env scope
    pure none

  -- `_finish_run_for_session_reset`, up to its first wait.
  unfoldable pub finish_run_for_reset : String → String → M Outcome
  finish_run_for_reset scope user = do
    active_run ← require_active_run scope user
    decline_or_stop scope user active_run (approval_id active_run.run_view.pending)

  -- The same method after the declined turn has paused or ended with `run`.
  unfoldable pub finish_reset_after : String → String → Run → M Outcome
  finish_reset_after scope user run =
      if is_terminal run.status then pure (some run) else stop_run scope user

  unfoldable pub end_run_with : M Outcome → String → String → Bool → M Outcome
  end_run_with ending scope user true = ending
  end_run_with ending scope user false = do run ← interrupted_run scope user; pure (some run)

  unfoldable pub reset_session : String → String → M Outcome
  reset_session scope user = do
    s ← get
    ended ←
        end_run_with (finish_run_for_reset scope user) scope user
          (owned_by user (s.active_runs scope))
    reset_rest scope user ended

  unfoldable pub change_rest : String → String → Workspace → Outcome → M Outcome
  change_rest scope user workspace none = pure none
  change_rest scope user workspace (some run) = do
    clear_session_selection env scope
    set_workspace workspace
    create_selected_session env scope user
    pure (some run)

  unfoldable pub change_workspace : String → String → Workspace → M Outcome
  change_workspace scope user workspace = do
    s ← get
    ended ← end_run_with (stop_run scope user) scope user (owned_by user (s.active_runs scope))
    change_rest scope user workspace ended

  unfoldable pub clear_selected_session : String → M Unit
  clear_selected_session scope = do
    call env (clear_current_session scope)
    mark_fresh scope true
    select_session scope none

  abbrev mode_or : AccessMode → Option AccessMode → AccessMode
  mode_or default none = default
  mode_or default (some mode) = mode

  unfoldable pub resume_session : String → String → HistoricalAgentSession → M Unit
  resume_session scope user historical = do
    mark_fresh scope false
    let session : AgentSession = record {
      agent_session_id = historical.agent_session_id;
      private_chat_scope_id = scope;
      user_id = user;
      agent_name = historical.agent_name;
      workspace = historical.workspace;
      access_mode = mode_or env.access_mode historical.access_mode;
    }
    select_session scope (some session)
    time ← now env
    call env (
        save_agent_session (record {
          agent_session_id = session.agent_session_id;
          private_chat_scope_id = session.private_chat_scope_id;
          user_id = session.user_id;
          agent_name = session.agent_name;
          workspace = session.workspace;
          access_mode = some session.access_mode;
          updated_at = env.isoformat time;
        }))
