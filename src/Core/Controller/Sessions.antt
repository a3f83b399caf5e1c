-- ===== src/Core/Controller/Sessions.antt =====
-- Which agent session a turn runs in: the selected one, a fresh one, one that the agent picks, or a
-- replacement for one that the agent has lost.
use aw_bot.Prelude.{String, false, Option, none, some, List, if◌then◌else◌}
use aw_bot.Prelude.Action.{Result, return, raise, pure, throw, get, ◌>>=◌, ◌>>◌}
use aw_bot.Core.Types.{AgentSession, Attachment}
use aw_bot.Core.Controller.State.{
  Env, M, Exception, agent_thread_not_found, create_session, get_or_create_session,
  save_agent_session, clear_current_session, start_turn, select_session, mark_fresh, call,
  call_session, call_turn, now,
}

-- `try: m` / `except AgentThreadNotFound: handler`
unfoldable pub if_not_found : {A : Type 0} → M A → Result Exception A → M A
if_not_found handler (return a) = pure a
if_not_found handler (raise agent_thread_not_found) = handler
if_not_found handler (raise e) = throw e

unfoldable pub except_not_found : {A : Type 0} → M A → M A → M A
except_not_found m handler s = let (r, s') = m s in if_not_found handler r s'

module _ (env : Env) where
  unfoldable pub record_agent_session : AgentSession → M Unit
  record_agent_session session = do
    time ← now env
    call env (
        save_agent_session (record {
          agent_session_id = session.agent_session_id;
          private_chat_scope_id = session.private_chat_scope_id;
          user_id = session.user_id;
          agent_name = session.agent_name;
          workspace = session.workspace;
          access_mode = some session.access_mode;
          updated_at = env.isoformat time;
        }))

  unfoldable pub clear_session_selection : String → M Unit
  clear_session_selection scope = do
    call env (clear_current_session scope)
    select_session scope none
    mark_fresh scope false

  -- The call of `create_session` that four methods make, with the controller's own settings.
  unfoldable pub ask_new_session : String → String → M AgentSession
  ask_new_session scope user = do
    s ← get
    call_session env (create_session scope user env.agent_name s.workspace env.access_mode)

  unfoldable pub create_selected_session : String → String → M AgentSession
  create_selected_session scope user = do
    session ← ask_new_session scope user
    select_session scope (some session)
    record_agent_session session
    pure session

  unfoldable pub fresh_session : String → String → M AgentSession
  fresh_session scope user = do
    session ← ask_new_session scope user
    mark_fresh scope false
    select_session scope (some session)
    record_agent_session session
    pure session

  unfoldable pub session_or_create : String → String → Option AgentSession → M AgentSession
  session_or_create scope user (some session) = pure session
  session_or_create scope user none = do
    s ← get
    session ←
        call_session env
          (get_or_create_session scope user env.agent_name s.workspace env.access_mode)
    select_session scope (some session)
    record_agent_session session
    pure session

  unfoldable pub session_for_new_turn : String → String → M AgentSession
  session_for_new_turn scope user = do
    s ← get
    if s.fresh_session_scope_ids scope
        then fresh_session scope user
        else session_or_create scope user (s.selected_sessions scope)

  unfoldable pub start_agent_turn :
      AgentSession → String → Option String → Option String → List Attachment → M String
  start_agent_turn session prompt model opencode_agent attachments =
      call_turn env (start_turn session prompt model opencode_agent attachments)

  unfoldable pub start_in_replacement :
      String
      → String
      → String
      → Option String
      → Option String
      → List Attachment
      → M (AgentSession × String)
  start_in_replacement scope user prompt model opencode_agent attachments = do
    replacement ← create_selected_session scope user
    turn ← start_agent_turn replacement prompt model opencode_agent attachments
    pure (replacement, turn)

  unfoldable pub start_in_session :
      AgentSession
      → String
      → Option String
      → Option String
      → List Attachment
      → M (AgentSession × String)
  start_in_session session prompt model opencode_agent attachments = do
    turn ← start_agent_turn session prompt model opencode_agent attachments
    pure (session, turn)

  unfoldable pub start_turn_with_session_recovery :
      String
      → String
      → AgentSession
      → String
      → Option String
      → Option String
      → List Attachment
      → M (AgentSession × String)
  start_turn_with_session_recovery scope user session prompt model opencode_agent attachments =
      except_not_found (start_in_session session prompt model opencode_agent attachments)
        (start_in_replacement scope user prompt model opencode_agent attachments)
