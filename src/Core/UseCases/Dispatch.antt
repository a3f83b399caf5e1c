-- ===== src/Core/UseCases/Dispatch.antt =====
-- CoreUseCases.handle_private_chat_text and handle_run_view_action of core/use_cases.py.
use aw_bot.Prelude.{
  not, String, Bool, true, false, Option, none, some, List, [], ◌∷◌, str_eq, if◌then◌else◌, is_some,
}
use Prim.Native.String
use aw_bot.Prelude.Action.{pure, get, ◌>>=◌, ◌>>◌}
use aw_bot.Prelude.Text.{strip}
use aw_bot.Core.Types.{HistoricalAgentSession, AccessMode, full, workspace, read_only}
use aw_bot.Core.Controller.State.{Env, Controller, M, list_named_workspaces, list_agent_sessions}
use aw_bot.Core.Controller.Consume.{Outcome}
use aw_bot.Core.Controller.Handlers.{
  awaits_input_of, open_approval_of, is_running_for, start_text_run, stop_run, queue_message,
  answer_user_input, answer_approval, reset_session, resume_session,
}
use aw_bot.Core.UseCases.Command.{
  Command, stop, reset, missing, timeout, cd, ws_save, ws_use, ws_remove, find_files, choose_agent,
  choose_model, ws_list, list_model, list_skill, text, command_of, Resume, list_sessions, restore,
  no_resume, resume_of, map_approval_decision,
}
use aw_bot.Core.UseCases.State.{
  PrivateChatTextMessage, RunViewAction, Reply, run_reply, workspace_list, resume_list,
  resume_restored, approval_decision_required, Setting, U, core, invalid, ask,
}
use aw_bot.Core.UseCases.Operations.{
  change_timeout, change_to, save_as, use_named, remove_named, files_for, show_models, show_skills,
  use_agent, use_model,
}

abbrev pub same_mode : AccessMode → AccessMode → Bool
same_mode full full = true
same_mode workspace workspace = true
same_mode read_only read_only = true
same_mode a b = false

abbrev has_mode : AccessMode → Option AccessMode → Bool
has_mode mode none = false
has_mode mode (some m) = same_mode m mode

-- `_resume_compatibility_error`
unfoldable pub resume_compatibility_error :
    Env → Controller → HistoricalAgentSession → Option String
resume_compatibility_error env s session =
    if not (str_eq session.agent_name env.agent_name)
    then some "historical session has a different agent"
    else if not (str_eq session.workspace.path s.workspace.path)
    then some "historical session has a different workspace"
    else if not (has_mode env.access_mode session.access_mode)
    then some "historical session has an incompatible access mode"
    else none

unfoldable pub compatible :
    Env → Controller → List HistoricalAgentSession → List HistoricalAgentSession
compatible env s [] = []
compatible env s (session ∷ rest) =
    let others = compatible env s rest in
    if is_some (resume_compatibility_error env s session) then others else session ∷ others

-- `next((item for item in sessions if item.agent_session_id == session_id), None)`
unfoldable pub session_with : String → List HistoricalAgentSession → Option HistoricalAgentSession
session_with id [] = none
session_with id (session ∷ rest) =
    let other = session_with id rest in
    if str_eq session.agent_session_id id then some session else other

module _ (setting : Setting) where
  -- `/resume`
  unfoldable pub list_resumable : String → String → U Reply
  list_resumable scope user = do
    sessions ← ask setting (list_agent_sessions scope user) setting.sessions_of
    u ← get
    pure (resume_list (compatible setting.env u.controller sessions))

  unfoldable pub resume_checked : String → String → HistoricalAgentSession → Option String → U Reply
  resume_checked scope user session (some error) = invalid error
  resume_checked scope user session none = do
    core (resume_session setting.env scope user session)
    pure (resume_restored session)

  unfoldable pub resume_found : String → String → String → Option HistoricalAgentSession → U Reply
  resume_found scope user id none = invalid (String.◌++◌ "historical session was not found: " id)
  resume_found scope user id (some session) = do
    u ← get
    resume_checked scope user session (resume_compatibility_error setting.env u.controller session)

  -- `/resume` with an identifier
  unfoldable pub resume_with : String → String → String → U Reply
  resume_with scope user id = do
    sessions ← ask setting (list_agent_sessions scope user) setting.sessions_of
    resume_found scope user id (session_with id sessions)

  -- The method of the controller that ends a message in a run, or in a wait for one.
  unfoldable pub in_run : M Outcome → U Reply
  in_run m = do outcome ← core m; pure (run_reply outcome)

  unfoldable pub start_or_resume : PrivateChatTextMessage → Resume → U Reply
  start_or_resume message list_sessions =
      list_resumable message.private_chat_scope_id message.user_id
  start_or_resume message (restore id) =
      resume_with message.private_chat_scope_id message.user_id id
  start_or_resume message no_resume = do
    u ← get
    in_run (
        start_text_run setting.env message.private_chat_scope_id message.user_id message.text
          (u.scope_models message.private_chat_scope_id)
          (u.scope_opencode_agents message.private_chat_scope_id) message.attachments)

  unfoldable pub queue_or_start : PrivateChatTextMessage → Bool → U Reply
  queue_or_start message true = do
    u ← get
    queued ← core (
        queue_message setting.env message.private_chat_scope_id message.user_id message.text
          (u.scope_models message.private_chat_scope_id)
          (u.scope_opencode_agents message.private_chat_scope_id) message.attachments)
    pure (run_reply (some queued))
  queue_or_start message false = start_or_resume message (resume_of (strip message.text))

  unfoldable pub decide : PrivateChatTextMessage → String → Option String → U Reply
  decide message pending_request_id none = pure (approval_decision_required pending_request_id)
  decide message pending_request_id (some decision) = in_run (
      answer_approval setting.env message.private_chat_scope_id message.user_id pending_request_id
        decision)

  unfoldable pub decide_or_go_on : PrivateChatTextMessage → Option String → U Reply
  decide_or_go_on message (some pending_request_id) =
      decide message pending_request_id (map_approval_decision setting.lower message.text)
  decide_or_go_on message none = do
    u ← get
    queue_or_start message
        (is_running_for message.user_id (u.controller.active_runs message.private_chat_scope_id))

  unfoldable pub answer_or_go_on : PrivateChatTextMessage → Bool → U Reply
  answer_or_go_on message true =
      in_run
        (answer_user_input setting.env message.private_chat_scope_id message.user_id message.text)
  answer_or_go_on message false = do
    u ← get
    decide_or_go_on message
        (open_approval_of message.user_id (u.controller.active_runs message.private_chat_scope_id))

  -- A text that is none of the commands.
  unfoldable pub handle_plain_text : PrivateChatTextMessage → U Reply
  handle_plain_text message = do
    u ← get
    answer_or_go_on message
        (awaits_input_of message.user_id (u.controller.active_runs message.private_chat_scope_id))

  unfoldable pub handle_command : PrivateChatTextMessage → Command → U Reply
  handle_command message stop =
      in_run (stop_run setting.env message.private_chat_scope_id message.user_id)
  handle_command message reset =
      in_run (reset_session setting.env message.private_chat_scope_id message.user_id)
  handle_command message (missing error) = invalid error
  handle_command message (timeout value) =
      change_timeout setting message.private_chat_scope_id value
  handle_command message (cd path) =
      change_to setting message.private_chat_scope_id message.user_id path
  handle_command message ws_list = do
    named ← ask setting list_named_workspaces setting.named_workspaces_of
    pure (workspace_list named)
  handle_command message (ws_save name) = save_as setting name
  handle_command message (ws_use name) =
      use_named setting message.private_chat_scope_id message.user_id name
  handle_command message (ws_remove name) = remove_named setting name
  handle_command message (find_files query) = files_for setting query
  handle_command message list_model = show_models setting message.private_chat_scope_id
  handle_command message list_skill = show_skills setting
  handle_command message (choose_agent agent) =
      use_agent setting message.private_chat_scope_id agent
  handle_command message (choose_model model) =
      use_model setting message.private_chat_scope_id model
  handle_command message text = handle_plain_text message

  unfoldable pub handle_private_chat_text : PrivateChatTextMessage → U Reply
  handle_private_chat_text message = handle_command message (command_of (strip message.text))

  unfoldable pub handle_run_view_action : RunViewAction → U Reply
  handle_run_view_action act = in_run (
      answer_approval setting.env act.private_chat_scope_id act.user_id act.pending_request_id
        act.action)
