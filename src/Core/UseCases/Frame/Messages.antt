-- ===== src/Core/UseCases/Frame/Messages.antt =====
-- Messages of one chat leave the other chats alone, command by command.
use aw_bot.Prelude.{zero, suc, String, Bool, true, false, Option, none, some, ◌≡◌, refl, ◌≢◌}
use aw_bot.Prelude.Int.{ℤ, pos, negsuc}
use aw_bot.Core.Types.{NamedWorkspace, HistoricalAgentSession}
use aw_bot.Core.Controller.State.{Exception, M}
use aw_bot.Core.Controller.Consume.{Outcome}
use aw_bot.Core.Controller.Timers.{get_idle_timeout}
use aw_bot.Core.Controller.Invariant.{
  AllWf, Sound, SameAt, SameAt-refl, call-Holds, now-Holds, read-Holds, pure-Holds,
}
use aw_bot.Core.Controller.Invariant.Timers.{
  set_idle_timeout-Sound, disable_idle_timeout-Sound, clear_idle_timeout_override-Sound,
}
use aw_bot.Core.Controller.Invariant.Handlers.{
  start_text_run-Sound, stop_run-Sound, queue_message-Sound, answer_user_input-Sound,
  answer_approval-Sound, reset_session-Sound, change_workspace-Sound, clear_selected_session-Sound,
  resume_session-Sound,
}
use aw_bot.Prelude.Text.{strip}
use aw_bot.Prelude.Action.{Result, return, raise}
use aw_bot.Prelude.Action.Ensures.{Post}
use aw_bot.Core.UseCases.State.{PrivateChatTextMessage, Setting, UseCases}
use aw_bot.Core.UseCases.Operations.{
  set_minutes, change_timeout, change_to, save_as, change_to_named, use_named, remove_named,
  files_for, show_models, show_skills, use_agent, use_model,
}
use aw_bot.Core.UseCases.Command.{
  Command, stop, reset, missing, timeout, cd, ws_save, ws_use, ws_remove, find_files, choose_agent,
  choose_model, ws_list, list_model, list_skill, text, command_of, Resume, list_sessions, restore,
  no_resume,
}
use aw_bot.Core.UseCases.Dispatch.{
  list_resumable, resume_checked, resume_found, resume_with, in_run, start_or_resume,
  queue_or_start, decide, decide_or_go_on, answer_or_go_on, handle_plain_text, handle_command,
  handle_private_chat_text,
}
use aw_bot.Core.UseCases.Frame.{
  Reached, Stays, stays, select_model-Stays, select_opencode_agent-Stays, valid_or_raise-Stays,
  ask-Stays,
}

module _ (setting : Setting) (scope : String) (u0 : UseCases) where
  set_minutes-Stays : (minutes : Option ℤ) → Stays scope u0 (set_minutes setting scope minutes)
  unfolding set_minutes
  set_minutes-Stays none = search stays
  set_minutes-Stays (some (negsuc n)) = search stays
  set_minutes-Stays (some (pos zero)) = search stays
  set_minutes-Stays (some (pos (suc n))) = search (stays, set_idle_timeout-Sound)

  get_idle_timeout-Sound : Sound scope u0.controller (get_idle_timeout setting.env scope)
  unfolding get_idle_timeout
  get_idle_timeout-Sound = read-Holds scope u0.controller (λ s. pure-Holds scope u0.controller _)

  change_timeout-Stays : (value : String) → Stays scope u0 (change_timeout setting scope value)
  unfolding change_timeout
  change_timeout-Stays value =
      search
        (
          stays, disable_idle_timeout-Sound, clear_idle_timeout_override-Sound,
          get_idle_timeout-Sound, set_minutes-Stays,
        )
        depth 12

  change_to-Stays : (user path : String) → Stays scope u0 (change_to setting scope user path)
  unfolding change_to
  change_to-Stays user path = search (stays, valid_or_raise-Stays, change_workspace-Sound)

  save_as-Stays : (name : String) → Stays scope u0 (save_as setting name)
  unfolding save_as
  save_as-Stays name = search (stays, valid_or_raise-Stays, now-Holds, call-Holds) depth 12

  change_to_named-Stays :
      (user name : String) (named : Option NamedWorkspace)
      → Stays scope u0 (change_to_named setting scope user name named)
  unfolding change_to_named
  change_to_named-Stays user name none = search stays
  change_to_named-Stays user name (some named) = change_to-Stays user named.workspace.path

  use_named-Stays : (user name : String) → Stays scope u0 (use_named setting scope user name)
  unfolding use_named
  use_named-Stays user name = search (stays, ask-Stays, change_to_named-Stays)

  remove_named-Stays : (name : String) → Stays scope u0 (remove_named setting name)
  unfolding remove_named
  remove_named-Stays name = search (stays, call-Holds)

  files_for-Stays : (query : String) → Stays scope u0 (files_for setting query)
  unfolding files_for
  files_for-Stays query = search stays

  show_models-Stays : Stays scope u0 (show_models setting scope)
  unfolding show_models
  show_models-Stays = search (stays, ask-Stays)

  show_skills-Stays : Stays scope u0 (show_skills setting)
  unfolding show_skills
  show_skills-Stays = search (stays, ask-Stays)

  use_agent-Stays : (agent : String) → Stays scope u0 (use_agent setting scope agent)
  unfolding use_agent
  use_agent-Stays agent =
      search (stays, select_opencode_agent-Stays, clear_selected_session-Sound) depth 12

  use_model-Stays : (model : String) → Stays scope u0 (use_model setting scope model)
  unfolding use_model
  use_model-Stays model =
      search (stays, ask-Stays, select_model-Stays, clear_selected_session-Sound) depth 12

module _ (setting : Setting) (message : PrivateChatTextMessage) (u0 : UseCases) where
  abbrev chat : String
  chat = message.private_chat_scope_id

  in_run-Stays : (m : M Outcome) → Sound chat u0.controller m → Stays chat u0 (in_run setting m)
  unfolding in_run
  in_run-Stays m sound = search (stays, sound)

  list_resumable-Stays : Stays chat u0 (list_resumable setting chat message.user_id)
  unfolding list_resumable
  list_resumable-Stays = search (stays, ask-Stays)

  resume_checked-Stays :
      (session : HistoricalAgentSession) (error : Option String)
      → Stays chat u0 (resume_checked setting chat message.user_id session error)
  unfolding resume_checked
  resume_checked-Stays session (some error) = search stays
  resume_checked-Stays session none = search (stays, resume_session-Sound)

  resume_found-Stays :
      (id : String) (found : Option HistoricalAgentSession)
      → Stays chat u0 (resume_found setting chat message.user_id id found)
  unfolding resume_found
  resume_found-Stays id none = search stays
  resume_found-Stays id (some session) = search (stays, resume_checked-Stays)

  resume_with-Stays : (id : String) → Stays chat u0 (resume_with setting chat message.user_id id)
  unfolding resume_with
  resume_with-Stays id = search (stays, ask-Stays, resume_found-Stays)

  start_or_resume-Stays : (resume : Resume) → Stays chat u0 (start_or_resume setting message resume)
  unfolding start_or_resume
  start_or_resume-Stays list_sessions = list_resumable-Stays
  start_or_resume-Stays (restore id) = resume_with-Stays id
  start_or_resume-Stays no_resume = search (stays, in_run-Stays, start_text_run-Sound)

  queue_or_start-Stays : (running : Bool) → Stays chat u0 (queue_or_start setting message running)
  unfolding queue_or_start
  queue_or_start-Stays true = search (stays, queue_message-Sound)
  queue_or_start-Stays false = start_or_resume-Stays _

  decide-Stays :
      (id : String) (decision : Option String) → Stays chat u0 (decide setting message id decision)
  unfolding decide
  decide-Stays id none = search stays
  decide-Stays id (some decision) = search (in_run-Stays, answer_approval-Sound)

  decide_or_go_on-Stays : (id : Option String) → Stays chat u0 (decide_or_go_on setting message id)
  unfolding decide_or_go_on
  decide_or_go_on-Stays (some id) = decide-Stays id _
  decide_or_go_on-Stays none = search (stays, queue_or_start-Stays)

  answer_or_go_on-Stays : (waits : Bool) → Stays chat u0 (answer_or_go_on setting message waits)
  unfolding answer_or_go_on
  answer_or_go_on-Stays true = search (in_run-Stays, answer_user_input-Sound)
  answer_or_go_on-Stays false = search (stays, decide_or_go_on-Stays)

  handle_plain_text-Stays : Stays chat u0 (handle_plain_text setting message)
  unfolding handle_plain_text
  handle_plain_text-Stays = search (stays, answer_or_go_on-Stays)

  handle_command-Stays :
      (command : Command) → Stays chat u0 (handle_command setting message command)
  unfolding handle_command
  handle_command-Stays stop = search (in_run-Stays, stop_run-Sound)
  handle_command-Stays reset = search (in_run-Stays, reset_session-Sound)
  handle_command-Stays (missing error) = search stays
  handle_command-Stays (timeout value) = change_timeout-Stays setting chat u0 value
  handle_command-Stays (cd path) = change_to-Stays setting chat u0 message.user_id path
  handle_command-Stays ws_list = search (stays, ask-Stays)
  handle_command-Stays (ws_save name) = save_as-Stays setting chat u0 name
  handle_command-Stays (ws_use name) = use_named-Stays setting chat u0 message.user_id name
  handle_command-Stays (ws_remove name) = remove_named-Stays setting chat u0 name
  handle_command-Stays (find_files query) = files_for-Stays setting chat u0 query
  handle_command-Stays list_model = show_models-Stays setting chat u0
  handle_command-Stays list_skill = show_skills-Stays setting chat u0
  handle_command-Stays (choose_agent agent) = use_agent-Stays setting chat u0 agent
  handle_command-Stays (choose_model model) = use_model-Stays setting chat u0 model
  handle_command-Stays text = handle_plain_text-Stays

Post-Reached :
    {A : Type 0} (scope : String) (u0 : UseCases) (r : Result Exception A) (u : UseCases)
    → Post (λ _. Reached scope u0) (Reached scope u0) r u
    → Reached scope u0 u
Post-Reached scope u0 (return a) u p = p
Post-Reached scope u0 (raise e) u p = p

handle_private_chat_text-Reached :
    (setting : Setting) (message : PrivateChatTextMessage) (u : UseCases)
    → AllWf u.controller
    → Reached message.private_chat_scope_id u (handle_private_chat_text setting message u).1
unfolding handle_private_chat_text
handle_private_chat_text-Reached setting message u wf =
    Post-Reached message.private_chat_scope_id u _ _ (
      (handle_command-Stays setting message u (command_of (strip message.text))).at u (record {
        controller_at = record { wf = wf; frame = λ j ne. SameAt-refl j u.controller; stored = tt };
        same_models = λ j ne. refl;
        same_agents = λ j ne. refl;
      }))

-- What two states of the use cases have in common for one chat.
pub record SameFor (j : String) (u v : UseCases) : Type 0 where
  pub same_controller : SameAt j u.controller v.controller
  pub same_model : v.scope_models j ≡ u.scope_models j
  pub same_agent : v.scope_opencode_agents j ≡ u.scope_opencode_agents j

-- If all stored runs are well formed, a message of any text in one chat, whether it is a command or
-- not and also where it raises, leaves the run, the fresh mark, the selected session, the timeout,
-- the model and the OpenCode agent of every other chat as they were, and all runs well formed.
pub handle_private_chat_text-SameFor :
    (setting : Setting) (message : PrivateChatTextMessage) (u : UseCases)
    → AllWf u.controller
    → AllWf (handle_private_chat_text setting message u).1.controller
      × ((j : String)
          → message.private_chat_scope_id ≢ j
          → SameFor j u (handle_private_chat_text setting message u).1)
handle_private_chat_text-SameFor setting message u wf =
    let reached = handle_private_chat_text-Reached setting message u wf in
    (
      reached.controller_at.wf,
      λ j ne. record {
        same_controller = reached.controller_at.frame j ne;
        same_model = reached.same_models j ne;
        same_agent = reached.same_agents j ne;
      },
    )
