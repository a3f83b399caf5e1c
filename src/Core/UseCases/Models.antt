-- ===== src/Core/UseCases/Models.antt =====
-- `/model use` of core/use_cases.py and the turn that the next message starts.
pub mod FreshTurn
use aw_bot.Prelude.{
  ℕ, suc, String, Bool, true, false, not, Option, none, some, List, [], ◌∷◌, In, ◌≡◌, refl, sym,
  ◌∙◌, Bool-cases, Option-cases, inl, inr, str_eq, if◌then◌else◌, is_some, subst,
}
use aw_bot.Prelude.Text.{strip}
use aw_bot.Prelude.Action.{Result, return, raise, and_then, pure, throw, get, modify, ◌>>=◌, ◌>>◌}
use aw_bot.Core.Types.{AgentSession, HistoricalAgentSession, AccessMode, Attachment, Run, running}
use aw_bot.Core.RunView.{initial_run_view}
use aw_bot.Core.Controller.State.{
  Env, Controller, Exception, Call, call, call_session, call_turn, outcome, now, select_session,
  mark_fresh, assign, create_session, start_turn, save_agent_session, publish, record_run_created,
  clear_current_session, list_models, put_active, M, ActiveRun,
}
use aw_bot.Core.Controller.Timers.{
  arm_idle_timeout, arm_of, schedule_after, set_handle, cancel_handle, cancel_of,
  cancel_idle_timeout, new_handle, get_idle_timeout,
}
use aw_bot.Prelude.Action.Ensures.{Post, Ensures, Ensures-pure, Ensures-throw, Ensures-bind}
use aw_bot.Core.Controller.Sessions.{
  session_for_new_turn, fresh_session, ask_new_session, record_agent_session, start_agent_turn,
  start_in_session, start_turn_with_session_recovery, except_not_found, if_not_found,
}
use aw_bot.Core.Controller.Consume.{new_run, Outcome}
use aw_bot.Core.Controller.Handlers.{
  awaits_input_of, open_approval_of, is_running_for, start_text_run, start_new_run, enter_run,
  clear_selected_session,
}
use aw_bot.Core.Controller.Invariant.{assign_self}
use aw_bot.Core.Controller.Trace.{quiet}
use aw_bot.Core.UseCases.Command.{text, command_of, no_resume, resume_of}
use aw_bot.Core.UseCases.State.{
  PrivateChatTextMessage, Setting, UseCases, U, Reply, model_list, run_reply, core, ask,
  select_model,
}
use aw_bot.Core.UseCases.Operations.{use_model, is_in}
use aw_bot.Core.UseCases.Resuming.{without_faults}
use aw_bot.Core.UseCases.Dispatch.{
  handle_private_chat_text, handle_command, handle_plain_text, answer_or_go_on, decide_or_go_on,
  queue_or_start, start_or_resume, in_run,
}
use aw_bot.Core.UseCases.Models.FreshTurn.{fresh-starts}

-- The models that the agent offers.
abbrev pub offered : Setting → UseCases → List String
offered setting u = setting.models_of (list_models u.controller.workspace ∷ u.controller.calls)

abbrev after_choice : UseCases → String → String → UseCases
after_choice u scope model = record u {
  controller = record (u.controller) {
    fresh_session_scope_ids = assign scope true u.controller.fresh_session_scope_ids;
    selected_sessions = assign scope none u.controller.selected_sessions;
    calls = clear_current_session scope ∷ list_models u.controller.workspace ∷ u.controller.calls;
  };
  scope_models = assign scope (some model) u.scope_models;
}

use_model-after :
    (setting : Setting) (u : UseCases) (scope model : String)
    → str_eq model "" ≡ false
    → is_in model (offered setting u) ≡ true
    → use_model (without_faults setting) scope model u ≡ (
      return (model_list setting.env.agent_name (offered setting u) (some model)),
      after_choice u scope model,
    )
unfolding use_model ask call outcome core ◌>>=◌ pure get modify select_model clear_selected_session
    mark_fresh select_session
use_model-after setting u scope model named known = rw (named, known) refl

-- A plain text of an idle chat is a new run.
plain-starts :
    (setting : Setting) (message : PrivateChatTextMessage) (v : UseCases)
    → v.controller.active_runs message.private_chat_scope_id ≡ none
    → command_of (strip message.text) ≡ text
    → resume_of (strip message.text) ≡ no_resume
    → handle_private_chat_text setting message v
      ≡ in_run setting
          (start_text_run setting.env message.private_chat_scope_id message.user_id message.text
            (v.scope_models message.private_chat_scope_id)
            (v.scope_opencode_agents message.private_chat_scope_id)
            message.attachments)
          v
unfolding handle_private_chat_text handle_command handle_plain_text answer_or_go_on decide_or_go_on
    queue_or_start start_or_resume awaits_input_of open_approval_of is_running_for ◌>>=◌ get
plain-starts setting message v idle plain fresh =
    rw (plain, idle) (rw idle (rw idle (rw fresh refl)))

in_run-controller :
    (setting : Setting) (m : M Outcome) (v : UseCases)
    → (in_run setting m v).1.controller ≡ (m v.controller).1
unfolding in_run core ◌>>=◌ pure throw
in_run-controller setting m v = by_result (m v.controller).0
  where
    by_result :
        (r : Result Exception Outcome)
        → (and_then {S = UseCases} r
            (λ outcome. pure (run_reply outcome))
            (record v { controller = (m v.controller).1 })).1.controller
          ≡ (m v.controller).1
    by_result (return a) = refl
    by_result (raise e) = refl

chosen-starts :
    (setting : Setting) (e : Env) (message : PrivateChatTextMessage) (model : String) (v : UseCases)
    → setting.env ≡ quiet e
    → v.controller.active_runs message.private_chat_scope_id ≡ none
    → command_of (strip message.text) ≡ text
    → resume_of (strip message.text) ≡ no_resume
    → v.controller.fresh_session_scope_ids message.private_chat_scope_id ≡ true
    → v.scope_models message.private_chat_scope_id ≡ some model
    → In
        (start_turn
          (e.session_of (
            create_session message.private_chat_scope_id message.user_id e.agent_name
              v.controller.workspace e.access_mode
            ∷ v.controller.calls))
          message.text
          (some model)
          (v.scope_opencode_agents message.private_chat_scope_id)
          message.attachments)
        (handle_private_chat_text setting message v).1.controller.calls
chosen-starts setting e message model v is_quiet idle plain no_resumption fresh chosen =
    rw
      (
        plain-starts setting message v idle plain no_resumption,
        in_run-controller setting _ v,
        is_quiet,
        chosen,
      )
      (fresh-starts e message.private_chat_scope_id message.user_id message.text (some model)
        (v.scope_opencode_agents message.private_chat_scope_id) message.attachments v.controller
        idle fresh)

-- If no port raises, the agent offers a model, and no run is active in the chat, then after
-- `/model use` with it, the next plain text of the chat is a run in a session that the agent was
-- asked to create for it, and its turn is started with that text and that model.
pub use_model-next_turn :
    (setting : Setting) (u : UseCases) (message : PrivateChatTextMessage) (model : String)
    → str_eq model "" ≡ false
    → is_in model (offered setting u) ≡ true
    → u.controller.active_runs message.private_chat_scope_id ≡ none
    → command_of (strip message.text) ≡ text
    → resume_of (strip message.text) ≡ no_resume
    → (v : UseCases) × (use_model (without_faults setting) message.private_chat_scope_id model u
        ≡ (return (model_list setting.env.agent_name (offered setting u) (some model)), v))
      × In
          (start_turn
            (setting.env.session_of (
              create_session message.private_chat_scope_id message.user_id setting.env.agent_name
                v.controller.workspace setting.env.access_mode
              ∷ v.controller.calls))
            message.text
            (some model)
            (u.scope_opencode_agents message.private_chat_scope_id)
            message.attachments)
          (handle_private_chat_text (without_faults setting) message v).1.controller.calls
use_model-next_turn setting u message model named known idle plain fresh = (
  after_choice u message.private_chat_scope_id model,
  use_model-after setting u message.private_chat_scope_id model named known,
  chosen-starts (without_faults setting) setting.env message model
      (after_choice u message.private_chat_scope_id model) refl idle plain fresh
      (assign_self message.private_chat_scope_id true u.controller.fresh_session_scope_ids)
      (assign_self message.private_chat_scope_id (some model) u.scope_models),
)
