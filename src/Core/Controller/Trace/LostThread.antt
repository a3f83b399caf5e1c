-- ===== src/Core/Controller/Trace/LostThread.antt =====
-- `_start_turn_with_session_recovery` where the agent has lost the thread of a session.
use aw_bot.Prelude.{
  ℕ, String, false, Option, none, some, List, ◌∷◌, ◌≡◌, refl, str_eq, eq_refl, if◌then◌else◌,
}
use aw_bot.Prelude.Action.{return, ◌>>=◌, modify}
use aw_bot.Core.Types.{AgentSession, Attachment}
use aw_bot.Core.Controller.State.{
  Env, Controller, Call, Exception, agent_thread_not_found, create_session, start_turn,
  save_agent_session, assign, select_session, call, call_session, call_turn, now, outcome,
}
use aw_bot.Core.Controller.Sessions.{
  start_turn_with_session_recovery, start_in_session, start_in_replacement, start_agent_turn,
  create_selected_session, ask_new_session, record_agent_session, except_not_found, if_not_found,
}

-- The only failure is to start a turn in the session `lost`.
abbrev pub lost_fault : String → Call → Option Exception
lost_fault lost (start_turn session _ _ _ _) =
    if str_eq session.agent_session_id lost then some agent_thread_not_found else none
lost_fault lost _ = none

abbrev pub forgetful : String → Env → Env
forgetful lost e = record e { fault = λ calls c. lost_fault lost c }

-- The calls up to the request for a replacement, where the first attempt has failed.
abbrev pub asked_for :
    Env
    → Controller
    → (scope user : String) → AgentSession
    → (prompt : String) → (model opencode_agent : Option String) → List Attachment
    → List Call
asked_for e s scope user session prompt model opencode_agent attachments =
    create_session scope user e.agent_name s.workspace e.access_mode
    ∷ start_turn session prompt model opencode_agent attachments
    ∷ s.calls

-- The record that is saved of a replacement.
abbrev pub saved_as : Env → ℕ → AgentSession → Call
saved_as e reads replacement = save_agent_session (record {
  agent_session_id = replacement.agent_session_id;
  private_chat_scope_id = replacement.private_chat_scope_id;
  user_id = replacement.user_id;
  agent_name = replacement.agent_name;
  workspace = replacement.workspace;
  access_mode = some replacement.access_mode;
  updated_at = e.isoformat (e.clock reads);
})

-- If the agent has lost the thread of the session, nothing else fails and the agent gives a session
-- with another identifier, the turn starts in that session, made once with the controller's
-- settings: it is saved and becomes the chat's selected session, and the prompt, model, agent and
-- attachments are those of the first attempt.
pub start_turn_with_session_recovery-replaces :
    (e : Env) (scope user : String) (session : AgentSession) (prompt : String)
    (model opencode_agent : Option String) (attachments : List Attachment) (s : Controller)
    → str_eq
        (e.session_of (
          asked_for e s scope user session prompt model opencode_agent
            attachments)).agent_session_id
        session.agent_session_id
      ≡ false
    → let asked = asked_for e s scope user session prompt model opencode_agent attachments in
      let replacement = e.session_of asked in
      let started =
        start_turn replacement prompt model opencode_agent attachments
        ∷ saved_as e s.clock_reads replacement
        ∷ asked in
      let r =
        start_turn_with_session_recovery
          (forgetful session.agent_session_id e)
          scope
          user
          session
          prompt
          model
          opencode_agent
          attachments
          s in
      (r.0 ≡ return (replacement, e.turn_of started))
      × ((r.1.selected_sessions scope ≡ some replacement) × (r.1.calls ≡ started))
unfolding start_turn_with_session_recovery start_in_session start_in_replacement start_agent_turn
    create_selected_session ask_new_session record_agent_session except_not_found if_not_found
    assign select_session call call_session call_turn now outcome modify ◌>>=◌
start_turn_with_session_recovery-replaces e scope user session prompt model agent attachments s
      new =
    rw (eq_refl session.agent_session_id, new, eq_refl scope) (refl, (refl, refl))
