-- ===== src/Core/Controller/Invariant/Sessions.antt =====
-- The session methods keep the invariant, and any stored run of the chat as it is.
use aw_bot.Prelude.{String, false, Option, none, some, List}
use aw_bot.Prelude.Action.{Result, return, raise, pure, throw}
use aw_bot.Prelude.Action.Ensures.{Post, Ensures-bind, Ensures-if}
use aw_bot.Core.Types.{AgentSession, Attachment}
use aw_bot.Core.Controller.State.{
  Env, ActiveRun, Controller, M, Exception, agent_thread_not_found, clear_current_session,
}
use aw_bot.Core.Controller.Sessions.{
  if_not_found, except_not_found, record_agent_session, clear_session_selection, ask_new_session,
  create_selected_session, fresh_session, session_or_create, session_for_new_turn, start_agent_turn,
  start_in_replacement, start_in_session, start_turn_with_session_recovery,
}
use aw_bot.Core.Controller.Invariant.{
  At, Holds, select_session-Holds, mark_fresh-Holds, pure-Holds, call-Holds, call_session-Holds,
  call_turn-Holds, now-Holds, read-Holds,
}

-- A handler of `AgentThreadNotFound` starts from what the invariant says after an exception.
module _ (scope : String) (s0 : Controller) where
  if_not_found-Post :
      {A : Type 0} (handler : M A) (r : Result Exception A) (s : Controller)
      → Holds scope s0 none handler none
      → Post (λ _. At scope s0 none) (At scope s0 none) r s
      → Post
          (λ _. At scope s0 none)
          (At scope s0 none)
          (if_not_found handler r s).0
          (if_not_found handler r s).1
  unfolding if_not_found pure throw
  if_not_found-Post handler (return a) s sound p = p
  if_not_found-Post handler (raise agent_thread_not_found) s sound p = sound.at s p
  if_not_found-Post handler (raise _) s sound p = p

  pub except_not_found-Holds :
      {A : Type 0} (m handler : M A) {o : Option ActiveRun}
      → Holds scope s0 o m none
      → Holds scope s0 none handler none
      → Holds scope s0 o (except_not_found m handler) none
  unfolding except_not_found
  except_not_found-Holds m handler first second = record {
    at = λ s p. if_not_found-Post handler (m s).0 (m s).1 second (first.at s p);
  }

module _ (env : Env) (scope : String) (s0 : Controller) {o : Option ActiveRun} where
  record_agent_session-Holds :
      (session : AgentSession) → Holds scope s0 o (record_agent_session env session) o
  unfolding record_agent_session
  record_agent_session-Holds session =
      Ensures-bind (now-Holds scope s0 env) (λ time. call-Holds scope s0 env _)

  pub clear_session_selection-Holds : Holds scope s0 o (clear_session_selection env scope) o
  unfolding clear_session_selection
  clear_session_selection-Holds =
      Ensures-bind (call-Holds scope s0 env (clear_current_session scope)) (λ _.
        Ensures-bind (select_session-Holds scope s0 none) (λ _. mark_fresh-Holds scope s0 false))

  ask_new_session-Holds : (user : String) → Holds scope s0 o (ask_new_session env scope user) o
  unfolding ask_new_session
  ask_new_session-Holds user = read-Holds scope s0 (λ s. call_session-Holds scope s0 env _)

  pub create_selected_session-Holds :
      (user : String) → Holds scope s0 o (create_selected_session env scope user) o
  unfolding create_selected_session
  create_selected_session-Holds user = Ensures-bind (ask_new_session-Holds user) (λ session.
      Ensures-bind (select_session-Holds scope s0 (some session))
        (λ _. Ensures-bind (record_agent_session-Holds session) (λ _. pure-Holds scope s0 session)))

  fresh_session-Holds : (user : String) → Holds scope s0 o (fresh_session env scope user) o
  unfolding fresh_session
  fresh_session-Holds user = Ensures-bind (ask_new_session-Holds user) (λ session.
      Ensures-bind (mark_fresh-Holds scope s0 false) (λ _.
        Ensures-bind (select_session-Holds scope s0 (some session)) (λ _.
          Ensures-bind (record_agent_session-Holds session) (λ _. pure-Holds scope s0 session))))

  session_or_create-Holds :
      (user : String) (selected : Option AgentSession)
      → Holds scope s0 o (session_or_create env scope user selected) o
  unfolding session_or_create
  session_or_create-Holds user (some session) = pure-Holds scope s0 session
  session_or_create-Holds user none = read-Holds scope s0 (λ s.
      Ensures-bind (call_session-Holds scope s0 env _) (λ session.
        Ensures-bind (select_session-Holds scope s0 (some session)) (λ _.
          Ensures-bind (record_agent_session-Holds session) (λ _. pure-Holds scope s0 session))))

  pub session_for_new_turn-Holds :
      (user : String) → Holds scope s0 o (session_for_new_turn env scope user) o
  unfolding session_for_new_turn
  session_for_new_turn-Holds user = read-Holds scope s0 (λ s.
      Ensures-if (s.fresh_session_scope_ids scope) (λ _. fresh_session-Holds user)
        (λ _. session_or_create-Holds user (s.selected_sessions scope)))

  start_in_session-Holds :
      (session : AgentSession) (prompt : String) (model agent : Option String)
      (attachments : List Attachment)
      → Holds scope s0 o (start_in_session env session prompt model agent attachments) o
  unfolding start_in_session start_agent_turn
  start_in_session-Holds session prompt model agent attachments =
      Ensures-bind (call_turn-Holds scope s0 env _) (λ turn. pure-Holds scope s0 (session, turn))

  start_in_replacement-Holds :
      (user prompt : String) (model agent : Option String) (attachments : List Attachment)
      → Holds scope s0 o (start_in_replacement env scope user prompt model agent attachments) o
  unfolding start_in_replacement start_agent_turn
  start_in_replacement-Holds user prompt model agent attachments =
      Ensures-bind (create_selected_session-Holds user) (λ replacement.
        Ensures-bind (call_turn-Holds scope s0 env _)
          (λ turn. pure-Holds scope s0 (replacement, turn)))

module _ (env : Env) (scope : String) (s0 : Controller) where
  pub start_turn_with_session_recovery-Sound :
      (user : String) (session : AgentSession) (prompt : String) (model agent : Option String)
      (attachments : List Attachment)
      → Holds scope s0 none
          (start_turn_with_session_recovery env scope user session prompt model agent attachments)
          none
  unfolding start_turn_with_session_recovery
  start_turn_with_session_recovery-Sound user session prompt model agent attachments =
      except_not_found-Holds scope s0 _ _
        (start_in_session-Holds env scope s0 session prompt model agent attachments)
        (start_in_replacement-Holds env scope s0 user prompt model agent attachments)
