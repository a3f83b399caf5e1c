-- ===== src/Core/Controller/Machine.antt =====
-- The controller as the event loop drives it: any sequence of requests, timer callbacks and events
-- of agent turns, over any chats. An exception ends only the piece of work that raised it.
use aw_bot.Prelude.{ℕ, String, Option, none, some, List, [], ◌∷◌, ◌≢◌}
use aw_bot.Prelude.Action.{Result, return, raise, pure, ◌>>◌}
use aw_bot.Prelude.Action.Ensures.{Post, Ensures-bind}
use aw_bot.Core.Types.{Run, Workspace, HistoricalAgentSession, Attachment}
use aw_bot.Core.Events.{AgentEvent}
use aw_bot.Core.Controller.State.{Env, Controller, Exception, M}
use aw_bot.Core.Controller.Timers.{
  handle_idle_timeout, set_idle_timeout, disable_idle_timeout, clear_idle_timeout_override,
}
use aw_bot.Core.Controller.Consume.{Outcome, consume_event, consume_end}
use aw_bot.Core.Controller.Handlers.{
  start_text_run, stop_run, queue_message, answer_user_input, answer_approval, reset_session,
  reset_rest, finish_reset_after, change_workspace, change_rest, clear_selected_session,
  resume_session,
}
use aw_bot.Core.Controller.Invariant.{AllWf, At, Sound, SameAt, SameAt-refl, pure-Holds}
use aw_bot.Core.Controller.Invariant.Timers.{
  handle_idle_timeout-Sound, set_idle_timeout-Sound, disable_idle_timeout-Sound,
  clear_idle_timeout_override-Sound,
}
use aw_bot.Core.Controller.Invariant.Consume.{consume_event-Sound, consume_end-Sound}
use aw_bot.Core.Controller.Invariant.Handlers.{
  start_text_run-Sound, stop_run-Sound, queue_message-Sound, answer_user_input-Sound,
  answer_approval-Sound, reset_session-Sound, reset_rest-Sound, finish_reset_after-Sound,
  change_workspace-Sound, change_rest-Sound, clear_selected_session-Sound, resume_session-Sound,
}

-- What can happen to one chat. `agent_event`, `stream_end` and `timer` come from outside; the three
-- `…_after` go on with a method that waited for its run to end.
pub data Stimulus : Type 0 where
  start : (user text : String) (model opencode_agent : Option String) → List Attachment → Stimulus
  stop : (user : String) → Stimulus
  queue : (user text : String) (model opencode_agent : Option String) → List Attachment → Stimulus
  answer_input : (user text : String) → Stimulus
  answer_request : (user pending_request_id decision : String) → Stimulus
  agent_event : AgentEvent → Stimulus
  stream_end : Stimulus
  timer : Stimulus
  set_timeout : ℕ → Stimulus
  disable_timeout clear_timeout : Stimulus
  reset : (user : String) → Stimulus
  declined_after : (user : String) → Run → Stimulus
  reset_after : (user : String) → Run → Stimulus
  change : (user : String) → Workspace → Stimulus
  change_after : (user : String) → Workspace → Run → Stimulus
  clear : Stimulus
  resume : (user : String) → HistoricalAgentSession → Stimulus

module _ (env : Env) where
  unfoldable pub nothing_of : {A : Type 0} → M A → M Outcome
  nothing_of m = do m; pure none

  unfoldable pub handle : String → Stimulus → M Outcome
  handle scope (start user text model agent attachments) =
      start_text_run env scope user text model agent attachments
  handle scope (stop user) = stop_run env scope user
  handle scope (queue user text model agent attachments) =
      nothing_of (queue_message env scope user text model agent attachments)
  handle scope (answer_input user text) = answer_user_input env scope user text
  handle scope (answer_request user id decision) = answer_approval env scope user id decision
  handle scope (agent_event event) = consume_event env scope event
  handle scope stream_end = consume_end env scope
  handle scope timer = nothing_of (handle_idle_timeout env scope)
  handle scope (set_timeout timeout) = nothing_of (set_idle_timeout env scope timeout)
  handle scope disable_timeout = nothing_of (disable_idle_timeout env scope)
  handle scope clear_timeout = nothing_of (clear_idle_timeout_override env scope)
  handle scope (reset user) = reset_session env scope user
  handle scope (declined_after user run) = finish_reset_after env scope user run
  handle scope (reset_after user run) = reset_rest env scope user (some run)
  handle scope (change user workspace) = change_workspace env scope user workspace
  handle scope (change_after user workspace run) = change_rest env scope user workspace (some run)
  handle scope clear = nothing_of (clear_selected_session env scope)
  handle scope (resume user session) = nothing_of (resume_session env scope user session)

  unfoldable pub run_all : Controller → List (String × Stimulus) → Controller
  run_all s [] = s
  run_all s ((scope, stimulus) ∷ rest) = run_all (handle scope stimulus s).1 rest

  module _ (scope : String) (s0 : Controller) where
    nothing_of-Sound : {A : Type 0} {m : M A} → Sound scope s0 m → Sound scope s0 (nothing_of m)
    unfolding nothing_of
    nothing_of-Sound sound = Ensures-bind sound (λ _. pure-Holds scope s0 none)

    handle-Sound : (stimulus : Stimulus) → Sound scope s0 (handle scope stimulus)
    unfolding handle
    handle-Sound (start user text model agent attachments) =
        start_text_run-Sound env scope s0 user text model agent attachments
    handle-Sound (stop user) = stop_run-Sound env scope s0 user
    handle-Sound (queue user text model agent attachments) =
        nothing_of-Sound (queue_message-Sound env scope s0 user text model agent attachments)
    handle-Sound (answer_input user text) = answer_user_input-Sound env scope s0 user text
    handle-Sound (answer_request user id decision) =
        answer_approval-Sound env scope s0 user id decision
    handle-Sound (agent_event event) = consume_event-Sound env scope s0 event
    handle-Sound stream_end = consume_end-Sound env scope s0
    handle-Sound timer = nothing_of-Sound (handle_idle_timeout-Sound env scope s0)
    handle-Sound (set_timeout timeout) =
        nothing_of-Sound (set_idle_timeout-Sound env scope s0 timeout)
    handle-Sound disable_timeout = nothing_of-Sound (disable_idle_timeout-Sound env scope s0)
    handle-Sound clear_timeout = nothing_of-Sound (clear_idle_timeout_override-Sound env scope s0)
    handle-Sound (reset user) = reset_session-Sound env scope s0 user
    handle-Sound (declined_after user run) = finish_reset_after-Sound env scope s0 user run
    handle-Sound (reset_after user run) = reset_rest-Sound env scope s0 user (some run)
    handle-Sound (change user workspace) = change_workspace-Sound env scope s0 user workspace
    handle-Sound (change_after user workspace run) =
        change_rest-Sound env scope s0 user workspace (some run)
    handle-Sound clear = nothing_of-Sound (clear_selected_session-Sound env scope s0)
    handle-Sound (resume user session) =
        nothing_of-Sound (resume_session-Sound env scope s0 user session)

  Post-At :
      {A : Type 0} (scope : String) (s0 : Controller) (r : Result Exception A) (s : Controller)
      → Post (λ _. At scope s0 none) (At scope s0 none) r s
      → At scope s0 none s
  Post-At scope s0 (return a) s p = p
  Post-At scope s0 (raise e) s p = p

  handle-At :
      (scope : String) (stimulus : Stimulus) (s : Controller)
      → AllWf s
      → At scope s none (handle scope stimulus s).1
  handle-At scope stimulus s wf =
      Post-At scope s (handle scope stimulus s).0 (handle scope stimulus s).1 (
        (handle-Sound scope s stimulus).at s
          (record { wf = wf; frame = λ j ne. SameAt-refl j s; stored = tt }))

  -- One piece of work on a chat, whether it succeeds or raises anywhere, leaves the active run, the
  -- fresh mark, the selected session and the timeout of every other chat as they were, if all stored
  -- runs are well formed.
  pub handle-SameAt :
      (scope : String) (stimulus : Stimulus) (s : Controller)
      → AllWf s
      → (j : String) → scope ≢ j
      → SameAt j s (handle scope stimulus s).1
  handle-SameAt scope stimulus s wf j ne = (handle-At scope stimulus s wf).frame j ne

  -- From well-formed runs, any sequence of requests, events, timers and failures of ports leads to
  -- well-formed runs: each stored run belongs to its chat, its view and agent turn are its own, its
  -- pending request is the one that its status names, and nobody has been told that it is over.
  pub run_all-AllWf :
      (s : Controller) (stimuli : List (String × Stimulus)) → AllWf s → AllWf (run_all s stimuli)
  unfolding run_all
  run_all-AllWf s [] wf = wf
  run_all-AllWf s ((scope, stimulus) ∷ rest) wf =
      run_all-AllWf (handle scope stimulus s).1 rest (handle-At scope stimulus s wf).wf
