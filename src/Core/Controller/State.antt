-- ===== src/Core/Controller/State.antt =====
-- The fields of RunController and ActiveRun, and the ports that the controller calls.
-- A coroutine is cut where it waits for the next event of an agent turn or for a completion future;
-- each piece between two waits is an action on the state. A call of a port is recorded, newest
-- first, and the environment says whether it raises.
use aw_bot.Prelude.{ℕ, suc, String, Bool, Option, none, some, List, ◌∷◌, str_eq, if◌then◌else◌}
use aw_bot.Prelude.Action.{return, Action, pure, throw, get, modify, ◌>>=◌, ◌>>◌}
use aw_bot.Core.Types.{
  RunStatus, Run, AccessMode, Workspace, AgentSession, HistoricalAgentSession, Attachment,
  PendingRequest, PendingStatus, NamedWorkspace,
}
use aw_bot.Core.Events.{AgentEvent}
use aw_bot.Core.RunView.{RunView}
use aw_bot.Core.Queue.{QueuedMessage}

pub data Exception : Type 0 where
  runtime_error value_error key_error port_error : (message : String) → Exception
  agent_thread_not_found : Exception

-- A call of RunPersistencePort, RunViewSinkPort, AgentPort, AgentTurnStreamPort (a stream is named
-- by its agent turn), IdleTimeoutScheduler (a handle is a number), or of the completion future.
-- The last seven are calls of the use cases.
pub data Call : Type 0 where
  record_run_created : Run → Call
  record_run_event : (run_id : String) → AgentEvent → Call
  record_run_terminal_status : (run_id : String) → RunStatus → (updated_at : String) → Call
  open_pending_request : (run_id : String) → PendingRequest → Call
  close_pending_request : (pending_request_id : String) → PendingStatus → Call
  clear_current_session : (private_chat_scope_id : String) → Call
  save_agent_session : HistoricalAgentSession → Call
  publish : (private_chat_scope_id : String) → RunView → Call
  create_session get_or_create_session :
      (private_chat_scope_id user_id agent_name : String) → Workspace → AccessMode → Call
  start_turn :
      AgentSession
      → (prompt : String) → (model opencode_agent : Option String) → List Attachment
      → Call
  stream_answer_user_input : (turn text : String) → Call
  stream_answer_approval : (turn pending_request_id decision : String) → Call
  stream_stop : (turn : String) → Call
  schedule : (handle delay : ℕ) → (private_chat_scope_id : String) → Call
  cancel : (handle : ℕ) → Call
  set_result : Run → Call
  list_named_workspaces : Call
  save_named_workspace : NamedWorkspace → Call
  get_named_workspace remove_named_workspace : (name : String) → Call
  list_agent_sessions : (private_chat_scope_id user_id : String) → Call
  list_models list_skills : Workspace → Call

-- What the controller is built with. The clock is given by its n-th reading, in microseconds; the
-- answers of a port may depend on all earlier calls. Timeouts are in microseconds.
pub record Env : Type 0 where
  pub agent_name : String
  pub access_mode : AccessMode
  pub default_idle_timeout : Option ℕ
  pub clock : ℕ → ℕ
  pub isoformat : ℕ → String
  pub run_id_factory : ℕ → String
  pub fault : List Call → Call → Option Exception
  pub session_of : List Call → AgentSession
  pub turn_of : List Call → String

-- `completion_future` is the value that the future was set to, if it is done.
pub record ActiveRun : Type 0 where
  pub run : Run
  pub run_view : RunView
  pub turn_stream : String
  pub user_id : String
  pub agent_session : AgentSession
  pub queued_messages : List QueuedMessage
  pub stop_requested : Bool
  pub completion_future : Option Run
  pub idle_timeout_handle : Option ℕ
  pub timed_out : Bool

-- The dictionaries of the controller are functions of the chat's identifier; `calls`, `clock_reads`
-- and `timers` count what happened outside.
pub record Controller : Type 0 where
  pub active_runs : String → Option ActiveRun
  pub fresh_session_scope_ids : String → Bool
  pub selected_sessions : String → Option AgentSession
  pub idle_timeout_overrides : String → Option (Option ℕ)
  pub workspace : Workspace
  pub calls : List Call
  pub clock_reads : ℕ
  pub timers : ℕ

abbrev pub M : Type 0 → Type 0
M A = Action Controller Exception A

-- `d[key] = value`, and `d.pop(key, None)` for the value `none`.
unfoldable pub assign {ℓ} : {V : Type ℓ} → String → V → (String → V) → String → V
assign key value d k = if str_eq key k then value else d k

unfoldable pub put_active : String → Option ActiveRun → M Unit
put_active scope a = modify (λ s. record s { active_runs = assign scope a s.active_runs })

unfoldable pub select_session : String → Option AgentSession → M Unit
select_session scope session =
    modify (λ s. record s { selected_sessions = assign scope session s.selected_sessions })

unfoldable pub mark_fresh : String → Bool → M Unit
mark_fresh scope fresh =
    modify
      (λ s. record s { fresh_session_scope_ids = assign scope fresh s.fresh_session_scope_ids })

unfoldable pub override_timeout : String → Option (Option ℕ) → M Unit
override_timeout scope value =
    modify (λ s. record s { idle_timeout_overrides = assign scope value s.idle_timeout_overrides })

unfoldable pub set_workspace : Workspace → M Unit
set_workspace workspace = modify (λ s. record s { workspace = workspace })

-- `value` if it is there, else the exception: `self._active_runs[scope]` and the like.
unfoldable pub or_raise : {A : Type 0} → Exception → Option A → M A
or_raise e none = throw e
or_raise e (some a) = pure a

-- The stored run of a chat: `self._active_runs[private_chat_scope_id]`, and any later use of the
-- object that it gave.
unfoldable pub active_run_of : String → M ActiveRun
active_run_of scope = do s ← get; or_raise (key_error scope) (s.active_runs scope)

unfoldable pub outcome : Option Exception → M Unit
outcome none = pure tt
outcome (some e) = throw e

module _ (env : Env) where
  unfoldable pub call : Call → M Unit
  call c = do
    before ← get
    modify (λ s. record s { calls = c ∷ s.calls })
    outcome (env.fault before.calls c)

  -- A port's answer to the call that was just made.
  unfoldable pub call_session : Call → M AgentSession
  call_session c = do call c; s ← get; pure (env.session_of s.calls)

  unfoldable pub call_turn : Call → M String
  call_turn c = do call c; s ← get; pure (env.turn_of s.calls)

  -- `self._clock()`
  unfoldable pub now : M ℕ
  now s = (return (env.clock s.clock_reads), record s { clock_reads = suc s.clock_reads })
