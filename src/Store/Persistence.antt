-- ===== src/Store/Persistence.antt =====
-- store/file_run_persistence.py: the persistence port over two sets of files, those of `FileStore`
-- and its own, which keep the core's records.
pub mod Copies
pub mod Registry
use aw_bot.Prelude.{
  ℕ, String, Bool, true, false, Option, none, some, List, [], ◌∷◌, ◌++◌, ◌&&◌, not, map, str_eq,
  if◌then◌else◌,
}
use Prim.Native.String
use aw_bot.Prelude.Json.{Fields}
use aw_bot.Prelude.Action.{Result, return, raise, Action, pure, throw, get, modify, ◌>>=◌, ◌>>◌}
use aw_bot.Core.Types
use aw_bot.Core.Types.{
  RunStatus, Run, Workspace, HistoricalAgentSession, PendingKind, PendingRequest, PendingStatus,
  opened, cancelled, is_terminal,
}
use aw_bot.Core.Events.{AgentEvent}
use aw_bot.React.Bridge.{react_event}
use aw_bot.Store.Files.{Directory, read_json, write_json_atomic, unlink, glob}
use aw_bot.Store.Models
use aw_bot.Store.Models.{
  StoredRunStatus, RunRef, SessionRef, idle, PendingRef, Binding, event_line, error_line,
}
use aw_bot.Core.Types.{NamedWorkspace}
use aw_bot.Store.FileStore
use aw_bot.Store.FileStore.{
  FileStore, StoreError, runtime_error, file_not_found, is_open, save_run, get_run, save_pending,
  get_session, save_session, close_pending, append_log, filter, sort, save_named_workspace,
  remove_named_workspace, found,
}

-- The record that `open_pending_request` writes.
pub record CorePending : Type 0 where
  pub pending_request_id : String
  pub run_id : String
  pub kind : PendingKind
  pub payload : Fields
  pub status : PendingStatus
  pub created_at : String
  pub updated_at : String

-- A line of a run's log of this class.
pub data CoreLogLine : Type 0 where
  run_event : (run_id : String) → AgentEvent → CoreLogLine
  run_error : (run_id error : String) → CoreLogLine

pub record StartupDiagnostic : Type 0 where
  pub level : String
  pub message : String
  pub details : Fields

pub record Persistence : Type 0 where
  pub store : FileStore
  pub core_agent_sessions : Directory HistoricalAgentSession
  pub core_runs : Directory Run
  pub core_pending_requests : Directory CorePending
  pub core_named_workspaces : Directory NamedWorkspace
  pub core_run_logs : Directory (List CoreLogLine)
  pub startup_log : List StartupDiagnostic

abbrev pub P : Type 0 → Type 0
P A = Action Persistence StoreError A

-- A call of the store's method.
abbrev pub on_store : {A : Type 0} → Action FileStore StoreError A → P A
on_store m p = let (r, store) = m p.store in (r, record p { store = store })

abbrev pub in_store : (FileStore → FileStore) → P Unit
in_store f = modify (λ p. record p { store = f p.store })

-- `_run_status`
unfoldable pub stored_status : RunStatus → StoredRunStatus
stored_status Types.RunStatus.running = Models.StoredRunStatus.running
stored_status Types.RunStatus.pending_user_input = Models.StoredRunStatus.pending
stored_status Types.RunStatus.pending_approval = Models.StoredRunStatus.pending
stored_status Types.RunStatus.completed = Models.StoredRunStatus.completed
stored_status Types.RunStatus.failed = Models.StoredRunStatus.failed
stored_status Types.RunStatus.interrupted = Models.StoredRunStatus.interrupted
stored_status Types.RunStatus.timed_out = Models.StoredRunStatus.timed_out

unfoldable pub run_ref : Run → RunRef
run_ref run = record {
  run_id = run.run_id;
  scope_id = run.private_chat_scope_id;
  bot_session_id = run.agent_session_id;
  agent = run.agent_name;
  thread_id = run.agent_session_id;
  turn_id = run.agent_turn_id;
  status = stored_status run.status;
  created_at = run.created_at;
  updated_at = run.updated_at;
}

abbrev pub with_status : RunStatus → String → Run → Run
with_status status updated_at run = record run { status = status; updated_at = updated_at }

abbrev pub ref_with_status : RunStatus → String → RunRef → RunRef
ref_with_status status updated_at run = record run {
  status = stored_status status;
  updated_at = updated_at;
}

unfoldable pub require_run : String → P RunRef
require_run run_id = do
  p ← get
  found (runtime_error (String.◌++◌ "run not found: " run_id)) (read_json run_id p.store.runs)

unfoldable pub require_core_run : String → P Run
require_core_run run_id = do
  p ← get
  found (runtime_error (String.◌++◌ "core run not found: " run_id)) (read_json run_id p.core_runs)

unfoldable pub require_core_pending_request : String → P CorePending
require_core_pending_request id = do
  p ← get
  found (runtime_error (String.◌++◌ "core pending request not found: " id))
      (read_json id p.core_pending_requests)

unfoldable pub require_session : String → P SessionRef
require_session id = do
  p ← get
  found (runtime_error (String.◌++◌ "session not found: " id)) (read_json id p.store.sessions)

unfoldable pub write_run : String → Run → P Unit
write_run id run = modify (λ p. record p { core_runs = write_json_atomic id run p.core_runs })

unfoldable pub write_pending : String → CorePending → P Unit
write_pending id pending =
    modify (λ p. record p {
      core_pending_requests = write_json_atomic id pending p.core_pending_requests;
    })

abbrev core_lines : Option (List CoreLogLine) → List CoreLogLine
core_lines none = []
core_lines (some lines) = lines

unfoldable pub append_core_log : String → CoreLogLine → P Unit
append_core_log run_id line = modify (λ p. record p {
  core_run_logs =
      write_json_atomic run_id (core_lines (read_json run_id p.core_run_logs) ++ line ∷ [])
        p.core_run_logs;
})

unfoldable pub record_run_event : String → AgentEvent → P Unit
record_run_event run_id event = do
  in_store (append_log run_id (event_line (react_event event)))
  append_core_log run_id (run_event run_id event)

unfoldable pub record_run_error : String → String → P Unit
record_run_error run_id error = do
  in_store (append_log run_id (error_line error))
  append_core_log run_id (run_error run_id error)

unfoldable pub record_startup_diagnostic : String → String → Fields → P Unit
record_startup_diagnostic level message details = modify (λ p. record p {
  startup_log =
      p.startup_log ++ record { level = level; message = message; details = details } ∷ [];
})

-- The pending record of the store, from its run, the run's session and the request.
unfoldable pub pending_ref : RunRef → SessionRef → PendingRequest → PendingRef
pending_ref run session request = record {
  pending_id = request.pending_request_id;
  bot_session_id = run.bot_session_id;
  feishu_user_id = session.owner_feishu_user_id;
  chat_id = run.scope_id;
  kind = request.kind;
  codex_thread_id = run.thread_id;
  codex_turn_id = some run.turn_id;
  codex_request_id = some request.pending_request_id;
  prompt_text = "";
  payload = request.payload;
  status = opened;
  created_at = run.updated_at;
  updated_at = run.updated_at;
}

unfoldable pub core_pending : RunRef → PendingRequest → CorePending
core_pending run request = record {
  pending_request_id = request.pending_request_id;
  run_id = request.run_id;
  kind = request.kind;
  payload = request.payload;
  status = opened;
  created_at = run.updated_at;
  updated_at = run.updated_at;
}

unfoldable pub open_pending_request : String → PendingRequest → P Unit
open_pending_request run_id request = do
  run ← require_run run_id
  session ← require_session run.bot_session_id
  in_store (save_pending (pending_ref run session request))
  write_pending request.pending_request_id (core_pending run request)

abbrev pub closed_core : PendingStatus → String → CorePending → CorePending
closed_core status now pending = record pending { status = status; updated_at = now }

-- `now` and `now'` are the two readings of the clock.
unfoldable pub close_pending_request : String → PendingStatus → String → String → P Unit
close_pending_request id status now now' = do
  on_store (close_pending id status now)
  pending ← require_core_pending_request id
  write_pending id (closed_core status now' pending)

-- The test of `clear_current_session` on one binding.
unfoldable pub is_bound_to : String → FileStore → Binding → Bool
is_bound_to scope store binding = elim (get_session binding.current_bot_session_id store) [
  | none ↦ false
  | some session ↦ str_eq session.owner_chat_id scope
]

unfoldable pub unbind : String → FileStore → Directory Binding → Directory Binding
unbind scope store [] = []
unbind scope store ((key, binding) ∷ rest) =
    if is_bound_to scope store binding
    then unbind scope store rest
    else (key, binding) ∷ unbind scope store rest

unfoldable pub clear_current_session : String → P Unit
clear_current_session scope =
    in_store (λ store. record store { bindings = unbind scope store store.bindings })

unfoldable pub save_workspace_named : NamedWorkspace → P Unit
save_workspace_named workspace = do
  in_store (save_named_workspace workspace)
  modify (λ p. record p {
    core_named_workspaces = write_json_atomic workspace.name workspace p.core_named_workspaces;
  })

-- `get_named_workspace`, which reads the core's own copy
unfoldable pub get_workspace_named : String → Persistence → Option NamedWorkspace
get_workspace_named name p = read_json name p.core_named_workspaces

unfoldable pub remove_workspace_named : String → P Unit
remove_workspace_named name = do
  in_store (remove_named_workspace name)
  modify (λ p. record p { core_named_workspaces = unlink name p.core_named_workspaces })

unfoldable pub session_ref : HistoricalAgentSession → SessionRef
session_ref session = record {
  bot_session_id = session.agent_session_id;
  owner_feishu_user_id = session.user_id;
  owner_chat_id = session.private_chat_scope_id;
  agent = session.agent_name;
  codex_thread_id = some session.agent_session_id;
  title = session.agent_session_id;
  cwd = session.workspace.path;
  access_mode = session.access_mode;
  status = idle;
  created_at = session.updated_at;
  updated_at = session.updated_at;
}

-- `{"running", "pending_user_input", "pending_approval"}`
abbrev pub is_unfinished : RunStatus → Bool
is_unfinished Types.RunStatus.running = true
is_unfinished Types.RunStatus.pending_user_input = true
is_unfinished Types.RunStatus.pending_approval = true
is_unfinished _ = false

-- The loops over the core's own files, which write each file back in place.
unfoldable pub rewrite : {A : Type 0} → (A → Bool) → (A → A) → Directory A → Directory A
rewrite due fix [] = []
rewrite due fix ((key, value) ∷ rest) =
    (key, if due value then fix value else value) ∷ rewrite due fix rest

module _ (later : String → String → Bool) where
  unfoldable pub record_run_created : Run → P Unit
  record_run_created run = do in_store (save_run later (run_ref run)); write_run run.run_id run

  unfoldable pub record_run_terminal_status : String → RunStatus → String → P Unit
  record_run_terminal_status run_id status updated_at = do
    run ← require_run run_id
    in_store (save_run later (ref_with_status status updated_at run))
    core_run ← require_core_run run_id
    write_run run_id (with_status status updated_at core_run)

  unfoldable pub save_agent_session : HistoricalAgentSession → P Unit
  save_agent_session session = do
    in_store (save_session later (session_ref session))
    modify (λ p. record p {
      core_agent_sessions =
          write_json_atomic session.agent_session_id session p.core_agent_sessions;
    })

  unfoldable pub list_agent_sessions : String → String → Persistence → List HistoricalAgentSession
  list_agent_sessions scope user p =
      sort later (λ (session : HistoricalAgentSession). session.updated_at)
        (filter
          (λ (session : HistoricalAgentSession).
            str_eq session.private_chat_scope_id scope && str_eq session.user_id user)
          (glob p.core_agent_sessions))

  unfoldable pub list_workspaces_named : Persistence → List NamedWorkspace
  list_workspaces_named p =
      sort later (λ (item : NamedWorkspace). item.updated_at) (glob p.core_named_workspaces)

  unfoldable pub recover_incomplete : String → P Unit
  recover_incomplete updated_at = do
    in_store (FileStore.recover_incomplete later updated_at)
    modify (λ p. record p {
      core_runs =
          rewrite (λ (run : Run). is_unfinished run.status)
            (with_status Types.RunStatus.interrupted updated_at) p.core_runs;
      core_pending_requests =
          rewrite (λ (pending : CorePending). is_open pending.status)
            (closed_core cancelled updated_at) p.core_pending_requests;
    })
