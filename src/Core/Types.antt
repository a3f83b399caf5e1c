-- ===== src/Core/Types.antt =====
-- core/run.py, core/agent_session.py, core/attachments.py and core/pending_request.py: the data
-- that the core keeps and hands to its ports. A Literal of strings is a data type with a
-- constructor for each string.
use aw_bot.Prelude.{String, Option, Bool, true, false}
use aw_bot.Prelude.Json.{Fields}

pub data RunStatus : Type 0 where
  running pending_user_input pending_approval completed failed interrupted timed_out : RunStatus

pub record Run : Type 0 where
  pub run_id : String
  pub private_chat_scope_id : String
  pub user_id : String
  pub agent_session_id : String
  pub agent_name : String
  pub agent_turn_id : String
  pub status : RunStatus
  pub created_at : String
  pub updated_at : String

-- TERMINAL_RUN_STATUSES
unfoldable pub is_terminal : RunStatus → Bool
is_terminal completed = true
is_terminal failed = true
is_terminal interrupted = true
is_terminal timed_out = true
is_terminal _ = false

pub data AccessMode : Type 0 where
  full workspace read_only : AccessMode

pub record Workspace : Type 0 where
  pub path : String

-- core/workspace.py
pub record NamedWorkspace : Type 0 where
  pub name : String
  pub workspace : Workspace
  pub updated_at : String

pub record AgentSession : Type 0 where
  pub agent_session_id : String
  pub private_chat_scope_id : String
  pub user_id : String
  pub agent_name : String
  pub workspace : Workspace
  pub access_mode : AccessMode

pub record HistoricalAgentSession : Type 0 where
  pub agent_session_id : String
  pub private_chat_scope_id : String
  pub user_id : String
  pub agent_name : String
  pub workspace : Workspace
  pub access_mode : Option AccessMode
  pub updated_at : String

pub data AttachmentKind : Type 0 where
  image file : AttachmentKind

pub record Attachment : Type 0 where
  pub kind : AttachmentKind
  pub path : String
  pub name : String

pub data PendingKind : Type 0 where
  user_input approval : PendingKind

pub record PendingRequest : Type 0 where
  pub pending_request_id : String
  pub run_id : String
  pub kind : PendingKind
  pub payload : Fields

-- PendingRequestStatus
pub data PendingStatus : Type 0 where
  opened resolved cancelled : PendingStatus
