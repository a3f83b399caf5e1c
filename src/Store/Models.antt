-- ===== src/Store/Models.antt =====
-- store/models.py and session/models.py: the records that the store keeps. `to_dict` and `from_dict`
-- carry each field over, so a record stands for its dictionary.
use aw_bot.Prelude.{String, Option}
use aw_bot.Prelude.Json.{Fields}
use aw_bot.Core.Types.{AccessMode, PendingKind, PendingStatus}
use aw_bot.React.Events

pub data StoredRunStatus : Type 0 where
  running pending completed failed interrupted cancelled timed_out : StoredRunStatus

pub record RunRef : Type 0 where
  pub run_id : String
  pub scope_id : String
  pub bot_session_id : String
  pub agent : String
  pub thread_id : String
  pub turn_id : String
  pub status : StoredRunStatus
  pub created_at : String
  pub updated_at : String

pub data CardStatus : Type 0 where
  streaming completed_card failed_card : CardStatus

pub record StreamCardRef : Type 0 where
  pub card_id : String
  pub run_id : String
  pub chat_id : String
  pub message_id : String
  pub status : CardStatus
  pub created_at : String
  pub updated_at : String

pub record WorkspaceBinding : Type 0 where
  pub scope_id : String
  pub cwd : String
  pub updated_at : String

pub data SessionStatus : Type 0 where
  idle running_session pending_user_input pending_approval error : SessionStatus

pub record SessionRef : Type 0 where
  pub bot_session_id : String
  pub owner_feishu_user_id : String
  pub owner_chat_id : String
  pub agent : String
  pub codex_thread_id : Option String
  pub title : String
  pub cwd : String
  pub access_mode : Option AccessMode
  pub status : SessionStatus
  pub created_at : String
  pub updated_at : String

pub record PendingRef : Type 0 where
  pub pending_id : String
  pub bot_session_id : String
  pub feishu_user_id : String
  pub chat_id : String
  pub kind : PendingKind
  pub codex_thread_id : String
  pub codex_turn_id : Option String
  pub codex_request_id : Option String
  pub prompt_text : String
  pub payload : Fields
  pub status : PendingStatus
  pub created_at : String
  pub updated_at : String

-- A binding file, under the user's name.
pub record Binding : Type 0 where
  pub feishu_user_id : String
  pub current_bot_session_id : String

-- What `_session_summary` keeps of a session.
pub record SessionSummary : Type 0 where
  pub bot_session_id : String
  pub owner_feishu_user_id : String
  pub title : String
  pub agent : String
  pub codex_thread_id : Option String
  pub status : SessionStatus
  pub updated_at : String

-- A line of a run's log.
pub data LogLine : Type 0 where
  event_line : Events.AgentEvent → LogLine
  error_line : String → LogLine
