-- ===== src/React/Events.antt =====
-- react/events.py: the same events as core/agent_events.py, with `pending_id` for the identifier.
use aw_bot.Prelude.{String, Bool}
use aw_bot.Prelude.Int.{ℤ}
use aw_bot.Prelude.Json.{Fields}

pub data AgentEvent : Type 0 where
  text_delta : (text : String) → AgentEvent
  thinking_delta : (text : String) → AgentEvent
  tool_started : (tool_id name : String) (input : Fields) → AgentEvent
  tool_finished : (tool_id output : String) (is_error : Bool) → AgentEvent
  user_input_requested : (pending_id prompt : String) (payload : Fields) → AgentEvent
  approval_requested : (pending_id prompt : String) (payload : Fields) → AgentEvent
  usage_updated : (input_tokens output_tokens : ℤ) → AgentEvent
  run_completed : AgentEvent
  run_failed : (error : String) → AgentEvent
  run_interrupted : AgentEvent
  run_timed_out : AgentEvent
