-- ===== src/Core/RunView.antt =====
-- core/run_view.py and core/run_view_reducer.py: what a run shows, and how an event changes it.
pub mod Fold
pub mod Status
use Prim.Native.String
use aw_bot.Prelude.{
  ℕ, String, Bool, true, false, Option, none, some, List, [], ◌∷◌, ◌++◌, map, str_eq, if◌then◌else◌,
}
use aw_bot.Prelude.Int.{ℤ, pos}
use aw_bot.Prelude.Json.{Fields}
use aw_bot.Core.Types.{
  RunStatus, running, pending_user_input, pending_approval, completed, failed, interrupted,
  timed_out, PendingKind, user_input, approval,
}
use aw_bot.Core.Events.{
  AgentEvent, text_delta, thinking_delta, tool_started, tool_finished, user_input_requested,
  approval_requested, usage_updated, run_completed, run_failed, run_interrupted, run_timed_out,
}

-- The reducer is the only code that writes a tool's status, and writes these three.
pub data ToolStatus : Type 0 where
  tool_running tool_completed tool_failed : ToolStatus

pub record ToolCallView : Type 0 where
  pub tool_id : String
  pub name : String
  pub input : Fields
  pub output : Option String
  pub status : ToolStatus

pub record PendingRequestView : Type 0 where
  pub pending_request_id : String
  pub kind : PendingKind
  pub prompt : String
  pub payload : Fields

pub record UsageView : Type 0 where
  pub input_tokens : ℤ
  pub output_tokens : ℤ

pub record RunView : Type 0 where
  pub run_id : String
  pub status : RunStatus
  pub text : String
  pub thinking : String
  pub tools : List ToolCallView
  pub pending : Option PendingRequestView
  pub usage : UsageView
  pub error : Option String

unfoldable pub initial_run_view : String → RunView
initial_run_view run_id = record {
  run_id = run_id;
  status = running;
  text = "";
  thinking = "";
  tools = [];
  pending = none;
  usage = record { input_tokens = pos 0; output_tokens = pos 0 };
  error = none;
}

-- The element of the tuple that the ToolFinished branch builds for one tool.
unfoldable pub finish_tool : String → String → Bool → ToolCallView → ToolCallView
finish_tool tool_id output is_error tool =
    if str_eq tool.tool_id tool_id
    then record tool {
      output = some output;
      status = if is_error then tool_failed else tool_completed;
    }
    else tool

unfoldable pub reduce_run_view : RunView → AgentEvent → RunView
unfolding finish_tool
reduce_run_view state (text_delta text) = record state { text = String.◌++◌ state.text text }
reduce_run_view state (thinking_delta text) = record state {
  thinking = String.◌++◌ state.thinking text;
}
reduce_run_view state (tool_started tool_id name input) = record state {
  tools =
      state.tools
      ++ record {
        tool_id = tool_id;
        name = name;
        input = input;
        output = none;
        status = tool_running;
      }
        ∷ [];
}
reduce_run_view state (tool_finished tool_id output is_error) = record state {
  tools = map (finish_tool tool_id output is_error) state.tools;
}
reduce_run_view state (user_input_requested pending_request_id prompt payload) = record state {
  status = pending_user_input;
  pending = some (record {
    pending_request_id = pending_request_id;
    kind = user_input;
    prompt = prompt;
    payload = payload;
  });
}
reduce_run_view state (approval_requested pending_request_id prompt payload) = record state {
  status = pending_approval;
  pending = some (record {
    pending_request_id = pending_request_id;
    kind = approval;
    prompt = prompt;
    payload = payload;
  });
}
reduce_run_view state (usage_updated input_tokens output_tokens) = record state {
  usage = record { input_tokens = input_tokens; output_tokens = output_tokens };
}
reduce_run_view state run_completed = record state { status = completed; pending = none }
reduce_run_view state (run_failed error) = record state {
  status = failed;
  pending = none;
  error = some error;
}
reduce_run_view state run_interrupted = record state { status = interrupted; pending = none }
reduce_run_view state run_timed_out = record state { status = timed_out; pending = none }
