-- ===== src/React/Bridge.antt =====
-- How the core's data reaches the rendering layer: `_to_run_state` of feishu/run_view_sink.py and
-- `_react_event` of store/file_run_persistence.py.
use aw_bot.Prelude.{String, Bool, Option, none, some, List, [], ◌∷◌, map, ◌≡◌, refl, ap, arith}
use mathlib.Core.List.{map-append}
use aw_bot.Core.Events.{
  AgentEvent, text_delta, thinking_delta, tool_started, tool_finished, user_input_requested,
  approval_requested, usage_updated, run_completed, run_failed, run_interrupted, run_timed_out,
}
use aw_bot.Core.RunView.{
  ToolCallView, PendingRequestView, RunView, finish_tool, reduce_run_view, initial_run_view,
}
use aw_bot.Core.RunView.Fold.{reduce_all}
use aw_bot.React.Events
use aw_bot.React.State
use aw_bot.React.State.{ToolState, PendingState, RunState, reduce_run_state, initial_run_state}

unfoldable pub to_tool_state : ToolCallView → ToolState
to_tool_state tool = record {
  tool_id = tool.tool_id;
  name = tool.name;
  input = tool.input;
  output = tool.output;
  status = tool.status;
}

unfoldable pub to_pending_state : Option PendingRequestView → Option PendingState
to_pending_state none = none
to_pending_state (some pending) = some (record {
  pending_id = pending.pending_request_id;
  kind = pending.kind;
  prompt = pending.prompt;
  payload = pending.payload;
})

unfoldable pub to_run_state : RunView → RunState
unfolding to_tool_state to_pending_state
to_run_state run_view = record {
  run_id = run_view.run_id;
  status = run_view.status;
  text = run_view.text;
  thinking = run_view.thinking;
  tools = map to_tool_state run_view.tools;
  pending = to_pending_state run_view.pending;
  usage = record {
    input_tokens = run_view.usage.input_tokens;
    output_tokens = run_view.usage.output_tokens;
  };
  error = run_view.error;
}

unfoldable pub react_event : AgentEvent → Events.AgentEvent
react_event (text_delta text) = Events.AgentEvent.text_delta text
react_event (thinking_delta text) = Events.AgentEvent.thinking_delta text
react_event (tool_started tool_id name input) = Events.AgentEvent.tool_started tool_id name input
react_event (tool_finished tool_id output is_error) =
    Events.AgentEvent.tool_finished tool_id output is_error
react_event (user_input_requested pending_request_id prompt payload) =
    Events.AgentEvent.user_input_requested pending_request_id prompt payload
react_event (approval_requested pending_request_id prompt payload) =
    Events.AgentEvent.approval_requested pending_request_id prompt payload
react_event (usage_updated input_tokens output_tokens) =
    Events.AgentEvent.usage_updated input_tokens output_tokens
react_event run_completed = Events.AgentEvent.run_completed
react_event (run_failed error) = Events.AgentEvent.run_failed error
react_event run_interrupted = Events.AgentEvent.run_interrupted
react_event run_timed_out = Events.AgentEvent.run_timed_out

finish_tool-agrees :
    (tool_id output : String) (is_error : Bool) (tool : ToolCallView)
    → to_tool_state (finish_tool tool_id output is_error tool)
      ≡ State.finish_tool tool_id output is_error (to_tool_state tool)
unfolding to_tool_state finish_tool State.finish_tool
finish_tool-agrees tool_id output is_error tool = ground arith

finish_tools-agree :
    (tool_id output : String) (is_error : Bool) (tools : List ToolCallView)
    → map to_tool_state (map (finish_tool tool_id output is_error) tools)
      ≡ map (State.finish_tool tool_id output is_error) (map to_tool_state tools)
finish_tools-agree tool_id output is_error [] = refl
finish_tools-agree tool_id output is_error (tool ∷ tools) = cc (
  finish_tool-agrees tool_id output is_error tool,
  finish_tools-agree tool_id output is_error tools,
)

reduce_agrees :
    (view : RunView) (event : AgentEvent)
    → to_run_state (reduce_run_view view event)
      ≡ reduce_run_state (to_run_state view) (react_event event)
unfolding to_run_state reduce_run_view reduce_run_state react_event
reduce_agrees view (tool_started tool_id name input) =
    ap (λ tools. record (to_run_state view) { tools = tools })
      (map-append to_tool_state view.tools _)
reduce_agrees view (tool_finished tool_id output is_error) =
    ap (λ tools. record (to_run_state view) { tools = tools })
      (finish_tools-agree tool_id output is_error view.tools)
reduce_agrees view _ = refl

-- Replaying translated events on the rendering side.
unfoldable pub replay : RunState → List AgentEvent → RunState
replay state [] = state
replay state (event ∷ events) = replay (reduce_run_state state (react_event event)) events

replay-agrees :
    (view : RunView) (events : List AgentEvent)
    → replay (to_run_state view) events ≡ to_run_state (reduce_all view events)
unfolding replay reduce_all
replay-agrees view [] = refl
replay-agrees view (event ∷ events) =
    rw (← reduce_agrees view event) (replay-agrees (reduce_run_view view event) events)

-- The core's reducer and the rendering side's agree on events: from a new run and any events, the
-- view reduced by the one and then converted by the sink is the state that the other computes from
-- the events in the form that the persistence writes them.
pub replay-initial :
    (run_id : String) (events : List AgentEvent)
    → replay (initial_run_state run_id) events
      ≡ to_run_state (reduce_all (initial_run_view run_id) events)
unfolding initial_run_state initial_run_view to_run_state
replay-initial run_id events = replay-agrees (initial_run_view run_id) events
