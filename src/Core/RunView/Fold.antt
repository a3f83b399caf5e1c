-- ===== src/Core/RunView/Fold.antt =====
-- What a run view shows after any sequence of events: the fold that the controller makes, one
-- event at a time, against a description of each field by the events alone.
use Prim.Native.String
use aw_bot.Prelude.{
  String, Bool, true, false, Option, none, some, str_eq, if◌then◌else◌, Bool-cases, inl, inr, List,
  [], ◌∷◌, ◌++◌, map, ◌≡◌, refl, sym, ap, ◌∙◌, append-nil,
}
use aw_bot.Core.Events.{AgentEvent, text_delta, thinking_delta, tool_started, tool_finished}
use text.Mathlib.TextLemmas.{
  append_assoc as text_append_assoc, append-nil as text_append-nil, nil-append,
}
use aw_bot.Core.RunView.{
  RunView, ToolCallView, reduce_run_view, finish_tool, initial_run_view, tool_running,
  tool_completed, tool_failed,
}

-- `active_run.run_view = reduce_run_view(active_run.run_view, event)`, for each event in turn.
unfoldable pub reduce_all : RunView → List AgentEvent → RunView
reduce_all view [] = view
reduce_all view (event ∷ events) = reduce_all (reduce_run_view view event) events

-- The texts of the TextDelta events, in order.
unfoldable pub streamed_text : List AgentEvent → String
streamed_text [] = ""
streamed_text (text_delta text ∷ events) = String.◌++◌ text (streamed_text events)
streamed_text (_ ∷ events) = streamed_text events

unfoldable pub streamed_thinking : List AgentEvent → String
streamed_thinking [] = ""
streamed_thinking (thinking_delta text ∷ events) = String.◌++◌ text (streamed_thinking events)
streamed_thinking (_ ∷ events) = streamed_thinking events

abbrev or_earlier : {A : Type 0} → Option A → Option A → Option A
or_earlier earlier none = earlier
or_earlier earlier (some later) = some later

-- The output and the error mark of the last ToolFinished event that names a tool.
unfoldable pub last_finish : String → List AgentEvent → Option (String × Bool)
last_finish id [] = none
last_finish id (tool_finished tool_id output is_error ∷ events) =
    or_earlier (if str_eq id tool_id then some (output, is_error) else none) (last_finish id events)
last_finish id (_ ∷ events) = last_finish id events

-- A tool with the output and the status that an event gave, if there was one.
unfoldable pub finished_by : Option (String × Bool) → ToolCallView → ToolCallView
finished_by none tool = tool
finished_by (some (output, true)) tool = record tool { output = some output; status = tool_failed }
finished_by (some (output, false)) tool = record tool {
  output = some output;
  status = tool_completed;
}

-- What later events make of one tool: only the last ToolFinished event that names it counts.
unfoldable pub settle : List AgentEvent → ToolCallView → ToolCallView
settle events tool = finished_by (last_finish tool.tool_id events) tool

-- One view for each ToolStarted event, settled by the events after it.
unfoldable pub tools_of : List AgentEvent → List ToolCallView
tools_of [] = []
tools_of (tool_started tool_id name input ∷ events) =
    settle events (record {
      tool_id = tool_id;
      name = name;
      input = input;
      output = none;
      status = tool_running;
    })
    ∷ tools_of events
tools_of (_ ∷ events) = tools_of events

reduce_all-text :
    (view : RunView) (events : List AgentEvent)
    → (reduce_all view events).text ≡ String.◌++◌ view.text (streamed_text events)
unfolding reduce_all reduce_run_view streamed_text
reduce_all-text view [] = sym (text_append-nil view.text)
reduce_all-text view (text_delta text ∷ events) =
    reduce_all-text (reduce_run_view view (text_delta text)) events
    ∙ text_append_assoc view.text text (streamed_text events)
reduce_all-text view (event ∷ events) = reduce_all-text (reduce_run_view view event) events

reduce_all-thinking :
    (view : RunView) (events : List AgentEvent)
    → (reduce_all view events).thinking ≡ String.◌++◌ view.thinking (streamed_thinking events)
unfolding reduce_all reduce_run_view streamed_thinking
reduce_all-thinking view [] = sym (text_append-nil view.thinking)
reduce_all-thinking view (thinking_delta text ∷ events) =
    reduce_all-thinking (reduce_run_view view (thinking_delta text)) events
    ∙ text_append_assoc view.thinking text (streamed_thinking events)
reduce_all-thinking view (event ∷ events) = reduce_all-thinking (reduce_run_view view event) events

settle-finished :
    (tool_id output : String) (is_error : Bool) (events : List AgentEvent) (tool : ToolCallView)
    → settle (tool_finished tool_id output is_error ∷ events) tool
      ≡ settle events (finish_tool tool_id output is_error tool)
unfolding settle last_finish finish_tool finished_by
settle-finished tool_id output is_error events tool =
    elim (Bool-cases (str_eq tool.tool_id tool_id)) [
      | inl same ↦ rw same (overwritten is_error (last_finish tool.tool_id events))
      | inr other ↦
          rw other (ap (λ f. finished_by f tool) (none_earlier (last_finish tool.tool_id events)))
    ]
  where
    none_earlier : (later : Option (String × Bool)) → or_earlier none later ≡ later
    none_earlier none = refl
    none_earlier (some later) = refl

    overwritten :
        (b : Bool) (later : Option (String × Bool))
        → finished_by (or_earlier (some (output, b)) later) tool
          ≡ finished_by later (record tool {
            output = some output;
            status = if b then tool_failed else tool_completed;
          })
    overwritten true none = refl
    overwritten false none = refl
    overwritten true (some (later, true)) = refl
    overwritten true (some (later, false)) = refl
    overwritten false (some (later, true)) = refl
    overwritten false (some (later, false)) = refl

map-settle-nil : (tools : List ToolCallView) → map (settle []) tools ≡ tools
unfolding settle last_finish finished_by
map-settle-nil [] = refl
map-settle-nil (tool ∷ tools) = ap (λ rest. tool ∷ rest) (map-settle-nil tools)

map-settle-finished :
    (tool_id output : String) (is_error : Bool) (events : List AgentEvent)
    (tools : List ToolCallView)
    → map (settle (tool_finished tool_id output is_error ∷ events)) tools
      ≡ map (settle events) (map (finish_tool tool_id output is_error) tools)
map-settle-finished tool_id output is_error events [] = refl
map-settle-finished tool_id output is_error events (tool ∷ tools) =
    rw (settle-finished tool_id output is_error events tool) (
      ap (λ rest. settle events (finish_tool tool_id output is_error tool) ∷ rest)
        (map-settle-finished tool_id output is_error events tools))

map-settle-snoc :
    (events : List AgentEvent) (tools : List ToolCallView) (tool : ToolCallView)
    (rest : List ToolCallView)
    → map (settle events) (tools ++ tool ∷ []) ++ rest
      ≡ map (settle events) tools ++ settle events tool ∷ rest
map-settle-snoc events [] tool rest = refl
map-settle-snoc events (t ∷ tools) tool rest =
    ap (λ more. settle events t ∷ more) (map-settle-snoc events tools tool rest)

reduce_all-tools :
    (view : RunView) (events : List AgentEvent)
    → (reduce_all view events).tools ≡ map (settle events) view.tools ++ tools_of events
unfolding reduce_all reduce_run_view tools_of settle last_finish
reduce_all-tools view [] = sym (append-nil (map (settle []) view.tools) ∙ map-settle-nil view.tools)
reduce_all-tools view (tool_started tool_id name input ∷ events) =
    reduce_all-tools (reduce_run_view view (tool_started tool_id name input)) events
    ∙ map-settle-snoc events view.tools _ (tools_of events)
reduce_all-tools view (tool_finished tool_id output is_error ∷ events) =
    reduce_all-tools (reduce_run_view view (tool_finished tool_id output is_error)) events
    ∙ ap (λ tools. tools ++ tools_of events)
        (sym (map-settle-finished tool_id output is_error events view.tools))
reduce_all-tools view (event ∷ events) = reduce_all-tools (reduce_run_view view event) events

-- After any events, a run's view shows the streamed text and thinking, and one tool
-- for each ToolStarted event, in order: with the output of the last later ToolFinished event that names it, completed or failed
-- as that event says, or running and without output if there is no such event.
pub reduce_all-initial :
    (run_id : String) (events : List AgentEvent)
    → ((reduce_all (initial_run_view run_id) events).text ≡ streamed_text events)
      × ((reduce_all (initial_run_view run_id) events).thinking ≡ streamed_thinking events)
      × ((reduce_all (initial_run_view run_id) events).tools ≡ tools_of events)
unfolding initial_run_view
reduce_all-initial run_id events = (
  reduce_all-text (initial_run_view run_id) events ∙ nil-append (streamed_text events),
  reduce_all-thinking (initial_run_view run_id) events ∙ nil-append (streamed_thinking events),
  reduce_all-tools (initial_run_view run_id) events,
)
