-- ===== src/Tests/Cores.antt =====
-- The queue, the run view and the rendering layer at concrete messages and events.
use aw_bot.Prelude.{
  ℕ, ◌<◌, String, true, false, none, some, List, [], ◌∷◌, ◌≡◌, refl, length, arith,
}
use aw_bot.Prelude.Json.{end}
use aw_bot.Core.Types.{is_terminal}
use aw_bot.Core.Events.{
  AgentEvent, text_delta, tool_started, tool_finished, approval_requested, run_completed,
}
use aw_bot.Core.RunView.{initial_run_view}
use aw_bot.Core.RunView.Fold.{
  reduce_all, streamed_text, streamed_thinking, tools_of, reduce_all-initial,
}
use aw_bot.Core.RunView.Status.{kind_of, pending_kind, reduce_all-pending}
use aw_bot.Core.Queue.{QueuedMessage, MergedPrompt, pop_next_merged_prompt, merge_while, last_item}
use aw_bot.Core.Queue.Merge.{
  IsMerged, IsSplit, pop_next_merged_prompt-IsSplit, pop_next_merged_prompt-shrinks, IsSplit-unique,
}
use aw_bot.React.State.{initial_run_state, RunState}
use aw_bot.React.TextRenderer.{IsShortened, whole_text, render_text, render_text-IsShortened}
use aw_bot.React.Bridge.{to_run_state, replay, replay-initial}

abbrev message : String → ℕ → QueuedMessage
message text time = record {
  user_id = "ann";
  text = text;
  queued_at = time;
  model = none;
  opencode_agent = none;
  attachments = [];
}

abbrev later_messages : List QueuedMessage
later_messages = message "two" 2000000 ∷ message "three" 4000000 ∷ []

abbrev events : List AgentEvent
events =
    text_delta "ab"
    ∷ tool_started "t" "ls" end
    ∷ approval_requested "q" "go on?" end
    ∷ tool_finished "t" "ok" false
    ∷ text_delta "c"
    ∷ run_completed
    ∷ []

pop_next_merged_prompt-IsSplit_example :
    (items : List QueuedMessage) × (m : MergedPrompt) × (pop_next_merged_prompt
        (message "one" 1000000 ∷ later_messages)
        1500000
      ≡ some m)
    × IsSplit 1500000 (message "one" 1000000) later_messages items m.remaining
    × IsMerged (message "one" 1000000 ∷ items) m
pop_next_merged_prompt-IsSplit_example =
    pop_next_merged_prompt-IsSplit 1500000 (message "one" 1000000) later_messages

pop_next_merged_prompt-shrinks_example :
    ((m : MergedPrompt)
      → pop_next_merged_prompt later_messages 1500000 ≡ some m
      → length m.remaining < length later_messages)
    × (pop_next_merged_prompt later_messages 1500000 ≡ none → later_messages ≡ [])
pop_next_merged_prompt-shrinks_example = pop_next_merged_prompt-shrinks 1500000 later_messages

split :
    IsSplit 1500000
      (message "one" 1000000)
      later_messages
      (message "two" 2000000 ∷ [])
      (message "three" 4000000 ∷ [])
unfolding last_item
split = record { whole = refl; chained = (omega arith, tt); breaks = omega arith }

IsSplit-unique_example :
    ((merge_while 1500000 (message "one" 1000000) later_messages).0 ≡ message "two" 2000000 ∷ [])
    × ((merge_while 1500000 (message "one" 1000000) later_messages).1
        ≡ message "three" 4000000 ∷ [])
IsSplit-unique_example =
    IsSplit-unique 1500000 (message "one" 1000000) later_messages (message "two" 2000000 ∷ [])
      (message "three" 4000000 ∷ []) split

reduce_all-initial_example :
    ((reduce_all (initial_run_view "run") events).text ≡ streamed_text events)
    × ((reduce_all (initial_run_view "run") events).thinking ≡ streamed_thinking events)
    × ((reduce_all (initial_run_view "run") events).tools ≡ tools_of events)
reduce_all-initial_example = reduce_all-initial "run" events

reduce_all-pending_example :
    (kind_of (reduce_all (initial_run_view "run") events).pending
      ≡ pending_kind (reduce_all (initial_run_view "run") events).status)
    × (is_terminal (reduce_all (initial_run_view "run") events).status ≡ true
        → (reduce_all (initial_run_view "run") events).pending ≡ none)
reduce_all-pending_example = reduce_all-pending "run" events

replay-initial_example :
    replay (initial_run_state "run") events
    ≡ to_run_state (reduce_all (initial_run_view "run") events)
replay-initial_example = replay-initial "run" events

abbrev shown_state : RunState
shown_state = initial_run_state "run"

render_text-IsShortened_example :
    IsShortened (whole_text shown_state shown_state.pending) (render_text shown_state)
render_text-IsShortened_example = render_text-IsShortened shown_state
