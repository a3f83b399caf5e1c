-- ===== src/Core/Queue.antt =====
-- core/queue.py: messages that arrive during a run, and how the next prompt is merged from them.
pub mod Merge
use aw_bot.Prelude.{
  ℕ, ◌+◌, String, Bool, Option, none, some, List, [], ◌∷◌, ◌++◌, map, ltb, if◌then◌else◌,
}
use aw_bot.Prelude.Text.{truthy, join}
use aw_bot.Core.Types.{Attachment}

-- `queued_at` is a time in microseconds, the resolution of a datetime.
pub record QueuedMessage : Type 0 where
  pub user_id : String
  pub text : String
  pub queued_at : ℕ
  pub model : Option String
  pub opencode_agent : Option String
  pub attachments : List Attachment

pub record MergedPrompt : Type 0 where
  pub prompt : String
  pub attachments : List Attachment
  pub user_id : String
  pub model : Option String
  pub opencode_agent : Option String
  pub remaining : List QueuedMessage

-- (candidate.queued_at - previous.queued_at).total_seconds() > merge_window_seconds
unfoldable pub outside_window : ℕ → QueuedMessage → QueuedMessage → Bool
outside_window window previous candidate = ltb (previous.queued_at + window) candidate.queued_at

-- The `while remaining` loop: what it appends to `merged_items` after `previous`, the last one so
-- far, and what it leaves in `remaining`.
unfoldable pub merge_while :
    ℕ → QueuedMessage → List QueuedMessage → List QueuedMessage × List QueuedMessage
unfolding outside_window
merge_while window previous [] = ([], [])
merge_while window previous (candidate ∷ rest) =
    let more = merge_while window candidate rest in
    if outside_window window previous candidate
    then ([], candidate ∷ rest)
    else (candidate ∷ more.0, more.1)

-- merged_items[-1], for the non-empty list `first ∷ items`.
unfoldable pub last_item : QueuedMessage → List QueuedMessage → QueuedMessage
last_item first [] = first
last_item first (item ∷ items) = last_item item items

-- (item.text for item in merged_items if item.text)
unfoldable pub prompt_texts : List QueuedMessage → List String
prompt_texts [] = []
prompt_texts (item ∷ items) =
    if truthy item.text then item.text ∷ prompt_texts items else prompt_texts items

unfoldable pub all_attachments : List QueuedMessage → List Attachment
all_attachments [] = []
all_attachments (item ∷ items) = item.attachments ++ all_attachments items

unfoldable pub pop_next_merged_prompt : List QueuedMessage → ℕ → Option MergedPrompt
unfolding merge_while last_item prompt_texts all_attachments join
pop_next_merged_prompt [] window = none
pop_next_merged_prompt (first ∷ queue) window =
    let (items, rest) = merge_while window first queue in
    some (record {
      prompt = join "\n" (prompt_texts (first ∷ items));
      attachments = all_attachments (first ∷ items);
      user_id = (last_item first items).user_id;
      model = (last_item first items).model;
      opencode_agent = (last_item first items).opencode_agent;
      remaining = rest;
    })
