-- ===== src/Core/Queue/Merge.antt =====
-- Which messages one merged prompt takes, and what it says.
use aw_bot.Prelude.{
  String, true, false, ◌≢◌, ℕ, ◌+◌, ◌≤◌, ◌<◌, none, some, List, [], ◌∷◌, ◌++◌, ◌≡◌, refl, ap, sym,
  ◌∙◌, subst, arith, length, length-append, Bool-cases, inl, inr, ltb→lt, ltb-false→le,
}
use aw_bot.Core.Queue.{
  QueuedMessage, MergedPrompt, merge_while, outside_window, last_item, pop_next_merged_prompt,
  prompt_texts, all_attachments,
}
use aw_bot.Prelude.Text.{join, truthy, empty_of_not_truthy}
use aw_bot.Core.Types.{Attachment}

-- Each message of `items` came within the window of the one before it.
abbrev pub Chained : ℕ → QueuedMessage → List QueuedMessage → Type 0
Chained window previous [] = Unit
Chained window previous (item ∷ items) =
    (item.queued_at ≤ previous.queued_at + window) × Chained window item items

-- The first message of `rest` came after the window of `last`.
abbrev pub Breaks : ℕ → QueuedMessage → List QueuedMessage → Type 0
Breaks window last [] = Unit
Breaks window last (item ∷ rest) = last.queued_at + window < item.queued_at

-- The split of a queue that one prompt makes: `items` follow `first`, and `rest` stays queued.
pub record IsSplit (window : ℕ) (first : QueuedMessage) (queue items rest : List QueuedMessage)
    : Type 0 where
  pub whole : items ++ rest ≡ queue
  pub chained : Chained window first items
  pub breaks : Breaks window (last_item first items) rest

merge_while-IsSplit :
    (window : ℕ) (first : QueuedMessage) (queue : List QueuedMessage)
    → IsSplit window first queue
        (merge_while window first queue).0
        (merge_while window first queue).1
unfolding merge_while last_item
merge_while-IsSplit window first [] = record { whole = refl; chained = tt; breaks = tt }
merge_while-IsSplit window first (candidate ∷ rest) =
    let split = merge_while-IsSplit window candidate rest in
    elim (Bool-cases (outside_window window first candidate)) [
      | inl late ↦ rw late (record {
        whole = refl;
        chained = tt;
        breaks = ltb→lt (first.queued_at + window) candidate.queued_at late;
      })
      | inr near ↦ rw near (record {
        whole = ap (λ l. candidate ∷ l) split.whole;
        chained = (ltb-false→le (first.queued_at + window) candidate.queued_at near, split.chained);
        breaks = split.breaks;
      })
    ]

-- The texts of messages, in order, without the empty ones.
pub data Says : List QueuedMessage → List String → Type 0 where
  nothing : Says [] []
  skips :
      (m : QueuedMessage) (items : List QueuedMessage) (texts : List String)
      → m.text ≡ ""
      → Says items texts
      → Says (m ∷ items) texts
  says :
      (m : QueuedMessage) (items : List QueuedMessage) (texts : List String)
      → m.text ≢ ""
      → Says items texts
      → Says (m ∷ items) (m.text ∷ texts)

-- The attachments of messages, in order.
pub data Brings : List QueuedMessage → List Attachment → Type 0 where
  nothing : Brings [] []
  brings :
      (m : QueuedMessage) (items : List QueuedMessage) (attachments : List Attachment)
      → Brings items attachments
      → Brings (m ∷ items) (m.attachments ++ attachments)

-- What a prompt takes from the messages that are merged into it, the last of them being `last`.
pub record IsMerged (taken : List QueuedMessage) (m : MergedPrompt) : Type 0 where
  pub texts : List String
  pub all_texts : Says taken texts
  pub joins : m.prompt ≡ join "\n" texts
  pub brings_all : Brings taken m.attachments
  pub before : List QueuedMessage
  pub last : QueuedMessage
  pub ends : taken ≡ before ++ last ∷ []
  pub of_user : m.user_id ≡ last.user_id
  pub with_model : m.model ≡ last.model
  pub with_agent : m.opencode_agent ≡ last.opencode_agent

prompt_texts-Says : (items : List QueuedMessage) → Says items (prompt_texts items)
unfolding prompt_texts
prompt_texts-Says [] = Says.nothing
prompt_texts-Says (m ∷ items) = elim (Bool-cases (truthy m.text)) [
  | inl full ↦ rw full (
      says m items (prompt_texts items) (λ e. absurd (true_not_false (sym full ∙ ap truthy e)))
        (prompt_texts-Says items))
  | inr empty ↦ rw empty (
      skips m items (prompt_texts items) (empty_of_not_truthy m.text empty)
        (prompt_texts-Says items))
]
  where
    true_not_false : true ≡ false → ⊥
    true_not_false e = cc

all_attachments-Brings : (items : List QueuedMessage) → Brings items (all_attachments items)
unfolding all_attachments
all_attachments-Brings [] = Brings.nothing
all_attachments-Brings (m ∷ items) =
    brings m items (all_attachments items) (all_attachments-Brings items)

-- What stands before the last message.
before_last : QueuedMessage → List QueuedMessage → List QueuedMessage
before_last first [] = []
before_last first (item ∷ items) = first ∷ before_last item items

last_item-ends :
    (first : QueuedMessage) (items : List QueuedMessage)
    → first ∷ items ≡ before_last first items ++ last_item first items ∷ []
unfolding before_last last_item
last_item-ends first [] = refl
last_item-ends first (item ∷ items) = ap (λ rest. first ∷ rest) (last_item-ends item items)

-- A prompt takes the first message and the longest chain after it: each further message came within
-- the window of its predecessor, and the first one left came after the window of the last taken.
-- No message is lost, doubled or moved; the prompt joins the non-empty texts by newlines, takes all
-- attachments in order, and has the user, model and agent of the last message taken.
pub pop_next_merged_prompt-IsSplit :
    (window : ℕ) (first : QueuedMessage) (queue : List QueuedMessage)
    → (items : List QueuedMessage) × (m : MergedPrompt) × (pop_next_merged_prompt
          (first ∷ queue)
          window
        ≡ some m)
      × IsSplit window first queue items m.remaining
      × IsMerged (first ∷ items) m
unfolding pop_next_merged_prompt
pop_next_merged_prompt-IsSplit window first queue =
    let items = (merge_while window first queue).0 in
    (
      items,
      _,
      refl,
      merge_while-IsSplit window first queue,
      record {
        texts = prompt_texts (first ∷ items);
        all_texts = prompt_texts-Says (first ∷ items);
        joins = refl;
        brings_all = all_attachments-Brings (first ∷ items);
        before = before_last first items;
        last = last_item first items;
        ends = last_item-ends first items;
        of_user = refl;
        with_model = refl;
        with_agent = refl;
      },
    )

length-tail-le :
    (items rest queue : List QueuedMessage) → items ++ rest ≡ queue → length rest ≤ length queue
length-tail-le items rest queue e = omega (arith, length-append items rest, ap length e)

-- Each prompt leaves fewer messages than it found, so a queue is used up after finitely many turns;
-- and a queue that gives no prompt is empty.
pub pop_next_merged_prompt-shrinks :
    (window : ℕ) (queue : List QueuedMessage)
    → ((m : MergedPrompt)
        → pop_next_merged_prompt queue window ≡ some m
        → length m.remaining < length queue)
      × (pop_next_merged_prompt queue window ≡ none → queue ≡ [])
unfolding pop_next_merged_prompt
pop_next_merged_prompt-shrinks window [] = (λ m e. cc, λ e. refl)
pop_next_merged_prompt-shrinks window (first ∷ queue) =
    let split = merge_while-IsSplit window first queue in
    let fewer =
      length-tail-le (merge_while window first queue).0 (merge_while window first queue).1 queue
        split.whole in
    (λ m e. ground (arith, fewer), λ e. cc)

Chained-unique :
    (window : ℕ) (first : QueuedMessage) (items rest items' rest' : List QueuedMessage)
    → items ++ rest ≡ items' ++ rest'
    → Chained window first items
    → Chained window first items'
    → Breaks window (last_item first items) rest
    → Breaks window (last_item first items') rest'
    → (items ≡ items') × (rest ≡ rest')
unfolding last_item
Chained-unique window first [] rest [] rest' e c c' b b' = (refl, e)
Chained-unique window first [] [] (x ∷ items') rest' e c c' b b' = cc
Chained-unique window first [] (r ∷ rest) (x ∷ items') rest' e c c' b b' =
    let same : r ≡ x = cc in absurd (omega (arith, ap (λ m. m.queued_at) same, c'.0, b))
Chained-unique window first (x ∷ items) rest [] [] e c c' b b' = cc
Chained-unique window first (x ∷ items) rest [] (r ∷ rest') e c c' b b' =
    let same : x ≡ r = cc in absurd (omega (arith, ap (λ m. m.queued_at) same, c.0, b'))
Chained-unique window first (x ∷ items) rest (y ∷ items') rest' e c c' b b' =
    let same : y ≡ x = cc in
    let (items_eq, rest_eq) =
      Chained-unique window x items rest items' rest' (cc) c.1
        (subst (λ m. Chained window m items') same c'.1) b
        (subst (λ m. Breaks window (last_item m items') rest') same b') in
    (cc, rest_eq)

-- The split of a queue is the only one that chains its items and breaks after them.
pub IsSplit-unique :
    (window : ℕ) (first : QueuedMessage) (queue items rest : List QueuedMessage)
    → IsSplit window first queue items rest
    → ((merge_while window first queue).0 ≡ items) × ((merge_while window first queue).1 ≡ rest)
IsSplit-unique window first queue items rest s =
    let split = merge_while-IsSplit window first queue in
    Chained-unique window first (merge_while window first queue).0
      (merge_while window first queue).1 items rest (split.whole ∙ sym s.whole) split.chained
      s.chained split.breaks s.breaks
