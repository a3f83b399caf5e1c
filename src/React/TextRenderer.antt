-- ===== src/React/TextRenderer.antt =====
-- react/text_renderer.py: the text that stands for a run where no card can be shown.
use Prim.Native.String
use text.Mathlib.TextLemmas.{length-append, length-cons, length-nil, nil-append, cons-append}
use aw_bot.Prelude.{
  ℕ, zero, suc, ◌≤◌, ◌<◌, String, true, false, Option, none, some, ◌≡◌, refl, sym, ◌∙◌, ap, arith,
  leb, if◌then◌else◌, Bool-cases, inl, inr,
}
use aw_bot.Prelude.Text.{truthy}
use aw_bot.Core.Types.{
  RunStatus, running, pending_user_input, pending_approval, completed, failed, interrupted,
  timed_out, PendingKind, user_input, approval,
}
use aw_bot.React.State.{PendingState, RunState}

abbrev pub max_text_length : ℕ
max_text_length = 4000

-- `text[:n]`, in characters
unfoldable pub first_characters : ℕ → String → String
first_characters zero text = ""
first_characters (suc n) String.[] = ""
first_characters (suc n) (String.◌∷◌ c text) = String.◌∷◌ c (first_characters n text)

-- `text or other`
abbrev or_text : String → String → String
or_text text other = if truthy text then text else other

-- `_status_text`
unfoldable pub status_text : RunStatus → String
status_text running = "处理中…"
status_text pending_user_input = "等待补充信息"
status_text pending_approval = "等待审批"
status_text completed = "任务已完成"
status_text failed = "任务失败"
status_text interrupted = "任务已停止"
status_text timed_out = "任务已超时"

abbrev prompt_text : PendingKind → String → String
prompt_text approval prompt =
    String.◌++◌ "等待审批：\n" (String.◌++◌ (or_text prompt "需要审批") "\n\n回复“同意”继续，或回复“拒绝”取消。")
prompt_text user_input prompt = String.◌++◌ "等待补充信息：\n" (or_text prompt "请补充信息")

-- `_pending_text`, of a state with a pending request
unfoldable pub pending_text : PendingState → String
pending_text pending = prompt_text pending.kind pending.prompt

abbrev error_text : RunStatus → Option String → String
error_text status none = status_text status
error_text status (some error) =
    if truthy error then String.◌++◌ "任务失败：" error else status_text status

-- The text before the test of its length, for a pending request or none.
unfoldable pub whole_text : RunState → Option PendingState → String
whole_text state (some pending) = pending_text pending
whole_text state none =
    if truthy state.text then state.text else error_text state.status state.error

-- 3999 is MAX_TEXT_LENGTH - 1.
unfoldable pub shorten : String → String
shorten text =
    if leb (String.count text) max_text_length
    then text
    else String.◌++◌ (first_characters 3999 text) "…"

unfoldable pub render_text : RunState → String
render_text state = shorten (whole_text state state.pending)

-- A text long enough is cut into its first `n` characters and a rest.
first_characters-cuts :
    (n : ℕ) (text : String)
    → n ≤ String.count text
    → (rest : String) × (text ≡ String.◌++◌ (first_characters n text) rest)
      × (String.count (first_characters n text) ≡ n)
unfolding first_characters
first_characters-cuts zero text le = (text, sym (nil-append text), length-nil)
first_characters-cuts (suc n) String.[] le = absurd (omega (arith, le, length-nil))
first_characters-cuts (suc n) (String.◌∷◌ c text) le =
    let (rest, whole, many) =
      first_characters-cuts n text (omega (arith, le, length-cons c text)) in
    (
      rest,
      ap (λ t. String.◌∷◌ c t) whole ∙ sym (cons-append c (first_characters n text) rest),
      length-cons c (first_characters n text) ∙ ap suc many,
    )

leb-true→le : (a b : ℕ) → leb a b ≡ true → a ≤ b
leb-true→le a b h = ground arith

leb-false→lt : (a b : ℕ) → leb a b ≡ false → b < a
leb-false→lt a b h = ground arith

-- What a shortened text is of the whole one.
pub record IsShortened (whole text : String) : Type 0 where
  pub fits : String.count text ≤ max_text_length
  pub kept : String.count whole ≤ max_text_length → text ≡ whole
  pub cut :
      max_text_length < String.count whole
      → (front : String) × (rest : String) × (text ≡ String.◌++◌ front "…")
        × (whole ≡ String.◌++◌ front rest)
        × (String.count front ≡ 3999)

shorten-IsShortened : (text : String) → IsShortened text (shorten text)
unfolding shorten
shorten-IsShortened text = elim (Bool-cases (leb (String.count text) max_text_length)) [
  | inl short ↦ rw short (record {
    fits = leb-true→le (String.count text) max_text_length short;
    kept = λ le. refl;
    cut = λ lt. absurd (omega (arith, lt, leb-true→le (String.count text) max_text_length short));
  })
  | inr long ↦
      let lt = leb-false→lt (String.count text) max_text_length long in
      let (rest, whole, many) = first_characters-cuts 3999 text (omega (arith, lt)) in
      rw long (record {
        fits = omega (arith, many, length-append (first_characters 3999 text) "…", one_more);
        kept = λ le. absurd (omega (arith, lt, le));
        cut = λ _. (first_characters 3999 text, rest, refl, whole, many);
      })
]
  where
    one_more : String.count "…" ≡ 1
    one_more = refl

-- The rendered text has at most 4000 characters. A text of the run that fits is rendered whole; of
-- a longer one its first 3999 characters are, with an ellipsis after them.
pub render_text-IsShortened :
    (state : RunState) → IsShortened (whole_text state state.pending) (render_text state)
unfolding render_text
render_text-IsShortened state = shorten-IsShortened (whole_text state state.pending)
