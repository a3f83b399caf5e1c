-- ===== src/Agent/Codex/Translator/Methods.antt =====
-- The methods of the Codex app server that are translated, and their names.
use aw_bot.Prelude.{
  String, Bool, true, false, some, ◌≡◌, refl, List, [], ◌∷◌, All, subst, sym, ap, ◌∙◌, inl, inr,
  Bool-cases, str_eq, some_injective, if◌then◌else◌,
}
use aw_bot.Prelude.Text.{eq_of_str_eq}
use aw_bot.Agent.Codex.Translator.{
  Method, request_user_input, agent_message_delta, reasoning_text_delta, reasoning_summary_delta,
  item_started, item_completed, command_approval, file_change_approval, permissions_approval,
  token_usage_updated, turn_completed, failure, find_method, method_of, method_table,
}

abbrev pub name_of : Method → String
name_of agent_message_delta = "item/agentMessage/delta"
name_of reasoning_text_delta = "item/reasoning/textDelta"
name_of reasoning_summary_delta = "item/reasoning/summaryTextDelta"
name_of item_started = "item/started"
name_of item_completed = "item/completed"
name_of request_user_input = "item/tool/requestUserInput"
name_of command_approval = "item/commandExecution/requestApproval"
name_of file_change_approval = "item/fileChange/requestApproval"
name_of permissions_approval = "item/permissions/requestApproval"
name_of token_usage_updated = "thread/tokenUsage/updated"
name_of turn_completed = "turn/completed"
name_of failure = "error"

find_method-name :
    (name : String) (method : Method) (table : List (String × Method))
    → All (λ entry. name_of entry.1 ≡ entry.0) table
    → find_method name table ≡ some method
    → name ≡ name_of method
find_method-name name method [] all e = cc
find_method-name name method ((n, m) ∷ rest) all e = elim (Bool-cases (str_eq n name)) [
  | inl same ↦
      sym (eq_of_str_eq n name same)
      ∙ sym all.0
      ∙ ap name_of (some_injective m method (on true same))
  | inr other ↦ find_method-name name method rest all.1 (on false other)
]
  where
    on :
        (b : Bool) → str_eq n name ≡ b → (if b then some m else find_method name rest) ≡ some method
    on b known = subst (λ b. (if b then some m else find_method name rest) ≡ some method) known e

-- A method that is translated has one name.
pub method_of-name :
    (name : String) (method : Method) → method_of name ≡ some method → name ≡ name_of method
unfolding method_of
method_of-name name method e =
    find_method-name name method method_table
      (
        refl,
        (refl, (refl, (refl, (refl, (refl, (refl, (refl, (refl, (refl, (refl, (refl, tt))))))))))),
      )
      e

pub method_of-name_of : (method : Method) → method_of (name_of method) ≡ some method
unfolding method_of
method_of-name_of agent_message_delta = refl
method_of-name_of reasoning_text_delta = refl
method_of-name_of reasoning_summary_delta = refl
method_of-name_of item_started = refl
method_of-name_of item_completed = refl
method_of-name_of request_user_input = refl
method_of-name_of command_approval = refl
method_of-name_of file_change_approval = refl
method_of-name_of permissions_approval = refl
method_of-name_of token_usage_updated = refl
method_of-name_of turn_completed = refl
method_of-name_of failure = refl
