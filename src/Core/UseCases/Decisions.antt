-- ===== src/Core/UseCases/Decisions.antt =====
-- The words of react/pending.py for a decision, and what agent/codex_app_server.py and
-- agent/opencode_server.py make of the decisions.
use aw_bot.Prelude.{
  String, Bool, true, false, some, none, List, [], ◌∷◌, ◌++◌, All, In, ◌≢◌, ◌≡◌, refl, ◌⊎◌, inl,
  inr, subst, Bool-cases, str_eq, if◌then◌else◌, some_injective,
}
use aw_bot.Prelude.Text.{strip, eq_of_str_eq, ne_of_str_eq}
use aw_bot.Prelude.Action.{return, raise}
use aw_bot.Agent.Payload.{value_error}
use aw_bot.Agent.Codex.Router.{approval_decision}
use aw_bot.Agent.OpenCode.Decisions.{permission_decision}
use aw_bot.Core.UseCases.Command.{map_approval_decision, find_decision, approval_decisions}

-- The words of a user for each decision.
abbrev pub consents : List String
consents = "同意" ∷ "yes" ∷ "y" ∷ "allow" ∷ []

abbrev pub session_consents : List String
session_consents = "本会话同意" ∷ "always" ∷ []

abbrev pub refusals : List String
refusals = "拒绝" ∷ "no" ∷ "n" ∷ "deny" ∷ []

abbrev pub cancellations : List String
cancellations = "取消" ∷ "cancel" ∷ []

abbrev pub Both : String → String → Type 0
Both codex_decision decision =
    (approval_decision decision ≡ return codex_decision)
    × (permission_decision decision ≡ raise (value_error decision))

-- What a word is taken for, and what the two agents are sent for it.
abbrev pub IsDecided : String → String → Type 0
IsDecided word decision =
    (In word consents
      × (decision ≡ "accept")
      × (approval_decision decision ≡ return "accept")
      × (permission_decision decision ≡ return "once"))
    ⊎ ((In word session_consents
          × (decision ≡ "acceptForSession")
          × (approval_decision decision ≡ raise (value_error decision))
          × (permission_decision decision ≡ raise (value_error decision)))
        ⊎ ((In word refusals × (decision ≡ "decline") × Both "decline" decision)
            ⊎ (In word cancellations × (decision ≡ "cancel") × Both "decline" decision)))

module _ (P : String → String → Type 0) (word : String) where
  find_decision-All :
      (table : List (String × String)) (decision : String)
      → All (λ entry. P entry.0 entry.1) table
      → find_decision word table ≡ some decision
      → P word decision
  find_decision-All [] decision all e = cc
  find_decision-All ((w, d) ∷ rest) decision all e = elim (Bool-cases (str_eq w word)) [
    | inl same ↦
        subst (λ x. P x decision) (eq_of_str_eq w word same)
          (subst (P w) (some_injective d decision (on true same)) all.0)
    | inr other ↦ find_decision-All rest decision all.1 (on false other)
  ]
    where
      on :
          (b : Bool)
          → str_eq w word ≡ b
          → (if b then some d else find_decision word rest) ≡ some decision
      on b known =
          subst (λ b. (if b then some d else find_decision word rest) ≡ some decision) known e

find_decision-none :
    (word : String) (table : List (String × String))
    → find_decision word table ≡ none
    → All (λ entry. entry.0 ≢ word) table
find_decision-none word [] e = tt
find_decision-none word ((w, d) ∷ rest) e = elim (Bool-cases (str_eq w word)) [
  | inl same ↦ absurd (found (on true same))
  | inr other ↦ (ne_of_str_eq w word other, find_decision-none word rest (on false other))
]
  where
    on : (b : Bool) → str_eq w word ≡ b → (if b then some d else find_decision word rest) ≡ none
    on b known = subst (λ b. (if b then some d else find_decision word rest) ≡ none) known e

    found : some d ≡ none → ⊥
    found e = cc

approval_decisions-AllDecided : All (λ entry. IsDecided entry.0 entry.1) approval_decisions
unfolding approval_decision permission_decision
approval_decisions-AllDecided = (
  consent "同意" (inl refl),
  (
    consent "yes" (inr (inl refl)),
    (
      consent "y" (inr (inr (inl refl))),
      (
        consent "allow" (inr (inr (inr (inl refl)))),
        (
          for_session "本会话同意" (inl refl),
          (
            for_session "always" (inr (inl refl)),
            (
              refusal "拒绝" (inl refl),
              (
                refusal "no" (inr (inl refl)),
                (
                  refusal "n" (inr (inr (inl refl))),
                  (
                    refusal "deny" (inr (inr (inr (inl refl)))),
                    (cancellation "取消" (inl refl), (cancellation "cancel" (inr (inl refl)), tt)),
                  ),
                ),
              ),
            ),
          ),
        ),
      ),
    ),
  ),
)
  where
    consent : (word : String) → In word consents → IsDecided word "accept"
    consent word h = inl (h, refl, refl, refl)

    for_session : (word : String) → In word session_consents → IsDecided word "acceptForSession"
    for_session word h = inr (inl (h, refl, refl, refl))

    refusal : (word : String) → In word refusals → IsDecided word "decline"
    refusal word h = inr (inr (inl (h, refl, (refl, refl))))

    cancellation : (word : String) → In word cancellations → IsDecided word "cancel"
    cancellation word h = inr (inr (inr (h, refl, (refl, refl))))

-- A text, stripped and in lower case, that is taken for a decision is: a word of consent, taken for
-- "accept", which both agents are sent; a word of consent for the session, taken for
-- "acceptForSession", which raises ValueError for both; a word of refusal, taken for "decline", or a
-- word of cancellation, taken for "cancel", for both of which Codex is sent "decline" and which raise
-- ValueError for OpenCode. A text that is taken for no decision is none of these words.
pub map_approval_decision-IsDecided :
    (lower : String → String) (given : String)
    → ((decision : String)
        → map_approval_decision lower given ≡ some decision
        → IsDecided (lower (strip given)) decision)
      × (map_approval_decision lower given ≡ none
          → All
              (λ word. word ≢ lower (strip given))
              (consents ++ (session_consents ++ (refusals ++ cancellations))))
unfolding map_approval_decision
map_approval_decision-IsDecided lower given = (
  λ decision e.
      find_decision-All IsDecided (lower (strip given)) approval_decisions decision
        approval_decisions-AllDecided e,
  λ e. find_decision-none (lower (strip given)) approval_decisions e,
)
