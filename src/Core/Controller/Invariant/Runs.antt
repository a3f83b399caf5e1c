-- ===== src/Core/Controller/Invariant/Runs.antt =====
-- Well-formed runs, and states that are the same for one chat.
use aw_bot.Prelude.{
  ℕ, String, Bool, Option, none, some, List, ◌≡◌, refl, ◌∙◌, ◌≢◌, ◌⊎◌, subst, str_eq, eq_iff, arith,
  Bool-cases, inl, inr,
}
use aw_bot.Core.Types.{RunStatus}
use aw_bot.Core.RunView.{RunView}
use aw_bot.Core.Queue.{QueuedMessage}
use aw_bot.Core.RunView.Status.{IsCoherent}
use aw_bot.Core.Controller.State.{ActiveRun, Controller, assign}

-- A run stored for the chat `scope`: its fields agree with one another, its view's pending request
-- is the one that its status names, and its completion future is not done.
pub record IsWf (scope : String) (a : ActiveRun) : Type 0 where
  pub scope_eq : a.run.private_chat_scope_id ≡ scope
  pub view_eq : a.run_view.run_id ≡ a.run.run_id
  pub coherent : IsCoherent a.run_view
  pub user_eq : a.run.user_id ≡ a.user_id
  pub turn_eq : a.run.agent_turn_id ≡ a.turn_stream
  pub session_eq : a.run.agent_session_id ≡ a.agent_session.agent_session_id
  pub unfinished : a.completion_future ≡ none

-- The fields that the conditions do not name may change freely.
pub IsWf-flags :
    {scope : String} (a : ActiveRun) (queue : List QueuedMessage) (stop late : Bool)
    (handle : Option ℕ)
    → IsWf scope a
    → IsWf scope (record a {
      queued_messages = queue;
      stop_requested = stop;
      timed_out = late;
      idle_timeout_handle = handle;
    })
IsWf-flags a queue stop late handle w = record {
  scope_eq = w.scope_eq;
  view_eq = w.view_eq;
  coherent = w.coherent;
  user_eq = w.user_eq;
  turn_eq = w.turn_eq;
  session_eq = w.session_eq;
  unfinished = w.unfinished;
}

pub IsWf-view :
    {scope : String} (a : ActiveRun) (view : RunView)
    → view.run_id ≡ a.run_view.run_id
    → IsCoherent view
    → IsWf scope a
    → IsWf scope (record a { run_view = view })
IsWf-view a view same coherent w = record {
  scope_eq = w.scope_eq;
  view_eq = same ∙ w.view_eq;
  coherent = coherent;
  user_eq = w.user_eq;
  turn_eq = w.turn_eq;
  session_eq = w.session_eq;
  unfinished = w.unfinished;
}

pub IsWf-status :
    {scope : String} (a : ActiveRun) (status : RunStatus)
    → IsWf scope a
    → IsWf scope (record a { run = record (a.run) { status = status } })
IsWf-status a status w = record {
  scope_eq = w.scope_eq;
  view_eq = w.view_eq;
  coherent = w.coherent;
  user_eq = w.user_eq;
  turn_eq = w.turn_eq;
  session_eq = w.session_eq;
  unfinished = w.unfinished;
}

-- The entries of one chat are the same in two states.
pub record SameAt (j : String) (s t : Controller) : Type 0 where
  pub active : t.active_runs j ≡ s.active_runs j
  pub fresh : t.fresh_session_scope_ids j ≡ s.fresh_session_scope_ids j
  pub selected : t.selected_sessions j ≡ s.selected_sessions j
  pub timeout : t.idle_timeout_overrides j ≡ s.idle_timeout_overrides j

pub SameAt-refl : (j : String) (s : Controller) → SameAt j s s
SameAt-refl j s = record { active = refl; fresh = refl; selected = refl; timeout = refl }

abbrev pub AllWf : Controller → Type 0
AllWf s = (k : String) (a : ActiveRun) → s.active_runs k ≡ some a → IsWf k a

pub assign-ne {ℓ} :
    {V : Type ℓ} (scope : String) (v : V) (d : String → V) (j : String)
    → scope ≢ j
    → assign scope v d j ≡ d j
unfolding assign
assign-ne scope v d j h = ground (arith, eq_iff scope j)

pub assign_self {ℓ} :
    {V : Type ℓ} (scope : String) (v : V) (d : String → V) → assign scope v d scope ≡ v
unfolding assign
assign_self scope v d = ground (arith, eq_iff scope scope)

abbrev pub Stored : Option ActiveRun → Option ActiveRun → Type 0
Stored none found = Unit
Stored (some a) found = found ≡ some a

pub SameAt-trans : {j : String} {s t u : Controller} → SameAt j s t → SameAt j t u → SameAt j s u
SameAt-trans p q = record {
  active = q.active ∙ p.active;
  fresh = q.fresh ∙ p.fresh;
  selected = q.selected ∙ p.selected;
  timeout = q.timeout ∙ p.timeout;
}

pub assign_cases :
    {V : Type 0} (scope : String) (v : V) (d : String → V) (k : String) (w : V)
    → assign scope v d k ≡ w
    → ((scope ≡ k) × (v ≡ w)) ⊎ (d k ≡ w)
unfolding assign
assign_cases scope v d k w e = elim (Bool-cases (str_eq scope k)) [
  | inl same ↦ inl ((eq_iff scope k).0 same, rw same at e)
  | inr other ↦ inr (rw other at e)
]

pub AllWf-assign :
    (scope : String) (o : Option ActiveRun) (s : Controller)
    → ((a : ActiveRun) → o ≡ some a → IsWf scope a)
    → AllWf s
    → (k : String) (b : ActiveRun) → assign scope o s.active_runs k ≡ some b
    → IsWf k b
AllWf-assign scope o s new old k b e = elim (assign_cases scope o s.active_runs k (some b) e) [
  | inl (here, stored) ↦ subst (λ c. IsWf c b) here (new b stored)
  | inr there ↦ old k b there
]
