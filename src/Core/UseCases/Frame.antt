-- ===== src/Core/UseCases/Frame.antt =====
-- What a message of one chat leaves alone in the others.
pub mod Messages
use aw_bot.Prelude.{
  ℕ, zero, suc, String, Bool, true, false, Option, none, some, List, ◌≡◌, refl, ◌≢◌, if◌then◌else◌,
  Bool-cases, inl, inr,
}
use aw_bot.Prelude.Int.{ℤ, pos, negsuc}
use aw_bot.Prelude.Action.{Result, return, raise, pure, throw, get, modify, ◌>>=◌, ◌>>◌}
use aw_bot.Prelude.Action.Ensures.{
  Post, Ensures, Ensures-pure, Ensures-throw, Ensures-if, Ensures-bind,
}
use aw_bot.Core.Types.{Workspace, NamedWorkspace, HistoricalAgentSession}
use aw_bot.Core.Controller.State.{Exception, Controller, M, Call, call, now, assign}
use aw_bot.Core.Controller.Consume.{Outcome}
use aw_bot.Core.Controller.Invariant.{
  AllWf, At, Sound, SameAt, SameAt-refl, assign-ne, call-Holds, now-Holds,
}
use aw_bot.Core.Controller.Invariant.Timers.{
  set_idle_timeout-Sound, disable_idle_timeout-Sound, clear_idle_timeout_override-Sound,
}
use aw_bot.Core.Controller.Invariant.Handlers.{
  start_text_run-Sound, stop_run-Sound, queue_message-Sound, answer_user_input-Sound,
  answer_approval-Sound, reset_session-Sound, change_workspace-Sound, clear_selected_session-Sound,
  resume_session-Sound,
}
use aw_bot.Core.UseCases.State.{
  PrivateChatTextMessage, Reply, Setting, UseCases, U, core, select_model, select_opencode_agent,
  invalid, valid_or_raise, ask,
}

-- Work on `scope` that began in `u0` has reached this state.
pub record Reached (scope : String) (u0 u : UseCases) : Type 0 where
  pub controller_at : At scope u0.controller none u.controller
  pub same_models : (j : String) → scope ≢ j → u.scope_models j ≡ u0.scope_models j
  pub same_agents :
      (j : String) → scope ≢ j → u.scope_opencode_agents j ≡ u0.scope_opencode_agents j

abbrev pub Stays : String → UseCases → {A : Type 0} → U A → Type 0
Stays scope u0 m = Ensures (Reached scope u0) (Reached scope u0) m (λ _. Reached scope u0)

module _ {scope : String} {u0 : UseCases} where
  pub Stays-bind :
      {A B : Type 0} {m : U A} {f : A → U B}
      → Stays scope u0 m
      → ((a : A) → Stays scope u0 (f a))
      → Stays scope u0 (m >>= f)
  Stays-bind first rest = Ensures-bind first rest

  pub Stays-read :
      {B : Type 0} {f : UseCases → U B}
      → ((u : UseCases) → Stays scope u0 (f u))
      → Stays scope u0 (get >>= f)
  unfolding ◌>>=◌
  Stays-read rest = record { at = λ u h. (rest u).at u h }

  pub Stays-pure : {A : Type 0} (a : A) → Stays scope u0 (pure a)
  Stays-pure a = Ensures-pure a (λ u h. h)

  pub Stays-invalid : {A : Type 0} (message : String) → Stays scope u0 (invalid {A = A} message)
  unfolding invalid
  Stays-invalid message = Ensures-throw _ (λ u h. h)

  pub Stays-if :
      {A : Type 0} {m n : U A} (b : Bool)
      → Stays scope u0 m
      → Stays scope u0 n
      → Stays scope u0 (if b then m else n)
  Stays-if true hm hn = hm
  Stays-if false hm hn = hn

  landed :
      {A : Type 0} (u : UseCases) (r : Result Exception A) (s : Controller)
      → Reached scope u0 u
      → Post (λ _. At scope u0.controller none) (At scope u0.controller none) r s
      → Post (λ _. Reached scope u0) (Reached scope u0) r (record u { controller = s })
  landed u (return a) s h p = record {
    controller_at = p;
    same_models = h.same_models;
    same_agents = h.same_agents;
  }
  landed u (raise e) s h p = record {
    controller_at = p;
    same_models = h.same_models;
    same_agents = h.same_agents;
  }

  -- A method of the controller that keeps the runs well formed and the other chats alone.
  pub Stays-core : {A : Type 0} {m : M A} → Sound scope u0.controller m → Stays scope u0 (core m)
  unfolding core
  Stays-core {m = m} sound = record {
    at = λ u h.
        landed u (m u.controller).0 (m u.controller).1 h (sound.at u.controller h.controller_at);
  }

  pub ruleset stays = (Stays-bind, Stays-read, Stays-pure, Stays-invalid, Stays-if, Stays-core)

  pub select_model-Stays : (model : String) → Stays scope u0 (select_model scope model)
  unfolding select_model modify
  select_model-Stays model = record {
    at = λ u h. record {
      controller_at = h.controller_at;
      same_models =
          λ j ne. rw (assign-ne scope (some model) u.scope_models j ne) (h.same_models j ne);
      same_agents = h.same_agents;
    };
  }

  pub select_opencode_agent-Stays :
      (agent : String) → Stays scope u0 (select_opencode_agent scope agent)
  unfolding select_opencode_agent modify
  select_opencode_agent-Stays agent = record {
    at = λ u h. record {
      controller_at = h.controller_at;
      same_models = h.same_models;
      same_agents = λ j ne.
          rw (assign-ne scope (some agent) u.scope_opencode_agents j ne) (h.same_agents j ne);
    };
  }

  pub valid_or_raise-Stays :
      (checked : Result String Workspace) → Stays scope u0 (valid_or_raise checked)
  unfolding valid_or_raise
  valid_or_raise-Stays (return workspace) = Stays-pure workspace
  valid_or_raise-Stays (raise message) = Stays-invalid message

  pub ask-Stays :
      (setting : Setting) {A : Type 0} (c : Call) (answer : List Call → A)
      → Stays scope u0 (ask setting c answer)
  unfolding ask
  ask-Stays setting c answer =
      Stays-bind (Stays-core (call-Holds scope u0.controller setting.env c))
        (λ _. Stays-read (λ u. Stays-pure (answer u.controller.calls)))
