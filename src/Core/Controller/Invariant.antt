-- ===== src/Core/Controller/Invariant.antt =====
-- What every stored run satisfies, and what work on one chat leaves alone in the others.
pub mod Runs
pub mod Timers
pub mod Sessions
pub mod Consume
pub mod Handlers
pub use Runs.*
use aw_bot.Prelude.{
  ℕ, suc, String, Bool, true, false, Option, none, some, List, [], ◌∷◌, ◌≡◌, refl, sym, ◌∙◌, ◌≢◌,
  ◌⊎◌, subst, str_eq, eq_iff, arith, ap, if◌then◌else◌, Bool-cases, inl, inr,
}
use aw_bot.Prelude.Action.{Result, return, raise, pure, throw, get, modify, ◌>>=◌, ◌>>◌}
use aw_bot.Prelude.Action.Ensures.{
  Post, Ensures, Ensures-pure, Ensures-throw, Ensures-known, Ensures-pre, Ensures-post,
  Ensures-bind, Ensures-get, Ensures-if,
}
use aw_bot.Core.Types.{AgentSession, Workspace, RunStatus}
use aw_bot.Core.RunView.{RunView}
use aw_bot.Core.Queue.{QueuedMessage}
use aw_bot.Core.RunView.Status.{IsCoherent}
use aw_bot.Core.Controller.Timers.{new_handle}
use aw_bot.Core.Controller.State.{
  Env, ActiveRun, Controller, M, Call, Exception, assign, put_active, select_session, mark_fresh,
  override_timeout, set_workspace, or_raise, active_run_of, outcome, call, call_session, call_turn,
  now, key_error,
}

module _ (scope : String) (s0 : Controller) where
  -- Work on `scope` that began in `s0` has reached this state, with the run `o` stored if there is
  -- one to speak of.
  pub record At (o : Option ActiveRun) (s : Controller) : Type 0 where
    pub wf : AllWf s
    pub frame : (j : String) → scope ≢ j → SameAt j s0 s
    pub stored : Stored o (s.active_runs scope)

  -- Whatever the action returns or raises, the stored runs stay well formed and the other chats
  -- are left alone.
  abbrev pub Holds : {A : Type 0} → Option ActiveRun → M A → Option ActiveRun → Type 0
  Holds o m o' = Ensures (At none) (At o) m (λ _. At o')

  abbrev pub Sound : {A : Type 0} → M A → Type 0
  Sound m = Holds none m none

  pub forget : {o : Option ActiveRun} {s : Controller} → At o s → At none s
  forget h = record { wf = h.wf; frame = h.frame; stored = tt }

  pub IsWf-of : {a : ActiveRun} {s : Controller} → At (some a) s → IsWf scope a
  IsWf-of {a} h = h.wf scope a h.stored

  -- A change that keeps the stored runs, and the entries of the other chats.
  kept :
      {o : Option ActiveRun} {s : Controller} (t : Controller)
      → At o s
      → t.active_runs ≡ s.active_runs
      → ((j : String) → scope ≢ j → SameAt j s t)
      → At o t
  kept {o} {s} t h same frame = record {
    wf = rw same h.wf;
    frame = λ j ne. SameAt-trans (h.frame j ne) (frame j ne);
    stored = rw same h.stored;
  }

  pub put_active-Holds :
      {o : Option ActiveRun} (a : ActiveRun)
      → ((s : Controller) → At o s → IsWf scope a)
      → Holds o (put_active scope (some a)) (some a)
  unfolding put_active modify
  put_active-Holds a w = record {
    at = λ s h. record {
      wf =
          AllWf-assign scope (some a) s
            (λ b e. let same : a ≡ b = cc in subst (IsWf scope) same (w s h)) h.wf;
      frame = λ j ne. SameAt-trans (h.frame j ne) (record {
        active = assign-ne scope (some a) s.active_runs j ne;
        fresh = refl;
        selected = refl;
        timeout = refl;
      });
      stored = assign_self scope (some a) s.active_runs;
    };
  }

  pub pop_active-Sound : {o : Option ActiveRun} → Holds o (put_active scope none) none
  unfolding put_active modify
  pop_active-Sound = record {
    at = λ s h. record {
      wf = AllWf-assign scope none s (λ b e. cc) h.wf;
      frame = λ j ne. SameAt-trans (h.frame j ne) (record {
        active = assign-ne scope none s.active_runs j ne;
        fresh = refl;
        selected = refl;
        timeout = refl;
      });
      stored = tt;
    };
  }

  module _ {o : Option ActiveRun} where
    pub select_session-Holds :
        (session : Option AgentSession) → Holds o (select_session scope session) o
    unfolding select_session modify
    select_session-Holds session = record {
      at = λ s h. kept _ h refl λ j ne. record {
        active = refl;
        fresh = refl;
        selected = assign-ne scope session s.selected_sessions j ne;
        timeout = refl;
      };
    }

    pub mark_fresh-Holds : (fresh : Bool) → Holds o (mark_fresh scope fresh) o
    unfolding mark_fresh modify
    mark_fresh-Holds fresh = record {
      at = λ s h. kept _ h refl λ j ne. record {
        active = refl;
        fresh = assign-ne scope fresh s.fresh_session_scope_ids j ne;
        selected = refl;
        timeout = refl;
      };
    }

    pub override_timeout-Holds :
        (value : Option (Option ℕ)) → Holds o (override_timeout scope value) o
    unfolding override_timeout modify
    override_timeout-Holds value = record {
      at = λ s h. kept _ h refl λ j ne. record {
        active = refl;
        fresh = refl;
        selected = refl;
        timeout = assign-ne scope value s.idle_timeout_overrides j ne;
      };
    }

    pub set_workspace-Holds : (workspace : Workspace) → Holds o (set_workspace workspace) o
    unfolding set_workspace modify
    set_workspace-Holds workspace = record {
      at = λ s h.
          kept _ h refl
            (λ j ne. record { active = refl; fresh = refl; selected = refl; timeout = refl });
    }

    pub pure-Holds : {A : Type 0} (a : A) → Holds o (pure a) o
    pure-Holds a = Ensures-pure a (λ s h. h)

    pub throw-Holds : {A : Type 0} (e : Exception) → Holds o (throw {A = A} e) o
    throw-Holds e = Ensures-throw e (λ s h. forget h)

    outcome-Holds : (e : Option Exception) → Holds o (outcome e) o
    unfolding outcome
    outcome-Holds none = pure-Holds tt
    outcome-Holds (some e) = throw-Holds e

    -- A change of the bookkeeping alone.
    touch-Holds :
        (f : Controller → Controller)
        → ((s : Controller) → At o s → At o (f s))
        → Holds o (modify f) o
    unfolding modify
    touch-Holds f keeps = record { at = keeps }

    pub read-Holds :
        {A : Type 0} {f : Controller → M A} {o' : Option ActiveRun}
        → ((s : Controller) → Holds o (f s) o')
        → Holds o (get >>= f) o'
    unfolding ◌>>=◌
    read-Holds rest = record { at = λ s h. (rest s).at s h }

    pub call-Holds : (env : Env) (c : Call) → Holds o (call env c) o
    unfolding call
    call-Holds env c = read-Holds (λ before.
        Ensures-bind
          (touch-Holds (λ s. record s { calls = c ∷ s.calls })
            (λ s h.
              kept _ h refl
                (λ j ne. record { active = refl; fresh = refl; selected = refl; timeout = refl })))
          (λ _. outcome-Holds (env.fault before.calls c)))

    pub new_handle-Holds : Holds o new_handle o
    unfolding new_handle
    new_handle-Holds = record {
      at = λ s h.
          kept _ h refl
            (λ j ne. record { active = refl; fresh = refl; selected = refl; timeout = refl });
    }

    pub now-Holds : (env : Env) → Holds o (now env) o
    unfolding now
    now-Holds env = record {
      at = λ s h.
          kept _ h refl
            (λ j ne. record { active = refl; fresh = refl; selected = refl; timeout = refl });
    }

    pub call_session-Holds : (env : Env) (c : Call) → Holds o (call_session env c) o
    unfolding call_session
    call_session-Holds env c =
        Ensures-bind (call-Holds env c) (λ _. read-Holds (λ s. pure-Holds (env.session_of s.calls)))

    pub call_turn-Holds : (env : Env) (c : Call) → Holds o (call_turn env c) o
    unfolding call_turn
    call_turn-Holds env c =
        Ensures-bind (call-Holds env c) (λ _. read-Holds (λ s. pure-Holds (env.turn_of s.calls)))

    pub weaken-Holds :
        {A : Type 0} {m : M A} {o' : Option ActiveRun} → Holds none m o' → Holds o m o'
    weaken-Holds h = Ensures-pre (λ s p. forget p) h

  pub loosen-Holds :
      {A : Type 0} {m : M A} {o o' : Option ActiveRun} → Holds o m o' → Holds o m none
  loosen-Holds h = Ensures-post (λ a s p. forget p) h

  -- `active_run_of scope` gives the stored run.
  or_raise-Holds :
      (now : Controller) (found : Option ActiveRun)
      → now.active_runs scope ≡ found
      → Ensures
          (At none)
          (λ s. At none s × (s ≡ now))
          (or_raise (key_error scope) found)
          (λ a. At (some a))
  unfolding or_raise
  or_raise-Holds now none e = Ensures-throw (key_error scope) (λ s h. h.0)
  or_raise-Holds now (some a) e =
      Ensures-pure a (λ s h. record { wf = h.0.wf; frame = h.0.frame; stored = rw h.1 e })

  pub active_run_of-Holds :
      {o : Option ActiveRun} → Ensures (At none) (At o) (active_run_of scope) (λ a. At (some a))
  unfolding active_run_of ◌>>=◌
  active_run_of-Holds = record {
    at = λ s h. (or_raise-Holds s (s.active_runs scope) refl).at s (forget h, refl);
  }

  -- Branching on the stored run, as `self._active_runs.get(...)` does.
  pub stored-Ensures :
      {A : Type 0} (f : Option ActiveRun → M A) {o : Option ActiveRun} {Q : A → Controller → Type 0}
      → Ensures (At none) (At none) (f none) Q
      → ((a : ActiveRun) → IsWf scope a → Ensures (At none) (At (some a)) (f (some a)) Q)
      → Ensures (At none) (At o) (get >>= λ s. f (s.active_runs scope)) Q
  unfolding ◌>>=◌
  stored-Ensures {A} f {o} {Q} absent present = record {
    at = λ s h. go s h (s.active_runs scope) refl;
  }
    where
      go :
          (s : Controller)
          → At o s
          → (found : Option ActiveRun) → s.active_runs scope ≡ found
          → Post Q (At none) (f found s).0 (f found s).1
      go s h none e = absent.at s (forget h)
      go s h (some a) e =
          let p : At (some a) s = record { wf = h.wf; frame = h.frame; stored = e } in
          (present a (IsWf-of p)).at s p

  pub stored-Holds :
      {A : Type 0} (f : Option ActiveRun → M A) {o o' : Option ActiveRun}
      → Holds none (f none) o'
      → ((a : ActiveRun) → IsWf scope a → Holds (some a) (f (some a)) o')
      → Holds o (get >>= λ s. f (s.active_runs scope)) o'
  stored-Holds f absent present = stored-Ensures f absent present

  -- The rest may use that the stored run is well formed.
  pub known-Holds :
      {A : Type 0} {m : M A} {a : ActiveRun} {o' : Option ActiveRun}
      → (IsWf scope a → Holds (some a) m o')
      → Holds (some a) m o'
  known-Holds rest = Ensures-known (λ s p. IsWf-of p) rest
