-- ===== src/Core/Controller/Trace.antt =====
-- What a method does to one chat when no port raises: the stored run, the sessions, the calls made,
-- newest first, and the clock readings and timers used. One rule for each primitive.
pub mod Ending
pub mod Stop
pub mod StreamEnd
pub mod NextTurn
pub mod LostThread
pub mod Draining
use aw_bot.Prelude.{
  ℕ, suc, String, Bool, true, false, Option, none, some, List, [], ◌∷◌, ◌≡◌, refl, sym, ◌∙◌, ap,
  subst,
}
use aw_bot.Prelude.Action.{Result, return, raise, pure, throw, get, modify, ◌>>=◌, ◌>>◌}
use aw_bot.Prelude.Action.Ensures.{
  Post, Ensures, Ensures-pure, Ensures-bind, Ensures-pre, Ensures-known,
}
use aw_bot.Core.Types.{AgentSession}
use aw_bot.Core.Controller.State.{
  Env, ActiveRun, Controller, M, Call, Exception, cancel, key_error, put_active, active_run_of,
  or_raise, call, call_turn, now, outcome, assign,
}
use aw_bot.Core.Controller.Timers.{cancel_idle_timeout, cancel_of, cancel_handle}
use aw_bot.Core.Controller.Invariant.{assign_self}

-- The environment `e` with ports that never raise.
abbrev pub quiet : Env → Env
quiet e = record e { fault = λ calls c. none }

pub record Known : Type 0 where
  pub active : Option ActiveRun
  pub fresh : Bool
  pub selected : Option AgentSession
  pub calls : List Call
  pub reads : ℕ

-- What is known of one chat, read off a state.
abbrev pub known : String → Controller → Known
known scope s = record {
  active = s.active_runs scope;
  fresh = s.fresh_session_scope_ids scope;
  selected = s.selected_sessions scope;
  calls = s.calls;
  reads = s.clock_reads;
}

abbrev pub None : Controller → Type 0
None s = ⊥

-- `cancel` of a handle, if there is one.
abbrev pub cancelled_before : Option ℕ → List Call → List Call
cancelled_before none calls = calls
cancelled_before (some handle) calls = cancel handle ∷ calls

module _ (scope : String) where
  abbrev pub Is : Known → Controller → Type 0
  Is k s = known scope s ≡ k

  -- `m` raises nothing, returns `a` and takes what is known from `k` to `k'`.
  abbrev pub Runs : {A : Type 0} → Known → M A → A → Known → Type 0
  Runs k m a k' = Ensures None (Is k) m (λ b s. (b ≡ a) × Is k' s)

  pub Runs-bind :
      {A B : Type 0} {k k' k'' : Known} {m : M A} {a : A} {b : B} (f : A → M B)
      → Runs k m a k'
      → Runs k' (f a) b k''
      → Runs k (m >>= f) b k''
  Runs-bind {k' = k'} {k'' = k''} {a = a} {b = b} f first rest = Ensures-bind first (λ c.
      Ensures-known {F = c ≡ a} (λ s p. p.0)
        (λ same.
          subst (λ x. Ensures None (λ s. (c ≡ a) × Is k' s) (f x) (λ d s. (d ≡ b) × Is k'' s))
            (sym same) (Ensures-pre (λ s p. p.1) rest)))

  pub Runs-pure : {A : Type 0} {k : Known} (a : A) → Runs k (pure a) a k
  Runs-pure a = Ensures-pure a (λ s p. (refl, p))

  pub Runs-call :
      {k : Known} (e : Env) (c : Call)
      → Runs k (call (quiet e) c) tt (record k { calls = c ∷ k.calls })
  unfolding call outcome ◌>>=◌
  Runs-call e c = record {
    at = λ s p. (refl, ap (λ (k : Known). record k { calls = c ∷ k.calls }) p);
  }

  pub Runs-now :
      {k : Known} (e : Env)
      → Runs k (now (quiet e)) (e.clock k.reads) (record k { reads = suc k.reads })
  unfolding now
  Runs-now e = record {
    at = λ s p. (
      ap (λ (k : Known). e.clock k.reads) p,
      ap (λ (k : Known). record k { reads = suc k.reads }) p,
    );
  }

  pub Runs-put :
      {k : Known} (o : Option ActiveRun) → Runs k (put_active scope o) tt (record k { active = o })
  unfolding put_active modify
  Runs-put {k} o = record {
    at = λ s p. (
      refl,
      ap (λ x. record (known scope s) { active = x }) (assign_self scope o s.active_runs)
          ∙ ap (λ (k : Known). record k { active = o }) p,
    );
  }

  pub Runs-stored :
      {A : Type 0} {k k' : Known} {a : A} (f : Option ActiveRun → M A)
      → Runs k (f k.active) a k'
      → Runs k (get >>= λ s. f (s.active_runs scope)) a k'
  unfolding ◌>>=◌
  Runs-stored {k = k} {k' = k'} {a = a} f run = record {
    at = λ s p.
        (subst (λ (x : Option ActiveRun). Runs k (f x) a k') (sym (ap (λ (k : Known). k.active) p))
            run).at
          s p;
  }

  pub Runs-active_run_of :
      {k : Known} {a : ActiveRun} → k.active ≡ some a → Runs k (active_run_of scope) a k
  unfolding active_run_of or_raise
  Runs-active_run_of {k} {a} stored =
      Runs-stored (or_raise (key_error scope))
        (subst (λ o. Runs k (or_raise (key_error scope) o) a k) (sym stored) (Runs-pure a))

  -- `f` of the stored run, where that is known.
  pub Runs-stored_some :
      {A : Type 0} {k k' : Known} {a : A} {r : ActiveRun} (f : Option ActiveRun → M A)
      → k.active ≡ some r
      → Runs k (f (some r)) a k'
      → Runs k (get >>= λ s. f (s.active_runs scope)) a k'
  Runs-stored_some {k = k} {k' = k'} {a = a} f stored run =
      Runs-stored f (subst (λ o. Runs k (f o) a k') (sym stored) run)

  -- Cancelling the timer of a stored run.
  cancel_handle-Runs :
      {k : Known} {a : ActiveRun} (e : Env) (handle : Option ℕ)
      → a.idle_timeout_handle ≡ handle
      → k.active ≡ some a
      → Runs k (cancel_handle (quiet e) scope a handle) tt (record k {
        active = some (record a { idle_timeout_handle = none });
        calls = cancelled_before handle k.calls;
      })
  unfolding cancel_handle
  cancel_handle-Runs {k} {a} e none eq stored = Ensures-pure tt (λ s p. (
    refl,
    p
        ∙ ap (λ o. record k { active = o })
            (stored ∙ ap (λ h. some (record a { idle_timeout_handle = h })) eq),
  ))
  cancel_handle-Runs e (some handle) eq stored =
      Runs-bind _ (Runs-call e (cancel handle)) (Runs-put (some _))

  pub Runs-cancel :
      {k : Known} {a : ActiveRun} (e : Env)
      → k.active ≡ some a
      → Runs k (cancel_idle_timeout (quiet e) scope) tt (record k {
        active = some (record a { idle_timeout_handle = none });
        calls = cancelled_before a.idle_timeout_handle k.calls;
      })
  unfolding cancel_idle_timeout cancel_of
  Runs-cancel {a = a} e stored =
      Runs-stored_some (cancel_of (quiet e) scope) stored
        (cancel_handle-Runs e a.idle_timeout_handle refl stored)

-- What is known after a run that raises nothing, in a form without `Ensures`.
pub Runs-at :
    {A : Type 0} (scope : String) (k : Known) (m : M A) (a : A) (k' : Known)
    → Runs scope k m a k'
    → (s : Controller) → known scope s ≡ k
    → ((m s).0 ≡ return a) × (known scope (m s).1 ≡ k')
Runs-at {A} scope k m a k' run s p = go (m s).0 (m s).1 (run.at s p)
  where
    go :
        (r : Result Exception A) (t : Controller)
        → Post (λ b s. (b ≡ a) × (known scope s ≡ k')) None r t
        → (r ≡ return a) × (known scope t ≡ k')
    go (return b) t q = (ap return q.0, q.1)
    go (raise x) t q = absurd q
