-- ===== src/Core/UseCases/Models/FreshTurn.antt =====
-- The first turn of a fresh session, of a chat that has no active run.
use aw_bot.Prelude.{
  ℕ, suc, String, true, false, Option, none, some, List, [], ◌∷◌, In, ◌≡◌, refl, inl, inr,
}
use aw_bot.Prelude.Action.{Result, return, raise, pure, get, modify, ◌>>=◌, ◌>>◌}
use aw_bot.Core.Types.{AgentSession, Attachment, Run, running}
use aw_bot.Core.RunView.{initial_run_view}
use aw_bot.Core.Controller.State.{
  Env, Controller, Exception, Call, call, call_session, call_turn, outcome, now, select_session,
  mark_fresh, assign, create_session, start_turn, save_agent_session, publish, record_run_created,
  put_active, M, ActiveRun,
}
use aw_bot.Core.Controller.Timers.{
  arm_idle_timeout, arm_of, schedule_after, set_handle, cancel_handle, cancel_of,
  cancel_idle_timeout, new_handle, get_idle_timeout,
}
use aw_bot.Prelude.Action.Ensures.{Post, Ensures, Ensures-pure, Ensures-throw, Ensures-bind}
use aw_bot.Core.Controller.Sessions.{
  session_for_new_turn, fresh_session, ask_new_session, record_agent_session, start_agent_turn,
  start_in_session, start_turn_with_session_recovery, except_not_found, if_not_found,
}
use aw_bot.Core.Controller.Consume.{new_run, Outcome}
use aw_bot.Core.Controller.Handlers.{start_text_run, start_new_run, enter_run}
use aw_bot.Core.Controller.Trace.{quiet}

-- A call that was made stays among the calls while the idle timer is armed.
abbrev Made : Call → Controller → Type 0
Made c s = In c s.calls

abbrev Keeps : {A : Type 0} → Call → M A → Type 0
Keeps c m = Ensures (Made c) (Made c) m (λ _. Made c)

module _ {c : Call} where
  Keeps-bind :
      {A B : Type 0} {m : M A} {f : A → M B}
      → Keeps c m
      → ((a : A) → Keeps c (f a))
      → Keeps c (m >>= f)
  Keeps-bind first rest = Ensures-bind first rest

  Keeps-read :
      {B : Type 0} {f : Controller → M B} → ((s : Controller) → Keeps c (f s)) → Keeps c (get >>= f)
  unfolding ◌>>=◌
  Keeps-read rest = record { at = λ s h. (rest s).at s h }

  Keeps-pure : {A : Type 0} (a : A) → Keeps c (pure a)
  Keeps-pure a = Ensures-pure a (λ s h. h)

  put_active-Keeps : (scope : String) (a : Option ActiveRun) → Keeps c (put_active scope a)
  unfolding put_active modify
  put_active-Keeps scope a = record { at = λ s h. h }

  outcome-Keeps : (e : Option Exception) → Keeps c (outcome e)
  unfolding outcome
  outcome-Keeps none = Keeps-pure tt
  outcome-Keeps (some e) = Ensures-throw e (λ s h. h)

  log-Keeps : (d : Call) → Keeps c (modify (λ s. record s { calls = d ∷ s.calls }))
  unfolding modify
  log-Keeps d = record { at = λ s h. inr h }

  new_handle-Keeps : Keeps c new_handle
  unfolding new_handle
  new_handle-Keeps = record { at = λ s h. h }

  ruleset keeps = (
    Keeps-bind, Keeps-read, Keeps-pure, put_active-Keeps, outcome-Keeps, log-Keeps,
    new_handle-Keeps,
  )

  call-Keeps : (env : Env) (d : Call) → Keeps c (call env d)
  unfolding call
  call-Keeps env d = search keeps

  module _ (env : Env) (scope : String) where
    cancel_handle-Keeps :
        (a : ActiveRun) (handle : Option ℕ) → Keeps c (cancel_handle env scope a handle)
    unfolding cancel_handle
    cancel_handle-Keeps a none = search keeps
    cancel_handle-Keeps a (some handle) = search (keeps, call-Keeps)

    cancel_of-Keeps : (a : Option ActiveRun) → Keeps c (cancel_of env scope a)
    unfolding cancel_of
    cancel_of-Keeps none = search keeps
    cancel_of-Keeps (some a) = cancel_handle-Keeps a a.idle_timeout_handle

    set_handle-Keeps : (a : Option ActiveRun) (handle : ℕ) → Keeps c (set_handle env scope a handle)
    unfolding set_handle
    set_handle-Keeps none handle = search keeps
    set_handle-Keeps (some a) handle = search keeps

    schedule_after-Keeps : (delay : Option ℕ) → Keeps c (schedule_after env scope delay)
    unfolding schedule_after
    schedule_after-Keeps none = search keeps
    schedule_after-Keeps (some delay) = search (keeps, call-Keeps, set_handle-Keeps)

    arm_of-Keeps : (a : Option ActiveRun) → Keeps c (arm_of env scope a)
    unfolding arm_of cancel_idle_timeout get_idle_timeout
    arm_of-Keeps none = search keeps
    arm_of-Keeps (some a) = search (keeps, cancel_of-Keeps, schedule_after-Keeps) depth 8

    arm_idle_timeout-Keeps : {A : Type 0} (a : A) → Keeps c (do arm_idle_timeout env scope; pure a)
    unfolding arm_idle_timeout
    arm_idle_timeout-Keeps a = search (keeps, arm_of-Keeps)

Post-Made :
    {A : Type 0} (c : Call) (r : Result Exception A) (s : Controller)
    → Post (λ _. Made c) (Made c) r s
    → Made c s
Post-Made c (return a) s p = p
Post-Made c (raise e) s p = p

armed :
    (c : Call) (env : Env) (scope : String) (a : Outcome) (s : Controller)
    → In c s.calls
    → In c ((arm_idle_timeout env scope >> pure a) s).1.calls
armed c env scope a s h =
    Post-Made c ((arm_idle_timeout env scope >> pure a) s).0
      ((arm_idle_timeout env scope >> pure a) s).1
      ((arm_idle_timeout-Keeps {c = c} env scope a).at s h)

-- A call among those of a run that starts in a fresh session.
module _ (e : Env) (scope user prompt : String) (model agent : Option String)
    (attachments : List Attachment) where
  abbrev asked : Controller → List Call
  asked s = create_session scope user e.agent_name s.workspace e.access_mode ∷ s.calls

  abbrev session_at : Controller → AgentSession
  session_at s = e.session_of (asked s)

  abbrev turn_calls : Controller → List Call
  turn_calls s =
      start_turn (session_at s) prompt model agent attachments
      ∷ save_agent_session (record {
        agent_session_id = (session_at s).agent_session_id;
        private_chat_scope_id = (session_at s).private_chat_scope_id;
        user_id = (session_at s).user_id;
        agent_name = (session_at s).agent_name;
        workspace = (session_at s).workspace;
        access_mode = some (session_at s).access_mode;
        updated_at = e.isoformat (e.clock s.clock_reads);
      })
      ∷ asked s

  abbrev run_at : Controller → Run
  run_at s = record {
    run_id = e.run_id_factory (e.clock (suc (suc s.clock_reads)));
    private_chat_scope_id = scope;
    user_id = user;
    agent_session_id = (session_at s).agent_session_id;
    agent_name = (session_at s).agent_name;
    agent_turn_id = e.turn_of (turn_calls s);
    status = running;
    created_at = e.isoformat (e.clock (suc s.clock_reads));
    updated_at = e.isoformat (e.clock (suc s.clock_reads));
  }

  -- The state before the idle timer is armed.
  abbrev entered : Controller → Controller
  entered s = record s {
    active_runs =
        assign scope
          (some (record {
            run = run_at s;
            run_view = initial_run_view (run_at s).run_id;
            turn_stream = e.turn_of (turn_calls s);
            user_id = user;
            agent_session = session_at s;
            queued_messages = [];
            stop_requested = false;
            completion_future = none;
            idle_timeout_handle = none;
            timed_out = false;
          }))
          s.active_runs;
    fresh_session_scope_ids = assign scope false s.fresh_session_scope_ids;
    selected_sessions = assign scope (some (session_at s)) s.selected_sessions;
    calls =
        publish scope (initial_run_view (run_at s).run_id)
        ∷ record_run_created (run_at s)
        ∷ turn_calls s;
    clock_reads = suc (suc (suc s.clock_reads));
  }

  pub fresh-starts :
      (s : Controller)
      → s.active_runs scope ≡ none
      → s.fresh_session_scope_ids scope ≡ true
      → In
          (start_turn (e.session_of (asked s)) prompt model agent attachments)
          (start_text_run (quiet e) scope user prompt model agent attachments s).1.calls
  unfolding start_text_run start_new_run session_for_new_turn fresh_session
      start_turn_with_session_recovery ask_new_session except_not_found call_session if_not_found
      call start_in_session outcome start_agent_turn mark_fresh call_turn select_session enter_run
      record_agent_session new_run now put_active arm_idle_timeout ◌>>=◌ get pure modify
  fresh-starts s idle fresh = rw (idle) (
      rw fresh (
        armed (start_turn (session_at s) prompt model agent attachments) (quiet e) scope none
          (entered s) (inr (inr (inl refl)))))
