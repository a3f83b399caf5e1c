-- ===== src/Core/Controller/Trace/NextTurn.antt =====
-- How a run that ends while messages are queued goes over into the next agent turn.
use aw_bot.Prelude.{
  ℕ, suc, String, Bool, true, false, Option, none, some, List, [], ◌∷◌, ◌≡◌, refl, sym, ap, subst,
  if◌then◌else◌,
}
use aw_bot.Prelude.Action.{Result, return, raise, pure, get, ◌>>=◌}
use aw_bot.Prelude.Action.Ensures.{Post}
use aw_bot.Core.Types.{Run, running, AgentSession, is_terminal}
use aw_bot.Core.Events.{AgentEvent}
use aw_bot.Core.RunView.{reduce_run_view, initial_run_view}
use aw_bot.Core.Queue.{QueuedMessage, MergedPrompt, pop_next_merged_prompt}
use aw_bot.Core.Controller.State.{
  Env, ActiveRun, Controller, M, Call, Exception, record_run_event, record_run_created, publish,
  start_turn, call_turn,
}
use aw_bot.Core.Controller.Sessions.{
  session_for_new_turn, session_or_create, fresh_session, start_agent_turn, start_in_session,
  start_turn_with_session_recovery, except_not_found, if_not_found,
}
use aw_bot.Core.Controller.Consume.{
  consume_event, take_event, effective_event, end_or_wait, next_or_finish, start_queued_next_turn,
  run_merged, enter_next_run, new_run, merge_window,
}
use aw_bot.Core.Controller.Trace.{
  Known, known, quiet, cancelled_before, None, Runs, Runs-bind, Runs-pure, Runs-call, Runs-now,
  Runs-put, Runs-active_run_of, Runs-cancel, Runs-at,
}
use aw_bot.Core.Controller.Trace.Ending.{shown, show_event-Runs, after_event-terminal}

-- The start of an agent turn for a merged prompt.
abbrev pub start_merged : AgentSession → MergedPrompt → Call
start_merged session merged =
    start_turn session merged.prompt merged.model merged.opencode_agent merged.attachments

-- The run of the next turn, from two readings of the clock.
abbrev pub next_run : Env → ℕ → String → String → AgentSession → String → Run
next_run e reads chat user session turn = record {
  run_id = e.run_id_factory (e.clock (suc reads));
  private_chat_scope_id = chat;
  user_id = user;
  agent_session_id = session.agent_session_id;
  agent_name = session.agent_name;
  agent_turn_id = turn;
  status = running;
  created_at = e.isoformat (e.clock reads);
  updated_at = e.isoformat (e.clock reads);
}

-- What is stored for the chat once the next turn has begun.
abbrev pub next_active : ActiveRun → Run → String → AgentSession → List QueuedMessage → ActiveRun
next_active a run turn session queue = record a {
  run = run;
  run_view = initial_run_view run.run_id;
  turn_stream = turn;
  agent_session = session;
  user_id = run.user_id;
  stop_requested = false;
  queued_messages = queue;
}

module _ (scope : String) where
  Runs-looked :
      {A : Type 0} {k k' : Known} {a : A} (f : Bool → Option AgentSession → M A)
      → Runs scope k (f k.fresh k.selected) a k'
      → Runs scope k
          (get >>= λ s. f (s.fresh_session_scope_ids scope) (s.selected_sessions scope))
          a
          k'
  unfolding ◌>>=◌
  Runs-looked {k = k} {k' = k'} {a = a} f run = record {
    at =
        λ s p. (subst (λ (x : Known). Runs scope k (f x.fresh x.selected) a k') (sym p) run).at s p;
  }

  Runs-tried :
      {A : Type 0} {k k' : Known} {m : M A} {a : A} (handler : M A)
      → Runs scope k m a k'
      → Runs scope k (except_not_found m handler) a k'
  unfolding except_not_found if_not_found pure
  Runs-tried {A} {k} {k'} {m} {a} handler run = record {
    at = λ s p. go (m s).0 (m s).1 (run.at s p);
  }
    where
      go :
          (r : Result Exception A) (t : Controller)
          → Post (λ b s. (b ≡ a) × (known scope s ≡ k')) None r t
          → Post
              (λ b s. (b ≡ a) × (known scope s ≡ k'))
              None
              (if_not_found handler r t).0
              (if_not_found handler r t).1
      go (return b) t q = q
      go (raise x) t q = absurd q

module _ (e : Env) (scope : String) where
  call_turn-Runs :
      {k : Known} (c : Call)
      → Runs scope k
          (call_turn (quiet e) c)
          (e.turn_of (c ∷ k.calls))
          (record k { calls = c ∷ k.calls })
  unfolding call_turn ◌>>=◌
  call_turn-Runs {k} c =
      Runs-bind scope {k' = record k { calls = c ∷ k.calls }} _ (Runs-call scope e c)
        (record { at = λ s p. (ap (λ (x : Known). e.turn_of x.calls) p, p) })

  session_for_new_turn-Runs :
      {k : Known} (user : String) (session : AgentSession)
      → k.fresh ≡ false
      → k.selected ≡ some session
      → Runs scope k (session_for_new_turn (quiet e) scope user) session k
  unfolding session_for_new_turn session_or_create
  session_for_new_turn-Runs {k} user session old selected =
      Runs-looked scope
        (λ fresh chosen.
          if fresh
          then fresh_session (quiet e) scope user
          else session_or_create (quiet e) scope user chosen)
        (rw (old, selected, session_or_create) (Runs-pure scope session))

  start_merged-Runs :
      {k : Known} (user : String) (session : AgentSession) (merged : MergedPrompt)
      → Runs scope k
          (start_turn_with_session_recovery
            (quiet e)
            scope
            user
            session
            merged.prompt
            merged.model
            merged.opencode_agent
            merged.attachments)
          (session, e.turn_of (start_merged session merged ∷ k.calls))
          (record k { calls = start_merged session merged ∷ k.calls })
  unfolding start_turn_with_session_recovery start_in_session start_agent_turn
  start_merged-Runs user session merged =
      Runs-tried scope _
        (Runs-bind scope _ (call_turn-Runs (start_merged session merged)) (Runs-pure scope _))

  new_run-Runs :
      {k : Known} (chat user : String) (session : AgentSession) (turn : String)
      → Runs scope k
          (new_run (quiet e) chat user session turn)
          (next_run e k.reads chat user session turn)
          (record k { reads = suc (suc k.reads) })
  unfolding new_run
  new_run-Runs chat user session turn =
      Runs-bind scope _ (Runs-now scope e)
        (Runs-bind scope _ (Runs-now scope e) (Runs-pure scope _))

  -- What is known once `a` has gone over into the turn of `merged`.
  abbrev pub after_next : Known → ActiveRun → AgentSession → MergedPrompt → Known
  after_next k a session merged =
      let turn = e.turn_of (start_merged session merged ∷ k.calls) in
      let run = next_run e k.reads a.run.private_chat_scope_id merged.user_id session turn in
      record k {
        active = some (next_active a run turn session merged.remaining);
        reads = suc (suc k.reads);
        calls =
            publish scope (initial_run_view run.run_id)
            ∷ record_run_created run
            ∷ start_merged session merged
            ∷ k.calls;
      }

  run_merged-Runs :
      {k : Known} {a : ActiveRun} (session : AgentSession) (merged : MergedPrompt)
      → k.active ≡ some a
      → k.fresh ≡ false
      → k.selected ≡ some session
      → Runs scope k (run_merged (quiet e) scope (some merged)) none (after_next k a session merged)
  unfolding run_merged enter_next_run
  run_merged-Runs {k} {a} session merged stored old selected =
      Runs-bind scope _ (Runs-active_run_of scope stored) (
        Runs-bind scope _ (Runs-put scope (some (record a { queued_messages = merged.remaining })))
          (Runs-bind scope _ (session_for_new_turn-Runs merged.user_id session old selected) (
            Runs-bind scope _ (start_merged-Runs merged.user_id session merged) (
              Runs-bind scope _ (Runs-active_run_of scope refl) (
                Runs-bind scope _
                  (new_run-Runs a.run.private_chat_scope_id merged.user_id session _)
                  (Runs-bind scope _ (Runs-put scope (some _)) (
                    Runs-bind scope _ (Runs-call scope e _)
                      (Runs-bind scope _ (Runs-call scope e _) (Runs-pure scope none)))))))))

  start_queued_next_turn-Runs :
      {k : Known} {a : ActiveRun} (session : AgentSession) (merged : MergedPrompt)
      → k.active ≡ some a
      → k.fresh ≡ false
      → k.selected ≡ some session
      → pop_next_merged_prompt a.queued_messages merge_window ≡ some merged
      → Runs scope k (start_queued_next_turn (quiet e) scope) none (after_next k a session merged)
  unfolding start_queued_next_turn
  start_queued_next_turn-Runs {k} {a} session merged stored old selected popped =
      Runs-bind scope _ (Runs-active_run_of scope stored)
        (rw popped (run_merged-Runs session merged stored old selected))

  next_or_finish-queued :
      {k : Known} {a : ActiveRun} (status : _) (session : AgentSession) (merged : MergedPrompt)
      (queue : List QueuedMessage)
      → k.active ≡ some a
      → k.fresh ≡ false
      → k.selected ≡ some session
      → a.queued_messages ≡ queue
      → pop_next_merged_prompt queue merge_window ≡ some merged
      → Runs scope k
          (next_or_finish (quiet e) scope status queue)
          none
          (after_next k a session merged)
  unfolding next_or_finish pop_next_merged_prompt
  next_or_finish-queued status session merged [] stored old selected same popped = cc
  next_or_finish-queued {a = a} status session merged (first ∷ queue) stored old selected same
        popped =
      start_queued_next_turn-Runs session merged stored old selected
        (subst (λ q. pop_next_merged_prompt q merge_window ≡ some merged) (sym same) popped)

  -- What is known before the queue is looked at.
  abbrev pub shown_last : Known → ActiveRun → AgentEvent → Known
  shown_last k a event = record k {
    active = some (record (shown e scope a event) { idle_timeout_handle = none });
    calls = cancelled_before a.idle_timeout_handle (
        publish scope (reduce_run_view a.run_view event)
        ∷ record_run_event a.run.run_id event
        ∷ k.calls);
  }

  end_or_wait-queued :
      {k : Known} {a : ActiveRun} (status : _) (session : AgentSession) (merged : MergedPrompt)
      → k.active ≡ some a
      → k.fresh ≡ false
      → k.selected ≡ some session
      → is_terminal status ≡ true
      → pop_next_merged_prompt a.queued_messages merge_window ≡ some merged
      → Runs scope k (end_or_wait (quiet e) scope status) none (
          after_next
            (record k {
              active = some (record a { idle_timeout_handle = none });
              calls = cancelled_before a.idle_timeout_handle k.calls;
            })
            (record a { idle_timeout_handle = none })
            session
            merged)
  unfolding end_or_wait
  end_or_wait-queued {k} {a} status session merged stored old selected done popped = rw done (
      Runs-bind scope _ (Runs-cancel scope e stored) (
        Runs-bind scope _ (Runs-active_run_of scope refl) (
          next_or_finish-queued status session merged a.queued_messages refl old selected refl
            popped)))

  take_event-Runs-next :
      {k : Known} {a : ActiveRun} (event : AgentEvent) (session : AgentSession)
      (merged : MergedPrompt)
      → k.active ≡ some a
      → k.fresh ≡ false
      → k.selected ≡ some session
      → is_terminal (reduce_run_view a.run_view event).status ≡ true
      → pop_next_merged_prompt a.queued_messages merge_window ≡ some merged
      → Runs scope k (take_event (quiet e) scope a event) none (
          after_next
            (shown_last k a event)
            (record (shown e scope a event) { idle_timeout_handle = none })
            session
            merged)
  unfolding take_event
  take_event-Runs-next {k} {a} event session merged stored old selected done popped =
      let status = (reduce_run_view a.run_view event).status in
      Runs-bind scope _ (Runs-call scope e (record_run_event a.run.run_id event)) (
        Runs-bind scope _ (show_event-Runs e scope event stored) (
          rw (after_event-terminal e scope event a.run_view status done)
            (end_or_wait-queued status session merged refl old selected done popped)))

  pub consume_event-Runs-next :
      {k : Known} {a : ActiveRun} (event : AgentEvent) (session : AgentSession)
      (merged : MergedPrompt)
      → k.active ≡ some a
      → k.fresh ≡ false
      → k.selected ≡ some session
      → a.timed_out ≡ false
      → is_terminal (reduce_run_view a.run_view (effective_event a event)).status ≡ true
      → pop_next_merged_prompt a.queued_messages merge_window ≡ some merged
      → Runs scope k (consume_event (quiet e) scope event) none (
          after_next
            (shown_last k a (effective_event a event))
            (record (shown e scope a (effective_event a event)) { idle_timeout_handle = none })
            session
            merged)
  unfolding consume_event
  consume_event-Runs-next {k} {a} event session merged stored old selected live done popped =
      let last = effective_event a event in
      Runs-bind scope _ (Runs-active_run_of scope stored) (
        subst
          (λ b. Runs scope k (if b then pure none else take_event (quiet e) scope a last) none (
            after_next (shown_last k a last)
              (record (shown e scope a last) { idle_timeout_handle = none }) session merged))
          (sym live) (take_event-Runs-next last session merged stored old selected done popped))

-- If no port raises, an event that ends a run with queued messages, in a chat whose session is
-- selected, starts the next turn in that session with the merged prompt, and goes on with its
-- events: the stored run is the new one, with the rest of the queue. The calls are those listed:
-- the status of the run that ended is not recorded, and no idle timer is scheduled for the new one.
pub consume_event-starts_next :
    (e : Env) (scope : String) (s : Controller) (a : ActiveRun) (event : AgentEvent)
    (session : AgentSession) (merged : MergedPrompt)
    → s.active_runs scope ≡ some a
    → s.fresh_session_scope_ids scope ≡ false
    → s.selected_sessions scope ≡ some session
    → a.timed_out ≡ false
    → is_terminal (reduce_run_view a.run_view (effective_event a event)).status ≡ true
    → pop_next_merged_prompt a.queued_messages merge_window ≡ some merged
    → let r = consume_event (quiet e) scope event s in
      let last = effective_event a event in
      let view = reduce_run_view a.run_view last in
      let before =
        start_merged session merged
        ∷ cancelled_before a.idle_timeout_handle
            (publish scope view ∷ record_run_event a.run.run_id last ∷ s.calls) in
      let turn = e.turn_of before in
      let run = next_run e s.clock_reads a.run.private_chat_scope_id merged.user_id session turn in
      (r.0 ≡ return none)
      × ((r.1.active_runs scope
            ≡ some (
                next_active
                  (record a { idle_timeout_handle = none })
                  run
                  turn
                  session
                  merged.remaining))
          × (r.1.calls
              ≡ publish scope (initial_run_view run.run_id) ∷ record_run_created run ∷ before))
consume_event-starts_next e scope s a event session merged stored old selected live done popped =
    let r =
      Runs-at scope (known scope s) (consume_event (quiet e) scope event) _ _
        (consume_event-Runs-next e scope event session merged stored old selected live done popped)
        s refl in
    (r.0, (ap (λ (k : Known). k.active) r.1, ap (λ (k : Known). k.calls) r.1))
