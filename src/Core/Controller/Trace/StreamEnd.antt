-- ===== src/Core/Controller/Trace/StreamEnd.antt =====
-- How the end of an agent turn's stream leaves the run: after an idle timeout, and where the stream
-- broke off.
use aw_bot.Prelude.{
  String, true, false, Option, none, some, List, [], ◌∷◌, ◌++◌, ◌≡◌, refl, sym, ◌∙◌, ap, subst, map,
  if◌then◌else◌, is_some, ◌||◌,
}
use Prim.Native.String
use aw_bot.Prelude.Action.{Result, return, raise, pure, throw, ◌>>=◌, and_then}
use aw_bot.Prelude.Action.Ensures.{Post}
use aw_bot.Core.Types.{timed_out, Attachment}
use aw_bot.Core.Events.{AgentEvent, run_timed_out}
use aw_bot.Core.RunView.{reduce_run_view}
use aw_bot.Core.Controller.State.{
  Env, ActiveRun, Controller, M, Exception, runtime_error, publish, stream_stop, active_run_of,
  or_raise, put_active, call, now,
}
use aw_bot.Core.Controller.Timers.{handle_idle_timeout, time_out}
use aw_bot.Core.Controller.Consume.{consume_event, consume_end}
use aw_bot.Core.Controller.Handlers.{
  start_text_run, queue_message, require_active_run, owned_or_raise,
}
use aw_bot.Core.Controller.Invariant.Runs.{assign_self}
use aw_bot.Core.Queue.{QueuedMessage}
use text.Mathlib.TextPositions.{eq_refl}
use aw_bot.Core.Controller.Machine.{Stimulus, timer, agent_event, handle, nothing_of, run_all}
use aw_bot.Core.Controller.Trace.{
  Known, known, quiet, cancelled_before, None, Runs, Runs-active_run_of, Runs-cancel, Runs-at,
  Runs-bind, Runs-pure, Runs-put, Runs-call, Runs-stored_some,
}
use aw_bot.Core.Controller.Trace.Ending.{ended, consume_end-Runs-timed_out}
use aw_bot.Core.Controller.Trace.Stop.{closing_calls}

-- The action raises `x`, and takes what is known from `k` to `k'`.
abbrev Raises : {A : Type 0} → String → Known → M A → Exception → Known → Type 0
Raises scope k m x k' =
    (s : Controller) → known scope s ≡ k → ((m s).0 ≡ raise x) × (known scope (m s).1 ≡ k')

Raises-bind :
    {A B : Type 0} (scope : String) {k k' k'' : Known} {m : M A} {a : A} {x : Exception}
    (f : A → M B)
    → Runs scope k m a k'
    → Raises scope k' (f a) x k''
    → Raises scope k (m >>= f) x k''
unfolding ◌>>=◌
Raises-bind {A} {B} scope {k} {k'} {k''} {m} {a} {x} f run rest s p =
    go (m s).0 (m s).1 (run.at s p)
  where
    go :
        (r : Result Exception A) (t : Controller)
        → Post (λ b s. (b ≡ a) × (known scope s ≡ k')) None r t
        → ((and_then r f t).0 ≡ raise x) × (known scope (and_then r f t).1 ≡ k'')
    go (return b) t q =
        subst (λ c. ((f c t).0 ≡ raise x) × (known scope (f c t).1 ≡ k'')) (sym q.0) (rest t q.1)
    go (raise y) t q = absurd q

-- Events that arrive one after another in a chat.
abbrev pub arriving : String → List AgentEvent → List (String × Stimulus)
arriving scope events = map (λ event. (scope, agent_event event)) events

-- A run that the timer has given up.
abbrev pub given_up : ActiveRun → ActiveRun
given_up a = record a { timed_out = true; queued_messages = [] }

module _ (e : Env) (scope : String) where
  consume_event-late :
      (s : Controller) (a : ActiveRun) (event : AgentEvent)
      → s.active_runs scope ≡ some a
      → a.timed_out ≡ true
      → consume_event e scope event s ≡ (return none, s)
  unfolding consume_event active_run_of or_raise ◌>>=◌
  consume_event-late s a event stored late = rw (stored, or_raise, late) refl

  run_all-late :
      (events : List AgentEvent) (s : Controller) (a : ActiveRun)
      → s.active_runs scope ≡ some a
      → a.timed_out ≡ true
      → run_all e s (arriving scope events) ≡ s
  unfolding run_all handle
  run_all-late [] s a stored late = refl
  run_all-late (event ∷ rest) s a stored late =
      ap (λ (r : _ × Controller). run_all e r.1 (arriving scope rest))
        (consume_event-late s a event stored late)
      ∙ run_all-late rest s a stored late

module _ (e : Env) (scope : String) where
  handle_idle_timeout-Runs :
      {k : Known} {a : ActiveRun}
      → k.active ≡ some a
      → a.timed_out ≡ false
      → a.run_view.pending ≡ none
      → Runs scope k
          (handle_idle_timeout (quiet e) scope)
          tt
          (record k { active = some (given_up a); calls = stream_stop a.turn_stream ∷ k.calls })
  unfolding handle_idle_timeout time_out
  handle_idle_timeout-Runs {k} {a} stored live idle =
      Runs-stored_some scope (time_out (quiet e) scope) stored (
        subst
          (λ b.
            Runs scope k
              (if b
                then pure tt
                else put_active scope (some (given_up a)) >>= λ _.
                    call (quiet e) (stream_stop a.turn_stream))
              tt
              (record k {
                active = some (given_up a);
                calls = stream_stop a.turn_stream ∷ k.calls;
              }))
          (sym waits)
          (Runs-bind scope _ (Runs-put scope (some (given_up a))) (Runs-call scope e _)))
    where
      waits : (a.timed_out || is_some a.run_view.pending) ≡ false
      waits = ap (λ b. b || is_some a.run_view.pending) live ∙ ap is_some idle

  timer-at :
      (s : Controller) (a : ActiveRun)
      → s.active_runs scope ≡ some a
      → a.timed_out ≡ false
      → a.run_view.pending ≡ none
      → known scope (handle (quiet e) scope timer s).1 ≡ record (known scope s) {
        active = some (given_up a);
        calls = stream_stop a.turn_stream ∷ s.calls;
      }
  unfolding handle nothing_of
  timer-at s a stored live idle =
      (Runs-at scope (known scope s) (nothing_of (quiet e) (handle_idle_timeout (quiet e) scope)) _
        _
        (Runs-bind scope (λ _. pure none) (handle_idle_timeout-Runs stored live idle)
          (Runs-pure scope none))
        s refl).1

  -- If no port raises, the idle timer of a run that waits for its agent asks the agent's stream to
  -- stop, once. Whatever events arrive after it are ignored, and the end of the stream gives the run
  -- as timed out: the chat has no active run, and the view is published as timed out.
  pub consume_end-timed_out :
      (s : Controller) (a : ActiveRun) (events : List AgentEvent)
      → s.active_runs scope ≡ some a
      → a.timed_out ≡ false
      → a.run_view.pending ≡ none
      → a.completion_future ≡ none
      → let r =
          consume_end
            (quiet e)
            scope
            (run_all (quiet e) s ((scope, timer) ∷ arriving scope events)) in
        (r.0 ≡ return (some (ended e s.clock_reads a timed_out)))
        × ((r.1.active_runs scope ≡ none)
            × (r.1.calls
                ≡ closing_calls e s.clock_reads
                    (record a { idle_timeout_handle = none })
                    timed_out
                    (publish scope (reduce_run_view a.run_view run_timed_out)
                      ∷ cancelled_before a.idle_timeout_handle
                          (stream_stop a.turn_stream ∷ s.calls))))
  unfolding reduce_run_view run_all
  consume_end-timed_out s a events stored live idle unset =
      let after = timer-at s a stored live idle in
      let s1 = (handle (quiet e) scope timer s).1 in
      let same =
        run_all-late (quiet e) scope events s1 (given_up a) (ap (λ (k : Known). k.active) after)
          refl in
      let r =
        Runs-at scope _ (consume_end (quiet e) scope) _ _
          (consume_end-Runs-timed_out e scope {a = given_up a} refl refl unset) s1 after in
      subst
        (λ t.
          let r = consume_end (quiet e) scope t in
          (r.0 ≡ return (some (ended e s.clock_reads a timed_out)))
          × ((r.1.active_runs scope ≡ none)
              × (r.1.calls
                  ≡ closing_calls e s.clock_reads (record a { idle_timeout_handle = none })
                      timed_out
                      (publish scope (reduce_run_view a.run_view run_timed_out)
                        ∷ cancelled_before a.idle_timeout_handle
                            (stream_stop a.turn_stream ∷ s.calls)))))
        (sym same) (r.0, (ap (λ k. k.active) r.1, ap (λ k. k.calls) r.1))

  consume_end-unfinished :
      (s : Controller) (a : ActiveRun)
      → s.active_runs scope ≡ some a
      → a.timed_out ≡ false
      → a.stop_requested ≡ false
      → let r = consume_end (quiet e) scope s in
        (r.0 ≡ raise (runtime_error "agent turn ended without a terminal event"))
        × (r.1.active_runs scope ≡ some (record a { idle_timeout_handle = none }))
  unfolding consume_end throw
  consume_end-unfinished s a stored live unasked =
      let after : Known = record (known scope s) {
        active = some (record a { idle_timeout_handle = none });
        calls = cancelled_before a.idle_timeout_handle s.calls;
      } in
      let r =
        Raises-bind scope {k = known scope s} {k'' = after} _ (Runs-cancel scope e stored)
          (Raises-bind scope {k'' = after} _ (Runs-active_run_of scope refl)
            (rw (live, unasked) (λ t p. (refl, p))))
          s refl in
      (r.0, ap (λ (k : Known). k.active) r.1)

  start_text_run-busy :
      (s : Controller) (a : ActiveRun) (user text : String) (model opencode_agent : Option String)
      (attachments : List Attachment)
      → s.active_runs scope ≡ some a
      → start_text_run e scope user text model opencode_agent attachments s
        ≡ (raise (runtime_error (String.◌++◌ "scope already has an active run: " scope)), s)
  unfolding start_text_run ◌>>=◌
  start_text_run-busy s a user text model opencode_agent attachments stored = rw stored refl

-- A run with one more queued message.
abbrev pub with_queued : QueuedMessage → ActiveRun → ActiveRun
with_queued message a = record a { queued_messages = a.queued_messages ++ message ∷ [] }

queue_message-accepted :
    (e : Env) (scope : String) (s : Controller) (a : ActiveRun) (text : String)
    (model opencode_agent : Option String) (attachments : List Attachment)
    → s.active_runs scope ≡ some a
    → a.run_view.pending ≡ none
    → let q = queue_message e scope a.user_id text model opencode_agent attachments s in
      (q.0 ≡ return a.run)
      × (q.1.calls ≡ s.calls)
      × (q.1.active_runs scope
          ≡ some (
              with_queued
                (record {
                  user_id = a.user_id;
                  text = text;
                  queued_at = e.clock s.clock_reads;
                  model = model;
                  opencode_agent = opencode_agent;
                  attachments = attachments;
                })
                a))
unfolding queue_message require_active_run owned_or_raise now put_active ◌>>=◌
queue_message-accepted e scope s a text model opencode_agent attachments stored answered =
    rw (stored, eq_refl a.user_id, answered) (refl, refl, assign_self scope _ s.active_runs)

-- If no port raises, the end of the stream of a run that neither timed out nor was asked to stop
-- raises, and leaves the run stored without its timer: any start of a run in the chat by any user is
-- refused, and changes nothing. If the run has no pending request, a message that its owner queues is
-- accepted and stored with the run, and no port is called for it.
pub consume_end-unfinished-busy :
    (e : Env) (scope : String) (s : Controller) (a : ActiveRun) (user text : String)
    (model opencode_agent : Option String) (attachments : List Attachment)
    → s.active_runs scope ≡ some a
    → a.timed_out ≡ false
    → a.stop_requested ≡ false
    → let r = consume_end (quiet e) scope s in
      let q = queue_message (quiet e) scope a.user_id text model opencode_agent attachments r.1 in
      (r.0 ≡ raise (runtime_error "agent turn ended without a terminal event"))
      × (r.1.active_runs scope ≡ some (record a { idle_timeout_handle = none }))
      × (start_text_run (quiet e) scope user text model opencode_agent attachments r.1
          ≡ (raise (runtime_error (String.◌++◌ "scope already has an active run: " scope)), r.1))
      × (a.run_view.pending ≡ none
          → (q.0 ≡ return a.run)
            × (q.1.calls ≡ r.1.calls)
            × (q.1.active_runs scope
                ≡ some (
                    with_queued
                      (record {
                        user_id = a.user_id;
                        text = text;
                        queued_at = e.clock r.1.clock_reads;
                        model = model;
                        opencode_agent = opencode_agent;
                        attachments = attachments;
                      })
                      (record a { idle_timeout_handle = none }))))
consume_end-unfinished-busy e scope s a user text model agent attachments stored live unasked =
    let (raised, left) = consume_end-unfinished e scope s a stored live unasked in
    let s' = (consume_end (quiet e) scope s).1 in
    (
      raised,
      left,
      start_text_run-busy (quiet e) scope s' _ user text model agent attachments left,
      λ answered.
          queue_message-accepted (quiet e) scope s' (record a { idle_timeout_handle = none }) text
            model agent attachments left answered,
    )
