-- ===== src/Agent/OpenCode/Router/Held.antt =====
-- How many events OpenCodeEventRouter holds for an active turn after each way to file or put one.
use text.Mathlib.TextPositions.{eq_refl}
use native.Mathlib.Omega.{arith}
use aw_bot.Prelude.{
  ℕ, ◌+◌, String, Bool, true, false, Option, some, List, [], ◌∷◌, ◌++◌, str_eq, if◌then◌else◌, ◌≡◌,
  refl, subst, Bool-cases, inl, inr, count, count-append,
}
use aw_bot.Core.Controller.State.{assign}
use aw_bot.Core.Events.{AgentEvent}
use aw_bot.Agent.OpenCode.Router.{
  MessageKey, put_message, EarlyKey, same_early, Early, Router, file_early, take_early, is_id,
  answers, collect, queue_for_active_turn, put_events, bind_assistant, wait, bind_and_put,
  put_for_message,
}

pub put_message_self :
    {V : Type 0} (key : MessageKey) (value : V) (d : MessageKey → V)
    → put_message key value d key ≡ value
put_message_self (session, message) value d = rw (eq_refl session, eq_refl message) refl

pub assign_same :
    {V : Type 0} (key : String) (value : V) (d : String → V) → assign key value d key ≡ value
unfolding assign
assign_same key value d = rw (eq_refl key) refl

-- A turn is the active one of its session and has a queue.
pub record IsActive (session turn : String) (queue : List AgentEvent) (r : Router) : Type 0 where
  pub active : r.session_messages session ≡ some turn
  pub has_queue : r.queues (session, turn) ≡ some queue

pub queue_for_active_turn-IsActive :
    (session turn : String) (queue : List AgentEvent) (r : Router)
    → IsActive session turn queue r
    → queue_for_active_turn session r ≡ some (turn, queue)
unfolding queue_for_active_turn
queue_for_active_turn-IsActive session turn queue r a = rw (a.active, a.has_queue) refl

-- The events are counted for which a test `p` holds.
module _ (p : AgentEvent → Bool) where
  -- What an event counts for.
  abbrev pub weight : AgentEvent → ℕ
  weight event = if p event then 1 else 0

  unfoldable pub early_size : Early → ℕ
  early_size [] = 0
  early_size ((key, events) ∷ rest) = count p events + early_size rest

  size-file_early :
      (key : EarlyKey) (event : AgentEvent) (early : Early)
      → early_size (file_early key event early) ≡ weight event + early_size early
  unfolding file_early early_size
  size-file_early key event [] = omega arith
  size-file_early key event ((k, events) ∷ rest) = elim (Bool-cases (same_early k key)) [
    | inl same ↦ rw same (omega (arith, count-append p events (event ∷ [])))
    | inr other ↦ rw other (omega (arith, size-file_early key event rest))
  ]

  size-take_early :
      (key : EarlyKey) (early : Early)
      → count p (take_early key early).0 + early_size (take_early key early).1 ≡ early_size early
  unfolding take_early early_size
  size-take_early key [] = refl
  size-take_early key ((k, events) ∷ rest) = elim (Bool-cases (same_early k key)) [
    | inl same ↦ rw same refl
    | inr other ↦ rw other (omega (arith, size-take_early key rest))
  ]

  pub size-collect :
      (parents : MessageKey → Option String) (session message : String) (early : Early)
      → count p (collect parents session message early).0
          + early_size (collect parents session message early).2
        ≡ early_size early
  unfolding collect early_size
  size-collect parents session message [] = refl
  size-collect parents session message ((key, events) ∷ rest) =
      elim (Bool-cases (answers parents session message key)) [
        | inl same ↦ rw same (
            omega (
              arith,
              size-collect parents session message rest,
              count-append p events (collect parents session message rest).0,
            ))
        | inr other ↦ rw other (omega (arith, size-collect parents session message rest))
      ]

  -- A turn stays active, and what is held grows.
  pub record Holds (session turn : String) (total : ℕ) (r : Router) : Type 0 where
    pub queue : List AgentEvent
    pub is_active : IsActive session turn queue r
    pub held_events : count p queue + early_size r.early ≡ total

  put_events-Holds :
      (session turn : String) (queue events : List AgentEvent) (r : Router)
      → r.session_messages session ≡ some turn
      → Holds session turn
          (count p queue + count p events + early_size r.early)
          (put_events session turn queue events r)
  put_events-Holds session turn queue events r active = record {
    queue = queue ++ events;
    is_active = record {
      active = active;
      has_queue = put_message_self (session, turn) (some (queue ++ events)) r.queues;
    };
    held_events = omega (arith, count-append p queue events);
  }

  wait-Holds :
      (session turn : String) (queue : List AgentEvent) (key : EarlyKey) (event : AgentEvent)
      (r : Router)
      → IsActive session turn queue r
      → Holds session turn (weight event + (count p queue + early_size r.early)) (wait key event r)
  unfolding wait
  wait-Holds session turn queue key event r a = record {
    queue = queue;
    is_active = record { active = a.active; has_queue = a.has_queue };
    held_events = omega (arith, size-file_early key event r.early);
  }

  pub bind_assistant-Holds :
      (session turn assistant : String) (queue : List AgentEvent) (r : Router)
      → r.session_messages session ≡ some turn
      → Holds session turn
          (count p queue + early_size r.early)
          (bind_assistant session assistant turn queue r)
  unfolding bind_assistant
  bind_assistant-Holds session turn assistant queue r active =
      let (found, others) = take_early (session, some assistant) r.early in
      record {
        queue = queue ++ (take_early (session, some assistant) r.early).0;
        is_active = record {
          active = active;
          has_queue =
              put_message_self (session, turn)
                (some (queue ++ (take_early (session, some assistant) r.early).0)) r.queues;
        };
        held_events = omega (
          arith,
          count-append p queue (take_early (session, some assistant) r.early).0,
          size-take_early (session, some assistant) r.early,
        );
      }

  bind_and_put-Holds :
      (session turn assistant : String) (queue : List AgentEvent) (event : AgentEvent) (r : Router)
      → r.session_messages session ≡ some turn
      → Holds session turn
          (weight event + (count p queue + early_size r.early))
          (bind_and_put session assistant turn queue event r)
  unfolding bind_and_put bind_assistant
  bind_and_put-Holds session turn assistant queue event r active = record {
    queue = (queue ++ (take_early (session, some assistant) r.early).0) ++ event ∷ [];
    is_active = record {
      active = active;
      has_queue = put_message_self (session, turn) _ (put_message (session, turn) _ r.queues);
    };
    held_events = omega (
      arith,
      count-append p (queue ++ (take_early (session, some assistant) r.early).0) (event ∷ []),
      count-append p queue (take_early (session, some assistant) r.early).0,
      size-take_early (session, some assistant) r.early,
    );
  }

  more_by : (n w m : ℕ) → n + (w + 0) + m ≡ w + (n + m)
  more_by n w m = omega arith

  pub put_event-Holds :
      (session turn : String) (queue : List AgentEvent) (event : AgentEvent) (r : Router)
      → r.session_messages session ≡ some turn
      → Holds session turn
          (weight event + (count p queue + early_size r.early))
          (put_events session turn queue (event ∷ []) r)
  put_event-Holds session turn queue event r active =
      subst (λ total. Holds session turn total (put_events session turn queue (event ∷ []) r))
        (more_by (count p queue) (weight event) (early_size r.early))
        (put_events-Holds session turn queue (event ∷ []) r active)

  pub Holds-if :
      {session turn : String} {total : ℕ} {x y : Router} (b : Bool)
      → Holds session turn total x
      → Holds session turn total y
      → Holds session turn total (if b then x else y)
  Holds-if true x y = x
  Holds-if false x y = y

  pub put_for_message-Holds :
      (session turn message : String) (queue : List AgentEvent) (event : AgentEvent) (r : Router)
      → IsActive session turn queue r
      → Holds session turn
          (weight event + (count p queue + early_size r.early))
          (put_for_message session message event (some (turn, queue)) r)
  unfolding put_for_message
  put_for_message-Holds session turn message queue event r a = Holds-if (str_eq message turn) put (
      Holds-if (is_id message (r.session_assistants session)) put (
        Holds-if (is_id turn (r.message_parents (session, message)))
          (bind_and_put-Holds session turn message queue event r a.active)
          (wait-Holds session turn queue (session, some message) event r a)))
    where
      put :
          Holds session turn
            (weight event + (count p queue + early_size r.early))
            (put_events session turn queue (event ∷ []) r)
      put = put_event-Holds session turn queue event r a.active
