-- ===== src/Agent/OpenCode/Router/Kept.antt =====
-- What OpenCodeEventRouter holds for an active turn, against a description that knows only what came:
-- each event that is not to be left out is in the turn's queue or waits.
use native.Mathlib.Omega.{arith}
use aw_bot.Prelude.{
  ℕ, ◌+◌, String, Bool, true, false, ◌&&◌, ◌||◌, Option, none, some, List, [], ◌∷◌, str_eq, ◌≡◌,
  refl, subst, Bool-cases, inl, inr, count,
}
use aw_bot.Core.Events.{AgentEvent, approval_requested}
use aw_bot.Agent.OpenCode.Router.{
  Router, is_id, collect, register, queue_for_active_turn, put_translated, put_for_session,
  is_user_text_event, deliver, MessageInfo, remember_message_context, replay_to,
  replay_bound_assistant_events,
}
use aw_bot.Agent.OpenCode.Router.Roles.{
  Arrival, translated, told, event_in, info_in, arrive, arrive_all, Roles, Knows, leaves_out,
  leaves_out-agrees, is_unbound, roles_after, arrive-Knows,
}
use aw_bot.Agent.OpenCode.Router.Held.{
  early_size, size-collect, put_message_self, assign_same, IsActive, Holds, bind_assistant-Holds,
  put_event-Holds, Holds-if, put_for_message-Holds, queue_for_active_turn-IsActive, weight,
}

abbrev pub unless : Bool → ℕ → ℕ
unless true n = 0
unless false n = n

-- The events are counted for which a test `p` holds.
module _ (p : AgentEvent → Bool) where
  -- How many of the events that come are not to be left out.
  unfoldable pub expected : List Arrival → Roles → ℕ
  expected [] roles = 0
  expected (translated message event ∷ rest) roles =
      unless (leaves_out roles message event) (weight p event) + expected rest roles
  expected (told message role parent ∷ rest) roles =
      expected rest (roles_after (told message role parent) roles)

  added : Arrival → Roles → ℕ
  added (translated message event) roles = unless (leaves_out roles message event) (weight p event)
  added (told message role parent) roles = 0

  IsActive-Holds :
      (session turn : String) (queue : List AgentEvent) (r : Router)
      → IsActive session turn queue r
      → Holds p session turn (count p queue + early_size p r.early) r
  IsActive-Holds session turn queue r a = record {
    queue = queue;
    is_active = a;
    held_events = refl;
  }

  Holds-none :
      {session turn : String} {total : ℕ} {r : Router}
      → Holds p session turn total r
      → Holds p session turn (0 + total) r
  Holds-none h = record {
    queue = h.queue;
    is_active = h.is_active;
    held_events = omega (arith, h.held_events);
  }

  put_for_session-Holds :
      (session turn : String) (queue : List AgentEvent) (event : AgentEvent) (r : Router)
      → IsActive session turn queue r
      → Holds p session turn
          (weight p event + (count p queue + early_size p r.early))
          (put_for_session session event (queue_for_active_turn session r) r)
  unfolding put_for_session
  put_for_session-Holds session turn queue event r a =
      rw (queue_for_active_turn-IsActive session turn queue r a)
        (put_event-Holds p session turn queue event r a.active)

  put_translated-Holds :
      (session turn : String) (queue : List AgentEvent) (message : Option String)
      (event : AgentEvent) (r : Router)
      → IsActive session turn queue r
      → Holds p session turn
          (unless (is_unbound message event) (weight p event)
            + (count p queue + early_size p r.early))
          (put_translated session message event r)
  unfolding put_translated
  put_translated-Holds session turn queue none (approval_requested id prompt payload) r a =
      Holds-none (IsActive-Holds session turn queue r a)
  put_translated-Holds session turn queue none event r a =
      put_for_session-Holds session turn queue event r a
  put_translated-Holds session turn queue (some message) event r a =
      rw (queue_for_active_turn-IsActive session turn queue r a)
        (put_for_message-Holds p session turn message queue event r a)

  deliver-Holds :
      (session turn : String) (message : Option String) (event : AgentEvent)
      (queue : List AgentEvent) (r : Router)
      → IsActive session turn queue r
      → Holds p session turn
          (unless
              (is_user_text_event (event_in session message event) r || is_unbound message event)
              (weight p event)
            + (count p queue + early_size p r.early))
          (deliver (event_in session message event) r)
  unfolding deliver
  deliver-Holds session turn message event queue r a =
      elim (Bool-cases (is_user_text_event (event_in session message event) r)) [
        | inl user ↦ rw user (Holds-none (IsActive-Holds session turn queue r a))
        | inr other ↦ rw other (put_translated-Holds session turn queue message event r a)
      ]

  -- What is known of a message is kept apart from the queues.
  told-Holds :
      (info : MessageInfo) (turn : String) (queue : List AgentEvent) (r : Router)
      → IsActive info.session_id turn queue r
      → Holds p info.session_id turn
          (count p queue + early_size p r.early)
          (replay_bound_assistant_events info (remember_message_context info r))
  unfolding replay_bound_assistant_events replay_to remember_message_context
  told-Holds info turn queue r a =
      let known = remember_message_context info r in
      let still : IsActive info.session_id turn queue known = record {
        active = a.active;
        has_queue = a.has_queue;
      } in
      rw (queue_for_active_turn-IsActive info.session_id turn queue known still) (
        Holds-if p (str_eq info.role "assistant" && is_id turn info.parent_id)
          (bind_assistant-Holds p info.session_id turn info.message_id queue known a.active)
          (IsActive-Holds info.session_id turn queue known still))

  arrive-Holds :
      (session turn : String) (arrival : Arrival) (queue : List AgentEvent) (roles : Roles)
      (r : Router)
      → IsActive session turn queue r
      → Knows session roles r
      → Holds p session turn
          (added arrival roles + (count p queue + early_size p r.early))
          (arrive session arrival r)
  unfolding arrive added
  arrive-Holds session turn (translated message event) queue roles r a knows =
      rw (← leaves_out-agrees session roles message event r knows)
        (deliver-Holds session turn message event queue r a)
  arrive-Holds session turn (told message role parent) queue roles r a knows =
      Holds-none (told-Holds (info_in session message role parent) turn queue r a)

  expected-cons :
      (arrival : Arrival) (rest : List Arrival) (roles : Roles) (total : ℕ)
      → expected rest (roles_after arrival roles) + (added arrival roles + total)
        ≡ expected (arrival ∷ rest) roles + total
  unfolding expected added roles_after
  expected-cons (translated message event) rest roles total = omega arith
  expected-cons (told message role parent) rest roles total = omega arith

  arrive_all-Holds :
      (session turn : String) (arrivals : List Arrival) (roles : Roles) (r : Router) (total : ℕ)
      → Knows session roles r
      → Holds p session turn total r
      → Holds p session turn (expected arrivals roles + total) (arrive_all session arrivals r)
  unfolding arrive_all expected
  arrive_all-Holds session turn [] roles r total knows h = record {
    queue = h.queue;
    is_active = h.is_active;
    held_events = omega (arith, h.held_events);
  }
  arrive_all-Holds session turn (arrival ∷ rest) roles r total knows h =
      subst (λ n. Holds p session turn n (arrive_all session rest (arrive session arrival r)))
        (expected-cons arrival rest roles total)
        (arrive_all-Holds session turn rest (roles_after arrival roles) (arrive session arrival r)
          (added arrival roles + total) (arrive-Knows session arrival roles r knows)
          (subst (λ n. Holds p session turn (added arrival roles + n) (arrive session arrival r))
            h.held_events (arrive-Holds session turn arrival h.queue roles r h.is_active knows)))

  -- After a turn is registered and any events and messages of its session have come, the turn is the
  -- active one, and for every test of events its queue and what still waits, of any turn, hold
  -- together as many events that pass it as waited before, and one for each such event that came,
  -- except the texts of messages whose role the router was told to be "user" by then and the requests
  -- for approval that name no message.
  pub register-arrive_all-Holds :
      (session turn : String) (arrivals : List Arrival) (r : Router)
      → Holds p session turn
          (expected arrivals (λ message. r.message_roles (session, message)) + early_size p r.early)
          (arrive_all session arrivals (register session turn r))
  unfolding register
  register-arrive_all-Holds session turn arrivals r =
      arrive_all-Holds session turn arrivals (λ message. r.message_roles (session, message))
        (register session turn r) (early_size p r.early) (λ message. refl)
        (record {
          queue = (collect r.message_parents session turn r.early).0;
          is_active = record {
            active = assign_same session (some turn) r.session_messages;
            has_queue = put_message_self (session, turn) _ r.queues;
          };
          held_events = size-collect p r.message_parents session turn r.early;
        })
