-- ===== src/Agent/Codex/Router/Delivery.antt =====
-- Delivery of translated events to the queue of a turn, also of those that come before the turn is
-- registered.
use aw_bot.Prelude.{String, Bool, Option, none, List, [], ◌∷◌, if◌then◌else◌, ◌≡◌}
use aw_bot.Core.Events.{AgentEvent}
use aw_bot.Agent.Codex.Translator.{TranslatedCodexEvent}
use aw_bot.Agent.Codex.Router.{Router, is_id, route}

unfoldable pub route_all : List TranslatedCodexEvent → Router → Router
route_all [] r = r
route_all (t ∷ rest) r = route_all rest (route t r)

-- The events among some that are sent to an identifier.
abbrev pub events_to :
    (TranslatedCodexEvent → Option String) → String → List TranslatedCodexEvent → List AgentEvent
events_to address id [] = []
events_to address id (t ∷ rest) =
    if is_id id (address t) then t.event ∷ events_to address id rest else events_to address id rest

-- The router has no turn of this identifier and has not seen a thread of it.
pub record IsUnknown (key : String) (r : Router) : Type 0 where
  pub no_queue : r.queues key ≡ none
  pub no_turn : r.thread_turns key ≡ none
  pub no_empty : r.queues "" ≡ none

-- What one event adds to the events for an identifier.
abbrev just : Bool → AgentEvent → List AgentEvent
just b event = if b then event ∷ [] else []
