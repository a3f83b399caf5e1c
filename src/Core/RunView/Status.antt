-- ===== src/Core/RunView/Status.antt =====
-- The status of a run view: which event decides it, and what it says about the pending request.
use aw_bot.Prelude.{String, Option, none, some, List, [], ◌∷◌, ◌≡◌, refl, arith, true}
use aw_bot.Core.Types.{
  RunStatus, pending_user_input, pending_approval, completed, failed, interrupted, timed_out,
  PendingKind, user_input, approval, is_terminal,
}
use aw_bot.Core.Events.{
  AgentEvent, text_delta, thinking_delta, tool_started, tool_finished, user_input_requested,
  approval_requested, usage_updated, run_completed, run_failed, run_interrupted, run_timed_out,
}
use aw_bot.Core.RunView.{RunView, PendingRequestView, reduce_run_view, initial_run_view}
use aw_bot.Core.RunView.Fold.{reduce_all}

-- The kind of request that a status stands for.
unfoldable pub pending_kind : RunStatus → Option PendingKind
pending_kind pending_user_input = some user_input
pending_kind pending_approval = some approval
pending_kind _ = none

unfoldable pub kind_of : Option PendingRequestView → Option PendingKind
kind_of none = none
kind_of (some p) = some p.kind

-- A view holds a pending request exactly when its status says so, and of that kind.
pub record IsCoherent (view : RunView) : Type 0 where
  pub kinds : kind_of view.pending ≡ pending_kind view.status

unfoldable pub status_after : RunStatus → AgentEvent → RunStatus
status_after s (user_input_requested _ _ _) = pending_user_input
status_after s (approval_requested _ _ _) = pending_approval
status_after s run_completed = completed
status_after s (run_failed _) = failed
status_after s run_interrupted = interrupted
status_after s run_timed_out = timed_out
status_after s _ = s

pub reduce_run_view-status :
    (view : RunView) (event : AgentEvent)
    → (reduce_run_view view event).status ≡ status_after view.status event
unfolding reduce_run_view status_after
reduce_run_view-status view (text_delta _) = refl
reduce_run_view-status view _ = refl

pub reduce_run_view-run_id :
    (view : RunView) (event : AgentEvent) → (reduce_run_view view event).run_id ≡ view.run_id
unfolding reduce_run_view
reduce_run_view-run_id view (text_delta _) = refl
reduce_run_view-run_id view _ = refl

-- Every event keeps the pending request of a view in step with its status.
pub reduce_run_view-IsCoherent :
    (view : RunView) (event : AgentEvent)
    → IsCoherent view
    → IsCoherent (reduce_run_view view event)
unfolding reduce_run_view kind_of pending_kind
reduce_run_view-IsCoherent view (text_delta _) c = record { kinds = c.kinds }
reduce_run_view-IsCoherent view (thinking_delta _) c = record { kinds = c.kinds }
reduce_run_view-IsCoherent view (tool_started _ _ _) c = record { kinds = c.kinds }
reduce_run_view-IsCoherent view (tool_finished _ _ _) c = record { kinds = c.kinds }
reduce_run_view-IsCoherent view (usage_updated _ _) c = record { kinds = c.kinds }
reduce_run_view-IsCoherent view _ c = record { kinds = refl }

pub initial_run_view-IsCoherent : (run_id : String) → IsCoherent (initial_run_view run_id)
unfolding initial_run_view kind_of pending_kind
initial_run_view-IsCoherent run_id = record { kinds = refl }

-- A terminal view waits for no answer.
pub IsCoherent-terminal :
    (view : RunView) → IsCoherent view → is_terminal view.status ≡ true → view.pending ≡ none
unfolding is_terminal kind_of pending_kind
IsCoherent-terminal view c t = ground (arith, c.kinds)

reduce_all-IsCoherent :
    (view : RunView) (events : List AgentEvent)
    → IsCoherent view
    → IsCoherent (reduce_all view events)
unfolding reduce_all
reduce_all-IsCoherent view [] c = c
reduce_all-IsCoherent view (event ∷ events) c =
    reduce_all-IsCoherent (reduce_run_view view event) events
      (reduce_run_view-IsCoherent view event c)

-- After any events a run's view has a pending request exactly of the kind that its status names, and
-- so none once the status is terminal.
pub reduce_all-pending :
    (run_id : String) (events : List AgentEvent)
    → (kind_of (reduce_all (initial_run_view run_id) events).pending
        ≡ pending_kind (reduce_all (initial_run_view run_id) events).status)
      × (is_terminal (reduce_all (initial_run_view run_id) events).status ≡ true
          → (reduce_all (initial_run_view run_id) events).pending ≡ none)
reduce_all-pending run_id events =
    let c =
      reduce_all-IsCoherent (initial_run_view run_id) events (initial_run_view-IsCoherent run_id) in
    (c.kinds, IsCoherent-terminal (reduce_all (initial_run_view run_id) events) c)
