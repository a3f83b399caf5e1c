-- ===== src/Store/Persistence/Registry/Sparing.antt =====
-- The methods of FileRunPersistence that leave the recorded runs alone.
use aw_bot.Prelude.{String, Bool, Option, none, some, ◌≡◌, refl, ◌∙◌, Bool-cases, inl, inr}
use aw_bot.Prelude.Action.{Result, return, raise, Action, throw, get, modify, ◌>>=◌}
use aw_bot.Prelude.Action.Ensures.{Post, Ensures, Ensures-pure, Ensures-throw, Ensures-bind}
use aw_bot.Core.Types.{Run, PendingRequest, PendingStatus, HistoricalAgentSession, NamedWorkspace}
use aw_bot.Core.Events.{AgentEvent}
use aw_bot.Store.Files.{Directory, read_json}
use aw_bot.Store.Models.{RunRef, PendingRef}
use aw_bot.Store.FileStore.{
  FileStore, StoreError, save_pending, close_pending, save_session, append_log,
  save_named_workspace, remove_named_workspace, found, is_open, closed_pending, file_not_found,
}
use aw_bot.Store.Persistence.{
  Persistence, P, on_store, require_run, require_session, require_core_pending_request,
  write_pending, record_run_event, record_run_error, open_pending_request, close_pending_request,
  clear_current_session, save_agent_session, save_workspace_named, remove_workspace_named,
  append_core_log,
}

-- A method that leaves the recorded runs of both copies, whatever it returns or raises.
abbrev pub Has : Directory Run → Directory RunRef → Persistence → Type 0
Has c r p = (p.core_runs ≡ c) × (p.store.runs ≡ r)

abbrev pub Spares : Directory Run → Directory RunRef → {A : Type 0} → P A → Type 0
Spares c r m = Ensures (Has c r) (Has c r) m (λ _. Has c r)

close_pending-runs :
    (id : String) (status : PendingStatus) (now : String) (s : FileStore)
    → (close_pending id status now s).1.runs ≡ s.runs
unfolding close_pending ◌>>=◌ get throw modify save_pending
close_pending-runs id status now s = elim (Bool-cases (is_open status)) [
  | inl open_again ↦ rw open_again refl
  | inr closing ↦ rw closing (after_found (read_json id s.pending))
]
  where
    after_found :
        (o : Option PendingRef)
        → ((found file_not_found o >>= λ pending.
              modify (save_pending (closed_pending status now pending)))
            s).1.runs
          ≡ s.runs
    after_found none = refl
    after_found (some pending) = refl

module _ {c : Directory Run} {r : Directory RunRef} where
  Spares-bind :
      {A B : Type 0} {m : P A} {f : A → P B}
      → Spares c r m
      → ((a : A) → Spares c r (f a))
      → Spares c r (m >>= f)
  Spares-bind first rest = Ensures-bind first rest

  Spares-read :
      {B : Type 0} {f : Persistence → P B}
      → ((p : Persistence) → Spares c r (f p))
      → Spares c r (get >>= f)
  unfolding ◌>>=◌
  Spares-read rest = record { at = λ s h. (rest s).at s h }

  Spares-found : {A : Type 0} (e : StoreError) (o : Option A) → Spares c r (found e o)
  Spares-found e none = Ensures-throw e (λ s h. h)
  Spares-found e (some a) = Ensures-pure a (λ s h. h)

  -- An assignment to other fields.
  Spares-modify :
      (f : Persistence → Persistence)
      → ((p : Persistence) → (f p).core_runs ≡ p.core_runs)
      → ((p : Persistence) → (f p).store.runs ≡ p.store.runs)
      → Spares c r (modify f)
  unfolding modify
  Spares-modify f same same' = record { at = λ p h. (same p ∙ h.0, same' p ∙ h.1) }

  pub record_run_event-Spares :
      (id : String) (event : AgentEvent) → Spares c r (record_run_event id event)
  unfolding record_run_event append_core_log append_log
  record_run_event-Spares id event =
      Spares-bind (Spares-modify _ (λ p. refl) (λ p. refl))
        (λ _. Spares-modify _ (λ p. refl) (λ p. refl))

  pub record_run_error-Spares : (id error : String) → Spares c r (record_run_error id error)
  unfolding record_run_error append_core_log append_log
  record_run_error-Spares id error =
      Spares-bind (Spares-modify _ (λ p. refl) (λ p. refl))
        (λ _. Spares-modify _ (λ p. refl) (λ p. refl))

  pub open_pending_request-Spares :
      (id : String) (request : PendingRequest) → Spares c r (open_pending_request id request)
  unfolding open_pending_request require_run require_session write_pending save_pending
  open_pending_request-Spares id request = Spares-bind (Spares-read (λ p. Spares-found _ _)) (λ run.
      Spares-bind (Spares-read (λ p. Spares-found _ _)) (λ session.
        Spares-bind (Spares-modify _ (λ p. refl) (λ p. refl))
          (λ _. Spares-modify _ (λ p. refl) (λ p. refl))))

  pub session_cleared-Spares : (scope : String) → Spares c r (clear_current_session scope)
  unfolding clear_current_session
  session_cleared-Spares scope = Spares-modify _ (λ p. refl) (λ p. refl)

  pub save_agent_session-Spares :
      (later : String → String → Bool) (session : HistoricalAgentSession)
      → Spares c r (save_agent_session later session)
  unfolding save_agent_session save_session
  save_agent_session-Spares later session =
      Spares-bind (Spares-modify _ (λ p. refl) (λ p. refl))
        (λ _. Spares-modify _ (λ p. refl) (λ p. refl))

  pub workspace_saved-Spares :
      (workspace : NamedWorkspace) → Spares c r (save_workspace_named workspace)
  unfolding save_workspace_named save_named_workspace
  workspace_saved-Spares workspace =
      Spares-bind (Spares-modify _ (λ p. refl) (λ p. refl))
        (λ _. Spares-modify _ (λ p. refl) (λ p. refl))

  pub workspace_removed-Spares : (name : String) → Spares c r (remove_workspace_named name)
  unfolding remove_workspace_named remove_named_workspace
  workspace_removed-Spares name =
      Spares-bind (Spares-modify _ (λ p. refl) (λ p. refl))
        (λ _. Spares-modify _ (λ p. refl) (λ p. refl))

  Spares-on_store :
      {A : Type 0} (m : Action FileStore StoreError A)
      → ((s : FileStore) → (m s).1.runs ≡ s.runs)
      → Spares c r (on_store m)
  Spares-on_store {A} m keeps = record {
    at = λ p h. go p (m p.store).0 (m p.store).1 (h.0, keeps p.store ∙ h.1);
  }
    where
      go :
          (p : Persistence) (o : Result StoreError A) (s : FileStore)
          → (p.core_runs ≡ c) × (s.runs ≡ r)
          → Post (λ _. Has c r) (Has c r) o (record p { store = s })
      go p (return a) s h = h
      go p (raise e) s h = h

  pub close_pending_request-Spares :
      (id : String) (status : PendingStatus) (now now' : String)
      → Spares c r (close_pending_request id status now now')
  unfolding close_pending_request require_core_pending_request write_pending
  close_pending_request-Spares id status now now' =
      Spares-bind (Spares-on_store (close_pending id status now) (close_pending-runs id status now))
        (λ _.
          Spares-bind (Spares-read (λ p. Spares-found _ _))
            (λ pending. Spares-modify _ (λ p. refl) (λ p. refl)))
