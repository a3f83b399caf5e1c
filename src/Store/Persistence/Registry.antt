-- ===== src/Store/Persistence/Registry.antt =====
-- What FileRunPersistence promises of the recorded runs, and that its methods keep it.
mod Sparing
use aw_bot.Prelude.{
  String, Bool, true, false, Option, none, some, List, [], ◌∷◌, ◌≡◌, refl, sym, ◌∙◌, ap, subst,
  str_eq, some_injective, if◌then◌else◌, Bool-cases, Option-cases, inl, inr,
}
use aw_bot.Prelude.Text.{eq_of_str_eq}
use aw_bot.Prelude.Action.{Result, return, raise, Action, pure, throw, get, modify, ◌>>=◌}
use aw_bot.Prelude.Action.Ensures.{Post, Ensures, Ensures-pure, Ensures-throw, Ensures-bind}
use aw_bot.Core.Types.{
  RunStatus, Run, PendingRequest, PendingStatus, HistoricalAgentSession, NamedWorkspace,
}
use aw_bot.Core.Events.{AgentEvent}
use aw_bot.Store.Files.{Directory, read_json, write_json_atomic, read-write-same, read-write-other}
use aw_bot.Store.Models.{RunRef, PendingRef}
use aw_bot.Store.FileStore.{
  FileStore, StoreError, save_run, save_pending, close_pending, save_session, append_log,
  save_named_workspace, remove_named_workspace, found, is_open, closed_pending, file_not_found,
}
use aw_bot.Store.Persistence.{
  Persistence, P, on_store, in_store, run_ref, with_status, ref_with_status, require_run,
  require_core_run, require_session, require_core_pending_request, write_run, write_pending,
  record_run_created, record_run_event, record_run_error, record_run_terminal_status,
  open_pending_request, close_pending_request, clear_current_session, save_agent_session,
  save_workspace_named, remove_workspace_named, append_core_log,
}
use aw_bot.Store.Persistence.Copies.{
  Agree, with_run, record_run_created-Agree, record_run_terminal_status-Agree,
}
use aw_bot.Store.Persistence.Registry.Sparing.{
  Has, Spares, record_run_event-Spares, record_run_error-Spares, open_pending_request-Spares,
  session_cleared-Spares, save_agent_session-Spares, workspace_saved-Spares,
  workspace_removed-Spares, close_pending_request-Spares,
}

-- The methods that are called while a process runs.
pub data Operation : Type 0 where
  created : Run → Operation
  ended : (run_id : String) → RunStatus → (updated_at : String) → Operation
  event_seen : (run_id : String) → AgentEvent → Operation
  failed_with : (run_id error : String) → Operation
  opened_request : (run_id : String) → PendingRequest → Operation
  closed_request : (id : String) → PendingStatus → (now now' : String) → Operation
  session_cleared : (scope : String) → Operation
  session_saved : HistoricalAgentSession → Operation
  workspace_saved : NamedWorkspace → Operation
  workspace_removed : (name : String) → Operation

-- The abstract state: which run, if any, is recorded under an identifier.
abbrev pub Ledger : Type 0
Ledger = String → Option Run

abbrev pub update : RunStatus → String → Option Run → Option Run
update status updated_at none = none
update status updated_at (some run) = some (with_status status updated_at run)

-- What each method is to do to it.
abbrev pub specified : Operation → Ledger → Ledger
specified (created run) l = λ k. if str_eq k run.run_id then some run else l k
specified (ended id status updated_at) l =
    λ k. if str_eq k id then update status updated_at (l k) else l k
specified op l = l

unfoldable pub all_specified : List Operation → Ledger → Ledger
all_specified [] l = l
all_specified (op ∷ rest) l = all_specified rest (specified op l)

abbrev pub ledger : Persistence → Ledger
ledger p k = read_json k p.core_runs

-- The two copies agree, and each record of a run in the store is under its own name.
pub record IsRegistry (p : Persistence) : Type 0 where
  pub agree : Agree p
  pub own_name :
      (id : String) (ref : RunRef) → read_json id p.store.runs ≡ some ref → ref.run_id ≡ id

module _ (later : String → String → Bool) where
  unfoldable pub perform : Operation → P Unit
  perform (created run) = record_run_created later run
  perform (ended id status updated_at) = record_run_terminal_status later id status updated_at
  perform (event_seen id event) = record_run_event id event
  perform (failed_with id error) = record_run_error id error
  perform (opened_request id request) = open_pending_request id request
  perform (closed_request id status now now') = close_pending_request id status now now'
  perform (session_cleared scope) = clear_current_session scope
  perform (session_saved session) = save_agent_session later session
  perform (workspace_saved workspace) = save_workspace_named workspace
  perform (workspace_removed name) = remove_workspace_named name

  -- A method that raises ends, and the next one finds what it has left.
  unfoldable pub perform_all : List Operation → Persistence → Persistence
  perform_all [] p = p
  perform_all (op ∷ rest) p = perform_all rest (perform op p).1

  -- A written record keeps the names.
  save_run-own_name :
      (run : RunRef) (store : FileStore)
      → ((id : String) (ref : RunRef) → read_json id store.runs ≡ some ref → ref.run_id ≡ id)
      → (id : String) (ref : RunRef) → read_json id (save_run later run store).runs ≡ some ref
      → ref.run_id ≡ id
  unfolding save_run
  save_run-own_name run store named id ref h = elim (Bool-cases (str_eq id run.run_id)) [
    | inl same ↦
        let eq = eq_of_str_eq id run.run_id same in
        let is_run : run ≡ ref = some_injective run ref (
          sym (read-write-same run.run_id run store.runs)
          ∙ subst (λ k. read_json k (write_json_atomic run.run_id run store.runs) ≡ some ref) eq
              h) in
        ap (λ (r : RunRef). r.run_id) (sym is_run) ∙ sym eq
    | inr other ↦ named id ref (sym (read-write-other run.run_id id run store.runs other) ∙ h)
  ]

  -- Reading after one run was written.
  ledger-write :
      (run : Run) (d : Directory Run) (k : String)
      → read_json k (write_json_atomic run.run_id run d)
        ≡ (if str_eq k run.run_id then some run else read_json k d)
  ledger-write run d k = elim (Bool-cases (str_eq k run.run_id)) [
    | inl same ↦ rw same (
        subst (λ i. read_json i (write_json_atomic run.run_id run d) ≡ some run)
          (sym (eq_of_str_eq k run.run_id same)) (read-write-same run.run_id run d))
    | inr other ↦ rw other (read-write-other run.run_id k run d other)
  ]

spared :
    {A : Type 0} (p : Persistence) (m : P A)
    → IsRegistry p
    → Spares p.core_runs p.store.runs m
    → IsRegistry (m p).1 × (ledger (m p).1 ≡ ledger p)
spared {A = A} p m registry spares = from_post (m p).0 (m p).1 (spares.at p (refl, refl))
  where
    same : (q : Persistence) → Has p.core_runs p.store.runs q → IsRegistry q × (ledger q ≡ ledger p)
    same q h = (
      record {
        agree = record {
          ref_of = λ id run e.
              ap (read_json id) h.1
              ∙ registry.agree.ref_of id run (ap (read_json id) (sym h.0) ∙ e);
          named = λ id run e. registry.agree.named id run (ap (read_json id) (sym h.0) ∙ e);
        };
        own_name = λ id ref e. registry.own_name id ref (ap (read_json id) (sym h.1) ∙ e);
      },
      ap (λ d k. read_json k d) h.0,
    )

    from_post :
        (o : Result StoreError A) (q : Persistence)
        → Post (λ _. Has p.core_runs p.store.runs) (Has p.core_runs p.store.runs) o q
        → IsRegistry q × (ledger q ≡ ledger p)
    from_post (return a) q h = same q h
    from_post (raise e) q h = same q h

clash : {A : Type 0} (a : A) → some a ≡ none → ⊥
clash a e = cc

module _ (later : String → String → Bool) where
  -- What a written run is read as.
  written-IsRegistry :
      (run : Run) (p : Persistence) → IsRegistry p → IsRegistry (with_run later p run)
  unfolding record_run_created write_run ◌>>=◌
  written-IsRegistry run p registry = record {
    agree = record_run_created-Agree later run p registry.agree;
    own_name = save_run-own_name later (run_ref run) p.store registry.own_name;
  }

  -- What one method is to keep.
  abbrev Refines : Operation → Persistence → Type 0
  Refines op p =
      IsRegistry (perform later op p).1
      × ((k : String) → ledger (perform later op p).1 k ≡ specified op (ledger p) k)

  -- A method that spares the runs, for an operation that is to change nothing.
  spared-Refines :
      {A : Type 0} (p : Persistence) (m : P A) (l : Ledger)
      → IsRegistry p
      → Spares p.core_runs p.store.runs m
      → ledger p ≡ l
      → IsRegistry (m p).1 × ((k : String) → ledger (m p).1 k ≡ l k)
  spared-Refines p m l registry spares same =
      let (kept, as_before) = spared p m registry spares in
      (kept, λ k. ap (λ d. d k) (as_before ∙ same))

  created-Refines : (run : Run) (p : Persistence) → IsRegistry p → Refines (created run) p
  unfolding perform record_run_created write_run ◌>>=◌
  created-Refines run p registry =
      (written-IsRegistry run p registry, ledger-write later run p.core_runs)

  -- A record that is written elsewhere is read as before.
  apart :
      (k : String) (ref : RunRef)
      → (str_eq k ref.run_id ≡ true → ⊥)
      → (store : FileStore) {found : Option RunRef} → read_json k store.runs ≡ found
      → read_json k (save_run later ref store).runs ≡ found
  unfolding save_run
  apart k ref elsewhere store e = elim (Bool-cases (str_eq k ref.run_id)) [
    | inl same ↦ elim (elsewhere same) [ ]
    | inr other ↦ read-write-other ref.run_id k ref store.runs other ∙ e
  ]

  -- The end of a run that is not recorded: nothing is written for it in the core's directory.
  ended_unknown :
      (id : String) (status : RunStatus) (now : String) (p : Persistence) (ref : Option RunRef)
      → IsRegistry p
      → read_json id p.core_runs ≡ none
      → read_json id p.store.runs ≡ ref
      → IsRegistry (record_run_terminal_status later id status now p).1
        × ((record_run_terminal_status later id status now p).1.core_runs ≡ p.core_runs)
  unfolding record_run_terminal_status require_run require_core_run ◌>>=◌ get throw modify
  ended_unknown id status now p none registry unknown absent = rw absent (registry, refl)
  ended_unknown id status now p (some ref) registry unknown present =
      rw (present, unknown)
        (
          record {
            agree = record {
              ref_of = λ k run e.
                  apart k (ref_with_status status now ref)
                    (λ same. clash run (
                      sym e
                      ∙ ap (λ i. read_json i p.core_runs)
                          (eq_of_str_eq k ref.run_id same ∙ registry.own_name id ref present)
                      ∙ unknown))
                    p.store (registry.agree.ref_of k run e);
              named = registry.agree.named;
            };
            own_name =
                save_run-own_name later (ref_with_status status now ref) p.store registry.own_name;
          },
          refl,
        )

  ended-Refines :
      (id : String) (status : RunStatus) (now : String) (p : Persistence)
      → IsRegistry p
      → Refines (ended id status now) p
  unfolding perform
  ended-Refines id status now p registry = elim (Option-cases (read_json id p.core_runs)) [
    | inl unknown ↦
        let (kept, same) =
          ended_unknown id status now p (read_json id p.store.runs) registry unknown refl in
        (kept, λ k. ap (read_json k) same ∙ sym (no_change k unknown))
    | inr (run, stored) ↦
        let written =
          (record_run_terminal_status-Agree later id status now run p registry.agree stored).0 in
        (
          subst (λ r. IsRegistry r.1) (sym written)
              (written-IsRegistry (with_status status now run) p registry),
          λ k.
              ap (λ r. read_json k r.1.core_runs) written
              ∙ ledger-write later (with_status status now run) p.core_runs k
              ∙ changed k run stored (registry.agree.named id run stored),
        )
  ]
    where
      changed :
          (k : String) (run : Run)
          → read_json id p.core_runs ≡ some run
          → run.run_id ≡ id
          → (if str_eq k run.run_id
              then some (with_status status now run)
              else read_json k p.core_runs)
            ≡ (if str_eq k id
                then update status now (read_json k p.core_runs)
                else read_json k p.core_runs)
      changed k run stored named =
          subst
            (λ i.
              (if str_eq k i then some (with_status status now run) else read_json k p.core_runs)
              ≡ (if str_eq k id
                  then update status now (read_json k p.core_runs)
                  else read_json k p.core_runs))
            (sym named)
            (elim (Bool-cases (str_eq k id)) [
              | inl same ↦
                  rw (same, ap (λ i. read_json i p.core_runs) (eq_of_str_eq k id same) ∙ stored)
                    refl
              | inr other ↦ rw other refl
            ])

      no_change :
          (k : String)
          → read_json id p.core_runs ≡ none
          → (if str_eq k id
              then update status now (read_json k p.core_runs)
              else read_json k p.core_runs)
            ≡ read_json k p.core_runs
      no_change k unknown = elim (Bool-cases (str_eq k id)) [
        | inl same ↦
            rw (same, ap (λ i. read_json i p.core_runs) (eq_of_str_eq k id same) ∙ unknown) refl
        | inr other ↦ rw other refl
      ]

  -- Each method does to the recorded runs what it is to do, whether it raises or not.
  perform-Refines : (op : Operation) (p : Persistence) → IsRegistry p → Refines op p
  unfolding perform
  perform-Refines (created run) p registry = created-Refines run p registry
  perform-Refines (ended id status now) p registry = ended-Refines id status now p registry
  perform-Refines (event_seen id event) p registry =
      spared-Refines p _ _ registry (record_run_event-Spares id event) refl
  perform-Refines (failed_with id error) p registry =
      spared-Refines p _ _ registry (record_run_error-Spares id error) refl
  perform-Refines (opened_request id request) p registry =
      spared-Refines p _ _ registry (open_pending_request-Spares id request) refl
  perform-Refines (closed_request id status now now') p registry =
      spared-Refines p _ _ registry (close_pending_request-Spares id status now now') refl
  perform-Refines (session_cleared scope) p registry =
      spared-Refines p _ _ registry (session_cleared-Spares scope) refl
  perform-Refines (session_saved session) p registry =
      spared-Refines p _ _ registry (save_agent_session-Spares later session) refl
  perform-Refines (workspace_saved workspace) p registry =
      spared-Refines p _ _ registry (workspace_saved-Spares workspace) refl
  perform-Refines (workspace_removed name) p registry =
      spared-Refines p _ _ registry (workspace_removed-Spares name) refl

  -- From a registry in order, any sequence of methods, some of which may raise, leaves the recorded
  -- runs that the specification gives: each run as it was created, with the last terminal status
  -- recorded for it, and nothing else; and the two copies still agree.
  pub perform_all-refines :
      (ops : List Operation) (p : Persistence)
      → IsRegistry p
      → (ledger (perform_all later ops p) ≡ all_specified ops (ledger p))
        × Agree (perform_all later ops p)
  unfolding perform_all all_specified
  perform_all-refines [] p registry = (refl, registry.agree)
  perform_all-refines (op ∷ rest) p registry =
      let (kept, done) = perform-Refines op p registry in
      let (as_specified, agree) = perform_all-refines rest (perform later op p).1 kept in
      (as_specified ∙ ap (all_specified rest) (λ i k. done k i), agree)
