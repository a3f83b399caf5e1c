-- ===== src/Store/Persistence/Copies.antt =====
-- The two copies that FileRunPersistence keeps of runs and pending requests.
use aw_bot.Prelude.{
  String, Bool, true, false, some, [], ◌∷◌, ◌≡◌, refl, sym, ◌∙◌, subst, str_eq, eq_iff,
  if◌then◌else◌, Bool-cases, inl, inr,
}
use aw_bot.Prelude.Action.{return, ◌>>=◌}
use aw_bot.Core.Types.{RunStatus, Run, PendingRequest, PendingStatus}
use aw_bot.Store.Files.{Directory, read_json, write_json_atomic, read-write-same, read-write-other}
use aw_bot.Store.Models.{RunRef, SessionRef, PendingRef}
use aw_bot.Store.FileStore.{is_incomplete, is_open, save_run, save_pending, close_pending}
use aw_bot.Store.FileStore.Recovery.{IsSound, recover_incomplete-settles}
use aw_bot.Store.Persistence.{
  Persistence, CorePending, run_ref, with_status, require_run, require_core_run, require_session,
  require_core_pending_request, write_run, write_pending, record_run_created,
  record_run_terminal_status, open_pending_request, close_pending_request, pending_ref,
  core_pending, rewrite, is_unfinished, recover_incomplete,
}

-- What a rewritten directory holds.
read-rewrite :
    {A : Type 0} (due : A → Bool) (fix : A → A) (fixed : (x : A) → due (fix x) ≡ false)
    (d : Directory A) (id : String) (v : A)
    → read_json id (rewrite due fix d) ≡ some v
    → due v ≡ false
unfolding read_json rewrite
read-rewrite due fix fixed [] id v r = cc
read-rewrite {A} due fix fixed ((key, value) ∷ rest) id v r = elim (Bool-cases (str_eq id key)) [
  | inl same ↦
      subst (λ w. due w ≡ false)
        (held _ _ (
          subst
            (λ b.
              (if b
                then some (if due value then fix value else value)
                else read_json id (rewrite due fix rest))
              ≡ some v)
            same r))
        settled
  | inr other ↦ read-rewrite due fix fixed rest id v (
      subst
        (λ b.
          (if b
            then some (if due value then fix value else value)
            else read_json id (rewrite due fix rest))
          ≡ some v)
        other r)
]
  where
    held : (a b : A) → some a ≡ some b → a ≡ b
    held a b e = cc

    settled : due (if due value then fix value else value) ≡ false
    settled = elim (Bool-cases (due value)) [
      | inl is_due ↦ rw is_due (fixed value)
      | inr done ↦ rw done done
    ]

-- Recovery of sound files raises nothing, and leaves no unfinished run and no open request in the
-- core's own records, nor in those of the store.
pub recover_incomplete-settles_both :
    (later : String → String → Bool) (updated_at : String) (p : Persistence)
    → IsSound p.store
    → let r = recover_incomplete later updated_at p in
      (r.0 ≡ return tt)
      × (((id : String) (run : Run)
            → read_json id r.1.core_runs ≡ some run
            → is_unfinished run.status ≡ false)
          × (((id : String) (pending : CorePending)
                → read_json id r.1.core_pending_requests ≡ some pending
                → is_open pending.status ≡ false)
              × (((id : String) (run : RunRef)
                    → read_json id r.1.store.runs ≡ some run
                    → is_incomplete run.status ≡ false)
                  × ((id : String) (pending : PendingRef)
                      → read_json id r.1.store.pending ≡ some pending
                      → is_open pending.status ≡ false))))
unfolding recover_incomplete ◌>>=◌
recover_incomplete-settles_both later updated_at p sound =
    let settled = recover_incomplete-settles later updated_at p.store sound in
    (
      refl,
      (
        read-rewrite _ _ (λ x. refl) p.core_runs,
        (read-rewrite _ _ (λ x. refl) p.core_pending_requests, (settled.0, settled.1.0)),
      ),
    )

-- The store's record of each run is the one made from the core's record.
pub record Agree (p : Persistence) : Type 0 where
  pub ref_of :
      (id : String) (run : Run)
      → read_json id p.core_runs ≡ some run
      → read_json id p.store.runs ≡ some (run_ref run)
  pub named : (id : String) (run : Run) → read_json id p.core_runs ≡ some run → run.run_id ≡ id

held : {A : Type 0} (a b : A) → some a ≡ some b → a ≡ b
held a b e = cc

-- Writing one run in both copies keeps them in agreement.
module _ (later : String → String → Bool) (p : Persistence) (run : Run) where
  -- The state with one run written in both copies.
  abbrev pub with_run : Persistence
  with_run = record p {
    store = save_run later (run_ref run) p.store;
    core_runs = write_json_atomic run.run_id run p.core_runs;
  }

  read-written :
      (id : String) (r : Run)
      → str_eq id run.run_id ≡ true
      → read_json id with_run.core_runs ≡ some r
      → (id ≡ run.run_id) × (run ≡ r)
  read-written id r same h =
      let eq = (eq_iff id run.run_id).0 same in
      (
        eq,
        held run r (
            sym (read-write-same run.run_id run p.core_runs)
            ∙ subst (λ k. read_json k with_run.core_runs ≡ some r) eq h),
      )

  with_run-Agree : Agree p → Agree with_run
  unfolding save_run run_ref
  with_run-Agree agree = record {
    ref_of = λ id r h. elim (Bool-cases (str_eq id run.run_id)) [
      | inl same ↦
          let (eq, is_run) = read-written id r same h in
          subst (λ x. read_json id with_run.store.runs ≡ some (run_ref x)) is_run
            (subst (λ k. read_json k with_run.store.runs ≡ some (run_ref run)) (sym eq)
              (read-write-same run.run_id (run_ref run) p.store.runs))
      | inr other ↦
          read-write-other run.run_id id (run_ref run) p.store.runs other
          ∙ agree.ref_of id r (sym (read-write-other run.run_id id run p.core_runs other) ∙ h)
    ];
    named = λ id r h. elim (Bool-cases (str_eq id run.run_id)) [
      | inl same ↦
          let (eq, is_run) = read-written id r same h in subst (λ x. x.run_id ≡ id) is_run (sym eq)
      | inr other ↦
          agree.named id r (sym (read-write-other run.run_id id run p.core_runs other) ∙ h)
    ];
  }

-- Recording a new run keeps the copies in agreement.
pub record_run_created-Agree :
    (later : String → String → Bool) (run : Run) (p : Persistence)
    → Agree p
    → Agree (record_run_created later run p).1
unfolding record_run_created write_run ◌>>=◌
record_run_created-Agree later run p agree = with_run-Agree later p run agree

-- Recording the terminal status of a recorded run raises nothing, if the copies agree: both copies
-- then have the status and the time, nothing else has changed, and they still agree.
pub record_run_terminal_status-Agree :
    (later : String → String → Bool) (run_id : String) (status : RunStatus) (updated_at : String)
    (run : Run) (p : Persistence)
    → Agree p
    → read_json run_id p.core_runs ≡ some run
    → (record_run_terminal_status later run_id status updated_at p
        ≡ (return tt, with_run later p (with_status status updated_at run)))
      × Agree (record_run_terminal_status later run_id status updated_at p).1
unfolding record_run_terminal_status require_run require_core_run write_run run_ref ◌>>=◌
record_run_terminal_status-Agree later run_id status updated_at run p agree stored =
    let result : record_run_terminal_status later run_id status updated_at p
        ≡ (return tt, with_run later p (with_status status updated_at run)) =
      rw (agree.ref_of run_id run stored, stored, agree.named run_id run stored) refl in
    (
      result,
      subst (λ r. Agree r.1) (sym result)
          (with_run-Agree later p (with_status status updated_at run) agree),
    )

-- What the store and the core should hold of a request of a run that has been closed.
abbrev pub stored_request :
    RunRef → SessionRef → PendingRequest → PendingStatus → String → PendingRef
stored_request run session request status now = record {
  pending_id = request.pending_request_id;
  bot_session_id = run.bot_session_id;
  feishu_user_id = session.owner_feishu_user_id;
  chat_id = run.scope_id;
  kind = request.kind;
  codex_thread_id = run.thread_id;
  codex_turn_id = some run.turn_id;
  codex_request_id = some request.pending_request_id;
  prompt_text = "";
  payload = request.payload;
  status = status;
  created_at = run.updated_at;
  updated_at = now;
}

abbrev pub core_request : RunRef → PendingRequest → PendingStatus → String → CorePending
core_request run request status now = record {
  pending_request_id = request.pending_request_id;
  run_id = request.run_id;
  kind = request.kind;
  payload = request.payload;
  status = status;
  created_at = run.updated_at;
  updated_at = now;
}

-- A request that a recorded run with a recorded session opens can be closed by any status but
-- "open": neither call raises, and both copies then hold the request with that status.
pub open_pending_request-close :
    (p : Persistence) (run_id : String) (request : PendingRequest) (status : PendingStatus)
    (now now' : String) (run : RunRef) (session : SessionRef)
    → read_json run_id p.store.runs ≡ some run
    → read_json run.bot_session_id p.store.sessions ≡ some session
    → is_open status ≡ false
    → let r1 = open_pending_request run_id request p in
      let r2 = close_pending_request request.pending_request_id status now now' r1.1 in
      (r1.0 ≡ return tt)
      × ((r2.0 ≡ return tt)
          × ((read_json request.pending_request_id r2.1.store.pending
                ≡ some (stored_request run session request status now))
              × (read_json request.pending_request_id r2.1.core_pending_requests
                  ≡ some (core_request run request status now'))))
unfolding open_pending_request require_run require_session save_pending write_pending pending_ref
    close_pending_request close_pending require_core_pending_request core_pending ◌>>=◌
open_pending_request-close p run_id request status now now' run session has_run has_session closed =
    let id = request.pending_request_id in
    rw
      (
        has_run,
        has_session,
        closed,
        read-write-same id (pending_ref run session request) p.store.pending,
        read-write-same id (core_pending run request) p.core_pending_requests,
      )
      (refl, (refl, (read-write-same id _ _, read-write-same id _ _)))
