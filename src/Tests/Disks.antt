-- ===== src/Tests/Disks.antt =====
-- The stored records of one run, its session and its pending request.
use aw_bot.Core.Types
use aw_bot.Store.Models
use aw_bot.Prelude.{
  map, String, Bool, true, false, none, some, List, [], ◌∷◌, ◌≡◌, refl, ap, sym, ◌∙◌, ◌||◌, str_eq,
  eq_iff, if◌then◌else◌,
}
use aw_bot.Prelude.Json.{end}
use aw_bot.Prelude.Action.{return}
use aw_bot.Core.Types.{Run, PendingRequest, approval, completed, resolved, full}
use aw_bot.Store.Files.{read_json, glob}
use aw_bot.Store.Models.{RunRef, SessionRef, PendingRef, idle}
use aw_bot.Store.FileStore.{FileStore, is_incomplete, is_open, save_run}
use aw_bot.Store.FileStore.Recovery.{IsStored, IsSound}
use aw_bot.Store.FileStore.Indexed.{save_run-IsStored}
use aw_bot.Store.Persistence.{
  Persistence, CorePending, run_ref, with_status, recover_incomplete, is_unfinished,
  record_run_terminal_status, open_pending_request, close_pending_request,
}
use aw_bot.Store.Persistence.Copies.{
  Agree, with_run, recover_incomplete-settles_both, record_run_terminal_status-Agree,
  open_pending_request-close, stored_request, core_request,
}
use aw_bot.Core.Types.{failed}
use aw_bot.Core.Events.{text_delta}
use aw_bot.Store.Persistence.Registry.{
  Operation, created, ended, event_seen, opened_request, IsRegistry, ledger, all_specified,
  perform_all, perform_all-refines,
}
use aw_bot.Tests.Values.{run}

-- An order of two time stamps, for a store with few of them.
abbrev later : String → String → Bool
later a b = false

abbrev empty_store : FileStore
empty_store = record {
  sessions = [];
  index = [];
  bindings = [];
  pending = [];
  runs = [];
  run_index = [];
  cards = [];
  workspaces = [];
  named_workspaces = [];
  logs = [];
}

abbrev owner : SessionRef
owner = record {
  bot_session_id = "thread";
  owner_feishu_user_id = "ann";
  owner_chat_id = "chat";
  agent = "codex";
  codex_thread_id = some "thread";
  title = "thread";
  cwd = "/work";
  access_mode = some full;
  status = idle;
  created_at = "then";
  updated_at = "then";
}

abbrev disk : FileStore → List (String × Run) → Persistence
disk store core_runs = record {
  store = store;
  core_agent_sessions = [];
  core_runs = core_runs;
  core_pending_requests = [];
  core_named_workspaces = [];
  core_run_logs = [];
  startup_log = [];
}

abbrev one_run : FileStore
one_run = record empty_store {
  sessions = ("thread", owner) ∷ [];
  runs = ("run", run_ref run) ∷ [];
  run_index = run_ref run ∷ [];
}

abbrev request : PendingRequest
request = record { pending_request_id = "question"; run_id = "run"; kind = approval; payload = end }

nothing-IsStored : {A : Type 0} (key : A → String) → IsStored key [] []
unfolding read_json
nothing-IsStored key = record { listed = λ id v r. cc; current = tt }

only :
    {A : Type 0} (b : Bool) (a r : A) → (if b then some a else none) ≡ some r → (b ≡ true) × (a ≡ r)
only true a r e = (refl, cc)
only false a r e = cc

one_run-IsStored : IsStored (λ (item : RunRef). item.run_id) one_run.runs one_run.run_index
unfolding read_json run_ref
one_run-IsStored = record {
  listed = λ id v r. ap (λ b. b || false) (only (str_eq id "run") (run_ref run) v r).0;
  current = (refl, tt);
}

one_run-IsSound : IsSound one_run
unfolding glob
one_run-IsSound = record {
  runs_stored = one_run-IsStored;
  pending_stored = nothing-IsStored _;
  cards_stored = nothing-IsStored _;
}

recorded-Agree : Agree (disk one_run (("run", run) ∷ []))
unfolding read_json run_ref
recorded-Agree = record {
  ref_of = λ id r h.
      let (same, is_run) = only (str_eq id "run") run r h in
      ap (λ b. if b then some (run_ref run) else none) same ∙ ap (λ x. some (run_ref x)) is_run;
  named = λ id r h.
      let (same, is_run) = only (str_eq id "run") run r h in
      sym (ap (λ (x : Run). x.run_id) is_run) ∙ sym ((eq_iff id "run").0 same);
}

save_run-IsStored_example :
    IsStored
      (λ (item : RunRef). item.run_id)
      (save_run later (run_ref run) one_run).runs
      (save_run later (run_ref run) one_run).run_index
save_run-IsStored_example = save_run-IsStored later (run_ref run) one_run one_run-IsStored

recover_incomplete-settles_both_example :
    let r = recover_incomplete later "now" (disk one_run (("run", run) ∷ [])) in
    (r.0 ≡ return tt)
    × (((id : String) (run : Run)
          → read_json id r.1.core_runs ≡ some run
          → is_unfinished run.status ≡ false)
        × (((id : String) (pending : CorePending)
              → read_json id r.1.core_pending_requests ≡ some pending
              → is_open pending.status ≡ false)
            × (((id : String) (run : RunRef)
                  → read_json id r.1.store.runs ≡ some run
                  → is_incomplete run.status ≡ false)
                × ((id : String) (pending : PendingRef)
                    → read_json id r.1.store.pending ≡ some pending
                    → is_open pending.status ≡ false))))
recover_incomplete-settles_both_example =
    recover_incomplete-settles_both later "now" (disk one_run (("run", run) ∷ [])) one_run-IsSound

record_run_terminal_status-Agree_example :
    let p = disk one_run (("run", run) ∷ []) in
    (record_run_terminal_status later "run" completed "now" p
      ≡ (return tt, with_run later p (with_status completed "now" run)))
    × Agree (record_run_terminal_status later "run" completed "now" p).1
unfolding read_json
record_run_terminal_status-Agree_example =
    record_run_terminal_status-Agree later "run" completed "now" run
      (disk one_run (("run", run) ∷ [])) recorded-Agree refl

open_pending_request-close_example :
    let r1 = open_pending_request "run" request (disk one_run []) in
    let r2 = close_pending_request "question" resolved "t1" "t2" r1.1 in
    (r1.0 ≡ return tt)
    × ((r2.0 ≡ return tt)
        × ((read_json "question" r2.1.store.pending
              ≡ some (stored_request (run_ref run) owner request resolved "t1"))
            × (read_json "question" r2.1.core_pending_requests
                ≡ some (core_request (run_ref run) request resolved "t2"))))
unfolding read_json run_ref
open_pending_request-close_example =
    open_pending_request-close (disk one_run []) "run" request resolved "t1" "t2" (run_ref run)
      owner refl refl refl

recorded-IsRegistry : IsRegistry (disk one_run (("run", run) ∷ []))
unfolding read_json run_ref
recorded-IsRegistry = record {
  agree = recorded-Agree;
  own_name = λ id ref h.
      let (same, is_ref) = only (str_eq id "run") (run_ref run) ref h in
      sym (ap (λ (x : RunRef). x.run_id) is_ref) ∙ sym ((eq_iff id "run").0 same);
}

abbrev work : List Operation
work =
    event_seen "run" (text_delta "hello")
    ∷ opened_request "run" request
    ∷ ended "run" failed "now"
    ∷ created (record run { run_id = "second" })
    ∷ ended "unknown" completed "now"
    ∷ []

perform_all-refines_example :
    let p = disk one_run (("run", run) ∷ []) in
    (ledger (perform_all later work p) ≡ all_specified work (ledger p))
    × Agree (perform_all later work p)
perform_all-refines_example =
    perform_all-refines later work (disk one_run (("run", run) ∷ [])) recorded-IsRegistry

-- The statuses that recovery takes for unfinished.
unfinished_statuses :
    (map is_unfinished (
        Types.RunStatus.running ∷ Types.RunStatus.pending_user_input
        ∷ Types.RunStatus.pending_approval ∷ [])
      ≡ true ∷ true ∷ true ∷ [])
    × (map is_incomplete (Models.StoredRunStatus.running ∷ Models.StoredRunStatus.pending ∷ [])
        ≡ true ∷ true ∷ [])
unfinished_statuses = (refl, refl)
