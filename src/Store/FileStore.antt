-- ===== src/Store/FileStore.antt =====
-- store/file_store.py: the directories of the bridge and their two index files. `initialize` only
-- makes what is missing, so a missing index is the empty list here.
pub mod Recovery
pub mod Indexed
use aw_bot.Prelude.{
  ℕ, String, Bool, true, false, Option, none, some, List, [], ◌∷◌, ◌++◌, ◌&&◌, ◌||◌, not, map, take,
  str_eq, is_some, if◌then◌else◌,
}
use aw_bot.Prelude.Action.{Action, pure, throw, get, modify, ◌>>=◌, ◌>>◌}
use aw_bot.Core.Types.{PendingStatus, opened, resolved, cancelled}
use aw_bot.React.Events
use aw_bot.Store.Files.{Directory, read_json, write_json_atomic, unlink, glob}
use aw_bot.Store.Models
use aw_bot.Store.Models.{
  StoredRunStatus, RunRef, CardStatus, streaming, StreamCardRef, WorkspaceBinding, SessionRef,
  PendingRef, Binding, SessionSummary, LogLine, event_line, error_line,
}
use aw_bot.Core.Types.{NamedWorkspace}

pub data StoreError : Type 0 where
  value_error runtime_error : (message : String) → StoreError
  file_not_found : StoreError

-- No run is taken to be named "index", which is the name of the index's file among those of the runs,
-- and no file to be damaged or refused by the system.
pub record FileStore : Type 0 where
  pub sessions : Directory SessionRef
  pub index : List SessionSummary
  pub bindings : Directory Binding
  pub pending : Directory PendingRef
  pub runs : Directory RunRef
  pub run_index : List RunRef
  pub cards : Directory StreamCardRef
  pub workspaces : Directory WorkspaceBinding
  pub named_workspaces : Directory NamedWorkspace
  pub logs : Directory (List LogLine)

unfoldable pub filter : {A : Type 0} → (A → Bool) → List A → List A
filter p [] = []
filter p (x ∷ xs) = if p x then x ∷ filter p xs else filter p xs

-- `items.sort(key=key, reverse=True)` is stable: equal keys keep their order. `later a b` is
-- Python's `a > b` on strings.
module _ {A : Type 0} (later : String → String → Bool) (key : A → String) where
  unfoldable pub insert : A → List A → List A
  insert x [] = x ∷ []
  insert x (y ∷ ys) = if later (key y) (key x) then y ∷ insert x ys else x ∷ y ∷ ys

  unfoldable pub sort : List A → List A
  sort [] = []
  sort (x ∷ xs) = insert x (sort xs)

-- The loops of `recover_incomplete`: each record that is due is changed and saved.
unfoldable pub sweep : {A S : Type 0} → (A → Bool) → (A → A) → (A → S → S) → List A → S → S
sweep due fix save [] s = s
sweep due fix save (x ∷ rest) s = sweep due fix save rest (if due x then save (fix x) s else s)

abbrev pub is_incomplete : StoredRunStatus → Bool
is_incomplete Models.StoredRunStatus.running = true
is_incomplete Models.StoredRunStatus.pending = true
is_incomplete _ = false

abbrev pub is_open : PendingStatus → Bool
is_open opened = true
is_open _ = false

abbrev pub is_streaming : CardStatus → Bool
is_streaming streaming = true
is_streaming _ = false

unfoldable pub session_summary : SessionRef → SessionSummary
session_summary session = record {
  bot_session_id = session.bot_session_id;
  owner_feishu_user_id = session.owner_feishu_user_id;
  title = session.title;
  agent = session.agent;
  codex_thread_id = session.codex_thread_id;
  status = session.status;
  updated_at = session.updated_at;
}

unfoldable pub get_session : String → FileStore → Option SessionRef
get_session bot_session_id store = read_json bot_session_id store.sessions

abbrev current_of : FileStore → Option Binding → Option SessionRef
current_of store none = none
current_of store (some binding) = get_session binding.current_bot_session_id store

unfoldable pub set_current_session : String → String → FileStore → FileStore
set_current_session user bot_session_id store = record store {
  bindings =
      write_json_atomic user
        (record { feishu_user_id = user; current_bot_session_id = bot_session_id }) store.bindings;
}

unfoldable pub get_current_session : String → FileStore → Option SessionRef
get_current_session user store = current_of store (read_json user store.bindings)

unfoldable pub save_pending : PendingRef → FileStore → FileStore
save_pending pending store = record store {
  pending = write_json_atomic pending.pending_id pending store.pending;
}

unfoldable pub get_run : String → FileStore → Option RunRef
get_run run_id store = read_json run_id store.runs

unfoldable pub save_card : StreamCardRef → FileStore → FileStore
save_card card store = record store { cards = write_json_atomic card.card_id card store.cards }

unfoldable pub get_card : String → FileStore → Option StreamCardRef
get_card card_id store = read_json card_id store.cards

unfoldable pub save_workspace : WorkspaceBinding → FileStore → FileStore
save_workspace workspace store = record store {
  workspaces = write_json_atomic workspace.scope_id workspace store.workspaces;
}

unfoldable pub get_workspace : String → FileStore → Option WorkspaceBinding
get_workspace scope_id store = read_json scope_id store.workspaces

unfoldable pub save_named_workspace : NamedWorkspace → FileStore → FileStore
save_named_workspace workspace store = record store {
  named_workspaces = write_json_atomic workspace.name workspace store.named_workspaces;
}

unfoldable pub get_named_workspace : String → FileStore → Option NamedWorkspace
get_named_workspace name store = read_json name store.named_workspaces

unfoldable pub remove_named_workspace : String → FileStore → FileStore
remove_named_workspace name store = record store {
  named_workspaces = unlink name store.named_workspaces;
}

abbrev lines_of : Option (List LogLine) → List LogLine
lines_of none = []
lines_of (some lines) = lines

-- `_append_log`
unfoldable pub append_log : String → LogLine → FileStore → FileStore
append_log run_id line store = record store {
  logs = write_json_atomic run_id (lines_of (read_json run_id store.logs) ++ line ∷ []) store.logs;
}

abbrev existing : List (Option SessionRef) → List SessionRef
existing [] = []
existing (none ∷ rest) = existing rest
existing (some session ∷ rest) = session ∷ existing rest

abbrev pub interrupted_at : String → RunRef → RunRef
interrupted_at updated_at run = record run {
  status = Models.StoredRunStatus.interrupted;
  updated_at = updated_at;
}

abbrev pub cancelled_at : String → PendingRef → PendingRef
cancelled_at updated_at pending = record pending { status = cancelled; updated_at = updated_at }

abbrev pub failed_at : String → StreamCardRef → StreamCardRef
failed_at updated_at card = record card {
  status = Models.CardStatus.failed_card;
  updated_at = updated_at;
}

module _ (later : String → String → Bool) where
  unfoldable pub save_session : SessionRef → FileStore → FileStore
  save_session session store = record store {
    sessions = write_json_atomic session.bot_session_id session store.sessions;
    index =
        sort later (λ (item : SessionSummary). item.updated_at)
          (filter
              (λ (item : SessionSummary). not (str_eq item.bot_session_id session.bot_session_id))
              store.index
            ++ session_summary session ∷ []);
  }

  unfoldable pub list_sessions : String → ℕ → FileStore → List SessionRef
  list_sessions user limit store = existing (
      map (λ (item : SessionSummary). get_session item.bot_session_id store)
        (take limit (
          sort later (λ (item : SessionSummary). item.updated_at)
            (filter (λ (item : SessionSummary). str_eq item.owner_feishu_user_id user)
              store.index))))

  unfoldable pub save_run : RunRef → FileStore → FileStore
  save_run run store = record store {
    runs = write_json_atomic run.run_id run store.runs;
    run_index =
        sort later (λ (item : RunRef). item.updated_at)
          (filter (λ (item : RunRef). not (str_eq item.run_id run.run_id)) store.run_index
            ++ run ∷ []);
  }

  unfoldable pub list_runs : String → ℕ → FileStore → List RunRef
  list_runs scope_id limit store = take limit (
      sort later (λ (item : RunRef). item.updated_at)
        (filter (λ (item : RunRef). str_eq item.scope_id scope_id) store.run_index))

  unfoldable pub list_named_workspaces : FileStore → List NamedWorkspace
  list_named_workspaces store =
      sort later (λ (item : NamedWorkspace). item.updated_at) (glob store.named_workspaces)

  unfoldable pub recover_incomplete : String → FileStore → FileStore
  recover_incomplete updated_at store =
      let store =
        sweep (λ (run : RunRef). is_incomplete run.status) (interrupted_at updated_at) save_run
          store.run_index store in
      let store =
        sweep (λ (pending : PendingRef). is_open pending.status) (cancelled_at updated_at)
          save_pending (glob store.pending) store in
      sweep (λ (card : StreamCardRef). is_streaming card.status) (failed_at updated_at) save_card
        (glob store.cards) store

-- `pending.status = status` and the new time of `close_pending`
abbrev pub closed_pending : PendingStatus → String → PendingRef → PendingRef
closed_pending status now pending = record pending { status = status; updated_at = now }

abbrev pub found : {S A : Type 0} → StoreError → Option A → Action S StoreError A
found e none = throw e
found e (some a) = pure a

unfoldable pub close_pending : String → PendingStatus → String → Action FileStore StoreError Unit
close_pending pending_id status now =
    if is_open status then throw (value_error "closed pending status cannot be open") else (do
      store ← get
      pending ← found file_not_found (read_json pending_id store.pending)
      modify (save_pending (closed_pending status now pending)))
