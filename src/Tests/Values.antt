-- ===== src/Tests/Values.antt =====
-- A chat with one active run, and a process whose ports never fail.
use aw_bot.Prelude.{false, none, some, [], ◌≡◌, refl, subst}
use aw_bot.Prelude.Json.{end}
use aw_bot.Core.Types.{running, pending_approval, Run, Workspace, AgentSession, full, approval}
use aw_bot.Core.RunView.{PendingRequestView, initial_run_view}
use aw_bot.Core.RunView.Status.{initial_run_view-IsCoherent}
use aw_bot.Core.Controller.State.{Env, ActiveRun, Controller, port_error, assign}
use aw_bot.Core.Controller.Invariant.{IsWf, AllWf, AllWf-assign}

abbrev pub home : Workspace
home = record { path = "/work" }

abbrev pub session : AgentSession
session = record {
  agent_session_id = "thread";
  private_chat_scope_id = "chat";
  user_id = "ann";
  agent_name = "codex";
  workspace = home;
  access_mode = full;
}

abbrev pub env : Env
env = record {
  agent_name = "codex";
  access_mode = full;
  default_idle_timeout = some 600000000;
  clock = λ n. n;
  isoformat = λ n. "now";
  run_id_factory = λ n. "next";
  fault = λ calls c. none;
  session_of = λ calls. session;
  turn_of = λ calls. "turn";
}

-- The same process with ports that all fail.
abbrev pub broken : Env
broken = record env { fault = λ calls c. some (port_error "down") }

abbrev pub run : Run
run = record {
  run_id = "run";
  private_chat_scope_id = "chat";
  user_id = "ann";
  agent_session_id = "thread";
  agent_name = "codex";
  agent_turn_id = "turn";
  status = running;
  created_at = "then";
  updated_at = "then";
}

abbrev pub active : ActiveRun
active = record {
  run = run;
  run_view = initial_run_view "run";
  turn_stream = "turn";
  user_id = "ann";
  agent_session = session;
  queued_messages = [];
  stop_requested = false;
  completion_future = none;
  idle_timeout_handle = some 0;
  timed_out = false;
}

abbrev pub question : PendingRequestView
question = record {
  pending_request_id = "question";
  kind = approval;
  prompt = "go on?";
  payload = end;
}

abbrev pub waiting : ActiveRun
waiting = record active {
  run = record run { status = pending_approval };
  run_view = record (initial_run_view "run") { status = pending_approval; pending = some question };
  idle_timeout_handle = none;
}

abbrev pub state : ActiveRun → Controller
state a = record {
  active_runs = assign "chat" (some a) (λ _. none);
  fresh_session_scope_ids = λ _. false;
  selected_sessions = λ _. none;
  idle_timeout_overrides = λ _. none;
  workspace = home;
  calls = [];
  clock_reads = 0;
  timers = 1;
}

active-IsWf : IsWf "chat" active
unfolding initial_run_view
active-IsWf = record {
  scope_eq = refl;
  view_eq = refl;
  coherent = initial_run_view-IsCoherent "run";
  user_eq = refl;
  turn_eq = refl;
  session_eq = refl;
  unfinished = refl;
}

pub state-AllWf : AllWf (state active)
state-AllWf =
    AllWf-assign "chat" (some active) (record (state active) { active_runs = λ _. none })
      (λ a e. subst (λ b. IsWf "chat" b) (held active a e) active-IsWf) (λ k a e. cc)
  where
    held : (a b : ActiveRun) → some a ≡ some b → a ≡ b
    held a b e = cc
