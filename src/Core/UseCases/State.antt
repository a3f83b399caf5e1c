-- ===== src/Core/UseCases/State.antt =====
-- The messages, results and fields of CoreUseCases of core/use_cases.py.
use aw_bot.Prelude.{ℕ, String, Option, some, List}
use aw_bot.Prelude.Int.{ℤ}
use aw_bot.Prelude.Action.{Result, return, raise, Action, pure, throw, get, modify, ◌>>=◌, ◌>>◌}
use aw_bot.Core.Types.{Workspace, NamedWorkspace, HistoricalAgentSession, Attachment}
use aw_bot.Core.Workspaces.{PathSystem, WorkspaceValidator, Tree}
use aw_bot.Core.Controller.State.{Env, Controller, Call, Exception, value_error, M, call, assign}
use aw_bot.Core.Controller.Consume.{Outcome}

pub record PrivateChatTextMessage : Type 0 where
  pub private_chat_scope_id : String
  pub user_id : String
  pub text : String
  pub attachments : List Attachment

pub record RunViewAction : Type 0 where
  pub private_chat_scope_id : String
  pub user_id : String
  pub action : String
  pub pending_request_id : String

pub record SkillInfo : Type 0 where
  pub name : String
  pub description : Option String

-- What a message is answered with: a run, or a wait for one, or one of the result classes. A change
-- of workspace is answered once the run that it waits for has ended.
pub data Reply : Type 0 where
  run_reply : Outcome → Reply
  workspace_changed : Workspace → Outcome → Reply
  workspace_saved : NamedWorkspace → Reply
  workspace_list : List NamedWorkspace → Reply
  workspace_removed : (name : String) → Reply
  file_finder : (paths : List String) → Reply
  model_list :
      (agent_name : String) → (models : List String) → (selected_model : Option String) → Reply
  skill_list : (agent_name : String) → List SkillInfo → Reply
  opencode_agent_selected : (agent : String) → Reply
  resume_list : List HistoricalAgentSession → Reply
  resume_restored : HistoricalAgentSession → Reply
  idle_timeout_status : (scope_timeout_minutes : Option ℕ) → Reply
  approval_decision_required : (pending_request_id : String) → Reply

-- What the use cases are built with beside the controller: `parse_int` is Python's `int` of a text
-- (none for a ValueError), `lower` its `str.lower`, `tree_of` the directory at a path. The answers of
-- the persistence and the agent may depend on all earlier calls.
pub record Setting : Type 0 where
  pub env : Env
  pub paths : PathSystem
  pub validator : WorkspaceValidator
  pub tree_of : String → Tree
  pub parse_int : String → Option ℤ
  pub lower : String → String
  pub named_workspaces_of : List Call → List NamedWorkspace
  pub named_workspace_of : List Call → Option NamedWorkspace
  pub sessions_of : List Call → List HistoricalAgentSession
  pub models_of : List Call → List String
  pub skills_of : List Call → List SkillInfo

pub record UseCases : Type 0 where
  pub controller : Controller
  pub scope_models : String → Option String
  pub scope_opencode_agents : String → Option String

abbrev pub U : Type 0 → Type 0
U A = Action UseCases Exception A

-- A method of the controller, on the use cases' own one.
unfoldable pub core : {A : Type 0} → M A → U A
core m u = let (r, s) = m u.controller in (r, record u { controller = s })

unfoldable pub select_model : String → String → U Unit
select_model scope model =
    modify (λ u. record u { scope_models = assign scope (some model) u.scope_models })

unfoldable pub select_opencode_agent : String → String → U Unit
select_opencode_agent scope agent =
    modify
      (λ u. record u { scope_opencode_agents = assign scope (some agent) u.scope_opencode_agents })

unfoldable pub invalid : {A : Type 0} → String → U A
invalid message = throw (value_error message)

-- A validated workspace, or the ValueError with the message.
unfoldable pub valid_or_raise : Result String Workspace → U Workspace
valid_or_raise (return checked) = pure checked
valid_or_raise (raise message) = invalid message

module _ (setting : Setting) where
  -- A call of the persistence or the agent, and its answer.
  unfoldable pub ask : {A : Type 0} → Call → (List Call → A) → U A
  ask c answer = do core (call setting.env c); u ← get; pure (answer u.controller.calls)
