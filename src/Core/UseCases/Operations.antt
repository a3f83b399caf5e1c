-- ===== src/Core/UseCases/Operations.antt =====
-- What CoreUseCases.handle_private_chat_text of core/use_cases.py does for each command.
use aw_bot.Prelude.{
  ℕ, zero, suc, ◌*◌, String, Bool, false, ◌||◌, Option, none, some, List, [], ◌∷◌, take, str_eq,
  if◌then◌else◌,
}
use Prim.Native.String
use Prim.Native.Nat.{◌/◌}
use aw_bot.Prelude.Int.{ℤ, pos, negsuc}
use aw_bot.Prelude.Action.{pure, get, ◌>>=◌, ◌>>◌}
use aw_bot.Prelude.Text.{contains, truthy}
use aw_bot.Core.Types.{NamedWorkspace}
use aw_bot.Core.Workspaces.{validate, file_paths}
use aw_bot.Core.Controller.State.{
  call, now, save_named_workspace, get_named_workspace, remove_named_workspace, list_models,
  list_skills,
}
use aw_bot.Core.Controller.Timers.{
  get_idle_timeout, set_idle_timeout, disable_idle_timeout, clear_idle_timeout_override,
}
use aw_bot.Core.Controller.Handlers.{change_workspace, clear_selected_session}
use aw_bot.Core.UseCases.State.{
  Reply, workspace_changed, workspace_saved, workspace_removed, file_finder, model_list, skill_list,
  opencode_agent_selected, idle_timeout_status, Setting, U, core, select_model,
  select_opencode_agent, invalid, valid_or_raise, ask,
}

abbrev minutes_of : Option ℕ → Option ℕ
minutes_of none = none
minutes_of (some microseconds) = some (microseconds / 60000000)

abbrev pub matching : String → List String → List String
matching query [] = []
matching query (path ∷ rest) =
    if contains query path then path ∷ matching query rest else matching query rest

abbrev pub is_in : String → List String → Bool
is_in x [] = false
is_in x (y ∷ rest) = str_eq x y || is_in x rest

module _ (setting : Setting) where
  unfoldable pub set_minutes : String → Option ℤ → U Reply
  set_minutes scope none = invalid "invalid literal for int()"
  set_minutes scope (some (negsuc n)) = invalid "timeout minutes must be positive"
  set_minutes scope (some (pos zero)) = invalid "timeout minutes must be positive"
  set_minutes scope (some (pos (suc n))) = do
    core (set_idle_timeout setting.env scope (suc n * 60000000))
    pure (idle_timeout_status (some (suc n)))

  -- `/timeout` with a value
  unfoldable pub change_timeout : String → String → U Reply
  change_timeout scope value =
      if str_eq value "off"
      then (do core (disable_idle_timeout setting.env scope); pure (idle_timeout_status none))
      else if str_eq value "default"
      then (do
        core (clear_idle_timeout_override setting.env scope)
        seconds ← core (get_idle_timeout setting.env scope)
        pure (idle_timeout_status (minutes_of seconds)))
      else set_minutes scope (setting.parse_int value)

  -- `/cd` with a path, and `/ws use` with the path of a named workspace
  unfoldable pub change_to : String → String → String → U Reply
  change_to scope user path = do
    checked ← valid_or_raise (validate setting.paths setting.validator path)
    ended ← core (change_workspace setting.env scope user checked)
    pure (workspace_changed checked ended)

  -- `/ws save` with a name
  unfoldable pub save_as : String → U Reply
  save_as name = do
    u ← get
    checked ← valid_or_raise (validate setting.paths setting.validator u.controller.workspace.path)
    time ← core (now setting.env)
    let named : NamedWorkspace = record {
      name = name;
      workspace = checked;
      updated_at = setting.env.isoformat time;
    }
    core (call setting.env (save_named_workspace named))
    pure (workspace_saved named)

  unfoldable pub change_to_named : String → String → String → Option NamedWorkspace → U Reply
  change_to_named scope user name none = invalid (String.◌++◌ "workspace is not saved: " name)
  change_to_named scope user name (some named) = change_to scope user named.workspace.path

  -- `/ws use` with a name
  unfoldable pub use_named : String → String → String → U Reply
  use_named scope user name = do
    named ← ask setting (get_named_workspace name) setting.named_workspace_of
    change_to_named scope user name named

  -- `/ws remove` with a name
  unfoldable pub remove_named : String → U Reply
  remove_named name = do
    core (call setting.env (remove_named_workspace name))
    pure (workspace_removed name)

  -- `/files` with a query
  unfoldable pub files_for : String → U Reply
  files_for query =
      if truthy query
      then (do
        u ← get
        pure (
            file_finder (
              take 10
                (matching query (file_paths "" (setting.tree_of u.controller.workspace.path))))))
      else invalid "file query is required"

  -- `/model`
  unfoldable pub show_models : String → U Reply
  show_models scope = do
    u ← get
    known ← ask setting (list_models u.controller.workspace) setting.models_of
    pure (model_list setting.env.agent_name known (u.scope_models scope))

  -- `/skills`
  unfoldable pub show_skills : U Reply
  show_skills = do
    u ← get
    known ← ask setting (list_skills u.controller.workspace) setting.skills_of
    pure (skill_list setting.env.agent_name known)

  -- `/agent` with a value
  unfoldable pub use_agent : String → String → U Reply
  use_agent scope agent =
      if str_eq agent ""
      then invalid "OpenCode agent value is required"
      else if str_eq agent "plan" || str_eq agent "build"
      then (if str_eq setting.env.agent_name "opencode"
          then (do
            select_opencode_agent scope agent
            core (clear_selected_session setting.env scope)
            pure (opencode_agent_selected agent))
          else invalid
              (String.◌++◌ "/agent " (String.◌++◌ agent " is only available for OpenCode")))
      else invalid (String.◌++◌ "unknown OpenCode agent: " agent)

  -- `/model use` with a value
  unfoldable pub use_model : String → String → U Reply
  use_model scope model = if str_eq model "" then invalid "model value is required" else do
    u ← get
    known ← ask setting (list_models u.controller.workspace) setting.models_of
    if is_in model known
        then (do
          select_model scope model
          core (clear_selected_session setting.env scope)
          pure (model_list setting.env.agent_name known (some model)))
        else invalid (String.◌++◌ "unknown model: " model)
