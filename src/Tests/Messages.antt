-- ===== src/Tests/Messages.antt =====
-- Theorems on the use cases at concrete messages.
use aw_bot.Prelude.{
  String, true, none, some, List, [], ◌∷◌, In, All, ◌++◌, length, ◌≤◌, ◌≡◌, ◌≢◌, refl,
}
use aw_bot.Prelude.Text.{strip, lstrip, rstrip, after_prefix, contains}
use aw_bot.Prelude.Int.{pos}
use aw_bot.Prelude.Action.{return}
use aw_bot.Core.Types.{HistoricalAgentSession, full}
use aw_bot.Core.Workspaces.{Tree, none_left, child, directory, file, file_paths}
use aw_bot.Core.Controller.State.{create_session, start_turn}
use aw_bot.Core.Controller.Invariant.{AllWf}
use aw_bot.Core.UseCases.Command.{
  text, command_of, no_resume, resume_of, map_approval_decision, first_of,
}
use aw_bot.Core.UseCases.State.{PrivateChatTextMessage, Setting, UseCases, model_list, file_finder}
use aw_bot.Core.UseCases.Operations.{use_model, files_for}
use aw_bot.Core.UseCases.Dispatch.{handle_private_chat_text}
use aw_bot.Core.UseCases.Frame.Messages.{SameFor, handle_private_chat_text-SameFor}
use aw_bot.Core.UseCases.Decisions.{
  IsDecided, consents, session_consents, refusals, cancellations, map_approval_decision-IsDecided,
}
use aw_bot.Core.UseCases.Files.{IsListed, file_paths-exact, files_for-IsFound}
use aw_bot.Core.UseCases.Resuming.{without_faults}
use aw_bot.Core.UseCases.Models.{offered, use_model-next_turn}
use aw_bot.Tests.Values.{home, env, active, state, state-AllWf}

abbrev tree : Tree
tree =
    child ".git" (directory (child "main.py" file none_left))
      (child "a" (directory (child "main.py" file none_left)) (child "main.txt" file none_left))

abbrev old : HistoricalAgentSession
old = record {
  agent_session_id = "old";
  private_chat_scope_id = "chat";
  user_id = "ann";
  agent_name = "codex";
  workspace = home;
  access_mode = some full;
  updated_at = "then";
}

abbrev setting : Setting
setting = record {
  env = env;
  paths = record {
    as_path = λ p. p;
    join = λ a b. b;
    is_absolute = λ p. true;
    is_dir = λ p. true;
    resolve = λ p. p;
    anchor = λ p. "/";
  };
  validator = record { home_directory = "/home"; temp_directory = "/tmp"; system_directories = [] };
  tree_of = λ path. tree;
  parse_int = λ given. some (pos 5);
  lower = λ given. given;
  named_workspaces_of = λ calls. [];
  named_workspace_of = λ calls. none;
  sessions_of = λ calls. old ∷ [];
  models_of = λ calls. "fast" ∷ "deep" ∷ [];
  skills_of = λ calls. [];
}

abbrev busy : UseCases
busy = record {
  controller = state active;
  scope_models = λ scope. none;
  scope_opencode_agents = λ scope. none;
}

abbrev idle : UseCases
idle = record busy { controller = record (state active) { active_runs = λ scope. none } }

abbrev says : String → PrivateChatTextMessage
says given = record {
  private_chat_scope_id = "chat";
  user_id = "ann";
  text = given;
  attachments = [];
}

handle_private_chat_text-SameFor_example :
    AllWf (handle_private_chat_text setting (says "/stop") busy).1.controller
    × ((j : String)
        → "chat" ≢ j
        → SameFor j busy (handle_private_chat_text setting (says "/stop") busy).1)
handle_private_chat_text-SameFor_example =
    handle_private_chat_text-SameFor setting (says "/stop") busy state-AllWf

refusal : map_approval_decision (λ given. given) " 拒绝 " ≡ some "decline"
unfolding map_approval_decision strip lstrip rstrip
refusal = refl

map_approval_decision-IsDecided_example :
    ((decision : String)
      → map_approval_decision (λ given. given) " 拒绝 " ≡ some decision
      → IsDecided (strip " 拒绝 ") decision)
    × (map_approval_decision (λ given. given) " 拒绝 " ≡ none
        → All
            (λ word. word ≢ strip " 拒绝 ")
            (consents ++ (session_consents ++ (refusals ++ cancellations))))
map_approval_decision-IsDecided_example = map_approval_decision-IsDecided (λ given. given) " 拒绝 "

file_paths-exact_example :
    All (IsListed "" tree) (file_paths "" tree)
    × ((path : String) → IsListed "" tree path → In path (file_paths "" tree))
file_paths-exact_example = file_paths-exact tree

files_for-IsFound_example :
    (found : List String) × (files_for setting "main" idle ≡ (return (file_finder found), idle))
    × (length found ≤ 10)
    × All (λ path. IsListed "" tree path × (contains "main" path ≡ true)) found
files_for-IsFound_example = files_for-IsFound setting "main" idle refl

hello-text : command_of (strip "hello") ≡ text
unfolding command_of first_of strip lstrip rstrip after_prefix
hello-text = refl

hello-starts : resume_of (strip "hello") ≡ no_resume
unfolding resume_of strip lstrip rstrip after_prefix
hello-starts = refl

use_model-next_turn_example :
    (v : UseCases) × (use_model (without_faults setting) "chat" "deep" idle
      ≡ (return (model_list "codex" (offered setting idle) (some "deep")), v))
    × In
        (start_turn
          (env.session_of
            (create_session "chat" "ann" "codex" v.controller.workspace full ∷ v.controller.calls))
          "hello"
          (some "deep")
          none
          [])
        (handle_private_chat_text (without_faults setting) (says "hello") v).1.controller.calls
use_model-next_turn_example =
    use_model-next_turn setting idle (says "hello") "deep" refl refl refl hello-text hello-starts
