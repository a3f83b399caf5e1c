-- ===== src/Core/UseCases/Command.antt =====
-- The commands of core/use_cases.py, in the order in which a text is tested for them, and
-- react/pending.py's words for a decision.
use aw_bot.Prelude.{String, Option, none, some, List, [], ◌∷◌, str_eq, if◌then◌else◌}
use aw_bot.Prelude.Text.{strip, after_prefix}

-- Commands that are tested for whatever the chat's state. A `missing` is one whose value is
-- missing, with the message of the ValueError; a `text` is any other text.
pub data Command : Type 0 where
  stop reset : Command
  missing : (message : String) → Command
  timeout cd ws_save ws_use ws_remove find_files choose_agent choose_model :
      (value : String) → Command
  ws_list list_model list_skill : Command
  text : Command

-- `command == name`
abbrev exactly : String → Command → String → Option Command
exactly name command given = if str_eq given name then some command else none

abbrev stripped : (String → Command) → Option String → Option Command
stripped make none = none
stripped make (some value) = some (make (strip value))

-- `command.startswith(prefix)`, with `command.removeprefix(prefix).strip()`
abbrev starting : String → (String → Command) → String → Option Command
starting prefix make given = stripped make (after_prefix prefix given)

abbrev pub tests : List (String → Option Command)
tests =
    exactly "/stop" stop
    ∷ exactly "/new" reset
    ∷ exactly "/reset" reset
    ∷ exactly "/timeout" (missing "timeout value is required")
    ∷ starting "/timeout " timeout
    ∷ exactly "/cd" (missing "workspace path is required")
    ∷ starting "/cd " cd
    ∷ exactly "/ws" (missing "workspace subcommand is required")
    ∷ exactly "/ws list" ws_list
    ∷ exactly "/ws save" (missing "workspace name is required")
    ∷ starting "/ws save " ws_save
    ∷ exactly "/ws use" (missing "workspace name is required")
    ∷ starting "/ws use " ws_use
    ∷ exactly "/ws remove" (missing "workspace name is required")
    ∷ starting "/ws remove " ws_remove
    ∷ exactly "/files" (missing "file query is required")
    ∷ starting "/files " find_files
    ∷ exactly "/model" list_model
    ∷ exactly "/skills" list_skill
    ∷ exactly "/agent" (missing "OpenCode agent value is required")
    ∷ starting "/agent " choose_agent
    ∷ exactly "/model use" (missing "model value is required")
    ∷ starting "/model use " choose_model
    ∷ []

abbrev or_else : Option Command → Command → Command
or_else none other = other
or_else (some command) other = command

unfoldable pub first_of : List (String → Option Command) → String → Command
first_of [] given = text
first_of (test ∷ rest) given = or_else (test given) (first_of rest given)

unfoldable pub command_of : String → Command
command_of given = first_of tests given

-- The part of a text after `/resume `, tested for only where no run of the user is active.
pub data Resume : Type 0 where
  list_sessions : Resume
  restore : (session_id : String) → Resume
  no_resume : Resume

abbrev resume_after : Option String → Resume
resume_after none = no_resume
resume_after (some id) = restore (strip id)

unfoldable pub resume_of : String → Resume
resume_of command =
    if str_eq command "/resume"
    then list_sessions
    else resume_after (after_prefix "/resume " command)

-- APPROVAL_DECISIONS
abbrev pub approval_decisions : List (String × String)
approval_decisions =
    ("同意", "accept")
    ∷ ("yes", "accept")
    ∷ ("y", "accept")
    ∷ ("allow", "accept")
    ∷ ("本会话同意", "acceptForSession")
    ∷ ("always", "acceptForSession")
    ∷ ("拒绝", "decline")
    ∷ ("no", "decline")
    ∷ ("n", "decline")
    ∷ ("deny", "decline")
    ∷ ("取消", "cancel")
    ∷ ("cancel", "cancel")
    ∷ []

abbrev pub find_decision : String → List (String × String) → Option String
find_decision word [] = none
find_decision word ((w, decision) ∷ rest) =
    if str_eq w word then some decision else find_decision word rest

-- `lower` is Python's `str.lower`.
unfoldable pub map_approval_decision : (lower : String → String) → String → Option String
map_approval_decision lower given = find_decision (lower (strip given)) approval_decisions
