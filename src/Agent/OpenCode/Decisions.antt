-- ===== src/Agent/OpenCode/Decisions.antt =====
-- `_permission_decision` of agent/opencode_server.py.
use aw_bot.Prelude.{String, ◌||◌, str_eq, if◌then◌else◌}
use aw_bot.Prelude.Action.{return, raise}
use aw_bot.Agent.Payload.{Checked, value_error}

unfoldable pub permission_decision : String → Checked String
permission_decision decision =
    if str_eq decision "accept" || str_eq decision "approve" || str_eq decision "allow"
    then return "once"
    else if str_eq decision "reject" || str_eq decision "deny" || str_eq decision "abort"
    then return "reject"
    else raise (value_error decision)
