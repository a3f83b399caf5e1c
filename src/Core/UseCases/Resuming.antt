-- ===== src/Core/UseCases/Resuming.antt =====
-- `/resume` of core/use_cases.py: what it lists and what it restores.
use aw_bot.Prelude.{suc, String, false, Option, none, some, List, ◌∷◌}
use aw_bot.Core.Types.{AgentSession, HistoricalAgentSession, AccessMode}
use aw_bot.Core.Controller.State.{Env, Controller, list_agent_sessions, save_agent_session, assign}
use aw_bot.Core.Controller.Trace.{quiet}
use aw_bot.Core.UseCases.State.{Setting, UseCases}

abbrev pub without_faults : Setting → Setting
without_faults setting = record setting { env = quiet setting.env }

-- The sessions that the persistence gives for a chat and a user.
abbrev pub history : Setting → UseCases → String → String → List HistoricalAgentSession
history setting u scope user =
    setting.sessions_of (list_agent_sessions scope user ∷ u.controller.calls)

abbrev mode_of : AccessMode → Option AccessMode → AccessMode
mode_of default none = default
mode_of default (some mode) = mode

-- The session that a turn of the chat goes on in.
abbrev pub resumed : Env → String → String → HistoricalAgentSession → AgentSession
resumed env scope user session = record {
  agent_session_id = session.agent_session_id;
  private_chat_scope_id = scope;
  user_id = user;
  agent_name = session.agent_name;
  workspace = session.workspace;
  access_mode = mode_of env.access_mode session.access_mode;
}

abbrev after_resume : Setting → UseCases → String → String → HistoricalAgentSession → UseCases
after_resume setting u scope user session = record u {
  controller = record (u.controller) {
    fresh_session_scope_ids = assign scope false u.controller.fresh_session_scope_ids;
    selected_sessions =
        assign scope (some (resumed setting.env scope user session)) u.controller.selected_sessions;
    calls =
        save_agent_session (record {
          agent_session_id = session.agent_session_id;
          private_chat_scope_id = scope;
          user_id = user;
          agent_name = session.agent_name;
          workspace = session.workspace;
          access_mode = some (mode_of setting.env.access_mode session.access_mode);
          updated_at = setting.env.isoformat (setting.env.clock u.controller.clock_reads);
        })
        ∷ list_agent_sessions scope user
        ∷ u.controller.calls;
    clock_reads = suc u.controller.clock_reads;
  };
}
