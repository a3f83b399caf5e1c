-- ===== src/Lib.antt =====
-- aw-bot: a bridge that runs coding agents for private chats (c_auto_bridge/, Python).
--
-- Parts, and the files that model them:
-- - run.py, agent_session.py, attachments.py, pending_request.py and agent_events.py of
--   c_auto_bridge/core/: Core/Types and Core/Events, a record or data type for each class and
--   Literal.
-- - c_auto_bridge/core/run_view.py and c_auto_bridge/core/run_view_reducer.py: Core/RunView,
--   with its results in Core/RunView/Fold and Core/RunView/Status.
-- - c_auto_bridge/core/queue.py: Core/Queue, with Core/Queue/Merge.
-- - c_auto_bridge/core/run_controller.py and c_auto_bridge/core/idle_timeout.py:
--   Core/Controller. State has the fields of RunController and ActiveRun, the ports' calls and
--   the monad; Timers, Sessions, Consume and Handlers have the methods; Machine drives them by
--   requests, events and timers. Invariant and Trace have the rules by which the methods are
--   checked: the one for any failure of ports, the other for none.
-- - c_auto_bridge/react/: React/Events and React/State; c_auto_bridge/feishu/run_view_sink.py's
--   conversions and _react_event of c_auto_bridge/store/file_run_persistence.py: React/Bridge;
--   c_auto_bridge/react/text_renderer.py: React/TextRenderer.
-- - c_auto_bridge/utils/atomic_file.py, c_auto_bridge/store/models.py,
--   c_auto_bridge/session/models.py: Store/Files and Store/Models;
--   c_auto_bridge/store/file_store.py: Store/FileStore, with Recovery and Indexed;
--   c_auto_bridge/store/file_run_persistence.py: Store/Persistence, with Copies.
-- - c_auto_bridge/core/workspace.py and the file finder: Core/Workspaces, in which what pathlib
--   answers on a path is a parameter. c_auto_bridge/core/use_cases.py and
--   c_auto_bridge/react/pending.py: Core/UseCases. Command tests a text for the commands in
--   their order, State has the fields and results, Operations and Dispatch what a message does,
--   on top of the controller; Frame has the rules for what stays.
-- - c_auto_bridge/agent/codex_translator.py: Agent/Codex/Translator;
--   c_auto_bridge/agent/opencode_translator.py: Agent/OpenCode/Translator; both read JSON by
--   Agent/Payload. CodexEventRouter and CodexTurnStream of
--   c_auto_bridge/agent/codex_app_server.py: Agent/Codex/Router. Of
--   c_auto_bridge/agent/opencode_server.py: Agent/OpenCode/Decisions has what a permission is
--   answered with, Agent/OpenCode/Router has the queues of OpenCodeEventRouter, apart from
--   events of questions and of unknown types, and Agent/OpenCode/Parts what it keeps about the
--   parts of messages; Agent/OpenCode/Replies has what is sent for an answer;
--   Agent/OpenCode/Turn has the events of OpenCodeTurnStream, whose loop takes the events of its
--   queue and what the server answers to session_messages, taken to be the same each time.
-- - Prelude: helpers, and the monad of methods that may raise. Tests: the theorems at concrete
--   inputs.
--
-- How code becomes definitions. A method of the controller is an action: it takes the state and
-- gives a result or an exception, with the state that it leaves, also where it raises. A
-- coroutine is cut where it waits for the next event of an agent turn (consume_event,
-- consume_end), for the completion future (stop_run, then reset_rest or change_rest) or for the
-- turn that a declined approval goes on with (finish_reset_after). Awaits of the ports
-- themselves are taken to let no other work on the same chat come in between. A method that goes
-- on to wait gives `none`. The agent, persistence, sink and timer ports are not code of the
-- controller: each call of one is recorded, newest first, and an environment says what it
-- answers and whether it raises. Dictionaries of the controller are functions of the chat. The
-- n-th reading of the clock is a parameter, in microseconds; the merge window of 1.5 s is
-- 1500000. A Literal of strings is a data type with a constructor for each string. JSON values
-- are a data type; a float in one keeps its literal.
-- Loops over lists are structural recursion, so no fuel is needed. Files are named records: what
-- json.dumps writes and json.loads reads back is taken to be the record, and the order of two
-- time stamps is a parameter. Logging is left out.
--
-- Not modelled: sockets, processes, HTTP and the Feishu SDK (the adapters and clients of
-- c_auto_bridge/agent/ apart from what is named above, and c_auto_bridge/feishu/), the wiring
-- and command line (c_auto_bridge/app/, c_auto_bridge/cli*.py, c_auto_bridge/config*.py), the
-- layout of cards, and the earlier c_auto_bridge/bot/ layer.
mod Prelude
pub mod Core
pub mod React
pub mod Store
pub mod Agent
mod Tests
