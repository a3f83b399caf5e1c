-- ===== src/Core/Controller/Timers.antt =====
-- The idle timeout of a run: `_arm_idle_timeout`, `_cancel_idle_timeout`, `_handle_idle_timeout`
-- and the overrides of a chat.
use aw_bot.Prelude.{ℕ, suc, String, true, Option, none, some, [], ◌||◌, is_some, if◌then◌else◌}
use aw_bot.Prelude.Action.{return, pure, get, ◌>>=◌, ◌>>◌}
use aw_bot.Core.Controller.State.{
  Env, ActiveRun, M, cancel, schedule, stream_stop, put_active, override_timeout, call,
}

-- A handle is the number of timers scheduled before it.
unfoldable pub new_handle : M ℕ
new_handle s = (return s.timers, record s { timers = suc s.timers })

module _ (env : Env) where
  unfoldable pub idle_timeout_of : Option (Option ℕ) → Option ℕ
  idle_timeout_of none = env.default_idle_timeout
  idle_timeout_of (some value) = value

  -- get_idle_timeout_seconds
  unfoldable pub get_idle_timeout : String → M (Option ℕ)
  get_idle_timeout scope = do s ← get; pure (idle_timeout_of (s.idle_timeout_overrides scope))

  unfoldable pub cancel_handle : String → ActiveRun → Option ℕ → M Unit
  cancel_handle scope active_run none = pure tt
  cancel_handle scope active_run (some handle) = do
    call env (cancel handle)
    put_active scope (some (record active_run { idle_timeout_handle = none }))

  unfoldable pub cancel_of : String → Option ActiveRun → M Unit
  cancel_of scope none = pure tt
  cancel_of scope (some active_run) = cancel_handle scope active_run active_run.idle_timeout_handle

  unfoldable pub cancel_idle_timeout : String → M Unit
  cancel_idle_timeout scope = do s ← get; cancel_of scope (s.active_runs scope)

  unfoldable pub set_handle : String → Option ActiveRun → ℕ → M Unit
  set_handle scope none handle = pure tt
  set_handle scope (some active_run) handle =
      put_active scope (some (record active_run { idle_timeout_handle = some handle }))

  unfoldable pub schedule_after : String → Option ℕ → M Unit
  schedule_after scope none = pure tt
  schedule_after scope (some delay) = do
    handle ← new_handle
    call env (schedule handle delay scope)
    s ← get
    set_handle scope (s.active_runs scope) handle

  unfoldable pub arm_of : String → Option ActiveRun → M Unit
  arm_of scope none = pure tt
  arm_of scope (some _) = do
    cancel_idle_timeout scope
    timeout ← get_idle_timeout scope
    schedule_after scope timeout

  unfoldable pub arm_idle_timeout : String → M Unit
  arm_idle_timeout scope = do s ← get; arm_of scope (s.active_runs scope)

  unfoldable pub time_out : String → Option ActiveRun → M Unit
  time_out scope none = pure tt
  time_out scope (some active_run) =
      if active_run.timed_out || is_some active_run.run_view.pending then pure tt else do
        put_active scope (some (record active_run { timed_out = true; queued_messages = [] }))
        call env (stream_stop active_run.turn_stream)

  unfoldable pub handle_idle_timeout : String → M Unit
  handle_idle_timeout scope = do s ← get; time_out scope (s.active_runs scope)

  unfoldable pub set_idle_timeout : String → ℕ → M Unit
  set_idle_timeout scope timeout = do
    override_timeout scope (some (some timeout))
    arm_idle_timeout scope

  unfoldable pub disable_idle_timeout : String → M Unit
  disable_idle_timeout scope = do override_timeout scope (some none); cancel_idle_timeout scope

  unfoldable pub clear_idle_timeout_override : String → M Unit
  clear_idle_timeout_override scope = do override_timeout scope none; arm_idle_timeout scope
