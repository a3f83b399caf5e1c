-- ===== src/Core/Controller/Invariant/Timers.antt =====
-- The timer methods keep the invariant.
use aw_bot.Prelude.{ℕ, String, true, Option, none, some, [], ◌||◌, is_some}
use aw_bot.Prelude.Action.Ensures.{Ensures-bind, Ensures-if}
use aw_bot.Core.Controller.State.{Env, ActiveRun, Controller, cancel, schedule, stream_stop}
use aw_bot.Core.Controller.Timers.{
  get_idle_timeout, cancel_handle, cancel_of, cancel_idle_timeout, set_handle, schedule_after,
  arm_of, arm_idle_timeout, time_out, handle_idle_timeout, set_idle_timeout, disable_idle_timeout,
  clear_idle_timeout_override,
}
use aw_bot.Core.Controller.Invariant.{
  IsWf, IsWf-flags, Holds, Sound, put_active-Holds, override_timeout-Holds, pure-Holds, call-Holds,
  read-Holds, stored-Holds, weaken-Holds, loosen-Holds, new_handle-Holds,
}

module _ (env : Env) (scope : String) (s0 : Controller) where
  get_idle_timeout-Sound : Sound scope s0 (get_idle_timeout env scope)
  unfolding get_idle_timeout
  get_idle_timeout-Sound = read-Holds scope s0 (λ s. pure-Holds scope s0 _)

  cancel_handle-Sound :
      (a : ActiveRun) (h : Option ℕ)
      → IsWf scope a
      → Holds scope s0 (some a) (cancel_handle env scope a h) none
  unfolding cancel_handle
  cancel_handle-Sound a none w = loosen-Holds scope s0 (pure-Holds scope s0 tt)
  cancel_handle-Sound a (some h) w = Ensures-bind (call-Holds scope s0 env (cancel h)) (λ _.
      loosen-Holds scope s0 (
        put_active-Holds scope s0 _
          (λ s p. IsWf-flags a a.queued_messages a.stop_requested a.timed_out none w)))

  pub cancel_idle_timeout-Sound : Sound scope s0 (cancel_idle_timeout env scope)
  unfolding cancel_idle_timeout cancel_of
  cancel_idle_timeout-Sound =
      stored-Holds scope s0 (cancel_of env scope) (pure-Holds scope s0 tt)
        (λ a w. cancel_handle-Sound a a.idle_timeout_handle w)

  schedule_after-Sound : (delay : Option ℕ) → Sound scope s0 (schedule_after env scope delay)
  unfolding schedule_after set_handle
  schedule_after-Sound none = pure-Holds scope s0 tt
  schedule_after-Sound (some delay) = Ensures-bind (new_handle-Holds scope s0) (λ handle.
      Ensures-bind (call-Holds scope s0 env (schedule handle delay scope)) (λ _.
        stored-Holds scope s0 (λ found. set_handle env scope found handle) (pure-Holds scope s0 tt)
          (λ a w. loosen-Holds scope s0 (
            put_active-Holds scope s0 _ (λ s p.
              IsWf-flags a a.queued_messages a.stop_requested a.timed_out (some handle) w)))))

  pub arm_idle_timeout-Sound : Sound scope s0 (arm_idle_timeout env scope)
  unfolding arm_idle_timeout arm_of
  arm_idle_timeout-Sound = stored-Holds scope s0 (arm_of env scope) (pure-Holds scope s0 tt) (λ a w.
      weaken-Holds scope s0 (
        Ensures-bind cancel_idle_timeout-Sound
          (λ _. Ensures-bind get_idle_timeout-Sound (λ t. schedule_after-Sound t))))

  pub handle_idle_timeout-Sound : Sound scope s0 (handle_idle_timeout env scope)
  unfolding handle_idle_timeout time_out
  handle_idle_timeout-Sound =
      stored-Holds scope s0 (time_out env scope) (pure-Holds scope s0 tt) (λ a w.
        Ensures-if (a.timed_out || is_some a.run_view.pending)
          (λ _. loosen-Holds scope s0 (pure-Holds scope s0 tt))
          (λ _.
            Ensures-bind
              (put_active-Holds scope s0 _
                (λ s p. IsWf-flags a [] a.stop_requested true a.idle_timeout_handle w))
              (λ _. loosen-Holds scope s0 (call-Holds scope s0 env (stream_stop a.turn_stream)))))

  pub set_idle_timeout-Sound : (timeout : ℕ) → Sound scope s0 (set_idle_timeout env scope timeout)
  unfolding set_idle_timeout
  set_idle_timeout-Sound timeout =
      Ensures-bind (override_timeout-Holds scope s0 (some (some timeout)))
        (λ _. arm_idle_timeout-Sound)

  pub disable_idle_timeout-Sound : Sound scope s0 (disable_idle_timeout env scope)
  unfolding disable_idle_timeout
  disable_idle_timeout-Sound =
      Ensures-bind (override_timeout-Holds scope s0 (some none)) (λ _. cancel_idle_timeout-Sound)

  pub clear_idle_timeout_override-Sound : Sound scope s0 (clear_idle_timeout_override env scope)
  unfolding clear_idle_timeout_override
  clear_idle_timeout_override-Sound =
      Ensures-bind (override_timeout-Holds scope s0 none) (λ _. arm_idle_timeout-Sound)
