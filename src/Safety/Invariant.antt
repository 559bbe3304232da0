-- ===== src/Safety/Invariant.antt =====
-- What holds of the state of `App` (frontend/src/main.tsx) between two events. The invariant is
-- about one socket `s` and one number `k` of a task and of a timer; it holds for all of them.
use channel_wire.Prelude.{
  arith, ℕ, ◌≤◌, String, Bool, true, false, Option, none, some, length, ◌≡◌, ◌≢◌, if◌then◌else◌,
}
use channel_wire.World.Setters.{Action, when, branch, wait_for}
use channel_wire.World.{
  World, StatsCaller, sign_in, Task, auth_head, auth_body, stats_head, stats_body, core_head,
  core_body, channels_head, channels_body, ready_head, ready_body, Timer, TimerAction, ready_retry,
}
use channel_wire.Connection.{is_live}
use channel_wire.Log.{message_limit}
use channel_wire.Readiness.{readiness_max_attempts}

abbrev pub task_attempt : Option Task → ℕ
task_attempt (some (ready_head run attempt controller)) = attempt
task_attempt (some (ready_body run attempt controller)) = attempt
task_attempt _ = 0

abbrev pub action_attempt : TimerAction → ℕ
action_attempt (ready_retry run attempt) = attempt
action_attempt _ = 0

abbrev pub timer_attempt : Option Timer → ℕ
timer_attempt none = 0
timer_attempt (some timer) = action_attempt timer.action

-- The `token` that the continuation of a sign-in has captured.
abbrev pub caller_captured : StatsCaller → String
caller_captured (sign_in token captured line) = captured
caller_captured _ = ""

abbrev pub task_captured : Option Task → String
task_captured (some (auth_head path username captured)) = captured
task_captured (some (auth_body path username captured)) = captured
task_captured (some (stats_head token caller)) = caller_captured caller
task_captured (some (stats_body token caller)) = caller_captured caller
task_captured (some (core_head token caller stats)) = caller_captured caller
task_captured (some (core_body token caller stats)) = caller_captured caller
task_captured (some (channels_head token caller)) = caller_captured caller
task_captured (some (channels_body token caller)) = caller_captured caller
task_captured _ = ""

-- `q` says that nobody has signed in since the user signed out. `referred` and `allowed`: a socket that is connecting or open is the one of `socketRef`, and
-- reconnecting is allowed. `token_kept` and `channel_kept`: the state and the references agree.
pub record Inv (q : Bool) (s k : ℕ) (w : World) : Type 0 where
  pub referred : is_live (w.browser.sockets s).state ≡ true → w.refs.socket ≡ some s
  pub allowed : is_live (w.browser.sockets s).state ≡ true → w.refs.allow_reconnect ≡ true
  pub connected_ref : w.page.connected ≡ true → w.refs.socket ≢ none
  pub token_kept : w.page.token ≡ w.refs.token
  pub channel_kept : w.page.active_channel ≡ w.refs.active_channel
  pub messages_few : length w.page.messages ≤ message_limit
  pub samples_few : length w.page.monitor_samples ≤ 30
  pub task_bounded : task_attempt (w.browser.tasks k) ≤ readiness_max_attempts
  pub timer_bounded : timer_attempt (w.browser.timers k) ≤ readiness_max_attempts
  pub out_allow : q ≡ true → w.refs.allow_reconnect ≡ false
  pub out_token : q ≡ true → w.refs.token ≡ ""
  pub out_storage : q ≡ true → w.browser.storage ≡ none
  pub captured_none : task_captured (w.browser.tasks k) ≡ ""

-- A choice between two actions keeps the invariant if both do.
module _ {q : Bool} {s k : ℕ} where
  pub when-Inv :
      (b : Bool) (f : Action) (w : World) → Inv q s k w → Inv q s k (f w) → Inv q s k (when b f w)
  when-Inv true f w h g = g
  when-Inv false f w h g = h

  pub if-Inv :
      (b : Bool) (f g : Action) (w : World)
      → Inv q s k (f w)
      → Inv q s k (g w)
      → Inv q s k ((if b then f else g) w)
  if-Inv true f g w p r = p
  if-Inv false f g w p r = r

  pub branch-Inv :
      (b : Bool) (f g : Action) (w : World)
      → Inv q s k (f w)
      → Inv q s k (g w)
      → Inv q s k (branch b f g w)
  branch-Inv true f g w p r = p
  branch-Inv false f g w p r = r

  -- A new wait keeps the invariant, if its task does.
  pub wait_for-Inv :
      (task : Task) (w : World)
      → task_captured (some task) ≡ ""
      → task_attempt (some task) ≤ readiness_max_attempts
      → Inv q s k w
      → Inv q s k (wait_for task w)
  wait_for-Inv task w own few h = ground arith
