-- ===== src/Readiness.antt =====
-- The readiness check: `clearReadinessTimers`, `cancelReadinessCheck` and `startReadinessCheck` of
-- frontend/src/main.tsx, its `check` from one `await` to the next.
pub mod Attempts
use channel_wire.Prelude.{ℕ, ◌+◌, Bool, false, Option, none, some, leb, nat_eq, if◌then◌else◌, ◌==◌}
use channel_wire.Types.{Health, checking, ready, failed}
use channel_wire.Json.{Json, str, num, Access, value, get}
use channel_wire.World.{ready_head, ready_body, ready_timeout, ready_retry}
use channel_wire.World.Setters
use channel_wire.World.Setters.{
  Action, ◌>>◌, ◌>>=◌, skip, when, branch, set_health, set_health_error, set_backend_readiness,
  clear_timeout,
}
use channel_wire.Stats.{is_ok}

abbrev pub readiness_max_attempts : ℕ
readiness_max_attempts = 6

abbrev pub readiness_retry_delay_ms : ℕ
readiness_retry_delay_ms = 2500

abbrev pub readiness_request_timeout_ms : ℕ
readiness_request_timeout_ms = 3000

abbrev clear_and : Option ℕ → Action → Action
clear_and none after w = w
clear_and (some t) after w = after (clear_timeout t w)

unfoldable pub clear_request_timer : Action
clear_request_timer = do
  timer ← λ w. w.refs.readiness_request_timer
  clear_and timer (Setters.put_readiness_request_timer none)

unfoldable pub clear_retry_timer : Action
clear_retry_timer = do
  timer ← λ w. w.refs.readiness_retry_timer
  clear_and timer (Setters.put_readiness_retry_timer none)

unfoldable pub clear_readiness_timers : Action
unfolding clear_request_timer clear_retry_timer
clear_readiness_timers = do clear_request_timer; clear_retry_timer

abbrev abort_ref : Option ℕ → Action
abort_ref none w = w
abort_ref (some c) w = Setters.abort c w

unfoldable pub cancel_readiness_check : Action
unfolding clear_readiness_timers
cancel_readiness_check = do
  run ← λ w. w.refs.readiness_run
  Setters.put_readiness_run (run + 1)
  controller ← λ w. w.refs.readiness_abort
  abort_ref controller
  Setters.put_readiness_abort none
  clear_readiness_timers

-- `check(attempt)` of a run, up to its first `await`: the request races a timer.
unfoldable pub check : ℕ → ℕ → Action
check run attempt = do
  controller ← λ w. w.browser.controller_count
  Setters.new_controller
  Setters.put_readiness_abort (some controller)
  request ← λ w. w.browser.task_count
  Setters.wait_for (ready_head run attempt controller)
  timer ← λ w. w.browser.timer_count
  Setters.set_timeout (ready_timeout request controller) readiness_request_timeout_ms
  Setters.put_readiness_request_timer (some timer)

unfoldable pub start_readiness_check : Action
unfolding cancel_readiness_check check
start_readiness_check = do
  cancel_readiness_check
  run ← λ w. w.refs.readiness_run
  set_backend_readiness checking
  set_health none
  set_health_error ""
  check run 1

abbrev is_controller : Option ℕ → ℕ → Bool
is_controller none c = false
is_controller (some d) c = nat_eq d c

-- The `finally` block.
unfoldable pub check_finally : ℕ → Action
unfolding clear_request_timer
check_finally controller = do
  clear_request_timer
  same ← λ w. is_controller w.refs.readiness_abort controller
  when same (Setters.put_readiness_abort none)

unfoldable pub retry_later : ℕ → ℕ → Action
retry_later run attempt = do
  timer ← λ w. w.browser.timer_count
  Setters.set_timeout (ready_retry run (attempt + 1)) readiness_retry_delay_ms
  Setters.put_readiness_retry_timer (some timer)

-- The `catch` block, and `finally` after it.
unfoldable pub check_failed : ℕ → ℕ → ℕ → Action
unfolding check_finally retry_later
check_failed run attempt controller = do
  current ← λ w. nat_eq w.refs.readiness_run run
  when current (
      if leb readiness_max_attempts attempt
      then (do set_health none; set_backend_readiness failed)
      else retry_later run attempt)
  check_finally controller

unfoldable pub check_responded : ℕ → ℕ → ℕ → ℕ → Action
unfolding check_failed
check_responded run attempt controller code =
    if is_ok code
    then Setters.wait_for (ready_body run attempt controller)
    else check_failed run attempt controller

abbrev health_of : Access → Access → Access → Option Health
health_of (value (str status)) (value (str host)) (value (num port)) =
    if status == "ok"
    then some (record { status = status; core_host = host; core_port = port })
    else none
health_of _ _ _ = none

-- The `Health` in a response that passes the tests of `check`.
unfoldable pub valid_health : Json → Option Health
unfolding get
valid_health body = health_of (get "status" body) (get "core_host" body) (get "core_port" body)

abbrev pub accept_health : Option Health → ℕ → ℕ → ℕ → Action
accept_health none run attempt controller = check_failed run attempt controller
accept_health (some health) run attempt controller = do
  current ← λ w. nat_eq w.refs.readiness_run run
  when current (do set_health (some health); set_backend_readiness ready)
  check_finally controller

unfoldable pub check_parsed : ℕ → ℕ → ℕ → Json → Action
unfolding check_failed check_finally
check_parsed run attempt controller body = accept_health (valid_health body) run attempt controller
