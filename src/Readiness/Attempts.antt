-- ===== src/Readiness/Attempts.antt =====
-- The readiness check of frontend/src/main.tsx ends: six requests that fail in turn lead to the
-- state "failed", and a request that succeeds leads to "ready".
use channel_wire.Prelude.{
  ◌≢◌, ℕ, zero, suc, ◌+◌, ◌≤◌, ◌<◌, String, true, false, some, none, ◌≡◌, refl, arith, nat_eq, leb,
}
use channel_wire.Types.{ready, failed, Health}
use channel_wire.Json.{Json}
use channel_wire.World.Setters
use channel_wire.World.{World, ready_head}
use channel_wire.Readiness.{
  readiness_max_attempts, check, check_failed, check_finally, retry_later, check_parsed,
  valid_health, start_readiness_check, cancel_readiness_check,
}
use channel_wire.Loop.{Event, step, fire}
use channel_wire.Loop.Settle.{resume, rejected}

-- The request `k` of the current run waits, at an attempt, and races a timer.
pub record Waits (attempt k : ℕ) (w : World) : Type 0 where
  pub controller : ℕ
  pub timer : ℕ
  pub waiting : w.browser.tasks k ≡ some (ready_head w.refs.readiness_run attempt controller)
  pub races : w.refs.readiness_request_timer ≡ some timer
  pub older : timer < w.browser.timer_count

nat_eq_refl : (n : ℕ) → nat_eq n n ≡ true
nat_eq_refl n = ground arith

-- The request fails, and the timer that this sets fires.
unfoldable pub retry : ℕ → String → World → World
retry k reason w =
    step (Event.fired w.browser.timer_count) (step (Event.settled k (rejected reason)) w)

failed_try :
    (attempt controller : ℕ) (w : World)
    → leb readiness_max_attempts attempt ≡ false
    → check_failed w.refs.readiness_run attempt controller w
      ≡ check_finally controller (retry_later w.refs.readiness_run attempt w)
unfolding check_failed
failed_try attempt controller w few = rw (nat_eq_refl w.refs.readiness_run, few)

failed_last :
    (attempt controller : ℕ) (w : World)
    → leb readiness_max_attempts attempt ≡ true
    → check_failed w.refs.readiness_run attempt controller w
      ≡ check_finally controller (Setters.set_backend_readiness failed (Setters.set_health none w))
unfolding check_failed
failed_last attempt controller w last = rw (nat_eq_refl w.refs.readiness_run, last)

settled_try :
    (attempt k : ℕ) (reason : String) (w : World) (h : Waits attempt k w)
    → leb readiness_max_attempts attempt ≡ false
    → step (Event.settled k (rejected reason)) w
      ≡ check_finally h.controller (retry_later w.refs.readiness_run attempt (Setters.end_task k w))
unfolding step resume
settled_try attempt k reason w h few =
    rw h.waiting (failed_try attempt h.controller (Setters.end_task k w) few)

settled_last :
    (attempt k : ℕ) (reason : String) (w : World) (h : Waits attempt k w)
    → leb readiness_max_attempts attempt ≡ true
    → step (Event.settled k (rejected reason)) w
      ≡ check_finally h.controller
          (Setters.set_backend_readiness failed (Setters.set_health none (Setters.end_task k w)))
unfolding step resume
settled_last attempt k reason w h last =
    rw h.waiting (failed_last attempt h.controller (Setters.end_task k w) last)

fired-Waits :
    (attempt controller timer : ℕ) (w : World)
    → w.refs.readiness_request_timer ≡ some timer
    → timer < w.browser.timer_count
    → Waits (attempt + 1) w.browser.task_count (
        step
          (Event.fired w.browser.timer_count)
          (check_finally controller (retry_later w.refs.readiness_run attempt w)))
unfolding step fire check check_finally retry_later
fired-Waits attempt controller timer w races older = record {
  controller = w.browser.controller_count;
  timer = w.browser.timer_count + 1;
  waiting = ground arith;
  races = ground arith;
  older = ground arith;
}

retry-Waits :
    (attempt k : ℕ) (reason : String) (w : World)
    → attempt < readiness_max_attempts
    → Waits attempt k w
    → Waits (attempt + 1) w.browser.task_count (retry k reason w)
unfolding retry
retry-Waits attempt k reason w few h =
    rw (settled_try attempt k reason w h (ground arith))
      (fired-Waits attempt h.controller h.timer (Setters.end_task k w) h.races h.older)

-- An outage: each request in turn is rejected, and the timers of all but the last fire.
unfoldable pub outage : ℕ → ℕ → String → World → World
outage zero k reason w = step (Event.settled k (rejected reason)) w
outage (suc n) k reason w = outage n w.browser.task_count reason (retry k reason w)

last-failed :
    (attempt k : ℕ) (reason : String) (w : World)
    → readiness_max_attempts ≤ attempt
    → Waits attempt k w
    → (step (Event.settled k (rejected reason)) w).page.backend_readiness ≡ failed
unfolding check_finally
last-failed attempt k reason w last h =
    rw (settled_last attempt k reason w h (ground arith)) (ground arith)

outage-failed_from :
    (n attempt k : ℕ) (reason : String) (w : World)
    → n + attempt ≡ readiness_max_attempts
    → Waits attempt k w
    → (outage n k reason w).page.backend_readiness ≡ failed
unfolding outage
outage-failed_from zero attempt k reason w e h = last-failed attempt k reason w (omega arith) h
outage-failed_from (suc n) attempt k reason w e h =
    outage-failed_from n (attempt + 1) w.browser.task_count reason (retry k reason w) (omega arith)
      (retry-Waits attempt k reason w (omega arith) h)

start-Waits : (w : World) → Waits 1 w.browser.task_count (start_readiness_check w)
unfolding start_readiness_check check cancel_readiness_check
start-Waits w = record {
  controller = w.browser.controller_count;
  timer = w.browser.timer_count;
  waiting = ground arith;
  races = ground arith;
  older = ground arith;
}

-- A check that is started, in any state, ends as "failed" after an outage of six requests.
pub outage-failed :
    (reason : String) (w : World)
    → (outage 5 w.browser.task_count reason (start_readiness_check w)).page.backend_readiness
      ≡ failed
outage-failed reason w =
    outage-failed_from 5 1 w.browser.task_count reason (start_readiness_check w) refl
      (start-Waits w)

-- A response that passes the tests ends the current run as "ready" with the health that it holds;
-- one for an earlier run changes neither.
pub check_parsed-ready :
    (run attempt controller : ℕ) (body : Json) (health : Health) (w : World)
    → valid_health body ≡ some health
    → let v = check_parsed run attempt controller body w in
      (w.refs.readiness_run ≡ run
        → (v.page.backend_readiness ≡ ready) × (v.page.health ≡ some health))
      × (w.refs.readiness_run ≢ run
          → (v.page.backend_readiness ≡ w.page.backend_readiness) × (v.page.health ≡ w.page.health))
unfolding check_parsed check_finally
check_parsed-ready run attempt controller body health w e = rw e (ground arith)
