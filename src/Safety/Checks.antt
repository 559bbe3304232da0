-- ===== src/Safety/Checks.antt =====
-- The readiness check, the account requests and the histories (frontend/src/main.tsx) keep the
-- invariant.
use channel_wire.Prelude.{
  false, Bool, ℕ, ◌+◌, ◌≤◌, String, none, some, List, ◌≡◌, arith, Option, map, leb, nat_eq,
  if◌then◌else◌,
}
use channel_wire.World.Setters.{◌>>◌}
use channel_wire.Types.{checking, failed, HistoryItem, Health}
use channel_wire.Json.{Json}
use channel_wire.World.{World, AuthPath, sign_in}
use channel_wire.World.Setters
use channel_wire.Errors.{Body, response_error}
use channel_wire.History.{
  error_parsed, history_responded, history_parsed, channel_line, dm_history_responded,
  dm_history_parsed, direct_line, refresh_health, health_responded, health_failed, health_parsed,
  show_error,
}
use channel_wire.Account.{authenticate, auth_unreachable, auth_responded, auth_parsed, auth_line}
use channel_wire.Readiness.{
  readiness_max_attempts, clear_readiness_timers, cancel_readiness_check, check,
  start_readiness_check, check_finally, retry_later, check_failed, check_responded, check_parsed,
  valid_health, accept_health,
}
use channel_wire.Safety.Invariant.{Inv, when-Inv}
use channel_wire.Safety.Connections.{start_session-Inv, replace_messages-Inv}
use channel_wire.Safety.Requests.{refresh_stats-Inv}

module _ (q : Bool) (s k : ℕ) where
  clear_readiness_timers-Inv : (w : World) → Inv q s k w → Inv q s k (clear_readiness_timers w)
  unfolding clear_readiness_timers
  clear_readiness_timers-Inv w h = ground arith

  pub cancel_readiness_check-Inv : (w : World) → Inv q s k w → Inv q s k (cancel_readiness_check w)
  unfolding cancel_readiness_check
  cancel_readiness_check-Inv w h = ground arith

  pub check-Inv :
      (run attempt : ℕ) (w : World)
      → attempt ≤ readiness_max_attempts
      → Inv q s k w
      → Inv q s k (check run attempt w)
  unfolding check
  check-Inv run attempt w few h = ground arith

  checking_shown-Inv :
      (w : World)
      → Inv q s k w
      → Inv q s k (
          (do
            Setters.set_backend_readiness checking
            Setters.set_health none
            Setters.set_health_error "")
            w)
  checking_shown-Inv w h = ground arith

  pub start_readiness_check-Inv : (w : World) → Inv q s k w → Inv q s k (start_readiness_check w)
  unfolding start_readiness_check
  start_readiness_check-Inv w h =
      check-Inv _ 1 _ (omega arith) (checking_shown-Inv _ (cancel_readiness_check-Inv w h))

  check_finally-Inv :
      (controller : ℕ) (w : World) → Inv q s k w → Inv q s k (check_finally controller w)
  unfolding check_finally
  check_finally-Inv controller w h = ground arith

  retry_later-Inv :
      (run attempt : ℕ) (w : World)
      → attempt + 1 ≤ readiness_max_attempts
      → Inv q s k w
      → Inv q s k (retry_later run attempt w)
  unfolding retry_later
  retry_later-Inv run attempt w few h = ground arith

  verdict-Inv :
      (run attempt : ℕ) (w : World)
      → Inv q s k w
      → Inv q s k (
          (if leb readiness_max_attempts attempt
              then (do Setters.set_health none; Setters.set_backend_readiness failed)
              else retry_later run attempt)
            w)
  verdict-Inv run attempt w h = ground (arith, retry_later-Inv run attempt w)

  pub check_failed-Inv :
      (run attempt controller : ℕ) (w : World)
      → Inv q s k w
      → Inv q s k (check_failed run attempt controller w)
  unfolding check_failed
  check_failed-Inv run attempt controller w h =
      check_finally-Inv controller _
        (when-Inv (nat_eq w.refs.readiness_run run) _ w h (verdict-Inv run attempt w h))

  module _ (run attempt controller : ℕ) (few : attempt ≤ readiness_max_attempts) where
    pub check_responded-Inv :
        (code : ℕ) (w : World)
        → Inv q s k w
        → Inv q s k (check_responded run attempt controller code w)
    unfolding check_responded
    check_responded-Inv code w h = ground (arith, check_failed-Inv run attempt controller w h)

  accept_health-Inv :
      (health : Option Health) (run attempt controller : ℕ) (w : World)
      → Inv q s k w
      → Inv q s k (accept_health health run attempt controller w)
  accept_health-Inv none run attempt controller w h = check_failed-Inv run attempt controller w h
  accept_health-Inv (some health) run attempt controller w h =
      check_finally-Inv controller _ (ground arith)

  pub check_parsed-Inv :
      (run attempt controller : ℕ) (body : Json) (w : World)
      → Inv q s k w
      → Inv q s k (check_parsed run attempt controller body w)
  unfolding check_parsed
  check_parsed-Inv run attempt controller body w h =
      accept_health-Inv (valid_health body) run attempt controller w h

  pub authenticate-Inv :
      (path : AuthPath) (w : World)
      → w.page.token ≡ ""
      → Inv q s k w
      → Inv q s k (authenticate path w)
  unfolding authenticate
  authenticate-Inv path w out h = ground arith

  pub auth_responded-Inv :
      (path : AuthPath) (username captured : String) (code : ℕ) (w : World)
      → captured ≡ ""
      → Inv q s k w
      → Inv q s k (auth_responded path username captured code w)
  unfolding auth_responded
  auth_responded-Inv path username captured code w own h = ground arith

  pub auth_parsed-Inv :
      (path : AuthPath) (username captured token : String) (w : World)
      → captured ≡ ""
      → q ≡ false
      → Inv q s k w
      → Inv q s k (auth_parsed path username captured token w)
  unfolding auth_parsed
  auth_parsed-Inv path username captured token w own in_use h =
      refresh_stats-Inv q s k token (sign_in token captured (auth_line path username)) own _
        (start_session-Inv q s k token username w in_use h)

  show_error-Inv : (t : Option String) (w : World) → Inv q s k w → Inv q s k (show_error t w)
  show_error-Inv none w h = h
  show_error-Inv (some t) w h = ground arith

  pub error_parsed-Inv : (body : Body) (w : World) → Inv q s k w → Inv q s k (error_parsed body w)
  unfolding error_parsed
  error_parsed-Inv body w h = show_error-Inv (response_error body) w h

  pub auth_unreachable-Inv : (w : World) → Inv q s k w → Inv q s k (auth_unreachable w)
  unfolding auth_unreachable
  auth_unreachable-Inv w h = ground arith

  pub history_responded-Inv :
      (channel : String) (code : ℕ) (w : World)
      → Inv q s k w
      → Inv q s k (history_responded channel code w)
  unfolding history_responded
  history_responded-Inv channel code w h = ground arith

  pub history_parsed-Inv :
      (channel : String) (items : List HistoryItem) (w : World)
      → Inv q s k w
      → Inv q s k (history_parsed channel items w)
  unfolding history_parsed
  history_parsed-Inv channel items w h =
      replace_messages-Inv q s k (map (channel_line channel) items) w h

  pub dm_history_responded-Inv :
      (code : ℕ) (w : World) → Inv q s k w → Inv q s k (dm_history_responded code w)
  unfolding dm_history_responded
  dm_history_responded-Inv code w h = ground arith

  pub dm_history_parsed-Inv :
      (items : List HistoryItem) (w : World) → Inv q s k w → Inv q s k (dm_history_parsed items w)
  unfolding dm_history_parsed
  dm_history_parsed-Inv items w h = replace_messages-Inv q s k (map direct_line items) w h

  pub refresh_health-Inv : (w : World) → Inv q s k w → Inv q s k (refresh_health w)
  unfolding refresh_health
  refresh_health-Inv w h = ground arith

  pub health_failed-Inv : (w : World) → Inv q s k w → Inv q s k (health_failed w)
  unfolding health_failed
  health_failed-Inv w h = ground arith

  pub health_responded-Inv :
      (code : ℕ) (w : World) → Inv q s k w → Inv q s k (health_responded code w)
  unfolding health_responded
  health_responded-Inv code w h = ground arith

  pub health_parsed-Inv :
      (health : Health) (w : World) → Inv q s k w → Inv q s k (health_parsed health w)
  unfolding health_parsed
  health_parsed-Inv health w h = ground arith
