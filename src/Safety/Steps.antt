-- ===== src/Safety/Steps.antt =====
-- Every event keeps the invariant of the dashboard (frontend/src/main.tsx), and the first render
-- establishes it.
use channel_wire.Prelude.{
  or-eq-false, not, ℕ, ◌≤◌, String, Bool, true, false, not, none, some, List, [], ◌∷◌, ◌≡◌, refl,
  arith, Option, Bool-cases, inl, inr,
}
use channel_wire.Json.{Codec}
use channel_wire.Text.{is_empty}
use channel_wire.World.{
  World, AuthPath, Task, ready_head, Timer, TimerAction, reconnect, request_list, ready_timeout,
  ready_retry, refresh_button, restore,
}
use channel_wire.World.Setters
use channel_wire.World.Setters.{Action, end_task}
use channel_wire.Gateway.{handle_gateway_event}
use channel_wire.Connection.{is_open}
use channel_wire.Loop.{signs_in, any_signs_in, is_closed}
use channel_wire.Loop.{Event, step, run, fire, fire_timer, time_out, restore_session, unmount}
use channel_wire.Loop.Controls.{Control, is_offered, press}
use channel_wire.Safety.Invariant.{Inv, when-Inv}
use channel_wire.Safety.Connections
use channel_wire.Safety.Requests
use channel_wire.Safety.Handlers
use channel_wire.Safety.Checks
use channel_wire.Safety.Resume.{settle-Inv, end_task-Inv}
use channel_wire.Safety.Invariant.{action_attempt, timer_attempt}
use channel_wire.Session.{StoredSession, read_stored_session}
use channel_wire.World.Setters.{when, ◌>>◌, ◌>>=◌}
use channel_wire.World.{open_state, closed}
use channel_wire.Loop.{is_connecting, set_state}
use channel_wire.Connection.{on_open, on_close, on_ref}
use channel_wire.Loop.{restore_with, clear_reconnect}
use channel_wire.Loop.Start.{start, mount}

-- The invariant of all sockets, tasks and timers.
abbrev pub Holds : Bool → World → Type 0
Holds q w = (s k : ℕ) → Inv q s k w

is_empty-eq : (t : String) → is_empty t ≡ true → t ≡ ""
is_empty-eq String.[] h = refl
is_empty-eq (String.◌∷◌ c t) h = cc

account-token :
    (path : AuthPath) (w : World)
    → is_offered (Control.account_button path) w ≡ true
    → w.page.token ≡ ""
unfolding is_offered
account-token path w shown = is_empty-eq w.page.token (ground arith)

module _ (q : Bool) (s k : ℕ) where
  -- A control keeps the invariant where the page offers it.
  press-Inv :
      (control : Control) (w : World)
      → is_offered control w ≡ true
      → Inv q s k w
      → Inv q s k (press control w)
  unfolding press
  press-Inv (Control.account_button path) w shown h =
      Checks.authenticate-Inv q s k path w (account-token path w shown) h
  press-Inv Control.sign_out w shown h = Connections.logout-Inv q s k w h
  press-Inv Control.try_again w shown h = Checks.start_readiness_check-Inv q s k w h
  press-Inv Control.refresh w shown h =
      Requests.refresh_stats-Inv q s k _ refresh_button refl _ (Checks.refresh_health-Inv q s k w h)
  press-Inv Control.refresh_channels w shown h = Connections.request_channels-Inv q s k w h
  press-Inv Control.refresh_participants w shown h = Connections.request_users-Inv q s k w h
  press-Inv Control.join_form w shown h = Handlers.join_channel-Inv q s k w h
  press-Inv Control.chat_form w shown h = Handlers.send_chat-Inv q s k w h
  press-Inv Control.direct_form w shown h = Handlers.send_direct-Inv q s k w h
  press-Inv Control.load_history_button w shown h = Handlers.load_history-Inv q s k w h
  press-Inv Control.load_direct_button w shown h = Handlers.load_direct_history-Inv q s k w h
  press-Inv Control.view_commands w shown h = Handlers.show_help-Inv q s k w h
  press-Inv Control.clear_view w shown h = Connections.clear_messages-Inv q s k w h
  press-Inv Control.dismiss w shown h = ground arith
  press-Inv (Control.typed input text) w shown h = ground arith

  used-Inv :
      (control : Control) (w : World)
      → Inv q s k w
      → Inv q s k (when (is_offered control w) (press control) w)
  used-Inv control w h = elim (Bool-cases (is_offered control w)) [
    | inl shown ↦ rw shown (press-Inv control w shown h)
    | inr hidden ↦ rw hidden h
  ]

  abort-Inv : (c : ℕ) (w : World) → Inv q s k w → Inv q s k (Setters.abort c w)
  abort-Inv c w h = ground arith

  forget_retry-Inv :
      (w : World) → Inv q s k w → Inv q s k (Setters.put_readiness_retry_timer none w)
  forget_retry-Inv w h = ground arith

  clear_timeout-Inv : (t : ℕ) (w : World) → Inv q s k w → Inv q s k (Setters.clear_timeout t w)
  clear_timeout-Inv t w h = ground arith

  started-Inv : (w : World) → Inv q s k w → Inv q s k (Setters.put_restored_session_started true w)
  started-Inv w h = ground arith

  close_socket-Inv : (r : ℕ) (w : World) → Inv q s k w → Inv q s k (Setters.close_socket r w)
  close_socket-Inv r w h = ground arith

  time_out-Inv :
      (task : Option Task) (request : ℕ) (w : World)
      → Inv q s k w
      → Inv q s k (time_out task request w)
  time_out-Inv (some (ready_head run attempt controller)) request w h =
      Checks.check_failed-Inv q s k run attempt controller _ (end_task-Inv q s k request w h)
  time_out-Inv _ request w h = h

  closed_off-Inv :
      (w : World)
      → Inv q s k w
      → Inv q s k (
          (do
            Setters.put_allow_reconnect false
            timer ← λ w. w.refs.reconnect_timer
            clear_reconnect timer
            socket ← λ w. w.refs.socket
            on_ref socket Setters.close_socket)
            w)
  closed_off-Inv w h = ground arith

  open-Inv :
      (r : ℕ) (w : World)
      → is_connecting (w.browser.sockets r).state ≡ true
      → Inv q s k w
      → Inv q s k (set_state r open_state w)
  open-Inv r w e h = ground arith

  close-Inv : (r : ℕ) (w : World) → Inv q s k w → Inv q s k (set_state r closed w)
  close-Inv r w h = ground arith

  opened-Inv :
      (r : ℕ) (w : World)
      → is_connecting (w.browser.sockets r).state ≡ true
      → Inv q r k w
      → Inv q s k w
      → Inv q s k (on_open r (set_state r open_state w))
  opened-Inv r w e own h = Connections.on_open-Inv q s k r _ (ground arith) (open-Inv r w e h)

  closed-Inv : (r : ℕ) (w : World) → Inv q s k w → Inv q s k (on_close r (set_state r closed w))
  closed-Inv r w h = Connections.on_close-Inv q s k r _ (ground arith) (close-Inv r w h)

  fire-Inv :
      (action : TimerAction) (w : World)
      → action_attempt action ≤ 6
      → Inv q s k w
      → Inv q s k (fire action w)
  unfolding fire
  fire-Inv (reconnect captured) w few h = Connections.connect-Inv q s k captured w.refs.token w h
  fire-Inv request_list w few h = Connections.request_channels-Inv q s k w h
  fire-Inv (ready_timeout request controller) w few h =
      time_out-Inv (w.browser.tasks request) request _ (abort-Inv controller w h)
  fire-Inv (ready_retry run attempt) w few h =
      Checks.check-Inv q s k run attempt _ few (forget_retry-Inv w h)

  fire_timer-Inv :
      (t : ℕ) (timer : Option Timer) (w : World)
      → timer_attempt timer ≤ 6
      → Inv q s k w
      → Inv q s k (fire_timer t timer w)
  fire_timer-Inv t none w few h = h
  fire_timer-Inv t (some timer) w few h = fire-Inv timer.action _ few (clear_timeout-Inv t w h)

  restore_with-Inv :
      (session : Option StoredSession) (w : World)
      → Inv q s k w
      → Inv q s k (restore_with session w)
  restore_with-Inv none w h = h
  restore_with-Inv (some session) w h =
      Requests.refresh_stats-Inv q s k session.token (restore session.token w.page.token) refl _
        (started-Inv w h)

  restore_session-Inv : (w : World) → Inv q s k w → Inv q s k (restore_session w)
  unfolding restore_session
  restore_session-Inv w h =
      when-Inv _ (restore_with w.page.initial_session) w h
        (restore_with-Inv w.page.initial_session w h)

  unmount-Inv : (w : World) → Inv q s k w → Inv q s k (unmount w)
  unfolding unmount
  unmount-Inv w h = closed_off-Inv _ (Checks.cancel_readiness_check-Inv q s k w h)

-- Every event keeps the invariant.
pub step-Holds :
    (q : Bool) (event : Event) (w : World)
    → (q ≡ true → signs_in event ≡ false)
    → Holds q w
    → Holds q (step event w)
unfolding step
step-Holds q (Event.opened r) w out all s k =
    elim (Bool-cases (is_connecting (w.browser.sockets r).state)) [
      | inl due ↦ rw due (opened-Inv q s k r w due (all r k) (all s k))
      | inr other ↦ rw other (all s k)
    ]
step-Holds q (Event.closed_by_peer r) w out all s k =
    when-Inv (not (is_closed (w.browser.sockets r).state)) (set_state r closed >> on_close r) w
      (all s k) (closed-Inv q s k r w (all s k))
step-Holds q (Event.failed_socket r) w out all s k = close_socket-Inv q s k r w (all s k)
step-Holds q (Event.received r event) w out all s k =
    when-Inv (is_open (w.browser.sockets r).state) (handle_gateway_event r event) w (all s k)
      (Handlers.handle_gateway_event-Inv q s k r event w (all s k))
step-Holds q (Event.fired t) w out all s k =
    fire_timer-Inv q s k t (w.browser.timers t) w (all s t).timer_bounded (all s k)
step-Holds q (Event.settled n reply) w out all s k =
    settle-Inv q s k n (w.browser.tasks n) reply w (all s n).captured_none out
      (all s n).task_bounded (all s k)
step-Holds q (Event.used control) w out all s k = used-Inv q s k control w (all s k)
step-Holds q Event.restored w out all s k = restore_session-Inv q s k w (all s k)
step-Holds q Event.unmounted w out all s k = unmount-Inv q s k w (all s k)

pub run-Holds :
    (q : Bool) (events : List Event) (w : World)
    → (q ≡ true → any_signs_in events ≡ false)
    → Holds q w
    → Holds q (run events w)
unfolding run
run-Holds q [] w out all = all
run-Holds q (event ∷ events) w out all =
    run-Holds q events (step event w) (λ e. (or-eq-false _ _ (out e)).1)
      (step-Holds q event w (λ e. (or-eq-false _ _ (out e)).0) all)

module _ (codec : Codec) (now : ℕ) (stamp : ℕ → ℕ) where
  mount-Inv :
      (read : Option StoredSession × Option String) (s k : ℕ)
      → Inv false s k (mount codec now stamp read)
  mount-Inv read s k = ground arith

  -- So does the first render.
  pub start-Holds : (stored : Option String) → Holds false (start codec now stamp stored)
  unfolding start
  start-Holds stored s k =
      Checks.start_readiness_check-Inv false s k _
        (mount-Inv (read_stored_session codec now stored) s k)
