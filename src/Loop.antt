-- ===== src/Loop.antt =====
-- The dashboard as a state machine: what frontend/src/main.tsx does at each event of the browser,
-- of the network and of the user. An event that cannot happen in a state leaves it as it is.
pub mod Settle
pub mod Controls
pub mod Start
use channel_wire.Prelude.{
  ℕ, String, Bool, true, false, not, ◌&&◌, ◌||◌, Option, none, some, List, [], ◌∷◌,
}
use channel_wire.Types.{GatewayEvent, BackendReadiness, ready}
use channel_wire.Session.{StoredSession}
use channel_wire.World.{
  World, Socket, SocketState, connecting, open_state, closing, closed, Timer, TimerAction,
  reconnect, request_list, ready_timeout, ready_retry, Task, ready_head, restore,
}
use channel_wire.World.Setters
use channel_wire.World.Setters.{Action, ◌>>◌, ◌>>=◌, skip, when, clear_timeout, end_task}
use channel_wire.Connection.{is_open, on_open, on_close, on_ref, connect, request_channels}
use channel_wire.Stats.{refresh_stats}
use channel_wire.Gateway.{handle_gateway_event}
use channel_wire.Readiness.{cancel_readiness_check, check, check_failed}
use channel_wire.Loop.Settle.{Reply, resume, gives_token}
use channel_wire.Loop.Controls.{Control, is_offered, press}

pub data Event : Type 0 where
  opened closed_by_peer failed_socket : ℕ → Event
  received : ℕ → GatewayEvent → Event
  fired : ℕ → Event
  settled : ℕ → Reply → Event
  used : Control → Event
  restored : Event  -- the effect on `backendReadiness`
  unmounted : Event  -- the cleanup of the first effect

abbrev pub is_connecting : SocketState → Bool
is_connecting connecting = true
is_connecting _ = false

abbrev pub is_closed : SocketState → Bool
is_closed closed = true
is_closed _ = false

abbrev pub set_state : ℕ → SocketState → Action
set_state s state w = Setters.put_socket_at s (record (w.browser.sockets s) { state = state }) w

-- A timed-out request of the readiness check loses its race, if it still runs.
abbrev pub time_out : Option Task → ℕ → Action
time_out (some (ready_head run attempt controller)) request = do
  end_task request
  check_failed run attempt controller
time_out _ request = skip

unfoldable pub fire : TimerAction → Action
fire (reconnect captured) = do token ← λ w. w.refs.token; connect captured token
fire request_list = request_channels
fire (ready_timeout request controller) = do
  Setters.abort controller
  task ← λ w. w.browser.tasks request
  time_out task request
fire (ready_retry run attempt) = do Setters.put_readiness_retry_timer none; check run attempt

abbrev pub fire_timer : ℕ → Option Timer → Action
fire_timer t none = skip
fire_timer t (some timer) = do clear_timeout t; fire timer.action

abbrev pub run_resumed : ℕ → Option Action → Action
run_resumed k none = skip
run_resumed k (some action) = do end_task k; action

abbrev pub settle : ℕ → Option Task → Reply → Action
settle k none reply = skip
settle k (some task) reply = run_resumed k (resume task reply)

abbrev pub is_ready : BackendReadiness → Bool
is_ready ready = true
is_ready _ = false

abbrev pub restore_with : Option StoredSession → Action
restore_with none = skip
restore_with (some session) = do
  Setters.put_restored_session_started true
  captured ← λ w. w.page.token
  refresh_stats session.token (restore session.token captured)

unfoldable pub restore_session : Action
restore_session = do
  due ← λ w. is_ready w.page.backend_readiness && not w.refs.restored_session_started
  session ← λ w. w.page.initial_session
  when due (restore_with session)

abbrev pub clear_reconnect : Option ℕ → Action
clear_reconnect none = skip
clear_reconnect (some t) = clear_timeout t

unfoldable pub unmount : Action
unmount = do
  cancel_readiness_check
  Setters.put_allow_reconnect false
  timer ← λ w. w.refs.reconnect_timer
  clear_reconnect timer
  socket ← λ w. w.refs.socket
  on_ref socket Setters.close_socket

unfoldable pub step : Event → Action
step (opened s) = do
  due ← λ w. is_connecting (w.browser.sockets s).state
  when due (do set_state s open_state; on_open s)
step (closed_by_peer s) = do
  due ← λ w. not (is_closed (w.browser.sockets s).state)
  when due (do set_state s closed; on_close s)
step (failed_socket s) = Setters.close_socket s
step (received s event) = do
  due ← λ w. is_open (w.browser.sockets s).state
  when due (handle_gateway_event s event)
step (fired t) = do timer ← λ w. w.browser.timers t; fire_timer t timer
step (settled k reply) = do task ← λ w. w.browser.tasks k; settle k task reply
step (used control) = do offered ← is_offered control; when offered (press control)
step restored = restore_session
step unmounted = unmount

-- The events in turn.
unfoldable pub run : List Event → Action
run [] w = w
run (event ∷ events) w = run events (step event w)

-- The events that complete a sign-in.
abbrev pub signs_in : Event → Bool
signs_in (settled k reply) = gives_token reply
signs_in _ = false

abbrev pub any_signs_in : List Event → Bool
any_signs_in [] = false
any_signs_in (event ∷ events) = signs_in event || any_signs_in events
