-- ===== src/Connection.antt =====
-- The WebSocket of the dashboard: `startSession`, `connect` with the handlers that it installs,
-- `logout`, `send`, `requestChannels` and `requestUsers` of frontend/src/main.tsx.
pub mod Backoff
use channel_wire.Prelude.{
  ℕ, ◌+◌, ◌*◌, ◌^◌, String, Bool, true, false, not, ◌&&◌, ◌||◌, Option, none, some, [], min, nat_eq,
  if◌then◌else◌,
}
use channel_wire.Text.{is_empty}
use channel_wire.Types.{Command, list, who, quit, status}
use channel_wire.World.{World, SocketState, connecting, open_state, reconnect}
use channel_wire.World.Setters
use channel_wire.World.Setters.{
  Action, ◌>>◌, ◌>>=◌, skip, when, set_error, set_connected, set_channels_loaded, set_users_loaded,
}
use channel_wire.Log.{push_line, plain}

abbrev pub reconnect_max_delay_ms : ℕ
reconnect_max_delay_ms = 10000

abbrev pub is_open : SocketState → Bool
is_open open_state = true
is_open _ = false

abbrev pub is_live : SocketState → Bool
is_live connecting = true
is_live open_state = true
is_live _ = false

abbrev state_test : (SocketState → Bool) → Option ℕ → World → Bool
state_test p none w = false
state_test p (some s) w = p (w.browser.sockets s).state

-- `socketRef.current?.readyState === WebSocket.OPEN`
abbrev pub ref_is_open : World → Bool
ref_is_open w = state_test is_open w.refs.socket w

abbrev pub ref_is_live : World → Bool
ref_is_live w = state_test is_live w.refs.socket w

-- An action on the socket of the reference, if there is one.
abbrev pub on_ref : Option ℕ → (ℕ → Action) → Action
on_ref none f w = w
on_ref (some s) f w = f s w

unfoldable pub start_session : String → String → Action
start_session access_token signed_in_username = do
  Setters.put_token access_token
  Setters.put_allow_reconnect true
  Setters.put_reconnect_attempt 0
  Setters.set_token access_token
  Setters.set_authenticated_username signed_in_username
  item ← λ w. w.browser.stringify_session access_token signed_in_username
  Setters.put_storage (some item)
  Setters.set_password ""
  set_error ""

-- `connect` of a render whose `token` is `captured`.
unfoldable pub connect : String → String → Action
connect captured access_token w =
    if is_empty access_token || not w.refs.allow_reconnect
    then w
    else if ref_is_live w
    then w
    else (do
      s ← λ w. w.browser.socket_count
      Setters.new_socket access_token captured
      Setters.put_socket (some s))
        w

-- `ws.onopen`
unfoldable pub on_open : ℕ → Action
on_open s = do
  Setters.put_reconnect_attempt 0
  set_connected true
  set_channels_loaded false
  Setters.transmit s list
  push_line (plain status "Connected to ChannelWire.")

-- `Math.min(1000 * 2 ** attempt, RECONNECT_MAX_DELAY_MS)`
unfoldable pub reconnect_delay : ℕ → ℕ
reconnect_delay attempt = min (1000 * 2 ^ attempt) reconnect_max_delay_ms

abbrev is_ref : Option ℕ → ℕ → Bool
is_ref none s = false
is_ref (some r) s = nat_eq r s

unfoldable pub schedule_reconnect : String → Action
schedule_reconnect captured = do
  push_line (plain status "Connection lost. Reconnecting…")
  attempt ← λ w. w.refs.reconnect_attempt
  Setters.put_reconnect_attempt (attempt + 1)
  t ← λ w. w.browser.timer_count
  Setters.set_timeout (reconnect captured) (reconnect_delay attempt)
  Setters.put_reconnect_timer (some t)

-- `ws.onclose`
unfoldable pub on_close : ℕ → Action
on_close s = do
  current ← λ w. w.refs.socket
  when (is_ref current s) (Setters.put_socket none)
  set_connected false
  set_channels_loaded false
  set_users_loaded false
  allowed ← λ w. w.refs.allow_reconnect && not (is_empty w.refs.token)
  captured ← λ w. (w.browser.sockets s).captured
  when allowed (schedule_reconnect captured)

abbrev clear_timer : Option ℕ → Action
clear_timer none w = w
clear_timer (some t) w = Setters.put_reconnect_timer none (Setters.clear_timeout t w)

-- The assignments at the end of `logout`.
abbrev pub clear_page : Action
clear_page = do
  Setters.set_token ""
  Setters.set_authenticated_username ""
  Setters.set_username ""
  set_connected false
  Setters.set_password ""
  Setters.set_active_channel ""
  Setters.set_message ""
  Setters.set_dm_to ""
  Setters.set_dm_text ""
  Setters.set_messages []
  Setters.set_users []
  set_users_loaded false
  Setters.set_channels []
  set_channels_loaded false
  Setters.set_platform_stats none
  Setters.set_core_stats none
  Setters.set_monitor_samples []
  Setters.set_persisted_channels []
  set_error ""

unfoldable pub logout : Action
logout = do
  Setters.put_allow_reconnect false
  Setters.put_token ""
  Setters.put_active_channel ""
  Setters.put_storage none
  timer ← λ w. w.refs.reconnect_timer
  clear_timer timer
  is_connected ← ref_is_open
  socket ← λ w. w.refs.socket
  when is_connected (on_ref socket (λ s. Setters.transmit s quit))
  on_ref socket Setters.close_socket
  Setters.put_socket none
  clear_page

-- `send`, and whether it has sent the command.
unfoldable pub send : Command → World → Bool × World
send command w =
    if ref_is_open w
    then (true, on_ref w.refs.socket (λ s. Setters.transmit s command) w)
    else (false, set_error "Connection unavailable. Reconnecting…" w)

-- A call of `send` whose answer is not read.
abbrev pub send_command : Command → Action
send_command command w = (send command w).1

unfoldable pub request_channels : Action
unfolding send
request_channels w = let (sent, w') = send list w in when sent (set_channels_loaded false) w'

unfoldable pub request_users : Action
unfolding send
request_users w = let (sent, w') = send who w in when sent (set_users_loaded false) w'
