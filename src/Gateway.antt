-- ===== src/Gateway.antt =====
-- `handleGatewayEvent` of frontend/src/main.tsx: what the dashboard does with a frame of the gateway.
pub mod Channels
use channel_wire.Prelude.{
  ℕ, String, Bool, true, false, not, ◌&&◌, ◌||◌, Option, none, some, [], ◌==◌, concat,
  if◌then◌else◌,
}
use channel_wire.Text.{is_empty, strip_prefix, after_space}
use channel_wire.Types.{
  GatewayEvent, ready, ok, error, system, chat, dm, who, channels, Kind, status, join,
}
use channel_wire.World.{gateway_event}
use channel_wire.World.Setters
use channel_wire.World.Setters.{
  Action, ◌>>◌, ◌>>=◌, when, set_error, set_users, set_users_loaded, set_channels,
  set_channels_loaded, set_active_channel,
}
use channel_wire.Log.{push_line, plain}
use channel_wire.Errors.{friendly_gateway_error, friendly_gateway_message}
use channel_wire.Connection.{is_open, request_users}
use channel_wire.Stats.{refresh_stats}

abbrev is_found : Option String → Bool
is_found none = false
is_found (some s) = true

-- `/^(joined|switched) /.test(message)`
unfoldable pub names_channel : String → Bool
unfolding strip_prefix
names_channel message =
    is_found (strip_prefix "joined " message) || is_found (strip_prefix "switched " message)

unfoldable pub enter_channel : String → Action
enter_channel next_active_channel = do
  Setters.put_active_channel next_active_channel
  set_active_channel next_active_channel
  set_users []
  request_users

unfoldable pub leave_channel : Action
leave_channel = do
  Setters.put_active_channel ""
  set_active_channel ""
  set_users []
  set_users_loaded false

-- The `else if` chain; the frame came from the socket `s`.
unfoldable pub on_event : ℕ → GatewayEvent → Action
unfolding enter_channel leave_channel
on_event s (ready username) = do
  push_line (plain status (concat "Ready as " (concat username ".")))
  channel ← λ w. w.refs.active_channel
  source_open ← λ w. is_open (w.browser.sockets s).state
  when (not (is_empty channel) && source_open) (Setters.transmit s (join channel))
on_event s (chat channel sender text) =
    push_line
      (record { kind = Kind.chat; channel = some channel; sender = some sender; text = text })
on_event s (dm sender text) =
    push_line (record { kind = Kind.dm; channel = none; sender = some sender; text = text })
on_event s (system message) = push_line (plain Kind.system (friendly_gateway_message message))
on_event s (ok message) = do
  push_line (plain Kind.system (friendly_gateway_message message))
  if names_channel message
      then enter_channel (after_space message)
      else when (message == "left channel") leave_channel
on_event s (error message) = do
  push_line (plain Kind.error (friendly_gateway_error message))
  set_error (friendly_gateway_error message)
on_event s (who users) = do set_users users; set_users_loaded true
on_event s (channels names) = do set_channels names; set_channels_loaded true

-- `refreshStats()` takes the `token` that the socket's handlers have captured.
unfoldable pub handle_gateway_event : ℕ → GatewayEvent → Action
unfolding on_event
handle_gateway_event s event = do
  captured ← λ w. (w.browser.sockets s).captured
  on_event s event
  refresh_stats captured gateway_event
