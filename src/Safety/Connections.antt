-- ===== src/Safety/Connections.antt =====
-- The operations on messages and on the socket (frontend/src/main.tsx) keep the invariant.
use channel_wire.Prelude.{Bool, ℕ, String, true, false, none, ◌≢◌, List, ◌≡◌, arith}
use channel_wire.World.Setters
use channel_wire.World.Setters.{◌>>◌}
use channel_wire.Types.{status, list, Command, ChatLine, PlatformStats, CoreStats}
use channel_wire.World.{World}
use channel_wire.Connection.{
  is_live, start_session, connect, on_open, on_close, schedule_reconnect, logout, send,
  request_channels, request_users,
}
use channel_wire.Log.{
  Line, plain, push_line, replace_messages, clear_messages, record_monitor_sample,
}
use channel_wire.Log.Bounds.{
  length-push_line, length-replace_messages, length-record_monitor_sample,
}
use channel_wire.Safety.Invariant.{Inv}

module _ (q : Bool) (s k : ℕ) where
  pub push_line-Inv : (line : Line) (w : World) → Inv q s k w → Inv q s k (push_line line w)
  unfolding push_line
  push_line-Inv line w h = ground (arith, length-push_line line w)

  pub replace_messages-Inv :
      (lines : List ChatLine) (w : World) → Inv q s k w → Inv q s k (replace_messages lines w)
  unfolding replace_messages
  replace_messages-Inv lines w h = ground (arith, length-replace_messages lines w)

  pub clear_messages-Inv : (w : World) → Inv q s k w → Inv q s k (clear_messages w)
  unfolding clear_messages
  clear_messages-Inv w h = ground arith

  pub record_monitor_sample-Inv :
      (platform : PlatformStats) (core : CoreStats) (w : World)
      → Inv q s k w
      → Inv q s k (record_monitor_sample platform core w)
  unfolding record_monitor_sample
  record_monitor_sample-Inv platform core w h =
      ground (arith, length-record_monitor_sample platform core w)

  pub start_session-Inv :
      (token username : String) (w : World)
      → q ≡ false
      → Inv q s k w
      → Inv q s k (start_session token username w)
  unfolding start_session
  start_session-Inv token username w in_use h = ground arith

  pub connect-Inv :
      (captured token : String) (w : World) → Inv q s k w → Inv q s k (connect captured token w)
  unfolding connect
  connect-Inv captured token w h = ground arith

  pub schedule_reconnect-Inv :
      (captured : String) (w : World) → Inv q s k w → Inv q s k (schedule_reconnect captured w)
  unfolding schedule_reconnect
  schedule_reconnect-Inv captured w h =
      ground (arith, push_line-Inv (plain status "Connection lost. Reconnecting…") w h)

  pub logout-Inv : (w : World) → Inv q s k w → Inv q s k (logout w)
  unfolding logout
  logout-Inv w h = ground arith

  pub send-Inv : (command : Command) (w : World) → Inv q s k w → Inv q s k (send command w).1
  unfolding send
  send-Inv command w h = ground arith

  pub request_channels-Inv : (w : World) → Inv q s k w → Inv q s k (request_channels w)
  unfolding request_channels
  request_channels-Inv w h = ground arith

  pub request_users-Inv : (w : World) → Inv q s k w → Inv q s k (request_users w)
  unfolding request_users
  request_users-Inv w h = ground arith

  pub on_open-Inv :
      (r : ℕ) (w : World) → w.refs.socket ≢ none → Inv q s k w → Inv q s k (on_open r w)
  unfolding on_open
  on_open-Inv r w some_ref h = ground (
    arith,
    push_line-Inv (plain status "Connected to ChannelWire.") (
        (do
          Setters.put_reconnect_attempt 0
          Setters.set_connected true
          Setters.set_channels_loaded false
          Setters.transmit r list)
          w),
  )

  pub on_close-Inv :
      (r : ℕ) (w : World)
      → is_live (w.browser.sockets r).state ≡ false
      → Inv q s k w
      → Inv q s k (on_close r w)
  unfolding on_close schedule_reconnect push_line
  on_close-Inv r w dead h =
      ground (arith, length-push_line (plain status "Connection lost. Reconnecting…") w)
