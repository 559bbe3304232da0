-- ===== src/Service/Socket/Presence.antt =====
-- Which connections of the gateway service are counted, and what that spares (gateway/app/main.py).
use channel_wire.Core.Server.Messages.{msg_dm_recv}
use channel_wire.Core.Protocol.{Bytes}
use channel_wire.Service.Database.{Engine, Database}
use channel_wire.Prelude.{
  inr, refl, false, arith, inl, nat_eq, ◌<◌, ◌==◌, Bool-cases, some, ◌≡◌, ℕ, String,
}
use channel_wire.Service.Socket.{handled, opened, closed, Connection, core_framed, send_json}
use channel_wire.Service.Replies.{event, gateway_event}
use channel_wire.Types.{GatewayEvent}

-- A connection that is opened and closed leaves the numbers of connections as they were.
closed-opened :
    (username : String) (db : Database) (active : String → ℕ) (u : String)
    → (closed (opened username db active)).active_gateway_users u ≡ active u
unfolding closed opened
closed-opened username db active u = elim (Bool-cases (u == username)) [
  | inl same ↦ rw same (omega arith)
  | inr other ↦ rw other refl
]

-- While the sender of a direct message has a connection to the service, the connection of the recipient
-- passes the message on and leaves it to the sender's to save it.
dm-passed_on :
    (engine : Engine) (payload : Bytes) (sender text : String) (c : Connection)
    → gateway_event msg_dm_recv payload ≡ some (event (GatewayEvent.dm sender text))
    → 0 < c.active_gateway_users sender
    → core_framed engine msg_dm_recv payload c
      ≡ some (send_json (event (GatewayEvent.dm sender text)) c)
unfolding core_framed handled
dm-passed_on engine payload sender text c read present =
    let connected : nat_eq (c.active_gateway_users sender) 0 ≡ false = ground arith in
    rw (read, connected) refl
