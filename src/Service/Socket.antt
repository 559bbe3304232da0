-- ===== src/Service/Socket.antt =====
-- `websocket_endpoint` of gateway/app/main.py: one connection of a browser, between its page and the
-- chat core. Its two loops are two kinds of steps, which may come in any order; a step is what a loop
-- does from one `await` for input to the next.
pub mod Direct
pub mod Turns
pub mod Asked
pub mod Settled
pub mod Presence
use channel_wire.Core.Server.Messages.{msg_ok}
use channel_wire.Service.Wire.{encode_frame}
use channel_wire.Core.Protocol.{Bytes}
use channel_wire.Service.Replies.{gateway_event}
use channel_wire.Service.Replies.{event, Reply}
use channel_wire.Service.Requests.{
  text_of, raises, accepted, rejected, Request, core_payload_for_command,
}
use channel_wire.Service.Database.{
  add_membership, save_channel_message, save_dm, transact, Database, Engine, Session,
}
use channel_wire.Prelude.{
  ◌-◌, ◌+◌, ◌||◌, ◌==◌, [], nat_eq, ◌∷◌, some, ◌++◌, if◌then◌else◌, none, ℕ, String, Option, List,
}
use mathlib.Core.Option
use channel_wire.Json.{find_member, Json, obj, null}
use channel_wire.Types.{list, GatewayEvent}

-- What the service holds for the connection, and what it shares with others: the database and
-- `active_gateway_users`, where a user without an entry counts as zero.
pub record Connection : Type 0 where
  pub username : String
  pub pending_dms : List (String × String)
  pub to_browser : List Reply
  pub to_core : List Bytes
  pub db : Database
  pub active_gateway_users : String → ℕ

abbrev pub Step : Type 0
Step = Connection → Option Connection

-- `websocket.send_json`
abbrev pub send_json : Reply → Connection → Connection
send_json r c = record c { to_browser = c.to_browser ++ (r ∷ []) }

abbrev pub stored : Option Database → Step
stored none c = none
stored (some db) c = some (record c { db = db })

-- `with session_scope() as db: ...; db.commit()`; a failed commit ends the connection.
abbrev pub save : Engine → (Session → Session) → Step
save engine work c = stored (transact engine work c.db) c

-- The head of the queue is saved: the core has taken that message.
unfoldable pub save_first : Engine → List (String × String) → Step
unfolding save_dm
save_first engine [] c = some c
save_first engine ((target, text) ∷ rest) c =
    save engine (save_dm c.username target text) (record c { pending_dms = rest })

abbrev pub rest_of : List (String × String) → List (String × String)
rest_of [] = []
rest_of (p ∷ ps) = ps

-- What `pump_core_to_ws` does with an event before it passes it on.
unfoldable pub handled : Engine → Reply → Step
unfolding save_first save_channel_message save_dm
handled engine (event (GatewayEvent.chat channel sender text)) c =
    if sender == c.username
    then save engine (save_channel_message channel sender text) c
    else some c
handled engine (event (GatewayEvent.dm sender text)) c =
    if nat_eq (c.active_gateway_users sender) 0
    then save engine (save_dm sender c.username text) c
    else some c
handled engine (event (GatewayEvent.ok message)) c =
    if message == "direct message sent" then save_first engine c.pending_dms c else some c
handled engine (event (GatewayEvent.error message)) c =
    some (record c { pending_dms = rest_of c.pending_dms })
handled engine _ c = some c

abbrev pub passed_on : Engine → Option Reply → Step
passed_on engine none c = none
passed_on engine (some r) c = Option.map (send_json r) (handled engine r c)

-- A round of `pump_core_to_ws`, at a frame of the core; `none` is an exception, which ends both loops.
unfoldable pub core_framed : Engine → ℕ → Bytes → Step
unfolding gateway_event handled
core_framed engine msg_type payload c = passed_on engine (gateway_event msg_type payload) c

abbrev pub text_or_empty : Option String → String
text_or_empty none = ""
text_or_empty (some s) = s

-- `message["channel"]` and the like, of a message that was accepted.
abbrev pub text_in : String → Json → String
text_in key (obj ms) = text_or_empty (text_of (find_member key ms))
text_in key _ = ""

abbrev pub noted : Engine → ℕ → Json → Step
noted engine msg_type message c =
    if nat_eq msg_type 2 || nat_eq msg_type 3
    then save engine (add_membership c.username (text_in "channel" message)) c
    else if nat_eq msg_type 6
    then some (record c {
      pending_dms = c.pending_dms ++ ((text_in "to" message, text_in "text" message) ∷ []);
    })
    else some c

abbrev pub sent_to_core : Option Bytes → Step
sent_to_core none c = none
sent_to_core (some frame) c = some (record c { to_core = c.to_core ++ (frame ∷ []) })

abbrev pub requested : Engine → Request → Json → Step
requested engine raises message c = none
requested engine (rejected reason) message c =
    some (send_json (event (GatewayEvent.error reason)) c)
requested engine (accepted msg_type payload) message c =
    Option.bind (noted engine msg_type message c) (sent_to_core (encode_frame msg_type payload))

-- A round of `pump_ws_to_core`, at a message of the browser that is JSON.
unfoldable pub browser_sent : Engine → Json → Step
unfolding core_payload_for_command encode_frame add_membership find_member
browser_sent engine message c = requested engine (core_payload_for_command message) message c

-- A connection that is accepted for a user whom the core has registered.
unfoldable pub opened : String → Database → (String → ℕ) → Connection
opened username db active = record {
  username = username;
  pending_dms = [];
  to_browser = event (GatewayEvent.ready username) ∷ [];
  to_core = [];
  db = db;
  active_gateway_users = λ u. if u == username then active u + 1 else active u;
}

-- The `finally` of `websocket_endpoint`, after either loop has ended: by an exception, or the second at a
-- QUIT that it has sent on.
unfoldable pub closed : Connection → Connection
closed c = record c {
  active_gateway_users =
      λ u. if u == c.username then c.active_gateway_users u - 1 else c.active_gateway_users u;
}
