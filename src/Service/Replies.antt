-- ===== src/Service/Replies.antt =====
-- `gateway_event` of gateway/app/main.py: what the browser is told of a frame of the core.
use channel_wire.Core.Server.Messages.{
  msg_stats_resp, msg_system, msg_error, msg_ok, msg_list_resp, msg_who_resp, msg_dm_recv, msg_chat,
}
use channel_wire.Service.Requests.{user_not_found}
use channel_wire.Core.Protocol.{Bytes}
use channel_wire.Service.Text.{lines, decode_replacing}
use channel_wire.Prelude.{
  [], none, ◌∷◌, false, some, nat_eq, ◌||◌, ℕ, ◌==◌, List, if◌then◌else◌, String, Option,
}
use channel_wire.Types.{GatewayEvent}
use channel_wire.Service.Wire.{decode_strings}

-- An event of the page, figures of the core as the JSON text in the payload, or a frame that has no
-- other form.
pub data Reply : Type 0 where
  event : GatewayEvent → Reply
  core_stats : Bytes → Reply
  raw : ℕ → Bytes → Reply

-- `channel, sender, text = decode_strings(payload)`
abbrev pub chat_of : Option (List String) → Option Reply
chat_of (some (channel ∷ sender ∷ text ∷ [])) = some (event (GatewayEvent.chat channel sender text))
chat_of _ = none

abbrev pub dm_of : Option (List String) → Option Reply
dm_of (some (sender ∷ text ∷ [])) = some (event (GatewayEvent.dm sender text))
dm_of _ = none

abbrev pub core_error : String → String
core_error message =
    if message == "user not found" || message == "invalid direct message"
    then user_not_found
    else message

-- `none` is a ValueError, which ends the connection.
unfoldable pub gateway_event : ℕ → Bytes → Option Reply
unfolding decode_strings decode_replacing lines
gateway_event msg_type payload =
    if nat_eq msg_type msg_chat
    then chat_of (decode_strings payload)
    else if nat_eq msg_type msg_dm_recv
    then dm_of (decode_strings payload)
    else if nat_eq msg_type msg_who_resp
    then some (event (GatewayEvent.who (lines false (decode_replacing payload))))
    else if nat_eq msg_type msg_list_resp
    then some (event (GatewayEvent.channels (lines false (decode_replacing payload))))
    else if nat_eq msg_type msg_ok
    then some (event (GatewayEvent.ok (decode_replacing payload)))
    else if nat_eq msg_type msg_error
    then some (event (GatewayEvent.error (core_error (decode_replacing payload))))
    else if nat_eq msg_type msg_system
    then some (event (GatewayEvent.system (decode_replacing payload)))
    else if nat_eq msg_type msg_stats_resp
    then some (core_stats payload)
    else some (raw msg_type payload)
