-- ===== src/Service/Journey.antt =====
-- A message from the page of its sender (frontend/src/main.tsx) through the gateway service
-- (gateway/app/main.py) and the chat core (core/src/server.c) to the pages of the members.
pub mod Single
use channel_wire.Service.Requests.Accepted.{core_payload-message_of}
use channel_wire.Core.Server.Delivery.{broadcast_chat-received, received}
use channel_wire.Core.Protocol.{max_payload_size, Bytes}
use channel_wire.Core.Server.Messages.{msg_chat, broadcast_chat}
use channel_wire.Service.Wire.Agreement.{
  length-encoded_all, decode_strings-write_strings, string_payload-write_strings, wire,
}
use channel_wire.Core.Protocol.Strings.{AreShort, encoded_all}
use channel_wire.Service.Replies.{gateway_event, event}
use channel_wire.Service.Requests.{message_of, core_payload_for_command, accepted}
use channel_wire.Urls.Escapes.{bytes, utf8_all}
use channel_wire.Core.Server.{max_clients, find_channel, name_cap, text_cap, Server}
use channel_wire.Service.Journey.Single.{utf8_all-ne-nil, read_one_string-encoded_all, is_not_nul}
use channel_wire.Text.{is_empty, all_chars}
use channel_wire.Prelude.{
  refl, arith, [], ◌<◌, ◌∷◌, some, ◌≤◌, false, length, nat_eq, true, ◌≡◌, ℕ, String,
}
use channel_wire.Core.Server.Events.{handle_say, handle_frame}
use channel_wire.Types.{Command, say, GatewayEvent}

-- A text that the core takes whole: no zero byte, which would end it, and at most 1024 bytes.
abbrev pub IsWhole : String → Type 0
IsWhole text = (all_chars is_not_nul text ≡ true) × (length (utf8_all text) ≤ text_cap)

handle_say-broadcast :
    (i : ℕ) (text : String) (s : Server)
    → (s.clients i).registered ≡ true
    → nat_eq (length (s.clients i).active_channel) 0 ≡ false
    → is_empty text ≡ false
    → IsWhole text
    → handle_frame i 5 (encoded_all (wire (text ∷ []))) s ≡ broadcast_chat i (utf8_all text) s
unfolding handle_frame handle_say
handle_say-broadcast i text s registered talks some_text whole =
    let read = read_one_string-encoded_all text text_cap whole.0 whole.1 (omega arith) in
    let bytes = utf8_all-ne-nil text some_text in
    let full : nat_eq (length (utf8_all text)) 0 ≡ false = ground arith in
    rw (registered, talks, read, full) refl

-- A message that the page of a registered user sends, in a channel of the core, is framed by the
-- service; every member of the channel, the sender included, gets the same frame at the end of its
-- queue, or is disconnected for want of room; and the service tells each member's page of a message in
-- that channel, from that user, with that text. The channel and the user have at most 32 bytes, the
-- text 1 to 1024 and no U+0000.
pub message_delivered :
    (i k j : ℕ) (channel user text : String) (s : Server)
    → (s.clients i).registered ≡ true
    → (s.clients i).active_channel ≡ utf8_all channel
    → (s.clients i).username ≡ utf8_all user
    → is_empty channel ≡ false
    → length (utf8_all channel) ≤ name_cap
    → length (utf8_all user) ≤ name_cap
    → find_channel s.channels (utf8_all channel) ≡ some k
    → is_empty text ≡ false
    → IsWhole text
    → j < max_clients
    → (request : Bytes) × (payload : Bytes) × (core_payload_for_command (message_of (say text))
        ≡ accepted 5 request)
      × ((handle_frame i 5 request s).clients j
          ≡ received s.max_queue_bytes k payload (s.clients j))
      × (gateway_event msg_chat payload ≡ some (event (GatewayEvent.chat channel user text)))
unfolding gateway_event encoded_all
message_delivered i k j channel user text s registered at_channel named in_channel cs us found full
      whole below =
    let vs = channel ∷ user ∷ text ∷ [] in
    let short : AreShort (wire vs) = (omega arith, (omega arith, (omega arith, tt))) in
    let fits : length (encoded_all (wire vs)) ≤ max_payload_size =
      (let one = length-encoded_all (utf8_all channel) (utf8_all user ∷ utf8_all text ∷ []) in
        let two = length-encoded_all (utf8_all user) (utf8_all text ∷ []) in
        let three = length-encoded_all (utf8_all text) [] in omega arith) in
    let both = string_payload-write_strings max_payload_size vs short fits in
    let read = decode_strings-write_strings max_payload_size vs (encoded_all (wire vs)) both.1 in
    let bytes = utf8_all-ne-nil channel in_channel in
    let talks : nat_eq (length (s.clients i).active_channel) 0 ≡ false =
      rw at_channel (ground arith) in
    let said = handle_say-broadcast i text s registered talks full whole in
    (
      encoded_all (wire (text ∷ [])),
      encoded_all (wire vs),
      core_payload-message_of (say text) full (omega arith, tt),
      rw said (
          broadcast_chat-received i (utf8_all text) k (encoded_all (wire vs)) s j
            (rw at_channel found) (rw (at_channel, named) both.1) below),
      rw read refl,
    )
