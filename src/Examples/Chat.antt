-- ===== src/Examples/Chat.antt =====
-- The chat core (core/src/server.c) in a run of concrete events.
use channel_wire.Core.Server.Enqueued.{queued}
use channel_wire.Core.Server.Input.{
  Received, read_from_client, bytes, interrupted, peer_closed, inbuf_cap,
}
use channel_wire.Core.Server.Buffers.{reading-returns}
use channel_wire.Core.Server.Input.Reading.{malformed_stays}
use channel_wire.Core.Server.Usernames.{usernames_unique}
use channel_wire.Core.Server.Queues.{queues_bounded, Fits}
use channel_wire.Core.Server.Membership.{active_joined}
use channel_wire.Core.Server.Delivery.{broadcast_chat-received}
use channel_wire.Prelude.{
  zero, suc, none, ◌≤◌, ℕ, Bool, true, false, some, List, [], ◌∷◌, ◌++◌, length, ◌≡◌, ◌⊎◌, ◌<◌,
  refl, arith, ℕ_discrete, drop,
}
use channel_wire.Urls.Escapes.{utf8_all}
use channel_wire.Core.Protocol.{parse_header, Bytes, write_strings, write_header, write_string}
use channel_wire.Core.Server.{Client, Server, is_user, find_channel, no_client, with_frame}
use channel_wire.Core.Server.Messages.{msg_error, broadcast_chat}
use channel_wire.Core.Server.Runs.{Event, connected, readable, run, started}

-- The bytes of one frame, in one piece.
abbrev framed : ℕ → ℕ → Bytes → Event
framed i type payload = readable i (bytes (write_header type (length payload) ++ payload) ∷ [])

-- Two clients register, join a channel and talk; the second also asks for a name that is taken.
abbrev chat : List Event
chat =
    connected
    ∷ connected
    ∷ framed 0 1 (0 ∷ 2 ∷ utf8_all "al")
    ∷ framed 1 1 (0 ∷ 2 ∷ utf8_all "al")
    ∷ framed 1 1 (0 ∷ 2 ∷ utf8_all "bo")
    ∷ framed 0 2 (0 ∷ 1 ∷ utf8_all "x")
    ∷ framed 1 2 (0 ∷ 1 ∷ utf8_all "x")
    ∷ framed 0 5 (0 ∷ 2 ∷ utf8_all "hi")
    ∷ []

chat_queues :
    (length ((run chat (started 65536)).clients 1).queue ≡ 4)
    × (((run chat (started 65536)).clients 1).username ≡ utf8_all "bo")
    × ((run chat (started 65536)).stats.channel_messages ≡ 1)
unfolding run utf8_all channel_wire.Prelude.ℕ_discrete channel_wire.Prelude.drop write_header
    write_string
chat_queues = (refl, refl, refl)

abbrev quick : List Event
quick = connected ∷ framed 0 1 (0 ∷ 2 ∷ utf8_all "al") ∷ framed 0 2 (0 ∷ 1 ∷ utf8_all "x") ∷ []

first_user : is_user (run quick (started 65536)) 0 ≡ true
unfolding run utf8_all ℕ_discrete drop write_header write_string
first_user = refl

usernames_unique_example : ◌≡◌ {A = ℕ} 0 0
usernames_unique_example =
    usernames_unique 65536 quick 0 0 (omega arith) (omega arith) first_user first_user refl

queues_bounded_example : Fits 65536 ((run quick (started 65536)).clients 0)
queues_bounded_example = queues_bounded 65536 quick 0

active_joined_example :
    (((run quick (started 65536)).clients 0).active_channel ≡ [])
    ⊎ ((k : ℕ) × (find_channel
            (run quick (started 65536)).channels
            ((run quick (started 65536)).clients 0).active_channel
          ≡ some k)
        × (((run quick (started 65536)).clients 0).joined k ≡ true)
        × (k < 64))
active_joined_example = active_joined 65536 quick 0

-- A server with one registered member of one channel, and room in its queue.
abbrev member : Client
member = record no_client {
  is_open = true;
  registered = true;
  username = b'a' ∷ b'l' ∷ [];
  active_channel = b'x' ∷ [];
  joined = λ k. true;
}

abbrev room : Server
room = record (started 65536) { clients = λ i. member; channels = (b'x' ∷ []) ∷ [] }

abbrev hi : Bytes
hi = 0 ∷ 1 ∷ b'x' ∷ 0 ∷ 2 ∷ b'a' ∷ b'l' ∷ 0 ∷ 2 ∷ b'h' ∷ b'i' ∷ []

in_room : find_channel room.channels (b'x' ∷ []) ≡ some 0
unfolding find_channel
in_room = refl

hi_written :
    write_strings 4096 [] ((b'x' ∷ []) ∷ (b'a' ∷ b'l' ∷ []) ∷ (b'h' ∷ b'i' ∷ []) ∷ []) ≡ some hi
unfolding write_strings write_string
hi_written = refl

broadcast_chat-received_example :
    (broadcast_chat 0 (b'h' ∷ b'i' ∷ []) room).clients 1 ≡ with_frame 103 hi member
broadcast_chat-received_example =
    broadcast_chat-received 0 (b'h' ∷ b'i' ∷ []) 0 hi room 1 in_room hi_written (omega arith)

-- Bytes, then EINTR, then the end of the stream; and bytes without end.
abbrev calls : ℕ → Received
calls zero = bytes (0 ∷ 0 ∷ 0 ∷ [])
calls (suc zero) = interrupted
calls (suc (suc n)) = peer_closed

abbrev endless : ℕ → Received
endless n = bytes (8 ∷ [])

reading-returns_example :
    (t : Server) × (read_from_client 3 calls 0 (run quick (started 65536)) ≡ some t)
    × (length (t.clients 0).inbuf ≤ inbuf_cap)
reading-returns_example = reading-returns 65536 quick 2 calls 0 tt

-- A header of a payload of 65536 bytes.
abbrev too_large : Server
too_large = record (started 65536) {
  clients = λ i. record member { inbuf = 5 ∷ 0 ∷ 1 ∷ 0 ∷ 0 ∷ [] };
}

refused_header : parse_header (5 ∷ 0 ∷ 1 ∷ 0 ∷ 0 ∷ []) ≡ none
unfolding parse_header
refused_header = refl

malformed_stays_example :
    (t : Server) × (read_from_client 1 endless 0 too_large ≡ some t)
    × (t.clients 0
        ≡ queued 65536 msg_error
            (utf8_all "malformed frame")
            (record member { inbuf = 5 ∷ 0 ∷ 1 ∷ 0 ∷ 0 ∷ 8 ∷ [] }))
malformed_stays_example =
    malformed_stays 0 0 endless (8 ∷ []) too_large refl refused_header (omega arith) (omega arith)
