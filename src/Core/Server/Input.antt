-- ===== src/Core/Server/Input.antt =====
-- How the chat core reads from a client and cuts what it has after_recv into frames (`read_from_client`
-- and `drain_input` of core/src/server.c).
pub mod Drained
pub mod Reading
use channel_wire.Prelude.{
  [], ◌-◌, ◌∷◌, ◌++◌, nat_eq, List, ℕ, zero, suc, ◌+◌, Bool, true, false, not, Option, none, some,
  length, take, drop, ltb, if◌then◌else◌,
}
use channel_wire.Core.Protocol.{Bytes, max_payload_size, FrameHeader, parse_header}
use channel_wire.Core.Server.{disconnect_client, Server, put}
use channel_wire.Core.Server.Messages.{say_error}
use channel_wire.Core.Server.Events.{handle_frame}

abbrev pub count_malformed : Server → Server
count_malformed s = record s {
  stats = record s.stats { malformed_frames = s.stats.malformed_frames + 1 };
}

-- The bytes of a frame leave the buffer.
abbrev pub consume : ℕ → ℕ → Server → Server
consume i n s = put i (record (s.clients i) { inbuf = drop n (s.clients i).inbuf }) s

-- What is left to do after a frame, if the client is still there.
abbrev pub go_on : (Server → Option (Bool × Server)) → ℕ → ℕ → Server → Option (Bool × Server)
go_on next i frame_len s =
    if not (s.clients i).is_open then some (false, s) else next (consume i frame_len s)

abbrev pub drain_frame :
    (Server → Option (Bool × Server)) → Option FrameHeader → ℕ → Server → Option (Bool × Server)
drain_frame next none i s = some (false, say_error i "malformed frame" (count_malformed s))
drain_frame next (some header) i s =
    let inbuf = (s.clients i).inbuf in
    let payload = take header.payload_len (drop 5 inbuf) in
    if ltb (length inbuf) (5 + header.payload_len)
    then some (true, s)
    else go_on next i (5 + header.payload_len) (handle_frame i header.type payload s)

-- `drain_input`: `none` where the fuel runs out; the flag tells whether it returns 0.
unfoldable pub drain_input : ℕ → ℕ → Server → Option (Bool × Server)
unfolding parse_header handle_frame
drain_input zero i s = none
drain_input (suc fuel) i s =
    if ltb (length (s.clients i).inbuf) 5
    then some (true, s)
    else drain_frame (drain_input fuel i) (parse_header (s.clients i).inbuf) i s

-- The size of `inbuf`.
abbrev pub inbuf_cap : ℕ
inbuf_cap = 5 + max_payload_size

-- What a call of `recv` comes to: bytes, the end of the stream, EAGAIN or EWOULDBLOCK, EINTR, or another
-- error.
pub data Received : Type 0 where
  bytes : Bytes → Received
  peer_closed : Received
  would_block : Received
  interrupted : Received
  failed : Received

-- `recv` writes at most as many bytes as there is room for.
abbrev pub fill : ℕ → Bytes → Server → Server
fill i new s =
    let inbuf = (s.clients i).inbuf in
    put i (record (s.clients i) { inbuf = inbuf ++ take (inbuf_cap - length inbuf) new }) s

-- What `read_from_client` makes of the result of `drain_input`.
abbrev pub after_drain : (Server → Option Server) → Option (Bool × Server) → Option Server
after_drain next none = none
after_drain next (some (false, s)) = some s
after_drain next (some (true, s)) = next s

abbrev pub after_recv : (Server → Option Server) → Received → ℕ → Server → Option Server
after_recv next (bytes new) i s = after_drain next (drain_input (inbuf_cap + 1) i (fill i new s))
after_recv next peer_closed i s = some (disconnect_client i s)
after_recv next would_block i s = some s
after_recv next interrupted i s = next s
after_recv next failed i s = some (disconnect_client i s)

-- `read_from_client`, at what the calls of `recv` come to, of which there may be no end: `none` where
-- more rounds of the loop are left to do than the fuel allows.
unfoldable pub read_from_client : ℕ → (ℕ → Received) → ℕ → Server → Option Server
unfolding drain_input
read_from_client zero results i s = none
read_from_client (suc fuel) results i s =
    let next = after_recv (read_from_client fuel (λ n. results (suc n)) i) (results 0) i s in
    if nat_eq (length (s.clients i).inbuf) inbuf_cap then some (disconnect_client i s) else next
