-- ===== src/Core/Server/Events.antt =====
-- What the chat core (core/src/server.c) does at a frame, at a new connection, and when it has sent bytes
-- of a queue.
use channel_wire.Prelude.{
  ℕ, zero, suc, ◌+◌, ◌-◌, true, not, Option, none, some, List, [], ◌∷◌, length, nat_eq,
  if◌then◌else◌,
}
use channel_wire.Core.Protocol.{Bytes}
use channel_wire.Core.Server.{
  Client, Server, OutFrame, max_clients, text_cap, no_client, put, disconnect_client,
  safe_enqueue_text,
}
use channel_wire.Core.Server.Messages.{say_error, broadcast_chat, send_who, send_list, send_stats}
use channel_wire.Core.Server.Handlers.{
  read_one_string, handle_hello, join_channel, switch_channel, leave_channel, handle_dm,
  handle_nick,
}

-- `cw_client_msg_type` of core/include/channelwire/protocol.h.
pub data ClientMsgType : Type 0 where
  hello : ClientMsgType
  join : ClientMsgType
  switch : ClientMsgType
  leave : ClientMsgType
  say : ClientMsgType
  dm : ClientMsgType
  who : ClientMsgType
  list : ClientMsgType
  nick : ClientMsgType
  quit : ClientMsgType
  get_stats : ClientMsgType

abbrev pub client_msg_type : ℕ → Option ClientMsgType
client_msg_type n =
    if nat_eq n 1
    then some hello
    else if nat_eq n 2
    then some join
    else if nat_eq n 3
    then some switch
    else if nat_eq n 4
    then some leave
    else if nat_eq n 5
    then some say
    else if nat_eq n 6
    then some dm
    else if nat_eq n 7
    then some who
    else if nat_eq n 8
    then some list
    else if nat_eq n 9
    then some nick
    else if nat_eq n 10
    then some quit
    else if nat_eq n 11
    then some get_stats
    else none

abbrev pub say_read : Option Bytes → ℕ → Server → Server
say_read none i s = say_error i "invalid message" s
say_read (some text) i s =
    if nat_eq (length text) 0 then say_error i "invalid message" s else broadcast_chat i text s

-- The case `CW_MSG_SAY` of `handle_frame`.
unfoldable pub handle_say : ℕ → Bytes → Server → Server
unfolding read_one_string broadcast_chat safe_enqueue_text
handle_say i payload s =
    if not (s.clients i).registered
    then say_error i "send HELLO first" s
    else if nat_eq (length (s.clients i).active_channel) 0
    then say_error i "join a channel before sending" s
    else say_read (read_one_string payload (text_cap + 1)) i s

abbrev pub handle_msg : Option ClientMsgType → ℕ → Bytes → Server → Server
handle_msg none i payload s = say_error i "unknown message type" s
handle_msg (some hello) i payload s = handle_hello i payload s
handle_msg (some join) i payload s = join_channel i payload true s
handle_msg (some switch) i payload s = switch_channel i payload s
handle_msg (some leave) i payload s = leave_channel i payload s
handle_msg (some say) i payload s = handle_say i payload s
handle_msg (some dm) i payload s = handle_dm i payload s
handle_msg (some who) i payload s = send_who i s
handle_msg (some list) i payload s = send_list i s
handle_msg (some nick) i payload s = handle_nick i payload s
handle_msg (some quit) i payload s = disconnect_client i s
handle_msg (some get_stats) i payload s = send_stats i s

unfoldable pub handle_frame : ℕ → ℕ → Bytes → Server → Server
unfolding handle_hello join_channel switch_channel leave_channel handle_say handle_dm send_who
    send_list handle_nick send_stats safe_enqueue_text
handle_frame i type payload s = handle_msg (client_msg_type type) i payload s

-- The first free slot below `n`, from `i` on, as `accept_clients` looks for it.
unfoldable pub free_slot : Server → ℕ → ℕ → Option ℕ
free_slot s i zero = none
free_slot s i (suc n) =
    let later = free_slot s (i + 1) n in if not (s.clients i).is_open then some i else later

abbrev pub accepted : Option ℕ → Server → Server
accepted none s = s
accepted (some i) s =
    let stats = s.stats in
    put i (record no_client { is_open = true })
      (record s {
        stats = record stats {
          current_connections = stats.current_connections + 1;
          total_connections = stats.total_connections + 1;
        };
      })

-- A connection that `accept_clients` is given; it is closed where no slot is free.
unfoldable pub accept_client : Server → Server
unfolding free_slot
accept_client s = accepted (free_slot s 0 max_clients) s

-- A `send` of `n` bytes of the first frame, as `write_to_client` counts it.
abbrev pub frames_sent : ℕ → List OutFrame → Client → Client
frames_sent n [] c = c
frames_sent n (f ∷ fs) c =
    if nat_eq (f.sent + n) (length f.bytes)
    then record c { queue = fs; queued_bytes = c.queued_bytes - length f.bytes }
    else record c { queue = record f { sent = f.sent + n } ∷ fs }

unfoldable pub bytes_sent : ℕ → ℕ → Server → Server
bytes_sent i n s = put i (frames_sent n (s.clients i).queue (s.clients i)) s
