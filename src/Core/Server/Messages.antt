-- ===== src/Core/Server/Messages.antt =====
-- What the chat core (core/src/server.c) sends to the members of a channel, and its answers to the
-- questions of a client.
use channel_wire.Prelude.{
  ℕ, zero, suc, ◌+◌, String, not, ◌&&◌, Option, none, some, List, [], ◌∷◌, ◌++◌, length, leb,
  nat_eq, if◌then◌else◌,
}
use channel_wire.Urls.Escapes.{utf8_all}
use channel_wire.Decimal.{print}
use channel_wire.Core.Protocol.{Bytes, max_payload_size, write_strings}
use channel_wire.Core.Server.{
  Server, max_clients, enqueue_payload, or_overflow, safe_enqueue_text, each, is_user, is_member,
  find_channel,
}

abbrev pub msg_ok : ℕ
msg_ok = 101

abbrev pub msg_error : ℕ
msg_error = 102

abbrev pub msg_chat : ℕ
msg_chat = 103

abbrev pub msg_dm_recv : ℕ
msg_dm_recv = 104

abbrev pub msg_system : ℕ
msg_system = 105

abbrev pub msg_who_resp : ℕ
msg_who_resp = 106

abbrev pub msg_list_resp : ℕ
msg_list_resp = 107

abbrev pub msg_stats_resp : ℕ
msg_stats_resp = 108

-- A text that the source spells out.
abbrev pub say_to : ℕ → ℕ → String → Server → Server
say_to i type text s = safe_enqueue_text i type (utf8_all text) s

abbrev pub say_error : ℕ → String → Server → Server
say_error i text s = say_to i msg_error text s

abbrev pub notify : ℕ → ℕ → Bytes → ℕ → Server → Server
notify sender channel text j s =
    if not (nat_eq j sender) && is_member s channel j
    then safe_enqueue_text j msg_system text s
    else s

abbrev pub notify_all : Option ℕ → ℕ → Bytes → Server → Server
notify_all none sender text s = s
notify_all (some channel) sender text s = each max_clients (notify sender channel text) s

-- `broadcast_system_to_active_channel`
unfoldable pub broadcast_system : ℕ → Bytes → Server → Server
unfolding each find_channel safe_enqueue_text
broadcast_system sender text s =
    notify_all (find_channel s.channels (s.clients sender).active_channel) sender text s

abbrev pub deliver : ℕ → Bytes → ℕ → Server → Server
deliver channel payload j s =
    if is_member s channel j then or_overflow j s (enqueue_payload j msg_chat payload s) else s

abbrev pub count_chat : Server → Server
count_chat s = record s {
  stats = record s.stats { channel_messages = s.stats.channel_messages + 1 };
}

abbrev pub chat_payload : Option Bytes → ℕ → ℕ → Server → Server
chat_payload none sender channel s = say_error sender "message payload too large" s
chat_payload (some payload) sender channel s =
    count_chat (each max_clients (deliver channel payload) s)

abbrev pub chat_to : Option ℕ → ℕ → Bytes → Server → Server
chat_to none sender text s = say_error sender "join a channel before sending" s
chat_to (some channel) sender text s =
    let c = s.clients sender in
    let values = c.active_channel ∷ c.username ∷ text ∷ [] in
    chat_payload (write_strings max_payload_size [] values) sender channel s

-- `broadcast_chat`
unfoldable pub broadcast_chat : ℕ → Bytes → Server → Server
unfolding each find_channel safe_enqueue_text enqueue_payload
broadcast_chat sender text s =
    chat_to (find_channel s.channels (s.clients sender).active_channel) sender text s

-- `snprintf` of the lines in turn, each after a line break but the first; `none` where one is cut.
unfoldable pub join_lines : Bytes → List Bytes → Option Bytes
join_lines used [] = some used
join_lines used (v ∷ vs) =
    let piece = if nat_eq (length used) 0 then v else (10 ∷ v) in
    if leb max_payload_size (length used + length piece)
    then none
    else join_lines (used ++ piece) vs

-- The usernames of the members of a channel in the first `n` slots.
unfoldable pub member_names : Server → ℕ → ℕ → List Bytes
member_names s channel zero = []
member_names s channel (suc n) =
    let own = if is_member s channel n then (s.clients n).username ∷ [] else [] in
    member_names s channel n ++ own

abbrev pub answer : Option Bytes → ℕ → String → ℕ → Server → Server
answer none type too_large i s = say_error i too_large s
answer (some payload) type too_large i s = safe_enqueue_text i type payload s

abbrev pub who_in : Option ℕ → ℕ → Server → Server
who_in none i s = say_error i "join a channel before listing participants" s
who_in (some channel) i s =
    answer (join_lines [] (member_names s channel max_clients)) msg_who_resp
      "WHO response too large" i s

unfoldable pub send_who : ℕ → Server → Server
unfolding find_channel safe_enqueue_text join_lines member_names
send_who i s = who_in (find_channel s.channels (s.clients i).active_channel) i s

unfoldable pub send_list : ℕ → Server → Server
unfolding safe_enqueue_text join_lines
send_list i s = answer (join_lines [] s.channels) msg_list_resp "LIST response too large" i s

unfoldable pub count_users : Server → ℕ → ℕ
count_users s zero = 0
count_users s (suc n) = count_users s n + (if is_user s n then 1 else 0)

-- A label of the JSON text of the figures, and the number after it.
abbrev pub figure : String → ℕ → Bytes
figure label n = utf8_all label ++ utf8_all (print n)

unfoldable pub stats_text : Server → Bytes
unfolding count_users
stats_text s =
    figure "{\"current_connections\":" s.stats.current_connections
    ++ figure ",\"registered_clients\":" (count_users s max_clients)
    ++ figure ",\"total_connections\":" s.stats.total_connections
    ++ figure ",\"channels\":" (length s.channels)
    ++ figure ",\"channel_messages\":" s.stats.channel_messages
    ++ figure ",\"direct_messages\":" s.stats.direct_messages
    ++ figure ",\"malformed_frames\":" s.stats.malformed_frames
    ++ figure ",\"queue_disconnects\":" s.stats.queue_disconnects
    ++ figure ",\"max_queue_bytes\":" s.max_queue_bytes
    ++ utf8_all "}"

unfoldable pub send_stats : ℕ → Server → Server
unfolding safe_enqueue_text stats_text
send_stats i s =
    let payload = stats_text s in
    if leb max_payload_size (length payload)
    then say_error i "stats response too large" s
    else safe_enqueue_text i msg_stats_resp payload s
