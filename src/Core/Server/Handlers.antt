-- ===== src/Core/Server/Handlers.antt =====
-- The handlers of the chat core (core/src/server.c) for the frames of a client.
use mathlib.Core.Option
use channel_wire.Prelude.{
  ℕ, zero, suc, ◌+◌, Bool, true, false, not, ◌&&◌, ◌||◌, Option, none, some, List, [], ◌∷◌, ◌++◌,
  length, update, nat_eq, if◌then◌else◌,
}
use channel_wire.Urls.Escapes.{utf8_all}
use channel_wire.Core.Protocol.{
  Bytes, max_payload_size, read_string, read_strings, write_strings, valid_name,
}
use channel_wire.Core.Server.{
  Client, Server, max_clients, name_cap, text_cap, put, same_name, enqueue_payload, or_overflow,
  safe_enqueue_text, is_user, find_channel, ensure_channel, name_taken, username_in_use,
}
use channel_wire.Core.Server.Messages.{msg_ok, msg_dm_recv, say_to, say_error, broadcast_system}

-- The C string in a buffer that holds these bytes and a zero.
unfoldable pub c_string : Bytes → Bytes
c_string [] = []
c_string (b ∷ bs) = let rest = c_string bs in if nat_eq b 0 then [] else (b ∷ rest)

abbrev pub whole : Option Bytes × ℕ → ℕ → Option Bytes
whole (some b, offset) n = if nat_eq offset n then some (c_string b) else none
whole (none, offset) n = none

-- `read_one_string_payload`, into a buffer of that size.
unfoldable pub read_one_string : Bytes → ℕ → Option Bytes
unfolding read_string c_string
read_one_string payload size = whole (read_string payload 0 size) (length payload)

abbrev pub if_name : Option Bytes → Option Bytes
if_name none = none
if_name (some v) = if valid_name v 1 name_cap then some v else none

-- The check that begins most handlers; a username and a channel have the same limit.
unfoldable pub read_name : Bytes → Option Bytes
unfolding read_one_string valid_name
read_name payload = if_name (read_one_string payload (name_cap + 1))

abbrev pub set_name : ℕ → Bytes → Server → Server
set_name i name s = put i (record (s.clients i) { registered = true; username = name }) s

abbrev pub hello_as : Option Bytes → ℕ → Server → Server
hello_as none i s = say_error i "invalid username" s
hello_as (some name) i s =
    if username_in_use s name i
    then say_error i "username already in use" s
    else say_to i msg_ok "registered" (set_name i name s)

unfoldable pub handle_hello : ℕ → Bytes → Server → Server
unfolding read_name name_taken safe_enqueue_text
handle_hello i payload s = hello_as (read_name payload) i s

abbrev pub join_at : Option ℕ → Bytes → Bool → ℕ → Server → Server
join_at none name make_active i s = say_error i "too many channels" s
join_at (some k) name make_active i s =
    let c = s.clients i in
    let joined = record c { joined = update c.joined k true } in
    let active = record joined { active_channel = name } in
    let verb = if make_active then "joined " else "switched " in
    safe_enqueue_text i msg_ok (utf8_all verb ++ name)
      (put i (if make_active then active else joined) s)

abbrev pub join_named : Option Bytes → Bool → ℕ → Server → Server
join_named none make_active i s = say_error i "invalid channel" s
join_named (some name) make_active i s =
    let found = ensure_channel name s in join_at found.0 name make_active i found.1

unfoldable pub join_channel : ℕ → Bytes → Bool → Server → Server
unfolding read_name ensure_channel safe_enqueue_text
join_channel i payload make_active s =
    if not (s.clients i).registered
    then say_error i "send HELLO first" s
    else join_named (read_name payload) make_active i s

-- Whether the client has joined the channel that was found.
abbrev pub has_joined : Option ℕ → Client → Bool
has_joined none c = false
has_joined (some k) c = c.joined k

abbrev pub switch_to : Option Bytes → ℕ → Server → Server
switch_to none i s = say_error i "invalid channel" s
switch_to (some name) i s =
    if not (has_joined (find_channel s.channels name) (s.clients i))
    then say_error i "join channel before switching" s
    else safe_enqueue_text i msg_ok (utf8_all "switched " ++ name)
        (put i (record (s.clients i) { active_channel = name }) s)

unfoldable pub switch_channel : ℕ → Bytes → Server → Server
unfolding read_name find_channel safe_enqueue_text
switch_channel i payload s =
    if not (s.clients i).registered
    then say_error i "send HELLO first" s
    else switch_to (read_name payload) i s

abbrev pub leave_at : Option ℕ → Bytes → ℕ → Server → Server
leave_at none name i s = say_error i "not in channel" s
leave_at (some k) name i s =
    let c = s.clients i in
    let active = if same_name c.active_channel name then [] else c.active_channel in
    if not (c.joined k)
    then say_error i "not in channel" s
    else say_to i msg_ok "left channel"
        (put i (record c { joined = update c.joined k false; active_channel = active }) s)

abbrev pub leave_named : Option Bytes → ℕ → Server → Server
leave_named none i s = say_error i "invalid channel" s
leave_named (some name) i s = leave_at (find_channel s.channels name) name i s

unfoldable pub leave_channel : ℕ → Bytes → Server → Server
unfolding read_name find_channel same_name safe_enqueue_text
leave_channel i payload s = leave_named (read_name payload) i s

-- The first slot below `n`, from `i` on, of a user of that name.
unfoldable pub find_user : Server → Bytes → ℕ → ℕ → Option ℕ
unfolding same_name
find_user s name i zero = none
find_user s name i (suc n) =
    let later = find_user s name (i + 1) n in
    if is_user s i && same_name (s.clients i).username name then some i else later

abbrev pub count_direct : Server → Server
count_direct s = record s {
  stats = record s.stats { direct_messages = s.stats.direct_messages + 1 };
}

abbrev pub dm_enqueued : Option Server → ℕ → ℕ → Server → Server
dm_enqueued none target i s = or_overflow target s none
dm_enqueued (some s') target i s = say_to i msg_ok "direct message sent" (count_direct s')

-- `enqueue_strings`
unfoldable pub enqueue_strings : ℕ → ℕ → List Bytes → Server → Option Server
unfolding write_strings enqueue_payload
enqueue_strings i type values s =
    Option.bind (write_strings max_payload_size [] values) (λ p. enqueue_payload i type p s)

abbrev pub dm_to : Option ℕ → Bytes → ℕ → Server → Server
dm_to none text i s = say_error i "user not found" s
dm_to (some target) text i s =
    let values = (s.clients i).username ∷ text ∷ [] in
    dm_enqueued (enqueue_strings target msg_dm_recv values s) target i s

abbrev pub dm_read : Option (List Bytes) × ℕ → ℕ → ℕ → Server → Server
dm_read (some (name ∷ text ∷ []), offset) size i s =
    if not (nat_eq offset size) || nat_eq (length (c_string text)) 0
    then say_error i "invalid direct message" s
    else dm_to (find_user s (c_string name) 0 max_clients) (c_string text) i s
dm_read _ size i s = say_error i "invalid direct message" s

unfoldable pub handle_dm : ℕ → Bytes → Server → Server
unfolding read_strings c_string find_user enqueue_strings safe_enqueue_text
handle_dm i payload s =
    if not (s.clients i).registered
    then say_error i "send HELLO first" s
    else dm_read (read_strings payload 0 ((name_cap + 1) ∷ (text_cap + 1) ∷ [])) (length payload) i
        s

abbrev pub nick_as : Option Bytes → ℕ → Server → Server
nick_as none i s = say_error i "invalid username" s
nick_as (some name) i s =
    let old = (s.clients i).username in
    let shown = if nat_eq (length old) 0 then utf8_all "anonymous" else old in
    if username_in_use s name i
    then say_error i "username already in use" s
    else broadcast_system i (shown ++ utf8_all " is now " ++ name)
        (say_to i msg_ok "username changed" (set_name i name s))

unfoldable pub handle_nick : ℕ → Bytes → Server → Server
unfolding read_name name_taken safe_enqueue_text broadcast_system
handle_nick i payload s = nick_as (read_name payload) i s
