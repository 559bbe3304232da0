-- ===== src/Service/Requests.antt =====
-- `core_payload_for_command` of gateway/app/main.py: the frame for a message of the browser.
pub mod Accepted
use channel_wire.Types.{Command, list, who, quit, join, switch, leave, say, dm}
use channel_wire.Core.Protocol.{Bytes}
use channel_wire.Service.Text.{is_blank, as_char}
use channel_wire.Text.{is_empty, is_recipient}
use channel_wire.Prelude.{
  ◌+◌, ◌&&◌, ◌||◌, code, [], leb, nat_eq, ◌∷◌, ◌==◌, none, if◌then◌else◌, some, Char, String, ℕ,
  Option,
}
use channel_wire.Service.Wire.{string_payload}
use channel_wire.Json.{member, end, obj, str, Members, value, Json, Access, find_member}

-- `str.lower`, for the comparison with a command: the letters of the commands, and the one other
-- character whose lower case is one of them. The rest is left, since no command has it.
unfoldable pub lower_char : Char → Char
unfolding as_char
lower_char c =
    if leb b'A' (code c) && leb (code c) b'Z'
    then as_char (code c + 32)
    else if nat_eq (code c) 0x212A
    then as_char b'k'
    else c

unfoldable pub lower : String → String
unfolding lower_char
lower String.[] = String.[]
lower (String.◌∷◌ c s) = String.◌∷◌ (lower_char c) (lower s)

-- `CLIENT_COMMANDS`, with the numbers of tools/channelwire_client.py.
unfoldable pub client_commands : String → Option ℕ
client_commands command =
    if command == "join"
    then some 2
    else if command == "switch"
    then some 3
    else if command == "leave"
    then some 4
    else if command == "say"
    then some 5
    else if command == "dm"
    then some 6
    else if command == "who"
    then some 7
    else if command == "list"
    then some 8
    else if command == "nick"
    then some 9
    else if command == "quit"
    then some 10
    else if command == "stats"
    then some 11
    else none

-- What comes of a message: an exception that the caller does not catch, a ValueError with its text, or
-- a frame for the core.
pub data Request : Type 0 where
  raises : Request
  rejected : String → Request
  accepted : ℕ → Bytes → Request

-- The type of the command. `str` of a value that is no text gives the name of no command.
unfoldable pub command_type : Access → Option ℕ
unfolding client_commands lower
command_type (value (str s)) = client_commands (lower s)
command_type _ = none

-- A member that is a text, `isinstance(..., str)`.
abbrev pub text_of : Access → Option String
text_of (value (str s)) = some s
text_of _ = none

abbrev pub framed : ℕ → Option Bytes → Request
framed msg_type none = rejected "string is too large for ChannelWire framing"
framed msg_type (some payload) = accepted msg_type payload

-- A command with one text, which must be there and not be empty.
unfoldable pub one_text : ℕ → String → Option String → Request
unfolding string_payload
one_text msg_type reason none = rejected reason
one_text msg_type reason (some s) =
    if is_empty s then rejected reason else framed msg_type (string_payload (s ∷ []))

abbrev pub user_not_found : String
user_not_found = "User not found. Check the username and try again."

abbrev pub dm_text : String → Option String → Request
dm_text target none = rejected "Enter a message."
dm_text target (some text) =
    if is_blank text
    then rejected "Enter a message."
    else framed 6 (string_payload (target ∷ text ∷ []))

unfoldable pub direct : Option String → Option String → Request
unfolding is_recipient is_blank string_payload
direct none text = rejected user_not_found
direct (some target) text =
    if is_recipient target then dm_text target text else rejected user_not_found

abbrev pub payload_for : Option ℕ → Members → Request
payload_for none ms = rejected "unknown command"
payload_for (some n) ms =
    if nat_eq n 7 || nat_eq n 8 || nat_eq n 10 || nat_eq n 11
    then accepted n []
    else if nat_eq n 2 || nat_eq n 3 || nat_eq n 4
    then one_text n "command requires channel" (text_of (find_member "channel" ms))
    else if nat_eq n 5
    then one_text n "say requires text" (text_of (find_member "text" ms))
    else if nat_eq n 9
    then one_text n "nick requires username" (text_of (find_member "username" ms))
    else direct (text_of (find_member "to" ms)) (text_of (find_member "text" ms))

-- `.get` of a value that is no object raises an AttributeError.
unfoldable pub core_payload_for_command : Json → Request
unfolding find_member command_type one_text direct
core_payload_for_command (obj ms) = payload_for (command_type (find_member "type" ms)) ms
core_payload_for_command _ = raises

-- What `JSON.stringify` of frontend/src/main.tsx and `json.loads` make of a command of the page.
abbrev pub typed : String → Members → Json
typed name ms = obj (member "type" (str name) ms)

abbrev pub message_of : Command → Json
message_of list = typed "list" end
message_of who = typed "who" end
message_of quit = typed "quit" end
message_of (join channel) = typed "join" (member "channel" (str channel) end)
message_of (switch channel) = typed "switch" (member "channel" (str channel) end)
message_of (leave channel) = typed "leave" (member "channel" (str channel) end)
message_of (say text) = typed "say" (member "text" (str text) end)
message_of (dm target text) = typed "dm" (member "to" (str target) (member "text" (str text) end))
