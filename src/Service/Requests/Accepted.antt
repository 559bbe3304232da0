-- ===== src/Service/Requests/Accepted.antt =====
-- The commands of the page at the gateway service and at the chat core: what `send` of
-- frontend/src/main.tsx gives, `core_payload_for_command` of gateway/app/main.py frames, and
-- `handle_frame` of core/src/server.c does.
use channel_wire.Service.Text.{is_blank}
use channel_wire.Service.Wire.Agreement.{string_payload-encoded_all, wire, AreFramed}
use channel_wire.Core.Protocol.Strings.{encoded_all}
use channel_wire.Service.Requests.{accepted, message_of, core_payload_for_command}
use channel_wire.Prelude.{refl, ◌∷◌, true, [], String, false, ◌≡◌, List, ℕ}
use channel_wire.Text.{is_recipient, is_empty}
use channel_wire.Types.{Command, list, who, quit, join, switch, leave, say, dm}

-- The frames that the service makes of the commands that the page sends.
abbrev pub frame_of : Command → ℕ × List String
frame_of list = (8, [])
frame_of who = (7, [])
frame_of quit = (10, [])
frame_of (join channel) = (2, channel ∷ [])
frame_of (switch channel) = (3, channel ∷ [])
frame_of (leave channel) = (4, channel ∷ [])
frame_of (say text) = (5, text ∷ [])
frame_of (dm target text) = (6, target ∷ text ∷ [])

-- What the service asks of a command.
abbrev pub IsWellFormed : Command → Type 0
IsWellFormed (join channel) = is_empty channel ≡ false
IsWellFormed (switch channel) = is_empty channel ≡ false
IsWellFormed (leave channel) = is_empty channel ≡ false
IsWellFormed (say text) = is_empty text ≡ false
IsWellFormed (dm target text) = (is_recipient target ≡ true) × (is_blank text ≡ false)
IsWellFormed _ = Unit

-- Each command of the page is framed, with its texts in order, if these have at most 65535 bytes each,
-- no text is empty, and a direct message is to a possible username and not blank.
pub core_payload-message_of :
    (c : Command)
    → IsWellFormed c
    → AreFramed (frame_of c).1
    → core_payload_for_command (message_of c)
      ≡ accepted (frame_of c).0 (encoded_all (wire (frame_of c).1))
unfolding core_payload_for_command encoded_all
core_payload-message_of list h g = refl
core_payload-message_of who h g = refl
core_payload-message_of quit h g = refl
core_payload-message_of (join channel) h g =
    rw (h, string_payload-encoded_all (channel ∷ []) g) refl
core_payload-message_of (switch channel) h g =
    rw (h, string_payload-encoded_all (channel ∷ []) g) refl
core_payload-message_of (leave channel) h g =
    rw (h, string_payload-encoded_all (channel ∷ []) g) refl
core_payload-message_of (say text) h g = rw (h, string_payload-encoded_all (text ∷ []) g) refl
core_payload-message_of (dm target text) h g =
    rw (h.0, h.1, string_payload-encoded_all (target ∷ text ∷ []) g) refl
