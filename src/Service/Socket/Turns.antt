-- ===== src/Service/Socket/Turns.antt =====
-- What happens on a connection of the gateway service (gateway/app/main.py) from its opening on, and an
-- account of it that knows nothing of frames: a queue of messages that wait, and the rows to be saved.
use mathlib.Core.Option
use channel_wire.Service.Database.Soundness.{channel_row, dm_row}
use channel_wire.Urls.Escapes.{utf8_all}
use channel_wire.Service.Wire.Agreement.{wire, AreFramed}
use channel_wire.Core.Server.Messages.{
  msg_system, msg_list_resp, msg_dm_recv, msg_who_resp, msg_chat, msg_ok,
}
use channel_wire.Core.Protocol.{Bytes}
use channel_wire.Core.Protocol.Strings.{encoded_all}
use channel_wire.Service.Database.{Message, Engine}
use channel_wire.Prelude.{
  nat_eq, ◌⊎◌, length, false, if◌then◌else◌, ◌≡◌, [], ◌+◌, ◌∷◌, ◌==◌, some, List, String, ℕ, ◌++◌,
}
use channel_wire.Service.Requests.{message_of}
use channel_wire.Service.Requests.Accepted.{IsWellFormed, frame_of}
use channel_wire.Service.Socket.{rest_of, Step, core_framed, browser_sent}
use channel_wire.Service.Socket.Direct.{Answer, taken, done, answered}
use channel_wire.Types.{Command, dm}

-- A command of the page; the core's answer to a direct message; an OK for another request; a message in
-- a channel; a direct message from another user; a frame of another type.
pub data Turn : Type 0 where
  asked : Command → Turn
  settled : Answer → Turn
  noticed : String → Turn
  said : (channel sender text : String) → Turn
  heard : (sender text : String) → Turn
  passed : ℕ → Bytes → Turn

-- What the service does.
unfoldable pub turned : Engine → Turn → Step
unfolding browser_sent core_framed encoded_all
turned engine (asked command) c = browser_sent engine (message_of command) c
turned engine (settled answer) c = answered engine answer c
turned engine (noticed message) c = core_framed engine msg_ok (utf8_all message) c
turned engine (said channel sender text) c =
    core_framed engine msg_chat (encoded_all (wire (channel ∷ sender ∷ text ∷ []))) c
turned engine (heard sender text) c =
    core_framed engine msg_dm_recv (encoded_all (wire (sender ∷ text ∷ []))) c
turned engine (passed msg_type payload) c = core_framed engine msg_type payload c

unfoldable pub all_turned : Engine → List Turn → Step
unfolding turned
all_turned engine [] c = some c
all_turned engine (turn ∷ turns) c = Option.bind (turned engine turn c) (all_turned engine turns)

abbrev pub Queue : Type 0
Queue = List (String × String)

-- A direct message of the page waits at the end.
abbrev pub noted_in : Queue → Command → Queue
noted_in ps (dm target text) = ps ++ ((target, text) ∷ [])
noted_in ps _ = ps

-- The direct messages that wait after a turn.
abbrev pub waiting_after : Queue → Turn → Queue
waiting_after ps (asked command) = noted_in ps command
waiting_after ps (settled answer) = rest_of ps
waiting_after ps _ = ps

abbrev pub taken_row : ℕ → String → Queue → Answer → List Message
taken_row n username ((target, text) ∷ ps) taken = dm_row n username target text ∷ []
taken_row n username _ _ = []

-- The rows that a turn adds to the table, with identifiers from `n` on, where `active` has the number of
-- connections of each user.
abbrev pub rows_of : ℕ → String → (String → ℕ) → Queue → Turn → List Message
rows_of n username active ps (settled answer) = taken_row n username ps answer
rows_of n username active ps (said channel sender text) =
    if sender == username then channel_row n channel sender text ∷ [] else []
rows_of n username active ps (heard sender text) =
    if nat_eq (active sender) 0 then dm_row n sender username text ∷ [] else []
rows_of n username active ps _ = []

unfoldable pub all_waiting : Queue → List Turn → Queue
all_waiting ps [] = ps
all_waiting ps (turn ∷ turns) = all_waiting (waiting_after ps turn) turns

unfoldable pub all_rows : ℕ → String → (String → ℕ) → Queue → List Turn → List Message
all_rows n username active ps [] = []
all_rows n username active ps (turn ∷ turns) =
    let rows = rows_of n username active ps turn in
    rows ++ all_rows (n + length rows) username active (waiting_after ps turn) turns

-- A command with a message to the user itself is left out.
abbrev pub IsPlain : String → Command → Type 0
IsPlain username (dm target text) = (username == target) ≡ false
IsPlain username _ = Unit

-- A message waits first, and it is not to the user itself.
abbrev pub FirstIsOther : String → Queue → Type 0
FirstIsOther username [] = ⊥
FirstIsOther username ((target, text) ∷ ps) = (username == target) ≡ false

-- A turn that may come: the core answers only where a message waits.
abbrev pub MayCome : String → Queue → Turn → Type 0
MayCome username ps (asked command) =
    IsPlain username command × IsWellFormed command × AreFramed (frame_of command).1
MayCome username ps (settled answer) = FirstIsOther username ps
MayCome username ps (noticed message) = (message == done) ≡ false
MayCome username ps (said channel sender text) = AreFramed (channel ∷ sender ∷ text ∷ [])
MayCome username ps (heard sender text) =
    ((sender == username) ≡ false) × AreFramed (sender ∷ text ∷ [])
MayCome username ps (passed msg_type payload) =
    (msg_type ≡ msg_who_resp) ⊎ ((msg_type ≡ msg_list_resp) ⊎ (msg_type ≡ msg_system))

abbrev pub AllMayCome : String → Queue → List Turn → Type 0
AllMayCome username ps [] = Unit
AllMayCome username ps (turn ∷ turns) =
    MayCome username ps turn × AllMayCome username (waiting_after ps turn) turns
