-- ===== src/Service/Socket/Asked.antt =====
-- What a connection of the gateway service (gateway/app/main.py) does at a command of the page.
use channel_wire.Urls.Escapes.{utf8_all}
use mathlib.Core.List.{append-nil}
use channel_wire.Core.Protocol.{to_be32, Bytes}
use channel_wire.Service.Requests.{message_of}
use channel_wire.Service.Wire.Agreement.{length-encoded_all, wire, AreFramed}
use channel_wire.Service.Requests.Accepted.{core_payload-message_of, IsWellFormed, frame_of}
use channel_wire.Service.Database.Soundness.{IsSound}
use channel_wire.Core.Protocol.Strings.{encoded_all}
use channel_wire.Json.{find_member}
use channel_wire.Service.Wire.{encode_frame}
use channel_wire.Service.Database.{add_membership, transact, Message, Engine}
use channel_wire.Prelude.{
  false, refl, ltb, ◌∙◌, ◌∷◌, sym, ◌+◌, some, ◌++◌, ◌*◌, ◌≡◌, arith, [], ◌≤◌, Option, String,
  length, List,
}
use mathlib.Core.Option
use channel_wire.Service.Socket.{Connection, browser_sent, noted, stored}
use channel_wire.Service.Socket.Turns.{Queue, waiting_after, MayCome, asked}
use channel_wire.Service.Database.Commits.{add_membership-saved}
use channel_wire.Types.{Command, dm, join, switch, list, who, quit, leave, say}

-- A result: the messages that wait, and the rows that are added to a database that stays sound; the
-- user, and the numbers of connections, are as they were.
abbrev pub Becomes : Connection → Queue → List Message → Option Connection → Type 0
Becomes c ps rows o =
    (c' : Connection) × (o ≡ some c')
    × (c'.pending_dms ≡ ps)
    × (c'.username ≡ c.username)
    × (c'.active_gateway_users ≡ c.active_gateway_users)
    × IsSound c'.db
    × (c'.db.next_id ≡ c.db.next_id + length rows)
    × (c'.db.messages ≡ c.db.messages ++ rows)

encoded_all-bound :
    (vs : List String) → AreFramed vs → length (encoded_all (wire vs)) ≤ 65537 * length vs
unfolding encoded_all
encoded_all-bound [] h = omega arith
encoded_all-bound (v ∷ vs) (short, h) =
    omega (arith, length-encoded_all (utf8_all v) (wire vs), encoded_all-bound vs h)

few_texts : (command : Command) → length (frame_of command).1 ≤ 2
few_texts list = omega arith
few_texts who = omega arith
few_texts quit = omega arith
few_texts (join channel) = omega arith
few_texts (switch channel) = omega arith
few_texts (leave channel) = omega arith
few_texts (say text) = omega arith
few_texts (dm target text) = omega arith

-- A command that is noted is sent to the core.
asked-sent :
    (engine : Engine) (command : Command) (c c1 : Connection)
    → IsWellFormed command
    → AreFramed (frame_of command).1
    → noted engine (frame_of command).0 (message_of command) c ≡ some c1
    → (frame : Bytes) × (browser_sent engine (message_of command) c
        ≡ some (record c1 { to_core = c1.to_core ++ (frame ∷ []) }))
unfolding browser_sent encode_frame Option.bind
asked-sent engine command c c1 h framed noted_as =
    let payload = encoded_all (wire (frame_of command).1) in
    let bound = encoded_all-bound (frame_of command).1 framed in
    let few = few_texts command in
    let small : ltb 0xFFFFFFFF (length payload) ≡ false = ground arith in
    (
      (frame_of command).0 ∷ (to_be32 (length payload) ++ payload),
      rw (core_payload-message_of command h framed, noted_as, small) refl,
    )

-- A command that is only sent to the core.
plain-Becomes :
    (engine : Engine) (command : Command) (c : Connection)
    → IsWellFormed command
    → AreFramed (frame_of command).1
    → noted engine (frame_of command).0 (message_of command) c ≡ some c
    → IsSound c.db
    → Becomes c c.pending_dms [] (browser_sent engine (message_of command) c)
plain-Becomes engine command c h framed noted_as sound =
    let sent = asked-sent engine command c c h framed noted_as in
    (_, sent.1, refl, refl, refl, sound, omega arith, sym (append-nil c.db.messages))

-- A JOIN or a SWITCH, whose membership is saved first.
member-Becomes :
    (engine : Engine) (command : Command) (channel : String) (c : Connection)
    → IsWellFormed command
    → AreFramed (frame_of command).1
    → noted engine (frame_of command).0 (message_of command) c
      ≡ stored (transact engine (add_membership c.username channel) c.db) c
    → IsSound c.db
    → Becomes c c.pending_dms [] (browser_sent engine (message_of command) c)
member-Becomes engine command channel c h framed noted_as sound =
    let saved = add_membership-saved engine c.username channel c.db sound in
    let c1 = record c { db = saved.0 } in
    let sent = asked-sent engine command c c1 h framed (noted_as ∙ rw saved.1 refl) in
    (
      _,
      sent.1,
      refl,
      refl,
      refl,
      saved.2,
      rw saved.4 (omega arith),
      saved.3 ∙ sym (append-nil c.db.messages),
    )

pub asked-Becomes :
    (engine : Engine) (command : Command) (c : Connection)
    → MayCome c.username c.pending_dms (asked command)
    → IsSound c.db
    → Becomes c
        (waiting_after c.pending_dms (asked command))
        []
        (browser_sent engine (message_of command) c)
unfolding find_member
asked-Becomes engine list c (_, h, g) sound = plain-Becomes engine list c h g refl sound
asked-Becomes engine who c (_, h, g) sound = plain-Becomes engine who c h g refl sound
asked-Becomes engine quit c (_, h, g) sound = plain-Becomes engine quit c h g refl sound
asked-Becomes engine (join channel) c (_, h, g) sound =
    member-Becomes engine (join channel) channel c h g refl sound
asked-Becomes engine (switch channel) c (_, h, g) sound =
    member-Becomes engine (switch channel) channel c h g refl sound
asked-Becomes engine (leave channel) c (_, h, g) sound =
    plain-Becomes engine (leave channel) c h g refl sound
asked-Becomes engine (say text) c (_, h, g) sound = plain-Becomes engine (say text) c h g refl sound
asked-Becomes engine (dm target text) c (_, h, g) sound =
    let c1 = record c { pending_dms = c.pending_dms ++ ((target, text) ∷ []) } in
    let sent = asked-sent engine (dm target text) c c1 h g refl in
    (_, sent.1, refl, refl, refl, sound, omega arith, sym (append-nil c.db.messages))
