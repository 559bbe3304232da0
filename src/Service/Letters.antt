-- ===== src/Service/Letters.antt =====
-- A direct message from the page of its sender (frontend/src/main.tsx) through the gateway service
-- (gateway/app/main.py) and the chat core (core/src/server.c) to the page of its recipient.
use channel_wire.Service.Requests.Accepted.{core_payload-message_of}
use channel_wire.Types.{GatewayEvent, dm}
use channel_wire.Service.Requests.{message_of, core_payload_for_command}
use channel_wire.Service.Replies.{event, gateway_event}
use channel_wire.Core.Server.Messages.{msg_ok, msg_dm_recv}
use channel_wire.Core.Server.Enqueued.{
  enqueue_payload-room, enqueue-others, enqueue-at, has_room, queued,
}
use channel_wire.Core.Server.Handlers.{count_direct, enqueue_strings, dm_to}
use channel_wire.Core.Protocol.Names.{valid_name-is_recipient}
use channel_wire.Service.Wire.Agreement.{
  decode_strings-write_strings, string_payload-write_strings, length-encoded_all, wire,
}
use channel_wire.Core.Protocol.Strings.{read_strings-encoded_all, HaveRoom, AreShort, encoded_all}
use channel_wire.Urls.Escapes.{utf8_all}
use channel_wire.Service.Journey.{IsWhole}
use channel_wire.Core.Server.{
  no_client, with_frame, put, safe_enqueue_text, text_cap, max_clients, name_cap, Server,
}
use channel_wire.Service.Journey.Single.{c_string-utf8_all, utf8_all-ne-nil, is_not_nul}
use channel_wire.Core.Protocol.{write_header, max_payload_size, write_strings, Bytes, valid_name}
use channel_wire.Prelude.{
  inr, ap, update_self, sym, update_ne, inl, Bool-cases, if◌then◌else◌, some, ◌≢◌, nat_eq, ◌+◌, ◌∙◌,
  [], ◌∷◌, ◌≤◌, refl, arith, length, false, true, ◌≡◌, ℕ, String,
}
use channel_wire.Core.Server.Handlers.{find_user, handle_dm}
use channel_wire.Text.{is_empty, is_name_char, is_recipient, all_chars}
use channel_wire.Service.Text.{is_blank}
use channel_wire.Service.Requests.{accepted}
use channel_wire.Core.Server.Events.{handle_frame}

pub all_chars-imp : (s : String) → all_chars is_name_char s ≡ true → all_chars is_not_nul s ≡ true
unfolding all_chars is_name_char is_not_nul
all_chars-imp String.[] h = refl
all_chars-imp (String.◌∷◌ c s) h =
    let more : all_chars is_name_char s ≡ true = ground arith in
    let rest = all_chars-imp s more in ground arith

-- A name that the page and the service let pass has no zero byte and at most 32 bytes.
pub is_recipient-IsWhole :
    (target : String)
    → is_recipient target ≡ true
    → (all_chars is_not_nul target ≡ true) × (length (utf8_all target) ≤ name_cap)
unfolding is_recipient valid_name
is_recipient-IsWhole target h =
    let plain : all_chars is_name_char target ≡ true = ground arith in
    let named : valid_name (utf8_all target) 1 32 ≡ true = valid_name-is_recipient target ∙ h in
    (all_chars-imp target plain, ground arith)

is_blank-ne-empty : (text : String) → is_blank text ≡ false → is_empty text ≡ false
unfolding is_blank
is_blank-ne-empty String.[] h = h
is_blank-ne-empty (String.◌∷◌ c s) h = refl

-- The core reads the two texts of a direct message, and looks for the user.
handle_dm-dm_to :
    (i : ℕ) (target text : String) (s : Server)
    → (s.clients i).registered ≡ true
    → is_recipient target ≡ true
    → is_empty text ≡ false
    → IsWhole text
    → handle_frame i 6 (encoded_all (wire (target ∷ text ∷ []))) s
      ≡ dm_to (find_user s (utf8_all target) 0 max_clients) (utf8_all text) i s
unfolding handle_frame handle_dm
handle_dm-dm_to i target text s registered name some_text whole =
    let values = utf8_all target ∷ utf8_all text ∷ [] in
    let plain = is_recipient-IsWhole target name in
    let caps = (name_cap + 1) ∷ (text_cap + 1) ∷ [] in
    let short : AreShort values = (omega arith, (omega arith, tt)) in
    let room : HaveRoom values caps = (omega arith, (omega arith, tt)) in
    let read = read_strings-encoded_all [] values caps short room in
    let bytes = utf8_all-ne-nil text some_text in
    let full : nat_eq (length (utf8_all text)) 0 ≡ false = ground arith in
    let at_end : nat_eq (length (encoded_all values)) (length (encoded_all values)) ≡ true =
      ground arith in
    rw
      (
        registered,
        read,
        at_end,
        c_string-utf8_all target plain.0,
        c_string-utf8_all text whole.0,
        full,
      )
      refl

abbrev pub told_sent : Bytes
told_sent = utf8_all "direct message sent"

-- The core enqueues the message for the recipient, and then the sender's OK; where the recipient has no
-- room it is disconnected, and the sender is told nothing.
pub dm_to-clients :
    (i t : ℕ) (text payload : Bytes) (s : Server)
    → i ≢ t
    → write_strings max_payload_size [] ((s.clients i).username ∷ text ∷ []) ≡ some payload
    → length payload ≤ max_payload_size
    → ((dm_to (some t) text i s).clients t
        ≡ queued s.max_queue_bytes msg_dm_recv payload (s.clients t))
      × ((dm_to (some t) text i s).clients i ≡ (
          if has_room s t payload
          then queued s.max_queue_bytes msg_ok told_sent (s.clients i)
          else s.clients i))
unfolding enqueue_strings safe_enqueue_text utf8_all mathlib.Core.Option.bind write_header
dm_to-clients i t text payload s apart written short = elim (Bool-cases (has_room s t payload)) [
  | inl room ↦
      let s' = put t (with_frame msg_dm_recv payload (s.clients t)) s in
      let told = enqueue-at i msg_ok told_sent (count_direct s') (omega arith) in
      let others = (enqueue-others i msg_ok told_sent (count_direct s')).1 t apart in
      let same : s'.clients i ≡ s.clients i = update_ne s.clients t i _ (λ e. apart (sym e)) in
      rw (written, enqueue_payload-room t msg_dm_recv payload s short, room)
        (
          others ∙ update_self s.clients t _,
          told ∙ ap (queued s.max_queue_bytes msg_ok told_sent) same,
        )
  | inr full ↦
      rw (written, enqueue_payload-room t msg_dm_recv payload s short, full)
        (update_self s.clients t no_client, update_ne s.clients t i no_client (λ e. apart (sym e)))
]

-- A direct message that the page of a registered user sends to another user of the core is framed by the
-- service. If the recipient's queue has room, the recipient gets the frame, the sender gets the OK (or
-- is disconnected for want of room), and the service tells the recipient's page of a direct message from
-- that user with that text; if not, the recipient is disconnected and the sender is told nothing. The
-- text has 1 to 1024 bytes, is not blank and has no U+0000; the sender's name has at most 32 bytes.
pub dm_delivered :
    (i t : ℕ) (user target text : String) (s : Server)
    → i ≢ t
    → (s.clients i).registered ≡ true
    → (s.clients i).username ≡ utf8_all user
    → length (utf8_all user) ≤ name_cap
    → is_recipient target ≡ true
    → is_blank text ≡ false
    → IsWhole text
    → find_user s (utf8_all target) 0 max_clients ≡ some t
    → (request : Bytes) × (payload : Bytes) × (core_payload_for_command
          (message_of (dm target text))
        ≡ accepted 6 request)
      × ((handle_frame i 6 request s).clients t
          ≡ queued s.max_queue_bytes msg_dm_recv payload (s.clients t))
      × ((handle_frame i 6 request s).clients i ≡ (
          if has_room s t payload
          then queued s.max_queue_bytes msg_ok told_sent (s.clients i)
          else s.clients i))
      × (gateway_event msg_dm_recv payload ≡ some (event (GatewayEvent.dm user text)))
unfolding gateway_event encoded_all
dm_delivered i t user target text s apart registered named us name some_text whole found =
    let vs = user ∷ text ∷ [] in
    let plain = is_recipient-IsWhole target name in
    let full = is_blank-ne-empty text some_text in
    let short : AreShort (wire vs) = (omega arith, (omega arith, tt)) in
    let fits : length (encoded_all (wire vs)) ≤ max_payload_size =
      (let one = length-encoded_all (utf8_all user) (utf8_all text ∷ []) in
        let two = length-encoded_all (utf8_all text) [] in omega arith) in
    let both = string_payload-write_strings max_payload_size vs short fits in
    let read = decode_strings-write_strings max_payload_size vs (encoded_all (wire vs)) both.1 in
    let asked = handle_dm-dm_to i target text s registered name full whole in
    let after =
      dm_to-clients i t (utf8_all text) (encoded_all (wire vs)) s apart (rw named both.1) fits in
    (
      encoded_all (wire (target ∷ text ∷ [])),
      encoded_all (wire vs),
      core_payload-message_of (dm target text) (name, some_text) (omega arith, (omega arith, tt)),
      rw (asked, found) after.0,
      rw (asked, found) after.1,
      rw read refl,
    )
