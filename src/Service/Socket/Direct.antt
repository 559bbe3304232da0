-- ===== src/Service/Socket/Direct.antt =====
-- What a connection of the gateway service (gateway/app/main.py) does at the core's answer to a direct
-- message.
use mathlib.Core.Option
use channel_wire.Service.Text.Decoding.{decode-utf8_all}
use channel_wire.Service.Text.{decode_replacing}
use channel_wire.Service.Database.Commits.{save_dm-saved}
use channel_wire.Service.Database.Soundness.{IsSound, dm_row}
use channel_wire.Urls.Escapes.{utf8_all}
use channel_wire.Service.Database.{Engine}
use channel_wire.Core.Server.Messages.{msg_error, msg_ok}
use channel_wire.Prelude.{refl, ◌+◌, ◌++◌, false, ◌==◌, ◌∷◌, [], ◌≡◌, some, List, String}
use channel_wire.Service.Socket.{send_json, Step, Connection, core_framed}
use channel_wire.Types.{GatewayEvent}
use channel_wire.Service.Replies.{core_error, gateway_event, event}

-- The answer of the core to a direct message.
pub data Answer : Type 0 where
  taken : Answer
  refused : String → Answer

abbrev pub done : String
done = "direct message sent"

abbrev pub answered : Engine → Answer → Step
answered engine taken c = core_framed engine msg_ok (utf8_all done) c
answered engine (refused reason) c = core_framed engine msg_error (utf8_all reason) c

unfoldable pub all_answered : Engine → List Answer → Step
unfolding core_framed
all_answered engine [] c = some c
all_answered engine (a ∷ answers) c =
    Option.bind (answered engine a c) (all_answered engine answers)

-- One round, at an OK for a message at the head of the queue.
pub taken_saved :
    (engine : Engine) (target text : String) (ps : List (String × String)) (c : Connection)
    → c.pending_dms ≡ (target, text) ∷ ps
    → (c.username == target) ≡ false
    → IsSound c.db
    → (c' : Connection) × (answered engine taken c ≡ some c')
      × (c'.pending_dms ≡ ps)
      × (c'.username ≡ c.username)
      × IsSound c'.db
      × (c'.db.next_id ≡ c.db.next_id + 1)
      × (c'.db.messages ≡ c.db.messages ++ (dm_row c.db.next_id c.username target text ∷ []))
      × (c'.active_gateway_users ≡ c.active_gateway_users)
unfolding core_framed gateway_event
taken_saved engine target text ps c e apart sound =
    let saved = save_dm-saved engine c.username target text c.db apart sound in
    let read : decode_replacing (utf8_all done) ≡ done = (decode-utf8_all done).1 in
    (
      send_json (event (GatewayEvent.ok done)) (record c { pending_dms = ps; db = saved.0 }),
      rw (read, e, saved.1) refl,
      refl,
      refl,
      saved.2,
      saved.4,
      saved.3,
      refl,
    )

pub refused_dropped :
    (engine : Engine) (reason : String) (p : String × String) (ps : List (String × String))
    (c : Connection)
    → c.pending_dms ≡ p ∷ ps
    → (c' : Connection) × (answered engine (refused reason) c ≡ some c')
      × (c'.pending_dms ≡ ps)
      × (c'.username ≡ c.username)
      × (c'.db ≡ c.db)
      × (c'.active_gateway_users ≡ c.active_gateway_users)
unfolding core_framed gateway_event
refused_dropped engine reason p ps c e =
    let read : decode_replacing (utf8_all reason) ≡ reason = (decode-utf8_all reason).1 in
    (
      send_json (event (GatewayEvent.error (core_error reason))) (record c { pending_dms = ps }),
      rw (read, e) refl,
      refl,
      refl,
      refl,
      refl,
    )
