-- ===== src/Service/Mismatches.antt =====
-- Where the gateway service (gateway/app/main.py) and the chat core (core/src/server.c) do not fit
-- together.
use channel_wire.Service.Database.{Engine}
use channel_wire.Service.Text.Decoding.{decode-utf8_all}
use channel_wire.Service.Text.{decode_replacing}
use mathlib.Core.Option
use channel_wire.Core.Protocol.Names.{valid_name-is_recipient}
use channel_wire.Service.Journey.Single.{read_one_string-encoded_all}
use channel_wire.Service.Letters.{dm_to-clients, is_recipient-IsWhole}
use channel_wire.Service.Database.Soundness.{dm_row, IsSound}
use channel_wire.World.Setters.{wait_for}
use channel_wire.Core.Server.Messages.{msg_error}
use channel_wire.Core.Server.Names.{same_name_refl}
use channel_wire.Core.Server.Enqueued.{enqueue-at, queued, has_room}
use channel_wire.Service.Wire.Agreement.{string_payload-encoded_all, wire}
use channel_wire.Core.Protocol.Strings.{encoded_all}
use channel_wire.Text.{is_recipient}
use channel_wire.Urls.Escapes.{utf8_all}
use channel_wire.Stats.{core_responded}
use channel_wire.Service.Replies.{core_error, event, gateway_event}
use channel_wire.Core.Protocol.{valid_name, max_payload_size, write_strings, Bytes}
use channel_wire.Core.Server.Handlers.{dm_to, read_name, handle_hello}
use channel_wire.Service.Endpoints.{
  as_text, Registration, open_registered_core, hello_payload, core_stats_response,
  channels_response, http_exception, status_code,
}
use channel_wire.Service.Socket.{send_json, Connection, core_framed}
use channel_wire.Service.Socket.Direct.{done, taken_saved, refused, taken, answered, all_answered}
use channel_wire.Core.Server.Events.{handle_frame}
use channel_wire.Prelude.{
  ap, refl, ◌∙◌, ◌++◌, zero, ◌==◌, false, ◌≤◌, subst, length, ℕ_discrete, suc, some, arith, ◌∷◌,
  true, [], ◌≡◌, ◌≢◌, ◌<◌, String, ℕ,
}
use channel_wire.Core.Server.{
  username_in_use, name_cap, no_client, same_name, max_clients, is_user, safe_enqueue_text, Server,
  name_taken,
}
use channel_wire.Types.{GatewayEvent, PlatformStats}
use channel_wire.World.{StatsCaller, channels_head}

-- If an error of the core, which answers some other request, comes while a direct message waits for its
-- answer, the service takes it for that answer: the OK of the message then saves nothing, although the
-- core has passed the message on.
pub taken_not_saved :
    (engine : Engine) (target text reason : String) (c : Connection)
    → c.pending_dms ≡ (target, text) ∷ []
    → (c' : Connection) × (all_answered engine (refused reason ∷ taken ∷ []) c ≡ some c')
      × (c'.db ≡ c.db)
      × (c'.pending_dms ≡ [])
unfolding all_answered core_framed gateway_event Option.bind
taken_not_saved engine target text reason c e =
    let read : decode_replacing (utf8_all reason) ≡ reason = (decode-utf8_all reason).1 in
    let read_ok : decode_replacing (utf8_all done) ≡ done = (decode-utf8_all done).1 in
    (
      send_json (event (GatewayEvent.ok done)) (
          send_json (event (GatewayEvent.error (core_error reason)))
            (record c { pending_dms = [] })),
      rw (read, read_ok, e) refl,
      refl,
      refl,
    )

-- The core answers a direct message to a user whose queue is full with nothing at all; if another message
-- follows, the service takes the OK of the second for one of the first, saves the first, which nobody
-- has received, and leaves the second waiting.
pub lost_saved :
    (engine : Engine) (i t : ℕ) (text payload : Bytes) (s : Server)
    (target lost other sent : String) (c : Connection)
    → i ≢ t
    → write_strings max_payload_size [] ((s.clients i).username ∷ text ∷ []) ≡ some payload
    → length payload ≤ max_payload_size
    → has_room s t payload ≡ false
    → c.pending_dms ≡ (target, lost) ∷ (other, sent) ∷ []
    → (c.username == target) ≡ false
    → IsSound c.db
    → ((dm_to (some t) text i s).clients i ≡ s.clients i)
      × ((dm_to (some t) text i s).clients t ≡ no_client)
      × (c' : Connection) × (answered engine taken c ≡ some c')
      × (c'.pending_dms ≡ (other, sent) ∷ [])
      × (c'.db.messages ≡ c.db.messages ++ (dm_row c.db.next_id c.username target lost ∷ []))
lost_saved engine i t text payload s target lost other sent c apart written short full e others
      sound =
    let after = dm_to-clients i t text payload s apart written short in
    let saved = taken_saved engine target lost ((other, sent) ∷ []) c e others sound in
    (rw full at after.1, rw full at after.0, saved.0, saved.1, saved.2, saved.6)

name_taken-user :
    (s : Server) (name : Bytes) (except n i : ℕ)
    → i < n
    → i ≢ except
    → is_user s i ≡ true
    → (s.clients i).username ≡ name
    → name_taken s name except n ≡ true
unfolding name_taken
name_taken-user s name except zero i below other user e =
    let never : ⊥ = omega arith in elim never [ ]
name_taken-user s name except (suc n) i below other user e = elim (ℕ_discrete i n) [
  | yes last ↦
      let named : (s.clients n).username ≡ name =
        subst (λ x. (s.clients x).username ≡ name) last e in
      let same : same_name (s.clients n).username name ≡ true = rw named (same_name_refl name) in
      let user_n : is_user s n ≡ true = subst (λ x. is_user s x ≡ true) last user in ground arith
  | no less ↦
      let earlier = name_taken-user s name except n i (omega arith) other user e in
      ground (arith, earlier)
]

in_use_short : length (utf8_all "username already in use") ≤ max_payload_size
unfolding utf8_all
in_use_short = omega arith

refused_detail :
    open_registered_core msg_error (utf8_all "username already in use")
    ≡ Registration.refused 409 "username already in use"
unfolding open_registered_core
refused_detail = ap (Registration.refused 409) (decode-utf8_all "username already in use").1

-- While a user is connected, the core refuses the HELLO of every other connection that the service opens
-- in the name of that user, with the text "username already in use". At that frame `/core-stats` and
-- `/channels` fail with the status 409 and that text, whatever would come next; and the page, at the
-- status of `/core-stats`, goes on to the channels without figures of the core.
pub figures_refused :
    (i j next_type : ℕ) (next : Bytes) (user token : String) (caller : StatsCaller)
    (platform : PlatformStats) (s : Server)
    → i < max_clients
    → i ≢ j
    → is_user s i ≡ true
    → (s.clients i).username ≡ utf8_all user
    → is_recipient user ≡ true
    → (request : Bytes) × (hello_payload user ≡ some request)
      × ((handle_frame j 1 request s).clients j
          ≡ queued s.max_queue_bytes msg_error (utf8_all "username already in use") (s.clients j))
      × (let refusal = open_registered_core msg_error (utf8_all "username already in use") in
          (core_stats_response refusal next_type next
            ≡ http_exception 409 (as_text "username already in use"))
          × (channels_response refusal next_type next
              ≡ http_exception 409 (as_text "username already in use"))
          × (core_responded token caller platform
                (status_code (core_stats_response refusal next_type next))
              ≡ wait_for (channels_head token caller)))
unfolding handle_frame handle_hello safe_enqueue_text core_responded read_name hello_payload
    core_stats_response channels_response
figures_refused i j next_type next user token caller platform s below apart is_in named valid =
    let plain = is_recipient-IsWhole user valid in
    let read = read_one_string-encoded_all user name_cap plain.0 plain.1 (omega arith) in
    let good : valid_name (utf8_all user) 1 name_cap ≡ true =
      valid_name-is_recipient user ∙ valid in
    let in_use : username_in_use s (utf8_all user) j ≡ true =
      name_taken-user s (utf8_all user) j max_clients i below apart is_in named in
    (
      encoded_all (wire (user ∷ [])),
      string_payload-encoded_all (user ∷ []) (omega arith, tt),
      rw (read, good, in_use)
          (enqueue-at j msg_error (utf8_all "username already in use") s in_use_short),
      (rw refused_detail refl, rw refused_detail refl, rw refused_detail refl),
    )
