-- ===== src/Service/Endpoints.antt =====
-- The endpoints of gateway/app/main.py that open a connection of their own to the chat core, in the name
-- of the user who asks: `/core-stats` and `/channels`.
use channel_wire.Core.Server.Messages.{msg_ok}
use channel_wire.Core.Protocol.{Bytes}
use channel_wire.Prelude.{
  nat_eq, none, not, [], false, ◌∷◌, if◌then◌else◌, some, true, Option, String, ℕ, Bool,
}
use channel_wire.Service.Wire.{string_payload}
use channel_wire.Service.Replies.{gateway_event, Reply, event, core_stats}
use channel_wire.Types.{GatewayEvent}
use channel_wire.Service.Text.{decode_replacing}

-- What comes of `open_registered_core`: a connection, or an HTTPException with its status and detail.
pub data Registration : Type 0 where
  registered : Registration
  refused : ℕ → String → Registration

-- The payload of the HELLO that it sends.
unfoldable pub hello_payload : String → Option Bytes
unfolding string_payload
hello_payload username = string_payload (username ∷ [])

-- `open_registered_core`, at the first frame of the core after the HELLO.
unfoldable pub open_registered_core : ℕ → Bytes → Registration
unfolding decode_replacing
open_registered_core msg_type payload =
    if not (nat_eq msg_type msg_ok) then refused 409 (decode_replacing payload) else registered

pub data Detail : Type 0 where
  as_text : String → Detail
  as_event : Reply → Detail

-- What an endpoint comes to: a body, an HTTPException, or an exception that the source does not catch,
-- for which the library answers 500.
pub data Response : Type 0 where
  body : Reply → Response
  http_exception : ℕ → Detail → Response
  uncaught : Response

abbrev pub status_code : Response → ℕ
status_code (body r) = 200
status_code (http_exception code detail) = code
status_code uncaught = 500

abbrev pub only_if : (Reply → Bool) → Option Reply → Response
only_if wanted none = uncaught
only_if wanted (some r) = if wanted r then body r else http_exception 502 (as_event r)

-- The core's first frame is its answer to HELLO, the second that to the request.
abbrev pub answered_by : (Reply → Bool) → Registration → ℕ → Bytes → Response
answered_by wanted (refused code detail) msg_type payload = http_exception code (as_text detail)
answered_by wanted registered msg_type payload = only_if wanted (gateway_event msg_type payload)

abbrev pub is_core_stats : Reply → Bool
is_core_stats (core_stats payload) = true
is_core_stats _ = false

abbrev pub is_channels : Reply → Bool
is_channels (event (GatewayEvent.channels names)) = true
is_channels _ = false

-- The handler of `/core-stats`.
unfoldable pub core_stats_response : Registration → ℕ → Bytes → Response
unfolding gateway_event
core_stats_response registration msg_type payload =
    answered_by is_core_stats registration msg_type payload

-- The handler of `/channels`.
unfoldable pub channels_response : Registration → ℕ → Bytes → Response
unfolding gateway_event
channels_response registration msg_type payload =
    answered_by is_channels registration msg_type payload
