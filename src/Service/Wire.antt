-- ===== src/Service/Wire.antt =====
-- The wire protocol as the gateway service writes and reads it (tools/channelwire_client.py).
pub mod Agreement
use channel_wire.Urls.Escapes.{utf8_all}
use channel_wire.Service.Text.{decode}
use channel_wire.Core.Protocol.{from_be16, to_be32, to_be16, Bytes}
use channel_wire.Prelude.{
  zero, [], take, ◌++◌, drop, suc, ◌∷◌, none, length, some, ltb, List, if◌then◌else◌, String,
  Option, ℕ,
}
use mathlib.Core.Option

-- `string_payload`; `none` is the ValueError for a string that is too long.
unfoldable pub string_payload : List String → Option Bytes
unfolding utf8_all
string_payload [] = some []
string_payload (v ∷ vs) =
    let rest = string_payload vs in
    if ltb 65535 (length (utf8_all v))
    then none
    else Option.map (λ bytes. to_be16 (length (utf8_all v)) ++ (utf8_all v ++ bytes)) rest

-- `encode_frame`
unfoldable pub encode_frame : ℕ → Bytes → Option Bytes
encode_frame msg_type payload =
    if ltb 0xFFFFFFFF (length payload)
    then none
    else some (msg_type ∷ (to_be32 (length payload) ++ payload))

abbrev pub prepend : Option String → Option (List String) → Option (List String)
prepend (some v) (some vs) = some (v ∷ vs)
prepend _ _ = none

-- The loop of `decode_strings` over the bytes that are left. Each round takes two bytes or more, so
-- that their number is enough fuel.
unfoldable pub decode_rest : ℕ → Bytes → Option (List String)
unfolding decode
decode_rest fuel [] = some []
decode_rest zero (a ∷ rest) = none
decode_rest (suc fuel) (a ∷ []) = none
decode_rest (suc fuel) (a ∷ b ∷ rest) =
    let more = decode_rest fuel (drop (from_be16 a b) rest) in
    if ltb (length rest) (from_be16 a b)
    then none
    else prepend (decode (take (from_be16 a b) rest)) more

-- `decode_strings`; `none` is a ValueError.
unfoldable pub decode_strings : Bytes → Option (List String)
unfolding decode_rest
decode_strings payload = decode_rest (length payload) payload
