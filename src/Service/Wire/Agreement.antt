-- ===== src/Service/Wire/Agreement.antt =====
-- The gateway service and the chat core agree on the strings of a payload (tools/channelwire_client.py,
-- core/src/protocol.c).
use channel_wire.Service.Text.Decoding.{decode-utf8_all}
use channel_wire.Service.Text.{decode}
use mathlib.Core.List.{append_assoc, append-nil}
use channel_wire.Core.Protocol.Frames.{from_be16-to_be16}
use mathlib.Core.Option.{some-injective}
use channel_wire.Urls.Escapes.{utf8_all}
use channel_wire.Prelude.{
  refl, zero, drop-append_length, take-append_length, ◌+◌, ◌||◌, length-append, Option-cases, inr,
  ◌%◌, false, ◌/◌, ◌∙◌, inl, sym, suc, Bool-cases, ap, ltb, arith, some, ◌≡◌, map, ◌≤◌, ◌∷◌, [],
  ◌++◌, drop, String, length, List, ℕ,
}
use channel_wire.Service.Wire.{string_payload, decode_rest, decode_strings}
use channel_wire.Core.Protocol.{
  max_string_size, Bytes, to_be16, from_be16, write_string, write_strings,
}
use channel_wire.Core.Protocol.Strings.{write_strings-eq-some, AreShort, encoded, encoded_all}

-- The texts as the core has them.
abbrev pub wire : List String → List Bytes
wire vs = map utf8_all vs

-- Each text has at most 65535 bytes, the limit of the framing.
abbrev pub AreFramed : List String → Type 0
AreFramed [] = Unit
AreFramed (v ∷ vs) = (length (utf8_all v) ≤ 65535) × AreFramed vs

AreShort-AreFramed : (vs : List String) → AreShort (wire vs) → AreFramed vs
AreShort-AreFramed [] h = tt
AreShort-AreFramed (v ∷ vs) (short, rest) = (omega arith, AreShort-AreFramed vs rest)

pub string_payload-encoded_all :
    (vs : List String) → AreFramed vs → string_payload vs ≡ some (encoded_all (wire vs))
unfolding string_payload encoded_all
string_payload-encoded_all [] h = refl
string_payload-encoded_all (v ∷ vs) (fits, rest) =
    let small : ltb 65535 (length (utf8_all v)) ≡ false = ground arith in
    let same = append_assoc (to_be16 (length (utf8_all v))) (utf8_all v) (encoded_all (wire vs)) in
    rw (small, string_payload-encoded_all vs rest) (ap some (sym same))

string_payload-AreFramed :
    (vs : List String) (payload : Bytes) → string_payload vs ≡ some payload → AreFramed vs
unfolding string_payload
string_payload-AreFramed [] payload h = tt
string_payload-AreFramed (v ∷ vs) payload h = elim (Bool-cases (ltb 65535 (length (utf8_all v)))) [
  | inl long ↦ cc (rw long at h)
  | inr small ↦ elim (Option-cases (string_payload vs)) [
    | inl bad ↦ cc (rw (small, bad) at h)
    | inr (rest, good) ↦ (ground arith, string_payload-AreFramed vs rest good)
  ]
]

decode_rest-encoded_all :
    (vs : List String) (fuel : ℕ)
    → AreFramed vs
    → length (encoded_all (wire vs)) ≤ fuel
    → decode_rest fuel (encoded_all (wire vs)) ≡ some vs
unfolding decode_rest encoded_all drop
decode_rest-encoded_all [] zero h enough = refl
decode_rest-encoded_all [] (suc fuel) h enough = refl
decode_rest-encoded_all (v ∷ vs) zero h enough = let never : ⊥ = omega arith in elim never [ ]
decode_rest-encoded_all (v ∷ vs) (suc fuel) (fits, more) enough =
    let n = length (utf8_all v) in
    let rest = encoded_all (wire vs) in
    let size : from_be16 (n / 256 % 256) (n % 256) ≡ n = from_be16-to_be16 n (omega arith) in
    let whole = length-append (utf8_all v) rest in
    let room : ltb (length (utf8_all v ++ rest)) n ≡ false = ground arith in
    let read : decode (utf8_all v) ≡ some v = (decode-utf8_all v).0 in
    let others = decode_rest-encoded_all vs fuel more (omega arith) in
    rw
      (
        size,
        room,
        take-append_length (utf8_all v) rest,
        drop-append_length (utf8_all v) rest,
        read,
        others,
      )
      refl

-- What the service writes into a payload, however many texts, it reads back from it.
pub decode_strings-string_payload :
    (vs : List String) (payload : Bytes)
    → string_payload vs ≡ some payload
    → decode_strings payload ≡ some vs
unfolding decode_strings
decode_strings-string_payload vs payload h =
    let framed = string_payload-AreFramed vs payload h in
    let same : payload ≡ encoded_all (wire vs) =
      some-injective payload (encoded_all (wire vs))
        (sym h ∙ string_payload-encoded_all vs framed) in
    rw same (decode_rest-encoded_all vs (length (encoded_all (wire vs))) framed (omega arith))

write_strings-encoded_all :
    (size : ℕ) (before : Bytes) (values : List Bytes)
    → AreShort values
    → length (before ++ encoded_all values) ≤ size
    → write_strings size before values ≡ some (before ++ encoded_all values)
unfolding write_strings encoded_all write_string
write_strings-encoded_all size before [] short fits = ap some (sym (append-nil before))
write_strings-encoded_all size before (v ∷ vs) (short, more) fits =
    let same = append_assoc before (encoded v) (encoded_all vs) in
    let first = length-append before (encoded v) in
    let all = length-append (before ++ encoded v) (encoded_all vs) in
    let total : length (before ++ (encoded v ++ encoded_all vs))
        ≡ length ((before ++ encoded v) ++ encoded_all vs) =
      ap length (sym same) in
    let small : (ltb 65535 (length v) || ltb max_string_size (length v)) ≡ false = ground arith in
    let room : ltb size (length before + 2 + length v) ≡ false = ground arith in
    rw (small, room)
      (write_strings-encoded_all size (before ++ encoded v) vs more (omega arith) ∙ ap some same)

-- Where no text has more than 1024 bytes and all fit the payload, the core writes the bytes that the
-- service does.
pub string_payload-write_strings :
    (size : ℕ) (vs : List String)
    → AreShort (wire vs)
    → length (encoded_all (wire vs)) ≤ size
    → (string_payload vs ≡ some (encoded_all (wire vs)))
      × (write_strings size [] (wire vs) ≡ some (encoded_all (wire vs)))
string_payload-write_strings size vs short fits = (
  string_payload-encoded_all vs (AreShort-AreFramed vs short),
  write_strings-encoded_all size [] (wire vs) short fits,
)

-- What the core writes into a payload, of texts in UTF-8, the service reads back as those texts.
pub decode_strings-write_strings :
    (size : ℕ) (vs : List String) (payload : Bytes)
    → write_strings size [] (wire vs) ≡ some payload
    → decode_strings payload ≡ some vs
decode_strings-write_strings size vs payload h =
    let w = write_strings-eq-some size [] (wire vs) payload h in
    decode_strings-string_payload vs payload
      (string_payload-encoded_all vs (AreShort-AreFramed vs w.1) ∙ ap some (sym w.0))

pub length-encoded_all :
    (v : Bytes) (vs : List Bytes)
    → length (encoded_all (v ∷ vs)) ≡ 2 + length v + length (encoded_all vs)
unfolding encoded_all
length-encoded_all v vs = length-append (encoded v) (encoded_all vs) ∙ omega arith
