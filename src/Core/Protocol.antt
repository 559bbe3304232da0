-- ===== src/Core/Protocol.antt =====
-- The wire protocol of the chat core (core/src/protocol.c): a frame has a type, the length of its
-- payload in network order, and the payload; a string in a payload has its length before it.
-- A buffer is the list of the bytes that it holds, and its `len` is the length of that list.
pub mod Frames
pub mod Strings
pub mod Names
use channel_wire.Prelude.{
  ℕ, ◌+◌, ◌*◌, ◌/◌, ◌%◌, Bool, true, false, ◌&&◌, ◌||◌, Option, none, some, List, [], ◌∷◌, ◌++◌,
  length, take, drop, ltb, leb, nat_eq, if◌then◌else◌,
}

abbrev pub Bytes : Type 0
Bytes = List ℕ

abbrev pub max_payload_size : ℕ
max_payload_size = 4096

abbrev pub max_string_size : ℕ
max_string_size = 1024

pub record FrameHeader : Type 0 where
  pub type : ℕ
  pub payload_len : ℕ

-- `ntohl` and `ntohs` of bytes in memory.
abbrev pub from_be32 : ℕ → ℕ → ℕ → ℕ → ℕ
from_be32 a b c d = ((a * 256 + b) * 256 + c) * 256 + d

abbrev pub from_be16 : ℕ → ℕ → ℕ
from_be16 a b = a * 256 + b

abbrev pub to_be32 : ℕ → Bytes
to_be32 n = (n / 16777216 % 256) ∷ (n / 65536 % 256) ∷ (n / 256 % 256) ∷ (n % 256) ∷ []

abbrev pub to_be16 : ℕ → Bytes
to_be16 n = (n / 256 % 256) ∷ (n % 256) ∷ []

-- `cw_parse_header`
unfoldable pub parse_header : Bytes → Option FrameHeader
parse_header (t ∷ a ∷ b ∷ c ∷ d ∷ rest) =
    if ltb max_payload_size (from_be32 a b c d)
    then none
    else some (record { type = t; payload_len = from_be32 a b c d })
parse_header _ = none

-- `cw_write_header`: the five bytes that it writes.
unfoldable pub write_header : ℕ → ℕ → Bytes
write_header type payload_len = type ∷ to_be32 payload_len

abbrev pub length_at : Bytes → ℕ
length_at (a ∷ b ∷ rest) = from_be16 a b
length_at _ = 0

-- `cw_read_string`: the bytes that it copies out, if it returns 0, and the offset that it leaves.
unfoldable pub read_string : Bytes → ℕ → ℕ → Option Bytes × ℕ
read_string payload offset out_cap =
    if nat_eq out_cap 0 || ltb (length payload) (offset + 2)
    then (none, offset)
    else if ltb max_string_size (length_at (drop offset payload))
        || ltb (length payload) (offset + 2 + length_at (drop offset payload))
        || leb out_cap (length_at (drop offset payload))
    then (none, offset + 2)
    else (
      some (take (length_at (drop offset payload)) (drop (offset + 2) payload)),
      offset + 2 + length_at (drop offset payload),
    )

-- `cw_write_string`: `written` is the first `*offset` bytes of the payload, before and after.
unfoldable pub write_string : ℕ → Bytes → Bytes → Option Bytes
write_string payload_cap written value =
    if ltb 65535 (length value) || ltb max_string_size (length value)
    then none
    else if ltb payload_cap (length written + 2 + length value)
    then none
    else some (written ++ (to_be16 (length value) ++ value))

abbrev pub and_then : Option Bytes → (Bytes → Option Bytes) → Option Bytes
and_then none f = none
and_then (some b) f = f b

-- The rest of the reads is made where the first one succeeds.
abbrev pub then_read : Option Bytes → ℕ → Option (List Bytes) × ℕ → Option (List Bytes) × ℕ
then_read none offset rest = (none, offset)
then_read (some b) offset (none, offset') = (none, offset')
then_read (some b) offset (some bs, offset') = (some (b ∷ bs), offset')

-- The loop over the strings of a payload, as `enqueue_strings` of core/src/server.c runs it.
unfoldable pub write_strings : ℕ → Bytes → List Bytes → Option Bytes
write_strings payload_cap written [] = some written
write_strings payload_cap written (v ∷ vs) =
    and_then (write_string payload_cap written v) (λ w. write_strings payload_cap w vs)

-- Reads in turn, each into a buffer of its size, as `handle_dm` of core/src/server.c makes two.
unfoldable pub read_strings : Bytes → ℕ → List ℕ → Option (List Bytes) × ℕ
read_strings payload offset [] = (some [], offset)
read_strings payload offset (size ∷ caps) =
    let first = read_string payload offset size in
    then_read first.0 first.1 (read_strings payload first.1 caps)

-- `isalnum` of the C locale.
abbrev pub is_alnum : ℕ → Bool
is_alnum c = (leb b'A' c && leb c b'Z') || (leb b'a' c && leb c b'z') || (leb b'0' c && leb c b'9')

abbrev pub name_byte : ℕ → Bool
name_byte c = is_alnum c || nat_eq c b'_' || nat_eq c b'-' || nat_eq c b'.'

unfoldable pub all_name_bytes : Bytes → Bool
all_name_bytes [] = true
all_name_bytes (c ∷ cs) = name_byte c && all_name_bytes cs

-- `cw_valid_name`, for the bytes of a C string.
unfoldable pub valid_name : Bytes → ℕ → ℕ → Bool
unfolding all_name_bytes
valid_name value min_len max_len =
    if ltb (length value) min_len || ltb max_len (length value) then false else all_name_bytes value
