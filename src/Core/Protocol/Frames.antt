-- ===== src/Core/Protocol/Frames.antt =====
-- Frame headers are read as they were written (core/src/protocol.c).
use channel_wire.Prelude.{ℕ, ◌/◌, ◌%◌, ◌<◌, ◌^◌, none, some, ◌++◌, leb, if◌then◌else◌, ◌≡◌, arith}
use channel_wire.Core.Protocol.{
  Bytes, max_payload_size, from_be32, from_be16, parse_header, write_header,
}

from_be32-to_be32 :
    (n : ℕ)
    → n < 2 ^ 32
    → from_be32 (n / 16777216 % 256) (n / 65536 % 256) (n / 256 % 256) (n % 256) ≡ n
from_be32-to_be32 n h = omega arith

pub from_be16-to_be16 : (n : ℕ) → n < 65536 → from_be16 (n / 256 % 256) (n % 256) ≡ n
from_be16-to_be16 n h = omega arith

-- A header that is written for a payload of at most 4096 bytes is read back, whatever follows it in
-- the buffer, and one for a longer payload, of any 32-bit length, is refused.
pub parse_header-write_header :
    (type n : ℕ) (rest : Bytes)
    → n < 2 ^ 32
    → parse_header (write_header type n ++ rest)
      ≡ (if leb n max_payload_size then some (record { type = type; payload_len = n }) else none)
unfolding parse_header write_header
parse_header-write_header type n rest h = rw (from_be32-to_be32 n h) (ground arith)
