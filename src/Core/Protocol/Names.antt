-- ===== src/Core/Protocol/Names.antt =====
-- The username test of the page (`sendDirect` of frontend/src/main.tsx) against the test of the core
-- (`cw_valid_name` of core/src/protocol.c).
use text.Mathlib.TextLemmas.{length-cons}
use Prim.Native.String.{count}
use channel_wire.Prelude.{
  ℕ, Char, code, String, true, false, [], ◌∷◌, ◌++◌, length, Bool-cases, inl, inr, ◌≡◌, refl, arith,
}
use channel_wire.Text.{all_chars, is_name_char, is_recipient}
use channel_wire.Urls.{utf8}
use channel_wire.Urls.Escapes.{utf8_all}
use channel_wire.Core.Protocol.{name_byte, Bytes, all_name_bytes, valid_name}

name_char-utf8 : (n : ℕ) → name_byte n ≡ true → utf8 n ≡ n ∷ []
unfolding utf8
name_char-utf8 n h = ground arith

other-utf8 : (n : ℕ) (rest : Bytes) → name_byte n ≡ false → all_name_bytes (utf8 n ++ rest) ≡ false
unfolding utf8 all_name_bytes
other-utf8 n rest h = ground arith

name_char-byte : (c : Char) → is_name_char c ≡ name_byte (code c)
unfolding is_name_char
name_char-byte c = ground arith

all_name_bytes-utf8_all : (s : String) → all_name_bytes (utf8_all s) ≡ all_chars is_name_char s
unfolding utf8_all all_chars all_name_bytes
all_name_bytes-utf8_all String.[] = refl
all_name_bytes-utf8_all (String.◌∷◌ c s) = elim (Bool-cases (name_byte (code c))) [
  | inl plain ↦
      rw (name_char-utf8 (code c) plain, name_char-byte c, plain, all_name_bytes-utf8_all s) refl
  | inr other ↦ rw (name_char-byte c, other) (other-utf8 (code c) (utf8_all s) other)
]

length-utf8_all : (s : String) → all_chars is_name_char s ≡ true → length (utf8_all s) ≡ count s
unfolding utf8_all all_chars
length-utf8_all String.[] h = refl
length-utf8_all (String.◌∷◌ c s) h =
    let byte : name_byte (code c) ≡ true = ground (arith, name_char-byte c) in
    let rest : all_chars is_name_char s ≡ true = ground arith in
    rw (name_char-utf8 (code c) byte, length-cons, length-utf8_all s rest) refl

pub valid_name-is_recipient : (s : String) → valid_name (utf8_all s) 1 32 ≡ is_recipient s
unfolding valid_name is_recipient
valid_name-is_recipient s = elim (Bool-cases (all_chars is_name_char s)) [
  | inl plain ↦ rw (all_name_bytes-utf8_all s, plain, length-utf8_all s plain) (ground arith)
  | inr other ↦ rw (all_name_bytes-utf8_all s, other) (ground arith)
]
