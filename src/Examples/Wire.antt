-- ===== src/Examples/Wire.antt =====
-- The wire protocol of core/src/protocol.c at concrete frames.
use channel_wire.Prelude.{◌≡◌, refl, some, List, [], ◌∷◌, arith}
use channel_wire.Core.Protocol.Strings.{
  read_strings-write_strings, HaveRoom, read_string_bounds, Outcome,
}
use channel_wire.Core.Protocol.{read_strings, write_string, Bytes, read_string, write_strings}

-- The payload of a direct message: "al", then "hi!".
abbrev direct : Bytes
direct = 0 ∷ 2 ∷ b'a' ∷ b'l' ∷ 0 ∷ 3 ∷ b'h' ∷ b'i' ∷ b'!' ∷ []

abbrev words : List Bytes
words = (b'a' ∷ b'l' ∷ []) ∷ (b'h' ∷ b'i' ∷ b'!' ∷ []) ∷ []

direct_written : write_strings 4096 [] words ≡ some direct
unfolding write_strings write_string
direct_written = refl

read_string_bounds_example : Outcome direct 4 1025 (read_string direct 4 1025)
read_string_bounds_example = read_string_bounds direct 4 1025 (omega arith)

words_fit : HaveRoom words (33 ∷ 1025 ∷ [])
words_fit = (omega arith, (omega arith, tt))

read_strings-write_strings_example : read_strings direct 0 (33 ∷ 1025 ∷ []) ≡ (some words, 9)
read_strings-write_strings_example =
    read_strings-write_strings 4096 words (33 ∷ 1025 ∷ []) direct direct_written words_fit
