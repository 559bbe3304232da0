-- ===== src/Service/Text.antt =====
-- What the gateway service (gateway/app/main.py, tools/channelwire_client.py) uses of Python's strings:
-- `bytes.decode`, `str.splitlines`, `str.strip` and `str.lower`.
pub mod Decoding
use channel_wire.Prelude.{
  ℕ, zero, suc, ◌+◌, ◌-◌, ◌*◌, ◌<◌, Char, code, String, Bool, true, false, not, ◌&&◌, ◌||◌, Option,
  none, some, List, [], ◌∷◌, length, ltb, leb, nat_eq, if◌then◌else◌, arith, dec_lt,
}
use mathlib.Core.Logic.{dite}
use mathlib.Core.Option
use Prim.Native.Char.{char, IsScalar, nul}
use channel_wire.Core.Protocol.{Bytes}
use channel_wire.Text.{all_chars, push_first}

pub low-IsScalar : (n : ℕ) → n < 0xD800 → IsScalar n
low-IsScalar n h = ground arith

pub high-IsScalar : (n : ℕ) → 0xDFFF < n → n < 0x110000 → IsScalar n
high-IsScalar n h g = ground arith

-- The character of a code point, or that of U+0000 for a number that is none.
unfoldable pub as_char : ℕ → Char
as_char n =
    dite (dec_lt n 0xD800) (λ h. char n (low-IsScalar n h))
      (λ h.
        dite (dec_lt 0xDFFF n)
          (λ g. dite (dec_lt n 0x110000) (λ k. char n (high-IsScalar n g k)) (λ k. nul)) (λ g. nul))

-- The continuation bytes of a sequence, the first of them within limits: the code point, or none
-- where one is missing, and the bytes after what was taken.
unfoldable pub continued : ℕ → ℕ → ℕ → ℕ → Bytes → Option ℕ × Bytes
continued zero acc lo hi rest = (some acc, rest)
continued (suc n) acc lo hi [] = (none, [])
continued (suc n) acc lo hi (c ∷ rest) =
    let more = continued n (acc * 64 + (c - 0x80)) 0x80 0xBF rest in
    if leb lo c && leb c hi then more else (none, c ∷ rest)

-- The sequence that a lead byte begins.
unfoldable pub sequence : ℕ → Bytes → Option ℕ × Bytes
unfolding continued
sequence b rest =
    if ltb b 0x80
    then (some b, rest)
    else if ltb b 0xC2
    then (none, rest)
    else if ltb b 0xE0
    then continued 1 (b - 0xC0) 0x80 0xBF rest
    else if ltb b 0xF0
    then continued 2 (b - 0xE0) (if nat_eq b 0xE0 then 0xA0 else 0x80)
        (if nat_eq b 0xED then 0x9F else 0xBF) rest
    else if ltb b 0xF5
    then continued 3 (b - 0xF0) (if nat_eq b 0xF0 then 0x90 else 0x80)
        (if nat_eq b 0xF4 then 0x8F else 0xBF) rest
    else (none, rest)

-- The code points in turn, each `none` a sequence that is cut or wrong. The fuel is the number of
-- bytes, of which each round takes one or more.
unfoldable pub code_points : ℕ → Bytes → List (Option ℕ)
unfolding sequence
code_points fuel [] = []
code_points zero (b ∷ rest) = []
code_points (suc fuel) (b ∷ rest) =
    let first = sequence b rest in first.0 ∷ code_points fuel first.1

-- Every code point must be there: `errors="strict"`.
unfoldable pub strict : List (Option ℕ) → Option String
strict [] = some ""
strict (none ∷ rest) = none
strict (some n ∷ rest) = Option.map (λ s. String.◌∷◌ (as_char n) s) (strict rest)

-- U+FFFD stands for what is wrong: `errors="replace"`.
unfoldable pub replacing : List (Option ℕ) → String
replacing [] = ""
replacing (none ∷ rest) = String.◌∷◌ (as_char 0xFFFD) (replacing rest)
replacing (some n ∷ rest) = String.◌∷◌ (as_char n) (replacing rest)

unfoldable pub decode : Bytes → Option String
unfolding code_points strict as_char
decode bytes = strict (code_points (length bytes) bytes)

unfoldable pub decode_replacing : Bytes → String
unfolding code_points replacing as_char
decode_replacing bytes = replacing (code_points (length bytes) bytes)

-- The line ends of `str.splitlines`; a carriage return with a line feed after it is one.
unfoldable pub is_line_break : Char → Bool
is_line_break c =
    (leb 10 (code c) && leb (code c) 13)
    || (leb 0x1C (code c) && leb (code c) 0x1E)
    || nat_eq (code c) 0x85
    || nat_eq (code c) 0x2028
    || nat_eq (code c) 0x2029

-- `after_cr` tells that the character before was a carriage return, which has ended a line.
unfoldable pub lines : Bool → String → List String
unfolding is_line_break
lines after_cr String.[] = []
lines after_cr (String.◌∷◌ c s) =
    let broken = lines (nat_eq (code c) 13) s in
    let unbroken = lines false s in
    if after_cr && nat_eq (code c) 10
    then unbroken
    else if is_line_break c
    then "" ∷ broken
    else push_first c unbroken

-- White space, as `str.strip` takes it.
unfoldable pub is_py_space : Char → Bool
is_py_space c =
    (leb 9 (code c) && leb (code c) 13)
    || (leb 0x1C (code c) && leb (code c) 0x20)
    || nat_eq (code c) 0x85
    || nat_eq (code c) 0xA0
    || nat_eq (code c) 0x1680
    || (leb 0x2000 (code c) && leb (code c) 0x200A)
    || nat_eq (code c) 0x2028
    || nat_eq (code c) 0x2029
    || nat_eq (code c) 0x202F
    || nat_eq (code c) 0x205F
    || nat_eq (code c) 0x3000

-- `not text.strip()`
unfoldable pub is_blank : String → Bool
unfolding all_chars is_py_space
is_blank s = all_chars is_py_space s
