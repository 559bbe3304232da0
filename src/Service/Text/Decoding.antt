-- ===== src/Service/Text/Decoding.antt =====
-- What is encoded in UTF-8 is decoded to itself.
use channel_wire.Urls.{utf8}
use channel_wire.Core.Protocol.{Bytes}
use channel_wire.Prelude.{
  ◌++◌, suc, [], Option, List, length, String, Bool-cases, inl, inr, ltb, ltb→lt, length-append,
  refl, ap, ◌∙◌, ◌-◌, ◌*◌, ◌/◌, ◌%◌, ◌<◌, ◌≤◌, ℕ, zero, suc, ◌+◌, code, some, ◌∷◌, ◌≡◌, arith,
}
use text.Mathlib.TextEquality.{Char-path}
use channel_wire.Urls.Escapes.{utf8_all}
use channel_wire.Service.Text.{
  code_points, strict, replacing, decode, decode_replacing, as_char, continued, sequence,
}
use Prim.Native.Char.{char, Char, IsScalar}

as_char-code : (n : ℕ) (p : IsScalar n) → code (as_char n) ≡ n
unfolding as_char
as_char-code n p = ground arith

-- The bytes of a character, by the length of its sequence, are read back; what follows them is left.
sequence_one : (n : ℕ) (rest : Bytes) → n < 0x80 → sequence n rest ≡ (some n, rest)
unfolding sequence
sequence_one n rest h = ground arith

sequence_two :
    (n : ℕ) (rest : Bytes)
    → 0x80 ≤ n
    → n < 0x800
    → sequence (0xC0 + n / 64) ((0x80 + n % 64) ∷ rest) ≡ (some n, rest)
unfolding sequence continued
sequence_two n rest h g =
    let same : (0xC0 + n / 64 - 0xC0) * 64 + (0x80 + n % 64 - 0x80) ≡ n = omega arith in
    ground arith

sequence_three :
    (n : ℕ) (rest : Bytes)
    → IsScalar n
    → 0x800 ≤ n
    → n < 0x10000
    → sequence (0xE0 + n / 4096) ((0x80 + n / 64 % 64) ∷ (0x80 + n % 64) ∷ rest) ≡ (some n, rest)
unfolding sequence continued
sequence_three n rest p h g =
    let same : ((0xE0 + n / 4096 - 0xE0) * 64 + (0x80 + n / 64 % 64 - 0x80)) * 64
          + (0x80 + n % 64 - 0x80)
        ≡ n =
      omega arith in
    ground arith

sequence_four :
    (n : ℕ) (rest : Bytes)
    → 0x10000 ≤ n
    → n < 0x110000
    → sequence
        (0xF0 + n / 262144)
        ((0x80 + n / 4096 % 64) ∷ (0x80 + n / 64 % 64) ∷ (0x80 + n % 64) ∷ rest)
      ≡ (some n, rest)
unfolding sequence continued
sequence_four n rest h g =
    let same : (((0xF0 + n / 262144 - 0xF0) * 64 + (0x80 + n / 4096 % 64 - 0x80)) * 64
              + (0x80 + n / 64 % 64 - 0x80))
            * 64
          + (0x80 + n % 64 - 0x80)
        ≡ n =
      omega arith in
    ground arith

code_points-utf8 :
    (n fuel : ℕ) (rest : Bytes)
    → IsScalar n
    → code_points (suc fuel) (utf8 n ++ rest) ≡ some n ∷ code_points fuel rest
unfolding code_points utf8
code_points-utf8 n fuel rest p = elim (Bool-cases (ltb n 0x80)) [
  | inl short ↦ rw (short, sequence_one n rest (ltb→lt n 0x80 short)) refl
  | inr long ↦ elim (Bool-cases (ltb n 0x800)) [
    | inl two ↦ rw (long, two, sequence_two n rest (ground arith) (ltb→lt n 0x800 two)) refl
    | inr more ↦ elim (Bool-cases (ltb n 0x10000)) [
      | inl three ↦
          rw (long, more, three, sequence_three n rest p (ground arith) (ltb→lt n 0x10000 three))
            refl
      | inr four ↦ rw (long, more, four, sequence_four n rest (ground arith) (ground arith)) refl
    ]
  ]
]

pub utf8-ne-nil : (n : ℕ) → 1 ≤ length (utf8 n)
unfolding utf8
utf8-ne-nil n = ground arith

-- The code points of a text, all of them there.
codes : String → List (Option ℕ)
codes String.[] = []
codes (String.◌∷◌ c s) = some (code c) ∷ codes s

code_points-utf8_all :
    (s : String) (fuel : ℕ) → length (utf8_all s) ≤ fuel → code_points fuel (utf8_all s) ≡ codes s
unfolding utf8_all codes code_points
code_points-utf8_all String.[] zero enough = refl
code_points-utf8_all String.[] (suc fuel) enough = refl
code_points-utf8_all (String.◌∷◌ (char n p) s) zero enough =
    let bytes = utf8-ne-nil n in
    let both = length-append (utf8 n) (utf8_all s) in let never : ⊥ = omega arith in elim never [ ]
code_points-utf8_all (String.◌∷◌ (char n p) s) (suc fuel) enough =
    let bytes = utf8-ne-nil n in
    let both = length-append (utf8 n) (utf8_all s) in
    code_points-utf8 n fuel (utf8_all s) p
    ∙ ap (λ l. some n ∷ l) (code_points-utf8_all s fuel (omega arith))

as_char-lem : (c : Char) → as_char (code c) ≡ c
as_char-lem (char n p) = Char-path _ _ (as_char-code n p)

strict-codes : (s : String) → strict (codes s) ≡ some s
unfolding strict codes
strict-codes String.[] = refl
strict-codes (String.◌∷◌ c s) = rw (strict-codes s, as_char-lem c) refl

replacing-codes : (s : String) → replacing (codes s) ≡ s
unfolding replacing codes
replacing-codes String.[] = refl
replacing-codes (String.◌∷◌ c s) = rw (replacing-codes s, as_char-lem c) refl

-- Decoding gives back every text from its UTF-8, in both modes.
pub decode-utf8_all :
    (s : String) → (decode (utf8_all s) ≡ some s) × (decode_replacing (utf8_all s) ≡ s)
unfolding decode decode_replacing
decode-utf8_all s =
    let same = code_points-utf8_all s (length (utf8_all s)) (omega arith) in
    (ap strict same ∙ strict-codes s, ap replacing same ∙ replacing-codes s)
