-- ===== src/Service/Journey/Single.antt =====
-- A payload with one text, as the core reads it (core/src/server.c).
use mathlib.Core.List.{append-nil}
use channel_wire.Service.Wire.Agreement.{wire}
use channel_wire.Service.Text.Decoding.{utf8-ne-nil}
use channel_wire.Core.Protocol.{max_string_size, Bytes}
use channel_wire.Urls.{utf8}
use channel_wire.Core.Protocol.Strings.{encoded, read_string-encoded, encoded_all}
use channel_wire.Text.{is_empty, all_chars}
use channel_wire.Urls.Escapes.{utf8_all}
use channel_wire.Core.Server.Handlers.{c_string, read_one_string}
use channel_wire.Prelude.{
  some, ◌+◌, [], refl, ap, ◌∷◌, ◌∙◌, length-append, arith, code, ◌≤◌, ◌++◌, length, false, true,
  nat_eq, ◌≡◌, not, ℕ, Bool, String, Char,
}

unfoldable pub is_not_nul : Char → Bool
is_not_nul c = not (nat_eq (code c) 0)

c_string-utf8 :
    (n : ℕ) (rest : Bytes)
    → nat_eq n 0 ≡ false
    → c_string (utf8 n ++ rest) ≡ utf8 n ++ c_string rest
unfolding c_string utf8
c_string-utf8 n rest h = ground arith

pub c_string-utf8_all :
    (s : String) → all_chars is_not_nul s ≡ true → c_string (utf8_all s) ≡ utf8_all s
unfolding utf8_all all_chars is_not_nul c_string
c_string-utf8_all String.[] h = refl
c_string-utf8_all (String.◌∷◌ c s) h =
    let here : nat_eq (code c) 0 ≡ false = ground arith in
    let more : all_chars is_not_nul s ≡ true = ground arith in
    c_string-utf8 (code c) (utf8_all s) here
    ∙ ap (λ l. utf8 (code c) ++ l) (c_string-utf8_all s more)

pub utf8_all-ne-nil : (s : String) → is_empty s ≡ false → 1 ≤ length (utf8_all s)
unfolding utf8_all
utf8_all-ne-nil String.[] h = cc
utf8_all-ne-nil (String.◌∷◌ c s) h =
    let first = utf8-ne-nil (code c) in
    let all = length-append (utf8 (code c)) (utf8_all s) in omega arith

-- The only text of a payload is read whole, up to the limit of the buffer.
pub read_one_string-encoded_all :
    (s : String) (cap : ℕ)
    → all_chars is_not_nul s ≡ true
    → length (utf8_all s) ≤ cap
    → cap ≤ max_string_size
    → read_one_string (encoded_all (wire (s ∷ []))) (cap + 1) ≡ some (utf8_all s)
unfolding read_one_string encoded_all
read_one_string-encoded_all s cap plain short limit =
    let v = utf8_all s in
    let read = read_string-encoded [] v [] (cap + 1) (omega arith) (omega arith) in
    let size : length (encoded v ++ []) ≡ 2 + length v =
      ap length (append-nil (encoded v)) ∙ omega arith in
    let at_end : nat_eq (length {A = ℕ} [] + 2 + length v) (length (encoded v ++ [])) ≡ true =
      ground arith in
    rw (read, at_end, c_string-utf8_all s plain) refl
