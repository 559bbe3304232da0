-- ===== src/Urls/Escapes.antt =====
-- What `encodeURIComponent` puts into the addresses of frontend/src/main.tsx: characters that have
-- no meaning in an address, and bytes that can be read back.
use channel_wire.Prelude.{
  accepts_up_to, accepted_number, ℕ, ◌+◌, ◌-◌, ◌*◌, ◌/◌, ◌%◌, ◌<◌, Char, code, String, Bool, true,
  false, not, ◌&&◌, ◌||◌, List, [], ◌∷◌, ◌++◌, ◌≡◌, refl, ap, ◌∙◌, arith, leb, nat_eq,
  if◌then◌else◌, Bool-cases, inl, inr,
}
use Prim.Native.Char.{char, IsScalar}
use channel_wire.Text.{all_chars}
use channel_wire.Urls.{hex_digit, utf8, is_unreserved, escape, encode}

scalar-lt : (n : ℕ) → IsScalar n → n < 0x110000
scalar-lt n p = ground arith

-- No character with a meaning in an address: / ? # & = + and the space.
unfoldable pub is_safe : Char → Bool
is_safe c = not (
    nat_eq (code c) b'/'
    || nat_eq (code c) b'?'
    || nat_eq (code c) b'#'
    || nat_eq (code c) b'&'
    || nat_eq (code c) b'='
    || nat_eq (code c) b'+'
    || nat_eq (code c) 0x20)

-- The value of a hexadecimal digit.
unfoldable pub hex_value : Char → ℕ
hex_value c = if leb (code c) b'9' then code c - b'0' else code c - b'A' + 10

unreserved_safe : (c : Char) → is_unreserved (code c) ≡ true → is_safe c ≡ true
unfolding is_unreserved is_safe
unreserved_safe c h = ground arith

unreserved-ne-percent : (n : ℕ) → is_unreserved n ≡ true → nat_eq n b'%' ≡ false
unfolding is_unreserved
unreserved-ne-percent n h = ground arith

utf8-unreserved : (n : ℕ) → is_unreserved n ≡ true → utf8 n ≡ n ∷ []
unfolding is_unreserved utf8
utf8-unreserved n h = ground arith

percent_safe : is_safe "%" ≡ true
unfolding is_safe
percent_safe = refl

hex_table :
    accepts_up_to (λ d. is_safe (hex_digit d) && nat_eq (hex_value (hex_digit d)) d) 16 ≡ true
unfolding accepts_up_to hex_digit is_safe hex_value
hex_table = refl

hex_digit_lem : (d : ℕ) → d < 16 → (is_safe (hex_digit d) ≡ true) × (hex_value (hex_digit d) ≡ d)
hex_digit_lem d h = ground (
  arith,
  accepted_number (λ (n : ℕ). is_safe (hex_digit n) && nat_eq (hex_value (hex_digit n)) n) 16 d h
      hex_table,
)

abbrev AreBytes : List ℕ → Type 0
AreBytes [] = Unit
AreBytes (b ∷ bs) = (b < 256) × AreBytes bs

utf8-AreBytes : (c : ℕ) → c < 0x110000 → AreBytes (utf8 c)
unfolding utf8
utf8-AreBytes c h = ground arith

escape_safe :
    (bs : List ℕ) (rest : String)
    → AreBytes bs
    → all_chars is_safe rest ≡ true
    → all_chars is_safe (escape bs rest) ≡ true
unfolding escape all_chars
escape_safe [] rest small safe = safe
escape_safe (b ∷ bs) rest small safe =
    rw
      (
        percent_safe,
        (hex_digit_lem (b / 16) (ground arith)).0,
        (hex_digit_lem (b % 16) (omega arith)).0,
        escape_safe bs rest small.1 safe,
      )
      refl

-- Nothing that has a meaning in an address gets into one: an encoded text has none of
-- / ? # & = + and no space.
pub encode_safe : (s : String) → all_chars is_safe (encode s) ≡ true
unfolding encode all_chars
encode_safe String.[] = refl
encode_safe (String.◌∷◌ (char n p) s) = elim (Bool-cases (is_unreserved n)) [
  | inl plain ↦ rw (plain, encode_safe s, unreserved_safe (char n p) plain) refl
  | inr other ↦
      rw other (escape_safe (utf8 n) (encode s) (utf8-AreBytes n (scalar-lt n p)) (encode_safe s))
]

-- Reading back: the bytes of an encoded text.
unfoldable pub bytes : String → List ℕ
unfolding hex_value
bytes String.[] = []
bytes (String.◌∷◌ c String.[]) = code c ∷ []
bytes (String.◌∷◌ c (String.◌∷◌ h String.[])) = code c ∷ code h ∷ []
bytes (String.◌∷◌ c (String.◌∷◌ h (String.◌∷◌ l s))) =
    let escaped = (16 * hex_value h + hex_value l) ∷ bytes s in
    let plain = code c ∷ bytes (String.◌∷◌ h (String.◌∷◌ l s)) in
    if nat_eq (code c) b'%' then escaped else plain

unfoldable pub utf8_all : String → List ℕ
unfolding utf8
utf8_all String.[] = []
utf8_all (String.◌∷◌ c s) = utf8 (code c) ++ utf8_all s

bytes-plain :
    (c : Char) (s : String)
    → nat_eq (code c) b'%' ≡ false
    → bytes (String.◌∷◌ c s) ≡ code c ∷ bytes s
unfolding bytes
bytes-plain c String.[] h = refl
bytes-plain c (String.◌∷◌ d String.[]) h = refl
bytes-plain c (String.◌∷◌ d (String.◌∷◌ e s)) h = rw h refl

bytes-escape :
    (bs : List ℕ) (rest : String) → AreBytes bs → bytes (escape bs rest) ≡ bs ++ bytes rest
unfolding bytes escape
bytes-escape [] rest small = refl
bytes-escape (b ∷ bs) rest small =
    rw
      (
        (hex_digit_lem (b / 16) (ground arith)).1,
        (hex_digit_lem (b % 16) (omega arith)).1,
        bytes-escape bs rest small.1,
      )
      (ap (λ a. a ∷ (bs ++ bytes rest)) (omega arith))

-- The bytes that an encoded text is read as are those of the text in UTF-8, whatever it has in it.
pub bytes-encode : (s : String) → bytes (encode s) ≡ utf8_all s
unfolding encode utf8_all bytes
bytes-encode String.[] = refl
bytes-encode (String.◌∷◌ (char n p) s) = elim (Bool-cases (is_unreserved n)) [
  | inl plain ↦ rw plain (
      bytes-plain (char n p) (encode s) (unreserved-ne-percent n plain)
      ∙ rw (bytes-encode s, utf8-unreserved n plain) refl)
  | inr other ↦ rw other (
      bytes-escape (utf8 n) (encode s) (utf8-AreBytes n (scalar-lt n p)) ∙ rw (bytes-encode s) refl)
]
