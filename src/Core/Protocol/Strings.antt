-- ===== src/Core/Protocol/Strings.antt =====
-- Strings in payloads (core/src/protocol.c): what is written is read back, and a read stays within the
-- payload and within the buffer that it fills.
use mathlib.Core.List.{append_assoc, append-nil}
use channel_wire.Prelude.{
  zero, suc, ◌⊎◌, ◌*◌, Bool-cases, ◌||◌, length-drop, Option-cases, inl, inr, drop-append_length,
  take-append_length, length-take, drop-drop, ℕ, ◌+◌, ◌/◌, ◌%◌, ◌≤◌, ◌<◌, false, none, some, List,
  [], ◌∷◌, ◌++◌, length, take, drop, length-append, Option, ltb, leb, nat_eq, ◌≡◌, refl, sym, ap,
  ◌∙◌, arith,
}
use channel_wire.Core.Protocol.{
  write_strings, read_strings, Bytes, max_string_size, from_be16, to_be16, read_string,
  write_string,
}
use channel_wire.Core.Protocol.Frames.{from_be16-to_be16}

-- The encoding of a string.
abbrev pub encoded : Bytes → Bytes
encoded value = to_be16 (length value) ++ value

-- At an offset where an encoded string stands, a read gives the string and the offset after it, if
-- the buffer has room for it and for a terminating zero.
pub read_string-encoded :
    (before value rest : Bytes) (out_cap : ℕ)
    → length value ≤ max_string_size
    → length value < out_cap
    → read_string (before ++ (encoded value ++ rest)) (length before) out_cap
      ≡ (some value, length before + 2 + length value)
unfolding read_string drop
read_string-encoded before value rest out_cap few room =
    let payload = before ++ (encoded value ++ rest) in
    let here : drop (length before) payload ≡ encoded value ++ rest = drop-append_length before _ in
    let there : drop (length before + 2) payload ≡ value ++ rest =
      sym (drop-drop 2 (length before) payload) ∙ ap (drop 2) here in
    let size : from_be16 (length value / 256 % 256) (length value % 256) ≡ length value =
      from_be16-to_be16 (length value) (omega arith) in
    let whole = length-append before (encoded value ++ rest) in
    let tail = length-append value rest in
    rw (here, there, size, take-append_length value rest) (ground (arith, whole, tail))

-- The encodings of some strings, one after the other.
unfoldable pub encoded_all : List Bytes → Bytes
encoded_all [] = []
encoded_all (v ∷ vs) = encoded v ++ encoded_all vs

abbrev pub AreShort : List Bytes → Type 0
AreShort [] = Unit
AreShort (v ∷ vs) = (length v ≤ max_string_size) × AreShort vs

write_string-eq-some :
    (size : ℕ) (written value out : Bytes)
    → write_string size written value ≡ some out
    → (out ≡ written ++ encoded value) × (length value ≤ max_string_size) × (length out ≤ size)
unfolding write_string
write_string-eq-some size written value out h =
    ground (arith, length-append written (encoded value))

pub write_strings-eq-some :
    (size : ℕ) (written : Bytes) (values : List Bytes) (payload : Bytes)
    → write_strings size written values ≡ some payload
    → (payload ≡ written ++ encoded_all values) × AreShort values
unfolding write_strings encoded_all
write_strings-eq-some size written [] payload h = (ground (arith, append-nil written), tt)
write_strings-eq-some size written (v ∷ vs) payload h =
    elim (Option-cases (write_string size written v)) [
      | inl e ↦ cc (rw e at h)
      | inr (w, e) ↦
          let first = write_string-eq-some size written v w e in
          let rest = write_strings-eq-some size w vs payload (rw e at h) in
          (
            rest.0
                ∙ ap (λ l. l ++ encoded_all vs) first.0
                ∙ append_assoc written (encoded v) (encoded_all vs),
            (first.1, rest.1),
          )
    ]

pub write_strings-length :
    (size : ℕ) (written : Bytes) (values : List Bytes) (payload : Bytes)
    → length written ≤ size
    → write_strings size written values ≡ some payload
    → length payload ≤ size
unfolding write_strings
write_strings-length size written [] payload fits h = ground arith
write_strings-length size written (v ∷ vs) payload fits h =
    elim (Option-cases (write_string size written v)) [
      | inl e ↦ cc (rw e at h)
      | inr (w, e) ↦
          let bound = (write_string-eq-some size written v w e).2 in
          write_strings-length size w vs payload bound (rw e at h)
    ]

-- A buffer for each string, with room for its terminating zero.
abbrev pub HaveRoom : List Bytes → List ℕ → Type 0
HaveRoom [] [] = Unit
HaveRoom (v ∷ vs) (size ∷ caps) = (length v < size) × HaveRoom vs caps
HaveRoom _ _ = ⊥

pub read_strings-encoded_all :
    (before : Bytes) (values : List Bytes) (caps : List ℕ)
    → AreShort values
    → HaveRoom values caps
    → read_strings (before ++ encoded_all values) (length before) caps
      ≡ (some values, length (before ++ encoded_all values))
unfolding read_strings encoded_all
read_strings-encoded_all before [] [] short room =
    ap (λ n. (some [], n)) (omega (arith, length-append before []))
read_strings-encoded_all before [] (size ∷ caps) short room = elim room [ ]
read_strings-encoded_all before (v ∷ vs) [] short room = elim room [ ]
read_strings-encoded_all before (v ∷ vs) (size ∷ caps) short room =
    let more = read_strings-encoded_all (before ++ encoded v) vs caps short.1 room.1 in
    let same = append_assoc before (encoded v) (encoded_all vs) in
    let there : length (before ++ encoded v) ≡ length before + 2 + length v =
      omega (arith, length-append before (encoded v)) in
    let rest = rw same at more in
    rw (read_string-encoded before v (encoded_all vs) size short.0 room.0, ← there, rest) refl

-- The strings that are written into a payload, however many, are read back in order, up to its end,
-- by buffers that have room for them.
pub read_strings-write_strings :
    (size : ℕ) (values : List Bytes) (caps : List ℕ) (payload : Bytes)
    → write_strings size [] values ≡ some payload
    → HaveRoom values caps
    → read_strings payload 0 caps ≡ (some values, length payload)
read_strings-write_strings size values caps payload h room =
    let w = write_strings-eq-some size [] values payload h in
    rw w.0 (read_strings-encoded_all [] values caps w.1 room)

-- What a read from an offset may give: two bytes of length, the string and the rest, or the reason why
-- there is none.
abbrev pub Outcome : Bytes → ℕ → ℕ → Option Bytes × ℕ → Type 0
Outcome payload offset out_cap (some out, offset') =
    (hi : ℕ) × (lo : ℕ) × (after : Bytes) × (drop offset payload ≡ hi ∷ lo ∷ (out ++ after))
    × (length out ≡ hi * 256 + lo)
    × (offset' ≡ offset + 2 + length out)
    × (offset' ≤ length payload)
    × (length out < out_cap)
    × (length out ≤ max_string_size)
Outcome payload offset out_cap (none, offset') =
    ((offset' ≡ offset) × ((out_cap ≡ 0) ⊎ (length payload < offset + 2)))
    ⊎ ((hi : ℕ) × (lo : ℕ) × (rest : Bytes) × (drop offset payload ≡ hi ∷ lo ∷ rest)
        × (offset' ≡ offset + 2)
        × ((max_string_size < hi * 256 + lo)
            ⊎ ((length rest < hi * 256 + lo) ⊎ (out_cap ≤ hi * 256 + lo))))

take-drop : (n : ℕ) (l : Bytes) → take n l ++ drop n l ≡ l
unfolding drop
take-drop zero l = refl
take-drop (suc n) [] = refl
take-drop (suc n) (b ∷ l) = ap (λ r. b ∷ r) (take-drop n l)

-- Where two bytes or more are left, the length is in the first two.
two_left : (l : Bytes) → 2 ≤ length l → (hi : ℕ) × (lo : ℕ) × (rest : Bytes) × (l ≡ hi ∷ lo ∷ rest)
two_left [] h = absurd (omega arith)
two_left (hi ∷ []) h = absurd (omega arith)
two_left (hi ∷ lo ∷ rest) h = (hi, lo, rest, refl)

read_string-here :
    (payload : Bytes) (offset out_cap hi lo : ℕ) (rest : Bytes)
    → (nat_eq out_cap 0 || ltb (length payload) (offset + 2)) ≡ false
    → drop offset payload ≡ hi ∷ lo ∷ rest
    → Outcome payload offset out_cap (read_string payload offset out_cap)
unfolding read_string drop
read_string-here payload offset out_cap hi lo rest good e =
    let enough : offset + 2 ≤ length payload = ground arith in
    let n = from_be16 hi lo in
    let there : drop (offset + 2) payload ≡ rest =
      sym (drop-drop 2 offset payload) ∙ ap (drop 2) e in
    let size : length payload ≡ offset + 2 + length rest =
      omega (arith, length-drop (offset + 2) payload, ap length there) in
    let big = ltb max_string_size n || ltb (length payload) (offset + 2 + n) || leb out_cap n in
    elim (Bool-cases big) [
      | inl refused ↦ rw (good, e, refused) (inr (hi, lo, rest, e, refl, ground arith))
      | inr taken ↦
          let bound : (n ≤ max_string_size) × (n ≤ length rest) × (n < out_cap) = ground arith in
          let few = length-take n rest bound.1 in
          rw (good, e, taken, there)
            (
              hi,
              lo,
              drop n rest,
              e ∙ ap (λ l. hi ∷ lo ∷ l) (sym (take-drop n rest)),
              few,
              omega arith,
              omega arith,
              omega arith,
              omega arith,
            )
    ]

-- A read that succeeds takes two bytes, the higher first, as a length, and gives as many bytes as that
-- after them, fewer than the buffer has and at most 1024; it leaves the offset after them, within the
-- payload. A read fails, and leaves the offset, only if there is no buffer or no length is left; it
-- fails and moves the offset by the two bytes only if the length is above 1024, more than is left, or
-- not below the size of the buffer.
pub read_string_bounds :
    (payload : Bytes) (offset out_cap : ℕ)
    → offset ≤ length payload
    → Outcome payload offset out_cap (read_string payload offset out_cap)
unfolding read_string
read_string_bounds payload offset out_cap h =
    let left = length-drop offset payload in
    elim (Bool-cases (nat_eq out_cap 0 || ltb (length payload) (offset + 2))) [
      | inl bad ↦ rw bad (inl (refl, ground arith))
      | inr good ↦
          let enough : 2 ≤ length (drop offset payload) = ground arith in
          let (hi, lo, rest, e) = two_left (drop offset payload) enough in
          read_string-here payload offset out_cap hi lo rest good e
    ]
