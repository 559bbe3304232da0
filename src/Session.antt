-- ===== src/Session.antt =====
-- `readStoredSession` of frontend/src/main.tsx: the session that the dashboard starts from.
-- The children prove what is read: `Session/Padding` is about the payload's padding, `Session/Sound`
-- about what a reading yields.
pub mod Padding
pub mod Sound
use channel_wire.Prelude.{
  ℕ, zero, suc, ◌+◌, ◌-◌, ◌*◌, ◌/◌, Char, code, String, Bool, Option, none, some, nat_eq, ltb,
  if◌then◌else◌, concat, ◌≡◌, refl,
}
use channel_wire.Text.{is_empty}
use channel_wire.Json.{num, str, Ratio, Access, value, get, le_seconds, Codec}

pub record StoredSession : Type 0 where
  pub token : String
  pub username : String

unfoldable pub up_to_dot : String → String
up_to_dot String.[] = ""
up_to_dot (String.◌∷◌ c s) = if nat_eq (code c) b'.' then "" else String.◌∷◌ c (up_to_dot s)

-- `token.split(".")[1]`
unfoldable pub second_part : String → Option String
unfolding up_to_dot
second_part String.[] = none
second_part (String.◌∷◌ c s) = if nat_eq (code c) b'.' then some (up_to_dot s) else second_part s

abbrev plus : Char
plus = "+"

abbrev slash : Char
slash = "/"

-- `.replace(/-/g, "+").replace(/_/g, "/")`
unfoldable pub normalize : String → String
normalize String.[] = ""
normalize (String.◌∷◌ c s) =
    String.◌∷◌ (if nat_eq (code c) b'-' then plus else if nat_eq (code c) b'_' then slash else c)
      (normalize s)

-- The length of a text in JavaScript, in UTF-16 units.
unfoldable pub units : String → ℕ
units String.[] = 0
units (String.◌∷◌ c s) = (if ltb (code c) 0x10000 then 1 else 2) + units s

unfoldable pub equals_signs : ℕ → String
equals_signs zero = ""
equals_signs (suc n) = String.◌∷◌ "=" (equals_signs n)

-- `s.padEnd(n, "=")`
unfoldable pub pad_end : String → ℕ → String
unfolding equals_signs units
pad_end s n = concat s (equals_signs (n - units s))

-- `s.padEnd(Math.ceil(s.length / 4) * 4, "=")`
unfoldable pub padded : String → String
unfolding pad_end
padded s = pad_end s ((units s + 3) / 4 * 4)

-- The text in a property, if it holds a text that is not empty.
unfoldable pub text_of : Access → Option String
text_of (value (str s)) = if is_empty s then none else some s
text_of a = none

unfoldable pub number_of : Access → Option Ratio
number_of (value (num r)) = some r
number_of a = none

-- `none` where the text is missing or empty.
unfoldable pub non_empty : Option String → Option String
non_empty none = none
non_empty (some s) = if is_empty s then none else some s

infixl 5 ◌>>=◌
abbrev pub ◌>>=◌ {ℓ κ} : {A : Type ℓ} {B : Type κ} → Option A → (A → Option B) → Option B
none >>= f = none
some a >>= f = f a

-- What a chain that succeeds has gone through.
pub >>=-eq-some {ℓ κ} :
    {A : Type ℓ} {B : Type κ} (m : Option A) (f : A → Option B) {b : B}
    → (m >>= f) ≡ some b
    → (a : A) × (m ≡ some a) × (f a ≡ some b)
>>=-eq-some none f h = cc
>>=-eq-some (some a) f h = (a, refl, h)

module _ (codec : Codec) (now : ℕ) where
  -- When the token's payload says that it expires, if it says so.
  unfoldable pub expiry : String → Option Ratio
  expiry token = do
    encoded ← non_empty (second_part token)
    json ← codec.atob (padded (normalize encoded))
    payload ← codec.parse json
    number_of (get "exp" payload)

  -- The body of the `try`, after the test of `stored`; `none` where the code clears the store.
  unfoldable pub decode_session : String → Option StoredSession
  decode_session stored = do
    session ← codec.parse stored
    token ← text_of (get "token" session)
    username ← text_of (get "username" session)
    exp ← expiry token
    if le_seconds exp now then none else some (record { token = token; username = username })

  abbrev decoded : Option String → Option StoredSession → Option StoredSession × Option String
  decoded kept none = (none, none)
  decoded kept (some session) = (some session, kept)

  -- The session and what is stored afterwards; `none` for an item that is missing.
  unfoldable pub read_stored_session : Option String → Option StoredSession × Option String
  read_stored_session none = (none, none)
  read_stored_session (some stored) =
      if is_empty stored then (none, some stored) else decoded (some stored) (decode_session stored)
