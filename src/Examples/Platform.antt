-- ===== src/Examples/Platform.antt =====
-- A platform that meets what `Codec` asks of it: a session is stored with a mark before each
-- character of its token, and every token's payload says that it expires at second 2000.
use channel_wire.Prelude.{
  Char, code, String, false, Option, none, some, nat_eq, if◌then◌else◌, ◌≡◌, refl, ap,
}
use channel_wire.Session.{expiry, second_part, non_empty, normalize, padded, number_of}
use channel_wire.Json.{get, Json, num, str, obj, member, end, Codec}

abbrev encode : String → String → String
encode String.[] u = String.◌∷◌ "0" u
encode (String.◌∷◌ c t) u = String.◌∷◌ "1" (String.◌∷◌ c (encode t u))

abbrev push_token : Char → Option (String × String) → Option (String × String)
push_token c none = none
push_token c (some (t, u)) = some (String.◌∷◌ c t, u)

abbrev decode : String → Option (String × String)
decode String.[] = none
decode (String.◌∷◌ m String.[]) = if nat_eq (code m) b'0' then some ("", "") else none
decode (String.◌∷◌ m (String.◌∷◌ c s)) =
    let rest = push_token c (decode s) in
    if nat_eq (code m) b'0' then some ("", String.◌∷◌ c s) else rest

abbrev session_json : Option (String × String) → Option Json
session_json none = none
session_json (some (t, u)) = some (obj (member "token" (str t) (member "username" (str u) end)))

abbrev payload : Json
payload = obj (member "exp" (num (record { negative = false; parts = 2000; per_less_one = 0 })) end)

abbrev parse_marked : String → Option Json
parse_marked String.[] = none
parse_marked (String.◌∷◌ m s) =
    if nat_eq (code m) b'S' then session_json (decode s) else some payload

abbrev stringify : String → String → String
stringify t u = String.◌∷◌ "S" (encode t u)

decode-encode : (t u : String) → decode (encode t u) ≡ some (t, u)
decode-encode String.[] String.[] = refl
decode-encode String.[] (String.◌∷◌ c u) = refl
decode-encode (String.◌∷◌ c t) u = ap (push_token c) (decode-encode t u)

pub parse-stringify : (t u : String) → parse_marked (stringify t u) ≡ session_json (some (t, u))
parse-stringify t u = ap session_json (decode-encode t u)

abbrev pub marked : Codec
marked = record {
  parse = parse_marked;
  atob = λ s. some s;
  stringify_session = stringify;
  parse-stringify = parse-stringify;
  stringify-ne-empty = λ t u. refl;
}

abbrev pub token : String
token = "h.QQ"

-- What is stored for a user called bob.
abbrev pub stored : Option String
stored = some (stringify token "bob")

pub expiry_of_token :
    expiry marked 1000 token ≡ some (record { negative = false; parts = 2000; per_less_one = 0 })
unfolding expiry second_part non_empty normalize padded get number_of
expiry_of_token = refl
