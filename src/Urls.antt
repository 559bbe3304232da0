-- ===== src/Urls.antt =====
-- The addresses that frontend/src/main.tsx asks: the gateway's, from the build's settings, and those
-- of the requests and of the WebSocket, with `encodeURIComponent` for what they carry.
pub mod Escapes
pub mod Routes
use channel_wire.Prelude.{
  ℕ, ◌+◌, ◌-◌, ◌*◌, ◌/◌, ◌%◌, Char, code, String, Bool, true, false, ◌&&◌, ◌||◌, Option, none, some,
  List, [], ◌∷◌, ◌≡◌, refl, concat, ltb, leb, nat_eq, if◌then◌else◌,
}
use channel_wire.Text.{strip_prefix}
use channel_wire.Decimal.{digit}
use channel_wire.World.{AuthPath}

-- A hexadecimal digit, of a number below 16.
unfoldable pub hex_digit : ℕ → Char
unfolding digit
hex_digit d =
    if ltb d 10
    then digit d
    else if nat_eq d 10
    then "A"
    else if nat_eq d 11
    then "B"
    else if nat_eq d 12
    then "C"
    else if nat_eq d 13
    then "D"
    else if nat_eq d 14
    then "E"
    else "F"

-- The bytes of a code point in UTF-8.
unfoldable pub utf8 : ℕ → List ℕ
utf8 c =
    if ltb c 0x80
    then c ∷ []
    else if ltb c 0x800
    then (0xC0 + c / 64) ∷ (0x80 + c % 64) ∷ []
    else if ltb c 0x10000
    then (0xE0 + c / 4096) ∷ (0x80 + c / 64 % 64) ∷ (0x80 + c % 64) ∷ []
    else (0xF0 + c / 262144) ∷ (0x80 + c / 4096 % 64) ∷ (0x80 + c / 64 % 64) ∷ (0x80 + c % 64) ∷ []

-- A-Z a-z 0-9 - _ . ! ~ * ' ( )
unfoldable pub is_unreserved : ℕ → Bool
is_unreserved c =
    (leb b'A' c && leb c b'Z')
    || (leb b'a' c && leb c b'z')
    || (leb b'0' c && leb c b'9')
    || nat_eq c b'-'
    || nat_eq c b'_'
    || nat_eq c b'.'
    || nat_eq c b'!'
    || nat_eq c b'~'
    || nat_eq c b'*'
    || nat_eq c 39
    || nat_eq c b'('
    || nat_eq c b')'

-- Bytes as escapes, in front of a text.
unfoldable pub escape : List ℕ → String → String
unfolding hex_digit
escape [] rest = rest
escape (b ∷ bs) rest =
    String.◌∷◌ "%"
      (String.◌∷◌ (hex_digit (b / 16)) (String.◌∷◌ (hex_digit (b % 16)) (escape bs rest)))

-- `encodeURIComponent(s)`
unfoldable pub encode : String → String
unfolding escape utf8 is_unreserved
encode String.[] = ""
encode (String.◌∷◌ c s) =
    if is_unreserved (code c) then String.◌∷◌ c (encode s) else escape (utf8 (code c)) (encode s)

-- `import.meta.env.VITE_GATEWAY_URL ?? "http://127.0.0.1:8000"`
unfoldable pub gateway_http : Option String → String
gateway_http none = "http://127.0.0.1:8000"
gateway_http (some url) = url

abbrev with_ws : String → Option String → String
with_ws url none = url
with_ws url (some rest) = concat "ws" rest

-- `gatewayHttp.replace(/^http/, "ws")`
unfoldable pub gateway_ws : String → String
unfolding strip_prefix
gateway_ws url = with_ws url (strip_prefix "http" url)

-- The path of a request, with its query.
abbrev pub ready_path : String
ready_path = "/ready"

abbrev pub health_path : String
health_path = "/health"

abbrev pub path_name : AuthPath → String
path_name AuthPath.register = "register"
path_name AuthPath.login = "login"
path_name AuthPath.dev_token = "dev-token"

unfoldable pub auth_path : AuthPath → String
auth_path path = concat "/auth/" (path_name path)

abbrev pub with_token : String → String → String
with_token path token = concat path (concat "?token=" (encode token))

unfoldable pub stats_path : String → String
unfolding encode
stats_path token = with_token "/stats" token

unfoldable pub core_stats_path : String → String
unfolding encode
core_stats_path token = with_token "/core-stats" token

unfoldable pub channels_path : String → String
unfolding encode
channels_path token = with_token "/db/channels" token

unfoldable pub history_path : String → String → String
unfolding encode
history_path channel token = with_token (concat "/history/" (encode channel)) token

unfoldable pub dm_history_path : String → String → String
unfolding encode
dm_history_path to token = with_token (concat "/history/dm/" (encode to)) token

unfoldable pub socket_path : String → String
unfolding encode
socket_path token = with_token "/ws" token

encode_test : encode "a b/é€😀" ≡ "a%20b%2F%C3%A9%E2%82%AC%F0%9F%98%80"
unfolding encode
encode_test = refl

gateway_ws_test : gateway_ws "https://gw.example" ≡ "wss://gw.example"
unfolding gateway_ws
gateway_ws_test = refl
