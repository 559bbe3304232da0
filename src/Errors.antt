-- ===== src/Errors.antt =====
-- The texts that the dashboard shows for what the gateway answers: `responseError`,
-- `friendlyGatewayError` and `friendlyGatewayMessage` of frontend/src/main.tsx.
pub mod Bodies
use channel_wire.Prelude.{
  String, Bool, false, not, ◌&&◌, ◌||◌, Option, none, some, if◌then◌else◌, ◌==◌, concat,
}
use channel_wire.Text.{trim, is_empty, strip_prefix, all_chars, is_line_end}
use channel_wire.Json.{
  Json, null, str, arr, Items, nil, cons, Access, throws, undefined, value, get_optional,
}

abbrev pub fallback : String
fallback = "Something went wrong. Please try again."

abbrev pub username_rule : String
username_rule = "Enter a valid username using letters, numbers, periods, underscores, or hyphens."

-- A body as the response holds it: parsed, if it is JSON, and as text.
pub record Body : Type 0 where
  pub json : Option Json
  pub text : String

-- The answer to a `detail` that is a text.
unfoldable pub friendly_detail : String → String
friendly_detail detail =
    if detail == "invalid username or password"
    then "Username or password is incorrect."
    else if detail == "username already exists"
    then "That username is already registered. Sign in or choose another."
    else if detail == "dev token disabled"
    then "Developer sign-in is unavailable."
    else if detail == "invalid token"
        || detail == "invalid token subject"
        || detail == "missing token"
    then "Your session has expired. Sign in again."
    else detail

-- The last character of a text, as a text.
unfoldable pub last_char : String → Access
last_char String.[] = undefined
last_char (String.◌∷◌ c String.[]) = value (str (String.◌∷◌ c ""))
last_char (String.◌∷◌ c (String.◌∷◌ d s)) = last_char (String.◌∷◌ d s)

unfoldable pub last_item : Items → Access
last_item nil = undefined
last_item (cons v nil) = value v
last_item (cons v (cons u vs)) = last_item (cons u vs)

-- `x?.at(-1)`: a number, a Boolean and an object have no such method.
unfoldable pub at_last : Access → Access
unfolding last_char last_item
at_last (value (arr xs)) = last_item xs
at_last (value (str s)) = last_char s
at_last (value null) = undefined
at_last undefined = undefined
at_last _ = throws

-- `Array.isArray(detail) ? detail[0] : undefined`
unfoldable pub first_issue : Access → Access
first_issue (value (arr (cons v vs))) = value v
first_issue _ = undefined

unfoldable pub is_text : Access → String → Bool
is_text (value (str s)) t = s == t
is_text _ t = false

-- The answer to a `detail` that is no text, from the read of its first issue's field.
unfoldable pub issue_text : Access → Access → Option String
unfolding is_text get_optional
issue_text issue throws = none
issue_text issue field =
    if is_text field "password" && is_text (get_optional "type" issue) "string_too_short"
    then some "Password must be at least 8 characters."
    else if is_text field "username"
    then some username_rule
    else some fallback

unfoldable pub detail_error : Access → Option String
unfolding friendly_detail issue_text at_last get_optional first_issue
detail_error (value (str detail)) = some (friendly_detail detail)
detail_error detail =
    issue_text (first_issue detail) (at_last (get_optional "loc" (first_issue detail)))

-- `none` where the promise is rejected, which takes a `loc` that is no list and no text.
unfoldable pub response_error : Body → Option String
unfolding detail_error trim get_optional
response_error body = elim body.json [
  | none ↦ some (if is_empty (trim body.text) then fallback else trim body.text)
  | some json ↦ detail_error (get_optional "detail" (value json))
]

unfoldable pub friendly_gateway_error : String → String
friendly_gateway_error message =
    if message == "user not found"
    then "User not found. Check the username and try again."
    else if message == "invalid direct message" || message == "dm requires to and text"
    then "Couldn’t send the direct message. Check the username and message, then try again."
    else if message == "join a channel before sending"
    then "Join a channel before sending a message."
    else if message == "join a channel before listing participants"
    then "Join a channel to view participants."
    else if message == "message payload too large"
    then "Message is too long. Shorten it and try again."
    else if message == "invalid username"
    then username_rule
    else if message == "username already in use"
    then "That username is already in use."
    else if message == "invalid channel"
    then "Enter a valid channel name."
    else if message == "too many channels"
    then "Can’t create another channel. The channel limit has been reached."
    else if message == "join channel before switching"
    then "Join a channel before switching channels."
    else if message == "not in channel"
    then "You’re not in that channel."
    else if message == "WHO response too large"
    then "Too many participants to display."
    else if message == "LIST response too large"
    then "Too many channels to display."
    else if message == "stats response too large"
    then "Monitoring data is too large to display."
    else if message == "send HELLO first"
    then "Connection isn’t ready. Try again."
    else if message == "invalid message"
    then "Couldn’t send the message. Check it and try again."
    else if message == "unknown message type"
    then "This command isn’t supported."
    else if message == "malformed frame"
    then "Received an invalid response. Try again."
    else message

-- What `(.+)$` matches: a text that is not empty and has no line end.
abbrev channel_of : Option String → Option String
channel_of none = none
channel_of (some s) =
    if not (is_empty s) && all_chars (λ c. not (is_line_end c)) s then some s else none

unfoldable pub friendly_gateway_message : String → String
unfolding strip_prefix all_chars is_line_end
friendly_gateway_message message = elim (channel_of (strip_prefix "joined " message)) [
  | some name ↦ concat "Joined #" (concat name ".")
  | none ↦ elim (channel_of (strip_prefix "switched " message)) [
    | some name ↦ concat "Switched to #" (concat name ".")
    | none ↦
        if message == "left channel"
        then "Left the channel."
        else if message == "direct message sent"
        then "Direct message sent."
        else message
  ]
]
