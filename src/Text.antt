-- ===== src/Text.antt =====
-- Text as the dashboard handles it (frontend/src/main.tsx): `trim`, `split(/\s+/)`, `slice(1)`,
-- `join(" ")`, `indexOf(" ")` and the test for a username.
-- A text is a sequence of Unicode code points; a lone surrogate is not modelled.
pub mod Words
pub mod Trimmed
use channel_wire.Prelude.{
  ℕ, zero, suc, ◌+◌, ◌≤◌, Char, code, String, Bool, true, false, ◌&&◌, ◌||◌, List, [], ◌∷◌, leb,
  nat_eq, if◌then◌else◌, ◌≡◌, refl, Option, none, some, not, concat,
}
use Prim.Native.String.{count}

-- WhiteSpace and LineTerminator of ECMAScript: what `trim` strips and `\s` matches.
unfoldable pub is_space : Char → Bool
is_space c =
    (leb 9 (code c) && leb (code c) 13)
    || nat_eq (code c) 0x20
    || nat_eq (code c) 0xA0
    || nat_eq (code c) 0x1680
    || (leb 0x2000 (code c) && leb (code c) 0x200A)
    || nat_eq (code c) 0x2028
    || nat_eq (code c) 0x2029
    || nat_eq (code c) 0x202F
    || nat_eq (code c) 0x205F
    || nat_eq (code c) 0x3000
    || nat_eq (code c) 0xFEFF

-- A space is dropped at the end of a text unless something visible follows it.
abbrev pub cons_unless_blank : Char → String → String
cons_unless_blank c String.[] = if is_space c then "" else String.◌∷◌ c ""
cons_unless_blank c (String.◌∷◌ d s) = String.◌∷◌ c (String.◌∷◌ d s)

unfoldable pub trim_start : String → String
trim_start String.[] = ""
trim_start (String.◌∷◌ c s) = if is_space c then trim_start s else String.◌∷◌ c s

unfoldable pub trim_end : String → String
trim_end String.[] = ""
trim_end (String.◌∷◌ c s) = cons_unless_blank c (trim_end s)

-- `s.trim()`
unfoldable pub trim : String → String
unfolding trim_start trim_end
trim s = trim_start (trim_end s)

-- The truth of a text in JavaScript.
abbrev pub is_empty : String → Bool
is_empty String.[] = true
is_empty (String.◌∷◌ c s) = false

abbrev pub push_first : Char → List String → List String
push_first c [] = String.◌∷◌ c "" ∷ []
push_first c (w ∷ ws) = String.◌∷◌ c w ∷ ws

abbrev pub starts_blank : String → Bool
starts_blank String.[] = false
starts_blank (String.◌∷◌ c s) = is_space c

-- `s.split(/\s+/)`: a run of spaces is one separator, so that the last space of a run splits.
unfoldable pub split_spaces : String → List String
unfolding is_space
split_spaces String.[] = "" ∷ []
split_spaces (String.◌∷◌ c s) =
    let rest = split_spaces s in
    if is_space c then (if starts_blank s then rest else "" ∷ rest) else push_first c rest

-- `ws.join(" ")`
unfoldable pub join_spaces : List String → String
join_spaces [] = ""
join_spaces (w ∷ []) = w
join_spaces (w ∷ v ∷ ws) = concat w (concat " " (join_spaces (v ∷ ws)))

-- `s.startsWith("/")`
abbrev pub starts_with_slash : String → Bool
starts_with_slash String.[] = false
starts_with_slash (String.◌∷◌ c s) = nat_eq (code c) b'/'

-- `s.slice(1)`
abbrev pub slice_one : String → String
slice_one String.[] = ""
slice_one (String.◌∷◌ c s) = s

-- What stands after a prefix, if the text begins with it.
unfoldable pub strip_prefix : String → String → Option String
strip_prefix String.[] s = some s
strip_prefix (String.◌∷◌ c p) String.[] = none
strip_prefix (String.◌∷◌ c p) (String.◌∷◌ d s) =
    if nat_eq (code c) (code d) then strip_prefix p s else none

unfoldable pub all_chars : (Char → Bool) → String → Bool
all_chars p String.[] = true
all_chars p (String.◌∷◌ c s) = p c && all_chars p s

-- What `.` of a regular expression does not match.
unfoldable pub is_line_end : Char → Bool
is_line_end c =
    nat_eq (code c) 0x0A || nat_eq (code c) 0x0D || nat_eq (code c) 0x2028 || nat_eq (code c) 0x2029

-- `[A-Za-z0-9_.-]`
unfoldable pub is_name_char : Char → Bool
is_name_char c =
    (leb b'A' (code c) && leb (code c) b'Z')
    || (leb b'a' (code c) && leb (code c) b'z')
    || (leb b'0' (code c) && leb (code c) b'9')
    || nat_eq (code c) b'_'
    || nat_eq (code c) b'.'
    || nat_eq (code c) b'-'

-- `/^[A-Za-z0-9_.-]{1,32}$/.test(s)`
unfoldable pub is_recipient : String → Bool
unfolding all_chars is_name_char
is_recipient s = all_chars is_name_char s && leb 1 (count s) && leb (count s) 32

-- `s.slice(s.indexOf(" ") + 1)`: all of `s`, if it has no space.
abbrev pub after_first : String → String → String
after_first whole String.[] = whole
after_first whole (String.◌∷◌ c s) = if nat_eq (code c) 0x20 then s else after_first whole s

unfoldable pub after_space : String → String
after_space s = after_first s s
