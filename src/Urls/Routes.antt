-- ===== src/Urls/Routes.antt =====
-- What the gateway reads out of the addresses of the history requests of frontend/src/main.tsx.
use channel_wire.Prelude.{
  ◌∷◌, [], ◌≢◌, Char, code, String, Bool, true, not, ◌≡◌, nat_eq, if◌then◌else◌,
}
use channel_wire.Text.{all_chars}
use channel_wire.Urls.Escapes.{is_safe, bytes, utf8_all}

-- What stands before the first question mark, and what stands after it.
unfoldable pub path_part : String → String
path_part String.[] = ""
path_part (String.◌∷◌ c s) =
    let rest = String.◌∷◌ c (path_part s) in if nat_eq (code c) b'?' then "" else rest

unfoldable pub query_part : String → String
query_part String.[] = ""
query_part (String.◌∷◌ c s) = let rest = query_part s in if nat_eq (code c) b'?' then s else rest

abbrev is_path_char : Char → Bool
is_path_char c = not (nat_eq (code c) b'?')

-- A segment of a path that every platform leaves where it is, and from which the gateway reads a text:
-- it has no character that ends it, and however its dots may be escaped, it is none of the segments
-- that a platform resolves away.
abbrev pub IsSegment : String → String → Type 0
IsSegment text segment =
    (all_chars is_safe segment ≡ true)
    × (bytes segment ≡ utf8_all text)
    × (bytes segment ≢ [])
    × (bytes segment ≢ b'.' ∷ [])
    × (bytes segment ≢ b'.' ∷ b'.' ∷ [])
