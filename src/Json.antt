-- ===== src/Json.antt =====
-- Parsed JSON values and the reads of a property that frontend/src/main.tsx makes of them.
-- `JSON.parse`, `JSON.stringify` and `atob` are not code of the repository: `Codec` takes them.
use channel_wire.Prelude.{
  ℕ, suc, ◌*◌, String, Bool, false, ◌||◌, Option, some, leb, if◌then◌else◌, ◌==◌, ◌≡◌,
}
use channel_wire.Text.{is_empty}

-- A number as an exact fraction: `parts / (per_less_one + 1)`, with its sign.
pub record Ratio : Type 0 where
  pub negative : Bool
  pub parts : ℕ
  pub per_less_one : ℕ

mutual
  pub data Json : Type 0 where
    null : Json
    bool : Bool → Json
    num : Ratio → Json
    str : String → Json
    arr : Items → Json
    obj : Members → Json

  pub data Items : Type 0 where
    nil : Items
    cons : Json → Items → Items

  pub data Members : Type 0 where
    end : Members
    member : String → Json → Members → Members

-- What the read of a property yields.
pub data Access : Type 0 where
  throws : Access
  undefined : Access
  value : Json → Access

unfoldable pub find_member : String → Members → Access
find_member k end = undefined
find_member k (member j v ms) = if k == j then value v else find_member k ms

-- `v.k`: a read from `null` throws, and one from a value that is no object gives `undefined`.
unfoldable pub get : String → Json → Access
unfolding find_member
get k null = throws
get k (obj ms) = find_member k ms
get k (bool b) = undefined
get k (num r) = undefined
get k (str s) = undefined
get k (arr xs) = undefined

-- `v?.k`, at a `v` that was read before.
unfoldable pub get_optional : String → Access → Access
unfolding get
get_optional k throws = throws
get_optional k undefined = undefined
get_optional k (value null) = undefined
get_optional k (value v) = get k v

-- `x <= now / 1000`, for a time `now` in milliseconds.
unfoldable pub le_seconds : Ratio → ℕ → Bool
le_seconds r now = r.negative || leb (r.parts * 1000) (now * suc r.per_less_one)

-- What the program relies on of the codecs of the platform. `none` is a thrown error.
pub record Codec : Type 0 where
  pub parse : String → Option Json
  pub atob : String → Option String
  pub stringify_session : String → String → String
  pub parse-stringify :
      (token username : String)
      → parse (stringify_session token username)
        ≡ some (obj (member "token" (str token) (member "username" (str username) end)))
  pub stringify-ne-empty :
      (token username : String) → is_empty (stringify_session token username) ≡ false
