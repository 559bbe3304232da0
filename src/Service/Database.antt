-- ===== src/Service/Database.antt =====
-- The database of the gateway service (gateway/app/db.py): its tables, a session over them, and the
-- functions that the service calls. The columns `created_at` are left out.
pub mod Table
pub mod Soundness
pub mod Commits
pub mod Recalled
pub mod Histories
use mathlib.Core.List.{reverse}
use channel_wire.Prelude.{
  true, ◌≡◌, ◌<◌, take, length, ◌||◌, ltb, ◌&&◌, ◌+◌, some, false, ◌==◌, ◌∷◌, none, [], String, ℕ,
  ◌++◌, List, Bool, if◌then◌else◌, Option,
}
use channel_wire.Service.Database.Table.{insert_all, has}

pub record User : Type 0 where
  pub username : String
  pub password_hash : Option String

pub record Membership : Type 0 where
  pub username : String
  pub channel_name : String

-- A row of `messages`; a draft of one has its identifier only when it is committed.
pub record Message : Type 0 where
  pub id : ℕ
  pub kind : String
  pub sender : String
  pub channel_name : Option String
  pub recipient : Option String
  pub body : String

pub record Database : Type 0 where
  pub users : List User
  pub channels : List String
  pub memberships : List Membership
  pub messages : List Message
  pub next_id : ℕ

-- What a session has read, the committed rows, and the rows that it adds. The sessions do not flush
-- before a query (`autoflush=False`), so that a query does not see the latter.
pub record Session : Type 0 where
  pub stored : Database
  pub new_users : List User
  pub new_channels : List String
  pub new_memberships : List Membership
  pub new_messages : List Message

abbrev pub same_user : User → User → Bool
same_user u v = u.username == v.username

abbrev pub same_membership : Membership → Membership → Bool
same_membership m n = m.username == n.username && m.channel_name == n.channel_name

-- `session_scope`
abbrev pub session_scope : Database → Session
session_scope db = record {
  stored = db;
  new_users = [];
  new_channels = [];
  new_memberships = [];
  new_messages = [];
}

abbrev pub user_named : String → User
user_named username = record { username = username; password_hash = none }

-- `db.get(User, username) is not None`
abbrev pub knows_user : Database → String → Bool
knows_user db username = has same_user db.users (user_named username)

unfoldable pub upsert_user : String → Session → Session
upsert_user username s =
    if knows_user s.stored username
    then s
    else record s { new_users = s.new_users ++ (user_named username ∷ []) }

-- `none` is the ValueError for a username that there is.
unfoldable pub create_user : String → String → Session → Option Session
create_user username password_hash s =
    let user : User = record { username = username; password_hash = some password_hash } in
    if knows_user s.stored username
    then none
    else some (record s { new_users = s.new_users ++ (user ∷ []) })

unfoldable pub ensure_channel : String → Session → Session
ensure_channel name s =
    if has ◌==◌ s.stored.channels name
    then s
    else record s { new_channels = s.new_channels ++ (name ∷ []) }

abbrev pub add_unless_member : Membership → Session → Session
add_unless_member m s =
    if has same_membership s.stored.memberships m
    then s
    else record s { new_memberships = s.new_memberships ++ (m ∷ []) }

unfoldable pub add_membership : String → String → Session → Session
unfolding upsert_user ensure_channel
add_membership username channel_name s =
    add_unless_member (record { username = username; channel_name = channel_name })
      (ensure_channel channel_name (upsert_user username s))

abbrev pub add_message : Message → Session → Session
add_message m s = record s { new_messages = s.new_messages ++ (m ∷ []) }

unfoldable pub save_channel_message : String → String → String → Session → Session
unfolding add_membership
save_channel_message channel_name sender body s =
    add_message
      (record {
        id = 0;
        kind = "channel";
        sender = sender;
        channel_name = some channel_name;
        recipient = none;
        body = body;
      })
      (add_membership sender channel_name s)

unfoldable pub save_dm : String → String → String → Session → Session
unfolding upsert_user
save_dm sender recipient body s =
    add_message
      (record {
        id = 0;
        kind = "dm";
        sender = sender;
        channel_name = none;
        recipient = some recipient;
        body = body;
      })
      (upsert_user recipient (upsert_user sender s))

-- The rows with the identifiers that the database gives them.
unfoldable pub numbered : ℕ → List Message → List Message
numbered n [] = []
numbered n (m ∷ ms) = record m { id = n } ∷ numbered (n + 1) ms

-- `.where(...)`
unfoldable pub select : (Message → Bool) → List Message → List Message
select test [] = []
select test (m ∷ ms) = if test m then m ∷ select test ms else select test ms

abbrev pub AllAbove : ℕ → List Message → Type 0
AllAbove n [] = Unit
AllAbove n (m ∷ ms) = (n < m.id) × AllAbove n ms

-- Identifiers grow from each row to the next.
abbrev pub AreIncreasing : List Message → Type 0
AreIncreasing [] = Unit
AreIncreasing (m ∷ ms) = AllAbove m.id ms × AreIncreasing ms

-- A statement `select(Message).where(...).order_by(...).limit(...)`: the condition, whether the order is
-- that of `Message.id.desc()` or of `Message.id`, and the limit.
pub record Statement : Type 0 where
  pub condition : Message → Bool
  pub descending : Bool
  pub limit : ℕ

abbrev pub in_order : Bool → List Message → List Message
in_order true ms = reverse ms
in_order false ms = ms

-- What the functions rely on of SQLAlchemy and of the database under it: `db.commit()`, where `none` is
-- an exception, and `db.execute(...)` of a statement.
pub record Engine : Type 0 where
  pub commit : Session → Option Database
  pub execute : Statement → Database → List Message
  -- A commit adds the rows of the session, if no key is there twice.
  pub commit-adds :
      (s : Session) (users : List User) (channels : List String) (memberships : List Membership)
      → insert_all same_user s.stored.users s.new_users ≡ some users
      → insert_all ◌==◌ s.stored.channels s.new_channels ≡ some channels
      → insert_all same_membership s.stored.memberships s.new_memberships ≡ some memberships
      → commit s
        ≡ some (record {
          users = users;
          channels = channels;
          memberships = memberships;
          messages = s.stored.messages ++ numbered s.stored.next_id s.new_messages;
          next_id = s.stored.next_id + length s.new_messages;
        })
  -- The first rows, up to the limit, of those that meet the condition, in the order that is asked for.
  -- The table has the rows in the order of their identifiers.
  pub execute-selects :
      (q : Statement) (db : Database)
      → AreIncreasing db.messages
      → execute q db ≡ take q.limit (in_order q.descending (select q.condition db.messages))

-- `with session_scope() as db: ...; db.commit()`
abbrev pub transact : Engine → (Session → Session) → Database → Option Database
transact engine work db = engine.commit (work (session_scope db))

abbrev pub latest : Engine → (Message → Bool) → ℕ → Database → List Message
latest engine test limit db =
    reverse (engine.execute (record { condition = test; descending = true; limit = limit }) db)

abbrev pub is_text : Option String → String → Bool
is_text none s = false
is_text (some t) s = t == s

abbrev pub in_channel : String → Message → Bool
in_channel channel_name m = m.kind == "channel" && is_text m.channel_name channel_name

abbrev pub between : String → String → Message → Bool
between username other_username m =
    m.kind == "dm"
    && ((m.sender == username && is_text m.recipient other_username)
        || (m.sender == other_username && is_text m.recipient username))

unfoldable pub channel_history : Engine → String → ℕ → Database → List Message
channel_history engine channel_name limit db = latest engine (in_channel channel_name) limit db

unfoldable pub direct_history : Engine → String → String → ℕ → Database → List Message
direct_history engine username other_username limit db =
    latest engine (between username other_username) limit db
