-- ===== src/Service/Database/Soundness.antt =====
-- When the database of gateway/app/db.py is sound: no key is there twice, the identifiers of messages grow,
-- and a message refers only to users and channels of the database.
use channel_wire.Service.Database.Histories.{AllAbove-append}
use channel_wire.Service.Database.Table.{has, AreDistinct}
use channel_wire.Prelude.{
  ◌+◌, eq_refl, ◌<◌, false, eq_iff, [], ◌∷◌, ◌++◌, some, arith, refl, Bool, none, true, ◌≡◌, List,
  Option, ◌==◌, ℕ, String,
}
use channel_wire.Service.Database.{
  AreIncreasing, knows_user, same_membership, Message, Membership, Database, same_user, User,
}

pub user_symmetric : (u v : User) → same_user u v ≡ same_user v u
user_symmetric u v = ground (arith, eq_iff u.username v.username, eq_iff v.username u.username)

pub user_reflexive : (u : User) → same_user u u ≡ true
user_reflexive u = eq_refl u.username

pub text_symmetric : (s t : String) → (s == t) ≡ (t == s)
text_symmetric s t = ground (arith, eq_iff s t, eq_iff t s)

pub membership_symmetric : (m n : Membership) → same_membership m n ≡ same_membership n m
membership_symmetric m n =
    rw (text_symmetric m.username n.username, text_symmetric m.channel_name n.channel_name) refl

pub membership_reflexive : (m : Membership) → same_membership m m ≡ true
membership_reflexive m = rw (eq_refl m.username, eq_refl m.channel_name) refl

abbrev pub AllBelow : ℕ → List Message → Type 0
AllBelow n [] = Unit
AllBelow n (m ∷ ms) = (m.id < n) × AllBelow n ms

abbrev pub Known : Database → Option String → Bool → Type 0
Known db none is_user = Unit
Known db (some s) true = knows_user db s ≡ true
Known db (some s) false = has ◌==◌ db.channels s ≡ true

-- The rows that a row of `messages` names are there.
abbrev pub Refers : Database → Message → Type 0
Refers db m =
    (knows_user db m.sender ≡ true) × Known db m.recipient true × Known db m.channel_name false

abbrev pub AllRefer : Database → List Message → Type 0
AllRefer db [] = Unit
AllRefer db (m ∷ ms) = Refers db m × AllRefer db ms

-- The keys are unique, the identifiers of the messages grow and are below the next one, and what the
-- messages refer to is there.
pub record IsSound (db : Database) : Type 0 where
  pub users_distinct : AreDistinct same_user db.users
  pub channels_distinct : AreDistinct ◌==◌ db.channels
  pub memberships_distinct : AreDistinct same_membership db.memberships
  pub increasing : AreIncreasing db.messages
  pub below : AllBelow db.next_id db.messages
  pub refer : AllRefer db db.messages

pub AreIncreasing-append :
    (n : ℕ) (ms : List Message) (m : Message)
    → m.id ≡ n
    → AreIncreasing ms
    → AllBelow n ms
    → AreIncreasing (ms ++ (m ∷ [])) × AllBelow (n + 1) (ms ++ (m ∷ []))
AreIncreasing-append n [] m e h b = ((tt, tt), (omega arith, tt))
AreIncreasing-append n (k ∷ ks) m e (h, hs) (b, bs) =
    let rest = AreIncreasing-append n ks m e hs bs in
    ((AllAbove-append k.id ks m h (omega arith), rest.0), (omega arith, rest.1))

-- The database keeps the users and the channels that it knows.
abbrev pub Grows : Database → Database → Type 0
Grows db db' =
    ((u : String) → knows_user db u ≡ true → knows_user db' u ≡ true)
    × ((c : String) → has ◌==◌ db.channels c ≡ true → has ◌==◌ db'.channels c ≡ true)

Known-Grows :
    (db db' : Database) (o : Option String) (is_user : Bool)
    → Grows db db'
    → Known db o is_user
    → Known db' o is_user
Known-Grows db db' none is_user g h = tt
Known-Grows db db' (some s) true g h = g.0 s h
Known-Grows db db' (some s) false g h = g.1 s h

pub AllRefer-kept :
    (db db' : Database) (ms : List Message) → Grows db db' → AllRefer db ms → AllRefer db' ms
AllRefer-kept db db' [] g h = tt
AllRefer-kept db db' (k ∷ ks) g ((a, b, c), hs) = (
  (
    g.0 k.sender a,
    Known-Grows db db' k.recipient true g b,
    Known-Grows db db' k.channel_name false g c,
  ),
  AllRefer-kept db db' ks g hs,
)

pub AllRefer-Grows :
    (db db' : Database) (ms : List Message) (m : Message)
    → Grows db db'
    → AllRefer db ms
    → Refers db' m
    → AllRefer db' (ms ++ (m ∷ []))
AllRefer-Grows db db' [] m g h new = (new, tt)
AllRefer-Grows db db' (k ∷ ks) m g ((a, b, c), hs) new = (
  (
    g.0 k.sender a,
    Known-Grows db db' k.recipient true g b,
    Known-Grows db db' k.channel_name false g c,
  ),
  AllRefer-Grows db db' ks m g hs new,
)

abbrev pub channel_row : ℕ → String → String → String → Message
channel_row n channel_name sender body = record {
  id = n;
  kind = "channel";
  sender = sender;
  channel_name = some channel_name;
  recipient = none;
  body = body;
}

abbrev pub dm_row : ℕ → String → String → String → Message
dm_row n sender recipient body = record {
  id = n;
  kind = "dm";
  sender = sender;
  channel_name = none;
  recipient = some recipient;
  body = body;
}
