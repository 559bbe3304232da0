-- ===== src/Examples/Tables.antt =====
-- Tables as lists, which meet what `Engine` asks of a database.
use mathlib.Core.List.{reverse-reverse, reverse-cons, reverse}
use channel_wire.Service.Database.Table.{insert_all}
use channel_wire.Prelude.{
  false, length, ◌+◌, refl, arith, sym, ◌∙◌, ◌==◌, inr, true, ltb, ◌++◌, inl, Bool-cases,
  if◌then◌else◌, none, [], ◌≡◌, ap, some, ◌<◌, Bool, ◌∷◌, List, ℕ, Option, take,
}
use channel_wire.Service.Database.{
  in_order, numbered, same_membership, same_user, Database, AllAbove, AreIncreasing, Session,
  Message, select, Engine,
}

infixl 5 ◌>>=◌
abbrev pub ◌>>=◌ : {A B : Type 0} → Option A → (A → Option B) → Option B
none >>= f = none
some a >>= f = f a

-- `none` where a key is there already.
abbrev pub commit_lists : Session → Option Database
commit_lists s = do
  users ← insert_all same_user s.stored.users s.new_users
  channels ← insert_all ◌==◌ s.stored.channels s.new_channels
  memberships ← insert_all same_membership s.stored.memberships s.new_memberships
  some (record {
    users = users;
    channels = channels;
    memberships = memberships;
    messages = s.stored.messages ++ numbered s.stored.next_id s.new_messages;
    next_id = s.stored.next_id + length s.new_messages;
  })

unfoldable pub insert_desc : Message → List Message → List Message
insert_desc m [] = m ∷ []
insert_desc m (n ∷ ns) =
    let later = insert_desc m ns in if ltb m.id n.id then n ∷ later else m ∷ n ∷ ns

-- Sorting by the identifier, the greatest first.
unfoldable pub order_desc : List Message → List Message
unfolding insert_desc
order_desc [] = []
order_desc (m ∷ ms) = insert_desc m (order_desc ms)

AllAbove-insert_desc :
    (n : ℕ) (m : Message) (ms : List Message)
    → n < m.id
    → AllAbove n ms
    → AllAbove n (insert_desc m ms)
unfolding insert_desc
AllAbove-insert_desc n m [] h hs = (h, tt)
AllAbove-insert_desc n m (k ∷ ks) h (g, gs) = elim (Bool-cases (ltb m.id k.id)) [
  | inl less ↦ rw less (g, AllAbove-insert_desc n m ks h gs)
  | inr more ↦ rw more (h, (g, gs))
]

AllAbove-order_desc : (n : ℕ) (ms : List Message) → AllAbove n ms → AllAbove n (order_desc ms)
unfolding order_desc
AllAbove-order_desc n [] h = tt
AllAbove-order_desc n (m ∷ ms) (h, hs) =
    AllAbove-insert_desc n m (order_desc ms) h (AllAbove-order_desc n ms hs)

insert_desc-least :
    (m : Message) (ms : List Message) → AllAbove m.id ms → insert_desc m ms ≡ ms ++ (m ∷ [])
unfolding insert_desc
insert_desc-least m [] h = refl
insert_desc-least m (k ∷ ks) (h, hs) =
    let less : ltb m.id k.id ≡ true = ground arith in rw (less, insert_desc-least m ks hs) refl

-- Where the rows stand in the order of their identifiers, the descending order is the reverse.
pub order_desc-reverse : (ms : List Message) → AreIncreasing ms → order_desc ms ≡ reverse ms
unfolding order_desc
order_desc-reverse [] h = refl
order_desc-reverse (m ∷ ms) (h, hs) =
    insert_desc-least m (order_desc ms) (AllAbove-order_desc m.id ms h)
    ∙ ap (λ l. l ++ (m ∷ [])) (order_desc-reverse ms hs)
    ∙ sym (reverse-cons m ms)

AllAbove-select :
    (test : Message → Bool) (n : ℕ) (ms : List Message)
    → AllAbove n ms
    → AllAbove n (select test ms)
unfolding select
AllAbove-select test n [] h = tt
AllAbove-select test n (m ∷ ms) (h, hs) = elim (Bool-cases (test m)) [
  | inl taken ↦ rw taken (h, AllAbove-select test n ms hs)
  | inr left ↦ rw left (AllAbove-select test n ms hs)
]

pub AreIncreasing-select :
    (test : Message → Bool) (ms : List Message) → AreIncreasing ms → AreIncreasing (select test ms)
unfolding select
AreIncreasing-select test [] h = tt
AreIncreasing-select test (m ∷ ms) (h, hs) = elim (Bool-cases (test m)) [
  | inl taken ↦ rw taken (AllAbove-select test m.id ms h, AreIncreasing-select test ms hs)
  | inr left ↦ rw left (AreIncreasing-select test ms hs)
]

abbrev pub sorted : Bool → List Message → List Message
sorted true ms = order_desc ms
sorted false ms = reverse (order_desc ms)

pub sorted-in_order :
    (descending : Bool) (ms : List Message)
    → AreIncreasing ms
    → sorted descending ms ≡ in_order descending ms
sorted-in_order true ms h = order_desc-reverse ms h
sorted-in_order false ms h = ap reverse (order_desc-reverse ms h) ∙ reverse-reverse ms

abbrev pub lists : Engine
lists = record {
  commit = commit_lists;
  execute = λ q db. take q.limit (sorted q.descending (select q.condition db.messages));
  commit-adds = λ s users channels memberships u c m. rw (u, c, m) refl;
  execute-selects = λ q db increasing. ap (take q.limit) (
      sorted-in_order q.descending (select q.condition db.messages)
        (AreIncreasing-select q.condition db.messages increasing));
}
