-- ===== src/Core/Server/Names.antt =====
-- The names of the chat core (core/src/server.c): `strcmp` and the search for a channel.
use channel_wire.Prelude.{
  ◌∙◌, sym, ◌<◌, ℕ, suc, true, none, some, List, [], ◌∷◌, ◌++◌, length, Bool-cases, Option-cases,
  inl, inr, ◌≡◌, refl, arith,
}
use channel_wire.Core.Protocol.{Bytes}
use channel_wire.Core.Server.{same_name, find_channel}

pub same_name_refl : (a : Bytes) → same_name a a ≡ true
unfolding same_name
same_name_refl [] = refl
same_name_refl (x ∷ xs) = ground (arith, same_name_refl xs)

pub same_name-eq : (a b : Bytes) → same_name a b ≡ true → a ≡ b
unfolding same_name
same_name-eq [] [] h = refl
same_name-eq [] (y ∷ ys) h = ground arith
same_name-eq (x ∷ xs) [] h = ground arith
same_name-eq (x ∷ xs) (y ∷ ys) h =
    let heads : x ≡ y = ground arith in
    let tails : same_name xs ys ≡ true = ground arith in rw (heads, same_name-eq xs ys tails) refl

-- A new channel is found at the end of the list.
pub find_channel-end :
    (cs : List Bytes) (name : Bytes)
    → find_channel cs name ≡ none
    → find_channel (cs ++ (name ∷ [])) name ≡ some (length cs)
unfolding find_channel
find_channel-end [] name h = rw (same_name_refl name) refl
find_channel-end (c ∷ cs) name h = elim (Bool-cases (same_name c name)) [
  | inl here ↦ cc (rw here at h)
  | inr other ↦ elim (Option-cases (find_channel cs name)) [
    | inl absent ↦ rw (other, find_channel-end cs name absent) refl
    | inr (k, found) ↦ cc (rw (other, found) at h)
  ]
]

-- A channel stays where it is when another one is added.
pub find_channel-append :
    (cs : List Bytes) (more : List Bytes) (name : Bytes) (k : ℕ)
    → find_channel cs name ≡ some k
    → find_channel (cs ++ more) name ≡ some k
unfolding find_channel
find_channel-append [] more name k h = cc h
find_channel-append (c ∷ cs) more name k h = elim (Bool-cases (same_name c name)) [
  | inl here ↦ rw here (rw here at h)
  | inr other ↦ elim (Option-cases (find_channel cs name)) [
    | inl absent ↦ cc (rw (other, absent) at h)
    | inr (m, found) ↦
        let same : some (suc m) ≡ some k = rw (other, found) at h in
        rw (other, find_channel-append cs more name m found) same
  ]
]

pub find_channel-lt :
    (cs : List Bytes) (name : Bytes) (k : ℕ) → find_channel cs name ≡ some k → k < length cs
unfolding find_channel
find_channel-lt [] name k h = cc h
find_channel-lt (c ∷ cs) name k h = elim (Bool-cases (same_name c name)) [
  | inl here ↦ let zeroth : some 0 ≡ some k = rw here at h in ground arith
  | inr other ↦ elim (Option-cases (find_channel cs name)) [
    | inl absent ↦ cc (rw (other, absent) at h)
    | inr (m, found) ↦
        let same : some (suc m) ≡ some k = rw (other, found) at h in
        let less = find_channel-lt cs name m found in ground arith
  ]
]

-- Names that are found at one place are the same name.
pub find_channel-injective :
    (cs : List Bytes) (a b : Bytes) (k : ℕ)
    → find_channel cs a ≡ some k
    → find_channel cs b ≡ some k
    → a ≡ b
unfolding find_channel
find_channel-injective [] a b k h g = cc h
find_channel-injective (c ∷ cs) a b k h g = elim (Bool-cases (same_name c a)) [
  | inl here ↦ elim (Bool-cases (same_name c b)) [
    | inl there ↦ sym (same_name-eq c a here) ∙ same_name-eq c b there
    | inr later ↦ elim (Option-cases (find_channel cs b)) [
      | inl absent ↦ cc (rw (later, absent) at g)
      | inr (m, found) ↦
          let first : some 0 ≡ some k = rw here at h in
          let second : some (suc m) ≡ some k = rw (later, found) at g in ground arith
    ]
  ]
  | inr later ↦ elim (Option-cases (find_channel cs a)) [
    | inl absent ↦ cc (rw (later, absent) at h)
    | inr (m, found) ↦
        let first : some (suc m) ≡ some k = rw (later, found) at h in
        elim (Bool-cases (same_name c b)) [
          | inl there ↦ let second : some 0 ≡ some k = rw there at g in ground arith
          | inr after ↦ elim (Option-cases (find_channel cs b)) [
            | inl absent ↦ cc (rw (after, absent) at g)
            | inr (n, found') ↦
                let second : some (suc n) ≡ some k = rw (after, found') at g in
                let same : n ≡ m = ground arith in
                find_channel-injective cs a b m found (rw same at found')
          ]
        ]
  ]
]
