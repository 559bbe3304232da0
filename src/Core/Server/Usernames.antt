-- ===== src/Core/Server/Usernames.antt =====
-- No two users of the chat core (core/src/server.c) have one username.
use channel_wire.Prelude.{
  ℕ, zero, suc, ◌+◌, ◌<◌, true, false, not, ◌&&◌, List, [], ◌∷◌, nat_eq, Bool-cases, inl, inr, ◌≡◌,
  ◌≢◌, ◌⊎◌, length, subst, refl, sym, ◌∙◌, ap, arith, ℕ_discrete, update_self, update_ne,
  update-All, or-eq-false,
}
use channel_wire.Core.Protocol.{Bytes}
use channel_wire.Core.Server.{
  OutFrame, Client, Server, max_clients, put, is_user, name_taken, same_name, username_in_use,
}
use channel_wire.Core.Server.Handlers.{set_name}
use channel_wire.Core.Server.Events.{frames_sent, bytes_sent}
use channel_wire.Core.Server.Runs.{Event, run, started}
use channel_wire.Core.Server.Names.{same_name_refl}
use channel_wire.Core.Server.Kept.{IsKept}
use channel_wire.Core.Server.Reached.{run_kept}

abbrev AreUnique : Server → Type 0
AreUnique s =
    (i j : ℕ)
    → i < max_clients
    → j < max_clients
    → is_user s i ≡ true
    → is_user s j ≡ true
    → (s.clients i).username ≡ (s.clients j).username
    → i ≡ j

-- A client that is a user only where it was one, under the same name.
abbrev IsAsBefore : Server → ℕ → Client → Type 0
IsAsBefore s i c =
    (c.is_open && c.registered) ≡ true
    → (is_user s i ≡ true) × (c.username ≡ (s.clients i).username)

put-AreUnique :
    (i : ℕ) (c : Client) (s : Server) → IsAsBefore s i c → AreUnique s → AreUnique (put i c s)
put-AreUnique i c s as_before h a b la lb ua ub e =
    let before = update-All (IsAsBefore s) s.clients i c (λ j u. (u, refl)) as_before in
    let was_a = before a ua in
    let was_b = before b ub in h a b la lb was_a.0 was_b.0 (sym was_a.1 ∙ e ∙ was_b.1)

name_taken-other :
    (s : Server) (name : Bytes) (except n j : ℕ)
    → name_taken s name except n ≡ false
    → j < n
    → j ≢ except
    → is_user s j ≡ true
    → (s.clients j).username ≢ name
unfolding name_taken
name_taken-other s name except zero j free below other user e = omega arith
name_taken-other s name except (suc n) j free below other user e =
    let halves =
      or-eq-false (name_taken s name except n)
        (not (nat_eq n except) && is_user s n && same_name (s.clients n).username name) free in
    elim (ℕ_discrete j n) [
      | yes last ↦
          let named : (s.clients n).username ≡ name =
            subst (λ x. (s.clients x).username ≡ name) last e in
          let taken : same_name (s.clients n).username name ≡ true =
            rw named (same_name_refl name) in
          let user_n : is_user s n ≡ true = subst (λ x. is_user s x ≡ true) last user in
          let free_n = halves.1 in ground arith
      | no less ↦ name_taken-other s name except n j halves.0 (omega arith) other user e
    ]

frames_sent-same :
    (n : ℕ) (fs : List OutFrame) (c : Client)
    → ((frames_sent n fs c).is_open ≡ c.is_open)
      × ((frames_sent n fs c).registered ≡ c.registered)
      × ((frames_sent n fs c).username ≡ c.username)
frames_sent-same n [] c = (refl, refl, refl)
frames_sent-same n (f ∷ fs) c = elim (Bool-cases (nat_eq (f.sent + n) (length f.bytes))) [
  | inl done ↦ rw done (refl, refl, refl)
  | inr more ↦ rw more (refl, refl, refl)
]

bytes_sent-AreUnique : (i n : ℕ) (s : Server) → AreUnique s → AreUnique (bytes_sent i n s)
unfolding bytes_sent
bytes_sent-AreUnique i n s h =
    let same = frames_sent-same n (s.clients i).queue (s.clients i) in
    put-AreUnique i _ s (λ u. (rw (same.0, same.1) at u, same.2)) h

-- After a client is named, a user is that client, or was a user under the same name.
named-cases :
    (i : ℕ) (name : Bytes) (s : Server) (j : ℕ)
    → is_user (set_name i name s) j ≡ true
    → ((i ≡ j) × (((set_name i name s).clients j).username ≡ name))
      ⊎ ((j ≢ i)
          × (is_user s j ≡ true)
          × (((set_name i name s).clients j).username ≡ (s.clients j).username))
named-cases i name s j user =
    let c = record (s.clients i) { registered = true; username = name } in
    elim (ℕ_discrete i j) [
      | yes e ↦
          let here : ((set_name i name s).clients i).username ≡ name =
            ap (λ x. x.username) (update_self s.clients i c) in
          inl (e, subst (λ k. ((set_name i name s).clients k).username ≡ name) e here)
      | no n ↦
          let same = update_ne s.clients i j c n in
          inr (
            λ e. n (sym e),
            ap (λ x. x.is_open && x.registered) (sym same) ∙ user,
            ap (λ x. x.username) same,
          )
    ]

set_name-AreUnique :
    (i : ℕ) (name : Bytes) (s : Server)
    → username_in_use s name i ≡ false
    → AreUnique s
    → AreUnique (set_name i name s)
set_name-AreUnique i name s free h a b la lb ua ub e = elim (named-cases i name s a ua) [
  | inl (ia, na) ↦ elim (named-cases i name s b ub) [
    | inl (ib, nb) ↦ sym ia ∙ ib
    | inr (other, user, was) ↦
        absurd (name_taken-other s name i max_clients b free lb other user (sym was ∙ sym e ∙ na))
  ]
  | inr (other, user, was) ↦ elim (named-cases i name s b ub) [
    | inl (ib, nb) ↦
        absurd (name_taken-other s name i max_clients a free la other user (sym was ∙ e ∙ nb))
    | inr (other', user', was') ↦ h a b la lb user user' (sym was ∙ e ∙ was')
  ]
]

AreUnique-IsKept : IsKept AreUnique
AreUnique-IsKept = record {
  enqueued = λ i type payload s room h. put-AreUnique i _ s (λ u. (u, refl)) h;
  emptied = λ i s h. put-AreUnique i _ s (λ u. ground arith) h;
  counted = λ stats s h. h;
  named = set_name-AreUnique;
  added = λ name s absent room h. h;
  entered = λ i k name s found h. put-AreUnique i _ s (λ u. (u, refl)) h;
  switched = λ i name s joined h. put-AreUnique i _ s (λ u. (u, refl)) h;
  left = λ i k name s found h. put-AreUnique i _ s (λ u. (u, refl)) h;
  sent = bytes_sent-AreUnique;
  opened = λ i s h. put-AreUnique i _ s (λ u. ground arith) h;
}

-- After any events, in any order, two of the core's 128 slots whose clients are connected and
-- registered under one username are the same slot.
pub usernames_unique :
    (limit : ℕ) (es : List Event) (i j : ℕ)
    → i < max_clients
    → j < max_clients
    → is_user (run es (started limit)) i ≡ true
    → is_user (run es (started limit)) j ≡ true
    → ((run es (started limit)).clients i).username ≡ ((run es (started limit)).clients j).username
    → i ≡ j
usernames_unique limit es =
    run_kept AreUnique-IsKept (λ i input s fits h. put-AreUnique i _ s (λ u. (u, refl)) h) es
      (started limit) (λ i j li lj ui uj e. ground arith)
