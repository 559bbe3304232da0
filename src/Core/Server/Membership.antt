-- ===== src/Core/Server/Membership.antt =====
-- A client of the chat core (core/src/server.c) is a member of the channel that it talks in.
use channel_wire.Prelude.{
  ℕ, ◌+◌, ◌≤◌, ◌<◌, true, false, some, List, [], ◌∷◌, ◌++◌, length, length-append, Bool-cases,
  Option-cases, inl, inr, ◌⊎◌, ◌≡◌, ◌≢◌, refl, ◌∙◌, arith, update, update_self, update_ne,
  update-All, nat_eq, if◌then◌else◌,
}
use channel_wire.Core.Protocol.{Bytes}
use channel_wire.Core.Server.{
  Client, OutFrame, Server, max_channels, no_client, put, find_channel, same_name,
}
use channel_wire.Core.Server.Handlers.{has_joined}
use channel_wire.Core.Server.Events.{frames_sent, bytes_sent}
use channel_wire.Core.Server.Runs.{Event, run, started}
use channel_wire.Core.Server.Names.{
  same_name_refl, find_channel-append, find_channel-lt, find_channel-injective,
}
use channel_wire.Core.Server.Kept.{IsKept}
use channel_wire.Core.Server.Reached.{run_kept}

-- The active channel, if any, is one of the server's, and the client has joined it; and the marks of
-- the channels that the client has joined stand at channels that there are.
abbrev Belongs : List Bytes → Client → Type 0
Belongs cs c =
    ((c.active_channel ≡ [])
      ⊎ ((k : ℕ) × (find_channel cs c.active_channel ≡ some k) × (c.joined k ≡ true)))
    × ((k : ℕ) → c.joined k ≡ true → k < length cs)

abbrev AllBelong : Server → Type 0
AllBelong s = (length s.channels ≤ max_channels) × ((i : ℕ) → Belongs s.channels (s.clients i))

put-AllBelong :
    (i : ℕ) (c : Client) (s : Server) → AllBelong s → Belongs s.channels c → AllBelong (put i c s)
put-AllBelong i c s h fit = (h.0, update-All (λ j x. Belongs s.channels x) s.clients i c h.1 fit)

Belongs-append :
    (cs : List Bytes) (name : Bytes) (c : Client) → Belongs cs c → Belongs (cs ++ (name ∷ [])) c
Belongs-append cs name c (inl none_active, marks) = (
  inl none_active,
  λ k j. let more = length-append cs (name ∷ []) in let less = marks k j in omega arith,
)
Belongs-append cs name c (inr (k, found, joined), marks) = (
  inr (k, find_channel-append cs (name ∷ []) c.active_channel k found, joined),
  λ m j. let more = length-append cs (name ∷ []) in let less = marks m j in omega arith,
)

entered-Belongs :
    (cs : List Bytes) (k : ℕ) (name : Bytes) (c : Client)
    → find_channel cs name ≡ some k
    → Belongs cs c
    → Belongs cs (record c { joined = update c.joined k true; active_channel = name })
entered-Belongs cs k name c found h = (
  inr (k, found, update_self c.joined k true),
  update-All (λ m b. b ≡ true → m < length cs) c.joined k true h.1
      (λ e. find_channel-lt cs name k found),
)

switched-Belongs :
    (cs : List Bytes) (name : Bytes) (c : Client)
    → has_joined (find_channel cs name) c ≡ true
    → Belongs cs c
    → Belongs cs (record c { active_channel = name })
switched-Belongs cs name c joined h = elim (Option-cases (find_channel cs name)) [
  | inl absent ↦ cc (rw absent at joined)
  | inr (k, found) ↦ (inr (k, found, rw found at joined), h.1)
]

left-Belongs :
    (cs : List Bytes) (k : ℕ) (name : Bytes) (c : Client)
    → find_channel cs name ≡ some k
    → Belongs cs c
    → Belongs cs (record c {
      joined = update c.joined k false;
      active_channel = if same_name c.active_channel name then [] else c.active_channel;
    })
left-Belongs cs k name c found (active, marks) =
    let marks' = update-All (λ m b. b ≡ true → m < length cs) c.joined k false marks (λ e. cc e) in
    elim (Bool-cases (same_name c.active_channel name)) [
      | inl same ↦ rw same (inl refl, marks')
      | inr other ↦ elim active [
        | inl empty ↦ rw other (inl empty, marks')
        | inr (m, at, joined) ↦
            let apart : k ≢ m = λ e.
              let name_of : c.active_channel ≡ name =
                find_channel-injective cs c.active_channel name m at (rw e at found) in
              cc (rw (name_of, same_name_refl name) at other) in
            rw other (inr (m, at, update_ne c.joined k m false apart ∙ joined), marks')
      ]
    ]

frames_sent-Belongs :
    (cs : List Bytes) (n : ℕ) (fs : List OutFrame) (c : Client)
    → Belongs cs c
    → Belongs cs (frames_sent n fs c)
frames_sent-Belongs cs n [] c h = h
frames_sent-Belongs cs n (f ∷ fs) c h = elim (Bool-cases (nat_eq (f.sent + n) (length f.bytes))) [
  | inl done ↦ rw done h
  | inr more ↦ rw more h
]

none-Belongs : (cs : List Bytes) → Belongs cs no_client
none-Belongs cs = (inl refl, λ k e. cc e)

AllBelong-IsKept : IsKept AllBelong
unfolding bytes_sent
AllBelong-IsKept = record {
  enqueued = λ i type payload s room h. put-AllBelong i _ s h (h.1 i);
  emptied = λ i s h. put-AllBelong i _ s h (none-Belongs s.channels);
  counted = λ stats s h. h;
  named = λ i name s free h. put-AllBelong i _ s h (h.1 i);
  added = λ name s absent room h. (
    let more = length-append s.channels (name ∷ []) in omega arith,
    λ i. Belongs-append s.channels name (s.clients i) (h.1 i),
  );
  entered = λ i k name s found h.
      put-AllBelong i _ s h (entered-Belongs s.channels k name (s.clients i) found (h.1 i));
  switched = λ i name s joined h.
      put-AllBelong i _ s h (switched-Belongs s.channels name (s.clients i) joined (h.1 i));
  left = λ i k name s found h.
      put-AllBelong i _ s h (left-Belongs s.channels k name (s.clients i) found (h.1 i));
  sent =
      λ i n s h. put-AllBelong i _ s h (frames_sent-Belongs s.channels n _ (s.clients i) (h.1 i));
  opened = λ i s h. put-AllBelong i _ s h (none-Belongs s.channels);
}

-- After any events, in any order, the active channel of a client of the core is empty, or is one of the
-- server's channels, at an index below 64, and the client has joined it.
pub active_joined :
    (limit : ℕ) (es : List Event) (i : ℕ)
    → (((run es (started limit)).clients i).active_channel ≡ [])
      ⊎ ((k : ℕ) × (find_channel
              (run es (started limit)).channels
              ((run es (started limit)).clients i).active_channel
            ≡ some k)
          × (((run es (started limit)).clients i).joined k ≡ true)
          × (k < max_channels))
active_joined limit es i =
    let s = run es (started limit) in
    let all : AllBelong s =
      run_kept AllBelong-IsKept (λ j input s fits h. put-AllBelong j _ s h (h.1 j)) es
        (started limit) (omega arith, λ j. none-Belongs []) in
    elim (all.1 i).0 [
      | inl empty ↦ inl empty
      | inr (k, found, joined) ↦
          let listed = find_channel-lt s.channels (s.clients i).active_channel k found in
          let few = all.0 in inr (k, found, joined, omega arith)
    ]
