-- ===== src/Core/Server/Input/Reading.antt =====
-- When reading from a client of the chat core (`read_from_client` of core/src/server.c) ends, and that it
-- keeps to the buffer.
use channel_wire.Urls.Escapes.{utf8_all}
use channel_wire.Core.Server.Messages.{say_error, msg_error}
use channel_wire.Core.Server.Enqueued.{enqueue-at, queued}
use channel_wire.Core.Server.Input.Drained.{drain_input-returns}
use channel_wire.Core.Server.{Client, safe_enqueue_text, put, no_client, disconnect_client, Server}
use channel_wire.Core.Protocol.{max_payload_size, parse_header, Bytes}
use channel_wire.Prelude.{
  zero, suc, take-all, ap, ◌∙◌, ltb, false, ◌∷◌, inr, ◌<◌, none, if◌then◌else◌, refl, [], ◌+◌,
  Option, inl, length-append, nat_eq, take, ◌++◌, Bool-cases, arith, ◌-◌, some, update_self,
  length-take-le, ◌≡◌, ◌≤◌, length, ℕ,
}
use channel_wire.Core.Server.Input.{
  would_block, after_recv, count_malformed, bytes, peer_closed, interrupted, failed, Received,
  read_from_client, fill, inbuf_cap, drain_input, after_drain,
}

pub filled-length :
    (inbuf new : Bytes)
    → length inbuf ≤ inbuf_cap
    → length (inbuf ++ take (inbuf_cap - length inbuf) new) ≤ inbuf_cap
filled-length inbuf new short =
    let room = length-take-le (inbuf_cap - length inbuf) new in
    rw (length-append inbuf (take (inbuf_cap - length inbuf) new)) (omega (arith, room))

fill-length :
    (i : ℕ) (new : Bytes) (s : Server)
    → length (s.clients i).inbuf ≤ inbuf_cap
    → length ((fill i new s).clients i).inbuf ≤ inbuf_cap
fill-length i new s short =
    let inbuf = (s.clients i).inbuf in
    rw
      (update_self s.clients i
        (record (s.clients i) { inbuf = inbuf ++ take (inbuf_cap - length inbuf) new }))
      (filled-length inbuf new short)

reset-length : (i : ℕ) (s : Server) → length ((disconnect_client i s).clients i).inbuf ≤ inbuf_cap
reset-length i s = rw (update_self s.clients i no_client) (omega arith)

-- A result, with no more bytes in the buffer of client `i` than there is room for.
abbrev Returns : ℕ → Option Server → Type 0
Returns i o = (t : Server) × (o ≡ some t) × (length (t.clients i).inbuf ≤ inbuf_cap)

reset-Returns : (i : ℕ) (s : Server) → Returns i (some (disconnect_client i s))
reset-Returns i s = (disconnect_client i s, refl, reset-length i s)

unless_full-Returns :
    (i : ℕ) (s : Server) (next : Option Server)
    → Returns i next
    → Returns i (
        if nat_eq (length (s.clients i).inbuf) inbuf_cap
        then some (disconnect_client i s)
        else next)
unless_full-Returns i s next h = elim (Bool-cases (nat_eq (length (s.clients i).inbuf) inbuf_cap)) [
  | inl full ↦ rw full (reset-Returns i s)
  | inr room ↦ rw room h
]

after_drain-Returns :
    (i : ℕ) (next : Server → Option Server) (s : Server)
    → length (s.clients i).inbuf ≤ inbuf_cap
    → ((t : Server) → length (t.clients i).inbuf ≤ inbuf_cap → Returns i (next t))
    → Returns i (after_drain next (drain_input (inbuf_cap + 1) i s))
after_drain-Returns i next s short h =
    let drained = drain_input-returns (inbuf_cap + 1) i s (omega arith) in
    let fits : length (drained.1.clients i).inbuf ≤ inbuf_cap = omega (arith, drained.3) in
    rw drained.2 (elim (Bool-cases drained.0) [
      | inl more ↦ rw more (h drained.1 fits)
      | inr last ↦ rw last (drained.1, refl, fits)
    ])

-- A result of `recv` after which the loop is left.
abbrev pub IsLast : Received → Type 0
IsLast (bytes new) = ⊥
IsLast interrupted = ⊥
IsLast _ = Unit

last-Returns :
    (r : Received) (next : Server → Option Server) (i : ℕ) (s : Server)
    → IsLast r
    → length (s.clients i).inbuf ≤ inbuf_cap
    → Returns i (after_recv next r i s)
last-Returns (bytes new) next i s last short = elim last [ ]
last-Returns interrupted next i s last short = elim last [ ]
last-Returns peer_closed next i s last short = reset-Returns i s
last-Returns would_block next i s last short = (s, refl, short)
last-Returns failed next i s last short = reset-Returns i s

after_recv-Returns :
    (r : Received) (next : Server → Option Server) (i : ℕ) (s : Server)
    → length (s.clients i).inbuf ≤ inbuf_cap
    → ((t : Server) → length (t.clients i).inbuf ≤ inbuf_cap → Returns i (next t))
    → Returns i (after_recv next r i s)
after_recv-Returns (bytes new) next i s short h =
    after_drain-Returns i next (fill i new s) (fill-length i new s short) h
after_recv-Returns interrupted next i s short h = h s short
after_recv-Returns peer_closed next i s short h = reset-Returns i s
after_recv-Returns would_block next i s short h = (s, refl, short)
after_recv-Returns failed next i s short h = reset-Returns i s

-- The loop is left at the latest after the first call of `recv` that gives no bytes and is not EINTR.
pub read_from_client-returns :
    (n : ℕ) (results : ℕ → Received) (i : ℕ) (s : Server)
    → IsLast (results n)
    → length (s.clients i).inbuf ≤ inbuf_cap
    → (t : Server) × (read_from_client (suc n) results i s ≡ some t)
      × (length (t.clients i).inbuf ≤ inbuf_cap)
unfolding read_from_client
read_from_client-returns zero results i s last short =
    unless_full-Returns i s _ (last-Returns (results 0) _ i s last short)
read_from_client-returns (suc n) results i s last short = unless_full-Returns i s _ (
    after_recv-Returns (results 0) _ i s short
      (λ t fits. read_from_client-returns n (λ k. results (suc k)) i t last fits))

fill_once :
    (i : ℕ) (new : Bytes) (s : Server)
    → length (s.clients i).inbuf + length new ≤ inbuf_cap
    → fill i new s ≡ put i (record (s.clients i) { inbuf = (s.clients i).inbuf ++ new }) s
fill_once i new s fits =
    rw (take-all (inbuf_cap - length (s.clients i).inbuf) new (omega arith)) refl

parse_header-append :
    (inbuf new : Bytes) → 5 ≤ length inbuf → parse_header (inbuf ++ new) ≡ parse_header inbuf
unfolding parse_header
parse_header-append (t ∷ a ∷ b ∷ c ∷ d ∷ rest) new five = refl
parse_header-append (t ∷ a ∷ b ∷ c ∷ []) new five = absurd (omega arith)
parse_header-append (t ∷ a ∷ b ∷ []) new five = absurd (omega arith)
parse_header-append (t ∷ a ∷ []) new five = absurd (omega arith)
parse_header-append (t ∷ []) new five = absurd (omega arith)
parse_header-append [] new five = absurd (omega arith)

drain_input-malformed :
    (fuel i : ℕ) (s : Server)
    → 5 ≤ length (s.clients i).inbuf
    → parse_header (s.clients i).inbuf ≡ none
    → drain_input (suc fuel) i s ≡ some (false, say_error i "malformed frame" (count_malformed s))
unfolding drain_input
drain_input-malformed fuel i s five bad =
    let enough : ltb (length (s.clients i).inbuf) 5 ≡ false = ground arith in rw (enough, bad) refl

error_short : length (utf8_all "malformed frame") ≤ max_payload_size
unfolding utf8_all
error_short = omega arith

read_once :
    (fuel i : ℕ) (results : ℕ → Received) (new : Bytes) (s : Server)
    → results 0 ≡ bytes new
    → nat_eq (length (s.clients i).inbuf) inbuf_cap ≡ false
    → read_from_client (suc fuel) results i s
      ≡ after_drain
          (read_from_client fuel (λ n. results (suc n)) i)
          (drain_input (inbuf_cap + 1) i (fill i new s))
unfolding read_from_client
read_once fuel i results new s first room = rw (room, first) refl

-- A client that has sent a header of a payload that is too large stays connected, as long as its queue
-- has room: the header stays in its buffer, and what it sends next, if there is room for it, is put
-- behind it and answered with one more error, whatever the later calls of `recv` would come to.
pub malformed_stays :
    (fuel i : ℕ) (results : ℕ → Received) (new : Bytes) (s : Server)
    → results 0 ≡ bytes new
    → parse_header (s.clients i).inbuf ≡ none
    → 5 ≤ length (s.clients i).inbuf
    → length (s.clients i).inbuf + length new < inbuf_cap
    → (t : Server) × (read_from_client (suc fuel) results i s ≡ some t)
      × (t.clients i
          ≡ queued s.max_queue_bytes msg_error
              (utf8_all "malformed frame")
              (record (s.clients i) { inbuf = (s.clients i).inbuf ++ new }))
unfolding safe_enqueue_text
malformed_stays fuel i results new s first bad five fits =
    let c : Client = record (s.clients i) { inbuf = (s.clients i).inbuf ++ new } in
    let t = put i c s in
    let filled : fill i new s ≡ t = fill_once i new s (omega arith) in
    let at_i : t.clients i ≡ c = update_self s.clients i c in
    let long = length-append (s.clients i).inbuf new in
    let room : nat_eq (length (s.clients i).inbuf) inbuf_cap ≡ false = ground arith in
    let wrong : parse_header ((s.clients i).inbuf ++ new) ≡ none =
      parse_header-append (s.clients i).inbuf new five ∙ bad in
    let drained : drain_input (inbuf_cap + 1) i t
        ≡ some (false, say_error i "malformed frame" (count_malformed t)) =
      drain_input-malformed inbuf_cap i t (rw at_i (omega (arith, long))) (rw at_i wrong) in
    (
      say_error i "malformed frame" (count_malformed t),
      read_once fuel i results new s first room
          ∙ ap
              (λ x.
                after_drain (read_from_client fuel (λ n. results (suc n)) i)
                  (drain_input (inbuf_cap + 1) i x))
              filled
          ∙ ap (after_drain (read_from_client fuel (λ n. results (suc n)) i)) drained,
      enqueue-at i msg_error (utf8_all "malformed frame") (count_malformed t) error_short
          ∙ ap (λ x. queued s.max_queue_bytes msg_error (utf8_all "malformed frame") x) at_i,
    )
