-- ===== src/Core/Server/Input/Drained.antt =====
-- The loop over the frames that were received (`drain_input` of core/src/server.c) ends.
use channel_wire.Core.Server.Messages.{say_error}
use mathlib.Core.Bool.{false≢true}
use mathlib.Core.Option.{none-ne-some, some-injective}
use channel_wire.Core.Server.Answers.{error_kept}
use channel_wire.Prelude.{
  ap, sym, String, ℕ, zero, suc, ◌+◌, ◌-◌, List, [], ◌∷◌, nat_eq, update_self, ◌≤◌, ◌<◌, Bool, true,
  false, not, some, length, length-drop, take, drop, ltb, Bool-cases, Option-cases, inl, inr, ◌≡◌,
  refl, arith, update-All,
}
use channel_wire.Core.Protocol.{from_be32, max_payload_size, FrameHeader, Bytes, parse_header}
use channel_wire.Core.Server.{nat_eq, ◌∷◌, OutFrame, List, Client, Server, put}
use channel_wire.Core.Server.Events.{handle_frame, client_msg_type, bytes_sent, frames_sent}
use channel_wire.Core.Server.Kept.{IsKept}
use channel_wire.Core.Server.Handled.{handle_msg_kept}
use channel_wire.Core.Server.Input.{count_malformed, inbuf_cap, consume, drain_input}

-- At most `n` bytes wait in the buffer of client `i`.
abbrev pub IsShort : ℕ → ℕ → Server → Type 0
IsShort i n s = (j : ℕ) → j ≡ i → length (s.clients j).inbuf ≤ n

pub put-IsShort :
    (i n j : ℕ) (c : Client) (s : Server)
    → IsShort i n s
    → (j ≡ i → length c.inbuf ≤ n)
    → IsShort i n (put j c s)
put-IsShort i n j c s h short = update-All (λ m x. m ≡ i → length x.inbuf ≤ n) s.clients j c h short

frames_sent-inbuf : (n : ℕ) (fs : List OutFrame) (c : Client) → (frames_sent n fs c).inbuf ≡ c.inbuf
frames_sent-inbuf n [] c = refl
frames_sent-inbuf n (f ∷ fs) c = elim (Bool-cases (nat_eq (f.sent + n) (length f.bytes))) [
  | inl done ↦ rw done refl
  | inr more ↦ rw more refl
]

pub IsShort-IsKept : (i n : ℕ) → IsKept (IsShort i n)
unfolding bytes_sent
IsShort-IsKept i n = record {
  enqueued = λ j type payload s room h. put-IsShort i n j _ s h (h j);
  emptied = λ j s h. put-IsShort i n j _ s h (λ e. omega arith);
  counted = λ stats s h. h;
  named = λ j name s free h. put-IsShort i n j _ s h (h j);
  added = λ name s absent room h. h;
  entered = λ j k name s found h. put-IsShort i n j _ s h (h j);
  switched = λ j name s joined h. put-IsShort i n j _ s h (h j);
  left = λ j k name s found h. put-IsShort i n j _ s h (h j);
  sent = λ j m s h.
      put-IsShort i n j _ s h
        (λ e. rw (frames_sent-inbuf m (s.clients j).queue (s.clients j)) (h j e));
  opened = λ j s h. put-IsShort i n j _ s h (λ e. omega arith);
}

handle_frame-IsShort :
    (i n type : ℕ) (payload : Bytes) (s : Server)
    → IsShort i n s
    → IsShort i n (handle_frame i type payload s)
unfolding handle_frame
handle_frame-IsShort i n type payload s h =
    handle_msg_kept (IsShort-IsKept i n) (client_msg_type type) i payload s h

consume-length :
    (i frame_len : ℕ) (s : Server)
    → length ((consume i frame_len s).clients i).inbuf ≡ length (s.clients i).inbuf - frame_len
consume-length i frame_len s =
    rw
      (update_self s.clients i
        (record (s.clients i) { inbuf = drop frame_len (s.clients i).inbuf }))
      (length-drop frame_len (s.clients i).inbuf)

say_error-IsShort :
    (i n : ℕ) (text : String) (s : Server)
    → IsShort i n s
    → IsShort i n (say_error i text (count_malformed s))
say_error-IsShort i n text s h = error_kept (IsShort-IsKept i n) i text (count_malformed s) h

parse_header-bound :
    (inbuf : Bytes) (header : FrameHeader)
    → parse_header inbuf ≡ some header
    → header.payload_len ≤ max_payload_size
unfolding parse_header
parse_header-bound (t ∷ a ∷ b ∷ c ∷ d ∷ rest) header e =
    elim (Bool-cases (ltb max_payload_size (from_be32 a b c d))) [
      | inl long ↦ absurd (none-ne-some header (rw long at e))
      | inr short ↦
          let same = some-injective _ header (rw short at e) in
          rw (sym (ap (λ h. h.payload_len) same)) (ground arith)
    ]
parse_header-bound (t ∷ a ∷ b ∷ c ∷ []) header e = absurd (none-ne-some header e)
parse_header-bound (t ∷ a ∷ b ∷ []) header e = absurd (none-ne-some header e)
parse_header-bound (t ∷ a ∷ []) header e = absurd (none-ne-some header e)
parse_header-bound (t ∷ []) header e = absurd (none-ne-some header e)
parse_header-bound [] header e = absurd (none-ne-some header e)

-- With fuel for more rounds than the buffer has bytes, the loop over the frames returns, whatever the
-- frames are and whatever their handlers do; it leaves no more bytes than there were, and fewer than
-- the buffer has room for where it returns 0.
pub drain_input-returns :
    (fuel i : ℕ) (s : Server)
    → length (s.clients i).inbuf < fuel
    → (b : Bool) × (t : Server) × (drain_input fuel i s ≡ some (b, t))
      × (length (t.clients i).inbuf ≤ length (s.clients i).inbuf)
      × (b ≡ true → length (t.clients i).inbuf < inbuf_cap)
unfolding drain_input
drain_input-returns zero i s enough = let never : ⊥ = omega arith in elim never [ ]
drain_input-returns (suc fuel) i s enough =
    let inbuf = (s.clients i).inbuf in
    elim (Bool-cases (ltb (length inbuf) 5)) [
      | inl few ↦ rw few (true, s, refl, omega arith, λ e. ground arith)
      | inr header ↦ elim (Option-cases (parse_header inbuf)) [
        | inl bad ↦
            let short =
              say_error-IsShort i (length inbuf) "malformed frame" s (λ j e. rw e (omega arith)) i
                refl in
            rw (header, bad) (false, _, refl, short, λ e. absurd (false≢true e))
        | inr (h, good) ↦ elim (Bool-cases (ltb (length inbuf) (5 + h.payload_len))) [
          | inl part ↦
              let bound = parse_header-bound inbuf h good in
              rw (header, good, part) (true, s, refl, omega arith, λ e. ground (arith, bound))
          | inr all ↦
              let t = handle_frame i h.type (take h.payload_len (drop 5 inbuf)) s in
              let short : length (t.clients i).inbuf ≤ length inbuf =
                handle_frame-IsShort i (length inbuf) h.type (take h.payload_len (drop 5 inbuf)) s
                  (λ j e. rw e (omega arith)) i refl in
              elim (Bool-cases (not (t.clients i).is_open)) [
                | inl gone ↦
                    rw (header, good, all, gone) (false, t, refl, short, λ e. absurd (false≢true e))
                | inr here ↦
                    let full : 5 + h.payload_len ≤ length inbuf = ground arith in
                    let less = consume-length i (5 + h.payload_len) t in
                    let rest =
                      drain_input-returns fuel i (consume i (5 + h.payload_len) t) (omega arith) in
                    rw (header, good, all, here)
                      (rest.0, rest.1, rest.2, omega (arith, rest.3), rest.4)
              ]
        ]
      ]
    ]
