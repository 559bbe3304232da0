-- ===== src/Core/Server/Reached.antt =====
-- A property that each change of the chat core's state keeps, whatever is in the input buffers, holds
-- after any sequence of events (core/src/server.c).
use channel_wire.Core.Server.Input.Reading.{filled-length}
use channel_wire.Core.Server.Answers.{error_kept}
use channel_wire.Core.Protocol.{parse_header, Bytes}
use channel_wire.Core.Server.Events.{
  client_msg_type, free_slot, accepted, accept_client, handle_frame,
}
use channel_wire.Core.Server.Kept.{if_kept, reset_kept, IsKept}
use channel_wire.Prelude.{
  length-drop, arith, ◌≤◌, zero, not, drop, take, Option-cases, inr, ◌&&◌, true, inl, false, ltb,
  length, ◌+◌, none, [], nat_eq, Bool-cases, some, if◌then◌else◌, ◌∷◌, Bool, Option, List, ℕ,
}
use channel_wire.Core.Server.{disconnect_client, max_clients, some, put, suc, Server}
use channel_wire.Core.Server.Runs.{
  results_of, or_same, readable, connected, written, lost, Event, step, run,
}
use channel_wire.Core.Server.Input.{
  would_block, after_recv, Received, bytes, peer_closed, interrupted, failed, read_from_client,
  fill, inbuf_cap, drain_input, after_drain, consume,
}
use channel_wire.Core.Server.Handled.{handle_msg_kept}

-- A property that does not depend on what the input buffers hold, within their room.
abbrev pub AnyInput : (Server → Type 0) → Type 0
AnyInput I =
    (i : ℕ) (input : Bytes) (s : Server)
    → (length (s.clients i).inbuf ≤ inbuf_cap → length input ≤ inbuf_cap)
    → I s
    → I (put i (record (s.clients i) { inbuf = input }) s)

module _ {I : Server → Type 0} (k : IsKept I) (any : AnyInput I) where
  abbrev HoldsAfter : Option Server → Type 0
  HoldsAfter none = Unit
  HoldsAfter (some s) = I s

  abbrev HoldsDrained : Option (Bool × Server) → Type 0
  HoldsDrained none = Unit
  HoldsDrained (some (b, s)) = I s

  drain_kept : (fuel i : ℕ) (s : Server) → I s → HoldsDrained (drain_input fuel i s)
  unfolding drain_input handle_frame
  drain_kept zero i s h = tt
  drain_kept (suc fuel) i s h =
      let inbuf = (s.clients i).inbuf in
      elim (Bool-cases (ltb (length inbuf) 5)) [
        | inl few ↦ rw few h
        | inr header ↦ elim (Option-cases (parse_header inbuf)) [
          | inl bad ↦ rw (header, bad) (error_kept k i "malformed frame" _ (k.counted _ s h))
          | inr (f, good) ↦ elim (Bool-cases (ltb (length inbuf) (5 + f.payload_len))) [
            | inl part ↦ rw (header, good, part) h
            | inr all ↦
                let t = handle_frame i f.type (take f.payload_len (drop 5 inbuf)) s in
                let kept : I t =
                  handle_msg_kept k (client_msg_type f.type) i (take f.payload_len (drop 5 inbuf)) s
                    h in
                elim (Bool-cases (not (t.clients i).is_open)) [
                  | inl gone ↦ rw (header, good, all, gone) kept
                  | inr here ↦
                      rw (header, good, all, here)
                        (drain_kept fuel i (consume i (5 + f.payload_len) t) (
                          any i _ t
                            (λ fits.
                              omega (arith, length-drop (5 + f.payload_len) (t.clients i).inbuf))
                            kept))
                ]
          ]
        ]
      ]

  after_drain_kept :
      (next : Server → Option Server) (o : Option (Bool × Server))
      → ((t : Server) → I t → HoldsAfter (next t))
      → HoldsDrained o
      → HoldsAfter (after_drain next o)
  after_drain_kept next none f h = tt
  after_drain_kept next (some (false, s)) f h = h
  after_drain_kept next (some (true, s)) f h = f s h

  unless_full_kept :
      (i : ℕ) (s : Server) (o : Option Server)
      → I s
      → HoldsAfter o
      → HoldsAfter (
          if nat_eq (length (s.clients i).inbuf) inbuf_cap then some (disconnect_client i s) else o)
  unless_full_kept i s o h rest =
      elim (Bool-cases (nat_eq (length (s.clients i).inbuf) inbuf_cap)) [
        | inl full ↦ rw full (reset_kept k i s h)
        | inr room ↦ rw room rest
      ]

  after_recv_kept :
      (next : Server → Option Server) (r : Received) (i : ℕ) (s : Server)
      → I s
      → ((t : Server) → I t → HoldsAfter (next t))
      → HoldsAfter (after_recv next r i s)
  after_recv_kept next (bytes new) i s h f = after_drain_kept next _ f (
      drain_kept (inbuf_cap + 1) i (fill i new s)
        (any i _ s (filled-length (s.clients i).inbuf new) h))
  after_recv_kept next peer_closed i s h f = reset_kept k i s h
  after_recv_kept next would_block i s h f = h
  after_recv_kept next interrupted i s h f = f s h
  after_recv_kept next failed i s h f = reset_kept k i s h

  read_kept :
      (fuel : ℕ) (results : ℕ → Received) (i : ℕ) (s : Server)
      → I s
      → HoldsAfter (read_from_client fuel results i s)
  unfolding read_from_client
  read_kept zero results i s h = tt
  read_kept (suc fuel) results i s h = unless_full_kept i s _ h (
      after_recv_kept (read_from_client fuel (λ n. results (suc n)) i) (results 0) i s h
        (λ t kept. read_kept fuel (λ n. results (suc n)) i t kept))

  or_same_kept : (s : Server) (o : Option Server) → I s → HoldsAfter o → I (or_same o s)
  or_same_kept s none h g = h
  or_same_kept s (some t) h g = g

  accepted_kept : (o : Option ℕ) (s : Server) → I s → I (accepted o s)
  accepted_kept none s h = h
  accepted_kept (some i) s h = k.opened i _ (k.counted _ s h)

  pub step_kept : (e : Event) (s : Server) → I s → I (step e s)
  unfolding step accept_client
  step_kept connected s h = accepted_kept (free_slot s 0 max_clients) s h
  step_kept (readable i rs) s h =
      if_kept k (ltb i max_clients && (s.clients i).is_open) _ s
        (or_same_kept s _ h (read_kept (suc (length rs)) (results_of rs) i s h)) h
  step_kept (written i n) s h =
      if_kept k (ltb i max_clients && (s.clients i).is_open) _ s (k.sent i n s h) h
  step_kept (lost i) s h = if_kept k (ltb i max_clients) _ s (reset_kept k i s h) h

  pub run_kept : (es : List Event) (s : Server) → I s → I (run es s)
  unfolding run
  run_kept [] s h = h
  run_kept (e ∷ es) s h = run_kept es (step e s) (step_kept e s h)
