-- ===== src/Rm/Forward/Burst/Order.antt =====
-- Packets leave the buffer in the order in which they came.
use mathlib.Core.List.{append-nil, append_assoc}
use icnprototype.Prelude.{
  ℕ, ◌≡◌, sym, ap, ◌∙◌, inl, inr, Bool-cases, if-keeps, ◌==◌, List, [], ◌∷◌, ◌++◌, take-append-drop,
  arith,
}
use icnprototype.Rm.Forward.Burst.{MbufTable, Burst, send_single_packet}
use icnprototype.Rm.Forward.Burst.Conserve.{
  IsOpen, waiting, Conserves, send_single_packet-Conserves,
}
use icnprototype.Rm.Forward.Burst.Drain.{
  is_due, Event, enqueue, round, Line, drain, leave, happen, live,
}

module _ {ℓ} {Packet : Type ℓ} where
  -- The packets of the events.
  unfoldable pub arrivals : List (Event Packet) → List Packet
  arrivals [] = []
  arrivals (enqueue accepted m ∷ events) = m ∷ arrivals events
  arrivals (round accepted cur_tsc ∷ events) = arrivals events

  -- A drain empties the buffer.
  pub drain-Conserves :
      (accepted : ℕ) (table : MbufTable Packet)
      → IsOpen table
      → Conserves table [] (drain accepted table)
  unfolding drain
  drain-Conserves accepted table h = elim (Bool-cases (table.len == 0)) [
    | inl b ↦ rw b (record { open_after = h; packets = sym (append-nil (waiting table)) })
    | inr b ↦ rw b (record {
      open_after = record { entries = h.entries; room = omega arith };
      packets =
          append-nil _
          ∙ take-append-drop accepted (waiting table)
          ∙ sym (append-nil (waiting table));
    })
  ]

  -- The packets that left before and the buffer, with those added since.
  record Follows (before : Line Packet) (added : List Packet) (after : Line Packet) : Type ℓ where
    room_left : IsOpen after.table
    in_order : after.left ++ waiting after.table ≡ before.left ++ waiting before.table ++ added

  leave-Follows :
      (line : Line Packet) (prev_tsc : ℕ) (added : List Packet) (b : Burst Packet)
      → Conserves line.table added b
      → Follows line added (leave line prev_tsc b)
  leave-Follows line prev_tsc added b c = record {
    room_left = c.open_after;
    in_order =
        append_assoc line.left (b.sent ++ b.freed) (waiting b.table)
        ∙ ap (λ l. line.left ++ l) c.packets
        ∙ sym (append_assoc line.left (waiting line.table) added);
  }

  Follows-trans :
      {line mid after : Line Packet} {a b : List Packet}
      → Follows line a mid
      → Follows mid b after
      → Follows line (a ++ b) after
  Follows-trans {line} {a} {b} f g = record {
    room_left = g.room_left;
    in_order =
        g.in_order
        ∙ ap (λ l. l ++ b) f.in_order
        ∙ append_assoc (line.left ++ waiting line.table) a b;
  }

  live-Follows :
      (drain_tsc : ℕ) (events : List (Event Packet)) (line : Line Packet)
      → IsOpen line.table
      → Follows line (arrivals events) (live drain_tsc line events)
  unfolding live happen arrivals
  live-Follows drain_tsc [] line h = record { room_left = h; in_order = sym (append-nil _) }
  live-Follows drain_tsc (enqueue accepted m ∷ events) line h =
      let sent : Follows line (m ∷ [])
          (leave line line.prev_tsc (send_single_packet accepted m line.table)) =
        leave-Follows line line.prev_tsc (m ∷ []) (send_single_packet accepted m line.table)
          (send_single_packet-Conserves accepted m line.table h) in
      Follows-trans sent (live-Follows drain_tsc events _ sent.room_left)
  live-Follows drain_tsc (round accepted cur_tsc ∷ events) line h =
      let drained : Follows line [] (leave line cur_tsc (drain accepted line.table)) =
        leave-Follows line cur_tsc [] (drain accepted line.table)
          (drain-Conserves accepted line.table h) in
      if-keeps (λ (mid : Line Packet). Follows line (arrivals events) (live drain_tsc mid events))
        (is_due drain_tsc line.prev_tsc cur_tsc)
        (Follows-trans drained (live-Follows drain_tsc events _ drained.room_left))
        (live-Follows drain_tsc events line h)

  -- From an open buffer that nothing has left, whatever packets come, at whatever times the loop runs and
  -- whatever numbers of packets the device accepts: the packets that left, followed by those that wait, are the
  -- packets that waited at first, followed by those that came, in their order.
  pub live_order :
      (drain_tsc : ℕ) (events : List (Event Packet)) (table : MbufTable Packet) (prev_tsc : ℕ)
      → IsOpen table
      → let after =
          live drain_tsc (record { table = table; prev_tsc = prev_tsc; left = [] }) events in
        after.left ++ waiting after.table ≡ waiting table ++ arrivals events
  live_order drain_tsc events table prev_tsc h =
      (live-Follows drain_tsc events (record { table = table; prev_tsc = prev_tsc; left = [] })
        h).in_order
