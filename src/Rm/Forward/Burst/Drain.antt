-- ===== src/Rm/Forward/Burst/Drain.antt =====
-- The life of the buffer of a port in `main_loop` of RM/main.c: packets are enqueued, and every `drain_tsc`
-- ticks the buffer is drained.
use icnprototype.Prelude.{
  ℕ, ◌+◌, ◌-◌, ◌%◌, ◌^◌, ◌==◌, Bool, List, [], ◌∷◌, ◌++◌, ltb, if◌then◌else◌,
}
use icnprototype.Rm.Forward.Burst.{MbufTable, Burst, send_burst, send_single_packet}

-- `diff_tsc > drain_tsc`, of two counters of 64 bits.
abbrev pub is_due : ℕ → ℕ → ℕ → Bool
is_due drain_tsc prev_tsc cur_tsc = ltb drain_tsc ((cur_tsc + (2 ^ 64 - prev_tsc)) % 2 ^ 64)

-- What happens to the buffer: a packet for the port, with the number of packets that the device accepts if
-- the buffer is full, or a round of the loop at a time.
pub data Event {ℓ} (Packet : Type ℓ) : Type ℓ where
  enqueue : ℕ → Packet → Event Packet
  round : ℕ → ℕ → Event Packet

-- The buffer, with `prev_tsc`, and the packets that left it, sent or freed, in the order in which they left.
pub record Line {ℓ} (Packet : Type ℓ) : Type ℓ where
  pub table : MbufTable Packet
  pub prev_tsc : ℕ
  pub left : List Packet

module _ {ℓ} {Packet : Type ℓ} where
  -- One port of the loop that drains.
  unfoldable pub drain : ℕ → MbufTable Packet → Burst Packet
  drain accepted table =
      if table.len == 0
      then record { table = table; sent = []; freed = [] }
      else send_burst accepted table.len table (record table { len = 0 })

  abbrev pub leave : Line Packet → ℕ → Burst Packet → Line Packet
  leave line prev_tsc b = record {
    table = b.table;
    prev_tsc = prev_tsc;
    left = line.left ++ (b.sent ++ b.freed);
  }

  unfoldable pub happen : ℕ → Line Packet → Event Packet → Line Packet
  unfolding drain
  happen drain_tsc line (enqueue accepted m) =
      leave line line.prev_tsc (send_single_packet accepted m line.table)
  happen drain_tsc line (round accepted cur_tsc) =
      if is_due drain_tsc line.prev_tsc cur_tsc
      then leave line cur_tsc (drain accepted line.table)
      else line

  unfoldable pub live : ℕ → Line Packet → List (Event Packet) → Line Packet
  unfolding happen
  live drain_tsc line [] = line
  live drain_tsc line (event ∷ events) = live drain_tsc (happen drain_tsc line event) events
