-- ===== src/Rm/Forward/Burst.antt =====
-- The buffer of packets that wait to be sent on a port: `send_burst`, `send_single_packet` and
-- `send_packetsx4` of RM/main.c. Packets are of any type.
pub mod Copies
pub mod Conserve
pub mod Drain
pub mod Order
use icnprototype.Prelude.{
  ℕ, zero, suc, ◌+◌, ◌-◌, ◌%◌, ◌==◌, ◌&&◌, List, [], ◌∷◌, Option, none, some, length, set, take,
  drop, ltb, leb, if◌then◌else◌,
}

abbrev pub max_pkt_burst : ℕ
max_pkt_burst = 32

abbrev pub max_tx_burst : ℕ
max_tx_burst = 16

-- `struct mbuf_table`; `m_table` has `max_pkt_burst` entries, of which the first `len` are in use.
pub record MbufTable {ℓ} (Packet : Type ℓ) : Type ℓ where
  pub len : ℕ
  pub m_table : List Packet

-- A table, with the packets that went to the device and those that were freed.
pub record Burst {ℓ} (Packet : Type ℓ) : Type ℓ where
  pub table : MbufTable Packet
  pub sent : List Packet
  pub freed : List Packet

-- How many entries the loop copies that a `switch` on `n % FWDSTEP` enters: the first pass ends at
-- the end of the loop's body, and a pass of four follows while `j < n`.
abbrev pub first_pass : ℕ → ℕ
first_pass n = if n % 4 == 0 then 4 else n % 4

pub passes : ℕ → ℕ → ℕ → ℕ
passes zero j n = j
passes (suc fuel) j n = let more = passes fuel (j + 4) n in if ltb j n then more else j

pub copied : ℕ → ℕ
unfolding passes
copied n = passes n (first_pass n) n

-- How many of `num` packets still go into the table.
abbrev pub fills : ℕ → ℕ → ℕ
fills len num = if ltb max_pkt_burst (len + num) then max_pkt_burst - len else num

module _ {ℓ} {Packet : Type ℓ} where
  -- `rte_eth_tx_burst` takes the first `accepted` of `n` packets; the others are freed, in a loop from
  -- `accepted` to `n`.
  abbrev pub send_burst : ℕ → ℕ → MbufTable Packet → MbufTable Packet → Burst Packet
  send_burst accepted n from left = record {
    table = left;
    sent = take accepted (take n from.m_table);
    freed = drop accepted (take n from.m_table);
  }

  pub send_single_packet : ℕ → Packet → MbufTable Packet → Burst Packet
  send_single_packet accepted m table =
      let stored = record table { m_table = set table.m_table table.len m } in
      if table.len + 1 == max_pkt_burst
      then send_burst accepted max_pkt_burst stored (record stored { len = 0 })
      else record { table = record stored { len = table.len + 1 }; sent = []; freed = [] }

  -- `none` for an access outside of one of the arrays.
  pub copy : List Packet → ℕ → List Packet → ℕ → Option (List Packet)
  copy m_table at m zero = some m_table
  copy m_table at [] (suc k) = none
  copy m_table at (x ∷ m) (suc k) =
      let rest = copy (set m_table at x) (at + 1) m k in
      if ltb at (length m_table) then rest else none

  -- After the burst, the rest of the packets is copied into the table.
  abbrev pub with_rest : ℕ → ℕ → List Packet → Option (List Packet) → Option (Burst Packet)
  with_rest accepted rest full none = none
  with_rest accepted rest full (some m_table) = some (
      send_burst accepted max_pkt_burst (record { len = max_pkt_burst; m_table = full })
        (record { len = rest; m_table = m_table }))

  abbrev pub after_fill : ℕ → List Packet → ℕ → ℕ → ℕ → Option (List Packet) → Option (Burst Packet)
  unfolding copied copy
  after_fill accepted m num len n none = none
  after_fill accepted m num len n (some m_table) =
      if len + n == max_pkt_burst
      then with_rest accepted (num - n) m_table (copy m_table 0 (drop n m) (copied (num - n)))
      else some
          (record { table = record { len = len + n; m_table = m_table }; sent = []; freed = [] })

  -- `m` is the array from the first packet on, of which `num` are to be sent.
  pub send_packetsx4 : ℕ → List Packet → ℕ → MbufTable Packet → Option (Burst Packet)
  unfolding copied copy
  send_packetsx4 accepted m num table =
      if leb max_tx_burst num && table.len == 0
      then some (record {
        table = table;
        sent = take accepted (take num m);
        freed = drop accepted (take num m);
      })
      else (let n = fills table.len num in
          after_fill accepted m num table.len n (copy table.m_table table.len m (copied n)))
