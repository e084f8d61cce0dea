-- ===== src/Rm/Forward/Burst/Conserve.antt =====
-- No packet is lost or doubled on its way through the buffer.
use mathlib.Core.List.{append-nil, append_assoc}
use icnprototype.Prelude.{
  ℕ, suc, ◌+◌, ◌-◌, ◌<◌, ◌≤◌, ◌≡◌, refl, sym, ap, ◌∙◌, inl, inr, Bool-cases, ◌==◌, ◌&&◌, List, [],
  ◌∷◌, ◌++◌, some, length, length-set, set, take, drop, take_whole, take-append-drop,
  take-append_drop, take-set, length-drop, leb, arith,
}
use icnprototype.Rm.Forward.Burst.{
  max_pkt_burst, max_tx_burst, MbufTable, Burst, send_burst, send_single_packet, fills, after_fill,
  send_packetsx4,
}
use icnprototype.Rm.Forward.Burst.Copies.{copied_lem, copy_lem, copy_rest}

module _ {ℓ} {Packet : Type ℓ} where
  -- The packets that wait.
  abbrev pub waiting : MbufTable Packet → List Packet
  waiting table = take table.len table.m_table

  -- A table of 32 entries that is not full.
  pub record IsOpen (table : MbufTable Packet) : Type 0 where
    pub entries : length table.m_table ≡ max_pkt_burst
    pub room : table.len < max_pkt_burst

  -- After packets were added to a table, its packets and the added ones are those that were sent, those
  -- that were freed and those that wait, in this order.
  pub record Conserves (before : MbufTable Packet) (added : List Packet) (b : Burst Packet)
      : Type ℓ where
    pub open_after : IsOpen b.table
    pub packets : b.sent ++ b.freed ++ waiting b.table ≡ waiting before ++ added

  -- A burst of a full table.
  burst_all :
      (accepted : ℕ) (full : List Packet) (rest : List Packet)
      → length full ≡ max_pkt_burst
      → take accepted (take max_pkt_burst full) ++ drop accepted (take max_pkt_burst full) ++ rest
        ≡ full ++ rest
  burst_all accepted full rest h =
      ap (λ l. l ++ rest)
        (take-append-drop accepted (take max_pkt_burst full)
          ∙ ap (λ i. take i full) (sym h)
          ∙ take_whole full)

  -- Whatever number of packets the device accepts, `send_single_packet` keeps the table open, and every
  -- packet that waited and the added one are afterwards, in their order, sent, freed or waiting.
  pub send_single_packet-Conserves :
      (accepted : ℕ) (m : Packet) (table : MbufTable Packet)
      → IsOpen table
      → Conserves table (m ∷ []) (send_single_packet accepted m table)
  unfolding send_single_packet
  send_single_packet-Conserves accepted m table h =
      let stored : take (suc table.len) (set table.m_table table.len m)
          ≡ waiting table ++ (m ∷ []) =
        take-set table.m_table table.len m (omega (arith, h.room, h.entries)) in
      let next : table.len + 1 ≡ suc table.len = omega arith in
      let kept : length (set table.m_table table.len m) ≡ max_pkt_burst =
        length-set table.m_table table.len m ∙ h.entries in
      elim (Bool-cases (table.len + 1 == max_pkt_burst)) [
        | inl b ↦
            (let whole : suc table.len ≡ length (set table.m_table table.len m) =
                ground (arith, kept) in
              rw b (record {
                open_after = record { entries = kept; room = omega arith };
                packets =
                    burst_all accepted (set table.m_table table.len m) [] kept
                    ∙ append-nil (set table.m_table table.len m)
                    ∙ sym (take_whole (set table.m_table table.len m))
                    ∙ ap (λ i. take i (set table.m_table table.len m)) (sym whole)
                    ∙ stored;
              }))
        | inr b ↦ rw b (record {
          open_after = record { entries = kept; room = ground (arith, h.room) };
          packets = ap (λ i. take i (set table.m_table table.len m)) next ∙ stored;
        })
      ]

  -- What `n` packets more leave of a table.
  after_fill-Conserves :
      (accepted : ℕ) (m : List Packet) (num : ℕ) (table : MbufTable Packet) (n : ℕ)
      (t : List Packet)
      → table.len < max_pkt_burst
      → n ≤ num
      → num ≤ max_pkt_burst
      → num + 4 ≤ length m
      → 0 < n
      → n ≡ fills table.len num
      → length t ≡ max_pkt_burst
      → take (table.len + n) t ≡ waiting table ++ take n m
      → (b : Burst Packet) × (after_fill accepted m num table.len n (some t) ≡ some b)
        × Conserves table (take num m) b
  unfolding after_fill
  after_fill-Conserves accepted m num table n t h l k room pos e f g =
      elim (Bool-cases (table.len + n == max_pkt_burst)) [
        | inl b ↦
            (let (u, c, d, r) =
                copy_rest (num - n) t (drop n m) f (omega arith) (omega (arith, length-drop n m)) in
              let full : table.len + n ≡ length t = ground (arith, f) in
              let split : n + (num - n) ≡ num = omega arith in
              (
                send_burst accepted max_pkt_burst (record { len = max_pkt_burst; m_table = t })
                    (record { len = num - n; m_table = u }),
                rw b (rw c refl),
                record {
                  open_after = record { entries = d; room = omega arith };
                  packets =
                      burst_all accepted t (take (num - n) u) f
                      ∙ ap (λ l. t ++ l) r
                      ∙ ap (λ l. l ++ take (num - n) (drop n m))
                          (sym (take_whole t) ∙ ap (λ i. take i t) (sym full) ∙ g)
                      ∙ append_assoc (waiting table) (take n m) (take (num - n) (drop n m))
                      ∙ ap (λ l. waiting table ++ l)
                          (sym (take-append_drop n (num - n) m) ∙ ap (λ i. take i m) split);
                },
              ))
        | inr b ↦
            (let all : n ≡ num = ground arith in
              (
                record {
                  table = record { len = table.len + n; m_table = t };
                  sent = [];
                  freed = [];
                },
                rw b refl,
                record {
                  open_after = record { entries = f; room = ground arith };
                  packets = g ∙ ap (λ i. waiting table ++ take i m) all;
                },
              ))
      ]

  -- `send_packetsx4` with at least one packet and at most 32, of an array that has four entries more:
  -- no access is out of bounds, the table is open afterwards, and every packet that waited and every added
  -- one is afterwards, in their order, sent, freed or waiting, whatever number the device accepts.
  pub send_packetsx4-Conserves :
      (accepted : ℕ) (m : List Packet) (num : ℕ) (table : MbufTable Packet)
      → IsOpen table
      → 0 < num
      → num ≤ max_pkt_burst
      → num + 4 ≤ length m
      → (b : Burst Packet) × (send_packetsx4 accepted m num table ≡ some b)
        × Conserves table (take num m) b
  unfolding send_packetsx4
  send_packetsx4-Conserves accepted m num table h pos k room =
      elim (Bool-cases (leb max_tx_burst num && table.len == 0)) [
        | inl b ↦
            (let none_waits : table.len ≡ 0 = ground (arith, b) in
              let nothing : waiting table ≡ [] = ap (λ i. take i table.m_table) none_waits in
              (
                record {
                  table = table;
                  sent = take accepted (take num m);
                  freed = drop accepted (take num m);
                },
                rw b refl,
                record {
                  open_after = h;
                  packets =
                      ap (λ l. take accepted (take num m) ++ drop accepted (take num m) ++ l)
                        nothing
                      ∙ append-nil (take accepted (take num m) ++ drop accepted (take num m))
                      ∙ take-append-drop accepted (take num m)
                      ∙ ap (λ l. l ++ take num m) (sym nothing);
                },
              ))
        | inr b ↦
            (let n = fills table.len num in
              let some_fit : 0 < n = ground (arith, h.room) in
              let at_most : n ≤ num = ground (arith, h.room) in
              let (t, c, d, g) =
                copy_lem n table.len table.m_table m (ground (arith, h.room, h.entries))
                  (omega arith) in
              let (u, e, f) =
                after_fill-Conserves accepted m num table n t h.room at_most k room some_fit refl
                  (d ∙ h.entries) g in
              (u, rw b (rw (copied_lem n some_fit) (rw c e)), f))
      ]
