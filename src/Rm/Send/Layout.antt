-- ===== src/Rm/Send/Layout.antt =====
-- What a receiver finds in the packets of a negotiation.
use Prim.Native.Nat.{bit_and}
use icnprototype.Prelude.{
  ℕ, zero, suc, ◌<◌, ◌≤◌, ◌^◌, ◌%◌, ◌+◌, ◌*◌, ◌↔◌, true, ◌≡◌, refl, sym, ◌∙◌, List, [], ◌∷◌, ◌++◌,
  arith, take, length, ap,
}
use icnprototype.Rm.Nid.{Nid}
use icnprototype.Rm.ByteOrder.{ByteOrder}
use icnprototype.Rm.Packet.{
  Mbuf, option_kind_mask, add_pid_and_ip, pkt_colorctl_setup, control_packet, control_packet_pid,
}
use icnprototype.Rm.Packet.Shape.{body-add_pid_and_ip, kind-option_of}
use icnprototype.Rm.Send.{data_room, fits_room, pid_message, send_pid_a, send_pid_b, send_ack}

-- A negotiation packet of the given kind from a domain, with its words, a path and an address.
pub record IsMessage (kind : ℕ) (host : Nid) (words : List ℕ) (pid ip : ℕ) (m : Mbuf) : Type 0 where
  pub version : m.ctl.ver_type ≡ control_packet
  pub control : m.ctl.controltype ≡ control_packet_pid
  pub kind_bits : bit_and m.ctl.option option_kind_mask ≡ kind
  pub source : m.ctl.eid ≡ host
  pub words_eq : m.body ≡ words ++ (pid ∷ [])
  pub address : m.ip.dst_addr ≡ ip

take_all : (xs : List ℕ) (n : ℕ) → length xs ≡ n → take n xs ≡ xs
take_all [] zero h = refl
take_all [] (suc n) h = refl
take_all (x ∷ xs) zero h = absurd (omega arith)
take_all (x ∷ xs) (suc n) h = ap (λ (ys : List ℕ). x ∷ ys) (take_all xs n (omega arith))

-- The identifiers that fit: 14 + 20 + 140 bytes of headers, the timer and the path.
abbrev pub most_pids : ℕ
most_pids = 466

pub fits_room_iff : (n : ℕ) → n < 2 ^ 16 → (fits_room n ≡ true) ↔ (n ≤ most_pids)
unfolding fits_room
fits_room_iff n h = ground arith

module _ (order : ByteOrder) (host : Nid) (raw : ℕ) where
  -- What both kinds of a message with identifiers hold.
  pid_message_lem :
      (kind : ℕ) (pids : List ℕ) (timer pid ip : ℕ)
      → length pids ≤ most_pids
      → let m = pid_message order host raw kind pids timer (length pids) in
        let m' = add_pid_and_ip order host m pid ip in
        (m'.body ≡ (timer ∷ pids) ++ (pid ∷ []))
        × (m'.ctl.option ≡ m.ctl.option)
        × (m'.ip.dst_addr ≡ ip)
        × (m'.data_len ≡ 182 + 4 * length pids)
  unfolding pid_message pkt_colorctl_setup
  pid_message_lem kind pids timer pid ip h =
      let m = pid_message order host raw kind pids timer (length pids) in
      let uncut : length pids % 2 ^ 16 ≡ length pids = omega arith in
      let all = take_all pids (length pids % 2 ^ 16) (sym uncut) in
      let b = body-add_pid_and_ip order host m pid ip (rw all (omega arith)) (omega arith) in
      let same : length (take (length pids % 2 ^ 16) pids) ≡ length pids = ap length all in
      let size : 14 + 20 + 140 + 4 * suc (length (take (length pids % 2 ^ 16) pids)) + 4
          ≡ 182 + 4 * length pids =
        omega (arith, same) in
      (b.0 ∙ ap (λ (xs : List ℕ). timer ∷ (xs ++ (pid ∷ []))) all, b.2, b.3, b.1 ∙ size)

  ctl-add_pid_and_ip :
      (m : Mbuf) (pid ip : ℕ)
      → let m' = add_pid_and_ip order host m pid ip in
        (m'.ctl.ver_type ≡ m.ctl.ver_type)
        × (m'.ctl.controltype ≡ m.ctl.controltype)
        × (m'.ctl.eid ≡ m.ctl.eid)
  unfolding add_pid_and_ip
  ctl-add_pid_and_ip m pid ip = (refl, refl, refl)

  module _ (port_id queue_id : ℕ) where
    -- A `pid_a` packet of at most 466 identifiers fits the 2048 bytes of its buffer, and holds the timer and then
    -- the identifiers, all of them and in order, and last the path that it is to take; the mask reads its kind
    -- back, and its length is that of its contents.
    pub send_pid_a_lem :
        (pids : List ℕ) (timer pid ip : ℕ)
        → length pids ≤ most_pids
        → let m =
            (send_pid_a order host raw port_id queue_id pids timer (length pids) pid ip).mbuf in
          IsMessage 0x10 host (timer ∷ pids) pid ip m
          × (m.data_len ≡ 182 + 4 * length pids)
          × (m.data_len ≤ data_room)
    unfolding send_pid_a pid_message pkt_colorctl_setup add_pid_and_ip
    send_pid_a_lem pids timer pid ip h =
        let m = pid_message_lem 1 pids timer pid ip h in
        (
          record {
            version = refl;
            control = refl;
            kind_bits = kind-option_of.1;
            source = refl;
            words_eq = m.0;
            address = refl;
          },
          m.3,
          omega (arith, h, m.3),
        )

    -- The same of a `pid_b` packet.
    pub send_pid_b_lem :
        (pids : List ℕ) (timer pid ip : ℕ)
        → length pids ≤ most_pids
        → IsMessage 0x20 host
            (timer ∷ pids)
            pid
            ip
            (send_pid_b order host raw port_id queue_id pids timer (length pids) pid ip).mbuf
    unfolding send_pid_b pid_message pkt_colorctl_setup add_pid_and_ip
    send_pid_b_lem pids timer pid ip h =
        let m = pid_message_lem 2 pids timer pid ip h in
        record {
          version = refl;
          control = refl;
          kind_bits = kind-option_of.2;
          source = refl;
          words_eq = m.0;
          address = refl;
        }

    -- An acknowledgement holds the path that it is to take and no other word.
    pub send_ack_lem :
        (pid ip : ℕ)
        → IsMessage 0x30 host [] pid ip (send_ack order host raw port_id queue_id pid ip).mbuf
    unfolding send_ack pkt_colorctl_setup add_pid_and_ip
    send_ack_lem pid ip = record {
      version = refl;
      control = refl;
      kind_bits = kind-option_of.3;
      source = refl;
      words_eq = refl;
      address = refl;
    }
