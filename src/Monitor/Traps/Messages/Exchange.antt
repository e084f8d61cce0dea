-- ===== src/Monitor/Traps/Messages/Exchange.antt =====
-- What RM learns from the answer of a monitor to its trap message, and what the trap files keep.
use icnprototype.Prelude.{
  ℕ, ◌-◌, ◌≡◌, refl, ap, ◌∙◌, inl, inr, true, ◌==◌, List, [], ◌∷◌, take, some, if◌then◌else◌, arith,
}
use icnprototype.Prelude.Int.{ℤ, pos}
use icnprototype.Rm.ByteOrder.{ByteOrder}
use icnprototype.Rm.Nid.{compare_sid_nid}
use icnprototype.Rm.Select.{Ports}
use icnprototype.Rm.Forward.Burst.{MbufTable, send_single_packet}
use icnprototype.Rm.Forward.Traffic.{
  TrapGetHeader, TrapDataHeader, trap_hello_nid, get_trap_message, data_trap_message,
}
use icnprototype.Rm.Forward.Traffic.Counters.{
  IsRouter, answer_of, counter_of, data_trap_message_lem,
}
use icnprototype.Monitor.Timer.{same_string}
use icnprototype.Monitor.Traps.Messages.{
  TrapMessage, TrapHelloPkg, TrapDataPkg, text, header, Files, send_trap_hello, send_trap_data,
  write_trap_file, read_trap_file, thread_parse_trap,
}

-- The fields that RM reads, which stand at the same offsets in the structures of both programs.
abbrev pub as_get : TrapHelloPkg → TrapGetHeader
as_get p = record {
  ether_shost = p.trap_head.ether_shost;
  version_type = p.trap_head.version_type;
  sid = p.trap_head.sid;
  nid = p.trap_head.nid;
}

abbrev pub as_data : TrapDataPkg → TrapDataHeader
as_data p = record {
  version_type = p.trap_data_head.version_type;
  sid = p.trap_data_head.sid;
  nid = p.trap_data_head.nid;
  port1 = p.trap_message.port1_data;
}

-- The packet of a monitor with the changes of RM.
abbrev pub answered : TrapHelloPkg → TrapGetHeader → TrapHelloPkg
answered p g = record p {
  trap_head = record p.trap_head { ether_shost = g.ether_shost; sid = g.sid; nid = g.nid };
}

-- RM answers the message of a border router.
hello_answered :
    (order : ByteOrder) (mac : List ℕ) (m : TrapMessage) (accepted : ℕ)
    (ports_eth_addr : List (List ℕ)) (tx_mbufs : MbufTable TrapGetHeader) (digit : ℕ)
    → IsRouter digit
    → m.trap_sbd.trap_nid ≡ trap_hello_nid digit
    → get_trap_message accepted ports_eth_addr (as_get (send_trap_hello order mac m)) tx_mbufs
      ≡ send_single_packet accepted
          (answer_of ports_eth_addr (as_get (send_trap_hello order mac m)) (digit - b'3'))
          tx_mbufs
unfolding get_trap_message send_trap_hello compare_sid_nid
hello_answered order mac m accepted ports_eth_addr tx_mbufs digit (inl d) n = rw (n, d) refl
hello_answered order mac m accepted ports_eth_addr tx_mbufs digit (inr (inl d)) n = rw (n, d) refl
hello_answered order mac m accepted ports_eth_addr tx_mbufs digit (inr (inr d)) n = rw (n, d) refl

name_same :
    (digit : ℕ)
    → IsRouter digit
    → same_string (text (trap_hello_nid digit)) (b'p' ∷ b'c' ∷ b'-' ∷ digit ∷ []) ≡ true
name_same digit (inl d) = rw d refl
name_same digit (inr (inl d)) = rw d refl
name_same digit (inr (inr d)) = rw d refl

-- The monitor of the border router pc-3, pc-4 or pc-5 sends a trap message, RM answers it, and the monitor
-- answers with its traffic: RM hands one packet to its buffer, the monitor sends one packet, and RM takes
-- from it the traffic for the counter of this router, and frees it.
pub trap_exchange :
    (order : ByteOrder) (mac : List ℕ) (traffic : ℤ) (files : Files) (m : TrapMessage)
    (accepted : ℕ) (ports_eth_addr : List (List ℕ)) (tx_mbufs : MbufTable TrapGetHeader)
    (ports : Ports) (digit : ℕ)
    → IsRouter digit
    → m.trap_sbd.trap_nid ≡ trap_hello_nid digit
    → let hello = send_trap_hello order mac m in
      let answer = answer_of ports_eth_addr (as_get hello) (digit - b'3') in
      (get_trap_message accepted ports_eth_addr (as_get hello) tx_mbufs
        ≡ send_single_packet accepted answer tx_mbufs)
      × ((p : TrapDataPkg) × (thread_parse_trap order mac
              (some traffic)
              (b'p' ∷ b'c' ∷ b'-' ∷ digit ∷ [])
              files
              (answered hello answer)
            ≡ some p)
          × ((data_trap_message ports (as_data p)).1 ≡ true)
          × (counter_of digit (data_trap_message ports (as_data p)).0 ≡ traffic))
unfolding thread_parse_trap send_trap_data send_trap_hello
trap_exchange order mac traffic files m accepted ports_eth_addr tx_mbufs ports digit d n =
    let asked : TrapMessage =
      read_trap_file files
        (record { trap_sbd = m.trap_sbd; trap_type = 0; port1_data = pos 0; port2_data = pos 0 }) in
    let p : TrapDataPkg = record {
      trap_data_head = header order mac 161 3 (take 16 (take 16 m.trap_sbd.trap_nid));
      trap_message = record {
        trap_sbd = asked.trap_sbd;
        trap_type = asked.trap_type;
        port1_data = traffic;
        port2_data = pos 3;
      };
    } in
    let named : same_string (text m.trap_sbd.trap_nid) (b'p' ∷ b'c' ∷ b'-' ∷ digit ∷ []) ≡ true =
      ap (λ l. same_string (text l) (b'p' ∷ b'c' ∷ b'-' ∷ digit ∷ [])) n ∙ name_same digit d in
    let nid : take 16 (take 16 (take 16 m.trap_sbd.trap_nid)) ≡ trap_hello_nid digit =
      ap (λ l. take 16 (take 16 (take 16 l))) n in
    let self : (digit == digit) ≡ true = ground arith in
    let (freed, counter) = data_trap_message_lem ports (as_data p) digit digit d d nid refl in
    (
      hello_answered order mac m accepted ports_eth_addr tx_mbufs digit d n,
      (
        p,
        rw (thread_parse_trap, named) refl,
        freed,
        counter ∙ ap (λ b. if b then traffic else counter_of digit ports) self,
      ),
    )

-- What is read after a write for the same port are the names and the type that were written.
pub read_trap_file-write :
    (files : Files) (m asked : TrapMessage)
    → same_string (text m.trap_sbd.port_ip) (text asked.trap_sbd.port_ip) ≡ true
    → read_trap_file (write_trap_file true m files) asked
      ≡ record asked { trap_sbd = m.trap_sbd; trap_type = m.trap_type }
unfolding read_trap_file write_trap_file
read_trap_file-write files m asked h = rw h refl
