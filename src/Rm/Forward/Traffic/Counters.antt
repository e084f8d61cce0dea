-- ===== src/Rm/Forward/Traffic/Counters.antt =====
-- What a message of a border router changes.
use mathlib.Core.List.{append-nil}
use icnprototype.Prelude.{
  ℕ, ◌≡◌, ◌⊎◌, inl, inr, refl, sym, ap, ◌∙◌, ◌==◌, ==_iff, ◌&&◌, Bool, true, false, Bool-cases,
  List, [], ◌∷◌, length, take, take_whole, set, get_or, if◌then◌else◌, if-keeps, ◌<◌, arith,
}
use icnprototype.Prelude.Int.{ℤ}
use icnprototype.Rm.Nid.{compare_sid_nid}
use icnprototype.Rm.Nid.Order.{compare_sid_nid_iff}
use icnprototype.Rm.Select.{Ports}
use icnprototype.Rm.Forward.Burst.{MbufTable, Burst, send_single_packet}
use icnprototype.Rm.Forward.Burst.Conserve.{IsOpen, Conserves, send_single_packet-Conserves}
use icnprototype.Rm.Forward.Traffic.{
  TrapGetHeader, TrapDataHeader, trap_hello_nid, trap_hello_sid, trap_hello_sid2, is_router,
  get_trap_message, data_trap_message,
}

-- The counter of a border router.
abbrev pub counter_of : ℕ → Ports → ℤ
counter_of digit ports =
    if digit == b'3'
    then ports.pc3_port
    else if digit == b'4'
    then ports.pc4_port
    else ports.pc5_port

same_bytes :
    (xs ys : List ℕ)
    → length xs ≡ length ys
    → (compare_sid_nid xs ys (length xs) == 1) ≡ true
    → xs ≡ ys
same_bytes xs ys h e =
    let prefix =
      (compare_sid_nid_iff xs ys (length xs) (omega arith) (omega (arith, h))).0
        ((==_iff (compare_sid_nid xs ys (length xs)) 1).0 e) in
    sym (take_whole xs) ∙ prefix ∙ ap (λ n. take n ys) h ∙ take_whole ys

-- The digit of a border router.
abbrev pub IsRouter : ℕ → Type 0
IsRouter digit = (digit ≡ b'3') ⊎ ((digit ≡ b'4') ⊎ (digit ≡ b'5'))

-- A data message from a border router, known by its `nid` and its `sid`, is freed, sets the router's counter
-- to its `port1` and leaves the counter of each other router.
pub data_trap_message_lem :
    (ports : Ports) (m : TrapDataHeader) (digit other : ℕ)
    → IsRouter digit
    → IsRouter other
    → m.nid ≡ trap_hello_nid digit
    → m.sid ≡ trap_hello_sid2
    → ((data_trap_message ports m).1 ≡ true)
      × (counter_of other (data_trap_message ports m).0
          ≡ (if other == digit then m.port1 else counter_of other ports))
unfolding data_trap_message compare_sid_nid
data_trap_message_lem ports m digit other (inl d) (inl o) n s =
    rw (data_trap_message, n, s, d, o) (refl, refl)
data_trap_message_lem ports m digit other (inl d) (inr (inl o)) n s =
    rw (data_trap_message, n, s, d, o) (refl, refl)
data_trap_message_lem ports m digit other (inl d) (inr (inr o)) n s =
    rw (data_trap_message, n, s, d, o) (refl, refl)
data_trap_message_lem ports m digit other (inr (inl d)) (inl o) n s =
    rw (data_trap_message, n, s, d, o) (refl, refl)
data_trap_message_lem ports m digit other (inr (inl d)) (inr (inl o)) n s =
    rw (data_trap_message, n, s, d, o) (refl, refl)
data_trap_message_lem ports m digit other (inr (inl d)) (inr (inr o)) n s =
    rw (data_trap_message, n, s, d, o) (refl, refl)
data_trap_message_lem ports m digit other (inr (inr d)) (inl o) n s =
    rw (data_trap_message, n, s, d, o) (refl, refl)
data_trap_message_lem ports m digit other (inr (inr d)) (inr (inl o)) n s =
    rw (data_trap_message, n, s, d, o) (refl, refl)
data_trap_message_lem ports m digit other (inr (inr d)) (inr (inr o)) n s =
    rw (data_trap_message, n, s, d, o) (refl, refl)

and_false : (b : Bool) → (b && false) ≡ false
and_false true = refl
and_false false = refl

-- A message of 16 and 20 bytes that `data_trap_message` frees has the `nid` of a border router and the `sid`
-- of a data message; any other is kept, with all counters.
pub data_trap_message_sound :
    (ports : Ports) (m : TrapDataHeader)
    → length m.nid ≡ 16
    → length m.sid ≡ 20
    → ((data_trap_message ports m ≡ (ports, false))
        ⊎ ((m.sid ≡ trap_hello_sid2)
            × ((digit : ℕ) × IsRouter digit × (m.nid ≡ trap_hello_nid digit))))
unfolding data_trap_message
data_trap_message_sound ports m n s =
    elim (Bool-cases (compare_sid_nid trap_hello_sid2 m.sid 20 == 1)) [
      | inr b ↦ inl (
          rw
            (
              data_trap_message,
              b,
              and_false (is_router b'3' m.nid),
              and_false (is_router b'4' m.nid),
              and_false (is_router b'5' m.nid),
            )
            refl)
      | inl b ↦
          (let e : m.sid ≡ trap_hello_sid2 = sym (same_bytes trap_hello_sid2 m.sid (sym s) b) in
            elim (Bool-cases (is_router b'3' m.nid)) [
              | inl c ↦
                  inr (e, (b'3', inl refl, sym (same_bytes (trap_hello_nid b'3') m.nid (sym n) c)))
              | inr c ↦ elim (Bool-cases (is_router b'4' m.nid)) [
                | inl d ↦ inr (
                  e,
                  (b'4', inr (inl refl), sym (same_bytes (trap_hello_nid b'4') m.nid (sym n) d)),
                )
                | inr d ↦ elim (Bool-cases (is_router b'5' m.nid)) [
                  | inl f ↦ inr (
                    e,
                    (b'5', inr (inr refl), sym (same_bytes (trap_hello_nid b'5') m.nid (sym n) f)),
                  )
                  | inr f ↦ inl (rw (data_trap_message, c, d, f) refl)
                ]
              ]
            ])
    ]

-- The answer of a port.
abbrev pub answer_of : List (List ℕ) → TrapGetHeader → ℕ → TrapGetHeader
answer_of ports_eth_addr m i = record m {
  sid = set m.sid 19 3;
  ether_shost = get_or ports_eth_addr i [];
}

-- What a message adds to the table: nothing, or the answer of one of the three ports.
abbrev pub IsAnswer : List (List ℕ) → TrapGetHeader → List TrapGetHeader → Type 0
IsAnswer ports_eth_addr m added =
    (added ≡ []) ⊎ ((i : ℕ) × (i < 3) × (added ≡ answer_of ports_eth_addr m i ∷ []))

-- For a table with room, `get_trap_message` adds nothing to it, or the answer, with the address of one of the
-- first three ports as its source; the table has room afterwards, and each packet that waited and each
-- added one is sent, freed or waiting, in their order.
pub get_trap_message-Conserves :
    (accepted : ℕ) (ports_eth_addr : List (List ℕ)) (m : TrapGetHeader)
    (tx_mbufs : MbufTable TrapGetHeader)
    → IsOpen tx_mbufs
    → (added : List TrapGetHeader) × IsAnswer ports_eth_addr m added
      × Conserves tx_mbufs added (get_trap_message accepted ports_eth_addr m tx_mbufs)
unfolding get_trap_message
get_trap_message-Conserves accepted ports_eth_addr m tx_mbufs h =
    let Result = λ (b : Burst TrapGetHeader).
      (added : List TrapGetHeader) × IsAnswer ports_eth_addr m added × Conserves tx_mbufs added b in
    let idle : Result (record { table = tx_mbufs; sent = []; freed = [] }) =
      ([], inl refl, record { open_after = h; packets = sym (append-nil _) }) in
    let sent : (i : ℕ)
        → i < 3
        → Result (send_single_packet accepted (answer_of ports_eth_addr m i) tx_mbufs) =
      λ i l. (
        answer_of ports_eth_addr m i ∷ [],
        inr (i, l, refl),
        send_single_packet-Conserves accepted (answer_of ports_eth_addr m i) tx_mbufs h,
      ) in
    if-keeps Result (m.version_type == 160 && compare_sid_nid trap_hello_sid m.sid 20 == 1)
      (if-keeps Result (is_router b'3' m.nid) (sent 0 (omega arith)) (
        if-keeps Result (is_router b'4' m.nid) (sent 1 (omega arith))
          (if-keeps Result (is_router b'5' m.nid) (sent 2 (omega arith)) idle)))
      idle
