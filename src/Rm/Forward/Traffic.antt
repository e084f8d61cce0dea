-- ===== src/Rm/Forward/Traffic.antt =====
-- The traffic counters of the border routers PC-3, PC-4 and PC-5: `get_trap_message` and
-- `data_trap_message` of RM/main.c, with the structures of RM/trap.h.
pub mod Counters
use icnprototype.Prelude.{
  ℕ, ◌==◌, ◌&&◌, Bool, true, false, not, List, [], ◌∷◌, ◌++◌, replicate, set, get_or, if◌then◌else◌,
}
use icnprototype.Prelude.Int.{ℤ}
use icnprototype.Rm.Nid.{compare_sid_nid}
use icnprototype.Rm.Select.{Ports}
use icnprototype.Rm.Forward.Burst.{MbufTable, Burst, send_single_packet}

-- The fields of `struct trap_get_header` that are read or written.
pub record TrapGetHeader : Type 0 where
  pub ether_shost : List ℕ
  pub version_type : ℕ
  pub sid : List ℕ
  pub nid : List ℕ

-- The fields of `struct trap_data_header` that are read.
pub record TrapDataHeader : Type 0 where
  pub version_type : ℕ
  pub sid : List ℕ
  pub nid : List ℕ
  pub port1 : ℤ

-- "pc-k", with zeros up to 16 bytes.
abbrev pub trap_hello_nid : ℕ → List ℕ
trap_hello_nid digit = b'p' ∷ b'c' ∷ b'-' ∷ digit ∷ replicate 12 0

abbrev pub trap_hello_sid : List ℕ
trap_hello_sid = replicate 19 0 ++ (2 ∷ [])

abbrev pub trap_hello_sid2 : List ℕ
trap_hello_sid2 = replicate 19 0 ++ (3 ∷ [])

-- `compare_sid_nid(...) == 1`.
abbrev pub is_router : ℕ → List ℕ → Bool
unfolding compare_sid_nid
is_router digit nid = compare_sid_nid (trap_hello_nid digit) nid 16 == 1

-- The answer on the port that the message came from: its `sid` ends in 3 and its source is one of our
-- ports. Without a known router the message is neither sent nor freed.
unfoldable pub get_trap_message :
    ℕ → List (List ℕ) → TrapGetHeader → MbufTable TrapGetHeader → Burst TrapGetHeader
unfolding compare_sid_nid
get_trap_message accepted ports_eth_addr m tx_mbufs =
    let answer = record m { sid = set m.sid 19 3 } in
    let addressed : ℕ → TrapGetHeader =
      λ i. record answer { ether_shost = get_or ports_eth_addr i [] } in
    let idle : Burst TrapGetHeader = record { table = tx_mbufs; sent = []; freed = [] } in
    if m.version_type == 160 && compare_sid_nid trap_hello_sid m.sid 20 == 1
    then (if is_router b'3' m.nid
        then send_single_packet accepted (addressed 0) tx_mbufs
        else if is_router b'4' m.nid
        then send_single_packet accepted (addressed 1) tx_mbufs
        else if is_router b'5' m.nid
        then send_single_packet accepted (addressed 2) tx_mbufs
        else idle)
    else idle

-- The counters, and whether the message was freed.
unfoldable pub data_trap_message : Ports → TrapDataHeader → Ports × Bool
unfolding compare_sid_nid
data_trap_message ports m =
    let is_data = compare_sid_nid trap_hello_sid2 m.sid 20 == 1 in
    if is_router b'3' m.nid && is_data
    then (record ports { pc3_port = m.port1 }, true)
    else if is_router b'4' m.nid && is_data
    then (record ports { pc4_port = m.port1 }, true)
    else if is_router b'5' m.nid && is_data
    then (record ports { pc5_port = m.port1 }, true)
    else (ports, false)
