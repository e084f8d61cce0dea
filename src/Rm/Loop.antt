-- ===== src/Rm/Loop.antt =====
-- The loop of a core, `main_loop` of RM/main.c: the buffers are drained, and each packet that was received goes
-- to its handlers. A packet has a field for each structure by which its bytes are read; a packet that a
-- handler freed is read on, so that these are then what its memory holds.
pub mod Sound
use icnprototype.Prelude.{
  ℕ, ◌==◌, Bool, true, false, List, [], ◌∷◌, ◌++◌, Option, none, some, get_elem?, set,
  if◌then◌else◌,
}
use icnprototype.Rm.Nid.{Nid}
use icnprototype.Rm.ByteOrder.{ByteOrder}
use icnprototype.Rm.Packet.{Mbuf as ControlMbuf, control_packet}
use icnprototype.Rm.Send.{Sent}
use icnprototype.Rm.Table.Path.{Junk}
use icnprototype.Rm.Negotiate.{State, Locals, Outcome, undefined, stuck, done, on_control}
use icnprototype.Rm.Select.{Turn, Ports}
use icnprototype.Rm.Forward.Burst.{MbufTable, Burst}
use icnprototype.Rm.Forward.Burst.Drain.{is_due, drain}
use icnprototype.Rm.Forward.Traffic.{
  TrapGetHeader, TrapDataHeader, get_trap_message, data_trap_message,
}
use icnprototype.Rm.Forward.Get.{Mbuf as GetMbuf, Forwarded, get_packets_forward}

abbrev pub get_packet : ℕ
get_packet = 0xa0

-- The state of the core, with the globals that its handlers use. `tx_mbufs` has an entry for each port.
pub record Core : Type 0 where
  pub state : State
  pub turn : Turn
  pub ports : Ports
  pub tx_mbufs : List (MbufTable TrapGetHeader)
  pub prev_tsc : ℕ

-- `is_ipv4` is the flag `PKT_RX_IPV4_HDR`.
pub record Packet : Type 0 where
  pub trap : TrapGetHeader
  pub data_trap : TrapDataHeader
  pub is_ipv4 : Bool
  pub ver_type : ℕ
  pub get : GetMbuf
  pub control : ControlMbuf

-- What leaves the core: messages of routers, requests, control packets.
pub record Left : Type 0 where
  pub answers : List TrapGetHeader
  pub requests : List Forwarded
  pub controls : List Sent

abbrev pub nothing : Left
nothing = record { answers = []; requests = []; controls = [] }

abbrev pub core_of : Option (Core × Left) → Option Core
core_of none = none
core_of (some r) = some r.0

-- A packet with its port, what the block's variables hold, the value of `rand()` and the number of packets that
-- the device accepts; or the start of a round, with such a number for each port and the counter.
pub data Event : Type 0 where
  received : ℕ → Packet → Locals → ℕ → ℕ → Event
  round : List ℕ → ℕ → Event

-- The ports are drained one after another.
pub drain_ports :
    List ℕ → List (MbufTable TrapGetHeader) → List (MbufTable TrapGetHeader) × List TrapGetHeader
drain_ports accepted [] = ([], [])
drain_ports [] (table ∷ tables) =
    let b = drain 0 table in
    let (rest, sent) = drain_ports [] tables in (b.table ∷ rest, b.sent ++ sent)
drain_ports (n ∷ accepted) (table ∷ tables) =
    let b = drain n table in
    let (rest, sent) = drain_ports accepted tables in (b.table ∷ rest, b.sent ++ sent)

module _ (order : ByteOrder) (host : Nid) (junk : Junk) (ports_eth_addr : List (List ℕ))
    (raw queue_id fuel drain_tsc : ℕ) where
  -- The answer to a border router goes into the buffer of the port; `none` where there is none.
  pub answer_on : ℕ → Packet → ℕ → Core → Option (MbufTable TrapGetHeader) → Option (Core × Left)
  answer_on portid p accepted c none = none
  answer_on portid p accepted c (some table) =
      let b = get_trap_message accepted ports_eth_addr p.trap table in
      some
        (record c { tx_mbufs = set c.tx_mbufs portid b.table }, record nothing { answers = b.sent })

  -- The message of a border router, if it is one.
  pub on_trap : ℕ → Packet → ℕ → Core → Option (Core × Left)
  unfolding answer_on
  on_trap portid p accepted c =
      if p.trap.version_type == 0xa0
      then answer_on portid p accepted c (get_elem? c.tx_mbufs portid)
      else if p.trap.version_type == 0xa1
      then some (record c { ports = (data_trap_message c.ports p.data_trap).0 }, nothing)
      else some (c, nothing)

  -- What becomes of the core by the handler of a control packet.
  unfoldable pub after_control : Core → Left → Outcome → Option (Core × Left)
  after_control c left undefined = none
  after_control c left stuck = none
  after_control c left (done st loc sent) =
      some (record c { state = st }, record left { controls = sent })

  pub after_get : Core → Left → Option Forwarded × Turn → Option (Core × Left)
  after_get c left (none, turn) = none
  after_get c left (some f, turn) =
      some (record c { turn = turn }, record left { requests = f ∷ [] })

  -- A request or a control packet; `none` where a handler does not get to its end.
  pub on_ipv4 : ℕ → Packet → Locals → ℕ → Core × Left → Option (Core × Left)
  unfolding after_control after_get
  on_ipv4 portid p loc random (c, left) =
      if p.ver_type == get_packet
      then after_get c left (get_packets_forward order ports_eth_addr c.turn p.get)
      else if p.ver_type == control_packet
      then after_control c left
          (on_control order host junk raw portid queue_id fuel c.state loc p.control random)
      else some (c, left)

  pub on_rest : ℕ → Packet → Locals → ℕ → Option (Core × Left) → Option (Core × Left)
  unfolding on_ipv4
  on_rest portid p loc random none = none
  on_rest portid p loc random (some r) = if p.is_ipv4 then on_ipv4 portid p loc random r else some r

  pub on_packet : ℕ → Packet → Locals → ℕ → ℕ → Core → Option (Core × Left)
  unfolding on_trap on_rest
  on_packet portid p loc random accepted c =
      on_rest portid p loc random (on_trap portid p accepted c)

  pub handle_event : Core → Event → Option (Core × Left)
  unfolding on_packet drain_ports
  handle_event c (received portid p loc random accepted) = on_packet portid p loc random accepted c
  handle_event c (round accepted cur_tsc) =
      if is_due drain_tsc c.prev_tsc cur_tsc
      then (let (tables, sent) = drain_ports accepted c.tx_mbufs in
          some
            (record c { tx_mbufs = tables; prev_tsc = cur_tsc }, record nothing { answers = sent }))
      else some (c, nothing)

  -- The core after the events, in their order.
  unfoldable pub main_loop : Option Core → List Event → Option Core
  unfolding handle_event
  main_loop none events = none
  main_loop (some c) [] = some c
  main_loop (some c) (event ∷ events) = main_loop (core_of (handle_event c event)) events
