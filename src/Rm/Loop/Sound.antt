-- ===== src/Rm/Loop/Sound.antt =====
-- The chain and the table stay in step, and the buffers have room, whatever packets come.
use icnprototype.Prelude.{
  ℕ, zero, suc, ◌≡◌, refl, subst, ◌==◌, List, [], ◌∷◌, Option, none, some, get_elem?, get_or, set,
  if-keeps,
}
use icnprototype.Rm.Nid.{Nid}
use icnprototype.Rm.ByteOrder.{ByteOrder}
use icnprototype.Rm.Table.Path.{Junk}
use icnprototype.Rm.Packet.{control_packet}
use icnprototype.Rm.Negotiate.{Locals, Outcome, undefined, stuck, done}
use icnprototype.Rm.Negotiate.Invariant.{IsInStep}
use icnprototype.Rm.Negotiate.Steps.{IsSized, Ensures, on_control-IsInStep}
use icnprototype.Rm.Select.{Turn}
use icnprototype.Rm.Forward.Burst.{MbufTable, Burst}
use icnprototype.Rm.Forward.Burst.Conserve.{IsOpen, send_single_packet-Conserves}
use icnprototype.Rm.Forward.Burst.Drain.{is_due}
use icnprototype.Rm.Forward.Burst.Order.{drain-Conserves}
use icnprototype.Rm.Forward.Traffic.{TrapGetHeader, get_trap_message}
use icnprototype.Rm.Forward.Get.{Forwarded}
use icnprototype.Rm.Loop.{
  get_packet, answer_on, on_rest, Core, Packet, Left, core_of, Event, received, round, drain_ports,
  on_trap, after_control, after_get, on_ipv4, on_packet, handle_event, main_loop,
}

abbrev pub AreOpen : List (MbufTable TrapGetHeader) → Type 0
AreOpen [] = Unit
AreOpen (table ∷ tables) = IsOpen table × AreOpen tables

pub record IsSound (host : Nid) (c : Core) : Type 0 where
  pub in_step : IsInStep host c.state
  pub all_open : AreOpen c.tx_mbufs

-- The local arrays of each packet have their sizes.
abbrev pub AreSized : List Event → Type 0
AreSized [] = Unit
AreSized (received portid p loc random accepted ∷ events) = IsSized loc × AreSized events
AreSized (round accepted cur_tsc ∷ events) = AreSized events

drain_ports-AreOpen :
    (accepted : List ℕ) (tables : List (MbufTable TrapGetHeader))
    → AreOpen tables
    → AreOpen (drain_ports accepted tables).0
unfolding drain_ports
drain_ports-AreOpen accepted [] h = tt
drain_ports-AreOpen [] (table ∷ tables) h =
    ((drain-Conserves 0 table h.0).open_after, drain_ports-AreOpen [] tables h.1)
drain_ports-AreOpen (n ∷ accepted) (table ∷ tables) h =
    ((drain-Conserves n table h.0).open_after, drain_ports-AreOpen accepted tables h.1)

AreOpen-set :
    (tables : List (MbufTable TrapGetHeader)) (i : ℕ) (table : MbufTable TrapGetHeader)
    → AreOpen tables
    → IsOpen table
    → AreOpen (set tables i table)
AreOpen-set [] i table h k = tt
AreOpen-set (t ∷ tables) zero table h k = (k, h.1)
AreOpen-set (t ∷ tables) (suc i) table h k = (h.0, AreOpen-set tables i table h.1 k)

some_inj {ℓ} : {A : Type ℓ} {a b : A} → some a ≡ some b → a ≡ b
some_inj h = cc

AreOpen-get :
    (tables : List (MbufTable TrapGetHeader)) (i : ℕ) {table : MbufTable TrapGetHeader}
    → AreOpen tables
    → get_elem? tables i ≡ some table
    → IsOpen table
AreOpen-get [] i h e = cc
AreOpen-get (t ∷ tables) zero h e = subst IsOpen (some_inj e) h.0
AreOpen-get (t ∷ tables) (suc i) h e = AreOpen-get tables i h.1 e

get_trap_message-IsOpen :
    (accepted : ℕ) (ports_eth_addr : List (List ℕ)) (m : TrapGetHeader)
    (table : MbufTable TrapGetHeader)
    → IsOpen table
    → IsOpen (get_trap_message accepted ports_eth_addr m table).table
unfolding get_trap_message
get_trap_message-IsOpen accepted ports_eth_addr m table h =
    let answer = record m { sid = set m.sid 19 3 } in
    let sent = λ (i : ℕ).
      (send_single_packet-Conserves accepted
        (record answer { ether_shost = get_or ports_eth_addr i [] }) table h).open_after in
    let Keeps = λ (b : Burst TrapGetHeader). IsOpen b.table in
    if-keeps Keeps _
      (if-keeps Keeps _ (sent 0) (if-keeps Keeps _ (sent 1) (if-keeps Keeps _ (sent 2) h))) h

module _ (order : ByteOrder) (host : Nid) (junk : Junk) (ports_eth_addr : List (List ℕ))
    (raw queue_id fuel drain_tsc : ℕ) where
  -- What there is, is sound.
  abbrev Keeps : Option (Core × Left) → Type 0
  Keeps none = Unit
  Keeps (some r) = IsSound host r.0

  answer_on-Keeps :
      (portid : ℕ) (p : Packet) (accepted : ℕ) (c : Core) (o : Option (MbufTable TrapGetHeader))
      → IsSound host c
      → get_elem? c.tx_mbufs portid ≡ o
      → Keeps (
          answer_on order host junk ports_eth_addr raw queue_id fuel drain_tsc portid p accepted c
            o)
  unfolding answer_on
  answer_on-Keeps portid p accepted c none h e = tt
  answer_on-Keeps portid p accepted c (some table) h e = record {
    in_step = h.in_step;
    all_open = AreOpen-set c.tx_mbufs portid _ h.all_open (
        get_trap_message-IsOpen accepted ports_eth_addr p.trap table
          (AreOpen-get c.tx_mbufs portid h.all_open e));
  }

  on_trap-Keeps :
      (portid : ℕ) (p : Packet) (accepted : ℕ) (c : Core)
      → IsSound host c
      → Keeps
          (on_trap order host junk ports_eth_addr raw queue_id fuel drain_tsc portid p accepted c)
  unfolding on_trap
  on_trap-Keeps portid p accepted c h =
      if-keeps Keeps (p.trap.version_type == 0xa0) (answer_on-Keeps portid p accepted c _ h refl) (
        if-keeps Keeps (p.trap.version_type == 0xa1)
          (record { in_step = h.in_step; all_open = h.all_open }) h)

  after_control-Keeps :
      (c : Core) (left : Left) (o : Outcome)
      → IsSound host c
      → Ensures (λ st loc. IsInStep host st × IsSized loc) o
      → Keeps (after_control order host junk ports_eth_addr raw queue_id fuel drain_tsc c left o)
  unfolding after_control
  after_control-Keeps c left undefined h e = tt
  after_control-Keeps c left stuck h e = tt
  after_control-Keeps c left (done st loc sent) h e = record {
    in_step = e.0;
    all_open = h.all_open;
  }

  after_get-Keeps :
      (c : Core) (left : Left) (r : Option Forwarded × Turn)
      → IsSound host c
      → Keeps (after_get order host junk ports_eth_addr raw queue_id fuel drain_tsc c left r)
  unfolding after_get
  after_get-Keeps c left (none, turn) h = tt
  after_get-Keeps c left (some f, turn) h = record { in_step = h.in_step; all_open = h.all_open }

  on_rest-Keeps :
      (portid : ℕ) (p : Packet) (loc : Locals) (random : ℕ) (o : Option (Core × Left))
      → IsSized loc
      → Keeps o
      → Keeps
          (on_rest order host junk ports_eth_addr raw queue_id fuel drain_tsc portid p loc random o)
  unfolding on_rest on_ipv4
  on_rest-Keeps portid p loc random none z h = tt
  on_rest-Keeps portid p loc random (some (c, left)) z h =
      if-keeps Keeps p.is_ipv4
        (if-keeps Keeps (p.ver_type == get_packet) (after_get-Keeps c left _ h) (
          if-keeps Keeps (p.ver_type == control_packet)
            (after_control-Keeps c left _ h (
              on_control-IsInStep order host junk raw portid queue_id fuel c.state loc p.control
                random h.in_step z))
            h))
        h

  drained-Keeps :
      (accepted : List ℕ) (cur_tsc : ℕ) (c : Core)
      → IsSound host c
      → Keeps (
          handle_event order host junk ports_eth_addr raw queue_id fuel drain_tsc c
            (round accepted cur_tsc))
  unfolding handle_event
  drained-Keeps accepted cur_tsc c h =
      if-keeps Keeps (is_due drain_tsc c.prev_tsc cur_tsc)
        (record {
          in_step = h.in_step;
          all_open = drain_ports-AreOpen accepted c.tx_mbufs h.all_open;
        })
        h

  -- A state that there is, is sound.
  KeepsCore : Option Core → Type 0
  KeepsCore none = Unit
  KeepsCore (some c) = IsSound host c

  core_of-Keeps : (o : Option (Core × Left)) → Keeps o → KeepsCore (core_of o)
  unfolding KeepsCore
  core_of-Keeps none h = tt
  core_of-Keeps (some r) h = h

  main_loop-Keeps :
      (events : List Event) (o : Option Core)
      → KeepsCore o
      → AreSized events
      → KeepsCore (main_loop order host junk ports_eth_addr raw queue_id fuel drain_tsc o events)
  unfolding main_loop handle_event on_packet KeepsCore
  main_loop-Keeps events none h z = tt
  main_loop-Keeps [] (some c) h z = h
  main_loop-Keeps (received portid p loc random accepted ∷ events) (some c) h z =
      main_loop-Keeps events _
        (core_of-Keeps _
          (on_rest-Keeps portid p loc random _ z.0 (on_trap-Keeps portid p accepted c h)))
        z.1
  main_loop-Keeps (round accepted cur_tsc ∷ events) (some c) h z =
      main_loop-Keeps events _ (core_of-Keeps _ (drained-Keeps accepted cur_tsc c h)) z

  -- Whatever packets come and however the rounds lie between them: if the handlers all get to their ends, then the
  -- chain and the table of paths are in step afterwards and the buffer of each port has room for a packet, if
  -- this was so before and the local arrays of each packet have their sizes.
  pub main_loop-IsSound :
      (events : List Event) (c d : Core)
      → IsSound host c
      → AreSized events
      → main_loop order host junk ports_eth_addr raw queue_id fuel drain_tsc (some c) events
        ≡ some d
      → IsSound host d
  unfolding KeepsCore
  main_loop-IsSound events c d h z e = subst KeepsCore e (main_loop-Keeps events (some c) h z)
