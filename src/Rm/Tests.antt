-- ===== src/Rm/Tests.antt =====
-- Two neighbour domains with one path between them, and the theorems about RM applied to them.
mod Exchange
mod Parts
mod Keys
mod Forward
mod Config
use icnprototype.Prelude.{
  ℕ, ◌+◌, ◌^◌, ◌<◌, ◌≡◌, refl, Bool, true, false, List, [], ◌∷◌, Option, none, some, arith, length,
  replicate, get_elem?, get_or, if◌then◌else◌,
}
use icnprototype.Rm.Nid.{Nid, same_nid, compare_nid, differs, differs_iff, same_nid_iff}
use icnprototype.Rm.ByteOrder.{little_endian, swap32, swap32-lt}
use icnprototype.Rm.Packet.{Mbuf, ColorCtlPub}
use icnprototype.Rm.Chain.{PidInfo, Chain, search}
use icnprototype.Rm.Chain.Init.Paths.{pids_to, pids_to-cons, path_pids}
use icnprototype.Rm.Chain.Lookup.{search-nil}
use icnprototype.Rm.Table.{Route, Table}
use icnprototype.Rm.Table.Path.{Junk, find_ip_or_pid}
use icnprototype.Rm.Send.{send_pid_a}
use icnprototype.Rm.Send.Layout.{IsMessage, send_pid_a_lem}
use icnprototype.Rm.Negotiate.{State, Locals}
use icnprototype.Rm.Negotiate.Invariant.{IsInStep}
use icnprototype.Rm.Negotiate.Answers.{IsNeighbour}
use icnprototype.Rm.Negotiate.Steps.{IsSized}

abbrev pub domain_a : Nid
domain_a = replicate 16 1

abbrev pub domain_b : Nid
domain_b = replicate 16 2

abbrev pub route_a : Route
route_a = record { eid1 = domain_a; ip1 = 10; pid = 40; ip2 = 20; eid2 = domain_b }

abbrev pub route_b : Route
route_b = record { eid1 = domain_b; ip1 = 20; pid = 40; ip2 = 10; eid2 = domain_a }

-- The node for a domain with the one identifier 40.
abbrev pub node : Nid → PidInfo
node e = record { eid = e; id = 0; pid_change_time = 30; number_pid = 1; pid = 40 ∷ replicate 19 0 }

-- The node after an agreement on the identifier 43.
abbrev pub node' : Nid → PidInfo
node' e = record (node e) { pid = 43 ∷ replicate 19 0 }

abbrev pub state_a : State
state_a = record { head = node domain_b ∷ []; table = route_a ∷ [] }

abbrev pub state_b : State
state_b = record { head = node domain_a ∷ []; table = route_b ∷ [] }

abbrev pub junk : Junk
junk = record {
  pid_original = 7;
  header = record {
    ver_type = 0;
    controltype = 0;
    total_len = 0;
    checksum = 0;
    sign_alg = 0;
    option = 0;
    series_number_ack = 0;
    series_number_send = 0;
    item = 0;
    mtu = 0;
    eid = [];
    public_key_len = 0;
    resevered = 0;
    public_key = [];
    signature = [];
  };
}

abbrev pub locals : Locals
locals = record { time_huancun_pid_a = 5; pid_huancun_pid_a = replicate 10 (replicate 100 9) }

pub locals-IsSized : IsSized locals
locals-IsSized =
    (refl, (refl, (refl, (refl, (refl, (refl, (refl, (refl, (refl, (refl, (refl, tt)))))))))))

-- The chain and the table of a domain with one neighbour and one path.
one_path :
    (host e : Nid) (ip1 ip2 : ℕ) (e' : Nid)
    → pids_to (node e ∷ []) e'
      ≡ path_pids host e' (record { eid1 = host; ip1 = ip1; pid = 40; ip2 = ip2; eid2 = e } ∷ [])
one_path host e ip1 ip2 e' = ground (
  arith,
  pids_to-cons (node e) [] e',
  search-nil e',
  differs_iff e e',
  same_nid_iff e e',
  same_nid_iff host host,
)

pub state_a-IsInStep : IsInStep domain_a state_a
state_a-IsInStep = record {
  roomy = (refl, omega arith, tt);
  small = omega arith;
  paths = one_path domain_a domain_b 10 20;
}

pub state_b-IsInStep : IsInStep domain_b state_b
state_b-IsInStep = record {
  roomy = (refl, omega arith, tt);
  small = omega arith;
  paths = one_path domain_b domain_a 20 10;
}

pub a-IsNeighbour :
    IsNeighbour little_endian domain_a state_a domain_b 0 (node domain_b) (swap32 40) (swap32 10)
unfolding search differs find_ip_or_pid same_nid compare_nid
a-IsNeighbour = record {
  found = refl;
  node = refl;
  path_eq = refl;
  ip_eq = refl;
  row = omega arith;
}

pub b-IsNeighbour :
    IsNeighbour little_endian domain_b state_b domain_a 0 (node domain_a) (swap32 40) (swap32 20)
unfolding search differs find_ip_or_pid same_nid compare_nid
b-IsNeighbour = record {
  found = refl;
  node = refl;
  path_eq = refl;
  ip_eq = refl;
  row = omega arith;
}

-- A `pid_a` packet of the second domain with the identifier 43.
abbrev pub message : Mbuf
message =
    (send_pid_a little_endian domain_b 0 0 0 (swap32 43 ∷ []) (swap32 33) 1 (swap32 40)
      (swap32 20)).mbuf

pub message-IsMessage :
    IsMessage 0x10 domain_b (swap32 33 ∷ swap32 43 ∷ []) (swap32 40) (swap32 20) message
message-IsMessage =
    (send_pid_a_lem little_endian domain_b 0 0 0 (swap32 43 ∷ []) (swap32 33) (swap32 40)
      (swap32 20) (omega arith)).0
