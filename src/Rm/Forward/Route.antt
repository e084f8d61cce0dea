-- ===== src/Rm/Forward/Route.antt =====
-- The tables of routes of RM/wenxingbeng.c and the forwarding by them, `l3fwd_simple_forward` of RM/main.c
-- for IPv4: the tables `rte_hash` of DPDK are an interface.
pub mod Tables
pub mod Ports
use icnprototype.Prelude.{
  ℕ, zero, suc, ◌+◌, ◌-◌, ◌*◌, ◌/◌, ◌%◌, ◌^◌, ◌≡◌, ◌≢◌, Bool, true, false, not, ◌==◌, ◌&&◌, ◌||◌,
  List, [], ◌∷◌, ◌++◌, length, take, drop, replicate, get_or, ltb, leb, Option, none, some,
  if◌then◌else◌,
}
use icnprototype.Prelude.Int.{ℤ, pos, negsuc}
use icnprototype.Rm.ByteOrder.{ByteOrder}
use icnprototype.Rm.Select.{pid_bytes}
use icnprototype.Rm.Nid.{Nid}
use icnprototype.Rm.Forward.Burst.{MbufTable, Burst, send_single_packet}
use icnprototype.Rm.Forward.Get.{
  Ipv4Hdr, ColorGet, Mbuf, write, in_room, is_valid_ipv4_pkt, is_negative, ipv4_192_168,
}

-- A key is its bytes or its words. A position is a number; `none` is a negative result. A table gives each
-- of its keys a position of its own.
pub record Hash : Type 1 where
  pub Table : Type 0
  pub rte_hash_create : Table
  pub rte_hash_add_key : Table → List ℕ → Option (ℕ × Table)
  pub rte_hash_lookup : Table → List ℕ → Option ℕ
  pub lookup_create : (key : List ℕ) → rte_hash_lookup rte_hash_create key ≡ none
  pub lookup_added :
      (t u : Table) (i : ℕ) (key : List ℕ)
      → rte_hash_add_key t key ≡ some (i, u)
      → rte_hash_lookup u key ≡ some i
  pub lookup_other :
      (t u : Table) (i : ℕ) (key other : List ℕ)
      → rte_hash_add_key t key ≡ some (i, u)
      → key ≢ other
      → rte_hash_lookup u other ≡ rte_hash_lookup t other
  pub position_own :
      (t : Table) (i : ℕ) (key other : List ℕ)
      → rte_hash_lookup t key ≡ some i
      → rte_hash_lookup t other ≡ some i
      → key ≡ other

-- What an entry of the table `sid_route_array` sends a request to.
pub record SidOut : Type 0 where
  pub nid_out : Nid
  pub flag_out : ℕ
  pub pid_out : ℕ
  pub ipv4_out : ℕ

pub record SidRoute : Type 0 where
  pub nid_sid : List ℕ
  pub l_sid : List ℕ
  pub out : SidOut

pub record Ipv4Route : Type 0 where
  pub ip_dst : ℕ
  pub if_out : ℕ

-- The loops of `convert_sid` and of the searches.
abbrev pub sid_key : List ℕ → List ℕ → List ℕ
sid_key nid_sid l_sid = take 16 nid_sid ++ take 20 l_sid ++ replicate 12 0

abbrev pub convert_sid : SidRoute → List ℕ
convert_sid r = sid_key r.nid_sid r.l_sid

-- The word of the address and three words of padding.
abbrev pub ipv4_key : ℕ → List ℕ
ipv4_key ip = ip ∷ 0 ∷ 0 ∷ 0 ∷ []

abbrev pub convert_ipv4 : ByteOrder → Ipv4Route → List ℕ
convert_ipv4 order r = ipv4_key (order.be32 r.ip_dst)

-- A table, with the arrays `sid_out_...` or the array `ipv4_out_if`, by position.
pub record Routes {ℓ} (hash : Hash) (Out : Type ℓ) : Type ℓ where
  pub table : hash.Table
  pub out : ℕ → Out

abbrev pub fill {ℓ} :
    {Out : Type ℓ}
    → (hash : Hash) → Out
    → (ℕ → Out)
    → Option (ℕ × hash.Table)
    → Option (Routes hash Out)
fill hash v out none = none
fill hash v out (some (ret, table)) =
    some (record { table = table; out = λ i. if i == ret then v else out i })

-- The loop that both `populate_...` functions are, on the pairs of a key and a result; `none` where
-- `rte_exit` ends the program.
unfoldable pub populate {ℓ} :
    {Out : Type ℓ}
    → (hash : Hash) → Routes hash Out
    → List (List ℕ × Out)
    → Option (Routes hash Out)
populate hash r [] = some r
populate hash r ((key, v) ∷ entries) =
    elim (fill hash v r.out (hash.rte_hash_add_key r.table key)) [
      | none ↦ none
      | some more ↦ populate hash more entries
    ]

-- `sid_out_ipv4` holds the address in network order.
abbrev pub sid_entry : ByteOrder → SidRoute → List ℕ × SidOut
sid_entry order r = (convert_sid r, record r.out { ipv4_out = order.be32 r.out.ipv4_out })

abbrev pub ipv4_entry : ByteOrder → Ipv4Route → List ℕ × ℕ
ipv4_entry order r = (convert_ipv4 order r, r.if_out)

abbrev pub find {ℓ} : {Out : Type ℓ} → (hash : Hash) → Routes hash Out → List ℕ → Option Out
find hash r key = elim (hash.rte_hash_lookup r.table key) [
  | none ↦ none
  | some ret ↦ some (r.out ret)
]

abbrev pub get_or_default {ℓ κ} : {A : Type ℓ} {B : Type κ} → (A → B) → B → Option A → B
get_or_default f d none = d
get_or_default f d (some a) = f a

module _ (hash : Hash) where
  abbrev pub get_ipv4_dst_port_wxb : Ipv4Hdr → ℕ → Routes hash ℕ → ℕ
  get_ipv4_dst_port_wxb ip portid r =
      get_or_default (λ v. v) portid (find hash r (ipv4_key ip.dst_addr))

  abbrev pub find_sid : Mbuf → Routes hash SidOut → Option SidOut
  find_sid m r = find hash r (sid_key m.get.nid_sid m.get.l_sid)

  abbrev pub get_sid_dst_ipv4 : Mbuf → Routes hash SidOut → ℕ
  get_sid_dst_ipv4 m r = get_or_default (λ v. v.ipv4_out) m.ip.src_addr (find_sid m r)

  abbrev pub get_sid_dst_pid : Mbuf → Routes hash SidOut → ℕ
  get_sid_dst_pid m r = get_or_default (λ v. v.pid_out) 0 (find_sid m r)

  abbrev pub get_sid_dst_flag : Mbuf → Routes hash SidOut → ℕ
  get_sid_dst_flag m r = get_or_default (λ v. v.flag_out) 0 (find_sid m r)

  abbrev pub get_sid_dst_nid : Mbuf → Routes hash SidOut → Nid
  get_sid_dst_nid m r = get_or_default (λ v. v.nid_out) (replicate 16 0) (find_sid m r)

abbrev pub host_ip : ℕ
host_ip = ipv4_192_168 4 1

abbrev pub update_ip : ByteOrder → Mbuf → ℕ → Mbuf
update_ip order m dst_addr = record m {
  ip = record m.ip { src_addr = order.be32 host_ip; dst_addr = dst_addr };
}

-- The bytes of a word in memory, from its least significant one if the machine is little-endian.
pub record Memory : Type 0 where
  pub bytes_of : ℕ → List ℕ

-- The path is written after the paths that the count names.
abbrev pub update_pid : ByteOrder → Memory → Mbuf → ℕ → Option Mbuf
update_pid order memory m pid =
    in_room
      (record m {
        data_len = (m.data_len + 4) % 2 ^ 16;
        pkt_len = (m.pkt_len + 4) % 2 ^ 32;
        ip = record m.ip {
          total_length = order.be16 ((order.be16 m.ip.total_length + 4) % 2 ^ 16);
        };
        get = record m.get {
          pids = (m.get.pids + 1) % 256;
          total_len = order.be16 ((order.be16 m.get.total_len + 4) % 2 ^ 16);
        };
      })
      (write m.room (4 * m.get.pids) (memory.bytes_of pid))

-- The port that a request leaves on: a port of the table that is below `RTE_MAX_ETHPORTS` (32, so that the
-- shift is defined) and enabled, else the port that it came from.
abbrev pub out_port : ℕ → ℕ → ℕ → ℕ → ℕ
out_port rte_max_ethports enabled_port_mask portid dst_port =
    if leb rte_max_ethports dst_port || not ((enabled_port_mask / 2 ^ dst_port) % 2 == 1)
    then portid
    else dst_port

-- The packet that is sent on a port: 02:00:00:00:00:xx and the port's address.
abbrev pub addressed : List (List ℕ) → ℕ → Mbuf → Mbuf
addressed ports_eth_addr dst_port m = record m {
  d_addr = 2 ∷ 0 ∷ 0 ∷ 0 ∷ 0 ∷ dst_port ∷ [];
  s_addr = get_or ports_eth_addr dst_port [];
  ip = record m.ip {
    time_to_live = (m.ip.time_to_live + 255) % 256;
    hdr_checksum = (m.ip.hdr_checksum + 1) % 2 ^ 16;
  };
}

-- The port and the packet that `send_single_packet` gets; freed where the header is not valid.
pub data Step : Type 0 where
  dropped : Step
  sent : ℕ → Mbuf → Step

module _ (hash : Hash) where
  -- After the changes to the request.
  unfoldable pub deliver : ByteOrder → ℕ → ℕ → List (List ℕ) → Routes hash ℕ → ℕ → Mbuf → Step
  deliver order rte_max_ethports enabled_port_mask ports_eth_addr routes portid m =
      let dst_port =
        out_port rte_max_ethports enabled_port_mask portid
          (get_ipv4_dst_port_wxb hash m.ip portid routes) in
      if is_negative (is_valid_ipv4_pkt order m.ip m.pkt_len)
      then dropped
      else sent dst_port (addressed ports_eth_addr dst_port m)

  -- The changes by the route of the request's name; `none` for a path outside of the buffer.
  unfoldable pub renamed : ByteOrder → Memory → Routes hash SidOut → Mbuf → Option Mbuf
  renamed order memory sids m =
      let at_host = update_ip order m (get_sid_dst_ipv4 hash m sids) in
      if get_sid_dst_flag hash at_host sids == 0
      then some at_host
      else update_pid order memory at_host (get_sid_dst_pid hash at_host sids)

  unfoldable pub l3fwd_simple_forward :
      ByteOrder
      → Memory
      → ℕ
      → ℕ
      → List (List ℕ)
      → Routes hash SidOut
      → Routes hash ℕ
      → ℕ
      → Mbuf
      → Option Step
  unfolding renamed deliver
  l3fwd_simple_forward order memory rte_max_ethports enabled_port_mask ports_eth_addr sids routes
        portid m =
      elim (renamed order memory sids m) [
        | none ↦ none
        | some after ↦
            some
              (deliver order rte_max_ethports enabled_port_mask ports_eth_addr routes portid after)
      ]
