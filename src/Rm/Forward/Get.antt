-- ===== src/Rm/Forward/Get.antt =====
-- Requests for data: `is_valid_ipv4_pkt`, `ADD_PID` and `get_packets_forward` of RM/main.c, with the
-- structure `CoLoR_get_t` of RM/CoLoR.h. The call of `getchar` in `ADD_PID` is left out.
pub mod Rotate
use icnprototype.Prelude.{
  ℕ, zero, suc, ◌+◌, ◌-◌, ◌*◌, ◌/◌, ◌%◌, ◌^◌, Bool, true, false, ◌==◌, List, [], ◌∷◌, ◌++◌, length,
  take, drop, get_or, ltb, leb, Option, none, some, if◌then◌else◌,
}
use icnprototype.Prelude.Int.{ℤ, pos, negsuc}
use icnprototype.Rm.ByteOrder.{ByteOrder}
use icnprototype.Rm.Select.{pid_bytes, Turn, lunxun}

-- `sizeof(struct ether_hdr)`, `sizeof(struct ipv4_hdr)` and `sizeof(CoLoR_get_t)`.
abbrev pub size_ether_hdr : ℕ
size_ether_hdr = 14

abbrev pub size_ipv4_hdr : ℕ
size_ipv4_hdr = 20

abbrev pub size_color_get : ℕ
size_color_get = 96

-- The fields of the IPv4 header that the forwarding reads or writes, as the machine loads them.
pub record Ipv4Hdr : Type 0 where
  pub version_ihl : ℕ
  pub total_length : ℕ
  pub time_to_live : ℕ
  pub hdr_checksum : ℕ
  pub src_addr : ℕ
  pub dst_addr : ℕ

-- The fields of `CoLoR_get_t` that the forwarding reads or writes.
pub record ColorGet : Type 0 where
  pub total_len : ℕ
  pub pids : ℕ
  pub nid_sid : List ℕ
  pub l_sid : List ℕ

-- A request in its buffer; `room` is the buffer from the end of `CoLoR_get_t` on.
pub record Mbuf : Type 0 where
  pub data_len : ℕ
  pub pkt_len : ℕ
  pub d_addr : List ℕ
  pub s_addr : List ℕ
  pub ip : Ipv4Hdr
  pub get : ColorGet
  pub room : List ℕ

unfoldable pub is_valid_ipv4_pkt : ByteOrder → Ipv4Hdr → ℕ → ℤ
is_valid_ipv4_pkt order pkt link_len =
    if ltb link_len size_ipv4_hdr
    then negsuc 0
    else if pkt.version_ihl / 16 == 4
    then (if ltb (pkt.version_ihl % 16) 5
        then negsuc 3
        else if ltb (order.be16 pkt.total_length) size_ipv4_hdr
        then negsuc 4
        else pos 0)
    else negsuc 2

-- Bytes written at an offset; `none` outside of the buffer.
abbrev pub write : List ℕ → ℕ → List ℕ → Option (List ℕ)
write room offset bytes =
    if leb (offset + length bytes) (length room)
    then some (take offset room ++ bytes ++ drop (offset + length bytes) room)
    else none

abbrev pub in_room : Mbuf → Option (List ℕ) → Option Mbuf
in_room m none = none
in_room m (some room) = some (record m { room = room })

-- The path is written after the data, which is taken to hold the whole of `CoLoR_get_t`; the number of the
-- path is returned with the packet.
abbrev pub put_pid : ByteOrder → Mbuf → ℕ → Option (ℕ × Mbuf)
put_pid order m k =
    let total_len = (m.data_len - size_ipv4_hdr - size_ether_hdr) % 2 ^ 16 in
    let grown = record m {
      data_len = (m.data_len + 4) % 2 ^ 16;
      pkt_len = (m.pkt_len + 4) % 2 ^ 32;
      get = record m.get { total_len = order.be16 ((total_len + 4) % 2 ^ 16) };
    } in
    elim (in_room grown (write m.room (total_len - size_color_get) (pid_bytes k))) [
      | none ↦ none
      | some after ↦ some (k, after)
    ]

-- `none` for a packet shorter than its headers, and where `lunxun` returns no path.
pub add_pid_to_get : ByteOrder → Turn → Mbuf → Option (ℕ × Mbuf) × Turn
add_pid_to_get order turn m =
    let (path, next) = lunxun turn in
    elim path [
      | none ↦ (none, next)
      | some k ↦ (
        if ltb m.data_len (size_ether_hdr + size_ipv4_hdr + size_color_get)
            then none
            else put_pid order m k,
        next,
      )
    ]

-- `IPv4(192,168,a,b)`.
abbrev pub ipv4_192_168 : ℕ → ℕ → ℕ
ipv4_192_168 a b = 3232235520 + a * 256 + b

-- What becomes of a request: freed, or given to `rte_eth_tx_burst` on a port.
pub data Forwarded : Type 0 where
  freed : Forwarded
  sent : ℕ → Mbuf → Forwarded

-- The packet for port `k`, which a path `PIDk` has.
abbrev pub to_port : ByteOrder → List (List ℕ) → ℕ → Mbuf → Mbuf
to_port order ports_eth_addr k m = record m {
  s_addr = get_or ports_eth_addr k [];
  ip = record m.ip {
    src_addr = order.be32 (ipv4_192_168 (k + 1) 1);
    dst_addr = order.be32 (ipv4_192_168 (k + 1) 2);
    time_to_live = (m.ip.time_to_live + 255) % 256;
    hdr_checksum = (m.ip.hdr_checksum + 1) % 2 ^ 16;
  };
}

-- The two lengths and the count of paths, before `ADD_PID`.
abbrev pub counted : Mbuf → Mbuf
counted m = record m {
  ip = record m.ip { total_length = (m.ip.total_length + 4) % 2 ^ 16 };
  get = record m.get { total_len = (m.get.total_len + 4) % 2 ^ 16; pids = (m.get.pids + 1) % 256 };
}

abbrev pub after_pid : ByteOrder → List (List ℕ) → Option (ℕ × Mbuf) → Option Forwarded
after_pid order ports_eth_addr none = none
after_pid order ports_eth_addr (some (k, m)) = some (sent k (to_port order ports_eth_addr k m))

abbrev pub is_negative : ℤ → Bool
is_negative (pos n) = false
is_negative (negsuc n) = true

-- `none` where `ADD_PID` has none.
pub get_packets_forward : ByteOrder → List (List ℕ) → Turn → Mbuf → Option Forwarded × Turn
unfolding is_valid_ipv4_pkt add_pid_to_get
get_packets_forward order ports_eth_addr turn m =
    let valid = is_valid_ipv4_pkt order (counted m).ip m.pkt_len in
    let (added, next) = add_pid_to_get order turn (counted m) in
    if is_negative valid then (some freed, turn) else (after_pid order ports_eth_addr added, next)
