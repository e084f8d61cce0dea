-- ===== src/Monitor/Capture.antt =====
-- The counters of a port's frames: `ethdump_parseEthHead`, `ethdump_parseFrame` and
-- `ethdump_startCapture` of NetworkMonitoringTools/stats_send_ver_test1/get_port_info.c.
pub mod Totals
use icnprototype.Prelude.{
  ℕ, zero, suc, ◌+◌, ◌==◌, ◌&&◌, Bool, true, false, List, [], ◌∷◌, get_or, replicate, Option, none,
  some, if◌then◌else◌,
}

-- The counters, each a `long long`, taken not to overflow: of all frames and of those of a kind.
pub record PackCount : Type 0 where
  pub tx_packets : ℕ
  pub rx_packets : ℕ
  pub total_packets : ℕ
  pub tx_bytes : ℕ
  pub rx_bytes : ℕ
  pub total_bytes : ℕ

-- The counters of `struct STATS_INFO`; `all` holds those that are its own fields.
pub record StatsInfo : Type 0 where
  pub all : PackCount
  pub get_pack_count : PackCount
  pub data_pack_count : PackCount

abbrev pub no_packets : PackCount
no_packets = record {
  tx_packets = 0;
  rx_packets = 0;
  total_packets = 0;
  tx_bytes = 0;
  rx_bytes = 0;
  total_bytes = 0;
}

-- After `memset`.
abbrev pub no_stats : StatsInfo
no_stats = record { all = no_packets; get_pack_count = no_packets; data_pack_count = no_packets }

-- `strncmp(...) == 0` on the first `n` bytes: it stops at a zero byte in both.
unfoldable pub same_prefix : ℕ → List ℕ → List ℕ → Bool
same_prefix zero s t = true
same_prefix (suc n) (x ∷ s) (y ∷ t) =
    if x == y then (if x == 0 then true else same_prefix n s t) else false
same_prefix (suc n) _ _ = true

-- A frame on the wire: its source address, what follows the Ethernet header, and its size.
pub record Frame : Type 0 where
  pub ether_shost : List ℕ
  pub payload : List ℕ
  pub size_received : ℕ

-- One frame counted: 2 stands for one that is sent, 1 for one that is received.
unfoldable pub count_frame : ℕ → ℕ → PackCount → PackCount
count_frame rsflag size c =
    let c' = record c { total_packets = c.total_packets + 1; total_bytes = c.total_bytes + size } in
    if rsflag == 2
    then record c' { tx_packets = c.tx_packets + 1; tx_bytes = c.tx_bytes + size }
    else if rsflag == 1
    then record c' { rx_packets = c.rx_packets + 1; rx_bytes = c.rx_bytes + size }
    else c'

abbrev pub rsflag_of : List ℕ → Frame → ℕ
rsflag_of local_mac frame = if same_prefix 6 frame.ether_shost local_mac then 2 else 1

-- The return value tells the direction.
pub ethdump_parse_eth_head : List ℕ → Frame → StatsInfo → ℕ × StatsInfo
ethdump_parse_eth_head local_mac frame stats =
    let rsflag = rsflag_of local_mac frame in
    (rsflag, record stats { all = count_frame rsflag frame.size_received stats.all })

-- The counters of data packets and of get packets, by the byte behind the Ethernet header.
unfoldable pub count_kind : ℕ → ℕ → ℕ → StatsInfo → StatsInfo
count_kind head_type rsflag size stats =
    if head_type == 161
    then record stats { data_pack_count = count_frame rsflag size stats.data_pack_count }
    else if head_type == 160
    then record stats { get_pack_count = count_frame rsflag size stats.get_pack_count }
    else stats

-- The place of `sid[19]` behind the Ethernet header, in `struct TRAP_HEADER`.
abbrev sid_last : ℕ
sid_last = 53

-- The flag tells whether a thread is started that answers a get packet for trap messages. The counters are taken
-- not to be cleared between the two locked parts.
pub ethdump_parse_frame : List ℕ → Frame → StatsInfo → Bool × StatsInfo
unfolding ethdump_parse_eth_head
ethdump_parse_frame local_mac frame stats =
    let (rsflag, stats') = ethdump_parse_eth_head local_mac frame stats in
    let head_type = get_or frame.payload 0 0 in
    (
      head_type == 160 && get_or frame.payload sid_last 0 == 3,
      count_kind head_type rsflag frame.size_received stats',
    )

-- What `recvfrom` gives: a frame, or an error, whose -1 becomes the unsigned size 2 ^ 32 - 1, so that
-- the test `0 > size_received` does not catch it and the cleared buffer is parsed.
abbrev pub received : Option Frame → Frame
received none = record { ether_shost = replicate 6 0; payload = []; size_received = 4294967295 }
received (some frame) = frame

-- The frames that are captured between two resets of the counters.
unfoldable pub capture : List ℕ → List (Option Frame) → StatsInfo → StatsInfo
capture local_mac [] stats = stats
capture local_mac (got ∷ rest) stats =
    capture local_mac rest (ethdump_parse_frame local_mac (received got) stats).1
