-- ===== src/Rm/Packet.antt =====
-- The control packets that RM/main.c builds: its `pktgen_ctor_...` and `pkt_colorctl_setup`, and
-- `ADD_PID_and_IP`, which completes each of them. A packet is its three headers and the 32-bit words
-- behind them; the lengths are in bytes.
pub mod Shape
use Prim.Native.Nat.{bit_or}
use icnprototype.Prelude.{
  ℕ, zero, suc, ◌+◌, ◌-◌, ◌*◌, ◌/◌, ◌%◌, ◌^◌, List, [], ◌∷◌, ◌++◌, take, drop, replicate, length,
  ◌==◌, ◌||◌, if◌then◌else◌,
}
use icnprototype.Rm.Nid.{Nid}
use icnprototype.Rm.ByteOrder.{ByteOrder}

-- `struct ether_hdr`
pub record EtherHdr : Type 0 where
  pub d_addr : List ℕ
  pub s_addr : List ℕ
  pub ether_type : ℕ

-- `struct ipv4_hdr`
pub record Ipv4Hdr : Type 0 where
  pub version_ihl : ℕ
  pub type_of_service : ℕ
  pub total_length : ℕ
  pub packet_id : ℕ
  pub fragment_offset : ℕ
  pub time_to_live : ℕ
  pub next_proto_id : ℕ
  pub hdr_checksum : ℕ
  pub src_addr : ℕ
  pub dst_addr : ℕ

-- `struct color_ctl_pub`
pub record ColorCtlPub : Type 0 where
  pub ver_type : ℕ
  pub controltype : ℕ
  pub total_len : ℕ
  pub checksum : ℕ
  pub sign_alg : ℕ
  pub option : ℕ
  pub series_number_ack : ℕ
  pub series_number_send : ℕ
  pub item : ℕ
  pub mtu : ℕ
  pub eid : Nid
  pub public_key_len : ℕ
  pub resevered : ℕ
  pub public_key : List ℕ
  pub signature : List ℕ

-- `struct rte_mbuf`, as far as RM/main.c uses it: `body` is the data behind the three headers.
pub record Mbuf : Type 0 where
  pub ether : EtherHdr
  pub ip : Ipv4Hdr
  pub ctl : ColorCtlPub
  pub body : List ℕ
  pub nb_segs : ℕ
  pub pkt_len : ℕ
  pub data_len : ℕ

-- The sizes of the three headers in bytes.
abbrev pub sizeof_ether_hdr : ℕ
sizeof_ether_hdr = 14

abbrev pub sizeof_ipv4_hdr : ℕ
sizeof_ipv4_hdr = 20

abbrev pub sizeof_color_ctl_pub : ℕ
sizeof_color_ctl_pub = 140

abbrev pub control_packet : ℕ
control_packet = 0xa3

abbrev pub control_packet_pid : ℕ
control_packet_pid = 0x10

abbrev pub control_packet_pid_announce : ℕ
control_packet_pid_announce = 129

abbrev pub option_flag : ℕ
option_flag = 0x40

-- OPTION_KIND_MASK, which selects the two bits of the kind.
abbrev pub option_kind_mask : ℕ
option_kind_mask = 0x30

-- The four kinds of a negotiation packet, as the mask selects them.
abbrev pub option_kind0_change_request : ℕ
option_kind0_change_request = 0x00

abbrev pub option_kind1_a : ℕ
option_kind1_a = 0x10

abbrev pub option_kind2_b : ℕ
option_kind2_b = 0x20

abbrev pub option_kind3_ack : ℕ
option_kind3_ack = 0x30

-- The macro `IPv4(a, b, c, d)` of DPDK, for bytes.
abbrev pub ipv4 : ℕ → ℕ → ℕ → ℕ → ℕ
ipv4 a b c d = a * 16777216 + b * 65536 + c * 256 + d

pub pktgen_ctor_ether_header : EtherHdr
pktgen_ctor_ether_header = record {
  d_addr = 0x00 ∷ 0x16 ∷ 0x31 ∷ 0xfe ∷ 0xe6 ∷ 0x91 ∷ [];
  s_addr = 0x00 ∷ 0x16 ∷ 0x31 ∷ 0xfe ∷ 0xe6 ∷ 0x90 ∷ [];
  ether_type = 0x0008;
}

-- The `switch` that sets the bits of the kind.
unfoldable pub option_of : ℕ → ℕ
option_of kind =
    if kind == 0
    then bit_or option_flag option_kind0_change_request
    else if kind == 1
    then bit_or option_flag option_kind1_a
    else if kind == 2
    then bit_or option_flag option_kind2_b
    else if kind == 3
    then bit_or option_flag option_kind3_ack
    else option_flag

module _ (order : ByteOrder) (host : Nid) where
  open order use {be16, be32}

  pub pktgen_ctor_ip_header : Ipv4Hdr
  pktgen_ctor_ip_header = record {
    version_ihl = 0x45;
    type_of_service = 0;
    total_length = 0;
    packet_id = 0;
    fragment_offset = 0;
    time_to_live = 4;
    next_proto_id = 10;
    hdr_checksum = 0;
    src_addr = be32 (ipv4 192 168 2 1);
    dst_addr = be32 (ipv4 192 168 2 2);
  }

  -- `raw` is what the field `total_len` held before: kinds other than 0 to 3 leave it.
  pub pktgen_ctor_colorctl_pub : ℕ → ℕ → ℕ → ColorCtlPub
  unfolding option_of
  pktgen_ctor_colorctl_pub raw kind item = record {
    ver_type = control_packet;
    controltype = control_packet_pid;
    total_len =
        if kind == 0 || kind == 3
        then sizeof_color_ctl_pub
        else if kind == 1 || kind == 2
        then (sizeof_color_ctl_pub + 4 * (item + 1)) % 2 ^ 16
        else raw;
    checksum = 0;
    sign_alg = 0;
    option = option_of kind;
    series_number_ack = 0;
    series_number_send = 0;
    item = item;
    mtu = be16 1500;
    eid = host;
    public_key_len = be16 49;
    resevered = 0;
    public_key = replicate 49 0;
    signature = replicate 55 0;
  }

  -- The packet with its length in bytes, its `item` cut to eight bits; the senders below set the
  -- length fields.
  unfoldable pub pkt_colorctl_setup : ℕ → ℕ → ℕ → Mbuf
  unfolding pktgen_ctor_ether_header pktgen_ctor_ip_header pktgen_ctor_colorctl_pub
  pkt_colorctl_setup raw kind item = record {
    ether = pktgen_ctor_ether_header;
    ip = pktgen_ctor_ip_header;
    ctl = pktgen_ctor_colorctl_pub raw kind (item % 256);
    body = [];
    nb_segs = 1;
    pkt_len = sizeof_ether_hdr + sizeof_ipv4_hdr + sizeof_color_ctl_pub;
    data_len = sizeof_ether_hdr + sizeof_ipv4_hdr + sizeof_color_ctl_pub;
  }

  -- The word is written `total_len` bytes behind the start of the control header.
  unfoldable pub add_pid_and_ip : Mbuf → ℕ → ℕ → Mbuf
  add_pid_and_ip m pid ip =
      let len = (m.data_len - sizeof_ipv4_hdr - sizeof_ether_hdr) % 2 ^ 16 in
      let at = (len - sizeof_color_ctl_pub) / 4 in
      record {
        ether = m.ether;
        ip = record m.ip { dst_addr = ip };
        ctl = record m.ctl { total_len = be16 ((len + 4) % 2 ^ 16) };
        body = take at m.body ++ (pid ∷ drop (suc at) m.body);
        nb_segs = m.nb_segs;
        pkt_len = m.pkt_len + 4;
        data_len = (m.data_len + 4) % 2 ^ 16;
      }
