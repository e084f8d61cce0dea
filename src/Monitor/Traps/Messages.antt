-- ===== src/Monitor/Traps/Messages.antt =====
-- The messages of the traps: `send_trap_hello`, `send_trap_data`, `write_trap_file` and `read_trap_file` of
-- NetworkMonitoringTools/stats_send_ver_test1/trap.c, the structures of trap.h, and `thread_parse_trap` of
-- get_port_info.c. A text in an array of 16 bytes is followed by zeros. A failed call of the system is a
-- Boolean argument.
pub mod Exchange
use icnprototype.Prelude.{
  ℕ, ◌==◌, Bool, true, false, List, [], ◌∷◌, ◌++◌, replicate, set, take, Option, none, some,
  if◌then◌else◌,
}
use icnprototype.Prelude.Int.{ℤ, pos}
use icnprototype.Rm.ByteOrder.{ByteOrder}
use icnprototype.Monitor.Timer.{same_string}

-- The string in an array: the bytes before the first zero.
abbrev pub text : List ℕ → List ℕ
text [] = []
text (c ∷ cs) = if c == 0 then [] else c ∷ text cs

-- `struct TRAP_SBD`.
pub record TrapSbd : Type 0 where
  pub trap_nid : List ℕ
  pub port_ip : List ℕ

pub record TrapMessage : Type 0 where
  pub trap_sbd : TrapSbd
  pub trap_type : ℕ
  pub port1_data : ℤ
  pub port2_data : ℤ

-- `struct TRAP_HEADER` and the same fields of `struct TRAP_DATA_HEADER`; of the fields between, those
-- that are not 0.
pub record TrapHeader : Type 0 where
  pub ether_dhost : List ℕ
  pub ether_shost : List ℕ
  pub ether_type : ℕ
  pub version_type : ℕ
  pub ttl : ℕ
  pub total_len : ℕ
  pub sid_len : ℕ
  pub nid_len : ℕ
  pub publickey_len : ℕ
  pub mtu : ℕ
  pub sid : List ℕ
  pub nid : List ℕ

pub record TrapHelloPkg : Type 0 where
  pub trap_head : TrapHeader
  pub trap_sbd : TrapSbd

pub record TrapDataPkg : Type 0 where
  pub trap_data_head : TrapHeader
  pub trap_message : TrapMessage

-- The header that both senders fill.
abbrev pub header : ByteOrder → List ℕ → ℕ → ℕ → List ℕ → TrapHeader
header order source_mac version_type sid_last nid = record {
  ether_dhost = replicate 6 255;
  ether_shost = source_mac;
  ether_type = order.be16 2048;
  version_type = version_type;
  ttl = 255;
  total_len = order.be16 68;
  sid_len = 20;
  nid_len = 16;
  publickey_len = 0;
  mtu = 0;
  sid = set (replicate 20 0) 19 sid_last;
  nid = take 16 nid;
}

-- The packet that `send_trap_hello` gives to `sendto`.
unfoldable pub send_trap_hello : ByteOrder → List ℕ → TrapMessage → TrapHelloPkg
send_trap_hello order source_mac m = record {
  trap_head = record (header order source_mac 160 2 m.trap_sbd.trap_nid) {
    publickey_len = order.be16 16;
    mtu = order.be16 1500;
  };
  trap_sbd = m.trap_sbd;
}

-- The packet of `send_trap_data`; the number of the file `traffic_temp` is `none` if it cannot be opened.
pub send_trap_data : ByteOrder → List ℕ → Option ℤ → TrapMessage → List ℕ → Option TrapDataPkg
send_trap_data order source_mac none m nid = none
send_trap_data order source_mac (some traffic) m nid = some (record {
  trap_data_head = header order source_mac 161 3 nid;
  trap_message = record {
    trap_sbd = m.trap_sbd;
    trap_type = m.trap_type;
    port1_data = traffic;
    port2_data = pos 3;
  };
})

-- The files `temp_trap_<port_ip>`, the latest first.
abbrev pub Files : Type 0
Files = List (List ℕ × TrapMessage)

pub write_trap_file : Bool → TrapMessage → Files → Files
write_trap_file written m files =
    if written
    then (m.trap_sbd.port_ip, record m { port1_data = pos 0; port2_data = pos 0 }) ∷ files
    else files

-- Without a file the message is kept.
pub read_trap_file : Files → TrapMessage → TrapMessage
read_trap_file [] m = m
read_trap_file ((name, buf) ∷ files) m =
    let rest = read_trap_file files m in
    if same_string (text name) (text m.trap_sbd.port_ip)
    then record m { trap_sbd = buf.trap_sbd; trap_type = buf.trap_type }
    else rest

-- The answer to a get packet that asks this host, from the cleared `trap_message`.
pub thread_parse_trap :
    ByteOrder → List ℕ → Option ℤ → List ℕ → Files → TrapHelloPkg → Option TrapDataPkg
unfolding send_trap_data read_trap_file
thread_parse_trap order source_mac traffic host_name files pkg =
    let asked : TrapMessage = record {
      trap_sbd = pkg.trap_sbd;
      trap_type = 0;
      port1_data = pos 0;
      port2_data = pos 0;
    } in
    if same_string (text pkg.trap_sbd.trap_nid) host_name
    then send_trap_data order source_mac traffic (read_trap_file files asked)
        (take 16 pkg.trap_head.nid)
    else none
