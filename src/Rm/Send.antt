-- ===== src/Rm/Send.antt =====
-- The functions of RM/main.c that build a control packet and hand it to `rte_eth_tx_burst`:
-- `send_pid_change_request`, `send_pid_a`, `send_pid_b`, `send_ack` and `send_ip_nid_ip`. Each is the
-- packet with the port and the queue that it is sent on.
pub mod Layout
use icnprototype.Prelude.{ℕ, ◌+◌, ◌*◌, ◌%◌, ◌^◌, Bool, List, [], ◌∷◌, take, leb}
use icnprototype.Rm.Nid.{Nid}
use icnprototype.Rm.ByteOrder.{ByteOrder}
use icnprototype.Rm.Packet.{
  ColorCtlPub, Mbuf, pkt_colorctl_setup, add_pid_and_ip, pktgen_ctor_ether_header,
  pktgen_ctor_ip_header, control_packet, control_packet_pid_announce, sizeof_ether_hdr,
  sizeof_ipv4_hdr, sizeof_color_ctl_pub,
}

-- A packet on its way out.
pub record Sent : Type 0 where
  pub port_id : ℕ
  pub queue_id : ℕ
  pub mbuf : Mbuf

-- `struct announce_item`
pub record AnnounceItem : Type 0 where
  pub pid_original : ℕ
  pub pid_current : ℕ
  pub ip_inside : ℕ
  pub ip_outside : ℕ
  pub time_to_live : ℕ

-- The room for the data of a packet, and the test that a message of so many identifiers fits it, with the path that
-- is added last. One that does not writes behind the buffer: `undefined` in Rm/Negotiate.
abbrev pub data_room : ℕ
data_room = 2048

unfoldable pub fits_room : ℕ → Bool
fits_room pid_number =
    leb
      (sizeof_ether_hdr + sizeof_ipv4_hdr + sizeof_color_ctl_pub + 4 + pid_number % 2 ^ 16 * 4 + 4)
      data_room

module _ (order : ByteOrder) (host : Nid) (raw : ℕ) where
  -- The timer and the identifiers are copied behind the headers, and the lengths grow by them. The number of
  -- identifiers is cut to 16 bits.
  unfoldable pub pid_message : ℕ → List ℕ → ℕ → ℕ → Mbuf
  pid_message kind pids timer pid_number =
      let count = pid_number % 2 ^ 16 in
      let m = pkt_colorctl_setup order host raw kind count in
      record m {
        body = timer ∷ take count pids;
        pkt_len = m.pkt_len + 4 + count * 4;
        data_len = (m.data_len + 4 + count * 4) % 2 ^ 16;
      }

module _ (order : ByteOrder) (host : Nid) (raw : ℕ) (port_id queue_id : ℕ) where
  unfoldable pub send_pid_change_request : ℕ → ℕ → Sent
  send_pid_change_request pid ip = record {
    port_id = port_id;
    queue_id = queue_id;
    mbuf = add_pid_and_ip order host (pkt_colorctl_setup order host raw 0 0) pid ip;
  }

  unfoldable pub send_pid_a : List ℕ → ℕ → ℕ → ℕ → ℕ → Sent
  unfolding pid_message
  send_pid_a pids timer pid_number pid ip = record {
    port_id = port_id;
    queue_id = queue_id;
    mbuf = add_pid_and_ip order host (pid_message order host raw 1 pids timer pid_number) pid ip;
  }

  unfoldable pub send_pid_b : List ℕ → ℕ → ℕ → ℕ → ℕ → Sent
  unfolding pid_message
  send_pid_b pids timer pid_number pid ip = record {
    port_id = port_id;
    queue_id = queue_id;
    mbuf = add_pid_and_ip order host (pid_message order host raw 2 pids timer pid_number) pid ip;
  }

  unfoldable pub send_ack : ℕ → ℕ → Sent
  send_ack pid ip = record {
    port_id = port_id;
    queue_id = queue_id;
    mbuf = add_pid_and_ip order host (pkt_colorctl_setup order host raw 3 0) pid ip;
  }

  -- `junk` is what the other fields of the local `ctl_pub` hold.
  pub send_ip_nid_ip : ColorCtlPub → AnnounceItem → ℕ → Sent
  send_ip_nid_ip junk item ip = record {
    port_id = port_id;
    queue_id = queue_id;
    mbuf =
        add_pid_and_ip order host
          (record {
            ether = pktgen_ctor_ether_header;
            ip = pktgen_ctor_ip_header order host;
            ctl = record junk {
              ver_type = control_packet;
              controltype = control_packet_pid_announce;
              item = order.be16 1;
              eid = host;
            };
            body =
                item.pid_original ∷ item.pid_current ∷ item.ip_inside ∷ item.ip_outside
                ∷ item.time_to_live ∷ [];
            nb_segs = 1;
            pkt_len = sizeof_ether_hdr + sizeof_ipv4_hdr + sizeof_color_ctl_pub + 20;
            data_len = sizeof_ether_hdr + sizeof_ipv4_hdr + sizeof_color_ctl_pub + 20;
          })
          0 ip;
  }
