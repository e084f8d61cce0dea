-- ===== src/Rm/Tests/Forward.antt =====
-- The forwarding of data packets on small inputs, with a table of keys in a list.
use icnprototype.Prelude.{
  ℕ, ◌≡◌, refl, inl, inr, List, [], ◌∷◌, ◌++◌, replicate, some, ◌==◌, arith, if◌then◌else◌,
}
use icnprototype.Rm.Nid.{differs}
use icnprototype.Rm.ByteOrder.{little_endian, swap16}
use icnprototype.Rm.Select.{start}
use icnprototype.Rm.Forward.Burst.{MbufTable, Burst, send_packetsx4}
use icnprototype.Rm.Forward.Burst.Drain.{Event, enqueue, round, live}
use icnprototype.Rm.Forward.Burst.Order.{arrivals, live_order}
use icnprototype.Rm.Forward.Burst.Conserve.{waiting, Conserves, send_packetsx4-Conserves}
use icnprototype.Rm.Forward.Get.{Mbuf, sent, get_packets_forward, is_valid_ipv4_pkt}
use icnprototype.Rm.Forward.Get.Rotate.{
  IsTaken, Routes, turn_after, taken_count, get_packets_forward_order,
}
use icnprototype.Rm.Forward.Route
use icnprototype.Rm.Forward.Route.{
  Hash, SidOut, populate, find, Memory, Step, renamed, deliver, update_ip, addressed, ipv4_key,
  l3fwd_simple_forward,
}
use icnprototype.Rm.Forward.Route.Tables.{last_of, find-populate_last}
use icnprototype.Rm.Forward.Route.Ports.{IsAllowed, l3fwd_simple_forward-IsAllowed}
use icnprototype.Rm.Tests.Keys.{index_of, list_hash}

abbrev table : MbufTable ℕ
table = record { len = 30; m_table = replicate 32 9 }

abbrev packets : List ℕ
packets = 1 ∷ 2 ∷ 3 ∷ 0 ∷ 0 ∷ 0 ∷ 0 ∷ []

send_packetsx4-Conserves_example :
    (b : Burst ℕ) × (send_packetsx4 1 packets 3 table ≡ some b) × Conserves table (1 ∷ 2 ∷ 3 ∷ []) b
send_packetsx4-Conserves_example =
    send_packetsx4-Conserves 1 packets 3 table (record { entries = refl; room = omega arith })
      (omega arith) (omega arith) (omega arith)

-- The total length is 200 in network order.
abbrev request : Mbuf
request = record {
  data_len = 130;
  pkt_len = 200;
  d_addr = [];
  s_addr = [];
  ip = record {
    version_ihl = 69;
    total_length = 51200;
    time_to_live = 64;
    hdr_checksum = 5;
    src_addr = 7;
    dst_addr = 8;
  };
  get = record { total_len = 0; pids = 0; nid_sid = replicate 16 0; l_sid = replicate 20 0 };
  room = replicate 8 0;
}

request-IsTaken : IsTaken little_endian request
unfolding is_valid_ipv4_pkt swap16
request-IsTaken = record {
  valid = refl;
  headers = omega arith;
  length_fits = omega arith;
  room = omega arith;
}

-- A request that is freed comes between two that are taken.
abbrev before : List Mbuf
before = request ∷ record request { pkt_len = 10 } ∷ request ∷ []

get_packets_forward_order_example :
    (u : Mbuf) × ((get_packets_forward little_endian []
        (turn_after little_endian [] before start)
        request).0
      ≡ some (sent 3 u))
    × Routes little_endian 3 request u
unfolding is_valid_ipv4_pkt swap16 taken_count
get_packets_forward_order_example =
    get_packets_forward_order little_endian [] before request
      (inr request-IsTaken, (inl refl, (inr request-IsTaken, tt))) request-IsTaken

abbrev entries : List (List ℕ × ℕ)
entries = ((1 ∷ []), 10) ∷ ((2 ∷ []), 20) ∷ ((1 ∷ []), 30) ∷ []

abbrev filled : Route.Routes list_hash ℕ
unfolding list_hash
filled = record {
  table = (1 ∷ []) ∷ (2 ∷ []) ∷ [];
  out = λ i. if i == 0 then 30 else if i == 1 then 20 else if i == 0 then 10 else 5;
}

find-populate_last_example : find list_hash filled (1 ∷ []) ≡ some 30
unfolding list_hash filled index_of populate last_of differs
find-populate_last_example = find-populate_last list_hash (λ i. 5) entries filled (1 ∷ []) refl

abbrev no_sids : Route.Routes list_hash SidOut
unfolding list_hash
no_sids = record {
  table = [];
  out = λ i. record { nid_out = []; flag_out = 0; pid_out = 0; ipv4_out = 0 };
}

abbrev one_route : Route.Routes list_hash ℕ
unfolding list_hash
one_route = record { table = ipv4_key 7 ∷ []; out = λ i. 2 }

abbrev memory : Memory
memory = record { bytes_of = λ n. replicate 4 n }

l3fwd_simple_forward-IsAllowed_example :
    IsAllowed 32 4 0 2
    × ((addressed
          ((1 ∷ []) ∷ (2 ∷ []) ∷ (3 ∷ []) ∷ [])
          2
          (update_ip little_endian request 7)).s_addr
        ≡ 3 ∷ [])
unfolding l3fwd_simple_forward renamed deliver is_valid_ipv4_pkt swap16 list_hash no_sids one_route
    index_of differs
l3fwd_simple_forward-IsAllowed_example =
    l3fwd_simple_forward-IsAllowed list_hash little_endian memory 32 4
      ((1 ∷ []) ∷ (2 ∷ []) ∷ (3 ∷ []) ∷ []) no_sids one_route 0 request 2
      (addressed ((1 ∷ []) ∷ (2 ∷ []) ∷ (3 ∷ []) ∷ []) 2 (update_ip little_endian request 7)) refl

abbrev events : List (Event ℕ)
events = enqueue 5 1 ∷ enqueue 20 2 ∷ round 3 5000 ∷ enqueue 7 3 ∷ round 0 9000 ∷ []

live_order_example :
    let after_events = live 1000 (record { table = table; prev_tsc = 100; left = [] }) events in
    after_events.left ++ waiting after_events.table ≡ replicate 30 9 ++ (1 ∷ 2 ∷ 3 ∷ [])
unfolding arrivals
live_order_example =
    live_order 1000 events table 100 (record { entries = refl; room = omega arith })
