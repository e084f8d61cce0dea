-- ===== src/Rm/Tests/Exchange.antt =====
-- An exchange between the two domains.
use Prim.Native.Nat.{bit_and}
use icnprototype.Rm.Packet.{Mbuf, control_packet_pid, option_kind_mask}
use icnprototype.Prelude.{
  ℕ, ap, ◌≤◌, length, length-replicate, replicate, List, ◌+◌, ◌^◌, ◌<◌, ◌%◌, ◌≡◌, ◌↔◌, refl, true,
  false, [], ◌∷◌, some, arith, get_or,
}
use icnprototype.Rm.Nid.{Nid, same_nid, compare_nid}
use icnprototype.Rm.ByteOrder.{little_endian, swap32, swap32-lt}
use icnprototype.Rm.Chain.{search}
use icnprototype.Rm.Chain.Init.Paths.{path_pids}
use icnprototype.Rm.Table.Path.{update_nid_ip_nid_ip_nid, announce_ip_nid_ip}
use icnprototype.Rm.Table.Path.Update.{update_pids}
use icnprototype.Rm.Table.Path.Announce.{announcements, routers, announce_ip_nid_ip_lem}
use icnprototype.Rm.Negotiate.{
  Outcome, on_control, on_pid_a, avoid, clash, in_table, read_words, in_use, any_member, member,
}
use icnprototype.Rm.Negotiate.Invariant.{IsInStep}
use icnprototype.Rm.Chain.Init.{
  Build, read_configuration_init_pid_change_wxb, add_rows, add_row, add_path, add_node, new_node,
}
use icnprototype.Rm.Negotiate.Run.{Arrival, state_of, run, run_from_start}
use icnprototype.Rm.Send.{fits_room}
use icnprototype.Rm.Negotiate.Answers.{on_pid_a_answer}
use icnprototype.Rm.Negotiate.Exchange.{Agreed, exchange_agrees}
use icnprototype.Rm.Negotiate.Avoid.{moved_by, AreFree, avoid_ends}
use icnprototype.Rm.Negotiate.Unique.{AreNew, all_used, in_use_iff}
use icnprototype.Prelude.Int.{pos}
use icnprototype.Rm.Select.{start}
use icnprototype.Rm.Forward.Traffic.{TrapGetHeader}
use icnprototype.Rm.Forward.Get.{Mbuf as GetMbuf}
use icnprototype.Rm.Loop.{
  Core, Packet, Event, received, round, main_loop, core_of, after_control, nothing,
}
use icnprototype.Rm.Loop.Sound.{IsSound, main_loop-IsSound}
use icnprototype.Rm.Tests.{
  domain_a, domain_b, route_a, node, node', state_a, state_b, junk, locals, locals-IsSized,
  state_a-IsInStep, state_b-IsInStep, a-IsNeighbour, b-IsNeighbour, message, message-IsMessage,
}

message_word : get_or message.body 0 0 < 2 ^ 32
message_word = rw message-IsMessage.words_eq (swap32-lt 33 (omega arith))

candidates :
    avoid 200 (5 % 101 + 1) state_a.table (read_words little_endian message.body 1 1)
    ≡ some (43 ∷ [])
unfolding avoid clash in_table read_words swap32
candidates = rw message-IsMessage.words_eq refl

unused : in_use (43 ∷ []) state_b.head ≡ false
unfolding in_use any_member member
unused = refl

exchange_agrees_example :
    Agreed little_endian domain_a domain_b junk junk 0 0 0 0 0 0 200 state_a state_b locals locals
      message 5 6
      (43 ∷ [])
exchange_agrees_example =
    exchange_agrees little_endian domain_a domain_b junk junk 0 0 0 0 0 0 200 state_a state_b locals
      locals message 5 6 0 0 (swap32 40) (swap32 40) (swap32 10) (swap32 20) (node domain_b)
      (node domain_a) (43 ∷ []) message-IsMessage.source message_word a-IsNeighbour b-IsNeighbour
      refl state_a-IsInStep state_b-IsInStep locals-IsSized candidates (omega arith, tt) unused

avoid_ends_example :
    (d : ℕ) × (avoid 60 6 (route_a ∷ []) (34 ∷ []) ≡ some (moved_by d (34 ∷ [])))
    × AreFree (moved_by d (34 ∷ [])) (route_a ∷ [])
avoid_ends_example =
    avoid_ends 60 50 6 (route_a ∷ []) (34 ∷ []) (omega arith) (omega arith, tt) (omega arith, tt)
      (omega arith) (omega arith) (omega arith)

in_use_iff_example :
    (in_use (40 ∷ []) state_a.head ≡ false) ↔ AreNew (40 ∷ []) (all_used state_a.head)
in_use_iff_example = in_use_iff (40 ∷ []) state_a.head

update_pids_example :
    path_pids domain_a domain_b (update_nid_ip_nid_ip_nid domain_a (node' domain_b) (route_a ∷ []))
    ≡ 43 ∷ []
unfolding same_nid compare_nid
update_pids_example =
    update_pids domain_a (node' domain_b) domain_b (route_a ∷ []) (omega arith) (omega arith)

announce_ip_nid_ip_lem_example :
    announce_ip_nid_ip little_endian domain_a junk (node domain_b) (route_a ∷ [])
    ≡ announcements little_endian domain_a junk domain_b (swap32 route_a.ip1 ∷ []) (route_a ∷ [])
unfolding same_nid compare_nid routers
announce_ip_nid_ip_lem_example =
    announce_ip_nid_ip_lem little_endian domain_a junk (node domain_b) (route_a ∷ []) (omega arith)
      (omega arith) refl refl

-- The start of the first domain, and the handling of the packet.
abbrev built : Build
built = record { head = state_a.head; last_point = some 0; counter = 1 }

starts :
    read_configuration_init_pid_change_wxb domain_a (λ k. replicate 20 k) (route_a ∷ [])
    ≡ some built
unfolding read_configuration_init_pid_change_wxb add_rows add_row add_path add_node new_node search
    same_nid compare_nid
starts = refl

few : (e : Nid) → length (path_pids domain_a e (route_a ∷ [])) ≤ 20
few e = ground arith

abbrev arrivals : List Arrival
arrivals = record { loc = locals; packet = message; random = 5 } ∷ []

dispatched :
    (m : Mbuf) (o : Outcome)
    → m.ctl.controltype ≡ control_packet_pid
    → bit_and m.ctl.option option_kind_mask ≡ 0x10
    → on_pid_a little_endian domain_a junk 0 0 0 200 state_a locals m 5 ≡ o
    → on_control little_endian domain_a junk 0 0 0 200 state_a locals m 5 ≡ o
unfolding on_control
dispatched m o c k h = rw (c, k) h

fits : fits_room (node domain_b).number_pid ≡ true
unfolding fits_room
fits = refl

handled : run little_endian domain_a junk 0 0 0 200 (some state_a) arrivals ≡ some state_a
unfolding run
handled =
    ap (λ o. run little_endian domain_a junk 0 0 0 200 (state_of o) [])
      (dispatched message _ message-IsMessage.control message-IsMessage.kind_bits (
        on_pid_a_answer little_endian domain_a junk 0 0 0 200 state_a locals message 5 0 (swap32 40)
          (swap32 10) (node domain_b) (43 ∷ []) (rw message-IsMessage.source a-IsNeighbour)
          candidates fits))

run_from_start_example : IsInStep domain_a state_a
run_from_start_example =
    run_from_start little_endian domain_a junk 0 0 0 200 (λ k. replicate 20 k)
      (λ k. length-replicate 20 k) (route_a ∷ []) built arrivals state_a (omega arith) few starts
      (locals-IsSized, tt) handled

abbrev no_trap : TrapGetHeader
no_trap = record { ether_shost = []; version_type = 69; sid = []; nid = [] }

abbrev no_request : GetMbuf
no_request = record {
  data_len = 0;
  pkt_len = 0;
  d_addr = [];
  s_addr = [];
  ip = record {
    version_ihl = 0;
    total_length = 0;
    time_to_live = 0;
    hdr_checksum = 0;
    src_addr = 0;
    dst_addr = 0;
  };
  get = record { total_len = 0; pids = 0; nid_sid = []; l_sid = [] };
  room = [];
}

-- A core with a port, and the packet as it is received there in a round.
abbrev core : Core
core = record {
  state = state_a;
  turn = start;
  ports = record { pc3_port = pos 0; pc4_port = pos 0; pc5_port = pos 0 };
  tx_mbufs = record { len = 0; m_table = replicate 32 no_trap } ∷ [];
  prev_tsc = 100;
}

abbrev packet : Packet
packet = record {
  trap = no_trap;
  data_trap = record { version_type = 69; sid = []; nid = []; port1 = pos 0 };
  is_ipv4 = true;
  ver_type = 0xa3;
  get = no_request;
  control = message;
}

abbrev events : List Event
events = round (1 ∷ []) 150 ∷ received 0 packet locals 5 1 ∷ []

looped : main_loop little_endian domain_a junk [] 0 0 200 1000 (some core) events ≡ some core
unfolding main_loop
looped =
    ap
      (λ o.
        main_loop little_endian domain_a junk [] 0 0 200 1000
          (core_of (after_control little_endian domain_a junk [] 0 0 200 1000 core nothing o)) [])
      (dispatched message _ message-IsMessage.control message-IsMessage.kind_bits (
        on_pid_a_answer little_endian domain_a junk 0 0 0 200 state_a locals message 5 0 (swap32 40)
          (swap32 10) (node domain_b) (43 ∷ []) (rw message-IsMessage.source a-IsNeighbour)
          candidates fits))

main_loop-IsSound_example : IsSound domain_a core
main_loop-IsSound_example =
    main_loop-IsSound little_endian domain_a junk [] 0 0 200 1000 events core core
      (record {
        in_step = state_a-IsInStep;
        all_open = (record { entries = refl; room = omega arith }, tt);
      })
      (locals-IsSized, tt) looped
