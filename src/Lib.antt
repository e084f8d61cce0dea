-- ===== src/Lib.antt =====
-- Verification of ICNPrototype: the resource manager RM, which negotiates path identifiers between
-- domains and forwards data packets, of the monitoring daemon and of the flow generator.
--
-- A domain has a table of its paths to neighbour domains (`nid_ip_nid_ip_nid_array`) and a chain with
-- one node for each neighbour (`head_wxb`), built from the table at the start. Domains agree on new
-- path identifiers by control packets: a `pid_change_request` is answered by `pid_a`, `pid_a` by
-- `pid_b`, `pid_b` by `ack` or by another `pid_a`. On an agreement a domain updates node and table and
-- announces the paths to its routers. For data packets a path is chosen by rotation, at random or by
-- the traffic so far.
--
-- Files and what they model:
--   Rm/Nid       identifiers of domains: RM/wenxingbeng.c, RM/main.c (`compare_nid`, `search`)
--   Rm/Table     the table of paths: RM/wenxingbeng.c (`aligment_configure`), RM/main.c
--                (`find_ip_or_pid`, `update_nid_ip_nid_ip_nid`, `announce_ip_nid_ip`)
--   Rm/Chain     the chain: RM/main.c (`search`, `get_item`, `make_node`,
--                `read_configuration_init_pid_change_wxb`)
--   Rm/Packet    the headers of a control packet: RM/main.c (`pktgen_ctor_...`, `ADD_PID_and_IP`)
--   Rm/Send      the senders: RM/main.c (`send_pid_a`, `send_pid_b`, `send_ack`, ...)
--   Rm/Negotiate the branches of `main_loop` on control packets: RM/main.c
--   Rm/Select    the choice of a path: RM/main.c (`lunxun`, `max_min_utility`, ...)
--   Rm/Forward   data packets: RM/main.c and RM/wenxingbeng.c. Burst: the buffer of packets to send
--                (`send_burst`, `send_single_packet`, `send_packetsx4`, the drain of
--                `main_loop`). Traffic: the counters of the
--                border routers (`get_trap_message`, `data_trap_message`, RM/trap.h). Get: requests
--                (`get_packets_forward`, `ADD_PID`, RM/CoLoR.h). Route: the tables of routes and the
--                forwarding by them (`populate_...`, `get_sid_dst_...`, `l3fwd_simple_forward`)
--   Rm/Loop      the loop of a core, with all its handlers: RM/main.c (`main_loop`)
--   Rm/Config    the start: RM/main.c. The receive queues (`check_port_config`,
--                `init_lcore_rx_queues`, ...) and, in Args, the command line (`parse_args`, ...)
--   Monitor      NetworkMonitoringTools/stats_send_ver_test1: local_timer.c and main.c (Timer),
--                main.c (Processes), list_handle.c (Devices), get_link_stats.c (Rtt, with the
--                operations on `double` as a parameter), local_inform.c
--                (Requests, Inform), local_comm.c (Inform/Answer, Listen), local_sender.c (Sender),
--                trap.c and get_port_info.c (Traps, Capture), mysql_operate.c (Query), dump.c and
--                get_adapter.c (Adapter)
--   Server       the flow generator, server/flow_generator2.c
--
-- Globals are records that a function takes and gives back; an array is a list, a linked list the list
-- of its items, and a node pointer a position in it. Packets that are sent are a list of results. A
-- missing return value, a null pointer that is read and a write outside of an array are `none` or
-- `undefined`. Unsigned numbers are cut to their width where the code lets them wrap round; a number
-- of a text that does not fit an int is `none`.
--
-- The conversions of byte order come from DPDK and libc and are a parameter (Rm/ByteOrder) with their
-- documented laws; so are the tables `rte_hash` (Rm/Forward/Route), `strtoul` and `rte_strsplit`
-- without laws (Rm/Config/Args), and the operations on `double` (Monitor/Rtt/Echo), of which the
-- theorems use the order alone. `rand()`, what `fork`, `kill` and `waitpid` return, the time,
-- `mktime`, what `select` and `recvfrom` give, the contents of fresh memory, the number of packets
-- that the device accepts and whether a file can be written are arguments. The globals of RM are the
-- state of one core: what other cores do to them in between is not modelled.
--
-- The loop of `pid_a` for free identifiers runs on fuel; a fuel of two more than the largest
-- identifier of the table is enough (Rm/Negotiate/Avoid). So do the loop of `parse_config`, for which
-- more than the length of the text is enough (Rm/Config/Args/Fuel), the loops of `sig_func`, for which
-- two more than the number of timers that are past is enough (Monitor/Timer/Signal/Late), the rounds of
-- `get_link_stats`, of which two are enough if 500 is not below 0 (Monitor/Rtt/Echo/Extremes), and the
-- copying loop of `send_packetsx4`, for which the number of packets is enough
-- (Rm/Forward/Burst/Conserve). The other loops are structural.
--
-- Not modelled: the memory pools, ports and hash functions that RM/main.c sets up by calls of DPDK, the
-- IPv6 branch of the forwarding and the functions on four packets that nothing calls, the sockets and
-- files of the monitoring daemon and its calls of the database, the border router, and the client
-- programs, which are input and output or code of other projects.
pub mod Prelude
pub mod Rm
pub mod Monitor
pub mod Server
