-- ===== src/Monitor/Tests/Sources.antt =====
-- Traps, captured frames, signals and stored rows on small inputs.
use icnprototype.Prelude.{ℕ, ◌≡◌, refl, true, false, [], ◌∷◌, none, some, inl, inr, arith}
use icnprototype.Prelude.Int.{pos}
use icnprototype.Monitor.Timer.{Timer, timer_proc_launch}
use icnprototype.Monitor.Timer.Signal.{fire, handled, undefined, set_elapse, sig_func}
use icnprototype.Monitor.Timer.Signal.Late.{sig_func_late, sig_func_null}
use icnprototype.Monitor.Traps.{Watch, link_up, link_down, watch_port, at_start}
use icnprototype.Monitor.Traps.Bandwidth.{IsTracked, watch_port-IsTracked}
use icnprototype.Monitor.Capture.{Frame, capture, no_stats}
use icnprototype.Monitor.Capture.Totals.{AreBalanced, capture-AreBalanced}
use icnprototype.Monitor.Requests.{Tm}
use icnprototype.Rm.ByteOrder.{little_endian}
use icnprototype.Rm.Select.{Ports}
use icnprototype.Rm.Forward.Burst.{MbufTable, send_single_packet}
use icnprototype.Rm.Forward.Traffic.{
  TrapGetHeader, trap_hello_nid, get_trap_message, data_trap_message,
}
use icnprototype.Rm.Forward.Traffic.Counters.{answer_of, counter_of}
use icnprototype.Monitor.Traps.Messages.{
  TrapMessage, TrapHelloPkg, TrapDataPkg, send_trap_hello, thread_parse_trap,
}
use icnprototype.Monitor.Traps.Messages.Exchange.{as_get, as_data, answered, trap_exchange}

watch_port-IsTracked_example :
    (w : Watch) × (watch_port 0 20 80
        (at_start [])
        (link_up (some 90) true ∷ link_down true false ∷ link_up (some 10) true ∷ [])
      ≡ some w)
    × IsTracked w
watch_port-IsTracked_example =
    watch_port-IsTracked 20 80 []
      (link_up (some 90) true ∷ link_down true false ∷ link_up (some 10) true ∷ [])

abbrev frame : ℕ → Frame
frame size = record {
  ether_shost = 1 ∷ 2 ∷ 3 ∷ 4 ∷ 5 ∷ 6 ∷ [];
  payload = 161 ∷ [];
  size_received = size;
}

capture-AreBalanced_example :
    AreBalanced (
      capture (1 ∷ 2 ∷ 3 ∷ 4 ∷ 5 ∷ 6 ∷ []) (some (frame 60) ∷ none ∷ some (frame 70) ∷ []) no_stats)
capture-AreBalanced_example =
    capture-AreBalanced (1 ∷ 2 ∷ 3 ∷ 4 ∷ 5 ∷ 6 ∷ []) (some (frame 60) ∷ none ∷ some (frame 70) ∷ [])

abbrev timer_at : ℕ → ℕ → Timer
timer_at id time = record {
  timer_id = id;
  flag = 0;
  elapse = pos 0;
  time = time;
  timer_proc = timer_proc_launch;
}

sig_func_late_example :
    sig_func 4 25 (timer_at 0 10 ∷ timer_at 1 20 ∷ timer_at 2 30 ∷ [])
    ≡ handled
        (fire (timer_at 0 10) ∷ fire (timer_at 1 20) ∷ [])
        (set_elapse 25 (timer_at 2 30) ∷ [])
sig_func_late_example =
    sig_func_late 4 25 (timer_at 0 10 ∷ timer_at 1 20 ∷ []) (timer_at 2 30) []
      (omega arith, (omega arith, tt)) (omega arith) (omega arith)

sig_func_null_example : sig_func 4 25 (timer_at 0 10 ∷ timer_at 1 20 ∷ []) ≡ undefined
sig_func_null_example =
    sig_func_null 4 25 (timer_at 0 10) (timer_at 1 20 ∷ []) (omega arith, (omega arith, tt))
      (omega arith)

abbrev at_day : ℕ → Tm
at_day day = record {
  tm_sec = pos 6;
  tm_min = pos 5;
  tm_hour = pos 4;
  tm_mday = pos day;
  tm_mon = pos 2;
  tm_year = pos 2017;
}

abbrev trap_pc4 : TrapMessage
trap_pc4 = record {
  trap_sbd = record { trap_nid = trap_hello_nid b'4'; port_ip = 7 ∷ [] };
  trap_type = 1;
  port1_data = pos 0;
  port2_data = pos 0;
}

abbrev no_traffic : Ports
no_traffic = record { pc3_port = pos 0; pc4_port = pos 0; pc5_port = pos 0 }

abbrev idle_table : MbufTable TrapGetHeader
idle_table = record { len = 0; m_table = [] }

abbrev hello_pc4 : TrapHelloPkg
hello_pc4 = send_trap_hello little_endian (5 ∷ []) trap_pc4

abbrev answer_pc4 : TrapGetHeader
answer_pc4 = answer_of ((1 ∷ []) ∷ (2 ∷ []) ∷ []) (as_get hello_pc4) 1

trap_exchange_example :
    (get_trap_message 0 ((1 ∷ []) ∷ (2 ∷ []) ∷ []) (as_get hello_pc4) idle_table
      ≡ send_single_packet 0 answer_pc4 idle_table)
    × ((p : TrapDataPkg) × (thread_parse_trap little_endian
            (5 ∷ [])
            (some (pos 99))
            (b'p' ∷ b'c' ∷ b'-' ∷ b'4' ∷ [])
            []
            (answered hello_pc4 answer_pc4)
          ≡ some p)
        × ((data_trap_message no_traffic (as_data p)).1 ≡ true)
        × (counter_of b'4' (data_trap_message no_traffic (as_data p)).0 ≡ pos 99))
trap_exchange_example =
    trap_exchange little_endian (5 ∷ []) (pos 99) [] trap_pc4 0 ((1 ∷ []) ∷ (2 ∷ []) ∷ [])
      idle_table no_traffic b'4' (inr (inl refl)) refl
