-- ===== src/Monitor/Tests.antt =====
-- The monitoring daemon on small inputs.
mod Sources
mod Requests
mod Inform
mod Echo
use icnprototype.Prelude.{ℕ, ◌+◌, ◌<◌, ◌%◌, ◌≡◌, refl, List, [], ◌∷◌, some, arith}
use icnprototype.Prelude.Int.{pos}
use icnprototype.Monitor.Timer.{Timer, timer_proc_launch, del_a_timer}
use icnprototype.Monitor.Timer.Insert.{IsSortedFrom, insert_a_timer-IsSorted}
use icnprototype.Monitor.Timer.Delete.{IsAbsent, del_a_timer_found, del_a_timer_missing}
use icnprototype.Monitor.Devices.{
  DestInfo, PortState, PortIndex, add_dest_node, add_state_node, display_state_list,
  search_port_index,
}
use icnprototype.Monitor.Devices.Lists.{
  any, index_from, search-display, add_dest_node_lem, add_state_node_lem,
}
use icnprototype.Monitor.Requests.{insert_time}
use icnprototype.Monitor.Requests.Times.{time_text, insert_time_lem}
use icnprototype.Monitor.Rtt.{sum_words, cal_chksum, tv_sub}
use icnprototype.Monitor.Rtt.Laws.{AreBytes, at_time, cal_chksum_lem, tv_sub_lem}

abbrev timer : ℕ → ℕ → Timer
timer id time = record {
  timer_id = id;
  flag = 0;
  elapse = pos 0;
  time = time;
  timer_proc = timer_proc_launch;
}

abbrev timers : List Timer
timers = timer 0 10 ∷ timer 1 20 ∷ timer 2 30 ∷ []

abbrev device : List ℕ → PortState
device name = record { dev_name = name; trap_level = 3; trap_state = 4 }

search-display_example :
    (new : PortIndex) × (display_state_list
        (device (1 ∷ []) ∷ [])
        (record { port_count = 0; port = device [] ∷ [] })
      ≡ some new)
    × (search_port_index new (1 ∷ []) ≡ index_from 0 (device (1 ∷ []) ∷ []) (1 ∷ []))
search-display_example =
    search-display (device (1 ∷ []) ∷ []) (record { port_count = 0; port = device [] ∷ [] })
      (1 ∷ []) refl (omega arith)

abbrev peer : ℕ → DestInfo ℕ
peer last = record {
  linkloss_trap_flag = 1;
  linkdelay_trap_flag = 1;
  dest_ip = last ∷ [];
  link_stats = 0;
}
