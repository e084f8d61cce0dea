-- ===== src/Monitor/Traps.antt =====
-- Traps of the monitoring daemon, the reports that a port needs attention: the `TRAP_...` bits of
-- trap.h, `choose_port`, `trap_port_set` and `trap_state_mark` of trap.c, and `trap_send_proc` and the
-- loop of `get_port_info` in get_port_info.c, all in NetworkMonitoringTools/stats_send_ver_test1.
pub mod Ports
pub mod Bandwidth
pub mod Messages
use Prim.Native.Nat.{bit_and, bit_xor}
use icnprototype.Prelude.{
  ℕ, zero, suc, ◌+◌, ◌==◌, ◌&&◌, ◌||◌, not, Bool, true, false, List, [], ◌∷◌, ◌++◌, Option, none,
  some, ltb, if◌then◌else◌,
}
use icnprototype.Monitor.Timer.{same_string}
use icnprototype.Monitor.Devices.{PortState}

abbrev pub trap_connection : ℕ
trap_connection = 1

abbrev pub trap_bandwidth_high : ℕ
trap_bandwidth_high = 2

abbrev pub trap_bandwidth_low : ℕ
trap_bandwidth_low = 4

abbrev pub trap_linkconnect : ℕ
trap_linkconnect = 8

-- The first port of the lowest level below 2; `p` is what the caller passes.
unfoldable pub choose_from : PortState → List PortState → PortState
choose_from p [] = p
choose_from p (port ∷ ports) =
    choose_from
      (if ltb port.trap_level p.trap_level
        then record p { trap_level = port.trap_level; dev_name = port.dev_name }
        else p)
      ports

pub choose_port : List PortState → PortState → PortState
choose_port ports p = choose_from (record p { trap_level = 2 }) ports

-- `struct PORT_TRAP_STATE`
pub record PortTrapState : Type 0 where
  pub trap_flag : ℕ
  pub port_ip : List ℕ
  pub trap_state : ℕ

pub trap_port_set : PortTrapState → ℕ → PortTrapState
trap_port_set pts state = record pts { trap_flag = 1; trap_state = bit_xor pts.trap_state state }

unfoldable pub level_of : ℕ → ℕ
level_of trap_state =
    if not (bit_and trap_state trap_connection == 0)
      || not (bit_and trap_state trap_linkconnect == 0)
    then 2
    else if trap_state == 0
    then 0
    else 1

pub trap_state_mark : PortState → ℕ → PortState
trap_state_mark port state =
    let trap_state = bit_xor port.trap_state state in
    record port { trap_state = trap_state; trap_level = level_of trap_state }

-- What `trap_send_proc` does: the trap's file is written, and a hello packet is sent.
pub data Report : Type 0 where
  trap_file : ℕ → Report
  trap_hello : ℕ → Report

abbrev own_ip : List ℕ
own_ip = b'1' ∷ b'0' ∷ b'.' ∷ b'1' ∷ b'0' ∷ b'.' ∷ b'1' ∷ b'1' ∷ b'.' ∷ b'1' ∷ []

-- `written` tells whether `write_trap_file` succeeds.
pub trap_send_proc : Bool → PortTrapState → PortTrapState × List Report
trap_send_proc written pts =
    if written
    then (
      record pts { trap_flag = 0 },
      trap_file pts.trap_state
          ∷ (if same_string pts.port_ip own_ip then [] else trap_hello pts.trap_state ∷ []),
    )
    else (pts, [])

-- The variables of `get_port_info` that its loop keeps. (`port_comm` is 0 throughout, so the loop never
-- calls `trap_state_mark`.)
pub record Watch : Type 0 where
  pub pts : PortTrapState
  pub bandwidth_trap_flag : ℕ

abbrev pub set_flag : Watch → ℕ → ℕ → Watch
unfolding trap_port_set
set_flag w state flag = record { pts = trap_port_set w.pts state; bandwidth_trap_flag = flag }

-- The `switch` on `bandwidth_trap_flag`; `low` and `high` are the thresholds. The measured efficiency
-- is a float, which the code only compares; here it is a number on some scale.
pub watch_bandwidth : ℕ → ℕ → ℕ → Watch → Watch
watch_bandwidth low high efficiency w =
    if w.bandwidth_trap_flag == 0
    then (if ltb high efficiency
        then set_flag w trap_bandwidth_high 1
        else if ltb efficiency low
        then set_flag w trap_bandwidth_low 2
        else w)
    else if w.bandwidth_trap_flag == 1
    then (if ltb efficiency high
        then (if ltb efficiency low
            then set_flag (set_flag w trap_bandwidth_high 0) trap_bandwidth_low 2
            else set_flag w trap_bandwidth_high 0)
        else w)
    else if w.bandwidth_trap_flag == 2
    then (if ltb low efficiency
        then (if ltb high efficiency
            then set_flag (set_flag w trap_bandwidth_low 0) trap_bandwidth_high 1
            else set_flag w trap_bandwidth_low 0)
        else w)
    else w

-- One round of the loop finds the link up, with a bandwidth (`fdump_speed` gave one) or without, or
-- down; in that case the round lasts until the link is up again. With them, whether the trap's file
-- can be written, each time that it is.
pub data Round : Type 0 where
  link_up : Option ℕ → Bool → Round
  link_down : Bool → Bool → Round

abbrev pub send : Bool → Watch → Watch × List Report
unfolding trap_send_proc
send written w =
    let (pts, reports) = trap_send_proc written w.pts in (record w { pts = pts }, reports)

abbrev pub toggle : ℕ → Watch → Watch
unfolding trap_port_set
toggle state w = record w { pts = trap_port_set w.pts state }

-- The variable `ret` is never set in the loop; with another value than 0 the loop around the write to
-- the database, on a link that is down, does not end (`none`), as `rewrite_flag` stays 3.
pub watch_round : ℕ → ℕ → ℕ → Watch → Round → Option (Watch × List Report)
unfolding watch_bandwidth
watch_round ret low high w (link_up none written) = some (send written w)
watch_round ret low high w (link_up (some efficiency) written) =
    some (send written (watch_bandwidth low high efficiency w))
watch_round ret low high w (link_down written written') =
    let (w', reports) = send written (toggle trap_connection w) in
    if ret == 0
    then (let (w'', reports') = send written' (toggle trap_connection w') in
        some (w'', reports ++ reports'))
    else none

abbrev pub then_watch : Option (Watch × List Report) → (Watch → Option Watch) → Option Watch
then_watch none f = none
then_watch (some r) f = f r.0

pub watch_port : ℕ → ℕ → ℕ → Watch → List Round → Option Watch
unfolding watch_round
watch_port ret low high w [] = some w
watch_port ret low high w (round ∷ rounds) =
    then_watch (watch_round ret low high w round) (λ w'. watch_port ret low high w' rounds)

-- The variables at the start of the loop.
abbrev pub at_start : List ℕ → Watch
at_start ip = record {
  pts = record { trap_flag = 0; port_ip = ip; trap_state = 0 };
  bandwidth_trap_flag = 0;
}
