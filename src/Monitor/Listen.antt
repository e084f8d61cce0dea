-- ===== src/Monitor/Listen.antt =====
-- The thread of the monitor that takes requests: `parse_timer_message` and `local_listen` of local_comm.c and
-- `thread_local_listen` of main.c, in NetworkMonitoringTools/stats_send_ver_test1. The handler of the
-- signal, which shares the list of timers, does not run in between.
pub mod Orders
pub mod Alarm
use icnprototype.Prelude.{
  ℕ, zero, suc, ◌+◌, ◌/◌, ltb, if◌then◌else◌, List, [], ◌∷◌, ◌++◌, Option, none, some, take,
}
use icnprototype.Prelude.Int.{ℤ}
use icnprototype.Monitor.Requests.{Tm}
use icnprototype.Monitor.Timer.{Timer, TimerMessage, PortInfo, set_child_timer}
use icnprototype.Monitor.Sender.{SendBuf, size_timer_message, ◌>>=◌}
use icnprototype.Monitor.Inform.{Datagram}
use icnprototype.Monitor.Inform.Answer.{Item, parse_inform_message}

-- A datagram by its type: 1, 2, 3 or another number.
pub data Received : Type 0 where
  timers : SendBuf → Received
  ack : ℕ → Received
  get : Datagram → Received
  other : Received

-- The entries that fit `recv_buf`: 8 bytes and 80 for each, of 1024.
abbrev pub max_received : ℕ
max_received = 12

-- The entries of a datagram of so many bytes that can be read: the first 60 bytes, up to `t.tm_isdst`, are there, and
-- in `recv_buf`.
unfoldable pub arrived : ℕ → ℕ
arrived len = if ltb 1024 len then max_received else (len + 12) / size_timer_message

-- What the thread works with besides: the ports, `mktime`, the time when the `i`-th entry of a datagram is read,
-- and the value of `port_num`.
pub record Setting : Type 0 where
  pub port_info : List PortInfo
  pub mktime : Tm → ℕ
  pub now : ℕ → ℕ
  pub port_num : ℤ

-- `count` entries, from the `i`-th on; `none` where an entry is not in the buffer.
pub parse_timer_message :
    Setting → ℕ → ℕ → List (TimerMessage Tm) → List Timer → Option (List Timer)
parse_timer_message s i zero messages head = some head
parse_timer_message s i (suc count) [] head = none
parse_timer_message s i (suc count) (m ∷ messages) head =
    parse_timer_message s (suc i) count messages
      (set_child_timer s.mktime (s.now i) head m s.port_info)

-- What `local_listen` returns.
pub data Ret : Type 0 where
  null : Ret
  head : List Timer → Ret
  ret_ack : ℕ → Ret
  inform_data : List Item → Ret

-- The number that it leaves in `type`, and its result. Another type is not written down.
pub local_listen : Setting → Received → ℕ → List Timer → Option (ℕ × Ret)
unfolding parse_timer_message arrived
local_listen s (timers buf) type timer_info =
    parse_timer_message s 0 buf.count (take (arrived buf.send_len) buf.timer_message) timer_info
    >>= λ l. some (1, head l)
local_listen s (ack n) type timer_info = some (2, ret_ack n)
local_listen s (get d) type timer_info =
    parse_inform_message s.port_num d >>= λ out. some (3, inform_data out)
local_listen s other type timer_info = some (type, null)

pub record Listener : Type 0 where
  pub type : ℕ
  pub timer_info : List Timer
  pub answers : List (List Item)

abbrev pub as_timers : Ret → List Timer
as_timers (head l) = l
as_timers _ = []

-- The `sendto` of a null pointer fails.
abbrev pub as_answer : Ret → List (List Item)
as_answer (inform_data out) = out ∷ []
as_answer _ = []

-- The switch on `type`.
pub after : ℕ → Ret → Listener → Listener
after (suc zero) ret l = record l { type = 1; timer_info = as_timers ret }
after (suc (suc (suc zero))) ret l = record l { type = 3; answers = l.answers ++ as_answer ret }
after type ret l = record l { type = type }

-- A round of the loop.
unfoldable pub listen : Setting → Listener → Received → Option Listener
unfolding local_listen after
listen s l r =
    local_listen s r l.type l.timer_info >>= λ (result : ℕ × Ret). some (after result.0 result.1 l)

unfoldable pub listen_all : Setting → Listener → List Received → Option Listener
unfolding listen
listen_all s l [] = some l
listen_all s l (r ∷ rs) = listen s l r >>= λ next. listen_all s next rs

abbrev pub listening : Listener
listening = record { type = 0; timer_info = []; answers = [] }
