-- ===== src/Monitor/Processes.antt =====
-- The processes of the ports: `port_child_proc`, `port_kill_proc` and the loop of `main` that waits for
-- them, in main.c, with `timer_proc_launch` and `timer_proc_end` of local_timer.c, all in
-- NetworkMonitoringTools/stats_send_ver_test1. What `fork`, `kill` and `waitpid` return are arguments.
pub mod Counted
pub mod Lost
use icnprototype.Prelude.{
  ℕ, zero, suc, ◌+◌, ◌==◌, Bool, true, false, not, ◌&&◌, List, [], ◌∷◌, Option, none, some,
  replicate, get_or, set, if◌then◌else◌,
}
use icnprototype.Prelude.Int.{ℤ, pos, ◌+ℤ◌, ◌-ℤ◌}

-- A process number of 0 stands for no process.
pub record Children : Type 0 where
  pub port_child_pid : List ℕ
  pub child_count : ℤ

-- `exits`: the monitor ends itself. `killed`: it is among the processes that it kills. `stuck`: `kill` never
-- returns 0. `spinning`: the loop would be told of a process, but stays in `while(!child_count);` before that.
pub data Outcome : Type 0 where
  running : Children → Outcome
  spinning : Outcome
  exits : Outcome
  killed : Outcome
  stuck : Outcome

infixl 20 ◌>>=◌
abbrev pub ◌>>=◌ : Outcome → (Children → Outcome) → Outcome
running c >>= f = f c
spinning >>= f = spinning
exits >>= f = exits
killed >>= f = killed
stuck >>= f = stuck

-- `none` is a `fork` that fails.
unfoldable pub port_child_proc : ℕ → Option ℕ → Children → Outcome
port_child_proc i none c = exits
port_child_proc i (some pid) c =
    running
      (record { port_child_pid = set c.port_child_pid i pid; child_count = c.child_count +ℤ pos 1 })

-- `while(ret) ret = kill(...)`, with what the calls return.
unfoldable pub kills_end : List ℕ → Bool
kills_end [] = false
kills_end (ret ∷ rets) = if ret == 0 then true else kills_end rets

-- `kill` with the number 0 is for all processes of the group, the monitor's own with them.
pub port_kill_proc : ℕ → List ℕ → Children → Outcome
unfolding kills_end
port_kill_proc i rets c =
    if get_or c.port_child_pid i 0 == 0
    then killed
    else if kills_end rets
    then running
        (record { port_child_pid = set c.port_child_pid i 0; child_count = c.child_count -ℤ pos 1 })
    else stuck

-- What `waitpid` tells of a process. `signaled` is its end by signal 9, `abnormal` by another signal.
pub data Status : Type 0 where
  stopped : Status
  exited : Status
  signaled : Status
  abnormal : Status

-- The search for `pid_child`, from the port `i` on.
pub find_child_from : ℕ → ℕ → List ℕ → Option ℕ
find_child_from i pid [] = none
find_child_from i pid (p ∷ ps) =
    if not (p == 0) && p == pid then some i else find_child_from (i + 1) pid ps

unfoldable pub find_child : ℕ → List ℕ → Option ℕ
unfolding find_child_from
find_child pid ps = find_child_from 0 pid ps

-- A process that `waitpid` tells of, and what `kill` and `fork` return where they are called then. The
-- `waitpid` behind `port_kill_proc` changes no variable.
pub record Report : Type 0 where
  pub status : Status
  pub pid_child : ℕ
  pub rets : List ℕ
  pub fork : Option ℕ

-- The branches on the status, with the port that was found.
pub handle : Status → Option ℕ → Report → Children → Outcome
unfolding port_child_proc port_kill_proc
handle stopped none r c = running c
handle stopped (some i) r c = port_kill_proc i r.rets c >>= port_child_proc i r.fork
handle exited none r c = running c
handle exited (some i) r c = running (record c { port_child_pid = set c.port_child_pid i 0 })
handle signaled port r c = running c
handle abnormal none r c = running c
handle abnormal (some i) r c = port_child_proc i r.fork c

-- A round of the loop behind `while(!child_count);`.
unfoldable pub round : Report → Children → Outcome
unfolding handle find_child
round r c =
    handle r.status (find_child r.pid_child c.port_child_pid) r
      (record c { child_count = c.child_count -ℤ pos 1 })

abbrev pub is_zero_count : ℤ → Bool
is_zero_count (pos n) = n == 0
is_zero_count _ = false

-- `waitpid` tells of a process, or a timer launches or ends the process of a port; the handler of the signal is
-- taken to run before a wait.
pub data Event : Type 0 where
  told : Report → Event
  timer_launch : ℕ → Option ℕ → Event
  timer_end : ℕ → List ℕ → Event

-- The loop through the events, in their order. Where `child_count` is 0 it spins and is told of nothing, until a
-- timer changes the counter.
pub supervise : List Event → Children → Outcome
unfolding round port_child_proc port_kill_proc
supervise [] c = running c
supervise (told r ∷ es) c =
    if is_zero_count c.child_count then spinning else round r c >>= supervise es
supervise (timer_launch i fork ∷ es) c = port_child_proc i fork c >>= supervise es
supervise (timer_end i rets ∷ es) c = port_kill_proc i rets c >>= supervise es

-- The start: a process for each of `port_count` ports, from the port `i` on.
pub launch_from : ℕ → List (Option ℕ) → Children → Outcome
unfolding port_child_proc
launch_from i [] c = running c
launch_from i (fork ∷ forks) c = port_child_proc i fork c >>= launch_from (suc i) forks

abbrev pub no_children : Children
no_children = record { port_child_pid = replicate 64 0; child_count = pos 0 }
