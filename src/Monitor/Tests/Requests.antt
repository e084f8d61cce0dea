-- ===== src/Monitor/Tests/Requests.antt =====
-- Processes, requests for timers and requests for data on small inputs.
use icnprototype.Prelude.{ℕ, ◌+◌, ◌≡◌, refl, [], ◌∷◌, some, none, map, replicate, arith}
use icnprototype.Prelude.Int.{pos, pos_part}
use icnprototype.Monitor.Processes.{
  Children, told, timer_end, Report, stopped, abnormal, signaled, port_child_proc, find_child,
  kills_end, round,
}
use icnprototype.Monitor.Processes.Counted.{procs, IsCounted, here, launch, wait, Orderly-IsCounted}
use icnprototype.Monitor.Processes.Lost.{Spins, stop_hangs, end_hangs}
use icnprototype.Monitor.Timer.{
  Timer, Proc, timer_proc_launch, timer_proc_end, set_child_timer, set_timer_id, timer_id_from,
  insert_a_timer, step, walk,
}
use icnprototype.Monitor.Timer.Insert.{IsSortedFrom, schedule}
use icnprototype.Monitor.Sender.{SendBuf, send, ◌>>=◌}
use icnprototype.Monitor.Sender.Written.{Line, line_text, message_of}
use icnprototype.Monitor.Listen.{
  arrived, Setting, Listener, listening, listen, listen_all, timers, ack,
}
use icnprototype.Monitor.Listen.Orders.{set_all, listen-send, listen_all-IsSorted}
use icnprototype.Monitor.Listen.Alarm.{behind, before, listen-alarm}
use icnprototype.Monitor.Timer.Signal.{sig_func, fire, handled, set_elapse}

abbrev report : ℕ → Report
report pid = record { status = abnormal; pid_child = pid; rets = 0 ∷ []; fork = some 78 }

abbrev one_child : Children
one_child = record { port_child_pid = 77 ∷ 0 ∷ []; child_count = pos 1 }

Orderly-IsCounted_example :
    IsCounted (record { port_child_pid = 78 ∷ replicate 63 0; child_count = pos 1 })
unfolding round find_child port_child_proc
Orderly-IsCounted_example = Orderly-IsCounted (
    wait (launch here 0 77 refl (omega arith) refl) (report 77) 0 refl (78, refl, omega arith) refl)

abbrev stop : Report
stop = record { status = stopped; pid_child = 77; rets = 4 ∷ 0 ∷ []; fork = some 78 }

stop_hangs_example :
    (d : Children) × Spins (told stop ∷ []) one_child d (report 78) 1 80 (told (report 80) ∷ [])
unfolding find_child kills_end procs
stop_hangs_example =
    stop_hangs stop (report 78) one_child 0 78 1 80 (told (report 80) ∷ [])
      (record { counted = refl }) refl refl refl refl refl (omega arith) refl (omega arith)

abbrev two_children : Children
two_children = record { port_child_pid = 77 ∷ 79 ∷ 0 ∷ []; child_count = pos 2 }

abbrev killed_report : Report
killed_report = record { status = signaled; pid_child = 79; rets = []; fork = none }

end_hangs_example :
    (d : Children) × Spins
      (timer_end 1 (0 ∷ []) ∷ told killed_report ∷ [])
      two_children
      d
      (report 77)
      2
      80
      []
unfolding kills_end procs
end_hangs_example =
    end_hangs killed_report (report 77) two_children 1 79 2 80 (0 ∷ []) []
      (record { counted = refl }) refl refl (omega arith) refl refl refl (omega arith)

abbrev setting : Setting
setting = record {
  port_info = record { port_type = 1; dev_ip = b'9' ∷ [] } ∷ [];
  mktime = λ t. pos_part t.tm_sec + 35;
  now = λ i. 20;
  port_num = pos 0;
}

-- `0 9 2015/6/10,21:15:15`
abbrev line : Line
line = record {
  flag = 0;
  ip = b'9' ∷ [];
  year = 2 ∷ 0 ∷ 1 ∷ 5 ∷ [];
  mon = 6 ∷ [];
  mday = 1 ∷ 0 ∷ [];
  hour = 2 ∷ 1 ∷ [];
  min = 1 ∷ 5 ∷ [];
  sec = 1 ∷ 5 ∷ [];
}

listen-send_example :
    (send (map line_text (line ∷ [])) >>= λ buf. listen setting listening (timers buf))
    ≡ some (record listening {
      type = 1;
      timer_info = set_all setting 0 (map message_of (line ∷ [])) [];
    })
listen-send_example =
    listen-send setting listening line []
      (
        record {
          one_digit = omega arith;
          text = (omega arith, omega arith, omega arith, tt);
          short = omega arith;
          years = record { digits = omega arith; fits = omega arith };
          mons = record { digits = omega arith; fits = omega arith };
          mdays = record { digits = omega arith; fits = omega arith };
          hours = record { digits = omega arith; fits = omega arith };
          mins = record { digits = omega arith; fits = omega arith };
          secs = record { digits = omega arith; fits = omega arith };
          whole = omega arith;
        },
        tt,
      )
      (omega arith)

abbrev no_timers : SendBuf
no_timers = record { count = 0; timer_message = []; send_len = 4 }

abbrev one_timer : SendBuf
one_timer = record { count = 1; timer_message = message_of line ∷ []; send_len = 84 }

abbrev one_set : Listener
one_set = record listening {
  type = 1;
  timer_info = set_child_timer setting.mktime 20 [] (message_of line) setting.port_info;
}

listen_all-IsSorted_example :
    (last : Listener) × (listen_all setting listening (timers one_timer ∷ ack 1 ∷ []) ≡ some last)
    × IsSortedFrom 0 (schedule last.timer_info)
unfolding arrived
listen_all-IsSorted_example =
    listen_all-IsSorted setting (timers one_timer ∷ ack 1 ∷ []) listening (omega arith, (tt, tt)) tt

abbrev late_line : Line
late_line = record line { flag = 1; sec = 4 ∷ 5 ∷ [] }

abbrev two_timers : SendBuf
two_timers = record {
  count = 2;
  timer_message = message_of line ∷ message_of late_line ∷ [];
  send_len = 164;
}

abbrev two_set : Listener
two_set = record listening {
  type = 1;
  timer_info =
      set_child_timer setting.mktime 20 one_set.timer_info (message_of late_line) setting.port_info;
}

abbrev set_timer : ℕ → Proc → ℕ → Timer
set_timer flag proc time = record {
  timer_id = 0;
  flag = flag;
  elapse = pos 30;
  time = time;
  timer_proc = proc;
}

listen-alarm_example :
    sig_func 4 60 two_set.timer_info
    ≡ handled
        (fire (set_timer 0 timer_proc_launch 50) ∷ [])
        (set_elapse 60 (set_timer 1 timer_proc_end 80) ∷ [])
unfolding arrived listen_all listen set_child_timer set_timer_id timer_id_from insert_a_timer step
    walk before behind
listen-alarm_example =
    listen-alarm setting (timers two_timers ∷ []) listening two_set 60 (omega arith, tt) tt refl
      (omega arith, (omega arith, tt))
