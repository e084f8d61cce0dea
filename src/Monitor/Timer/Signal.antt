-- ===== src/Monitor/Timer/Signal.antt =====
-- The handler of SIGALRM, once a second: `sig_func` in main.c, with `timer_proc_launch` and
-- `timer_proc_end` in local_timer.c, in NetworkMonitoringTools/stats_send_ver_test1.
pub mod Late
use icnprototype.Prelude.{ℕ, zero, suc, ◌==◌, Bool, false, List, [], ◌∷◌, ◌++◌, if◌then◌else◌}
use icnprototype.Prelude.Int.{ℤ, pos, negsuc, ltb_ℤ}
use icnprototype.Monitor.Timer.{Timer, Proc, difftime, del_a_timer}

-- A function run: the process of the port `num` is launched or ended.
pub record Fired : Type 0 where
  pub proc : Proc
  pub num : ℕ

abbrev pub fire : Timer → Fired
fire p = record { proc = p.timer_proc; num = p.timer_id }

-- `undefined`: a null pointer is read. `stuck`: the fuel of a loop ran out.
pub data Handled : Type 0 where
  undefined : Handled
  stuck : Handled
  handled : List Fired → List Timer → Handled

-- `timer_info->elapse = difftime(timer_info->time, t)`
abbrev pub set_elapse : ℕ → Timer → Timer
set_elapse t p = record p { elapse = difftime p.time t }

abbrev pub is_zero_elapse : ℤ → Bool
is_zero_elapse (pos n) = n == 0
is_zero_elapse (negsuc n) = false

-- The second loop, over timers whose `elapse` is 0. Its test reads the head also where the list is
-- empty at the start; after a timer it ends on an empty list.
pub run_due : ℕ → List Fired → List Timer → Handled
run_due zero fired timers = stuck
run_due (suc fuel) fired [] = undefined
run_due (suc fuel) fired (p ∷ next) =
    if is_zero_elapse p.elapse
    then elim (del_a_timer (p ∷ next) p.timer_id) [
      | [] ↦ handled (fired ++ (fire p ∷ [])) []
      | q ∷ rest ↦ run_due fuel (fired ++ (fire p ∷ [])) (q ∷ rest)
    ]
    else handled fired (p ∷ next)

-- The first loop, over timers that are past; `elapse` of the head is set before each test.
pub run_late : ℕ → ℕ → List Fired → List Timer → Handled
unfolding run_due
run_late zero t fired timers = stuck
run_late (suc fuel) t fired [] = run_due (suc fuel) fired []
run_late (suc fuel) t fired (p ∷ next) =
    if ltb_ℤ (set_elapse t p).elapse (pos 0)
    then run_late fuel t (fired ++ (fire p ∷ [])) (del_a_timer (set_elapse t p ∷ next) p.timer_id)
    else run_due fuel fired (set_elapse t p ∷ next)

unfoldable pub sig_func : ℕ → ℕ → List Timer → Handled
unfolding run_late
sig_func fuel t [] = handled [] []
sig_func fuel t (p ∷ next) = run_late fuel t [] (p ∷ next)
