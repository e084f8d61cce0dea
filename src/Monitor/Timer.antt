-- ===== src/Monitor/Timer.antt =====
-- The list of timers: `_timer_info` in main.h, local_timer.c, and `sig_func` in main.c, all in
-- NetworkMonitoringTools/stats_send_ver_test1. The doubly linked list is a list: `pre` is the node
-- before. Times are seconds, `difftime` their difference, `time(NULL)` the argument `now`, and
-- `mktime` an argument.
pub mod Insert
pub mod Delete
pub mod Signal
use icnprototype.Prelude.{
  ℕ, zero, suc, ◌+◌, Bool, true, false, not, ◌&&◌, List, [], ◌∷◌, Option, none, some, leb, ltb,
  ◌==◌, if◌then◌else◌,
}
use icnprototype.Prelude.Int.{ℤ, sub_ℕ}

-- The function that a timer runs.
pub data Proc : Type 0 where
  timer_proc_launch : Proc
  timer_proc_end : Proc

pub record Timer : Type 0 where
  pub timer_id : ℕ
  pub flag : ℕ
  pub elapse : ℤ
  pub time : ℕ
  pub timer_proc : Proc

-- The test for a repeated timer.
abbrev pub repeats : Timer → Timer → Bool
repeats p pnew = p.timer_id == pnew.timer_id && p.flag == pnew.flag

abbrev pub difftime : ℕ → ℕ → ℤ
difftime = sub_ℕ

-- The insertion at the end of the list, after the loop.
abbrev pub at_end : Timer → ℕ → Bool → List Timer
at_end pnew before insert_flag =
    if insert_flag then [] else record pnew { elapse = difftime pnew.time before } ∷ []

-- The second half of the loop, at the node `p`, and `rest`, the loop from the next node on.
unfoldable pub step : Timer → ℕ → Bool → Timer → (Bool → List Timer) → List Timer
step pnew before insert_flag p rest =
    if not insert_flag && leb pnew.time p.time
    then record pnew { elapse = difftime pnew.time before }
      ∷ record p { elapse = difftime p.time pnew.time }
      ∷ rest true
    else p ∷ rest insert_flag

-- The loop of `insert_a_timer` at a node, `before` being the time of the node before it: the list
-- from there on. A repeated node is freed (`delete_repete_timer`), and the node after it is next.
unfoldable pub walk : Timer → ℕ → Bool → Bool → List Timer → List Timer
walk pnew before insert_flag repete_flag [] = at_end pnew before insert_flag
walk pnew before insert_flag repete_flag (p ∷ []) =
    if insert_flag && repete_flag
    then p ∷ []
    else if not repete_flag && repeats p pnew
    then at_end pnew before insert_flag
    else step pnew before insert_flag p (λ i. walk pnew p.time i repete_flag [])
walk pnew before insert_flag repete_flag (p ∷ q ∷ next) =
    if insert_flag && repete_flag
    then p ∷ q ∷ next
    else if not repete_flag && repeats p pnew
    then step pnew before insert_flag q (λ i. walk pnew q.time i true next)
    else step pnew before insert_flag p (λ i. walk pnew p.time i repete_flag (q ∷ next))

-- The part after the test of the head for a repeated timer.
abbrev pub from_head : ℕ → Timer → Bool → List Timer → List Timer
from_head now pnew repete_flag [] = record pnew { elapse = difftime pnew.time now } ∷ []
from_head now pnew repete_flag (p ∷ next) =
    if leb pnew.time p.time
    then record pnew { elapse = difftime pnew.time now }
      ∷ record p { elapse = difftime p.time pnew.time }
      ∷ walk pnew p.time true repete_flag next
    else p ∷ walk pnew p.time false repete_flag next

unfoldable pub insert_a_timer : ℕ → List Timer → Timer → List Timer
insert_a_timer now [] pnew =
    if ltb pnew.time now then [] else record pnew { elapse = difftime pnew.time now } ∷ []
insert_a_timer now (p ∷ next) pnew =
    if ltb pnew.time now
    then p ∷ next
    else if repeats p pnew
    then from_head now pnew true next
    else from_head now pnew false (p ∷ next)

-- The second loop of `del_a_timer`, from the node after the head on, to the last.
pub delete_from : ℕ → List Timer → List Timer
delete_from value [] = []
delete_from value (p ∷ next) = if p.timer_id == value then next else p ∷ delete_from value next

pub del_a_timer : List Timer → ℕ → List Timer
del_a_timer [] value = []
del_a_timer (p ∷ next) value = if p.timer_id == value then next else p ∷ delete_from value next

-- What `strcmp(...) == 0` tests, of two strings without their zero byte.
abbrev pub same_string : List ℕ → List ℕ → Bool
same_string [] [] = true
same_string [] (y ∷ ys) = false
same_string (x ∷ xs) [] = false
same_string (x ∷ xs) (y ∷ ys) = x == y && same_string xs ys

-- A port, as far as `set_timer_id` reads it, and a message that asks for a timer.
pub record PortInfo : Type 0 where
  pub port_type : ℕ
  pub dev_ip : List ℕ

pub record TimerMessage {ℓ} (Tm : Type ℓ) : Type ℓ where
  pub ip : List ℕ
  pub flag : ℕ
  pub t : Tm

-- The search from port `i` on; the list of ports is taken to end where the array does, and a port of
-- type 0 ends it before. `none` is -1.
unfoldable pub timer_id_from : ℕ → List ℕ → List PortInfo → Option ℕ
timer_id_from i ip [] = none
timer_id_from i ip (port ∷ ports) =
    if port.port_type == 0
    then none
    else if same_string ip port.dev_ip
    then some i
    else timer_id_from (i + 1) ip ports

unfoldable pub set_timer_id {ℓ} : {Tm : Type ℓ} → TimerMessage Tm → List PortInfo → Option ℕ
set_timer_id timer_message port_info = timer_id_from 0 timer_message.ip port_info

unfoldable pub set_child_timer {ℓ} :
    {Tm : Type ℓ} → (Tm → ℕ) → ℕ → List Timer → TimerMessage Tm → List PortInfo → List Timer
set_child_timer mktime now timer_info timer_message port_info =
    elim (set_timer_id timer_message port_info) [
      | none ↦ timer_info
      | some timer_id ↦ insert_a_timer now timer_info (record {
        timer_id = timer_id;
        flag = timer_message.flag;
        elapse = sub_ℕ 0 0;
        time = mktime timer_message.t;
        timer_proc = if timer_message.flag == 0 then timer_proc_launch else timer_proc_end;
      })
    ]
