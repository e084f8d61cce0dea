-- ===== src/Monitor/Processes/Lost.antt =====
-- Where `child_count` goes wrong: a process that the monitor itself kills is counted down twice.
use icnprototype.Prelude.{
  ℕ, zero, suc, ◌<◌, ◌≡◌, ◌≢◌, refl, sym, ap, ◌∙◌, ◌==◌, true, false, List, [], ◌∷◌, Option, some,
  get_elem?, get_or, set, if◌then◌else◌, arith,
}
use icnprototype.Prelude.Int.{ℤ, pos, negsuc, ◌+ℤ◌, ◌-ℤ◌}
use icnprototype.Monitor.Processes.{
  Children, running, port_child_proc, port_kill_proc, kills_end, Status, stopped, signaled, ◌>>=◌,
  find_child, Event, told, timer_launch, timer_end, spinning, Report, round, handle, is_zero_count,
  supervise,
}
use icnprototype.Monitor.Processes.Counted.{
  procs, find_child-Holds, IsCounted, procs-set_same, procs-set_zero, procs-set_more, procs_pos,
}

get_or-some : (ps : List ℕ) (i v : ℕ) → get_elem? ps i ≡ some v → get_or ps i 0 ≡ v
get_or-some [] i v h = cc
get_or-some (p ∷ ps) zero v h = cc
get_or-some (p ∷ ps) (suc i) v h = get_or-some ps i v h

set-set : (ps : List ℕ) (i a b : ℕ) → set (set ps i a) i b ≡ set ps i b
set-set [] i a b = refl
set-set (p ∷ ps) zero a b = refl
set-set (p ∷ ps) (suc i) a b = ap (λ l. p ∷ l) (set-set ps i a b)

-- `kill` of the process of a port, and what is left.
kill_lem :
    (i old : ℕ) (rets : List ℕ) (c : Children)
    → get_elem? c.port_child_pid i ≡ some old
    → old ≢ 0
    → kills_end rets ≡ true
    → port_kill_proc i rets c
      ≡ running (record {
        port_child_pid = set c.port_child_pid i 0;
        child_count = c.child_count -ℤ pos 1;
      })
unfolding port_kill_proc
kill_lem i old rets c at_i nonzero ends = ground (arith, get_or-some c.port_child_pid i old at_i)

abbrev waited : Children → Children
waited c = record c { child_count = c.child_count -ℤ pos 1 }

round_as :
    (r : Report) (c : Children) {s : Status} {port : Option ℕ}
    → r.status ≡ s
    → find_child r.pid_child c.port_child_pid ≡ port
    → round r c ≡ handle s port r (waited c)
unfolding round
round_as r c st found = λ j. handle (st j) (found j) r (waited c)

abbrev relaunched : ℕ → ℕ → Children → Children
relaunched i pid c = record {
  port_child_pid = set (set c.port_child_pid i 0) i pid;
  child_count = ((c.child_count -ℤ pos 1) -ℤ pos 1) +ℤ pos 1;
}

stop_round :
    (r : Report) (c : Children) (i pid : ℕ)
    → r.status ≡ stopped
    → find_child r.pid_child c.port_child_pid ≡ some i
    → kills_end r.rets ≡ true
    → r.fork ≡ some pid
    → round r c ≡ running (relaunched i pid c)
unfolding handle port_child_proc
stop_round r c i pid st found ends fork =
    let (at_i, old) = find_child-Holds r.pid_child c.port_child_pid i found in
    round_as r c st found
    ∙ ap (λ o. o >>= port_child_proc i r.fork)
        (kill_lem i r.pid_child r.rets (waited c) at_i old ends)
    ∙ (λ j. port_child_proc i (fork j) (record {
      port_child_pid = set c.port_child_pid i 0;
      child_count = (c.child_count -ℤ pos 1) -ℤ pos 1;
    }))

procs-relaunched :
    (c : Children) (i old pid : ℕ)
    → get_elem? c.port_child_pid i ≡ some old
    → old ≢ 0
    → pid ≢ 0
    → procs (set (set c.port_child_pid i 0) i pid) ≡ procs c.port_child_pid
procs-relaunched c i old pid at_i old_nonzero nonzero =
    ap procs (set-set c.port_child_pid i 0 pid)
    ∙ procs-set_same c.port_child_pid i pid old at_i old_nonzero nonzero

short : (n : ℕ) → 0 < n → (((pos n -ℤ pos 1) -ℤ pos 1) +ℤ pos 1) +ℤ pos 1 ≡ pos n
short zero h = elim h [ ]
short (suc zero) h = refl
short (suc (suc n)) h = ground arith

-- A process that stopped is killed and launched anew, but is counted one too few.
stop_lost :
    (r : Report) (c : Children) (i pid : ℕ)
    → IsCounted c
    → r.status ≡ stopped
    → find_child r.pid_child c.port_child_pid ≡ some i
    → kills_end r.rets ≡ true
    → r.fork ≡ some pid
    → pid ≢ 0
    → let d = relaunched i pid c in
      (procs d.port_child_pid ≡ procs c.port_child_pid)
      × (d.child_count +ℤ pos 1 ≡ pos (procs d.port_child_pid))
stop_lost r c i pid k st found ends fork nonzero =
    let (at_i, old) = find_child-Holds r.pid_child c.port_child_pid i found in
    let same = procs-relaunched c i r.pid_child pid at_i old nonzero in
    let up = λ (z : ℤ). (((z -ℤ pos 1) -ℤ pos 1) +ℤ pos 1) +ℤ pos 1 in
    (
      same,
      ap up k.counted
          ∙ short (procs c.port_child_pid) (procs_pos c.port_child_pid i r.pid_child at_i old)
          ∙ ap pos (sym same),
    )

some_inj {ℓ} : {A : Type ℓ} {x y : A} → some x ≡ some y → x ≡ y
some_inj h = cc

-- With a counter of 0 the loop is told of nothing.
supervise-zero :
    (r : Report) (es : List Event) (c : Children)
    → c.child_count ≡ pos 0
    → supervise (told r ∷ es) c ≡ spinning
unfolding supervise
supervise-zero r es c h = λ j. if is_zero_count (h j) then spinning else round r c >>= supervise es

suc-ne-zero : (n : ℕ) → (suc n == 0) ≡ false
suc-ne-zero n = ground arith

supervise-suc :
    (r : Report) (es : List Event) (c : Children) (n : ℕ)
    → c.child_count ≡ pos (suc n)
    → supervise (told r ∷ es) c ≡ (round r c >>= supervise es)
unfolding supervise
supervise-suc r es c n h =
    (λ j. if is_zero_count (h j) then spinning else round r c >>= supervise es)
    ∙ (λ j. if suc-ne-zero n j then spinning else round r c >>= supervise es)

supervise-launch :
    (j new : ℕ) (es : List Event) (c : Children)
    → supervise (timer_launch j (some new) ∷ es) c
      ≡ (port_child_proc j (some new) c >>= supervise es)
unfolding supervise
supervise-launch j new es c = refl

supervise-end :
    (i : ℕ) (rets : List ℕ) (es : List Event) (c : Children)
    → supervise (timer_end i rets ∷ es) c ≡ (port_kill_proc i rets c >>= supervise es)
unfolding supervise
supervise-end i rets es c = refl

supervise-nil : (c : Children) → supervise [] c ≡ running c
unfolding supervise
supervise-nil c = refl

less_one : (z : ℤ) → z +ℤ pos 1 ≡ pos 1 → z ≡ pos 0
less_one (pos n) h = ground arith
less_one (negsuc n) h = ground arith

-- Another port keeps its entry.
get_elem?-set :
    (ps : List ℕ) (i j v old : ℕ)
    → get_elem? ps i ≡ some old
    → old ≢ 0
    → get_elem? ps j ≡ some 0
    → get_elem? (set ps i v) j ≡ some 0
get_elem?-set [] i j v old h a k = cc
get_elem?-set (p ∷ ps) zero zero v old h a k = absurd (a (some_inj (sym h ∙ k)))
get_elem?-set (p ∷ ps) zero (suc j) v old h a k = k
get_elem?-set (p ∷ ps) (suc i) zero v old h a k = k
get_elem?-set (p ∷ ps) (suc i) (suc j) v old h a k = get_elem?-set ps i j v old h a k

-- A loop that spins although a port has a process: what a state `d` brings, for each event that may follow.
pub record Spins (before : List Event) (c d : Children) (r : Report) (j new : ℕ) (es : List Event)
    : Type 0 where
  pub reached : supervise before c ≡ running d
  pub one_left : procs d.port_child_pid ≡ 1
  pub none_counted : d.child_count ≡ pos 0
  pub spins : supervise (told r ∷ es) d ≡ spinning
  pub resumed : Children
  pub resumes : supervise (timer_launch j (some new) ∷ es) d ≡ supervise es resumed
  pub two : procs resumed.port_child_pid ≡ 2
  pub one_counted : resumed.child_count ≡ pos 1

Spins-of :
    (before : List Event) (c d : Children) (r : Report) (j new : ℕ) (es : List Event)
    → supervise before c ≡ running d
    → procs d.port_child_pid ≡ 1
    → d.child_count ≡ pos 0
    → get_elem? d.port_child_pid j ≡ some 0
    → new ≢ 0
    → Spins before c d r j new es
unfolding port_child_proc
Spins-of before c d r j new es went single none_left free nonzero = record {
  reached = went;
  one_left = single;
  none_counted = none_left;
  spins = supervise-zero r es d none_left;
  resumed = record {
    port_child_pid = set d.port_child_pid j new;
    child_count = d.child_count +ℤ pos 1;
  };
  resumes = supervise-launch j new es d;
  two = procs-set_more d.port_child_pid j new free nonzero ∙ ap suc single;
  one_counted = ap (λ z. z +ℤ pos 1) none_left;
}

-- Where the counter is the number of ports that have a process: if the process of the only such port is told to have
-- stopped, its `kill` and `waitpid` end it and a new one is forked, then the port has the new process, but the
-- counter is 0. The loop is then told of no process, and if a timer launches the process of a further port, it
-- goes on with a counter of 1 for the two processes.
pub stop_hangs :
    (r r' : Report) (c : Children) (i pid j new : ℕ) (es : List Event)
    → IsCounted c
    → procs c.port_child_pid ≡ 1
    → r.status ≡ stopped
    → find_child r.pid_child c.port_child_pid ≡ some i
    → kills_end r.rets ≡ true
    → r.fork ≡ some pid
    → pid ≢ 0
    → get_elem? c.port_child_pid j ≡ some 0
    → new ≢ 0
    → (d : Children) × Spins (told r ∷ []) c d r' j new es
stop_hangs r r' c i pid j new es k single st found ends fork nonzero free fresh =
    let (at_i, old) = find_child-Holds r.pid_child c.port_child_pid i found in
    let (same, few) = stop_lost r c i pid k st found ends fork nonzero in
    let none_left = less_one (relaunched i pid c).child_count (few ∙ ap pos (same ∙ single)) in
    let went =
      supervise-suc r [] c 0 (k.counted ∙ ap pos single)
      ∙ ap (λ o. o >>= supervise []) (stop_round r c i pid st found ends fork)
      ∙ supervise-nil (relaunched i pid c) in
    let still : get_elem? (relaunched i pid c).port_child_pid j ≡ some 0 =
      ap (λ ps. get_elem? ps j) (set-set c.port_child_pid i 0 pid)
      ∙ get_elem?-set c.port_child_pid i j pid r.pid_child at_i old free in
    (
      relaunched i pid c,
      Spins-of (told r ∷ []) c (relaunched i pid c) r' j new es went (same ∙ single) none_left still
          fresh,
    )

-- Where the counter is the number of ports that have a process and these are two: if a timer kills and ends the
-- process of one, then after the report that a process was ended by signal 9 the counter is 0, though the other
-- port still has a process. The loop is then told of no process, and if a timer launches the process of a
-- further port, it goes on with a counter of 1 for the two processes.
pub end_hangs :
    (r r' : Report) (c : Children) (i old j new : ℕ) (rets : List ℕ) (es : List Event)
    → IsCounted c
    → procs c.port_child_pid ≡ 2
    → get_elem? c.port_child_pid i ≡ some old
    → old ≢ 0
    → kills_end rets ≡ true
    → r.status ≡ signaled
    → get_elem? c.port_child_pid j ≡ some 0
    → new ≢ 0
    → (d : Children) × Spins (timer_end i rets ∷ told r ∷ []) c d r' j new es
unfolding handle
end_hangs r r' c i old j new rets es k two at_i nonzero ends st free fresh =
    let ended : Children = record {
      port_child_pid = set c.port_child_pid i 0;
      child_count = c.child_count -ℤ pos 1;
    } in
    let one_less : ended.child_count ≡ pos 1 = ap (λ z. z -ℤ pos 1) (k.counted ∙ ap pos two) in
    let left : procs ended.port_child_pid ≡ 1 =
      omega (arith, two, procs-set_zero c.port_child_pid i old at_i nonzero) in
    let went =
      supervise-end i rets (told r ∷ []) c
      ∙ ap (λ o. o >>= supervise (told r ∷ [])) (kill_lem i old rets c at_i nonzero ends)
      ∙ supervise-suc r [] ended 0 one_less
      ∙ ap (λ o. o >>= supervise []) (round_as r ended st refl)
      ∙ supervise-nil (waited ended) in
    (
      waited ended,
      Spins-of (timer_end i rets ∷ told r ∷ []) c (waited ended) r' j new es went left
          (ap (λ z. z -ℤ pos 1) one_less)
          (get_elem?-set c.port_child_pid i j 0 old at_i nonzero free) fresh,
    )
