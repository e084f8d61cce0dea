-- ===== src/Monitor/Processes/Counted.antt =====
-- `child_count` counts the processes in the array.
use icnprototype.Prelude.{
  ℕ, zero, suc, ◌+◌, ◌<◌, ◌≡◌, ◌≢◌, inl, inr, refl, sym, ap, ◌∙◌, ◌==◌, Bool-cases, List, [], ◌∷◌,
  Option, some, get_elem?, set, not, ◌&&◌, subst, arith, if◌then◌else◌,
}
use icnprototype.Prelude.Int.{pos, ◌+ℤ◌, ◌-ℤ◌}
use icnprototype.Monitor.Processes.{
  Children, running, port_child_proc, Status, stopped, exited, signaled, abnormal, find_child_from,
  find_child, Report, round, handle, no_children,
}

abbrev pub one : ℕ → ℕ
one pid = if pid == 0 then 0 else 1

-- The number of ports that have a process.
unfoldable pub procs : List ℕ → ℕ
procs [] = 0
procs (p ∷ ps) = one p + procs ps

procs-set :
    (ps : List ℕ) (i v old : ℕ)
    → get_elem? ps i ≡ some old
    → procs (set ps i v) + one old ≡ procs ps + one v
unfolding procs
procs-set [] i v old h = cc
procs-set (p ∷ ps) zero v old h = ground arith
procs-set (p ∷ ps) (suc i) v old h = omega (arith, procs-set ps i v old h)

find_child_from-Holds :
    (i pid : ℕ) (ps : List ℕ) (j : ℕ)
    → find_child_from i pid ps ≡ some j
    → (k : ℕ) × (j ≡ i + k) × (get_elem? ps k ≡ some pid) × (pid ≢ 0)
unfolding find_child_from
find_child_from-Holds i pid [] j h = cc
find_child_from-Holds i pid (p ∷ ps) j h =
    let rest = find_child_from-Holds (i + 1) pid ps j in
    elim (Bool-cases (not (p == 0) && p == pid)) [
      | inl hit ↦ (0, ground arith, ground arith, ground arith)
      | inr miss ↦
          let (k, e, at_k, nonzero) = rest (ground arith) in (suc k, omega arith, at_k, nonzero)
    ]

-- A port that is found has the process.
pub find_child-Holds :
    (pid : ℕ) (ps : List ℕ) (j : ℕ)
    → find_child pid ps ≡ some j
    → (get_elem? ps j ≡ some pid) × (pid ≢ 0)
unfolding find_child
find_child-Holds pid ps j h =
    let (k, e, at_k, nonzero) = find_child_from-Holds 0 pid ps j h in
    let same : k ≡ j = omega arith in (subst (λ n. get_elem? ps n ≡ some pid) same at_k, nonzero)

-- `child_count` is the number of ports that have a process.
pub record IsCounted (c : Children) : Type 0 where
  pub counted : c.child_count ≡ pos (procs c.port_child_pid)

pub count_up : (n : ℕ) → pos n +ℤ pos 1 ≡ pos (suc n)
count_up n = ground arith

pub count_down : (n : ℕ) → pos (suc n) -ℤ pos 1 ≡ pos n
count_down n = ground arith

-- A process that ended by itself: `exit`, or by a signal other than 9, where the new `fork` succeeds.
abbrev pub IsEnd : Status → Option ℕ → Type 0
IsEnd exited fork = Unit
IsEnd abnormal fork = (pid : ℕ) × (fork ≡ some pid) × (pid ≢ 0)
IsEnd _ fork = ⊥

one_nonzero : (pid : ℕ) → pid ≢ 0 → one pid ≡ 1
one_nonzero pid h = ground arith

pub procs_pos : (ps : List ℕ) (i old : ℕ) → get_elem? ps i ≡ some old → old ≢ 0 → 0 < procs ps
procs_pos ps i old h a = omega (arith, procs-set ps i 0 old h, one_nonzero old a)

pub procs-set_same :
    (ps : List ℕ) (i v old : ℕ)
    → get_elem? ps i ≡ some old
    → old ≢ 0
    → v ≢ 0
    → procs (set ps i v) ≡ procs ps
procs-set_same ps i v old h a b =
    omega (arith, procs-set ps i v old h, one_nonzero old a, one_nonzero v b)

pub procs-set_zero :
    (ps : List ℕ) (i old : ℕ)
    → get_elem? ps i ≡ some old
    → old ≢ 0
    → procs (set ps i 0) + 1 ≡ procs ps
procs-set_zero ps i old h a = omega (arith, procs-set ps i 0 old h, one_nonzero old a)

pub procs-set_more :
    (ps : List ℕ) (i v : ℕ) → get_elem? ps i ≡ some 0 → v ≢ 0 → procs (set ps i v) ≡ suc (procs ps)
procs-set_more ps i v h a = omega (arith, procs-set ps i v 0 h, one_nonzero v a)

-- What the code does to the pair of array and counter, in numbers.
count_same :
    (ps : List ℕ) (i v old : ℕ)
    → get_elem? ps i ≡ some old
    → old ≢ 0
    → v ≢ 0
    → (pos (procs ps) -ℤ pos 1) +ℤ pos 1 ≡ pos (procs (set ps i v))
count_same ps i v old h a b =
    ground (arith, procs-set ps i v old h, one_nonzero old a, one_nonzero v b)

count_less :
    (ps : List ℕ) (i old : ℕ)
    → get_elem? ps i ≡ some old
    → old ≢ 0
    → pos (procs ps) -ℤ pos 1 ≡ pos (procs (set ps i 0))
count_less ps i old h a = ground (arith, procs-set ps i 0 old h, one_nonzero old a)

count_more :
    (ps : List ℕ) (i v : ℕ)
    → get_elem? ps i ≡ some 0
    → v ≢ 0
    → pos (procs ps) +ℤ pos 1 ≡ pos (procs (set ps i v))
count_more ps i v h a = ground (arith, procs-set ps i v 0 h, one_nonzero v a)

handle_end :
    (s : Status) (r : Report) (c : Children) (i : ℕ)
    → IsCounted c
    → get_elem? c.port_child_pid i ≡ some r.pid_child
    → r.pid_child ≢ 0
    → IsEnd s r.fork
    → (d : Children) × (handle s (some i) r (record c { child_count = c.child_count -ℤ pos 1 })
        ≡ running d)
      × IsCounted d
unfolding handle port_child_proc
handle_end exited r c i k at_i nonzero ends =
    let less = count_less c.port_child_pid i r.pid_child at_i nonzero in
    (_, refl, record { counted = ap (λ z. z -ℤ pos 1) k.counted ∙ less })
handle_end abnormal r c i k at_i nonzero (pid, e, new) =
    let same = count_same c.port_child_pid i pid r.pid_child at_i nonzero new in
    (
      record {
        port_child_pid = set c.port_child_pid i pid;
        child_count = (c.child_count -ℤ pos 1) +ℤ pos 1;
      },
      rw e,
      record { counted = ap (λ z. (z -ℤ pos 1) +ℤ pos 1) k.counted ∙ same },
    )
handle_end stopped r c i k at_i nonzero ends = absurd ends
handle_end signaled r c i k at_i nonzero ends = absurd ends

-- A round on the process of a port that ended by itself goes on.
pub round-IsCounted :
    (r : Report) (c : Children) (i : ℕ)
    → IsCounted c
    → find_child r.pid_child c.port_child_pid ≡ some i
    → IsEnd r.status r.fork
    → (d : Children) × (round r c ≡ running d) × IsCounted d
unfolding round
round-IsCounted r c i k found ends =
    let (at_i, nonzero) = find_child-Holds r.pid_child c.port_child_pid i found in
    rw found (handle_end r.status r c i k at_i nonzero ends)

-- Steps in good order from one state to another: a process is launched for a port that has none, or the
-- loop is told that a port's process ended by itself.
pub data Orderly (c : Children) : Children → Type 0 where
  here : Orderly c c
  launch :
      {d e : Children}
      → Orderly c d
      → (i pid : ℕ) → get_elem? d.port_child_pid i ≡ some 0
      → pid ≢ 0
      → port_child_proc i (some pid) d ≡ running e
      → Orderly c e
  wait :
      {d e : Children}
      → Orderly c d
      → (r : Report) (i : ℕ) → find_child r.pid_child d.port_child_pid ≡ some i
      → IsEnd r.status r.fork
      → round r d ≡ running e
      → Orderly c e

running_inj : {c d : Children} → running c ≡ running d → c ≡ d
running_inj h = cc

launch-IsCounted :
    (i pid : ℕ) (c : Children)
    → IsCounted c
    → get_elem? c.port_child_pid i ≡ some 0
    → pid ≢ 0
    → (d : Children) × (port_child_proc i (some pid) c ≡ running d) × IsCounted d
unfolding port_child_proc
launch-IsCounted i pid c k free nonzero =
    let more = count_more c.port_child_pid i pid free nonzero in
    (_, refl, record { counted = ap (λ z. z +ℤ pos 1) k.counted ∙ more })

-- From the start, after any steps in good order, `child_count` is the number of ports that have a process.
pub Orderly-IsCounted : {c : Children} → Orderly no_children c → IsCounted c
unfolding procs
Orderly-IsCounted here = record { counted = refl }
Orderly-IsCounted (launch steps i pid free nonzero eq) =
    let (d, went, k) = launch-IsCounted i pid _ (Orderly-IsCounted steps) free nonzero in
    subst IsCounted (running_inj (sym went ∙ eq)) k
Orderly-IsCounted (wait steps r i found ends eq) =
    let (d, went, k) = round-IsCounted r _ i (Orderly-IsCounted steps) found ends in
    subst IsCounted (running_inj (sym went ∙ eq)) k
