-- ===== src/Rm/Select.antt =====
-- The choice of an outgoing path in RM/main.c: `lunxun`, `lunxun2`, the three `probility_pid...`,
-- `random_pid` and `max_min_utility`. A chosen path k is the identifier `PIDk`, here its number k.
pub mod Rotation
pub mod Balance
use icnprototype.Prelude.{
  ℕ, zero, suc, ◌+◌, ◌%◌, List, [], ◌∷◌, Option, none, some, ◌&&◌, leb, ltb, ◌==◌, if◌then◌else◌,
}
use icnprototype.Prelude.Int.{ℤ, pos, ◌+ℤ◌, ltb_ℤ}

-- The four bytes `PIDk`.
abbrev pub pid_bytes : ℕ → List ℕ
pid_bytes k = b'P' ∷ b'I' ∷ b'D' ∷ (b'0' + k) ∷ []

-- The globals of the two rotations.
pub record Turn : Type 0 where
  pub k2 : ℕ
  pub flag2 : ℕ
  pub k3 : ℕ

abbrev pub start : Turn
start = record { k2 = 0; flag2 = 0; k3 = 0 }

-- `none` where no branch sets `k`, which is then indeterminate.
pub lunxun : Turn → Option ℕ × Turn
lunxun t =
    if t.k2 == 0 && t.flag2 == 0
    then (some 1, record t { k2 = 1 })
    else if t.k2 == 1 && t.flag2 == 0
    then (some 2, record t { flag2 = 1 })
    else if t.k2 == 1 && t.flag2 == 1
    then (some 3, record t { k2 = 0; flag2 = 0 })
    else (none, t)

-- The second test is the assignment `k2 = 1`, which always holds.
pub lunxun2 : Turn → ℕ × Turn
lunxun2 t = if t.k3 == 0 then (2, record t { k3 = 1 }) else (3, record t { k2 = 1; k3 = 0 })

-- The three random choices, from the value of `rand()`; 0 where no branch is taken.
pub probility_pid : ℕ → ℕ
probility_pid random =
    let i = random % 99 + 1 in
    if leb i 33
    then 1
    else if leb i 66 && ltb 33 i
    then 2
    else if leb i 99 && ltb 66 i
    then 3
    else 0

pub probility_pid046 : ℕ → ℕ
probility_pid046 random =
    let i = random % 100 + 1 in if leb i 40 then 2 else if leb i 100 && ltb 40 i then 3 else 0

pub probility_pid532 : ℕ → ℕ
probility_pid532 random =
    let i = random % 100 + 1 in
    if leb i 50
    then 1
    else if leb i 80 && ltb 50 i
    then 2
    else if leb i 100 && ltb 80 i
    then 3
    else 0

pub random_pid : ℕ → ℕ
random_pid random = random % 3 + 1

-- The traffic counters of the three border routers, each a `long long int`.
pub record Ports : Type 0 where
  pub pc3_port : ℤ
  pub pc4_port : ℤ
  pub pc5_port : ℤ

-- The path with the strictly smallest counter, else a random one.
pub least_port : Ports → ℕ → ℕ
least_port p random =
    if ltb_ℤ p.pc3_port p.pc4_port && ltb_ℤ p.pc3_port p.pc5_port
    then 1
    else if ltb_ℤ p.pc4_port p.pc3_port && ltb_ℤ p.pc4_port p.pc5_port
    then 2
    else if ltb_ℤ p.pc5_port p.pc3_port && ltb_ℤ p.pc5_port p.pc4_port
    then 3
    else random % 3 + 1

-- The flow's size is added to the counter of the chosen path. (The sum is taken to fit.)
pub charge : Ports → ℕ → ℕ → ℕ × Ports
charge p cc_flow_size k =
    if k == 1
    then (k, record p { pc3_port = p.pc3_port +ℤ pos cc_flow_size })
    else if k == 2
    then (k, record p { pc4_port = p.pc4_port +ℤ pos cc_flow_size })
    else if k == 3
    then (k, record p { pc5_port = p.pc5_port +ℤ pos cc_flow_size })
    else (k, p)

pub max_min_utility : Ports → ℕ → ℕ → ℕ × Ports
max_min_utility p cc_flow_size random = charge p cc_flow_size (least_port p random)
