-- ===== src/Rm/Chain/Init/Nodes.antt =====
-- Lemmas on the nodes that `read_configuration_init_pid_change_wxb` writes and on its last node.
use icnprototype.Prelude.{
  take-set, ℕ, zero, suc, ◌+◌, ◌%◌, ◌≤◌, ◌<◌, ◌≡◌, refl, ap, List, [], ◌∷◌, ◌++◌, Option, none,
  some, arith, get_elem?, length, length-append, length-set,
}
use icnprototype.Rm.Nid.{Nid}
use icnprototype.Rm.Chain.{PidInfo, Chain, used, search, modify, max_pid_number}
use icnprototype.Rm.Chain.Init.{Build, add_pid, new_node, add_node}
use icnprototype.Rm.Chain.Room.{IsRoomy, take-length, length-used, IsRoomy-node}
use icnprototype.Rm.Chain.Init.Paths.{pids_to_found, pids_to}
use icnprototype.Rm.Table.{Route}

-- The position of the last node.
abbrev pub last_of : Chain → Option ℕ
last_of [] = none
last_of (n ∷ c) = some (length c)

pub used-add_pid :
    (p : ℕ) (n : PidInfo)
    → length n.pid ≡ max_pid_number
    → n.number_pid < max_pid_number
    → used (add_pid p n) ≡ used n ++ (p ∷ [])
unfolding add_pid
used-add_pid p n h k =
    let e : (n.number_pid + 1) % 4294967296 ≡ suc n.number_pid = omega arith in
    rw e (take-set n.pid n.number_pid p (omega arith))

length-modify : (c : Chain) (i : ℕ) (f : PidInfo → PidInfo) → length (modify c i f) ≡ length c
unfolding modify
length-modify [] i f = refl
length-modify (n ∷ c) zero f = refl
length-modify (n ∷ c) (suc i) f = ap suc (length-modify c i f)

pub last_of-modify :
    (c : Chain) (i : ℕ) (f : PidInfo → PidInfo) → last_of (modify c i f) ≡ last_of c
unfolding modify
last_of-modify [] i f = refl
last_of-modify (n ∷ c) zero f = refl
last_of-modify (n ∷ c) (suc i) f = ap some (length-modify c i f)

-- The loop's variables when the chain is `c`: `last_point` is its last node.
abbrev pub built : Chain → ℕ → Build
built c k = record { head = c; last_point = last_of c; counter = k }

last_of-append :
    (n : PidInfo) (c : Chain) (p : PidInfo) → last_of ((n ∷ c) ++ (p ∷ [])) ≡ some (suc (length c))
last_of-append n c p = ground (arith, length-append c (p ∷ []))

-- A new node goes to the end of the chain.
pub add_node_lem :
    (c : Chain) (p : PidInfo) (k : ℕ)
    → add_node p c (built c k) ≡ some (built (c ++ (p ∷ [])) (k + 1))
unfolding add_node
add_node_lem [] p k = refl
add_node_lem (n ∷ c) p k = ground (arith, take-length c, length-append c (p ∷ []))

pub used-new_node :
    (raw : List ℕ) (k : ℕ) (item : Route)
    → length raw ≡ max_pid_number
    → used (new_node raw k item) ≡ item.pid ∷ []
unfolding new_node
used-new_node [] k item h = absurd (omega arith)
used-new_node (x ∷ xs) k item h = refl

pub pids_at_none : (c : Chain) (e e' : Nid) → search c e' ≡ none → e' ≡ e → pids_to c e ≡ []
pids_at_none c e e' h p = rw (← p) (rw h)

pub room_left :
    (c : Chain) (e : Nid) (i : ℕ) (n : PidInfo)
    → IsRoomy c
    → search c e ≡ some i
    → get_elem? c i ≡ some n
    → length (pids_to c e) < max_pid_number
    → (length n.pid ≡ max_pid_number) × (n.number_pid < max_pid_number)
room_left c e i n h s g l =
    let (a, b) = IsRoomy-node c i n h g in
    let u = ap (λ (xs : List ℕ). length xs) (pids_to_found c e i n s g) in
    omega (arith, length-used n a b)

pub add_pid_size :
    (p : ℕ) (n : PidInfo)
    → length n.pid ≡ max_pid_number
    → n.number_pid < max_pid_number
    → (length (add_pid p n).pid ≡ max_pid_number) × ((add_pid p n).number_pid ≤ max_pid_number)
unfolding add_pid
add_pid_size p n h k = omega (arith, length-set n.pid n.number_pid p)

pub eid-add_pid : (p : ℕ) (n : PidInfo) → (add_pid p n).eid ≡ n.eid
unfolding add_pid
eid-add_pid p n = refl
