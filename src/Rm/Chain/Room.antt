-- ===== src/Rm/Chain/Room.antt =====
-- The arrays `pid` of a chain's nodes: each has its full length, and no node uses more than that.
use icnprototype.Prelude.{
  zero, suc, ◌≤◌, ◌≡◌, refl, ℕ, List, [], ◌∷◌, ◌++◌, some, arith, get_elem?, length, take,
  length-take,
}
use icnprototype.Rm.Chain.{PidInfo, Chain, used, modify, max_pid_number}

-- Every node has a full array, of which at most all is in use.
abbrev pub IsRoomy : Chain → Type 0
IsRoomy [] = Unit
IsRoomy (n ∷ c) = (length n.pid ≡ max_pid_number) × (n.number_pid ≤ max_pid_number) × IsRoomy c

pub take-length {ℓ} : {A : Type ℓ} (xs : List A) → take (length xs) xs ≡ xs
take-length [] = refl
take-length (x ∷ xs) = rw (take-length xs)

pub length-used :
    (n : PidInfo)
    → length n.pid ≡ max_pid_number
    → n.number_pid ≤ max_pid_number
    → length (used n) ≡ n.number_pid
length-used n h k = omega (arith, length-take n.number_pid n.pid)

pub IsRoomy-append :
    (c : Chain) (p : PidInfo)
    → IsRoomy c
    → length p.pid ≡ max_pid_number
    → p.number_pid ≤ max_pid_number
    → IsRoomy (c ++ (p ∷ []))
IsRoomy-append [] p h k l = (k, l, tt)
IsRoomy-append (n ∷ c) p h k l = (h.0, h.1, IsRoomy-append c p h.2 k l)

pub IsRoomy-node :
    (c : Chain) (i : ℕ) (n : PidInfo)
    → IsRoomy c
    → get_elem? c i ≡ some n
    → (length n.pid ≡ max_pid_number) × (n.number_pid ≤ max_pid_number)
IsRoomy-node [] i n h g = cc
IsRoomy-node (m ∷ c) zero n h g = ground arith
IsRoomy-node (m ∷ c) (suc i) n h g = IsRoomy-node c i n h.2 g

pub IsRoomy-modify :
    (c : Chain) (i : ℕ) (f : PidInfo → PidInfo)
    → IsRoomy c
    → ((n : PidInfo)
        → get_elem? c i ≡ some n
        → (length (f n).pid ≡ max_pid_number) × ((f n).number_pid ≤ max_pid_number))
    → IsRoomy (modify c i f)
unfolding modify
IsRoomy-modify [] i f h k = tt
IsRoomy-modify (n ∷ c) zero f h k = ((k n refl).0, (k n refl).1, h.2)
IsRoomy-modify (n ∷ c) (suc i) f h k = (h.0, h.1, IsRoomy-modify c i f h.2 k)
