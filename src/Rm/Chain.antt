-- ===== src/Rm/Chain.antt =====
-- The chain of neighbour domains: `struct pid_info`, `make_node`, `get_item` and `search` of
-- RM/main.c. The linked list is the list of its items, and a node pointer is a position in it.
pub mod Lookup
pub mod Room
pub mod Init
use icnprototype.Prelude.{
  ℕ, zero, suc, ◌+◌, ◌≡◌, Bool, true, false, List, [], ◌∷◌, Option, none, some, ltb, if◌then◌else◌,
  take,
}
use mathlib.Core.Option
use icnprototype.Rm.Nid.{Nid, differs}

-- MAX_PID_NUMBER, the length of the array `pid`.
abbrev pub max_pid_number : ℕ
max_pid_number = 20

pub record PidInfo : Type 0 where
  pub eid : Nid
  pub id : ℕ
  pub pid_change_time : ℕ
  pub number_pid : ℕ
  pub pid : List ℕ

abbrev pub Chain : Type 0
Chain = List PidInfo

-- The identifiers in use: `pid[0 .. number_pid)`.
abbrev pub used : PidInfo → List ℕ
used n = take n.number_pid n.pid

-- A copy of the item, linked to nothing.
pub make_node : PidInfo → Chain
make_node item = item ∷ []

-- The loop of `get_item` with its counter `i`, which stays below 256 as `pos` is a uint8_t.
pub get_item_from : Chain → ℕ → ℕ → Option PidInfo
get_item_from [] i pos = none
get_item_from (n ∷ c) i pos =
    let rest = get_item_from c (i + 1) pos in
    if ltb i pos then rest else if ltb pos i then none else some n

-- `none` is the return value -1; otherwise the item that goes through `p_item`.
pub get_item : Chain → ℕ → Option PidInfo
unfolding get_item_from
get_item p pos = get_item_from p 0 pos

-- The walk stops at a match or at the last node, and the last node is tested once more. The result
-- is the node's position, `none` for a null pointer.
unfoldable pub search : Chain → Nid → Option ℕ
search [] key = none
search (n ∷ []) key = if differs n.eid key then none else some 0
search (n ∷ m ∷ c) key =
    let rest = search (m ∷ c) key in if differs n.eid key then Option.map suc rest else some 0

-- A write through a node pointer.
pub modify : Chain → ℕ → (PidInfo → PidInfo) → Chain
modify [] i f = []
modify (n ∷ c) zero f = f n ∷ c
modify (n ∷ c) (suc i) f = n ∷ modify c i f
