-- ===== src/Rm/Chain/Init.antt =====
-- `read_configuration_init_pid_change_wxb` of RM/main.c, which builds the chain from the table.
pub mod Paths
pub mod Nodes
pub mod Spec
use icnprototype.Prelude.{
  ℕ, suc, ◌+◌, ◌%◌, List, [], ◌∷◌, ◌++◌, Option, none, some, set, take, if◌then◌else◌,
}
use mathlib.Core.Option
use icnprototype.Rm.Nid.{Nid, same_nid}
use icnprototype.Rm.Chain.{PidInfo, Chain, search, modify}
use icnprototype.Rm.Table.{Route, Table}

-- The variables of the loop: the global `head_wxb`, the local `last_point`, the static `counter`.
pub record Build : Type 0 where
  pub head : Chain
  pub last_point : Option ℕ
  pub counter : ℕ

-- `AS->item.pid[AS->item.number_pid] = pid; number_pid++`
pub add_pid : ℕ → PidInfo → PidInfo
add_pid p n = record n {
  pid = set n.pid n.number_pid p;
  number_pid = (n.number_pid + 1) % 4294967296;
}

-- The fields of a node fresh from `malloc`, whose array `pid` had the contents `raw`.
unfoldable pub new_node : List ℕ → ℕ → Route → PidInfo
new_node raw counter item = record {
  eid = item.eid2;
  id = counter % 256;
  pid_change_time = 30;
  number_pid = 1;
  pid = set raw 0 item.pid;
}

-- `last_point->next = p`, where `p->next` is null; `none` for a write through a null pointer.
pub link_after : Chain → Option ℕ → PidInfo → Option Chain
link_after c none p = none
link_after c (some k) p = some (take (suc k) c ++ (p ∷ []))

-- The branch for a neighbour that has no node yet.
unfoldable pub add_node : PidInfo → Chain → Build → Option Build
unfolding link_after
add_node p [] b = some (record { head = p ∷ []; last_point = some 0; counter = b.counter + 1 })
add_node p (n ∷ c) b =
    Option.map
      (λ c'. record {
        head = c';
        last_point = Option.map suc b.last_point;
        counter = b.counter + 1;
      })
      (link_after (n ∷ c) b.last_point p)

-- The body of the `if`: `found` is the result of `search`.
unfoldable pub add_path : (ℕ → List ℕ) → Route → Option ℕ → Build → Option Build
unfolding add_node new_node
add_path raw item (some i) b = some (record b { head = modify b.head i (add_pid item.pid) })
add_path raw item none b = add_node (new_node (raw b.counter) b.counter item) b.head b

-- One round of the loop.
unfoldable pub add_row : Nid → (ℕ → List ℕ) → Route → Build → Option Build
unfolding add_path
add_row host raw item b =
    if same_nid host item.eid1 then add_path raw item (search b.head item.eid2) b else some b

unfoldable pub add_rows : Nid → (ℕ → List ℕ) → Table → Build → Option Build
add_rows host raw [] b = some b
add_rows host raw (item ∷ rows) b = elim (add_row host raw item b) [
  | none ↦ none
  | some b' ↦ add_rows host raw rows b'
]

abbrev pub empty : Build
empty = record { head = []; last_point = none; counter = 0 }

-- The whole function, at the first call: `raw k` is what the memory of the k-th node held in `pid`.
unfoldable pub read_configuration_init_pid_change_wxb : Nid → (ℕ → List ℕ) → Table → Option Build
unfolding add_rows
read_configuration_init_pid_change_wxb host raw table = add_rows host raw table empty
