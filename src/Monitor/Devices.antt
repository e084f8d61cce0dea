-- ===== src/Monitor/Devices.antt =====
-- The lists of NetworkMonitoringTools/stats_send_ver_test1/list_handle.c: the peers of a port and the
-- devices, and the shared table of the devices.
pub mod Lists
use icnprototype.Prelude.{
  ℕ, zero, suc, ◌+◌, ◌==◌, ◌&&◌, Bool, true, false, List, [], ◌∷◌, length, Option, none, some,
  if◌then◌else◌,
}
use icnprototype.Monitor.Timer.{same_string}

-- A peer; `LinkStats` stands for its measurements.
pub record DestInfo {ℓ} (LinkStats : Type ℓ) : Type ℓ where
  pub linkloss_trap_flag : ℕ
  pub linkdelay_trap_flag : ℕ
  pub dest_ip : List ℕ
  pub link_stats : LinkStats

-- A device, in the list and in the shared table.
pub record PortState : Type 0 where
  pub dev_name : List ℕ
  pub trap_level : ℕ
  pub trap_state : ℕ

pub record PortIndex : Type 0 where
  pub port_count : ℕ
  pub port : List PortState

-- The walk to the last node, which both lists share: it stops at a repeated node.
unfoldable pub append_new {ℓ} : {A : Type ℓ} → (A → Bool) → A → List A → List A
append_new repeated pnew [] = pnew ∷ []
append_new repeated pnew (p ∷ []) = if repeated p then p ∷ [] else p ∷ pnew ∷ []
append_new repeated pnew (p ∷ q ∷ next) =
    if repeated p then p ∷ q ∷ next else p ∷ append_new repeated pnew (q ∷ next)

pub add_dest_node {ℓ} :
    {LinkStats : Type ℓ}
    → List (DestInfo LinkStats)
    → DestInfo LinkStats
    → List (DestInfo LinkStats)
add_dest_node head pnew =
    append_new (λ p. same_string p.dest_ip pnew.dest_ip)
      (record pnew { linkloss_trap_flag = 0; linkdelay_trap_flag = 0 }) head

pub add_state_node : List PortState → PortState → List PortState
add_state_node head pnew =
    append_new (λ p. same_string p.dev_name pnew.dev_name)
      (record pnew { trap_level = 0; trap_state = 0 }) head

-- The names, copied into the table from its first entry on; `none` where it has too few.
pub copy_names : List PortState → List PortState → Option (List PortState)
copy_names [] port = some port
copy_names (p ∷ head) [] = none
copy_names (p ∷ head) (entry ∷ port) = elim (copy_names head port) [
  | none ↦ none
  | some rest ↦ some (record entry { dev_name = p.dev_name } ∷ rest)
]

-- The table after the copy.
abbrev pub listed : List PortState → PortIndex → Option (List PortState) → Option PortIndex
listed head share_struct none = none
listed head share_struct (some port) =
    some (record { port_count = share_struct.port_count + length head; port = port })

pub display_state_list : List PortState → PortIndex → Option PortIndex
display_state_list head share_struct = listed head share_struct (copy_names head share_struct.port)

-- The place in the table of the first of `count` entries with the name.
pub search_from : ℕ → ℕ → List PortState → List ℕ → Option ℕ
search_from i zero port dev_name = none
search_from i (suc count) [] dev_name = none
search_from i (suc count) (entry ∷ port) dev_name =
    if same_string entry.dev_name dev_name then some i else search_from (i + 1) count port dev_name

pub search_port_index : PortIndex → List ℕ → Option ℕ
search_port_index port dev_name = search_from 0 port.port_count port.port dev_name
