-- ===== src/Rm/Config.antt =====
-- The receive queues of the cores, in RM/main.c: `check_lcore_params`, `check_port_config`,
-- `get_port_n_rx_queues` and `init_lcore_rx_queues`. A warning that is only printed is left out.
pub mod Checks
pub mod Queues
pub mod Args
use icnprototype.Prelude.{
  ℕ, ◌+◌, ◌-◌, ◌*◌, ◌/◌, ◌%◌, ◌^◌, Bool, true, false, not, ◌==◌, ◌&&◌, List, [], ◌∷◌, set, ltb, leb,
  Option, none, some, if◌then◌else◌,
}
use icnprototype.Prelude.Int.{ℤ, pos, negsuc, ltb_ℤ}

abbrev pub max_rx_queue_per_lcore : ℕ
max_rx_queue_per_lcore = 16

abbrev pub max_rx_queue_per_port : ℕ
max_rx_queue_per_port = 128

-- `struct lcore_rx_queue`.
pub record LcoreRxQueue : Type 0 where
  pub port_id : ℕ
  pub queue_id : ℕ

-- `struct lcore_params`: three bytes.
pub record LcoreParams : Type 0 where
  pub port_id : ℕ
  pub queue_id : ℕ
  pub lcore_id : ℕ

-- The part of `struct lcore_conf` that holds the receive queues; the array has
-- `max_rx_queue_per_lcore` entries.
pub record LcoreConf : Type 0 where
  pub n_rx_queue : ℕ
  pub rx_queue_list : List LcoreRxQueue

-- -1 for a queue number that is too large and for a core that is not enabled.
unfoldable pub check_lcore_params : (ℕ → Bool) → List LcoreParams → ℤ
check_lcore_params rte_lcore_is_enabled [] = pos 0
check_lcore_params rte_lcore_is_enabled (p ∷ params) =
    let rest = check_lcore_params rte_lcore_is_enabled params in
    if leb max_rx_queue_per_port p.queue_id
    then negsuc 0
    else if not (rte_lcore_is_enabled p.lcore_id)
    then negsuc 0
    else rest

-- `mask & (1 << i)`, for a shift that the type of the mask has.
abbrev pub has_port : ℕ → ℕ → Bool
has_port mask i = (mask / 2 ^ i) % 2 == 1

-- `none` for a port of 32 or more, whose shift is undefined.
pub check_port_config : ℕ → ℕ → List LcoreParams → Option ℤ
check_port_config enabled_port_mask nb_ports [] = some (pos 0)
check_port_config enabled_port_mask nb_ports (p ∷ params) =
    let rest = check_port_config enabled_port_mask nb_ports params in
    if leb 32 p.port_id
    then none
    else if not (has_port enabled_port_mask p.port_id)
    then some (negsuc 0)
    else if leb nb_ports p.port_id
    then some (negsuc 0)
    else rest

-- The loop of `get_port_n_rx_queues`; `queue` is an `int`.
pub highest_queue : ℕ → ℤ → List LcoreParams → ℤ
highest_queue port queue [] = queue
highest_queue port queue (p ∷ params) =
    highest_queue port
      (if p.port_id == port && ltb_ℤ queue (pos p.queue_id) then pos p.queue_id else queue) params

-- `(uint8_t)(++queue)`.
abbrev pub next_uint8 : ℤ → ℕ
next_uint8 (pos n) = (n + 1) % 256
next_uint8 (negsuc n) = (256 - n % 256) % 256

pub get_port_n_rx_queues : ℕ → List LcoreParams → ℕ
unfolding highest_queue
get_port_n_rx_queues port params = next_uint8 (highest_queue port (negsuc 0) params)

abbrev pub add_queue : LcoreConf → LcoreParams → LcoreConf
add_queue conf p = record {
  n_rx_queue = conf.n_rx_queue + 1;
  rx_queue_list =
      set conf.rx_queue_list conf.n_rx_queue
        (record { port_id = p.port_id; queue_id = p.queue_id });
}

-- The array `lcore_conf`, by the number of the core.
abbrev pub Confs : Type 0
Confs = ℕ → LcoreConf

abbrev pub at_lcore : Confs → ℕ → LcoreConf → Confs
at_lcore confs lcore conf i = if i == lcore then conf else confs i

unfoldable pub init_lcore_rx_queues : Confs → List LcoreParams → ℤ × Confs
init_lcore_rx_queues confs [] = (pos 0, confs)
init_lcore_rx_queues confs (p ∷ params) =
    let rest =
      init_lcore_rx_queues (at_lcore confs p.lcore_id (add_queue (confs p.lcore_id) p)) params in
    if leb max_rx_queue_per_lcore (confs p.lcore_id).n_rx_queue then (negsuc 0, confs) else rest
