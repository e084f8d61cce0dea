-- ===== src/Rm/Config/Checks.antt =====
-- What the checks of the configuration accept.
use Prim.Native.Nat.{max}
use icnprototype.Prelude.{
  ℕ, suc, ◌+◌, ◌<◌, ◌≤◌, ◌≡◌, ◌↔◌, refl, ◌∙◌, inl, inr, Bool, true, Bool-cases, ◌==◌, ◌&&◌, List,
  [], ◌∷◌, ltb, lt→ltb, some, if◌then◌else◌, arith,
}
use icnprototype.Prelude.Int.{ℤ, pos, negsuc, neg_part, ltb_ℤ}
use icnprototype.Rm.Config.{
  max_rx_queue_per_port, LcoreParams, check_lcore_params, has_port, check_port_config,
  highest_queue, next_uint8, get_port_n_rx_queues,
}

-- What holds of every parameter.
abbrev pub All : (LcoreParams → Type 0) → List LcoreParams → Type 0
All P [] = Unit
All P (p ∷ params) = P p × All P params

-- A queue number below 128, of an enabled core.
pub record IsRunnable (rte_lcore_is_enabled : ℕ → Bool) (p : LcoreParams) : Type 0 where
  pub queue : p.queue_id < max_rx_queue_per_port
  pub enabled : rte_lcore_is_enabled p.lcore_id ≡ true

-- A port that the mask has and the board has.
pub record IsPresent (enabled_port_mask nb_ports : ℕ) (p : LcoreParams) : Type 0 where
  pub shift : p.port_id < 32
  pub masked : has_port enabled_port_mask p.port_id ≡ true
  pub present : p.port_id < nb_ports

check_lcore_params_sound :
    (en : ℕ → Bool) (params : List LcoreParams)
    → check_lcore_params en params ≡ pos 0
    → All (IsRunnable en) params
unfolding check_lcore_params
check_lcore_params_sound en [] h = tt
check_lcore_params_sound en (p ∷ params) h = (
  record { queue = ground arith; enabled = ground arith },
  check_lcore_params_sound en params (ground arith),
)

check_lcore_params_complete :
    (en : ℕ → Bool) (params : List LcoreParams)
    → All (IsRunnable en) params
    → check_lcore_params en params ≡ pos 0
unfolding check_lcore_params
check_lcore_params_complete en [] h = refl
check_lcore_params_complete en (p ∷ params) (r, h) =
    ground (arith, r.queue, r.enabled, check_lcore_params_complete en params h)

-- `check_lcore_params` returns 0 exactly if every queue number is below 128 and every core is enabled.
pub check_lcore_params_iff :
    (rte_lcore_is_enabled : ℕ → Bool) (params : List LcoreParams)
    → (check_lcore_params rte_lcore_is_enabled params ≡ pos 0)
      ↔ All (IsRunnable rte_lcore_is_enabled) params
check_lcore_params_iff en params =
    (check_lcore_params_sound en params, check_lcore_params_complete en params)

check_port_config_sound :
    (mask n : ℕ) (params : List LcoreParams)
    → check_port_config mask n params ≡ some (pos 0)
    → All (IsPresent mask n) params
unfolding check_port_config
check_port_config_sound mask n [] h = tt
check_port_config_sound mask n (p ∷ params) h = (
  record { shift = ground arith; masked = ground arith; present = ground arith },
  check_port_config_sound mask n params (ground arith),
)

check_port_config_complete :
    (mask n : ℕ) (params : List LcoreParams)
    → All (IsPresent mask n) params
    → check_port_config mask n params ≡ some (pos 0)
unfolding check_port_config
check_port_config_complete mask n [] h = refl
check_port_config_complete mask n (p ∷ params) (r, h) =
    ground (arith, r.shift, r.masked, r.present, check_port_config_complete mask n params h)

-- `check_port_config` returns 0, and no shift of it is undefined, exactly if every port is below 32, in the
-- mask and on the board.
pub check_port_config_iff :
    (enabled_port_mask nb_ports : ℕ) (params : List LcoreParams)
    → (check_port_config enabled_port_mask nb_ports params ≡ some (pos 0))
      ↔ All (IsPresent enabled_port_mask nb_ports) params
check_port_config_iff mask n params =
    (check_port_config_sound mask n params, check_port_config_complete mask n params)

-- The number of queues that a port needs: one more than its highest queue number, 0 without a queue.
unfoldable pub needed : ℕ → List LcoreParams → ℕ
needed port [] = 0
needed port (p ∷ params) =
    max (if p.port_id == port then p.queue_id + 1 else 0) (needed port params)

-- One more than a queue number, from -1 on.
abbrev count_of : ℤ → ℕ
count_of (pos n) = n + 1
count_of (negsuc n) = 0

-- The number after one parameter.
abbrev raised : ℕ → ℤ → LcoreParams → ℤ
raised port queue p =
    if p.port_id == port && ltb_ℤ queue (pos p.queue_id) then pos p.queue_id else queue

raised_lem :
    (port : ℕ) (queue : ℤ) (p : LcoreParams)
    → neg_part queue ≤ 1
    → (neg_part (raised port queue p) ≤ 1)
      × (count_of (raised port queue p)
          ≡ max (count_of queue) (if p.port_id == port then p.queue_id + 1 else 0))
raised_lem port (pos n) p h = elim (Bool-cases (p.port_id == port)) [
  | inl b ↦ rw b (elim (Bool-cases (ltb (n + 0) (p.queue_id + 0))) [
    | inl c ↦ rw c (omega arith, ground arith)
    | inr c ↦ rw c (omega arith, ground arith)
  ])
  | inr b ↦ rw b (omega arith, omega arith)
]
raised_lem port (negsuc n) p h = elim (Bool-cases (p.port_id == port)) [
  | inl b ↦ rw b (
      let c : ltb 0 (p.queue_id + suc n) ≡ true = lt→ltb 0 (p.queue_id + suc n) (omega arith) in
      rw c (omega arith, omega arith))
  | inr b ↦ rw b (h, omega arith)
]

-- Of -1 and the numbers from 0 on.
highest_queue_lem :
    (port : ℕ) (params : List LcoreParams) (queue : ℤ)
    → neg_part queue ≤ 1
    → (neg_part (highest_queue port queue params) ≤ 1)
      × (count_of (highest_queue port queue params) ≡ max (count_of queue) (needed port params))
unfolding highest_queue needed
highest_queue_lem port [] queue h = (h, omega arith)
highest_queue_lem port (p ∷ params) queue h =
    let (l, e) = raised_lem port queue p h in
    let (l_rest, e_rest) = highest_queue_lem port params (raised port queue p) l in
    (l_rest, omega (arith, e, e_rest))

needed_le :
    (port : ℕ) (en : ℕ → Bool) (params : List LcoreParams)
    → All (IsRunnable en) params
    → needed port params ≤ max_rx_queue_per_port
unfolding needed
needed_le port en [] h = omega arith
needed_le port en (p ∷ params) (r, h) = ground (arith, r.queue, needed_le port en params h)

next_uint8_lem :
    (queue : ℤ)
    → neg_part queue ≤ 1
    → count_of queue ≤ max_rx_queue_per_port
    → next_uint8 queue ≡ count_of queue
next_uint8_lem (pos n) h l = omega arith
next_uint8_lem (negsuc n) h l = omega arith

-- For parameters that `check_lcore_params` accepts, `get_port_n_rx_queues` returns one more than the highest
-- queue number of the port, and 0 for a port without a queue.
pub get_port_n_rx_queues_lem :
    (rte_lcore_is_enabled : ℕ → Bool) (params : List LcoreParams) (port : ℕ)
    → check_lcore_params rte_lcore_is_enabled params ≡ pos 0
    → get_port_n_rx_queues port params ≡ needed port params
unfolding get_port_n_rx_queues
get_port_n_rx_queues_lem en params port h =
    let (l, e) = highest_queue_lem port params (negsuc 0) (omega arith) in
    let bound = needed_le port en params (check_lcore_params_sound en params h) in
    next_uint8_lem (highest_queue port (negsuc 0) params) l (omega (arith, e, bound))
    ∙ omega (arith, e)
