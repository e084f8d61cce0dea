-- ===== src/Monitor/Traps/Bandwidth.antt =====
-- The trap state that `get_port_info` keeps of its port.
use Prim.Native.Nat.{bit_xor}
use icnprototype.Prelude.{
  ℕ, ◌<◌, ◌≡◌, refl, Bool, true, false, if-keeps, List, [], ◌∷◌, none, some, ltb, ◌==◌, arith,
}
use icnprototype.Monitor.Traps.{
  trap_connection, trap_port_set, Report, trap_send_proc, Watch, watch_bandwidth, Round, link_up,
  link_down, send, toggle, watch_round, watch_port, at_start,
}

-- The flag of the loop, and the bits of the trap state while the link is up.
pub data Tracks : ℕ → ℕ → Type 0 where
  quiet : Tracks 0 0
  too_high : Tracks 1 2
  too_low : Tracks 2 4

abbrev pub IsTracked : Watch → Type 0
IsTracked w = Tracks w.bandwidth_trap_flag w.pts.trap_state

watch_bandwidth-IsTracked :
    (low high efficiency trap_flag flag state : ℕ) (ip : List ℕ)
    → Tracks flag state
    → IsTracked (
        watch_bandwidth low high efficiency (record {
          pts = record { trap_flag = trap_flag; port_ip = ip; trap_state = state };
          bandwidth_trap_flag = flag;
        }))
unfolding watch_bandwidth trap_port_set
watch_bandwidth-IsTracked low high e trap_flag _ _ ip quiet =
    if-keeps IsTracked (ltb high e) too_high (if-keeps IsTracked (ltb e low) too_low quiet)
watch_bandwidth-IsTracked low high e trap_flag _ _ ip too_high =
    if-keeps IsTracked (ltb e high) (if-keeps IsTracked (ltb e low) too_low quiet) too_high
watch_bandwidth-IsTracked low high e trap_flag _ _ ip too_low =
    if-keeps IsTracked (ltb low e) (if-keeps IsTracked (ltb high e) too_high quiet) too_low

connection_twice :
    {flag state : ℕ}
    → Tracks flag state
    → Tracks flag (bit_xor (bit_xor state trap_connection) trap_connection)
connection_twice quiet = quiet
connection_twice too_high = too_high
connection_twice too_low = too_low

-- A round without a measurement.
send-IsTracked : (written : Bool) (w : Watch) → IsTracked w → IsTracked (send written w).0
unfolding trap_send_proc
send-IsTracked true w h = h
send-IsTracked false w h = h

-- A round with the link down.
down-IsTracked :
    (written written' : Bool) (w : Watch)
    → IsTracked w
    → IsTracked
        (send written' (toggle trap_connection (send written (toggle trap_connection w)).0)).0
unfolding trap_send_proc trap_port_set
down-IsTracked true true w h = connection_twice h
down-IsTracked true false w h = connection_twice h
down-IsTracked false true w h = connection_twice h
down-IsTracked false false w h = connection_twice h

round-IsTracked :
    (low high : ℕ) (w : Watch) (round : Round)
    → IsTracked w
    → (w' : Watch) × (reports : List Report) × (watch_round 0 low high w round ≡ some (w', reports))
      × IsTracked w'
unfolding watch_round
round-IsTracked low high w (link_up none written) h = (_, _, refl, send-IsTracked written w h)
round-IsTracked low high w (link_up (some e) written) h = (
  _,
  _,
  refl,
  send-IsTracked written _ (
      watch_bandwidth-IsTracked low high e w.pts.trap_flag w.bandwidth_trap_flag w.pts.trap_state
        w.pts.port_ip h),
)
round-IsTracked low high w (link_down written written') h =
    (_, _, refl, down-IsTracked written written' w h)

watch_port_from :
    (low high : ℕ) (rounds : List Round) (w : Watch)
    → IsTracked w
    → (w' : Watch) × (watch_port 0 low high w rounds ≡ some w') × IsTracked w'
unfolding watch_port
watch_port_from low high [] w h = (w, refl, h)
watch_port_from low high (round ∷ rounds) w h =
    let (w', reports, e, k) = round-IsTracked low high w round h in
    let (w'', e', k') = watch_port_from low high rounds w' k in (w'', rw e e', k')

not_zero : (n : ℕ) → 0 < n → (n == 0) ≡ false
not_zero n h = ground arith

-- Where the variable `ret` is 0, the loop of `get_port_info` goes on through any rounds from its start,
-- and after them the trap state is just the bit of the report that its flag stands for: none at 0, too
-- high a bandwidth at 1, too low a bandwidth at 2.
pub watch_port-IsTracked :
    (low high : ℕ) (ip : List ℕ) (rounds : List Round)
    → (w : Watch) × (watch_port 0 low high (at_start ip) rounds ≡ some w) × IsTracked w
watch_port-IsTracked low high ip rounds = watch_port_from low high rounds (at_start ip) quiet

-- Where `ret` is another number, the loop does not get past a round with the link down.
pub watch_port_hangs :
    (ret low high : ℕ) (w : Watch) (written written' : Bool) (rounds : List Round)
    → 0 < ret
    → watch_port ret low high w (link_down written written' ∷ rounds) ≡ none
unfolding watch_port watch_round
watch_port_hangs ret low high w written written' rounds h = rw (not_zero ret h) refl
