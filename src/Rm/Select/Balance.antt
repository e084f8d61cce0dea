-- ===== src/Rm/Select/Balance.antt =====
-- What `max_min_utility` balances.
use icnprototype.Prelude.{
  ℕ, zero, suc, ◌+◌, ◌≡◌, ◌<◌, ◌%◌, refl, Bool, true, false, ◌==◌, if◌then◌else◌, arith,
}
use icnprototype.Prelude.Int.{ℤ, pos, ◌+ℤ◌}
use icnprototype.Rm.Select.{Ports, least_port, charge, max_min_utility}

-- The paths.
pub data IsPath : ℕ → Type 0 where
  pid1 : IsPath 1
  pid2 : IsPath 2
  pid3 : IsPath 3

-- The counter of a path.
abbrev pub counter : Ports → ℕ → ℤ
counter p k = if k == 1 then p.pc3_port else if k == 2 then p.pc4_port else p.pc5_port

random-IsPath : (i : ℕ) → i < 3 → IsPath (i + 1)
random-IsPath zero h = pid1
random-IsPath (suc zero) h = pid2
random-IsPath (suc (suc zero)) h = pid3
random-IsPath (suc (suc (suc i))) h = absurd (omega arith)

if-IsPath : (b : Bool) {x y : ℕ} → IsPath x → IsPath y → IsPath (if b then x else y)
if-IsPath true h k = h
if-IsPath false h k = k

least_port-IsPath : (p : Ports) (random : ℕ) → IsPath (least_port p random)
unfolding least_port
least_port-IsPath p random =
    if-IsPath _ pid1
      (if-IsPath _ pid2 (if-IsPath _ pid3 (random-IsPath (random % 3) (omega arith))))

charge_path : (p : Ports) (size k : ℕ) → IsPath k → (charge p size k).0 ≡ k
unfolding charge
charge_path p size _ pid1 = refl
charge_path p size _ pid2 = refl
charge_path p size _ pid3 = refl

charge_counter :
    (p : Ports) (size j k : ℕ)
    → IsPath j
    → IsPath k
    → counter (charge p size k).1 j ≡ (if j == k then counter p j +ℤ pos size else counter p j)
unfolding charge
charge_counter p size _ _ pid1 pid1 = refl
charge_counter p size _ _ pid1 pid2 = refl
charge_counter p size _ _ pid1 pid3 = refl
charge_counter p size _ _ pid2 pid1 = refl
charge_counter p size _ _ pid2 pid2 = refl
charge_counter p size _ _ pid2 pid3 = refl
charge_counter p size _ _ pid3 pid1 = refl
charge_counter p size _ _ pid3 pid2 = refl
charge_counter p size _ _ pid3 pid3 = refl

-- `max_min_utility` returns one of the paths 1, 2 and 3, adds the flow's size to the counter of that
-- path, and leaves the counters of the other paths as they are.
pub max_min_utility_lem :
    (p : Ports) (size random j : ℕ)
    → IsPath j
    → let k = (max_min_utility p size random).0 in
      IsPath k
      × (counter (max_min_utility p size random).1 j
          ≡ (if j == k then counter p j +ℤ pos size else counter p j))
unfolding max_min_utility
max_min_utility_lem p size random j h = (
  rw (charge_path p size _ (least_port-IsPath p random)) (least_port-IsPath p random),
  rw (charge_path p size _ (least_port-IsPath p random))
      (charge_counter p size j _ h (least_port-IsPath p random)),
)
