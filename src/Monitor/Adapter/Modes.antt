-- ===== src/Monitor/Adapter/Modes.antt =====
-- Which link modes the text names.
use icnprototype.Prelude.{ℕ, ◌≡◌, Bool, false, ◌==◌, ◌||◌, List, [], ◌∷◌, arith}
use icnprototype.Monitor.Adapter.{
  Mode, half_10, full_10, half_100, full_100, half_1000, full_1000, full_10000, shift_of, Piece,
  mode_name, has, link_modes,
}

abbrev names : Mode → Piece → Bool
names mode (mode_name m) = shift_of mode == shift_of m
names mode _ = false

pub mentions : Mode → List Piece → Bool
mentions mode [] = false
mentions mode (piece ∷ text) = names mode piece || mentions mode text

-- The text of the link modes names a mode exactly if the mask has its bit.
pub mentions-link_modes :
    (mode : Mode) (mask : ℕ) → mentions mode (link_modes mask) ≡ has mask (shift_of mode)
unfolding link_modes mentions
mentions-link_modes half_10 mask = ground arith
mentions-link_modes full_10 mask = ground arith
mentions-link_modes half_100 mask = ground arith
mentions-link_modes full_100 mask = ground arith
mentions-link_modes half_1000 mask = ground arith
mentions-link_modes full_1000 mask = ground arith
mentions-link_modes full_10000 mask = ground arith
