-- ===== src/Monitor/Inform/Bits.antt =====
-- The number of the bits of a request.
use icnprototype.Prelude.{ℕ, zero, suc, ◌+◌, ◌/◌, ◌%◌, ◌≡◌, refl, arith}

-- The number of the lowest `n` bits that are set.
unfoldable pub ones : ℕ → ℕ → ℕ
ones zero r = 0
ones (suc n) r = r % 2 + ones n (r / 2)

-- No bit from the `n`-th on is set.
abbrev pub FitsBits : ℕ → ℕ → Type 0
FitsBits zero r = r ≡ 0
FitsBits (suc n) r = FitsBits n (r / 2)

pub ones-zero : (n : ℕ) → ones n 0 ≡ 0
unfolding ones
ones-zero zero = refl
ones-zero (suc n) = omega (arith, ones-zero n)
