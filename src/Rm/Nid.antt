-- ===== src/Rm/Nid.antt =====
-- Node identifiers: `nid_t` and `compare_nid` of RM/wenxingbeng.c, the byte test of `search` and
-- `compare_sid_nid` of RM/main.c. An array of bytes is the list of its bytes.
pub mod Order
use icnprototype.Prelude.{
  ℕ, zero, suc, ◌≡◌, ◌↔◌, refl, Bool, true, false, not, ◌||◌, List, [], ◌∷◌, arith, ltb, ◌==◌,
  if◌then◌else◌,
}
use icnprototype.Prelude.Int.{ℤ, pos, negsuc}

abbrev pub Nid : Type 0
Nid = List ℕ

-- -1, 0 or 1. Both arrays have 16 bytes, so the clauses for lists of two lengths are not reached.
unfoldable pub compare_nid : Nid → Nid → ℤ
compare_nid [] [] = pos 0
compare_nid [] (y ∷ ys) = negsuc 0
compare_nid (x ∷ xs) [] = pos 1
compare_nid (x ∷ xs) (y ∷ ys) =
    let rest = compare_nid xs ys in if ltb x y then negsuc 0 else if ltb y x then pos 1 else rest

abbrev pub is_zero : ℤ → Bool
is_zero (pos n) = n == 0
is_zero (negsuc n) = false

-- The source's `compare_nid(a, b) == 0`.
unfoldable pub same_nid : Nid → Nid → Bool
same_nid a b = is_zero (compare_nid a b)

-- The condition of `search`: some byte differs.
unfoldable pub differs : Nid → Nid → Bool
differs [] [] = false
differs [] (y ∷ ys) = true
differs (x ∷ xs) [] = true
differs (x ∷ xs) (y ∷ ys) = not (x == y) || differs xs ys

-- 1 if the first `t` bytes agree, else 0. No caller reads past the end of an array.
unfoldable pub compare_sid_nid : List ℕ → List ℕ → ℕ → ℕ
compare_sid_nid xs ys zero = 1
compare_sid_nid (x ∷ xs) (y ∷ ys) (suc t) =
    let rest = compare_sid_nid xs ys t in if x == y then rest else 0
compare_sid_nid _ _ (suc t) = 0

pub compare_nid_refl : (a : Nid) → compare_nid a a ≡ pos 0
unfolding compare_nid
compare_nid_refl [] = refl
compare_nid_refl (x ∷ xs) = ground (arith, compare_nid_refl xs)

-- `compare_nid` returns 0 exactly on equal identifiers.
pub same_nid_iff : (a b : Nid) → (same_nid a b ≡ true) ↔ (a ≡ b)
unfolding same_nid compare_nid
same_nid_iff [] [] = ground arith
same_nid_iff [] (y ∷ ys) = ground arith
same_nid_iff (x ∷ xs) [] = ground arith
same_nid_iff (x ∷ xs) (y ∷ ys) = ground (arith, same_nid_iff xs ys)

-- The test of `search` fails exactly on equal identifiers.
pub differs_iff : (a b : Nid) → (differs a b ≡ false) ↔ (a ≡ b)
unfolding differs
differs_iff [] [] = ground arith
differs_iff [] (y ∷ ys) = ground arith
differs_iff (x ∷ xs) [] = ground arith
differs_iff (x ∷ xs) (y ∷ ys) = ground (arith, differs_iff xs ys)
