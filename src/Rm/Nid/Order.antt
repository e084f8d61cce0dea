-- ===== src/Rm/Nid/Order.antt =====
-- What `compare_nid` and `compare_sid_nid` decide.
use icnprototype.Prelude.{ℕ, zero, suc, ◌≡◌, ◌↔◌, ◌≤◌, refl, List, [], ◌∷◌, arith, take, length}
use icnprototype.Prelude.Int.{ℤ, pos, negsuc}
use icnprototype.Rm.Nid.{Nid, compare_nid, compare_sid_nid}

abbrev pub negate : ℤ → ℤ
negate (pos zero) = pos 0
negate (pos (suc n)) = negsuc n
negate (negsuc n) = pos (suc n)

-- Swapping the two identifiers negates the result of `compare_nid`.
pub compare_nid-swap : (a b : Nid) → compare_nid b a ≡ negate (compare_nid a b)
unfolding compare_nid
compare_nid-swap [] [] = refl
compare_nid-swap [] (y ∷ ys) = refl
compare_nid-swap (x ∷ xs) [] = refl
compare_nid-swap (x ∷ xs) (y ∷ ys) = ground (arith, compare_nid-swap xs ys)

-- If `compare_nid` puts `a` before `b` and `b` before `c`, then it puts `a` before `c`.
pub compare_nid_trans :
    (a b c : Nid)
    → compare_nid a b ≡ negsuc 0
    → compare_nid b c ≡ negsuc 0
    → compare_nid a c ≡ negsuc 0
unfolding compare_nid
compare_nid_trans [] [] c h k = ground arith
compare_nid_trans [] (y ∷ ys) [] h k = ground arith
compare_nid_trans [] (y ∷ ys) (z ∷ zs) h k = refl
compare_nid_trans (x ∷ xs) [] c h k = ground arith
compare_nid_trans (x ∷ xs) (y ∷ ys) [] h k = ground arith
compare_nid_trans (x ∷ xs) (y ∷ ys) (z ∷ zs) h k = ground (arith, compare_nid_trans xs ys zs)

-- For arrays of at least `t` bytes, `compare_sid_nid` returns 1 exactly if the first `t` bytes of
-- the two are the same.
pub compare_sid_nid_iff :
    (xs ys : List ℕ) (t : ℕ)
    → t ≤ length xs
    → t ≤ length ys
    → (compare_sid_nid xs ys t ≡ 1) ↔ (take t xs ≡ take t ys)
unfolding compare_sid_nid
compare_sid_nid_iff xs ys zero h k = ground arith
compare_sid_nid_iff [] ys (suc t) h k = absurd (omega arith)
compare_sid_nid_iff (x ∷ xs) [] (suc t) h k = absurd (omega arith)
compare_sid_nid_iff (x ∷ xs) (y ∷ ys) (suc t) h k = ground (arith, compare_sid_nid_iff xs ys t)
