-- ===== src/Rm/Negotiate/Unique.antt =====
-- No two paths of the chain get the same identifier.
use icnprototype.Prelude.{ℕ, ◌≤◌, ◌<◌, ◌≡◌, ◌≢◌, ◌↔◌, refl, false, List, [], ◌∷◌, ◌++◌, arith}
use icnprototype.Rm.Chain.{Chain, used}
use icnprototype.Rm.Negotiate.{member, any_member, in_use, shift}

-- The identifier is not in the list.
abbrev pub IsNew : ℕ → List ℕ → Type 0
IsNew p [] = Unit
IsNew p (q ∷ qs) = (p ≢ q) × IsNew p qs

abbrev pub AreNew : List ℕ → List ℕ → Type 0
AreNew [] qs = Unit
AreNew (p ∷ ps) qs = IsNew p qs × AreNew ps qs

abbrev pub AreDistinct : List ℕ → Type 0
AreDistinct [] = Unit
AreDistinct (p ∷ ps) = IsNew p ps × AreDistinct ps

-- All identifiers in use, over all neighbours.
abbrev pub all_used : Chain → List ℕ
all_used [] = []
all_used (n ∷ c) = used n ++ all_used c

IsNew-append : (p : ℕ) (xs ys : List ℕ) → IsNew p xs → IsNew p ys → IsNew p (xs ++ ys)
IsNew-append p [] ys h k = k
IsNew-append p (x ∷ xs) ys h k = (h.0, IsNew-append p xs ys h.1 k)

IsNew-split : (p : ℕ) (xs ys : List ℕ) → IsNew p (xs ++ ys) → IsNew p xs × IsNew p ys
IsNew-split p [] ys h = (tt, h)
IsNew-split p (x ∷ xs) ys h = let (a, b) = IsNew-split p xs ys h.1 in ((h.0, a), b)

member_iff : (p : ℕ) (qs : List ℕ) → (member p qs ≡ false) ↔ IsNew p qs
unfolding member
member_iff p [] = ((λ _. tt), (λ _. refl))
member_iff p (q ∷ qs) =
    let (f, g) = member_iff p qs in
    ((λ h. (ground arith, f (ground arith))), (λ h. ground (arith, g h.1)))

any_member_iff : (ps qs : List ℕ) → (any_member ps qs ≡ false) ↔ AreNew ps qs
unfolding any_member
any_member_iff [] qs = ((λ _. tt), (λ _. refl))
any_member_iff (p ∷ ps) qs =
    let (f, g) = any_member_iff ps qs in
    let (f', g') = member_iff p qs in
    ((λ h. (f' (ground arith), f (ground arith))), (λ h. ground (arith, g h.1, g' h.0)))

AreNew-append : (ps xs ys : List ℕ) → AreNew ps xs → AreNew ps ys → AreNew ps (xs ++ ys)
AreNew-append [] xs ys h k = tt
AreNew-append (p ∷ ps) xs ys h k = (IsNew-append p xs ys h.0 k.0, AreNew-append ps xs ys h.1 k.1)

AreNew-split : (ps xs ys : List ℕ) → AreNew ps (xs ++ ys) → AreNew ps xs × AreNew ps ys
AreNew-split [] xs ys h = (tt, tt)
AreNew-split (p ∷ ps) xs ys h =
    let (a, b) = IsNew-split p xs ys h.0 in
    let (c, d) = AreNew-split ps xs ys h.1 in ((a, c), (b, d))

AreNew-nil : (ps : List ℕ) → AreNew ps []
AreNew-nil [] = tt
AreNew-nil (p ∷ ps) = (tt, AreNew-nil ps)

-- The loops of `pid_b` clear `ACK_YES` exactly if some proposed identifier is in use towards some
-- neighbour.
pub in_use_iff : (ps : List ℕ) (c : Chain) → (in_use ps c ≡ false) ↔ AreNew ps (all_used c)
unfolding in_use
in_use_iff ps [] = ((λ _. AreNew-nil ps), (λ _. refl))
in_use_iff ps (n ∷ c) =
    let (f, g) = in_use_iff ps c in
    let (f', g') = any_member_iff ps (used n) in
    (
      (λ h. AreNew-append ps (used n) (all_used c) (f' (ground arith)) (f (ground arith))),
      (λ h. let (a, b) = AreNew-split ps (used n) (all_used c) h in ground (arith, g b, g' a)),
    )

-- The rule for new identifiers keeps identifiers below 100 apart, and its results are below 100.
pub shift_injective :
    (number p q : ℕ)
    → number ≤ 101
    → p < 100
    → q < 100
    → (shift number p < 100) × (shift number p ≡ shift number q → p ≡ q)
unfolding shift
shift_injective number p q n a b = (omega arith, λ h. omega arith)
