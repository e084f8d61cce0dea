-- ===== src/Monitor/Timer/Delete.antt =====
-- `del_a_timer` removes one timer of a number.
use icnprototype.Prelude.{ℕ, ◌≡◌, ◌∙◌, refl, ap, true, false, List, [], ◌∷◌, ◌++◌, ◌==◌, arith}
use icnprototype.Monitor.Timer.{Timer, delete_from, del_a_timer}

-- No timer of the list has the number.
unfoldable pub IsAbsent : ℕ → List Timer → Type 0
IsAbsent value [] = Unit
IsAbsent value (p ∷ next) = ((p.timer_id == value) ≡ false) × IsAbsent value next

==-refl : (a : ℕ) → (a == a) ≡ true
==-refl a = ground arith

pub del_a_timer_head : (p : Timer) (next : List Timer) → del_a_timer (p ∷ next) p.timer_id ≡ next
unfolding del_a_timer
del_a_timer_head p next = rw (==-refl p.timer_id) refl

del_a_timer-cons :
    (p : Timer) (l : List Timer) (value : ℕ)
    → (p.timer_id == value) ≡ false
    → del_a_timer (p ∷ l) value ≡ p ∷ del_a_timer l value
unfolding del_a_timer delete_from
del_a_timer-cons p [] value h = rw h refl
del_a_timer-cons p (q ∷ l) value h = rw h refl

-- `del_a_timer` takes out the first timer with the number, whatever its place in the list, and keeps
-- the others in their order.
pub del_a_timer_found :
    (l : List Timer) (p : Timer) (rest : List Timer)
    → IsAbsent p.timer_id l
    → del_a_timer (l ++ (p ∷ rest)) p.timer_id ≡ l ++ rest
unfolding del_a_timer IsAbsent
del_a_timer_found [] p rest h = rw (==-refl p.timer_id) refl
del_a_timer_found (q ∷ l) p rest (a, h) =
    del_a_timer-cons q _ p.timer_id a ∙ ap (λ m. q ∷ m) (del_a_timer_found l p rest h)

-- Where no timer has the number, `del_a_timer` changes nothing.
pub del_a_timer_missing : (l : List Timer) (value : ℕ) → IsAbsent value l → del_a_timer l value ≡ l
unfolding IsAbsent del_a_timer
del_a_timer_missing [] value h = refl
del_a_timer_missing (q ∷ l) value (a, h) =
    del_a_timer-cons q l value a ∙ ap (λ m. q ∷ m) (del_a_timer_missing l value h)
