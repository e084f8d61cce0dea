-- ===== src/Monitor/Timer/Signal/Late.antt =====
-- What `sig_func` does with timers that are past.
use mathlib.Core.List.{append-nil, append_assoc}
use icnprototype.Prelude.{
  ℕ, zero, suc, ◌+◌, ◌-◌, ◌<◌, ◌≡◌, ◌∙◌, refl, sym, ap, true, false, List, [], ◌∷◌, ◌++◌, map,
  length, arith,
}
use icnprototype.Prelude.Int.{pos, sub_ℕ, ltb_ℤ}
use icnprototype.Monitor.Timer.{Timer}
use icnprototype.Monitor.Timer.Delete.{del_a_timer_head}
use icnprototype.Monitor.Timer.Signal.{
  Fired, fire, undefined, handled, set_elapse, is_zero_elapse, run_due, run_late, sig_func,
}

abbrev pub AreLate : ℕ → List Timer → Type 0
AreLate t [] = Unit
AreLate t (p ∷ late) = (p.time < t) × AreLate t late

late_test : (a b : ℕ) → a < b → ltb_ℤ (sub_ℕ a b) (pos 0) ≡ true
late_test a b h = ground arith

early_test : (a b : ℕ) → b < a → ltb_ℤ (sub_ℕ a b) (pos 0) ≡ false
early_test a b h = ground arith

run_late-step :
    (fuel t : ℕ) (fired : List Fired) (p : Timer) (next : List Timer)
    → p.time < t
    → run_late (suc fuel) t fired (p ∷ next) ≡ run_late fuel t (fired ++ (fire p ∷ [])) next
unfolding run_late
run_late-step fuel t fired p next h =
    rw (late_test p.time t h) (
      ap (λ l. run_late fuel t (fired ++ (fire p ∷ [])) l) (del_a_timer_head (set_elapse t p) next))

not_due : (a b : ℕ) → b < a → is_zero_elapse (sub_ℕ a b) ≡ false
not_due a b h = ground arith

run_late_all :
    (fuel k t : ℕ) (fired : List Fired) (late next : List Timer)
    → k ≡ length late + fuel
    → AreLate t late
    → run_late k t fired (late ++ next) ≡ run_late fuel t (fired ++ map fire late) next
run_late_all fuel k t fired [] next e h =
    rw (append-nil fired) (ap (λ n. run_late n t fired next) (omega (arith, e)))
run_late_all fuel zero t fired (p ∷ late) next e h = absurd (omega (arith, e))
run_late_all fuel (suc k) t fired (p ∷ late) next e (a, h) =
    run_late-step k t fired p (late ++ next) a
    ∙ run_late_all fuel k t (fired ++ (fire p ∷ [])) late next (omega (arith, e)) h
    ∙ ap (λ l. run_late fuel t l next) (append_assoc fired (fire p ∷ []) (map fire late))

run_late_stop :
    (fuel t : ℕ) (fired : List Fired) (q : Timer) (rest : List Timer)
    → t < q.time
    → run_late (suc (suc fuel)) t fired (q ∷ rest) ≡ handled fired (set_elapse t q ∷ rest)
unfolding run_late run_due
run_late_stop fuel t fired q rest h = rw (early_test q.time t h, not_due q.time t h) refl

sig_func-run_late :
    (fuel t : ℕ) (p : Timer) (timers : List Timer)
    → sig_func fuel t (p ∷ timers) ≡ run_late fuel t [] (p ∷ timers)
unfolding sig_func
sig_func-run_late fuel t p timers = refl

run_late_first :
    (fuel t : ℕ) (late : List Timer) (q : Timer) (rest : List Timer)
    → sig_func fuel t (late ++ (q ∷ rest)) ≡ run_late fuel t [] (late ++ (q ∷ rest))
run_late_first fuel t [] q rest = sig_func-run_late fuel t q rest
run_late_first fuel t (p ∷ late) q rest = sig_func-run_late fuel t p (late ++ (q ∷ rest))

-- If the timers before `q` are past and `q` is not yet due, `sig_func` runs exactly those before `q`,
-- each once and in their order, and keeps `q` and the timers behind it; a fuel of two more than the
-- timers that are past is enough.
pub sig_func_late :
    (fuel t : ℕ) (late : List Timer) (q : Timer) (rest : List Timer)
    → AreLate t late
    → t < q.time
    → length late + 1 < fuel
    → sig_func fuel t (late ++ (q ∷ rest)) ≡ handled (map fire late) (set_elapse t q ∷ rest)
sig_func_late fuel t late q rest h k f =
    run_late_first fuel t late q rest
    ∙ run_late_all (suc (suc (fuel - length late - 2))) fuel t [] late (q ∷ rest) (omega (arith, f))
        h
    ∙ run_late_stop (fuel - length late - 2) t (map fire late) q rest k

run_late-nil : (fuel t : ℕ) (fired : List Fired) → run_late (suc fuel) t fired [] ≡ undefined
unfolding run_late run_due
run_late-nil fuel t fired = refl

-- If there are timers and all of them are past, `sig_func` reads through a null pointer after it has
-- run them.
pub sig_func_null :
    (fuel t : ℕ) (p : Timer) (late : List Timer)
    → AreLate t (p ∷ late)
    → length late + 1 < fuel
    → sig_func fuel t (p ∷ late) ≡ undefined
sig_func_null fuel t p late h f =
    sig_func-run_late fuel t p late
    ∙ ap (λ l. run_late fuel t [] (p ∷ l)) (sym (append-nil late))
    ∙ run_late_all (suc (fuel - length late - 2)) fuel t [] (p ∷ late) [] (omega (arith, f)) h
    ∙ run_late-nil (fuel - length late - 2) t (map fire (p ∷ late))
