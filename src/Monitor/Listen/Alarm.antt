-- ===== src/Monitor/Listen/Alarm.antt =====
-- What the handler of the signal does with the timers that the thread has set.
use mathlib.Core.List.{append-nil}
use icnprototype.Prelude.{
  ℕ, ◌+◌, ◌≤◌, ◌<◌, ◌≡◌, ◌≢◌, ◌⊎◌, ◌∙◌, refl, sym, ap, inl, inr, false, List, [], ◌∷◌, ◌++◌, map,
  length, some, ltb, lt→ltb, if◌then◌else◌, subst, arith,
}
use icnprototype.Monitor.Timer.{Timer}
use icnprototype.Monitor.Timer.Insert.{IsSortedFrom, schedule}
use icnprototype.Monitor.Timer.Signal.{Handled, fire, undefined, handled, set_elapse, sig_func}
use icnprototype.Monitor.Timer.Signal.Late.{AreLate, sig_func_late, sig_func_null}
use icnprototype.Monitor.Listen.{Received, Setting, Listener, listen_all}
use icnprototype.Monitor.Listen.Orders.{AreWhole, listen_all-IsSorted}

-- The timers whose time is before `t`, and those whose time is after it.
unfoldable pub before : ℕ → List Timer → List Timer
before t [] = []
before t (p ∷ next) = if ltb p.time t then p ∷ before t next else before t next

unfoldable pub behind : ℕ → List Timer → List Timer
behind t [] = []
behind t (p ∷ next) = if ltb t p.time then p ∷ behind t next else behind t next

-- No timer is due just now.
abbrev pub AreApart : ℕ → List Timer → Type 0
AreApart t [] = Unit
AreApart t (p ∷ next) = (p.time ≢ t) × AreApart t next

-- By the timers to come and those that are past: the past ones are run and the others kept, where there are
-- others or none is past.
abbrev pub alarm : ℕ → List Timer → List Timer → Handled
alarm t [] [] = handled [] []
alarm t [] (p ∷ past) = undefined
alarm t (q ∷ rest) past = handled (map fire past) (set_elapse t q ∷ rest)

-- The first timer, if there is one, is to come.
abbrev IsToCome : ℕ → List Timer → Type 0
IsToCome t [] = Unit
IsToCome t (q ∷ rest) = t < q.time

sig_func-nil : (fuel t : ℕ) → sig_func fuel t [] ≡ handled [] []
unfolding sig_func
sig_func-nil fuel t = refl

sig_func-alarm :
    (fuel t : ℕ) (rest past : List Timer)
    → AreLate t past
    → IsToCome t rest
    → length past + 1 < fuel
    → sig_func fuel t (past ++ rest) ≡ alarm t rest past
sig_func-alarm fuel t [] [] h k f = sig_func-nil fuel t
sig_func-alarm fuel t [] (p ∷ past) h k f =
    ap (sig_func fuel t) (append-nil (p ∷ past)) ∙ sig_func_null fuel t p past h (omega (arith, f))
sig_func-alarm fuel t (q ∷ rest) past h k f = sig_func_late fuel t past q rest h k f

le_or_lt : (a b : ℕ) → (a ≤ b) ⊎ (b < a)
le_or_lt a b = ground arith

some_inj {ℓ} : {A : Type ℓ} {a b : A} → some a ≡ some b → a ≡ b
some_inj h = cc

not_earlier : (a b : ℕ) → b ≤ a → ltb a b ≡ false
not_earlier a b h = ground arith

before-nil :
    (t b : ℕ) (timers : List Timer)
    → t < b
    → IsSortedFrom b (schedule timers)
    → before t timers ≡ []
unfolding before
before-nil t b [] h s = refl
before-nil t b (p ∷ next) h (k, s) =
    rw (not_earlier p.time t (omega arith)) (before-nil t p.time next (omega arith) s)

behind-all :
    (t b : ℕ) (timers : List Timer)
    → t < b
    → IsSortedFrom b (schedule timers)
    → behind t timers ≡ timers
unfolding behind
behind-all t b [] h s = refl
behind-all t b (p ∷ next) h (k, s) =
    rw (lt→ltb t p.time (omega arith)) (ap (λ l. p ∷ l) (behind-all t p.time next (omega arith) s))

-- A sorted list is cut in two by the time.
record Cut (t : ℕ) (timers : List Timer) : Type 0 where
  two_parts : before t timers ++ behind t timers ≡ timers
  past : AreLate t (before t timers)
  to_come : IsToCome t (behind t timers)
  few : length (before t timers) ≤ length timers

by_parts :
    (t : ℕ) (timers past rest : List Timer)
    → before t timers ≡ past
    → behind t timers ≡ rest
    → past ++ rest ≡ timers
    → AreLate t past
    → IsToCome t rest
    → length past ≤ length timers
    → Cut t timers
by_parts t timers past rest a b two h k few = record {
  two_parts = rw (a, b) two;
  past = subst (AreLate t) (sym a) h;
  to_come = subst (IsToCome t) (sym b) k;
  few = subst (λ (l : List Timer). length l ≤ length timers) (sym a) few;
}

cut :
    (t b : ℕ) (timers : List Timer)
    → AreApart t timers
    → IsSortedFrom b (schedule timers)
    → Cut t timers
unfolding before behind
cut t b [] apart s = record { two_parts = refl; past = tt; to_come = tt; few = omega arith }
cut t b (p ∷ next) (ne, apart) (h, s) = elim (le_or_lt t p.time) [
  | inl k ↦
      let later : t < p.time = omega arith in
      by_parts t (p ∷ next) [] (p ∷ next) (before-nil t p.time (p ∷ next) later (omega arith, s))
        (behind-all t p.time (p ∷ next) later (omega arith, s)) refl tt later (omega arith)
  | inr k ↦
      let c = cut t p.time next apart s in
      by_parts t (p ∷ next) (p ∷ before t next) (behind t next) (rw (lt→ltb p.time t k) refl)
        (rw (not_earlier t p.time (omega arith)) refl) (ap (λ l. p ∷ l) c.two_parts) (k, c.past)
        c.to_come (omega (arith, c.few))
]

-- After the thread has taken datagrams from sorted timers, and where no timer is due just now: `sig_func` runs
-- exactly the timers whose time is past, each once and in their order, and keeps exactly the others; where all
-- timers are past, it reads through a null pointer. A fuel of two more than the timers is enough.
pub listen-alarm :
    (s : Setting) (rs : List Received) (l last : Listener) (t : ℕ)
    → AreWhole s rs
    → IsSortedFrom 0 (schedule l.timer_info)
    → listen_all s l rs ≡ some last
    → AreApart t last.timer_info
    → sig_func (length last.timer_info + 2) t last.timer_info
      ≡ alarm t (behind t last.timer_info) (before t last.timer_info)
listen-alarm s rs l last t w h e apart =
    let (last', e', sorted) = listen_all-IsSorted s rs l w h in
    let same : last' ≡ last = some_inj (sym e' ∙ e) in
    let c =
      cut t 0 last.timer_info apart
        (subst (λ (m : Listener). IsSortedFrom 0 (schedule m.timer_info)) same sorted) in
    ap (sig_func (length last.timer_info + 2) t) (sym c.two_parts)
    ∙ sig_func-alarm (length last.timer_info + 2) t (behind t last.timer_info)
        (before t last.timer_info) c.past c.to_come (omega (arith, c.few))
