-- ===== src/Monitor/Timer/Insert.antt =====
-- `insert_a_timer` against sorted insertion.
use icnprototype.Prelude.{
  ℕ, ◌≤◌, ◌≡◌, ◌<◌, ◌⊎◌, refl, ap, inl, inr, Bool, true, false, ◌&&◌, Bool-cases, List, [], ◌∷◌,
  leb, ltb, leb→le, lt→ltb, ◌==◌, if◌then◌else◌, arith,
}
use icnprototype.Monitor.Timer.{Timer, Proc, repeats, step, walk, from_head, insert_a_timer}

-- A timer without the time left, which the code recomputes.
pub record Entry : Type 0 where
  pub timer_id : ℕ
  pub flag : ℕ
  pub time : ℕ
  pub timer_proc : Proc

abbrev pub entry : Timer → Entry
entry p = record { timer_id = p.timer_id; flag = p.flag; time = p.time; timer_proc = p.timer_proc }

abbrev pub schedule : List Timer → List Entry
schedule [] = []
schedule (p ∷ next) = entry p ∷ schedule next

abbrev pub same_key : Entry → Entry → Bool
same_key a b = a.timer_id == b.timer_id && a.flag == b.flag

-- Without the first entry for the same timer and function.
unfoldable pub without : Entry → List Entry → List Entry
without e [] = []
without e (x ∷ xs) = if same_key x e then xs else x ∷ without e xs

-- Before the first entry that is due no sooner.
unfoldable pub insert : Entry → List Entry → List Entry
insert e [] = e ∷ []
insert e (x ∷ xs) = if leb e.time x.time then e ∷ x ∷ xs else x ∷ insert e xs

walk_done : (pnew : Timer) (before : ℕ) (l : List Timer) → walk pnew before true true l ≡ l
unfolding walk
walk_done pnew before [] = refl
walk_done pnew before (p ∷ []) = refl
walk_done pnew before (p ∷ q ∷ next) = refl

walk_repeted :
    (pnew : Timer) (before : ℕ) (l : List Timer)
    → schedule (walk pnew before false true l) ≡ insert (entry pnew) (schedule l)
unfolding walk step insert
walk_repeted pnew before [] = refl
walk_repeted pnew before (p ∷ []) = elim (Bool-cases (leb pnew.time p.time)) [
  | inl h ↦ rw h refl
  | inr h ↦ rw h refl
]
walk_repeted pnew before (p ∷ q ∷ next) = elim (Bool-cases (leb pnew.time p.time)) [
  | inl h ↦ rw (h, walk_done pnew p.time (q ∷ next)) refl
  | inr h ↦ rw h (ap (λ l. entry p ∷ l) (walk_repeted pnew p.time (q ∷ next)))
]

walk_inserted :
    (pnew : Timer) (before : ℕ) (l : List Timer)
    → schedule (walk pnew before true false l) ≡ without (entry pnew) (schedule l)
unfolding walk step without
walk_inserted pnew before [] = refl
walk_inserted pnew before (p ∷ []) = elim (Bool-cases (repeats p pnew)) [
  | inl h ↦ rw h refl
  | inr h ↦ rw h refl
]
walk_inserted pnew before (p ∷ q ∷ next) = elim (Bool-cases (repeats p pnew)) [
  | inl h ↦ rw (h, walk_done pnew q.time next) refl
  | inr h ↦ rw h (ap (λ l. entry p ∷ l) (walk_inserted pnew p.time (q ∷ next)))
]

-- The node `p` in the loop's second half, nothing having been inserted yet.
schedule-step :
    (pnew : Timer) (before : ℕ) (p : Timer) (rest : Bool → List Timer) {l : List Entry}
    → schedule (rest true) ≡ l
    → schedule (rest false) ≡ insert (entry pnew) l
    → schedule (step pnew before false p rest) ≡ insert (entry pnew) (entry p ∷ l)
unfolding step insert
schedule-step pnew before p rest a b = elim (Bool-cases (leb pnew.time p.time)) [
  | inl h ↦ rw h (ap (λ l. entry pnew ∷ entry p ∷ l) a)
  | inr h ↦ rw h (ap (λ l. entry p ∷ l) b)
]

insert-nil : (e : Entry) → e ∷ [] ≡ insert e []
unfolding insert
insert-nil e = refl

schedule-walk :
    (pnew : Timer) (before : ℕ) (l : List Timer)
    → schedule (walk pnew before false false l)
      ≡ insert (entry pnew) (without (entry pnew) (schedule l))
unfolding walk without
schedule-walk pnew before [] = insert-nil (entry pnew)
schedule-walk pnew before (p ∷ []) = elim (Bool-cases (repeats p pnew)) [
  | inl h ↦ rw h (insert-nil (entry pnew))
  | inr h ↦ rw h (schedule-step pnew before p _ refl (insert-nil (entry pnew)))
]
schedule-walk pnew before (p ∷ q ∷ next) = elim (Bool-cases (repeats p pnew)) [
  | inl h ↦ rw h (
      schedule-step pnew before q _ (ap schedule (walk_done pnew q.time next))
        (walk_repeted pnew q.time next))
  | inr h ↦ rw h (
      schedule-step pnew before p _ (walk_inserted pnew p.time (q ∷ next))
        (schedule-walk pnew p.time (q ∷ next)))
]

le→not-ltb : (a b : ℕ) → b ≤ a → ltb a b ≡ false
le→not-ltb a b h = ground arith

not-leb→le : (a b : ℕ) → leb a b ≡ false → b ≤ a
not-leb→le a b h = ground arith

le_or_lt : (a b : ℕ) → (a ≤ b) ⊎ (b < a)
le_or_lt a b = ground arith

from_head_repeted :
    (now : ℕ) (pnew : Timer) (l : List Timer)
    → schedule (from_head now pnew true l) ≡ insert (entry pnew) (schedule l)
unfolding step
from_head_repeted now pnew [] = insert-nil (entry pnew)
from_head_repeted now pnew (p ∷ next) =
    schedule-step pnew now p (λ i. walk pnew p.time i true next)
      (ap schedule (walk_done pnew p.time next)) (walk_repeted pnew p.time next)

pub insert_a_timer_lem :
    (now : ℕ) (head : List Timer) (pnew : Timer)
    → now ≤ pnew.time
    → schedule (insert_a_timer now head pnew)
      ≡ insert (entry pnew) (without (entry pnew) (schedule head))
unfolding insert_a_timer without step
insert_a_timer_lem now [] pnew h = rw (le→not-ltb pnew.time now h) (insert-nil (entry pnew))
insert_a_timer_lem now (p ∷ next) pnew h = elim (Bool-cases (repeats p pnew)) [
  | inl k ↦ rw (le→not-ltb pnew.time now h, k) (from_head_repeted now pnew next)
  | inr k ↦
      rw (le→not-ltb pnew.time now h, k)
        (schedule-step pnew now p (λ i. walk pnew p.time i false next)
          (walk_inserted pnew p.time next) (schedule-walk pnew p.time next))
]

insert_a_timer_past :
    (now : ℕ) (head : List Timer) (pnew : Timer)
    → pnew.time < now
    → insert_a_timer now head pnew ≡ head
unfolding insert_a_timer
insert_a_timer_past now [] pnew h = rw (lt→ltb pnew.time now h) refl
insert_a_timer_past now (p ∷ next) pnew h = rw (lt→ltb pnew.time now h) refl

-- Ascending times.
abbrev pub IsSortedFrom : ℕ → List Entry → Type 0
IsSortedFrom t [] = Unit
IsSortedFrom t (x ∷ xs) = (t ≤ x.time) × IsSortedFrom x.time xs

IsSortedFrom-weaken : {s t : ℕ} (l : List Entry) → s ≤ t → IsSortedFrom t l → IsSortedFrom s l
IsSortedFrom-weaken [] h k = k
IsSortedFrom-weaken (x ∷ xs) h (a, k) = (omega arith, k)

without-IsSorted :
    (t : ℕ) (e : Entry) (l : List Entry) → IsSortedFrom t l → IsSortedFrom t (without e l)
unfolding without
without-IsSorted t e [] h = h
without-IsSorted t e (x ∷ xs) (a, h) = elim (Bool-cases (same_key x e)) [
  | inl k ↦ rw k (IsSortedFrom-weaken xs a h)
  | inr k ↦ rw k (a, without-IsSorted x.time e xs h)
]

insert-IsSorted :
    (t : ℕ) (e : Entry) (l : List Entry)
    → t ≤ e.time
    → IsSortedFrom t l
    → IsSortedFrom t (insert e l)
unfolding insert
insert-IsSorted t e [] b h = (b, h)
insert-IsSorted t e (x ∷ xs) b (a, h) = elim (Bool-cases (leb e.time x.time)) [
  | inl k ↦ rw k (b, (leb→le e.time x.time k, h))
  | inr k ↦ rw k (a, insert-IsSorted x.time e xs (not-leb→le e.time x.time k) h)
]

-- `insert_a_timer` keeps the timers in ascending order of their times.
pub insert_a_timer-IsSorted :
    (now : ℕ) (head : List Timer) (pnew : Timer)
    → IsSortedFrom 0 (schedule head)
    → IsSortedFrom 0 (schedule (insert_a_timer now head pnew))
insert_a_timer-IsSorted now head pnew h = elim (le_or_lt now pnew.time) [
  | inl k ↦
      rw (insert_a_timer_lem now head pnew k)
        (insert-IsSorted 0 (entry pnew) _ (omega arith) (without-IsSorted 0 (entry pnew) _ h))
  | inr k ↦ rw (insert_a_timer_past now head pnew k) h
]
