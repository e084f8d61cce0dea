-- ===== src/Rm/Select/Rotation.antt =====
-- The order in which the rotations take the paths.
use icnprototype.Prelude.{ℕ, zero, suc, ◌+◌, ◌%◌, ◌≡◌, ◌<◌, subst, refl, some, arith}
use icnprototype.Rm.Select.{Turn, start, lunxun}

-- The globals after `n` calls of `lunxun`.
unfoldable pub after : ℕ → Turn → Turn
after zero t = t
after (suc n) t = after n (lunxun t).1

-- The states that the calls of `lunxun` go round.
data AtTurn : ℕ → Turn → Type 0 where
  first : {t : Turn} → t.k2 ≡ 0 → t.flag2 ≡ 0 → AtTurn 0 t
  second : {t : Turn} → t.k2 ≡ 1 → t.flag2 ≡ 0 → AtTurn 1 t
  third : {t : Turn} → t.k2 ≡ 1 → t.flag2 ≡ 1 → AtTurn 2 t

abbrev next_turn : ℕ → ℕ
next_turn i = (i + 1) % 3

lunxun-AtTurn : {i : ℕ} {t : Turn} → AtTurn i t → AtTurn (next_turn i) (lunxun t).1
unfolding lunxun
lunxun-AtTurn (first a b) = second (ground arith) (ground arith)
lunxun-AtTurn (second a b) = third (ground arith) (ground arith)
lunxun-AtTurn (third a b) = first (ground arith) (ground arith)

lunxun_takes : {i : ℕ} {t : Turn} → AtTurn i t → (lunxun t).0 ≡ some (i + 1)
unfolding lunxun
lunxun_takes (first a b) = ground arith
lunxun_takes (second a b) = ground arith
lunxun_takes (third a b) = ground arith

AtTurn-at : {i j : ℕ} {t : Turn} → i ≡ j → AtTurn i t → AtTurn j t
AtTurn-at {t} e h = subst (λ i. AtTurn i t) e h

AtTurn-lt : {i : ℕ} {t : Turn} → AtTurn i t → i < 3
AtTurn-lt (first a b) = omega arith
AtTurn-lt (second a b) = omega arith
AtTurn-lt (third a b) = omega arith

after-AtTurn : (n : ℕ) {i : ℕ} {t : Turn} → AtTurn i t → AtTurn ((n + i) % 3) (after n t)
unfolding after
after-AtTurn zero {i} h = AtTurn-at (let l = AtTurn-lt h in omega arith) h
after-AtTurn (suc n) {i} h = AtTurn-at (omega arith) (after-AtTurn n (lunxun-AtTurn h))

-- From the initial globals, the n-th call of `lunxun` (from 0) sets the path number n mod 3 + 1, so
-- it always sets one and takes the three paths in turn.
pub lunxun_order : (n : ℕ) → (lunxun (after n start)).0 ≡ some (n % 3 + 1)
lunxun_order n = lunxun_takes (AtTurn-at (omega arith) (after-AtTurn n (first refl refl)))

-- A further call comes last.
pub after-suc : (n : ℕ) (t : Turn) → after (suc n) t ≡ (lunxun (after n t)).1
unfolding after
after-suc zero t = refl
after-suc (suc n) t = after-suc n (lunxun t).1
