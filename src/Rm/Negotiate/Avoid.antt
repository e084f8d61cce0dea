-- ===== src/Rm/Negotiate/Avoid.antt =====
-- The loop of `on_pid_a` that moves the candidates on until none of them is in the table.
use icnprototype.Prelude.{
  ℕ, zero, suc, ◌+◌, ◌%◌, ◌^◌, ◌≤◌, ◌<◌, ◌≡◌, ◌≢◌, refl, ap, ◌∙◌, true, false, List, [], ◌∷◌, some,
  map, arith, length, Bool-cases, inl, inr,
}
use native.Mathlib.Nat.{mod-eq_of_lt}
use mathlib.Core.Path.{ap₂}
use icnprototype.Rm.Table.{Table}
use icnprototype.Rm.Table.Path.{number_of}
use icnprototype.Rm.Negotiate.{in_table, clash, avoid}

-- No row of the table has the identifier.
abbrev pub IsFree : ℕ → Table → Type 0
IsFree p [] = Unit
IsFree p (r ∷ t) = (p ≢ r.pid) × IsFree p t

abbrev pub AreFree : List ℕ → Table → Type 0
AreFree [] t = Unit
AreFree (p ∷ ps) t = IsFree p t × AreFree ps t

-- Every identifier of the table is at most `top`.
abbrev pub IsBelow : ℕ → Table → Type 0
IsBelow top [] = Unit
IsBelow top (r ∷ t) = (r.pid ≤ top) × IsBelow top t

-- Every candidate can go past `top` by steps of at most 101 and stay below 2 ^ 32.
abbrev pub HasRoom : ℕ → List ℕ → Type 0
HasRoom top [] = Unit
HasRoom top (p ∷ ps) = (p + top + 101 < 2 ^ 32) × HasRoom top ps

in_table-IsFree : (p : ℕ) (t : Table) → in_table p (length t) t ≡ false → IsFree p t
unfolding in_table
in_table-IsFree p [] h = tt
in_table-IsFree p (r ∷ t) h = (ground arith, in_table-IsFree p t (ground arith))

in_table_below : (p top k : ℕ) (t : Table) → IsBelow top t → top < p → in_table p k t ≡ false
unfolding in_table
in_table_below p top zero t b h = refl
in_table_below p top (suc k) [] b h = refl
in_table_below p top (suc k) (r ∷ t) b h = ground (arith, in_table_below p top k t b.1 h)

clash_free : (ps : List ℕ) (t : Table) → length t < 256 → clash ps t ≡ false → AreFree ps t
unfolding clash
clash_free [] t l h = tt
clash_free (p ∷ ps) t l h =
    (in_table-IsFree p t (ground (arith, mod-eq_of_lt l)), clash_free ps t l (ground arith))

-- The candidates `moved` times a step further.
abbrev pub moved_by : ℕ → List ℕ → List ℕ
moved_by d ps = map (λ p. p + d) ps

clash_below :
    (ps : List ℕ) (top d : ℕ) (t : Table)
    → IsBelow top t
    → top < d
    → clash (moved_by d ps) t ≡ false
unfolding clash
clash_below [] top d t b h = refl
clash_below (p ∷ ps) top d t b h =
    ground (
      arith,
      in_table_below (p + d) top (number_of t) t b (omega arith),
      clash_below ps top d t b h,
    )

step_moved :
    (ps : List ℕ) (top d number : ℕ)
    → HasRoom top ps
    → d ≤ top
    → number ≤ 101
    → map (λ p. (p + number) % 2 ^ 32) (moved_by d ps) ≡ moved_by (d + number) ps
step_moved [] top d number r h k = refl
step_moved (p ∷ ps) top d number r h k =
    let e : (p + d + number) % 2 ^ 32 ≡ p + (d + number) = omega arith in
    ap₂ ◌∷◌ e (step_moved ps top d number r.1 h k)

avoid-hit :
    (fuel number : ℕ) (t : Table) (ps : List ℕ)
    → clash ps t ≡ true
    → avoid (suc fuel) number t ps ≡ avoid fuel number t (map (λ p. (p + number) % 2 ^ 32) ps)
unfolding avoid
avoid-hit fuel number t ps h = ground arith

avoid-free :
    (fuel number : ℕ) (t : Table) (ps : List ℕ)
    → clash ps t ≡ false
    → avoid (suc fuel) number t ps ≡ some ps
unfolding avoid
avoid-free fuel number t ps h = ground arith

-- The loop from candidates already moved by `d`, with the fuel that is left.
avoid_from :
    (fuel top d number : ℕ) (t : Table) (ps : List ℕ)
    → IsBelow top t
    → HasRoom top ps
    → 0 < number
    → number ≤ 101
    → top + 1 < fuel + d
    → 0 < fuel
    → (d' : ℕ) × (avoid fuel number t (moved_by d ps) ≡ some (moved_by d' ps))
      × (clash (moved_by d' ps) t ≡ false)
avoid_from zero top d number t ps b r n m f z = absurd (omega arith)
avoid_from (suc fuel) top d number t ps b r n m f z = elim (Bool-cases (clash (moved_by d ps) t)) [
  | inr free ↦ (d, avoid-free fuel number t (moved_by d ps) free, free)
  | inl hit ↦
      let small : d ≤ top = ground (arith, clash_below ps top d t b) in
      let (d', e, free) =
        avoid_from fuel top (d + number) number t ps b r n m (omega arith) (omega arith) in
      (
        d',
        avoid-hit fuel number t (moved_by d ps) hit
            ∙ ap (avoid fuel number t) (step_moved ps top d number r small m)
            ∙ e,
        free,
      )
]

moved_by-zero : (ps : List ℕ) → moved_by 0 ps ≡ ps
moved_by-zero [] = refl
moved_by-zero (p ∷ ps) = ap₂ ◌∷◌ (omega arith) (moved_by-zero ps)

-- In a table of fewer than 256 rows whose identifiers are at most `top`, with a step from 1 to 101 and
-- candidates `p` with `p + top + 101` below 2 ^ 32, the loop ends within `top + 2` rounds, with all
-- candidates moved on by one and the same amount, and none of them in the table.
pub avoid_ends :
    (fuel top number : ℕ) (t : Table) (ps : List ℕ)
    → length t < 256
    → IsBelow top t
    → HasRoom top ps
    → 0 < number
    → number ≤ 101
    → top + 1 < fuel
    → (d : ℕ) × (avoid fuel number t ps ≡ some (moved_by d ps)) × AreFree (moved_by d ps) t
avoid_ends fuel top number t ps l b r n m f =
    let (d, e, free) = avoid_from fuel top 0 number t ps b r n m (omega arith) (omega arith) in
    (d, rw (moved_by-zero ps) at e, clash_free (moved_by d ps) t l free)
