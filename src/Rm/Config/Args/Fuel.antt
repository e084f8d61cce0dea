-- ===== src/Rm/Config/Args/Fuel.antt =====
-- The fuel of the loop of `parse_config`.
use icnprototype.Prelude.{
  ℕ, zero, suc, ◌<◌, ◌≡◌, inl, inr, Option-cases, List, [], ◌∷◌, length, some, arith,
}
use icnprototype.Rm.Config.{LcoreParams}
use icnprototype.Rm.Config.Args.{Text, Libc, strchr, group, parse_groups, parse_config}

-- The search takes at least one character.
strchr_lem :
    (c : ℕ) (s : Text) (found : Text × Text) → strchr c s ≡ some found → length found.1 < length s
unfolding strchr
strchr_lem c [] found h = ground arith
strchr_lem c (x ∷ s) found h = elim (Option-cases (strchr c s)) [
  | inl e ↦ ground (arith, e)
  | inr (before_after, e) ↦ ground (arith, e, strchr_lem c s before_after e)
]

-- More fuel than the text has characters gives the same result.
parse_groups-fuel :
    (libc : Libc) (fuel more : ℕ) (params : List LcoreParams) (s : Text)
    → length s < fuel
    → length s < more
    → parse_groups libc fuel params s ≡ parse_groups libc more params s
unfolding parse_groups
parse_groups-fuel libc zero more params s h k = absurd (omega arith)
parse_groups-fuel libc (suc fuel) zero params s h k = absurd (omega arith)
parse_groups-fuel libc (suc fuel) (suc more) params s h k = elim (Option-cases (strchr b'(' s)) [
  | inl e ↦ ground (arith, e)
  | inr (from, e) ↦ elim (Option-cases (strchr b')' from.1)) [
    | inl d ↦ ground (arith, e, d)
    | inr (to, d) ↦ elim (Option-cases (group libc params to.0)) [
      | inl g ↦ ground (arith, e, d, g)
      | inr (next, g) ↦ ground (
        arith,
        e,
        d,
        g,
        parse_groups-fuel libc fuel more next to.1
            (omega (arith, strchr_lem b'(' s from e, strchr_lem b')' from.1 to d))
            (omega (arith, strchr_lem b'(' s from e, strchr_lem b')' from.1 to d)),
      )
    ]
  ]
]

-- The loop of `parse_config` ends: any fuel above the text's length gives the result of `parse_config`.
pub parse_config_ends :
    (libc : Libc) (q_arg : Text) (fuel : ℕ)
    → length q_arg < fuel
    → parse_groups libc fuel [] q_arg ≡ parse_config libc q_arg
unfolding parse_config
parse_config_ends libc q_arg fuel h =
    parse_groups-fuel libc fuel (suc (length q_arg)) [] q_arg h (omega arith)
