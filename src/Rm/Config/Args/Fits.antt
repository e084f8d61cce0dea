-- ===== src/Rm/Config/Args/Fits.antt =====
-- The parameters that `parse_config` reads fit in their array.
use icnprototype.Prelude.{
  ℕ, zero, suc, ◌≤◌, ◌≡◌, refl, subst, inl, inr, Bool-cases, Option-cases, List, [], ◌∷◌, ◌++◌,
  length, length-append, leb, Option, none, some, arith,
}
use icnprototype.Rm.Config.{LcoreParams}
use icnprototype.Rm.Config.Checks.{All}
use icnprototype.Rm.Config.Args.{
  Text, Libc, max_lcore_params, strchr, int_fld, params_of, parse_fields, store, group,
  parse_groups,
}

-- Three bytes.
pub record IsBytes (p : LcoreParams) : Type 0 where
  pub port : p.port_id ≤ 255
  pub queue : p.queue_id ≤ 255
  pub lcore : p.lcore_id ≤ 255

-- Parameters that fit in `lcore_params_array`.
pub record Fits (params : List LcoreParams) : Type 0 where
  pub entries : length params ≤ max_lcore_params
  pub bytes : All IsBytes params

int_fld_le : (libc : Libc) (s : Text) (n : ℕ) → int_fld libc s ≡ some n → n ≤ 255
int_fld_le libc s n h = ground arith

params_of-IsBytes :
    (libc : Libc) (port queue lcore : Text) (a b c : Option ℕ) (p : LcoreParams)
    → int_fld libc port ≡ a
    → int_fld libc queue ≡ b
    → int_fld libc lcore ≡ c
    → params_of a b c ≡ some p
    → IsBytes p
params_of-IsBytes libc port queue lcore (some x) (some y) (some z) p f g k h =
    let e : record { port_id = x; queue_id = y; lcore_id = z } ≡ p = ground (arith, h) in
    subst IsBytes e (record {
      port = int_fld_le libc port x f;
      queue = int_fld_le libc queue y g;
      lcore = int_fld_le libc lcore z k;
    })
params_of-IsBytes libc port queue lcore none _ _ p f g k h = ground (arith, h)
params_of-IsBytes libc port queue lcore (some x) none _ p f g k h = ground (arith, h)
params_of-IsBytes libc port queue lcore (some x) (some y) none p f g k h = ground (arith, h)

parse_fields-IsBytes :
    (libc : Libc) (fields : List Text) (p : LcoreParams)
    → parse_fields libc fields ≡ some p
    → IsBytes p
parse_fields-IsBytes libc [] p h = ground (arith, h)
parse_fields-IsBytes libc (x ∷ []) p h = ground (arith, h)
parse_fields-IsBytes libc (x ∷ y ∷ []) p h = ground (arith, h)
parse_fields-IsBytes libc (x ∷ y ∷ z ∷ []) p h =
    params_of-IsBytes libc x y z (int_fld libc x) (int_fld libc y) (int_fld libc z) p refl refl refl
      h
parse_fields-IsBytes libc (x ∷ y ∷ z ∷ w ∷ _) p h = ground (arith, h)

All-snoc :
    (P : LcoreParams → Type 0) (params : List LcoreParams) (p : LcoreParams)
    → All P params
    → P p
    → All P (params ++ (p ∷ []))
All-snoc P [] p h k = (k, tt)
All-snoc P (x ∷ params) p (h, t) k = (h, All-snoc P params p t k)

store-Fits :
    (params : List LcoreParams) (o : Option LcoreParams) (more : List LcoreParams)
    → Fits params
    → ((p : LcoreParams) → o ≡ some p → IsBytes p)
    → store params o ≡ some more
    → Fits more
store-Fits params none more f b h = ground (arith, h)
store-Fits params (some p) more f b h = elim (Bool-cases (leb max_lcore_params (length params))) [
  | inl c ↦ ground (arith, c, h)
  | inr c ↦
      (let e : params ++ (p ∷ []) ≡ more = ground (arith, c, h) in
        subst Fits e (record {
          entries = ground (arith, c, length-append params (p ∷ []));
          bytes = All-snoc IsBytes params p f.bytes (b p refl);
        }))
]

group-Fits :
    (libc : Libc) (params : List LcoreParams) (s : Text) (more : List LcoreParams)
    → Fits params
    → group libc params s ≡ some more
    → Fits more
group-Fits libc params s more f h = elim (Bool-cases (leb 256 (length s))) [
  | inl c ↦ ground (arith, c, h)
  | inr c ↦
      store-Fits params (parse_fields libc (libc.rte_strsplit s 3)) more f
        (λ p e. parse_fields-IsBytes libc (libc.rte_strsplit s 3) p e) (ground (arith, c, h))
]

pub parse_groups-Fits :
    (libc : Libc) (fuel : ℕ) (params : List LcoreParams) (s : Text) (more : List LcoreParams)
    → Fits params
    → parse_groups libc fuel params s ≡ some more
    → Fits more
unfolding parse_groups
parse_groups-Fits libc zero params s more f h = ground arith
parse_groups-Fits libc (suc fuel) params s more f h = elim (Option-cases (strchr b'(' s)) [
  | inl e ↦ (let r : params ≡ more = ground (arith, e, h) in subst Fits r f)
  | inr (from, e) ↦ elim (Option-cases (strchr b')' from.1)) [
    | inl d ↦ ground (arith, e, d, h)
    | inr (to, d) ↦ elim (Option-cases (group libc params to.0)) [
      | inl g ↦ ground (arith, e, d, g, h)
      | inr (next, g) ↦
          parse_groups-Fits libc fuel next to.1 more (group-Fits libc params to.0 next f g)
            (ground (arith, e, d, g, h))
    ]
  ]
]
