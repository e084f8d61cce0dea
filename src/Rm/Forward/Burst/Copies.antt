-- ===== src/Rm/Forward/Burst/Copies.antt =====
-- What the copying loops of `send_packetsx4` leave in the table.
use mathlib.Core.List.{append-nil, append_assoc}
use icnprototype.Prelude.{
  ℕ, zero, suc, ◌+◌, ◌-◌, ◌*◌, ◌%◌, ◌<◌, ◌≤◌, ◌≡◌, refl, sym, ap, ◌∙◌, inl, inr, Bool-cases, List,
  [], ◌∷◌, ◌++◌, some, length, length-set, set, take, take-set, ltb, lt→ltb, arith,
}
use icnprototype.Rm.Forward.Burst.{max_pkt_burst, first_pass, passes, copied, copy}

passes_end : (fuel j n : ℕ) → n ≤ j → passes fuel j n ≡ j
unfolding passes
passes_end zero j n h = refl
passes_end (suc fuel) j n h = ground arith

passes_lem : (fuel j n : ℕ) → j ≤ n → (n - j) % 4 ≡ 0 → n ≤ j + 4 * fuel → passes fuel j n ≡ n
unfolding passes
passes_lem zero j n h k l = omega arith
passes_lem (suc fuel) j n h k l = elim (Bool-cases (ltb j n)) [
  | inl b ↦ rw b (passes_lem fuel (j + 4) n (ground arith) (ground arith) (omega arith))
  | inr b ↦ rw b (ground arith)
]

pub copied_lem : (n : ℕ) → 0 < n → copied n ≡ n
unfolding copied
copied_lem n h = passes_lem n (first_pass n) n (ground arith) (ground arith) (ground arith)

module _ {ℓ} {Packet : Type ℓ} where
  pub copy_lem :
      (k at : ℕ) (m_table m : List Packet)
      → at + k ≤ length m_table
      → k ≤ length m
      → (t : List Packet) × (copy m_table at m k ≡ some t)
        × (length t ≡ length m_table)
        × (take (at + k) t ≡ take at m_table ++ take k m)
  unfolding copy
  copy_lem zero at m_table m h l = (
    m_table,
    refl,
    refl,
    ap (λ i. take i m_table) (omega arith) ∙ sym (append-nil (take at m_table)),
  )
  copy_lem (suc k) at m_table [] h l = absurd (omega arith)
  copy_lem (suc k) at m_table (x ∷ m) h l =
      let (t, e, f, g) =
        copy_lem k (at + 1) (set m_table at x) m (omega (arith, length-set m_table at x))
          (omega arith) in
      let shift : at + suc k ≡ at + 1 + k = omega arith in
      let next : at + 1 ≡ suc at = omega arith in
      (
        t,
        rw (lt→ltb at (length m_table) (omega arith)) e,
        f ∙ length-set m_table at x,
        ap (λ i. take i t) shift
            ∙ g
            ∙ ap (λ l. l ++ take k m)
                (ap (λ i. take i (set m_table at x)) next ∙ take-set m_table at x (omega arith))
            ∙ append_assoc (take at m_table) (x ∷ []) (take k m),
      )

  -- The copy of the rest, of which the loop copies four packets when there are none.
  pub copy_rest :
      (r : ℕ) (full m : List Packet)
      → length full ≡ max_pkt_burst
      → r < max_pkt_burst
      → r + 4 ≤ length m
      → (t : List Packet) × (copy full 0 m (copied r) ≡ some t)
        × (length t ≡ max_pkt_burst)
        × (take r t ≡ take r m)
  unfolding copied copy passes
  copy_rest zero full m h l room =
      let (t, e, f, g) = copy_lem 4 0 full m (omega (arith, h)) room in (t, e, f ∙ h, refl)
  copy_rest (suc r) full m h l room =
      let (t, e, f, g) = copy_lem (suc r) 0 full m (omega (arith, h)) (omega arith) in
      let whole : suc r ≡ 0 + suc r = omega arith in
      (
        t,
        ap (λ n. copy full 0 m n) (copied_lem (suc r) (omega arith)) ∙ e,
        f ∙ h,
        ap (λ i. take i t) whole ∙ g,
      )
