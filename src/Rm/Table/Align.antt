-- ===== src/Rm/Table/Align.antt =====
-- What `aligment_configure` does to the table.
use icnprototype.Prelude.{◌≡◌, ◌⊎◌, refl, [], ◌∷◌, arith}
use icnprototype.Rm.Nid.{Nid, same_nid_iff}
use icnprototype.Rm.Table.{Route, Table, align_row, aligment_configure}

-- No row has the host as its second domain unless it is the first domain too.
abbrev pub IsAligned : Nid → Table → Type 0
IsAligned host [] = Unit
IsAligned host (r ∷ t) = (r.eid2 ≡ host → r.eid1 ≡ host) × IsAligned host t

-- The same path, told from either of its ends.
abbrev pub SamePath : Route → Route → Type 0
SamePath r s =
    (s ≡ r) ⊎ (s ≡ record { eid1 = r.eid2; ip1 = r.ip2; pid = r.pid; ip2 = r.ip1; eid2 = r.eid1 })

abbrev pub SamePaths : Table → Table → Type 0
SamePaths [] [] = Unit
SamePaths [] (s ∷ u) = ⊥
SamePaths (r ∷ t) [] = ⊥
SamePaths (r ∷ t) (s ∷ u) = SamePath r s × SamePaths t u

align_row_aligned :
    (host : Nid) (r : Route) → (align_row host r).eid2 ≡ host → (align_row host r).eid1 ≡ host
unfolding align_row
align_row_aligned host r h = ground (arith, same_nid_iff host r.eid1, same_nid_iff host r.eid2)

align_row_same : (host : Nid) (r : Route) → SamePath r (align_row host r)
unfolding align_row
align_row_same host r = ground (arith, same_nid_iff host r.eid1, same_nid_iff host r.eid2)

align_row_idem : (host : Nid) (r : Route) → align_row host (align_row host r) ≡ align_row host r
unfolding align_row
align_row_idem host r =
    ground (arith, same_nid_iff host r.eid1, same_nid_iff host r.eid2, same_nid_iff host host)

-- After `aligment_configure` the host stands first in each row that names it, and each row is still
-- the same path, with its ends and their addresses swapped together or not at all.
pub aligment_configure-IsAligned :
    (host : Nid) (t : Table)
    → IsAligned host (aligment_configure host t) × SamePaths t (aligment_configure host t)
unfolding aligment_configure
aligment_configure-IsAligned host [] = (tt, tt)
aligment_configure-IsAligned host (r ∷ t) =
    let (a, s) = aligment_configure-IsAligned host t in
    ((λ h. align_row_aligned host r h, a), (align_row_same host r, s))

-- Running `aligment_configure` again changes nothing.
pub aligment_configure_idem :
    (host : Nid) (t : Table)
    → aligment_configure host (aligment_configure host t) ≡ aligment_configure host t
unfolding aligment_configure
aligment_configure_idem host [] = refl
aligment_configure_idem host (r ∷ t) =
    ground (arith, align_row_idem host r, aligment_configure_idem host t)
