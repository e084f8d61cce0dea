-- ===== src/Rm/Table.antt =====
-- The table `nid_ip_nid_ip_nid_array` of RM/wenxingbeng.c, a row for each path between two neighbour
-- domains, and the functions of RM/wenxingbeng.c and RM/main.c over its rows alone.
pub mod Align
pub mod Path
use icnprototype.Prelude.{ℕ, List, [], ◌∷◌, ◌||◌, not, if◌then◌else◌}
use icnprototype.Rm.Nid.{Nid, same_nid}

-- `struct nid_ip_nid_ip_nid`
pub record Route : Type 0 where
  pub eid1 : Nid
  pub ip1 : ℕ
  pub pid : ℕ
  pub ip2 : ℕ
  pub eid2 : Nid

abbrev pub Table : Type 0
Table = List Route

-- The body of the loop of `aligment_configure`: a row that has the host on its right is turned round.
-- `eid2` is overwritten first, so that it takes the old `eid1`.
align_row : Nid → Route → Route
align_row host r =
    if same_nid host r.eid1 || same_nid host r.eid2
    then (if not (same_nid host r.eid1)
        then record { eid1 = host; ip1 = r.ip2; pid = r.pid; ip2 = r.ip1; eid2 = r.eid1 }
        else r)
    else r

pub aligment_configure : Nid → Table → Table
unfolding align_row
aligment_configure host [] = []
aligment_configure host (r ∷ t) = align_row host r ∷ aligment_configure host t
