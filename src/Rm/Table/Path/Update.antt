-- ===== src/Rm/Table/Path/Update.antt =====
-- What `update_nid_ip_nid_ip_nid` does to the identifiers of the paths.
use icnprototype.Prelude.{
  map, ℕ, zero, suc, ◌+◌, ◌≤◌, ◌<◌, ◌≡◌, refl, List, [], ◌∷◌, arith, length, take, drop, get_or,
  if◌then◌else◌,
}
use native.Mathlib.Nat.{mod-eq_of_lt}
use icnprototype.Rm.Nid.{Nid, same_nid, same_nid_iff}
use icnprototype.Rm.Chain.{PidInfo}
use icnprototype.Rm.Chain.Init.Paths.{path_pids}
use icnprototype.Rm.Table.{Route, Table}
use icnprototype.Rm.Table.Path.{number_of, update_rows, update_nid_ip_nid_ip_nid}

pub same_nid_comm : (a b : Nid) → same_nid a b ≡ same_nid b a
same_nid_comm a b = ground (arith, same_nid_iff a b, same_nid_iff b a)

pub drop-step : (xs : List ℕ) (k : ℕ) → k < length xs → drop k xs ≡ get_or xs k 0 ∷ drop (k + 1) xs
drop-step [] k h = absurd (omega arith)
drop-step (x ∷ xs) zero h = refl
drop-step (x ∷ xs) (suc k) h = ground (arith, drop-step xs k)

update_rows_pids :
    (host : Nid) (node : PidInfo) (e : Nid) (c : ℕ) (t : Table)
    → c + length (path_pids host node.eid t) ≤ length node.pid
    → path_pids host e (update_rows host node (length t) c t) ≡ (
        if same_nid node.eid e
        then take (length (path_pids host e t)) (drop c node.pid)
        else path_pids host e t)
unfolding update_rows
update_rows_pids host node e c [] h = ground arith
update_rows_pids host node e c (r ∷ t) h = ground (
  arith,
  same_nid_comm host r.eid1,
  same_nid_iff r.eid2 node.eid,
  same_nid_iff r.eid2 e,
  same_nid_iff node.eid e,
  update_rows_pids host node e (c + 1) t,
  update_rows_pids host node e c t,
  drop-step node.pid c,
)

-- In a table of fewer than 256 rows, if the array of the node is long enough for its paths, then the
-- update gives the paths to the node's domain the node's identifiers, in order, and leaves those to
-- every other domain as they are.
pub update_pids :
    (host : Nid) (node : PidInfo) (e : Nid) (t : Table)
    → length t < 256
    → length (path_pids host node.eid t) ≤ length node.pid
    → path_pids host e (update_nid_ip_nid_ip_nid host node t) ≡ (
        if same_nid node.eid e
        then take (length (path_pids host e t)) node.pid
        else path_pids host e t)
unfolding update_nid_ip_nid_ip_nid
update_pids host node e t l h = rw (mod-eq_of_lt l) (update_rows_pids host node e 0 t (omega arith))

-- A row but for its identifier.
abbrev pub ends : Route → Nid × ℕ × ℕ × Nid
ends r = (r.eid1, r.ip1, r.ip2, r.eid2)

update_rows-ends :
    (host : Nid) (node : PidInfo) (k c : ℕ) (t : Table)
    → map ends (update_rows host node k c t) ≡ map ends t
unfolding update_rows
update_rows-ends host node zero c t = refl
update_rows-ends host node (suc k) c [] = refl
update_rows-ends host node (suc k) c (r ∷ t) =
    ground (arith, update_rows-ends host node k (c + 1) t, update_rows-ends host node k c t)

-- The update changes no domain and no address of a row, and adds and removes no row.
pub update_ends :
    (host : Nid) (node : PidInfo) (t : Table)
    → map ends (update_nid_ip_nid_ip_nid host node t) ≡ map ends t
unfolding update_nid_ip_nid_ip_nid
update_ends host node t = update_rows-ends host node (number_of t) 0 t

pub length-update :
    (host : Nid) (node : PidInfo) (t : Table)
    → length (update_nid_ip_nid_ip_nid host node t) ≡ length t
unfolding update_nid_ip_nid_ip_nid
length-update host node t = rows (number_of t) 0 t
  where
    rows : (k c : ℕ) (t : Table) → length (update_rows host node k c t) ≡ length t
    rows zero c t = refl
    rows (suc k) c [] = refl
    rows (suc k) c (r ∷ t) = ground (arith, rows k (c + 1) t, rows k c t)
