-- ===== src/Rm/Chain/Init/Paths.antt =====
-- The identifiers that the chain and the table hold for a neighbour.
use icnprototype.Prelude.{
  ℕ, zero, suc, ◌≡◌, List, [], ◌∷◌, ◌++◌, Option, none, some, arith, get_elem?, if◌then◌else◌,
}
use mathlib.Core.Option
use icnprototype.Rm.Nid.{Nid, same_nid, same_nid_iff, differs, differs_iff}
use icnprototype.Rm.Chain.{PidInfo, Chain, used, search, modify}
use icnprototype.Rm.Chain.Lookup.{search-cons, search-nil}
use icnprototype.Rm.Table.{Table}

abbrev pub pids_at : Chain → Option ℕ → List ℕ
pids_at c none = []
pids_at c (some i) = elim (get_elem? c i) [ none ↦ [] | some n ↦ used n ]

-- The identifiers that the chain keeps for a neighbour, through `search`.
abbrev pub pids_to : Chain → Nid → List ℕ
pids_to c e = pids_at c (search c e)

-- The identifiers of the table's paths from the host to a neighbour, in the table's order.
abbrev pub path_pids : Nid → Nid → Table → List ℕ
path_pids host e [] = []
path_pids host e (r ∷ t) =
    let rest = path_pids host e t in
    if same_nid host r.eid1 then if same_nid r.eid2 e then r.pid ∷ rest else rest else rest

pub pids_to-cons :
    (n : PidInfo) (c : Chain) (e : Nid)
    → pids_to (n ∷ c) e ≡ (if differs n.eid e then pids_to c e else used n)
pids_to-cons n c e = rw (search-cons n c e) (split (search c e))
  where
    split :
        (o : Option ℕ)
        → pids_at (n ∷ c) (if differs n.eid e then Option.map suc o else some 0)
          ≡ (if differs n.eid e then pids_at c o else used n)
    split none = ground arith
    split (some i) = ground arith

-- Appending a node for a new neighbour.
pub pids_to-append :
    (c : Chain) (p : PidInfo) (e : Nid)
    → search c p.eid ≡ none
    → pids_to (c ++ (p ∷ [])) e ≡ (if same_nid p.eid e then used p else pids_to c e)
pids_to-append [] p e h =
    ground (arith, pids_to-cons p [] e, search-nil e, differs_iff p.eid e, same_nid_iff p.eid e)
pids_to-append (n ∷ c) p e h = ground (
  arith,
  search-cons n c p.eid,
  pids_to-cons n c e,
  pids_to-cons n (c ++ (p ∷ [])) e,
  pids_to-append c p e,
  differs_iff n.eid e,
  differs_iff n.eid p.eid,
  same_nid_iff p.eid e,
)

-- Rewriting the node of a neighbour.
pub pids_to-modify :
    (c : Chain) (i : ℕ) (n : PidInfo) (f : PidInfo → PidInfo) (e e' : Nid)
    → search c e ≡ some i
    → get_elem? c i ≡ some n
    → (f n).eid ≡ n.eid
    → pids_to (modify c i f) e' ≡ (if same_nid e e' then used (f n) else pids_to c e')
unfolding modify
pids_to-modify [] i n f e e' h g k = cc
pids_to-modify (m ∷ c) zero n f e e' h g k = ground (
  arith,
  search-cons m c e,
  pids_to-cons m c e',
  pids_to-cons (f m) c e',
  differs_iff m.eid e,
  differs_iff m.eid e',
  differs_iff (f m).eid e',
  same_nid_iff e e',
)
pids_to-modify (m ∷ c) (suc i) n f e e' h g k = ground (
  arith,
  search-cons m c e,
  pids_to-cons m c e',
  pids_to-cons m (modify c i f) e',
  pids_to-modify c i n f e e',
  differs_iff m.eid e,
  differs_iff m.eid e',
  same_nid_iff e e',
)

pub pids_to_found :
    (c : Chain) (e : Nid) (i : ℕ) (n : PidInfo)
    → search c e ≡ some i
    → get_elem? c i ≡ some n
    → pids_to c e ≡ used n
pids_to_found c e i n s g = ground arith
