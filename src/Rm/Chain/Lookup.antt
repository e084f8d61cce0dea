-- ===== src/Rm/Chain/Lookup.antt =====
-- What `search` and `get_item` find.
use icnprototype.Prelude.{
  ℕ, zero, suc, ◌+◌, ◌<◌, ◌≡◌, ◌≢◌, refl, [], ◌∷◌, none, some, arith, get_elem?, if◌then◌else◌,
}
use mathlib.Core.Option
use icnprototype.Rm.Nid.{Nid, differs, differs_iff}
use icnprototype.Rm.Chain.{PidInfo, Chain, search, get_item, get_item_from}

-- `search` by its first match, without the special case of the last node.
pub search-cons :
    (n : PidInfo) (c : Chain) (e : Nid)
    → search (n ∷ c) e ≡ (if differs n.eid e then Option.map suc (search c e) else some 0)
unfolding search
search-cons n [] e = ground arith
search-cons n (m ∷ c) e = refl

pub search-nil : (e : Nid) → search [] e ≡ none
unfolding search
search-nil e = refl

get_item_from_lem : (c : Chain) (i k : ℕ) → get_item_from c i (i + k) ≡ get_elem? c k
unfolding get_item_from
get_item_from_lem [] i k = refl
get_item_from_lem (n ∷ c) i zero = ground arith
get_item_from_lem (n ∷ c) i (suc k) = ground (arith, get_item_from_lem c (i + 1) k)

-- `get_item` returns the item at the position `pos` of the chain, and -1 exactly if the chain has no
-- such position.
pub get_item_lem : (c : Chain) (k : ℕ) → get_item c k ≡ get_elem? c k
unfolding get_item
get_item_lem c k = let e : 0 + k ≡ k = omega arith in rw e at (get_item_from_lem c 0 k)

pub search_found_node :
    (c : Chain) (e : Nid) (i : ℕ)
    → search c e ≡ some i
    → (n : PidInfo) × (get_elem? c i ≡ some n) × (n.eid ≡ e)
search_found_node [] e i h = ground (arith, search-nil e)
search_found_node (n ∷ c) e zero h =
    (n, refl, ground (arith, search-cons n c e, differs_iff n.eid e))
search_found_node (n ∷ c) e (suc i) h = search_found_node c e i (ground (arith, search-cons n c e))

search_found_first :
    (c : Chain) (e : Nid) (i j : ℕ) (m : PidInfo)
    → search c e ≡ some i
    → j < i
    → get_elem? c j ≡ some m
    → m.eid ≢ e
search_found_first [] e i j m h l g = ground (arith, search-nil e)
search_found_first (n ∷ c) e zero j m h l g = absurd (omega arith)
search_found_first (n ∷ c) e (suc i) zero m h l g =
    ground (arith, search-cons n c e, differs_iff m.eid e)
search_found_first (n ∷ c) e (suc i) (suc j) m h l g =
    search_found_first c e i j m (ground (arith, search-cons n c e)) (omega arith) g

-- If `search` returns a node, its identifier is the one looked for, and no node before it has that
-- identifier.
pub search_found :
    (c : Chain) (e : Nid) (i : ℕ)
    → search c e ≡ some i
    → ((n : PidInfo) × (get_elem? c i ≡ some n) × (n.eid ≡ e))
      × ((j : ℕ) (m : PidInfo) → j < i → get_elem? c j ≡ some m → m.eid ≢ e)
search_found c e i h = (search_found_node c e i h, λ j m l g. search_found_first c e i j m h l g)

-- If `search` returns the null pointer, no node of the chain has the identifier looked for.
pub search_missing :
    (c : Chain) (e : Nid) (i : ℕ) (n : PidInfo)
    → search c e ≡ none
    → get_elem? c i ≡ some n
    → n.eid ≢ e
search_missing [] e i n h g = cc
search_missing (m ∷ c) e zero n h g = ground (arith, search-cons m c e, differs_iff n.eid e)
search_missing (m ∷ c) e (suc i) n h g =
    search_missing c e i n (ground (arith, search-cons m c e)) g
