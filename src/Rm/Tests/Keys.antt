-- ===== src/Rm/Tests/Keys.antt =====
-- A table of keys in a list, as an instance of `rte_hash`.
use icnprototype.Prelude.{
  ℕ, ◌+◌, ◌≤◌, ◌≡◌, ◌≢◌, refl, sym, ap, ◌∙◌, inl, inr, Bool-cases, List, [], ◌∷◌, ◌++◌, length,
  Option, none, some, arith, if◌then◌else◌,
}
use icnprototype.Rm.Nid.{differs, differs_iff}
use icnprototype.Rm.Forward.Route.{Hash}

unfoldable pub index_of : ℕ → List (List ℕ) → List ℕ → Option ℕ
index_of i [] key = none
index_of i (k ∷ keys) key =
    let rest = index_of (i + 1) keys key in if differs k key then rest else some i

index_of-snoc :
    (i : ℕ) (keys : List (List ℕ)) (key : List ℕ)
    → index_of i keys key ≡ none
    → index_of i (keys ++ (key ∷ [])) key ≡ some (i + length keys)
unfolding index_of
index_of-snoc i [] key h = ground (arith, differs_iff key key)
index_of-snoc i (k ∷ keys) key h = elim (Bool-cases (differs k key)) [
  | inl d ↦ rw d (index_of-snoc (i + 1) keys key (ground (arith, d, h)) ∙ ap some (omega arith))
  | inr d ↦ ground (arith, d, h)
]

index_of-other :
    (i : ℕ) (keys : List (List ℕ)) (key other : List ℕ)
    → key ≢ other
    → index_of i (keys ++ (key ∷ [])) other ≡ index_of i keys other
unfolding index_of
index_of-other i [] key other h = ground (arith, h, differs_iff key other)
index_of-other i (k ∷ keys) key other h = elim (Bool-cases (differs k other)) [
  | inl d ↦ rw d (index_of-other (i + 1) keys key other h)
  | inr d ↦ rw d refl
]

index_of_ge :
    (i : ℕ) (keys : List (List ℕ)) (key : List ℕ) (n : ℕ) → index_of i keys key ≡ some n → i ≤ n
unfolding index_of
index_of_ge i [] key n h = ground (arith, h)
index_of_ge i (k ∷ keys) key n h = elim (Bool-cases (differs k key)) [
  | inl d ↦ (let l = index_of_ge (i + 1) keys key n (ground (arith, d, h)) in omega (arith, l))
  | inr d ↦ ground (arith, d, h)
]

pub index_of_own :
    (i : ℕ) (keys : List (List ℕ)) (n : ℕ) (a b : List ℕ)
    → index_of i keys a ≡ some n
    → index_of i keys b ≡ some n
    → a ≡ b
unfolding index_of
index_of_own i [] n a b h l = ground (arith, h)
index_of_own i (k ∷ keys) n a b h l = elim (Bool-cases (differs k a)) [
  | inl d ↦ elim (Bool-cases (differs k b)) [
    | inl e ↦ index_of_own (i + 1) keys n a b (ground (arith, d, h)) (ground (arith, e, l))
    | inr e ↦
        (let g = index_of_ge (i + 1) keys a n (ground (arith, d, h)) in ground (arith, e, l, g))
  ]
  | inr d ↦ elim (Bool-cases (differs k b)) [
    | inl e ↦
        (let g = index_of_ge (i + 1) keys b n (ground (arith, e, l)) in ground (arith, d, h, g))
    | inr e ↦ sym ((differs_iff k a).0 d) ∙ (differs_iff k b).0 e
  ]
]

abbrev added : List (List ℕ) → List ℕ → Option ℕ → Option (ℕ × List (List ℕ))
added keys key none = some (length keys, keys ++ (key ∷ []))
added keys key (some i) = some (i, keys)

pub added_self :
    (keys u : List (List ℕ)) (i : ℕ) (key : List ℕ) (o : Option ℕ)
    → index_of 0 keys key ≡ o
    → added keys key o ≡ some (i, u)
    → index_of 0 u key ≡ some i
added_self keys u i key none h e =
    let f : length keys ≡ i = ground (arith, e) in
    let g : keys ++ (key ∷ []) ≡ u = ground (arith, e) in
    let z : 0 + length keys ≡ i = omega (arith, f) in
    ap (λ l. index_of 0 l key) (sym g) ∙ index_of-snoc 0 keys key h ∙ ap some z
added_self keys u i key (some j) h e =
    let f : j ≡ i = ground (arith, e) in
    let g : keys ≡ u = ground (arith, e) in ap (λ l. index_of 0 l key) (sym g) ∙ h ∙ ap some f

pub added_other :
    (keys u : List (List ℕ)) (i : ℕ) (key other : List ℕ) (o : Option ℕ)
    → added keys key o ≡ some (i, u)
    → key ≢ other
    → index_of 0 u other ≡ index_of 0 keys other
added_other keys u i key other none e h =
    let g : keys ++ (key ∷ []) ≡ u = ground (arith, e) in
    ap (λ l. index_of 0 l other) (sym g) ∙ index_of-other 0 keys key other h
added_other keys u i key other (some j) e h =
    let g : keys ≡ u = ground (arith, e) in ap (λ l. index_of 0 l other) (sym g)

unfoldable pub list_hash : Hash
unfolding index_of
list_hash = record {
  Table = List (List ℕ);
  rte_hash_create = [];
  rte_hash_add_key = λ keys key. added keys key (index_of 0 keys key);
  rte_hash_lookup = λ keys key. index_of 0 keys key;
  lookup_create = λ key. refl;
  lookup_added = λ t u i key e. added_self t u i key (index_of 0 t key) refl e;
  lookup_other = λ t u i key other e h. added_other t u i key other (index_of 0 t key) e h;
  position_own = λ t i key other h l. index_of_own 0 t i key other h l;
}
