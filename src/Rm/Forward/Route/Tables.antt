-- ===== src/Rm/Forward/Route/Tables.antt =====
-- What a table answers after its routes were added.
use icnprototype.Prelude.{
  ℕ, ◌≡◌, ◌≢◌, refl, sym, ap, ◌∙◌, subst, inl, inr, Bool, true, false, Bool-cases, Option-cases,
  ◌==◌, List, [], ◌∷◌, Option, none, some, if◌then◌else◌, arith,
}
use icnprototype.Rm.Nid.{differs, differs_iff}
use icnprototype.Rm.Forward.Route.{Hash, Routes, populate, find}

ne_of : (k key : List ℕ) → differs k key ≡ true → k ≢ key
ne_of k key d e = ground (arith, d, (differs_iff k key).1 e)

ne→==_false : (i j : ℕ) → i ≢ j → (i == j) ≡ false
ne→==_false i j h = ground (arith, h)

module _ {ℓ} {Out : Type ℓ} where
  -- The second one only if there is no first one.
  abbrev pub later : Option Out → Option Out → Option Out
  later (some v) d = some v
  later none d = d

  -- The result of the last entry with a key.
  unfoldable pub last_of : List (List ℕ × Out) → List ℕ → Option Out
  last_of [] key = none
  last_of ((k, v) ∷ entries) key =
      later (last_of entries key) (if differs k key then none else some v)

  find-stored :
      (hash : Hash) (r : Routes hash Out) (ret : ℕ) (u : hash.Table) (k key : List ℕ) (v : Out)
      → hash.rte_hash_add_key r.table k ≡ some (ret, u)
      → find hash (record { table = u; out = λ i. if i == ret then v else r.out i }) key
        ≡ (if differs k key then find hash r key else some v)
  find-stored hash r ret u k key v h = elim (Bool-cases (differs k key)) [
    | inr d ↦
        (let e : k ≡ key = (differs_iff k key).0 d in
          let here =
            subst (λ x. hash.rte_hash_lookup u x ≡ some ret) e
              (hash.lookup_added r.table u ret k h) in
          let self : (ret == ret) ≡ true = ground arith in rw (find, d, here, self) refl)
    | inl d ↦
        (let same = hash.lookup_other r.table u ret k key h (ne_of k key d) in
          elim (Option-cases (hash.rte_hash_lookup r.table key)) [
            | inl n ↦ rw (find, d, same, n) refl
            | inr (j, s) ↦
                (let apart : (j == ret) ≡ false = ne→==_false j ret (λ e. ne_of k key d (
                    hash.position_own u ret k key (hash.lookup_added r.table u ret k h)
                      (same ∙ s ∙ ap some e))) in
                  rw (find, d, same, s, apart) refl)
          ])
  ]

  later-later :
      (a : Option Out) (b : Bool) (v : Out) (d : Option Out)
      → later a (if b then d else some v) ≡ later (later a (if b then none else some v)) d
  later-later (some x) b v d = refl
  later-later none true v d = refl
  later-later none false v d = refl

  later-none : (a : Option Out) → later a none ≡ a
  later-none none = refl
  later-none (some x) = refl

  find-populate :
      (hash : Hash) (entries : List (List ℕ × Out)) (r s : Routes hash Out) (key : List ℕ)
      → populate hash r entries ≡ some s
      → find hash s key ≡ later (last_of entries key) (find hash r key)
  unfolding populate last_of
  find-populate hash [] r s key h =
      (let e : r ≡ s = ground (arith, h) in ap (λ x. find hash x key) (sym e))
  find-populate hash ((k, v) ∷ entries) r s key h =
      elim (Option-cases (hash.rte_hash_add_key r.table k)) [
        | inl e ↦ ground (arith, e, h)
        | inr ((ret, u), e) ↦
            (let h_rest : populate hash
                    (record { table = u; out = λ i. if i == ret then v else r.out i }) entries
                  ≡ some s =
                ground (arith, e, h) in
              find-populate hash entries _ s key h_rest
              ∙ ap (later (last_of entries key)) (find-stored hash r ret u k key v e)
              ∙ later-later (last_of entries key) (differs k key) v (find hash r key))
      ]

  -- If every route is added to a new table, the search for a key finds the result of the last route with this
  -- key, and nothing for a key that no route has, whatever the arrays held.
  pub find-populate_last :
      (hash : Hash) (out : ℕ → Out) (entries : List (List ℕ × Out)) (s : Routes hash Out)
      (key : List ℕ)
      → populate hash (record { table = hash.rte_hash_create; out = out }) entries ≡ some s
      → find hash s key ≡ last_of entries key
  find-populate_last hash out entries s key h =
      find-populate hash entries _ s key h
      ∙ rw (find, hash.lookup_create key) (later-none (last_of entries key))
