-- ===== src/Rm/Negotiate/Invariant.antt =====
-- The chain and the table stay in step through every control packet.
use icnprototype.Prelude.{
  ℕ, suc, ◌≤◌, ◌<◌, ◌≡◌, ◌⊎◌, refl, sym, ◌∙◌, ap, true, false, List, [], ◌∷◌, some, arith, length,
  get_elem?, take, if◌then◌else◌, Bool-cases, inl, inr,
}
use icnprototype.Rm.Nid.{Nid, same_nid, same_nid_iff}
use icnprototype.Rm.Chain.{PidInfo, used, search, max_pid_number}
use icnprototype.Rm.Chain.Lookup.{search_found_node}
use icnprototype.Rm.Chain.Room.{IsRoomy, IsRoomy-node, IsRoomy-modify, length-used}
use icnprototype.Rm.Chain.Init.Paths.{pids_to, path_pids, pids_to-modify, pids_to_found}
use icnprototype.Rm.Table.Path.Update.{update_pids, length-update}
use icnprototype.Rm.Negotiate.{State, overwrite, install, commit}

-- The chain holds for each neighbour the identifiers of the table's paths to it, in the table's order.
pub record IsInStep (host : Nid) (st : State) : Type 0 where
  pub roomy : IsRoomy st.head
  pub small : length st.table < 256
  pub paths : (e : Nid) → pids_to st.head e ≡ path_pids host e st.table

pub length-overwrite : (vs xs : List ℕ) → length (overwrite vs xs) ≡ length xs
unfolding overwrite
length-overwrite [] xs = refl
length-overwrite (v ∷ vs) [] = refl
length-overwrite (v ∷ vs) (x ∷ xs) = ap suc (length-overwrite vs xs)

pub take-overwrite :
    (vs xs : List ℕ) → length vs ≤ length xs → take (length vs) (overwrite vs xs) ≡ vs
unfolding overwrite
take-overwrite [] xs h = refl
take-overwrite (v ∷ vs) [] h = absurd (omega arith)
take-overwrite (v ∷ vs) (x ∷ xs) h =
    ap (λ (ys : List ℕ). v ∷ ys) (take-overwrite vs xs (omega arith))

pub used-install :
    (time : ℕ) (pids : List ℕ) (n : PidInfo)
    → length pids ≡ n.number_pid
    → n.number_pid ≤ length n.pid
    → used (install time pids n) ≡ pids
unfolding install
used-install time pids n h k = rw (← h) (take-overwrite pids n.pid (omega arith))

install_fields :
    (time : ℕ) (pids : List ℕ) (n : PidInfo)
    → ((install time pids n).eid ≡ n.eid)
      × ((install time pids n).number_pid ≡ n.number_pid)
      × (length (install time pids n).pid ≡ length n.pid)
unfolding install
install_fields time pids n = (refl, refl, length-overwrite pids n.pid)

module _ (host : Nid) (st : State) (i time : ℕ) (n : PidInfo) (e : Nid) (pids : List ℕ)
    (v : IsInStep host st) (s : search st.head e ≡ some i) (g : get_elem? st.head i ≡ some n)
    (l : length pids ≡ n.number_pid) where
  abbrev n' : PidInfo
  n' = install time pids n

  sizes : (length n.pid ≡ max_pid_number) × (n.number_pid ≤ max_pid_number)
  sizes = IsRoomy-node st.head i n v.roomy g

  eid_eq : n'.eid ≡ e
  eid_eq =
      let (m, g', k) = search_found_node st.head e i s in ground (arith, install_fields time pids n)

  count : length (path_pids host e st.table) ≡ n.number_pid
  count = rw (← v.paths e, pids_to_found st.head e i n s g) (length-used n sizes.0 sizes.1)

  commit_used : used n' ≡ pids
  commit_used = used-install time pids n l (omega (arith, sizes))

  commit_chain :
      (e' : Nid)
      → pids_to (commit host st i n').head e' ≡ (if same_nid e e' then pids else pids_to st.head e')
  unfolding commit
  commit_chain e' = ground (
    arith,
    pids_to-modify st.head i n (λ _. n') e e' s g (install_fields time pids n).0,
    commit_used,
  )

  commit_table :
      (e' : Nid)
      → path_pids host e' (commit host st i n').table
        ≡ (if same_nid e e' then pids else path_pids host e' st.table)
  unfolding commit
  commit_table e' =
      update_pids host n' e' st.table v.small
        (rw eid_eq (omega (arith, count, sizes, install_fields time pids n)))
      ∙ rw eid_eq (split e' (Bool-cases (same_nid e e')))
    where
      split :
          (e' : Nid)
          → (same_nid e e' ≡ true) ⊎ (same_nid e e' ≡ false)
          → (if same_nid e e'
              then take (length (path_pids host e' st.table)) n'.pid
              else path_pids host e' st.table)
            ≡ (if same_nid e e' then pids else path_pids host e' st.table)
      split e' (inl h) = rw h (
          rw (← (same_nid_iff e e').0 h)
            (rw count (ap (λ k. take k n'.pid) (sym (install_fields time pids n).1) ∙ commit_used)))
      split e' (inr h) = rw h

  commit-IsRoomy : IsRoomy (commit host st i n').head
  unfolding commit
  commit-IsRoomy =
      IsRoomy-modify st.head i (λ _. n') v.roomy
        (λ m _. omega (arith, sizes, install_fields time pids n))

  -- A commit to the node of a neighbour gives this neighbour the agreed identifiers and every other
  -- neighbour what it had, and keeps the chain and the table in step.
  pub commit-IsInStep :
      IsInStep host (commit host st i n')
      × ((e' : Nid)
          → pids_to (commit host st i n').head e'
            ≡ (if same_nid e e' then pids else pids_to st.head e'))
  unfolding commit
  commit-IsInStep = (
    record {
      roomy = commit-IsRoomy;
      small = omega (arith, v.small, length-update host n' st.table);
      paths = λ e'. ground (arith, commit_chain e', commit_table e', v.paths e');
    },
    commit_chain,
  )
