-- ===== src/Rm/Chain/Init/Spec.antt =====
-- `read_configuration_init_pid_change_wxb` never writes through a null pointer nor past the array
-- `pid`, and the chain that it builds holds the identifiers of the table.
use icnprototype.Prelude.{
  ℕ, ◌+◌, ◌≤◌, ◌<◌, ◌≡◌, refl, ◌∙◌, true, false, List, [], ◌∷◌, ◌++◌, Option, none, some, arith,
  get_elem?, length, length-append, length-set, Bool-cases, Option-cases, inl, inr, if◌then◌else◌,
}
use mathlib.Core.List.{append_assoc, append-nil}
use icnprototype.Rm.Nid.{Nid, same_nid, same_nid_iff}
use icnprototype.Rm.Chain.{PidInfo, Chain, search, modify, max_pid_number}
use icnprototype.Rm.Chain.Lookup.{search-nil, search_found_node}
use icnprototype.Rm.Chain.Init.{
  Build, add_pid, new_node, add_path, add_row, add_rows, read_configuration_init_pid_change_wxb,
}
use icnprototype.Rm.Chain.Room.{IsRoomy, IsRoomy-append, IsRoomy-modify}
use icnprototype.Rm.Chain.Init.Paths.{
  pids_to_found, pids_to, path_pids, pids_to-append, pids_to-modify,
}
use icnprototype.Rm.Table.{Route, Table}
use icnprototype.Rm.Chain.Init.Nodes.{
  used-add_pid, last_of-modify, built, add_node_lem, used-new_node, pids_at_none, room_left,
  add_pid_size, eid-add_pid,
}

-- What a round leaves behind: the loop's variables, and the identifiers for each neighbour.
record Added (c : Chain) (item : Route) (out : Option Build) : Type 0 where
  chain : Chain
  count : ℕ
  out_eq : out ≡ some (built chain count)
  roomy : IsRoomy chain
  pids :
      (e : Nid)
      → pids_to chain e
        ≡ (if same_nid item.eid2 e then pids_to c e ++ (item.pid ∷ []) else pids_to c e)

-- What the rounds for a table leave behind.
record Ends (host : Nid) (table : Table) (c : Chain) (out : Option Build) : Type 0 where
  last : Build
  out_eq : out ≡ some last
  roomy : IsRoomy last.head
  pids : (e : Nid) → pids_to last.head e ≡ pids_to c e ++ path_pids host e table

module _ (raw : ℕ → List ℕ) (raw_size : (k : ℕ) → length (raw k) ≡ max_pid_number) where
  add_path_new :
      (c : Chain) (k : ℕ) (item : Route)
      → IsRoomy c
      → search c item.eid2 ≡ none
      → Added c item (add_path raw item none (built c k))
  unfolding add_path new_node
  add_path_new c k item h s = record {
    chain = c ++ (p ∷ []);
    count = k + 1;
    out_eq = add_node_lem c p k;
    roomy =
        IsRoomy-append c p h (omega (arith, length-set (raw k) 0 item.pid, raw_size k))
          (omega arith);
    pids = λ e. ground (
      arith,
      pids_to-append c p e,
      pids_at_none c e item.eid2,
      used-new_node (raw k) k item (raw_size k),
      same_nid_iff item.eid2 e,
    );
  }
    where
      p : PidInfo
      p = new_node (raw k) k item

  add_path_old :
      (c : Chain) (k i : ℕ) (item : Route)
      → IsRoomy c
      → search c item.eid2 ≡ some i
      → length (pids_to c item.eid2) < max_pid_number
      → Added c item (add_path raw item (some i) (built c k))
  unfolding add_path
  add_path_old c k i item h s l = record {
    chain = modify c i (add_pid item.pid);
    count = k;
    out_eq = rw (last_of-modify c i (add_pid item.pid));
    roomy = IsRoomy-modify c i (add_pid item.pid) h (λ n g.
        add_pid_size item.pid n (room_left c item.eid2 i n h s g l).0
          (room_left c item.eid2 i n h s g l).1);
    pids = pids_old;
  }
    where
      found : (n : PidInfo) × (get_elem? c i ≡ some n) × (n.eid ≡ item.eid2)
      found = search_found_node c item.eid2 i s

      left : (length found.0.pid ≡ max_pid_number) × (found.0.number_pid < max_pid_number)
      left = room_left c item.eid2 i found.0 h s found.1 l

      pids_old :
          (e : Nid)
          → pids_to (modify c i (add_pid item.pid)) e
            ≡ (if same_nid item.eid2 e then pids_to c e ++ (item.pid ∷ []) else pids_to c e)
      pids_old e = ground (
        arith,
        pids_to-modify c i found.0 (add_pid item.pid) item.eid2 e s found.1
            (eid-add_pid item.pid found.0),
        used-add_pid item.pid found.0 left.0 left.1,
        pids_to_found c item.eid2 i found.0 s found.1,
        same_nid_iff item.eid2 e,
      )

  -- One round for a row of the host.
  add_row_lem :
      (host : Nid) (c : Chain) (k : ℕ) (item : Route)
      → same_nid host item.eid1 ≡ true
      → IsRoomy c
      → length (pids_to c item.eid2) < max_pid_number
      → Added c item (add_row host raw item (built c k))
  unfolding add_row
  add_row_lem host c k item m h l = rw m (elim (Option-cases (search c item.eid2)) [
    | inl s ↦ rw s (add_path_new c k item h s)
    | inr (i, s) ↦ rw s (add_path_old c k i item h s l)
  ])

  add_row_skip :
      (host : Nid) (c : Chain) (k : ℕ) (item : Route)
      → same_nid host item.eid1 ≡ false
      → add_row host raw item (built c k) ≡ some (built c k)
  unfolding add_row
  add_row_skip host c k item m = rw m

  add_rows-cons :
      (host : Nid) (item : Route) (rows : Table) (b b' : Build)
      → add_row host raw item b ≡ some b'
      → add_rows host raw (item ∷ rows) b ≡ add_rows host raw rows b'
  unfolding add_rows
  add_rows-cons host item rows b b' h = ground arith

  -- The rounds for the rows after `item`, from what its round leaves behind.
  add_rows_own :
      (host : Nid) (item : Route) (rows : Table) (c : Chain) (k : ℕ)
      → same_nid host item.eid1 ≡ true
      → (a : Added c item (add_row host raw item (built c k)))
      → Ends host rows a.chain (add_rows host raw rows (built a.chain a.count))
      → Ends host (item ∷ rows) c (add_rows host raw (item ∷ rows) (built c k))
  add_rows_own host item rows c k m a r = record {
    last = r.last;
    out_eq = add_rows-cons host item rows (built c k) (built a.chain a.count) a.out_eq ∙ r.out_eq;
    roomy = r.roomy;
    pids = λ e. ground (
      arith,
      r.pids e,
      a.pids e,
      append_assoc (pids_to c e) (item.pid ∷ []) (path_pids host e rows),
    );
  }

  room_after :
      (host : Nid) (item : Route) (rows : Table) (c c' : Chain) (e : Nid)
      → same_nid host item.eid1 ≡ true
      → length (pids_to c e) + length (path_pids host e (item ∷ rows)) ≤ max_pid_number
      → pids_to c' e
        ≡ (if same_nid item.eid2 e then pids_to c e ++ (item.pid ∷ []) else pids_to c e)
      → length (pids_to c' e) + length (path_pids host e rows) ≤ max_pid_number
  room_after host item rows c c' e m l p =
      ground (arith, length-append (pids_to c e) (item.pid ∷ []))

  room_before :
      (host : Nid) (item : Route) (rows : Table) (c : Chain)
      → same_nid host item.eid1 ≡ true
      → length (pids_to c item.eid2) + length (path_pids host item.eid2 (item ∷ rows))
        ≤ max_pid_number
      → length (pids_to c item.eid2) < max_pid_number
  room_before host item rows c m l = ground (arith, same_nid_iff item.eid2 item.eid2)

  -- All rounds, from any chain.
  add_rows_lem :
      (host : Nid) (table : Table) (c : Chain) (k : ℕ)
      → IsRoomy c
      → ((e : Nid) → length (pids_to c e) + length (path_pids host e table) ≤ max_pid_number)
      → Ends host table c (add_rows host raw table (built c k))
  unfolding add_rows
  add_rows_lem host [] c k h l = record {
    last = built c k;
    out_eq = refl;
    roomy = h;
    pids = λ e. rw append-nil;
  }
  add_rows_lem host (item ∷ rows) c k h l = elim (Bool-cases (same_nid host item.eid1)) [
    | inl m ↦
        let a = add_row_lem host c k item m h (room_before host item rows c m (l item.eid2)) in
        add_rows_own host item rows c k m a (
          add_rows_lem host rows a.chain a.count a.roomy
            (λ e. room_after host item rows c a.chain e m (l e) (a.pids e)))
    | inr m ↦
        let r = add_rows_lem host rows c k h (λ e. ground (arith, l e)) in
        record {
          last = r.last;
          out_eq =
              add_rows-cons host item rows (built c k) (built c k) (add_row_skip host c k item m)
              ∙ r.out_eq;
          roomy = r.roomy;
          pids = λ e. ground (arith, r.pids e);
        }
  ]

  -- If the memory of each node holds an array of 20 identifiers and the table has at most 20 paths to
  -- each neighbour, then the function builds a chain with no write through a null pointer, `search`
  -- finds in it for each neighbour the identifiers of the table's paths to it, in the table's order,
  -- and no node uses more identifiers than its array holds.
  pub read_configuration_init_pid_change_wxb_lem :
      (host : Nid) (table : Table)
      → ((e : Nid) → length (path_pids host e table) ≤ max_pid_number)
      → (b : Build) × (read_configuration_init_pid_change_wxb host raw table ≡ some b)
        × ((e : Nid) → pids_to b.head e ≡ path_pids host e table)
        × IsRoomy b.head
  unfolding read_configuration_init_pid_change_wxb
  read_configuration_init_pid_change_wxb_lem host table l =
      let r = add_rows_lem host table [] 0 tt (λ e. rw (search-nil e) (omega (arith, l e))) in
      (r.last, r.out_eq, λ e. rw (search-nil e) at (r.pids e), r.roomy)
