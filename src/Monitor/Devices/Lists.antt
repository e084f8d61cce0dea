-- ===== src/Monitor/Devices/Lists.antt =====
-- What the lists of list_handle.c keep.
use icnprototype.Prelude.{
  ℕ, ◌+◌, ◌≤◌, ◌≡◌, ◌∙◌, refl, ap, inl, inr, Bool, true, false, Bool-cases, List, [], ◌∷◌, ◌++◌,
  length, Option, none, some, if◌then◌else◌, arith,
}
use icnprototype.Monitor.Timer.{same_string}
use icnprototype.Monitor.Devices.{
  DestInfo, PortState, PortIndex, append_new, add_dest_node, add_state_node, copy_names, listed,
  display_state_list, search_from, search_port_index,
}

unfoldable pub any {ℓ} : {A : Type ℓ} → (A → Bool) → List A → Bool
any f [] = false
any f (x ∷ xs) = if f x then true else any f xs

if-cons {ℓ} :
    {A : Type ℓ} (b : Bool) (p : A) (xs ys : List A)
    → p ∷ (if b then xs else ys) ≡ (if b then p ∷ xs else p ∷ ys)
if-cons true p xs ys = refl
if-cons false p xs ys = refl

append_new_lem {ℓ} :
    {A : Type ℓ} (f : A → Bool) (new : A) (l : List A)
    → append_new f new l ≡ (if any f l then l else l ++ (new ∷ []))
unfolding append_new any
append_new_lem f new [] = refl
append_new_lem f new (p ∷ []) = elim (Bool-cases (f p)) [ inl h ↦ rw h refl | inr h ↦ rw h refl ]
append_new_lem f new (p ∷ q ∷ next) = elim (Bool-cases (f p)) [
  | inl h ↦ rw h refl
  | inr h ↦
      rw h (ap (λ l. p ∷ l) (append_new_lem f new (q ∷ next)) ∙ if-cons (any f (q ∷ next)) p _ _)
]

-- The search in the list of devices.
unfoldable pub index_from : ℕ → List PortState → List ℕ → Option ℕ
index_from i [] dev_name = none
index_from i (p ∷ head) dev_name =
    if same_string p.dev_name dev_name then some i else index_from (i + 1) head dev_name

-- Where the table has room for the list, the names are copied so that the search finds what it would
-- find in the list.
copy_names_search :
    (i : ℕ) (head port : List PortState) (dev_name : List ℕ)
    → length head ≤ length port
    → (new : List PortState) × (copy_names head port ≡ some new)
      × (search_from i (length head) new dev_name ≡ index_from i head dev_name)
unfolding copy_names search_from index_from
copy_names_search i [] port dev_name h = (port, refl, refl)
copy_names_search i (p ∷ head) [] dev_name h = absurd (omega arith)
copy_names_search i (p ∷ head) (entry ∷ port) dev_name h =
    let (new, a, b) = copy_names_search (i + 1) head port dev_name (omega arith) in
    (record entry { dev_name = p.dev_name } ∷ new, rw a refl, rw b refl)

count : {n m : ℕ} → n ≡ 0 → n + m ≡ m
count h = omega arith

-- A table that held no device and has an entry for each device of the list is filled by
-- `display_state_list` so that `search_port_index` finds in it, for every name, the place of the
-- first device with that name in the list, and nothing where the list has none.
pub search-display :
    (head : List PortState) (share : PortIndex) (dev_name : List ℕ)
    → share.port_count ≡ 0
    → length head ≤ length share.port
    → (new : PortIndex) × (display_state_list head share ≡ some new)
      × (search_port_index new dev_name ≡ index_from 0 head dev_name)
unfolding display_state_list search_port_index
search-display head share dev_name empty h =
    let (new, a, b) = copy_names_search 0 head share.port dev_name h in
    (
      record { port_count = share.port_count + length head; port = new },
      ap (λ copy. listed head share copy) a,
      ap (λ n. search_from 0 n new dev_name) (count empty) ∙ b,
    )

-- `add_dest_node` leaves a list that has the peer's address as it is, and otherwise appends the peer
-- with both flags cleared.
pub add_dest_node_lem {ℓ} :
    {S : Type ℓ} (head : List (DestInfo S)) (pnew : DestInfo S)
    → add_dest_node head pnew ≡ (
        if any (λ p. same_string p.dest_ip pnew.dest_ip) head
        then head
        else head ++ (record pnew { linkloss_trap_flag = 0; linkdelay_trap_flag = 0 } ∷ []))
unfolding add_dest_node
add_dest_node_lem head pnew = append_new_lem _ _ head

-- `add_state_node` leaves a list that has the device's name as it is, and otherwise appends the
-- device with its level and its state cleared.
pub add_state_node_lem :
    (head : List PortState) (pnew : PortState)
    → add_state_node head pnew ≡ (
        if any (λ p. same_string p.dev_name pnew.dev_name) head
        then head
        else head ++ (record pnew { trap_level = 0; trap_state = 0 } ∷ []))
unfolding add_state_node
add_state_node_lem head pnew = append_new_lem _ _ head
