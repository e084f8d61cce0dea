-- ===== src/Rm/Config/Queues.antt =====
-- Which queues each core serves, and how many queues a port has.
use mathlib.Core.List.{append-nil, append_assoc}
use icnprototype.Prelude.{
  ℕ, suc, ◌+◌, ◌<◌, ◌≤◌, ◌≡◌, ◌↔◌, refl, sym, ap, ◌∙◌, inl, inr, Bool, true, false, Bool-cases,
  ◌==◌, List, [], ◌∷◌, ◌++◌, set, take, length, length-set, length-append, take-set, leb,
  if◌then◌else◌, if-keeps, arith,
}
use icnprototype.Prelude.Int.{ℤ, pos, negsuc}
use icnprototype.Rm.Config.{
  max_rx_queue_per_lcore, LcoreRxQueue, LcoreParams, LcoreConf, add_queue, Confs, at_lcore,
  init_lcore_rx_queues,
}

-- The queues of a core, in the order of the parameters.
unfoldable pub queues_of : ℕ → List LcoreParams → List LcoreRxQueue
queues_of lcore [] = []
queues_of lcore (p ∷ params) =
    let rest = queues_of lcore params in
    if lcore == p.lcore_id
    then record { port_id = p.port_id; queue_id = p.queue_id } ∷ rest
    else rest

abbrev pub entries : LcoreConf → List LcoreRxQueue
entries conf = take conf.n_rx_queue conf.rx_queue_list

-- The array of a core, of which at most all entries are in use.
record IsArray (conf : LcoreConf) : Type 0 where
  size : length conf.rx_queue_list ≡ max_rx_queue_per_lcore
  used : conf.n_rx_queue ≤ max_rx_queue_per_lcore

-- A core without queues, as the program starts.
pub record IsIdle (conf : LcoreConf) : Type 0 where
  pub size : length conf.rx_queue_list ≡ max_rx_queue_per_lcore
  pub unused : conf.n_rx_queue ≡ 0

-- What adding the queues of the parameters does to the queues of a core.
record Extends (lcore : ℕ) (params : List LcoreParams) (before after : LcoreConf) : Type 0 where
  array : IsArray after
  count : after.n_rx_queue ≡ before.n_rx_queue + length (queues_of lcore params)
  order : entries after ≡ entries before ++ queues_of lcore params

add_queue-IsArray :
    (conf : LcoreConf) (p : LcoreParams)
    → IsArray conf
    → conf.n_rx_queue < max_rx_queue_per_lcore
    → IsArray (add_queue conf p)
add_queue-IsArray conf p h room = record {
  size = length-set conf.rx_queue_list conf.n_rx_queue _ ∙ h.size;
  used = omega (arith, room);
}

entries-add_queue :
    (conf : LcoreConf) (p : LcoreParams)
    → IsArray conf
    → conf.n_rx_queue < max_rx_queue_per_lcore
    → entries (add_queue conf p)
      ≡ entries conf ++ (record { port_id = p.port_id; queue_id = p.queue_id } ∷ [])
entries-add_queue conf p h room =
    let next : conf.n_rx_queue + 1 ≡ suc conf.n_rx_queue = omega arith in
    ap
      (λ i. take i (
        set conf.rx_queue_list conf.n_rx_queue
          (record { port_id = p.port_id; queue_id = p.queue_id })))
      next
    ∙ take-set conf.rx_queue_list conf.n_rx_queue _ (omega (arith, h.size, room))

at_lcore-IsArray :
    (confs : Confs) (p : LcoreParams)
    → ((i : ℕ) → IsArray (confs i))
    → (confs p.lcore_id).n_rx_queue < max_rx_queue_per_lcore
    → (i : ℕ) → IsArray (at_lcore confs p.lcore_id (add_queue (confs p.lcore_id) p) i)
at_lcore-IsArray confs p h room i =
    if-keeps IsArray (i == p.lcore_id) (add_queue-IsArray (confs p.lcore_id) p (h p.lcore_id) room)
      (h i)

lt→leb_false : (a b : ℕ) → b < a → leb a b ≡ false
lt→leb_false a b h = ground arith

-- The queue that one parameter gives to a core, if any.
abbrev own_queue : ℕ → LcoreParams → List LcoreRxQueue
own_queue lcore p =
    if lcore == p.lcore_id then record { port_id = p.port_id; queue_id = p.queue_id } ∷ [] else []

queues_of-cons :
    (lcore : ℕ) (p : LcoreParams) (params : List LcoreParams)
    → queues_of lcore (p ∷ params) ≡ own_queue lcore p ++ queues_of lcore params
unfolding queues_of
queues_of-cons lcore p params = elim (Bool-cases (lcore == p.lcore_id)) [
  | inl b ↦ rw b refl
  | inr b ↦ rw b refl
]

-- The core's array after one parameter.
at_lcore-Extends :
    (confs : Confs) (p : LcoreParams)
    → IsArray (confs p.lcore_id)
    → (confs p.lcore_id).n_rx_queue < max_rx_queue_per_lcore
    → (lcore : ℕ)
    → ((at_lcore confs p.lcore_id (add_queue (confs p.lcore_id) p) lcore).n_rx_queue
        ≡ (confs lcore).n_rx_queue + length (own_queue lcore p))
      × (entries (at_lcore confs p.lcore_id (add_queue (confs p.lcore_id) p) lcore)
          ≡ entries (confs lcore) ++ own_queue lcore p)
at_lcore-Extends confs p h room lcore = elim (Bool-cases (lcore == p.lcore_id)) [
  | inl b ↦
      (let s : lcore ≡ p.lcore_id = ground (arith, b) in
        rw (b, s) (refl, entries-add_queue (confs p.lcore_id) p h room))
  | inr b ↦ rw b (omega arith, sym (append-nil (entries (confs lcore))))
]

-- A call that returns 0 has not stopped at its first parameter.
passed :
    (b : Bool) (confs : Confs) (rest : ℤ × Confs)
    → (if b then (negsuc 0, confs) else rest).0 ≡ pos 0
    → (b ≡ false) × (rest.0 ≡ pos 0)
passed true confs rest e = ground arith
passed false confs rest e = (refl, e)

init_Extends :
    (params : List LcoreParams) (confs : Confs)
    → ((i : ℕ) → IsArray (confs i))
    → (init_lcore_rx_queues confs params).0 ≡ pos 0
    → (lcore : ℕ) → Extends lcore params (confs lcore) ((init_lcore_rx_queues confs params).1 lcore)
unfolding init_lcore_rx_queues queues_of
init_Extends [] confs h e lcore = record {
  array = h lcore;
  count = omega arith;
  order = sym (append-nil (entries (confs lcore)));
}
init_Extends (p ∷ params) confs h e lcore =
    let (full, e_rest) =
      passed (leb max_rx_queue_per_lcore (confs p.lcore_id).n_rx_queue) confs _ e in
    let room : (confs p.lcore_id).n_rx_queue < max_rx_queue_per_lcore = ground (arith, full) in
    let x = init_Extends params _ (at_lcore-IsArray confs p h room) e_rest lcore in
    let (n, l) = at_lcore-Extends confs p (h p.lcore_id) room lcore in
    rw full (record {
      array = x.array;
      count = omega (
        arith,
        x.count,
        n,
        ap length (queues_of-cons lcore p params),
        length-append (own_queue lcore p) (queues_of lcore params),
      );
      order =
          x.order
          ∙ ap (λ l. l ++ queues_of lcore params) l
          ∙ append_assoc (entries (confs lcore)) (own_queue lcore p) (queues_of lcore params)
          ∙ ap (λ l. entries (confs lcore) ++ l) (sym (queues_of-cons lcore p params));
    })

init_room :
    (params : List LcoreParams) (confs : Confs)
    → ((i : ℕ) → IsArray (confs i))
    → ((lcore : ℕ)
        → (confs lcore).n_rx_queue + length (queues_of lcore params) ≤ max_rx_queue_per_lcore)
    → (init_lcore_rx_queues confs params).0 ≡ pos 0
unfolding init_lcore_rx_queues
init_room [] confs a h = refl
init_room (p ∷ params) confs a h =
    let fits : (lcore : ℕ)
        → (confs lcore).n_rx_queue + length (own_queue lcore p) + length (queues_of lcore params)
          ≤ max_rx_queue_per_lcore =
      λ lcore. omega (
        arith,
        h lcore,
        ap length (queues_of-cons lcore p params),
        length-append (own_queue lcore p) (queues_of lcore params),
      ) in
    let own : length (own_queue p.lcore_id p) ≡ 1 = ground arith in
    let room : (confs p.lcore_id).n_rx_queue < max_rx_queue_per_lcore =
      omega (arith, fits p.lcore_id, own) in
    rw (lt→leb_false max_rx_queue_per_lcore (confs p.lcore_id).n_rx_queue room) (
      init_room params _ (at_lcore-IsArray confs p a room) (λ lcore.
        omega (arith, fits lcore, (at_lcore-Extends confs p (a p.lcore_id) room lcore).0)))

IsIdle→IsArray : (conf : LcoreConf) → IsIdle conf → IsArray conf
IsIdle→IsArray conf h = record { size = h.size; used = omega (arith, h.unused) }

-- From cores without queues, `init_lcore_rx_queues` returns 0 exactly if no core has more than 16 queues.
pub init_lcore_rx_queues_iff :
    (confs : Confs) (params : List LcoreParams)
    → ((i : ℕ) → IsIdle (confs i))
    → ((init_lcore_rx_queues confs params).0 ≡ pos 0)
      ↔ ((lcore : ℕ) → length (queues_of lcore params) ≤ max_rx_queue_per_lcore)
init_lcore_rx_queues_iff confs params h = (
  λ e lcore.
      (let x = init_Extends params confs (λ i. IsIdle→IsArray (confs i) (h i)) e lcore in
        omega (arith, x.array.used, x.count)),
  λ r.
      init_room params confs (λ i. IsIdle→IsArray (confs i) (h i))
        (λ lcore. omega (arith, r lcore, (h lcore).unused)),
)

-- If `init_lcore_rx_queues` returns 0, from cores without queues, then each core has exactly the queues that
-- the parameters give to it, in their order.
pub init_lcore_rx_queues-entries :
    (confs : Confs) (params : List LcoreParams)
    → ((i : ℕ) → IsIdle (confs i))
    → (init_lcore_rx_queues confs params).0 ≡ pos 0
    → (lcore : ℕ) → entries ((init_lcore_rx_queues confs params).1 lcore) ≡ queues_of lcore params
init_lcore_rx_queues-entries confs params h e lcore =
    (init_Extends params confs (λ i. IsIdle→IsArray (confs i) (h i)) e lcore).order
    ∙ ap (λ n. take n (confs lcore).rx_queue_list ++ queues_of lcore params) (h lcore).unused
