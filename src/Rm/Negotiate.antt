-- ===== src/Rm/Negotiate.antt =====
-- The negotiation of path identifiers: the part of `main_loop` in RM/main.c that handles a control
-- packet, one function for each kind of packet. A handler takes the chain and the table, the block's
-- local variables, the packet and the value of `rand()`, and gives their new values and the packets
-- that it sends.
pub mod Avoid
pub mod Unique
pub mod Invariant
pub mod Steps
pub mod Answers
pub mod Exchange
pub mod Run
use Prim.Native.Nat.{bit_and}
use icnprototype.Prelude.{
  ℕ, zero, suc, ◌+◌, ◌%◌, ◌^◌, Bool, true, false, not, ◌&&◌, ◌||◌, List, [], ◌∷◌, Option, none,
  some, map, get_elem?, get_or, set, take, ltb, ◌==◌, if◌then◌else◌,
}
use icnprototype.Rm.Nid.{Nid}
use icnprototype.Rm.ByteOrder.{ByteOrder}
use icnprototype.Rm.Packet.{
  Mbuf, control_packet_pid, option_kind_mask, option_kind0_change_request, option_kind1_a,
  option_kind2_b, option_kind3_ack,
}
use icnprototype.Rm.Send.{Sent, fits_room, send_pid_a, send_pid_b, send_ack}
use icnprototype.Rm.Chain.{PidInfo, Chain, used, search, modify}
use icnprototype.Rm.Table.{Route, Table}
use icnprototype.Rm.Table.Path.{
  Junk, number_of, find_ip_or_pid, update_nid_ip_nid_ip_nid, announce_ip_nid_ip,
}

-- The globals `head_wxb` and `nid_ip_nid_ip_nid_array`.
pub record State : Type 0 where
  pub head : Chain
  pub table : Table

-- Two local variables of the block that handles one packet. Nothing sets them on entry, so in C their
-- values there are indeterminate; `pid_huancun_pid_a` has ten rows (`neighbours`).
pub record Locals : Type 0 where
  pub time_huancun_pid_a : ℕ
  pub pid_huancun_pid_a : List (List ℕ)

abbrev pub neighbours : ℕ
neighbours = 10

-- `undefined`: a null pointer is read, a missing return value is used, or memory outside an array or
-- behind the buffer is accessed. `stuck`: the fuel of the loop in `on_pid_a` ran out.
pub data Outcome : Type 0 where
  undefined : Outcome
  stuck : Outcome
  done : State → Locals → List Sent → Outcome

-- `count` words from the k-th on, in host order. (0 stands for the memory behind the packet.)
unfoldable pub read_words : ByteOrder → List ℕ → ℕ → ℕ → List ℕ
read_words order body k zero = []
read_words order body k (suc count) =
    order.be32 (get_or body k 0) ∷ read_words order body (k + 1) count

-- The rule for new identifiers and a new period: `(x + number) % 100` on a uint32_t.
pub shift : ℕ → ℕ → ℕ
shift number x = (x + number) % 2 ^ 32 % 100

-- The loop over an identifier and all rows of the table that `pid_a` looks at.
unfoldable pub in_table : ℕ → ℕ → Table → Bool
in_table p zero t = false
in_table p (suc k) [] = false
in_table p (suc k) (item ∷ t) = p == item.pid || in_table p k t

unfoldable pub clash : List ℕ → Table → Bool
unfolding in_table
clash [] t = false
clash (p ∷ ps) t = in_table p (number_of t) t || clash ps t

-- `while (different)`: all candidates move on together while one of them is in the table.
unfoldable pub avoid : ℕ → ℕ → Table → List ℕ → Option (List ℕ)
unfolding clash
avoid zero number t ps = none
avoid (suc fuel) number t ps = elim (clash ps t) [
  | true ↦ avoid fuel number t (map (λ p. (p + number) % 2 ^ 32) ps)
  | false ↦ some ps
]

unfoldable pub member : ℕ → List ℕ → Bool
member p [] = false
member p (q ∷ qs) = p == q || member p qs

unfoldable pub any_member : List ℕ → List ℕ → Bool
unfolding member
any_member [] qs = false
any_member (p ∷ ps) qs = member p qs || any_member ps qs

-- `ACK_YES` is cleared: a proposed identifier is in use towards some neighbour.
unfoldable pub in_use : List ℕ → Chain → Bool
unfolding any_member
in_use ps [] = false
in_use ps (n ∷ c) = any_member ps (used n) || in_use ps c

-- `for (i...) to[i] = from[i]`
pub overwrite : List ℕ → List ℕ → List ℕ
overwrite [] to = to
overwrite (v ∷ vs) [] = []
overwrite (v ∷ vs) (x ∷ to) = v ∷ overwrite vs to

pub install : ℕ → List ℕ → PidInfo → PidInfo
unfolding overwrite
install time pids n = record n { pid_change_time = time; pid = overwrite pids n.pid }

-- The node that `search` returns a pointer to.
pub node_of : Chain → Option ℕ → Option PidInfo
node_of c none = none
node_of c (some i) = get_elem? c i

-- The end of a handler: the path and the address of the reply, each with a value or without.
abbrev pub reply : Option ℕ → Option ℕ → (ℕ → ℕ → Outcome) → Outcome
reply none ip f = undefined
reply (some pid) none f = undefined
reply (some pid) (some ip) f = f pid ip

pub reply_to : ByteOrder → Nid → State → PidInfo → (ℕ → ℕ → Outcome) → Outcome
reply_to order host st n f =
    reply (find_ip_or_pid order host n.eid st.table 1) (find_ip_or_pid order host n.eid st.table 0)
      f

-- Both ends of an agreement: the node takes the identifiers and the period, and the table follows.
pub commit : Nid → State → ℕ → PidInfo → State
commit host st i n = record {
  head = modify st.head i (λ _. n);
  table = update_nid_ip_nid_ip_nid host n st.table;
}

-- The node's row of `pid_huancun_pid_a` takes the identifiers.
pub remember : Locals → ℕ → ℕ → List ℕ → Locals
remember loc id time pids = record {
  time_huancun_pid_a = time;
  pid_huancun_pid_a =
      set loc.pid_huancun_pid_a id (overwrite pids (get_or loc.pid_huancun_pid_a id []));
}

module _ (order : ByteOrder) (host : Nid) (junk : Junk) (raw port_id queue_id : ℕ) where
  open order use {be32}

  -- A `pid_a` packet with new identifiers made from the given ones.
  pub propose : State → Locals → PidInfo → List ℕ → ℕ → ℕ → Outcome
  unfolding shift
  propose st loc n pids time number =
      if fits_room n.number_pid
      then (reply_to order host st n λ pid ip. done st loc (
          send_pid_a order host raw port_id queue_id (map (λ p. be32 (shift number p)) pids)
            (be32 (shift number time)) n.number_pid pid ip
          ∷ []))
      else undefined

  pub change_request : State → Locals → ℕ → Option PidInfo → Outcome
  change_request st loc random none = done st loc []
  change_request st loc random (some n) = propose st loc n (used n) n.pid_change_time (random % 101)

  pub on_change_request : State → Locals → Mbuf → ℕ → Outcome
  unfolding change_request
  on_change_request st loc m random =
      change_request st loc random (node_of st.head (search st.head m.ctl.eid))

  pub offer : State → Locals → PidInfo → ℕ → Option (List ℕ) → Outcome
  offer st loc n time none = stuck
  offer st loc n time (some pids) =
      if ltb n.id neighbours && fits_room n.number_pid
      then (reply_to order host st n λ pid ip. done st (remember loc n.id time pids) (
          send_pid_b order host raw port_id queue_id (map be32 pids) (be32 time) n.number_pid pid ip
          ∷ []))
      else undefined

  -- The array length `AS->item.number_pid` is read before the null test.
  pub pid_a : ℕ → State → Locals → Mbuf → ℕ → Option PidInfo → Outcome
  unfolding offer
  pid_a fuel st loc m random none = undefined
  pid_a fuel st loc m random (some n) =
      offer st loc n (be32 (get_or m.body 0 0))
        (avoid fuel (random % 101 + 1) st.table (read_words order m.body 1 n.number_pid))

  pub on_pid_a : ℕ → State → Locals → Mbuf → ℕ → Outcome
  unfolding pid_a
  on_pid_a fuel st loc m random =
      pid_a fuel st loc m random (node_of st.head (search st.head m.ctl.eid))

  pub acknowledge : State → Locals → ℕ → PidInfo → Outcome
  unfolding commit
  acknowledge st loc i n = reply_to order host st n λ pid ip. done (commit host st i n) loc (
      send_ack order host raw port_id queue_id pid ip
      ∷ announce_ip_nid_ip order host junk n (commit host st i n).table)

  pub pid_b : State → Locals → Mbuf → ℕ → Option ℕ → Option PidInfo → Outcome
  unfolding acknowledge propose
  pid_b st loc m random (some i) (some n) =
      let pids = read_words order m.body 1 n.number_pid in
      let time = be32 (get_or m.body 0 0) in
      if not (in_use pids st.head)
      then acknowledge st loc i (install time pids n)
      else propose st loc n pids time (random % 101 + 1)
  pid_b st loc m random _ _ = done st loc []

  pub on_pid_b : State → Locals → Mbuf → ℕ → Outcome
  unfolding pid_b
  on_pid_b st loc m random =
      let found = search st.head m.ctl.eid in pid_b st loc m random found (node_of st.head found)

  pub ack : State → Locals → Option ℕ → Option PidInfo → Outcome
  unfolding commit
  ack st loc (some i) (some n) =
      let n' =
        install loc.time_huancun_pid_a (take n.number_pid (get_or loc.pid_huancun_pid_a n.id []))
          n in
      if ltb n.id neighbours
      then done (commit host st i n') loc
          (announce_ip_nid_ip order host junk n' (commit host st i n').table)
      else undefined
  ack st loc _ _ = undefined

  -- `AS->item.ID` is read before the null test, and the node is written behind it.
  pub on_ack : State → Locals → Mbuf → Outcome
  unfolding ack
  on_ack st loc m = let found = search st.head m.ctl.eid in ack st loc found (node_of st.head found)

  -- The branches on a control packet. For the type 0x23 the copy reads 140 * 140 bytes behind the
  -- header, past the end of the buffer.
  unfoldable pub on_control : ℕ → State → Locals → Mbuf → ℕ → Outcome
  unfolding on_change_request on_pid_a on_pid_b on_ack
  on_control fuel st loc m random =
      let kind = bit_and m.ctl.option option_kind_mask in
      if m.ctl.controltype == control_packet_pid
      then (if kind == option_kind0_change_request
          then on_change_request st loc m random
          else if kind == option_kind1_a
          then on_pid_a fuel st loc m random
          else if kind == option_kind2_b
          then on_pid_b st loc m random
          else if kind == option_kind3_ack
          then on_ack st loc m
          else done st loc [])
      else if m.ctl.controltype == 0x23
      then undefined
      else done st loc []
