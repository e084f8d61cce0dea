-- ===== src/Rm/Negotiate/Answers.antt =====
-- What a domain answers to a neighbour, and what a receiver reads of it.
use icnprototype.Prelude.{
  ℕ, zero, suc, ◌+◌, ◌%◌, ◌^◌, ◌≤◌, ◌<◌, ◌≡◌, refl, true, false, List, [], ◌∷◌, ◌++◌, some, map,
  arith, length, take, get_or, get_elem?, lt→ltb, length-append, set, length-map,
}
use mathlib.Core.Path.{ap₂}
use mathlib.Core.List.{append_assoc}
use icnprototype.Rm.Nid.{Nid}
use icnprototype.Rm.ByteOrder.{ByteOrder}
use icnprototype.Rm.Chain.{PidInfo, search}
use icnprototype.Rm.Table.Path.{Junk, find_ip_or_pid, announce_ip_nid_ip}
use icnprototype.Rm.Table.{Table}
use icnprototype.Rm.Packet.{Mbuf}
use icnprototype.Rm.Send.{Sent, fits_room, send_pid_b, send_ack}
use icnprototype.Rm.Negotiate.{
  State, Locals, done, overwrite, install, node_of, read_words, commit, remember, neighbours,
  reply_to, on_pid_a, offer, on_pid_b, acknowledge, on_ack, avoid, in_use,
}
use icnprototype.Rm.Negotiate.Invariant.{take-overwrite}
use icnprototype.Rm.Negotiate.Steps.{IsSized, AreRows-get}

-- Every word fits in 32 bits.
abbrev pub AreWords : List ℕ → Type 0
AreWords [] = Unit
AreWords (w ∷ ws) = (w < 2 ^ 32) × AreWords ws

get_or-append : (xs ys : List ℕ) (d : ℕ) → get_or (xs ++ ys) (length xs) d ≡ get_or ys 0 d
get_or-append [] ys d = refl
get_or-append (x ∷ xs) ys d = get_or-append xs ys d

-- The words of a packet read back as the numbers that the sender converted.
pub read_words_back :
    (order : ByteOrder) (pre ps rest : List ℕ) (k : ℕ)
    → AreWords ps
    → k ≡ length pre
    → read_words order (pre ++ (map order.be32 ps ++ rest)) k (length ps) ≡ ps
unfolding read_words
read_words_back order pre [] rest k w e = refl
read_words_back order pre (p ∷ ps) rest k w e =
    ap₂ ◌∷◌ (rw e (rw get_or-append (order.be32_be32 p w.0))) (
      let again =
        read_words_back order (pre ++ (order.be32 p ∷ [])) ps rest (k + 1) w.1
          (omega (arith, length-append pre (order.be32 p ∷ []))) in
      rw append_assoc at again)

-- What a domain knows of a neighbour: its node, and the path and the address towards it.
pub record IsNeighbour (order : ByteOrder) (host : Nid) (st : State) (e : Nid) (i : ℕ) (n : PidInfo)
    (path ip : ℕ) : Type 0 where
  pub found : search st.head e ≡ some i
  pub node : get_elem? st.head i ≡ some n
  pub path_eq : find_ip_or_pid order host n.eid st.table 1 ≡ some path
  pub ip_eq : find_ip_or_pid order host n.eid st.table 0 ≡ some ip
  pub row : n.id < neighbours

module _ (order : ByteOrder) (host : Nid) (junk : Junk) (raw port_id queue_id : ℕ) where
  pub on_pid_a_answer :
      (fuel : ℕ) (st : State) (loc : Locals) (m : Mbuf) (random i path ip : ℕ) (n : PidInfo)
      (pids : List ℕ)
      → IsNeighbour order host st m.ctl.eid i n path ip
      → avoid fuel (random % 101 + 1) st.table (read_words order m.body 1 n.number_pid) ≡ some pids
      → fits_room n.number_pid ≡ true
      → on_pid_a order host junk raw port_id queue_id fuel st loc m random ≡ (
          let time = order.be32 (get_or m.body 0 0) in
          done st (remember loc n.id time pids) (
            send_pid_b order host raw port_id queue_id
              (map order.be32 pids)
              (order.be32 time)
              n.number_pid
              path
              ip
            ∷ []))
  unfolding on_pid_a node_of reply_to
  on_pid_a_answer fuel st loc m random i path ip n pids k h f =
      rw (k.found) (
        rw (k.node)
          (rw (h, offer) (rw (lt→ltb n.id neighbours k.row, f) (rw (k.path_eq, k.ip_eq)))))

  pub on_pid_b_answer :
      (st : State) (loc : Locals) (m : Mbuf) (random i path ip : ℕ) (n : PidInfo)
      → IsNeighbour order host st m.ctl.eid i n path ip
      → in_use (read_words order m.body 1 n.number_pid) st.head ≡ false
      → (sent : List Sent) × (on_pid_b order host junk raw port_id queue_id st loc m random
          ≡ done
              (commit host st i (
                install
                  (order.be32 (get_or m.body 0 0))
                  (read_words order m.body 1 n.number_pid)
                  n))
              loc
              (send_ack order host raw port_id queue_id path ip ∷ sent))
  unfolding on_pid_b node_of reply_to install send_ack
  on_pid_b_answer st loc m random i path ip n k h = (
    announce_ip_nid_ip order host junk n' (commit host st i n').table,
    rw (k.found) (rw (k.node) (rw h (rw (acknowledge, k.path_eq, k.ip_eq)))),
  )
    where
      n' : PidInfo
      n' = install (order.be32 (get_or m.body 0 0)) (read_words order m.body 1 n.number_pid) n

  pub on_ack_answer :
      (st : State) (loc : Locals) (m : Mbuf) (i path ip : ℕ) (n : PidInfo)
      → IsNeighbour order host st m.ctl.eid i n path ip
      → (sent : List Sent) × (on_ack order host junk raw port_id queue_id st loc m
          ≡ done
              (commit host st i (
                install loc.time_huancun_pid_a
                  (take n.number_pid (get_or loc.pid_huancun_pid_a n.id []))
                  n))
              loc
              sent)
  unfolding on_ack node_of
  on_ack_answer st loc m i path ip n k = (
    announce_ip_nid_ip order host junk n' (commit host st i n').table,
    rw (k.found) (rw (k.node) (rw (lt→ltb n.id neighbours k.row))),
  )
    where
      n' : PidInfo
      n' =
          install loc.time_huancun_pid_a (take n.number_pid (get_or loc.pid_huancun_pid_a n.id []))
            n

pub length-avoid :
    (fuel number : ℕ) (t : Table) (ps qs : List ℕ)
    → avoid fuel number t ps ≡ some qs
    → length qs ≡ length ps
unfolding avoid
length-avoid zero number t ps qs h = cc
length-avoid (suc fuel) number t ps qs h = ground (
  arith,
  length-avoid fuel number t (map (λ p. (p + number) % 2 ^ 32) ps) qs,
  length-map ps (λ p. (p + number) % 2 ^ 32),
)

-- What `remember` keeps is what `on_ack` takes.
pub recall :
    (loc : Locals) (id time : ℕ) (pids : List ℕ)
    → IsSized loc
    → id < neighbours
    → length pids ≤ 100
    → take (length pids) (get_or (remember loc id time pids).pid_huancun_pid_a id []) ≡ pids
unfolding remember
recall loc id time pids z h l =
    rw
      (get_or-set_self loc.pid_huancun_pid_a id
        (overwrite pids (get_or loc.pid_huancun_pid_a id [])) [] (omega (arith, z.0)))
      (take-overwrite pids (get_or loc.pid_huancun_pid_a id [])
        (omega (arith, AreRows-get loc.pid_huancun_pid_a id z.1 (omega (arith, z.0)))))
  where
    get_or-set_self :
        (xs : List (List ℕ)) (i : ℕ) (v d : List ℕ) → i < length xs → get_or (set xs i v) i d ≡ v
    get_or-set_self [] i v d h = absurd (omega arith)
    get_or-set_self (x ∷ xs) zero v d h = refl
    get_or-set_self (x ∷ xs) (suc i) v d h = get_or-set_self xs i v d (omega arith)
