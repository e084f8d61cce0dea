-- ===== src/Rm/Negotiate/Steps.antt =====
-- Every control packet keeps the chain and the table in step.
use Prim.Native.Nat.{bit_and}
use icnprototype.Prelude.{
  ◌==◌, ℕ, zero, suc, ◌<◌, ◌≡◌, refl, ap, ◌+◌, ◌%◌, ◌∙◌, List, [], ◌∷◌, Option, none, some, arith,
  length, get_elem?, get_or, set, take, length-take, length-set, ltb, ltb→lt, if-keeps, ◌&&◌,
  Bool-cases, Option-cases, inl, inr,
}
use icnprototype.Rm.Nid.{Nid}
use icnprototype.Rm.ByteOrder.{ByteOrder}
use icnprototype.Rm.Chain.{PidInfo, used, search}
use icnprototype.Rm.Chain.Room.{IsRoomy-node}
use icnprototype.Rm.Table.Path.{Junk}
use icnprototype.Rm.Send.{fits_room}
use icnprototype.Rm.Packet.{
  Mbuf, control_packet_pid, option_kind_mask, option_kind0_change_request, option_kind1_a,
  option_kind2_b, option_kind3_ack,
}
use icnprototype.Rm.Send.{Sent}
use icnprototype.Rm.Negotiate.{
  State, Locals, Outcome, undefined, stuck, done, overwrite, install, node_of, read_words, commit,
  remember, neighbours, reply, reply_to, propose, change_request, on_change_request, in_use,
  on_change_request, offer, on_pid_a, pid_a, acknowledge, pid_b, on_pid_b, ack, on_ack, on_control,
}
use icnprototype.Rm.Negotiate.Invariant.{IsInStep, commit-IsInStep, length-overwrite}

-- What holds of the new state, if the handler gets to its end.
abbrev pub Ensures : (State → Locals → Type 0) → Outcome → Type 0
Ensures P undefined = Unit
Ensures P stuck = Unit
Ensures P (done st loc sent) = P st loc

-- Each row of `pid_huancun_pid_a` is an array of 100.
abbrev pub AreRows : List (List ℕ) → Type 0
AreRows [] = Unit
AreRows (row ∷ rows) = (length row ≡ 100) × AreRows rows

abbrev pub IsSized : Locals → Type 0
IsSized loc = (length loc.pid_huancun_pid_a ≡ neighbours) × AreRows loc.pid_huancun_pid_a

pub AreRows-set :
    (rows : List (List ℕ)) (i : ℕ) (row : List ℕ)
    → AreRows rows
    → length row ≡ length (get_or rows i [])
    → AreRows (set rows i row)
AreRows-set [] i row h k = tt
AreRows-set (r ∷ rows) zero row h k = (k ∙ h.0, h.1)
AreRows-set (r ∷ rows) (suc i) row h k = (h.0, AreRows-set rows i row h.1 k)

pub AreRows-get :
    (rows : List (List ℕ)) (i : ℕ)
    → AreRows rows
    → i < length rows
    → length (get_or rows i []) ≡ 100
AreRows-get [] i h k = absurd (omega arith)
AreRows-get (r ∷ rows) zero h k = h.0
AreRows-get (r ∷ rows) (suc i) h k = AreRows-get rows i h.1 (omega arith)

remember-IsSized :
    (loc : Locals) (id time : ℕ) (pids : List ℕ) → IsSized loc → IsSized (remember loc id time pids)
unfolding remember
remember-IsSized loc id time pids h = (
  length-set loc.pid_huancun_pid_a id (overwrite pids (get_or loc.pid_huancun_pid_a id [])) ∙ h.0,
  AreRows-set loc.pid_huancun_pid_a id (overwrite pids (get_or loc.pid_huancun_pid_a id [])) h.1
      (length-overwrite pids (get_or loc.pid_huancun_pid_a id [])),
)

reply-done :
    (P : State → Locals → Type 0) (a b : Option ℕ) (st : State) (loc : Locals)
    (sent : ℕ → ℕ → List Sent)
    → P st loc
    → Ensures P (reply a b (λ pid ip. done st loc (sent pid ip)))
reply-done P none b st loc sent h = tt
reply-done P (some pid) none st loc sent h = tt
reply-done P (some pid) (some ip) st loc sent h = h

pub length-read_words :
    (order : ByteOrder) (body : List ℕ) (k n : ℕ) → length (read_words order body k n) ≡ n
unfolding read_words
length-read_words order body k zero = refl
length-read_words order body k (suc n) = ap suc (length-read_words order body (k + 1) n)

module _ (order : ByteOrder) (host : Nid) (junk : Junk) (raw port_id queue_id : ℕ) where
  abbrev Holds : State → Locals → Type 0
  Holds st loc = IsInStep host st × IsSized loc

  module _ (st : State) (loc : Locals) (v : IsInStep host st) (z : IsSized loc) where
    propose-Holds :
        (n : PidInfo) (pids : List ℕ) (time number : ℕ)
        → Ensures Holds (propose order host junk raw port_id queue_id st loc n pids time number)
    unfolding propose reply_to
    propose-Holds n pids time number =
        if-keeps (Ensures Holds) (fits_room n.number_pid) (reply-done Holds _ _ st loc _ (v, z)) tt

    on_change_request-Holds :
        (m : Mbuf) (random : ℕ)
        → Ensures Holds (on_change_request order host junk raw port_id queue_id st loc m random)
    unfolding on_change_request
    on_change_request-Holds m random =
        elim (node_of st.head (search st.head m.ctl.eid))
          as (λ o.
            Ensures Holds (change_request order host junk raw port_id queue_id st loc random o)) [
              | none ↦ (v, z)
              | some n ↦ propose-Holds n (used n) n.pid_change_time (random % 101)
            ]

    offer-Holds :
        (n : PidInfo) (time : ℕ) (o : Option (List ℕ))
        → Ensures Holds (offer order host junk raw port_id queue_id st loc n time o)
    unfolding offer reply_to
    offer-Holds n time none = tt
    offer-Holds n time (some pids) =
        elim (Bool-cases (ltb n.id neighbours && fits_room n.number_pid)) [
          | inl b ↦ rw b (
              reply-done Holds _ _ st (remember loc n.id time pids) _
                (v, remember-IsSized loc n.id time pids z))
          | inr b ↦ rw b tt
        ]

    on_pid_a-Holds :
        (fuel : ℕ) (m : Mbuf) (random : ℕ)
        → Ensures Holds (on_pid_a order host junk raw port_id queue_id fuel st loc m random)
    unfolding on_pid_a
    on_pid_a-Holds fuel m random =
        elim (node_of st.head (search st.head m.ctl.eid))
          as (λ o.
            Ensures Holds (pid_a order host junk raw port_id queue_id fuel st loc m random o)) [
              | none ↦ tt
              | some n ↦ offer-Holds n _ _
            ]

    commit-Holds :
        (e : Nid) (i time : ℕ) (n : PidInfo) (pids : List ℕ)
        → search st.head e ≡ some i
        → get_elem? st.head i ≡ some n
        → length pids ≡ n.number_pid
        → Holds (commit host st i (install time pids n)) loc
    commit-Holds e i time n pids s g l = ((commit-IsInStep host st i time n e pids v s g l).0, z)

    pid_b-Holds :
        (m : Mbuf) (random : ℕ) (o : Option ℕ)
        → search st.head m.ctl.eid ≡ o
        → Ensures Holds
            (pid_b order host junk raw port_id queue_id st loc m random o (node_of st.head o))
    unfolding pid_b node_of acknowledge reply_to
    pid_b-Holds m random none s = (v, z)
    pid_b-Holds m random (some i) s = elim (Option-cases (get_elem? st.head i)) [
      | inl g ↦ rw g (v, z)
      | inr (n, g) ↦
          rw g (elim (Bool-cases (in_use (read_words order m.body 1 n.number_pid) st.head)) [
            | inl b ↦ rw b (propose-Holds n _ _ _)
            | inr b ↦ rw b (
                reply-done Holds _ _ _ loc _ (
                  commit-Holds m.ctl.eid i _ n _ s g
                    (length-read_words order m.body 1 n.number_pid)))
          ])
    ]

    on_pid_b-Holds :
        (m : Mbuf) (random : ℕ)
        → Ensures Holds (on_pid_b order host junk raw port_id queue_id st loc m random)
    unfolding on_pid_b
    on_pid_b-Holds m random = pid_b-Holds m random (search st.head m.ctl.eid) refl

    ack-Holds :
        (e : Nid) (o : Option ℕ)
        → search st.head e ≡ o
        → Ensures Holds (ack order host junk raw port_id queue_id st loc o (node_of st.head o))
    unfolding ack node_of
    ack-Holds e none s = tt
    ack-Holds e (some i) s = elim (Option-cases (get_elem? st.head i)) [
      | inl g ↦ rw g tt
      | inr (n, g) ↦ rw g (elim (Bool-cases (ltb n.id neighbours)) [
        | inl b ↦ rw b (commit-Holds e i _ n _ s g (row_length i n g (ltb→lt n.id neighbours b)))
        | inr b ↦ rw b tt
      ])
    ]
      where
        row_length :
            (i : ℕ) (n : PidInfo)
            → get_elem? st.head i ≡ some n
            → n.id < neighbours
            → length (take n.number_pid (get_or loc.pid_huancun_pid_a n.id [])) ≡ n.number_pid
        row_length i n g h = omega (
          arith,
          length-take n.number_pid (get_or loc.pid_huancun_pid_a n.id []),
          AreRows-get loc.pid_huancun_pid_a n.id z.1 (omega (arith, z.0)),
          IsRoomy-node st.head i n v.roomy g,
        )

    on_ack-Holds : (m : Mbuf) → Ensures Holds (on_ack order host junk raw port_id queue_id st loc m)
    unfolding on_ack
    on_ack-Holds m = ack-Holds m.ctl.eid (search st.head m.ctl.eid) refl

  -- Whatever control packet arrives and whatever `rand()` gives, a handler that gets to its end leaves
  -- the chain and the table in step, if they were so before and the local arrays have their sizes.
  pub on_control-IsInStep :
      (fuel : ℕ) (st : State) (loc : Locals) (m : Mbuf) (random : ℕ)
      → IsInStep host st
      → IsSized loc
      → Ensures
          (λ st' loc'. IsInStep host st' × IsSized loc')
          (on_control order host junk raw port_id queue_id fuel st loc m random)
  unfolding on_control
  on_control-IsInStep fuel st loc m random v z =
      let kind = bit_and m.ctl.option option_kind_mask in
      elim (Bool-cases (m.ctl.controltype == control_packet_pid)) [
        | inl b ↦ rw b (elim (Bool-cases (kind == option_kind0_change_request)) [
          | inl b0 ↦ rw b0 (on_change_request-Holds st loc v z m random)
          | inr b0 ↦ rw b0 (elim (Bool-cases (kind == option_kind1_a)) [
            | inl b1 ↦ rw b1 (on_pid_a-Holds st loc v z fuel m random)
            | inr b1 ↦ rw b1 (elim (Bool-cases (kind == option_kind2_b)) [
              | inl b2 ↦ rw b2 (on_pid_b-Holds st loc v z m random)
              | inr b2 ↦ rw b2 (elim (Bool-cases (kind == option_kind3_ack)) [
                | inl b3 ↦ rw b3 (on_ack-Holds st loc v z m)
                | inr b3 ↦ rw b3 (v, z)
              ])
            ])
          ])
        ])
        | inr b ↦ rw b (elim (Bool-cases (m.ctl.controltype == 0x23)) [
          | inl b0 ↦ rw b0 tt
          | inr b0 ↦ rw b0 (v, z)
        ])
      ]
