-- ===== src/Rm/Negotiate/Exchange.antt =====
-- A whole exchange between two domains, from the receipt of `pid_a` to the receipt of `ack`.
use icnprototype.Prelude.{
  ℕ, ◌+◌, ◌%◌, ◌^◌, ◌≤◌, ◌<◌, ◌≡◌, refl, sym, ◌∙◌, true, false, List, [], ◌∷◌, some, map, arith,
  length, length-map, get_or, take, get_elem?,
}
use icnprototype.Rm.Nid.{Nid, same_nid_iff}
use icnprototype.Rm.ByteOrder.{ByteOrder}
use icnprototype.Rm.Chain.{PidInfo, search}
use icnprototype.Rm.Chain.Room.{IsRoomy-node}
use icnprototype.Rm.Chain.Init.Paths.{pids_to}
use icnprototype.Rm.Table.Path.{Junk}
use icnprototype.Rm.Packet.{Mbuf}
use icnprototype.Rm.Send.{Sent, fits_room, send_pid_b, send_ack}
use icnprototype.Rm.Send.Layout.{IsMessage, fits_room_iff, send_pid_b_lem, send_ack_lem}
use icnprototype.Rm.Negotiate.{
  State, Locals, done, install, read_words, commit, remember, on_pid_a, on_pid_b, on_ack, avoid,
  in_use,
}
use icnprototype.Rm.Negotiate.Invariant.{IsInStep, commit-IsInStep}
use icnprototype.Rm.Negotiate.Steps.{IsSized, length-read_words}
use icnprototype.Rm.Negotiate.Answers.{
  AreWords, IsNeighbour, read_words_back, on_pid_a_answer, on_pid_b_answer, on_ack_answer,
  length-avoid, recall,
}

-- How an exchange went: the two replies, the states at its end, and the identifiers there.
pub record Agreed (order : ByteOrder) (ha hb : Nid) (ja jb : Junk) (wa wb pa pb qa qb fuel : ℕ)
    (sa sb : State) (la lb : Locals) (m : Mbuf) (ra rb : ℕ) (pids : List ℕ) : Type 0 where
  pub la' : Locals
  pub sa' : State
  pub sb' : State
  pub b_message : Sent
  pub ack_message : Sent
  pub announced_b : List Sent
  pub announced_a : List Sent
  pub at_a : on_pid_a order ha ja wa pa qa fuel sa la m ra ≡ done sa la' (b_message ∷ [])
  pub at_b :
      on_pid_b order hb jb wb pb qb sb lb b_message.mbuf rb
      ≡ done sb' lb (ack_message ∷ announced_b)
  pub back_at_a : on_ack order ha ja wa pa qa sa la' ack_message.mbuf ≡ done sa' la' announced_a
  pub pids_a : pids_to sa'.head hb ≡ pids
  pub pids_b : pids_to sb'.head ha ≡ pids

commit_pids :
    (host : Nid) (st : State) (i time : ℕ) (n : PidInfo) (e : Nid) (pids : List ℕ)
    → IsInStep host st
    → search st.head e ≡ some i
    → get_elem? st.head i ≡ some n
    → length pids ≡ n.number_pid
    → pids_to (commit host st i (install time pids n)).head e ≡ pids
commit_pids host st i time n e pids v s g l =
    let c = (commit-IsInStep host st i time n e pids v s g l).1 e in
    c ∙ rw ((same_nid_iff e e).1 refl)

module _ (order : ByteOrder) (ha hb : Nid) (ja jb : Junk) (wa wb pa pb qa qb fuel : ℕ)
    (sa sb : State) (la lb : Locals) (m : Mbuf) (ra rb i j path path' ip ip' : ℕ) (n n' : PidInfo)
    (pids : List ℕ) where
  -- Two domains whose chains and tables are in step and that have nodes of the same number of paths for
  -- each other; a `pid_a` from the second arrives at the first. If the loop for free identifiers ends
  -- with `pids` and the second domain uses none of these, then the first answers with a `pid_b`, the
  -- second with an `ack`, and after the `ack`, if the first's local variables still hold what it stored,
  -- both hold exactly `pids` for each other.
  pub exchange_agrees :
      m.ctl.eid ≡ hb
      → get_or m.body 0 0 < 2 ^ 32
      → IsNeighbour order ha sa hb i n path ip
      → IsNeighbour order hb sb ha j n' path' ip'
      → n.number_pid ≡ n'.number_pid
      → IsInStep ha sa
      → IsInStep hb sb
      → IsSized la
      → avoid fuel (ra % 101 + 1) sa.table (read_words order m.body 1 n.number_pid) ≡ some pids
      → AreWords pids
      → in_use pids sb.head ≡ false
      → Agreed order ha hb ja jb wa wb pa pb qa qb fuel sa sb la lb m ra rb pids
  unfolding remember
  exchange_agrees source word ka kb same va vb z av w free = record {
    la' = remember la n.id time pids;
    sa' = commit ha sa i (
        install time
          (take n.number_pid (get_or (remember la n.id time pids).pid_huancun_pid_a n.id [])) n);
    sb' = commit hb sb j (
        install (order.be32 (get_or s2.mbuf.body 0 0))
          (read_words order s2.mbuf.body 1 n'.number_pid) n');
    b_message = s2;
    ack_message = s3;
    announced_b = b.0;
    announced_a = a.0;
    at_a =
        on_pid_a_answer order ha ja wa pa qa fuel sa la m ra i path ip n pids (rw source ka) av
          fits;
    at_b = b.1;
    back_at_a = a.1;
    pids_a = commit_pids ha sa i time n hb _ va ka.found ka.node (rw taken count) ∙ taken;
    pids_b =
        commit_pids hb sb j _ n' ha _ vb kb.found kb.node
          (length-read_words order s2.mbuf.body 1 n'.number_pid)
        ∙ read_back;
  }
    where
      time : ℕ
      time = order.be32 (get_or m.body 0 0)

      s2 : Sent
      s2 = send_pid_b order ha wa pa qa (map order.be32 pids) (order.be32 time) n.number_pid path ip

      s3 : Sent
      s3 = send_ack order hb wb pb qb path' ip'

      count : length pids ≡ n.number_pid
      count =
          length-avoid fuel (ra % 101 + 1) sa.table (read_words order m.body 1 n.number_pid) pids av
          ∙ length-read_words order m.body 1 n.number_pid

      few : n.number_pid ≤ 20
      few = (IsRoomy-node sa.head i n va.roomy ka.node).1

      fits : fits_room n.number_pid ≡ true
      fits = (fits_room_iff n.number_pid (omega (arith, few))).1 (omega (arith, few))

      number : n.number_pid ≡ length (map order.be32 pids)
      number = sym count ∙ sym (length-map pids order.be32)

      message : IsMessage 0x20 ha (order.be32 time ∷ map order.be32 pids) path ip s2.mbuf
      message = rw number (
          send_pid_b_lem order ha wa pa qa (map order.be32 pids) (order.be32 time) path ip
            (omega (arith, number, few)))

      read_back : read_words order s2.mbuf.body 1 n'.number_pid ≡ pids
      read_back =
          rw (message.words_eq, ← same, ← count)
            (read_words_back order (order.be32 time ∷ []) pids (path ∷ []) 1 w refl)

      taken :
          take n.number_pid (get_or (remember la n.id time pids).pid_huancun_pid_a n.id []) ≡ pids
      taken = rw (← count) (recall la n.id time pids z ka.row (omega (arith, count, few)))

      b :
          (sent : List Sent) × (on_pid_b order hb jb wb pb qb sb lb s2.mbuf rb
            ≡ done
                (commit hb sb j (
                  install
                    (order.be32 (get_or s2.mbuf.body 0 0))
                    (read_words order s2.mbuf.body 1 n'.number_pid)
                    n'))
                lb
                (s3 ∷ sent))
      b =
          on_pid_b_answer order hb jb wb pb qb sb lb s2.mbuf rb j path' ip' n'
            (rw (message.source) kb) (rw read_back free)

      a :
          (sent : List Sent) × (on_ack order ha ja wa pa qa sa (remember la n.id time pids) s3.mbuf
            ≡ done
                (commit ha sa i (
                  install time
                    (take n.number_pid
                      (get_or (remember la n.id time pids).pid_huancun_pid_a n.id []))
                    n))
                (remember la n.id time pids)
                sent)
      a =
          on_ack_answer order ha ja wa pa qa sa (remember la n.id time pids) s3.mbuf i path ip n
            (rw ((send_ack_lem order hb wb pb qb path' ip').source) ka)
