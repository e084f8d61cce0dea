-- ===== src/Rm/Forward/Route/Ports.antt =====
-- The ports that requests leave on.
use icnprototype.Prelude.{
  ℕ, ◌/◌, ◌%◌, ◌^◌, ◌<◌, ◌≡◌, ◌⊎◌, refl, sym, ap, ◌∙◌, subst, inl, inr, not, Bool-cases,
  Option-cases, ◌==◌, ◌||◌, List, [], leb, some, get_or, arith,
}
use icnprototype.Rm.ByteOrder.{ByteOrder}
use icnprototype.Rm.Forward.Get.{Mbuf, is_valid_ipv4_pkt, is_negative}
use icnprototype.Rm.Forward.Route.{
  Hash, SidOut, Routes, Memory, sent, out_port, addressed, get_ipv4_dst_port_wxb, renamed, deliver,
  l3fwd_simple_forward,
}

-- The port that the packet came from, or an enabled one.
abbrev pub IsAllowed : ℕ → ℕ → ℕ → ℕ → Type 0
IsAllowed rte_max_ethports enabled_port_mask portid port =
    (port ≡ portid) ⊎ ((port < rte_max_ethports) × ((enabled_port_mask / 2 ^ port) % 2 ≡ 1))

out_port-IsAllowed :
    (n mask portid dst_port : ℕ) → IsAllowed n mask portid (out_port n mask portid dst_port)
out_port-IsAllowed n mask portid dst_port =
    elim (Bool-cases (leb n dst_port || not ((mask / 2 ^ dst_port) % 2 == 1))) [
      | inl b ↦ rw b (inl refl)
      | inr b ↦ rw b (inr (ground (arith, b), ground (arith, b)))
    ]

sent_injective : (p q : ℕ) (m u : Mbuf) → sent p m ≡ sent q u → (p ≡ q) × (m ≡ u)
sent_injective p q m u h = (ground (arith, h), ground (arith, h))

deliver-IsAllowed :
    (hash : Hash) (order : ByteOrder) (n mask : ℕ) (ports_eth_addr : List (List ℕ))
    (routes : Routes hash ℕ) (portid : ℕ) (m : Mbuf) (port : ℕ) (u : Mbuf)
    → deliver hash order n mask ports_eth_addr routes portid m ≡ sent port u
    → IsAllowed n mask portid port × (u.s_addr ≡ get_or ports_eth_addr port [])
unfolding deliver
deliver-IsAllowed hash order n mask ports_eth_addr routes portid m port u h =
    elim (Bool-cases (is_negative (is_valid_ipv4_pkt order m.ip m.pkt_len))) [
      | inl b ↦ ground (arith, b, h)
      | inr b ↦
          (let dst_port = out_port n mask portid (get_ipv4_dst_port_wxb hash m.ip portid routes) in
            let both : sent dst_port (addressed ports_eth_addr dst_port m) ≡ sent port u =
              ground (arith, b, h) in
            let (e, f) =
              sent_injective dst_port port (addressed ports_eth_addr dst_port m) u both in
            (
              subst (λ p. IsAllowed n mask portid p) e
                  (out_port-IsAllowed n mask portid
                    (get_ipv4_dst_port_wxb hash m.ip portid routes)),
              ap (λ x. x.s_addr) (sym f) ∙ ap (λ i. get_or ports_eth_addr i []) e,
            ))
    ]

-- Whatever the tables hold, a request that `l3fwd_simple_forward` sends leaves on the port that it came from
-- or on an enabled port below `RTE_MAX_ETHPORTS`, with the address of that port as its source.
pub l3fwd_simple_forward-IsAllowed :
    (hash : Hash) (order : ByteOrder) (memory : Memory) (rte_max_ethports enabled_port_mask : ℕ)
    (ports_eth_addr : List (List ℕ)) (sids : Routes hash SidOut) (routes : Routes hash ℕ)
    (portid : ℕ) (m : Mbuf) (port : ℕ) (u : Mbuf)
    → l3fwd_simple_forward hash order memory rte_max_ethports enabled_port_mask ports_eth_addr sids
        routes portid m
      ≡ some (sent port u)
    → IsAllowed rte_max_ethports enabled_port_mask portid port
      × (u.s_addr ≡ get_or ports_eth_addr port [])
unfolding l3fwd_simple_forward deliver
l3fwd_simple_forward-IsAllowed hash order memory n mask ports_eth_addr sids routes portid m port u
      h =
    elim (Option-cases (renamed hash order memory sids m)) [
      | inl e ↦ ground (arith, e, h)
      | inr (after, e) ↦
          deliver-IsAllowed hash order n mask ports_eth_addr routes portid after port u
            (ground (arith, e, h))
    ]
