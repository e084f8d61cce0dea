-- ===== src/Monitor/Capture/Totals.antt =====
-- What the counters add up to.
use icnprototype.Prelude.{
  ℕ, zero, suc, ◌+◌, ◌<◌, ◌≤◌, ◌≡◌, ◌↔◌, ◌⊎◌, refl, sym, ap, ◌∙◌, inl, inr, Bool, true, false,
  if-keeps, List, [], ◌∷◌, take, Option, ◌==◌, arith, if◌then◌else◌, length,
}
use icnprototype.Monitor.Capture.{
  PackCount, StatsInfo, no_stats, same_prefix, Frame, received, count_frame, rsflag_of, count_kind,
  ethdump_parse_eth_head, ethdump_parse_frame, capture,
}

-- Each frame is counted in one direction.
pub record IsBalanced (c : PackCount) : Type 0 where
  pub packets : c.total_packets ≡ c.tx_packets + c.rx_packets
  pub bytes : c.total_bytes ≡ c.tx_bytes + c.rx_bytes

-- All three kinds of counters are balanced, and the frames of the two special kinds are among all.
pub record AreBalanced (stats : StatsInfo) : Type 0 where
  pub all : IsBalanced stats.all
  pub gets : IsBalanced stats.get_pack_count
  pub datas : IsBalanced stats.data_pack_count
  pub packets :
      stats.get_pack_count.total_packets + stats.data_pack_count.total_packets
      ≤ stats.all.total_packets
  pub bytes :
      stats.get_pack_count.total_bytes + stats.data_pack_count.total_bytes ≤ stats.all.total_bytes

unfoldable pub HasNoZero : List ℕ → Type 0
HasNoZero [] = Unit
HasNoZero (x ∷ xs) = (0 < x) × HasNoZero xs

count_frame-IsBalanced :
    (rsflag size : ℕ) (c : PackCount)
    → ((rsflag ≡ 1) ⊎ (rsflag ≡ 2))
    → IsBalanced c
    → IsBalanced (count_frame rsflag size c)
      × ((count_frame rsflag size c).total_packets ≡ c.total_packets + 1)
      × ((count_frame rsflag size c).total_bytes ≡ c.total_bytes + size)
unfolding count_frame
count_frame-IsBalanced rsflag size c (inl e) b =
    rw e (record { packets = omega (arith, b.packets); bytes = omega (arith, b.bytes) }, refl, refl)
count_frame-IsBalanced rsflag size c (inr e) b =
    rw e (record { packets = omega (arith, b.packets); bytes = omega (arith, b.bytes) }, refl, refl)

-- A frame of any kind.
count_kind-AreBalanced :
    (head_type rsflag size : ℕ) (stats : StatsInfo)
    → ((rsflag ≡ 1) ⊎ (rsflag ≡ 2))
    → AreBalanced stats
    → AreBalanced (
        count_kind head_type rsflag size (record stats { all = count_frame rsflag size stats.all }))
unfolding count_kind
count_kind-AreBalanced head_type rsflag size stats h b =
    let (a, a', a'') = count_frame-IsBalanced rsflag size stats.all h b.all in
    let (d, d', d'') = count_frame-IsBalanced rsflag size stats.data_pack_count h b.datas in
    let (g, g', g'') = count_frame-IsBalanced rsflag size stats.get_pack_count h b.gets in
    if-keeps AreBalanced (head_type == 161)
      (record {
        all = a;
        gets = b.gets;
        datas = d;
        packets = omega (arith, a', d', b.packets);
        bytes = omega (arith, a'', d'', b.bytes);
      })
      (if-keeps AreBalanced (head_type == 160)
        (record {
          all = a;
          gets = g;
          datas = b.datas;
          packets = omega (arith, a', g', b.packets);
          bytes = omega (arith, a'', g'', b.bytes);
        })
        (record {
          all = a;
          gets = b.gets;
          datas = b.datas;
          packets = omega (arith, a', b.packets);
          bytes = omega (arith, a'', b.bytes);
        }))

direction :
    (local_mac : List ℕ) (frame : Frame)
    → (rsflag_of local_mac frame ≡ 1) ⊎ (rsflag_of local_mac frame ≡ 2)
direction local_mac frame =
    if-keeps (λ (r : ℕ). (r ≡ 1) ⊎ (r ≡ 2)) (same_prefix 6 frame.ether_shost local_mac) (inr refl)
      (inl refl)

capture_from :
    (local_mac : List ℕ) (got : List (Option Frame)) (stats : StatsInfo)
    → AreBalanced stats
    → AreBalanced (capture local_mac got stats)
unfolding capture ethdump_parse_frame ethdump_parse_eth_head
capture_from local_mac [] stats b = b
capture_from local_mac (o ∷ got) stats b =
    capture_from local_mac got _
      (count_kind-AreBalanced _ _ _ stats (direction local_mac (received o)) b)

-- After any frames and errors since the counters were cleared, the totals are the sums of what was
-- counted as sent and as received, for all frames, for get packets and for data packets, and the two
-- kinds together are no more than all.
pub capture-AreBalanced :
    (local_mac : List ℕ) (got : List (Option Frame)) → AreBalanced (capture local_mac got no_stats)
capture-AreBalanced local_mac got = capture_from local_mac got no_stats balanced
  where
    balanced : AreBalanced no_stats
    balanced = record {
      all = record { packets = refl; bytes = refl };
      gets = record { packets = refl; bytes = refl };
      datas = record { packets = refl; bytes = refl };
      packets = omega arith;
      bytes = omega arith;
    }

same_prefix_iff :
    (n : ℕ) (s t : List ℕ)
    → HasNoZero t
    → n ≤ length s
    → n ≤ length t
    → (same_prefix n s t ≡ true) ↔ (take n s ≡ take n t)
unfolding same_prefix HasNoZero
same_prefix_iff zero s t h k l = ground arith
same_prefix_iff (suc n) [] t h k l = absurd (omega arith)
same_prefix_iff (suc n) (x ∷ s) [] h k l = absurd (omega arith)
same_prefix_iff (suc n) (x ∷ s) (y ∷ t) (h, h') k l =
    ground (arith, same_prefix_iff n s t h' (omega arith) (omega arith))

take_whole : (n : ℕ) (xs : List ℕ) → length xs ≡ n → take n xs ≡ xs
take_whole zero [] h = refl
take_whole zero (x ∷ xs) h = absurd (omega arith)
take_whole (suc n) [] h = refl
take_whole (suc n) (x ∷ xs) h = ap (λ l. x ∷ l) (take_whole n xs (omega arith))

abbrev rsflag : Bool → ℕ
rsflag b = if b then 2 else 1

sent_true : (b : Bool) → rsflag b ≡ 2 → b ≡ true
sent_true true h = refl
sent_true false h = absurd (omega arith)

sent_two : (b : Bool) → b ≡ true → rsflag b ≡ 2
sent_two true h = refl
sent_two false h = cc

-- With an own address of six bytes, none of them zero, `ethdump_parseEthHead` takes a frame for one
-- that is sent exactly if its source is this address.
pub ethdump_parse_eth_head_iff :
    (local_mac : List ℕ) (frame : Frame) (stats : StatsInfo)
    → length frame.ether_shost ≡ 6
    → length local_mac ≡ 6
    → HasNoZero local_mac
    → ((ethdump_parse_eth_head local_mac frame stats).0 ≡ 2) ↔ (frame.ether_shost ≡ local_mac)
unfolding ethdump_parse_eth_head
ethdump_parse_eth_head_iff local_mac frame stats h k z =
    let (f, g) = same_prefix_iff 6 frame.ether_shost local_mac z (omega arith) (omega arith) in
    let a = take_whole 6 frame.ether_shost h in
    let b = take_whole 6 local_mac k in
    ((λ e. sym a ∙ f (sent_true _ e) ∙ b), (λ e. sent_two _ (g (a ∙ e ∙ sym b))))
