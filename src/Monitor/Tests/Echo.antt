-- ===== src/Monitor/Tests/Echo.antt =====
-- The measurement of round trips on two answers, with whole milliseconds in place of `double`
-- and even ones in place of `float`.
use icnprototype.Prelude.{
  ℕ, zero, suc, ◌+◌, ◌-◌, ◌*◌, ◌/◌, ◌%◌, ◌≤◌, ◌<◌, ◌≡◌, refl, ltb, List, [], ◌∷◌, some, take, drop,
  replicate, arith,
}
use icnprototype.Prelude.Int.{pos, pos_part}
use icnprototype.Monitor.Rtt.{tv_sub, sum_words, copy_over, icmp_header, datalen, pack}
use icnprototype.Monitor.Rtt.Laws.{AreBytes, pack_lem}
use icnprototype.Monitor.Rtt.Echo.{
  Arithmetic, Reply, Heard, timeout, reply, Stats, LinkStats, pings, init_statistics,
  get_link_stats, computer_rtt, rtt_of,
}
use icnprototype.Monitor.Rtt.Echo.Rounds.{breaks}
use icnprototype.Monitor.Rtt.Echo.Extremes.{
  IsOrder, AreWithin, get_link_stats_fast, get_link_stats_slow,
}

abbrev whole : Arithmetic
whole = record {
  Double = ℕ;
  of_ℤ = pos_part;
  to_float = λ x. x / 2 * 2;
  plus = λ x y. x + y;
  minus = λ x y. x - y;
  times = λ x y. x * y;
  over = λ x y. x / y;
  less = ltb;
}

whole-IsOrder : IsOrder whole
whole-IsOrder = record {
  irrefl = λ x. ground arith;
  asym = λ x y h. ground arith;
  ge_trans = λ x y z h k. ground arith;
  to_float_mono = λ x y h. ground arith;
}

-- The answer to the packet of that number, after so many milliseconds.
abbrev answer : ℕ → ℕ → Reply
answer seq after = record {
  len = pos 84;
  ip_hl = 5;
  icmp_type = 0;
  icmp_id = 77;
  icmp_seq = seq;
  sent = record { tv_sec = pos 9; tv_usec = pos 1000 };
  received = record { tv_sec = pos 9; tv_usec = pos (1000 + after * 1000) };
}

-- A late answer to the first packet comes while the second is awaited.
abbrev heard : ℕ → List Heard
heard after =
    timeout
    ∷ reply (answer 1 600)
    ∷ reply (answer 2 after)
    ∷ timeout
    ∷ reply (answer 4 30)
    ∷ timeout
    ∷ timeout
    ∷ timeout
    ∷ []

abbrev stats : ℕ → Stats whole
stats after = record {
  nsend = 5;
  nreceived = 2;
  temp_rtt = after ∷ 30 ∷ 0 ∷ 0 ∷ 0 ∷ [];
  all_time = after + 30;
  min = 0;
  max = 0;
  avg = 0;
  mdev = 0;
}

get_link_stats_fast_example :
    (l : LinkStats whole) × (get_link_stats whole 77 (heard 20) ≡ some l)
    × AreWithin whole l.rtt_min l.rtt_max (20 ∷ 30 ∷ [])
    × ((stats 20).nsend ≡ 5)
    × (2 ≤ 5)
unfolding pings init_statistics computer_rtt rtt_of tv_sub breaks
get_link_stats_fast_example =
    get_link_stats_fast whole whole-IsOrder 77 (heard 20) (timeout ∷ timeout ∷ []) (stats 20)
      (omega arith) refl refl

get_link_stats_slow_example :
    get_link_stats whole 77 (heard 510)
    ≡ some (record { packet_loss = 0; rtt_avg = 0; rtt_min = 0; rtt_max = 0; rtt_mdev = 0 })
unfolding pings init_statistics computer_rtt rtt_of tv_sub
get_link_stats_slow_example =
    get_link_stats_slow whole 77 (heard 510) (timeout ∷ timeout ∷ []) (stats 510) refl refl refl

zeros-AreBytes : (n : ℕ) → AreBytes (replicate n 0)
unfolding AreBytes
zeros-AreBytes zero = tt
zeros-AreBytes (suc n) = (omega arith, zeros-AreBytes n)

abbrev tval : List ℕ
tval = 210 ∷ 4 ∷ 0 ∷ []

tval-AreBytes : AreBytes tval
unfolding AreBytes
tval-AreBytes = (omega arith, (omega arith, (omega arith, tt)))

pack_lem_example :
    (cksum : ℕ) × (pack 70000 3 tval (replicate 64 0)
      ≡ icmp_header cksum 70000 3 (copy_over tval (drop 8 (replicate 64 0))))
    × (cksum < 65536)
    × (sum_words (take (8 + datalen) (pack 70000 3 tval (replicate 64 0))) % 65535 ≡ 0)
pack_lem_example = pack_lem 70000 3 tval (replicate 64 0) tval-AreBytes (zeros-AreBytes 64)
