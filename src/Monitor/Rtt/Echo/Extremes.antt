-- ===== src/Monitor/Rtt/Echo/Extremes.antt =====
-- The smallest and the largest round trip that are reported.
use icnprototype.Prelude.{
  ℕ, ◌≤◌, ◌≡◌, inl, inr, sym, ap, ◌∙◌, Bool, true, false, Bool-cases, List, [], ◌∷◌, Option, some,
  take, map, if◌then◌else◌, subst, arith,
}
use icnprototype.Prelude.Int.{pos}
use icnprototype.Monitor.Rtt.Echo.Rounds.{breaks, pings_lem}
use icnprototype.Monitor.Rtt.Echo.{
  ◌>>=◌, Arithmetic, Heard, Stats, LinkStats, pings, init_statistics, extremes, first, finish_on,
  loss, computer_rtt, link_stats, measure, get_link_stats, max_no_packets,
}

-- What holds of `<` on numbers other than NaN, and that rounding keeps their order.
pub record IsOrder (a : Arithmetic) : Type 0 where
  pub irrefl : (x : a.Double) → a.less x x ≡ false
  pub asym : (x y : a.Double) → a.less x y ≡ true → a.less y x ≡ false
  pub ge_trans : (x y z : a.Double) → a.less x y ≡ false → a.less y z ≡ false → a.less x z ≡ false
  pub to_float_mono :
      (x y : a.Double) → a.less x y ≡ false → a.less (a.to_float x) (a.to_float y) ≡ false

some_inj {ℓ} : {A : Type ℓ} {x y : A} → some x ≡ some y → x ≡ y
some_inj h = cc

module _ (a : Arithmetic) where
  open a use {Double, less}

  -- No value of the list is below `low` or above `high`.
  abbrev pub AreWithin : Double → Double → List Double → Type 0
  AreWithin low high [] = Unit
  AreWithin low high (x ∷ xs) = (less x low ≡ false) × (less high x ≡ false) × AreWithin low high xs

  AreWithin-to_float :
      (o : IsOrder a) (low high : Double) (xs : List Double)
      → AreWithin low high xs
      → AreWithin (a.to_float low) (a.to_float high) (map a.to_float xs)
  AreWithin-to_float o low high [] h = tt
  AreWithin-to_float o low high (x ∷ xs) (h, k, l) =
      (o.to_float_mono x low h, o.to_float_mono high x k, AreWithin-to_float o low high xs l)

  -- The same, for limits that lie outside of `low` and `high`.
  Widens : Double × Double × Double → Double → Double → List Double → Type 0
  Widens r low high xs = (less low r.0 ≡ false) × (less r.1 high ≡ false) × AreWithin r.0 r.1 xs

  widen :
      (o : IsOrder a) (r : Double × Double × Double) (x : Double) (xs : List Double)
      (low high low' high' : Double)
      → less low low' ≡ false
      → less high' high ≡ false
      → less x low' ≡ false
      → less high' x ≡ false
      → Widens r low' high' xs
      → Widens r low high (x ∷ xs)
  unfolding Widens
  widen o r x xs low high low' high' h k l m (b, c, w) = (
    o.ge_trans low low' r.0 h b,
    o.ge_trans r.1 high' high c k,
    (o.ge_trans x low' r.0 l b, o.ge_trans r.1 high' x c m, w),
  )

  extremes-Widens :
      (o : IsOrder a) (avg : Double) (xs : List Double) (low high sum : Double)
      → less high low ≡ false
      → Widens (extremes a avg xs (low, high, sum)) low high xs
  unfolding extremes Widens
  extremes-Widens o avg [] low high sum h = (o.irrefl low, o.irrefl high, tt)
  extremes-Widens o avg (x ∷ xs) low high sum h =
      let next =
        if less (a.minus x avg) (a.of_ℤ (pos 0))
        then a.plus sum (a.minus avg x)
        else a.plus sum (a.minus x avg) in
      let Goal =
        λ (acc : Double × Double × Double). Widens (extremes a avg xs acc) low high (x ∷ xs) in
      elim (Bool-cases (less x low)) [
        | inl b ↦
            let above = o.ge_trans high low x h (o.asym x low b) in
            subst Goal
              (λ j. (
                if sym b j then x else low,
                if sym b j then high else if less high x then x else high,
                next,
              ))
              (widen o (extremes a avg xs (x, high, next)) x xs low high x high (o.asym x low b)
                (o.irrefl high) (o.irrefl x) above (extremes-Widens o avg xs x high next above))
        | inr b ↦ elim (Bool-cases (less high x)) [
          | inl c ↦
              subst Goal
                (λ j. (
                  if sym b j then x else low,
                  if sym b j then high else if sym c j then x else high,
                  next,
                ))
                (widen o (extremes a avg xs (low, x, next)) x xs low high low x (o.irrefl low)
                  (o.asym high x c) b (o.irrefl x) (extremes-Widens o avg xs low x next b))
          | inr c ↦
              subst Goal
                (λ j. (
                  if sym b j then x else low,
                  if sym b j then high else if sym c j then x else high,
                  next,
                ))
                (widen o (extremes a avg xs (low, high, next)) x xs low high low high (o.irrefl low)
                  (o.irrefl high) b c (extremes-Widens o avg xs low high next h))
        ]
      ]

  computer_rtt-AreWithin :
      (o : IsOrder a) (s : Stats a)
      → AreWithin (computer_rtt a s).min (computer_rtt a s).max (take s.nreceived s.temp_rtt)
  unfolding computer_rtt Widens
  computer_rtt-AreWithin o s =
      (extremes-Widens o _ (take s.nreceived s.temp_rtt) (first a s.temp_rtt) (first a s.temp_rtt) _
        (o.irrefl (first a s.temp_rtt))).2

  -- The first five packets, where at least five rounds of `select` end a wait.
  first_pings :
      (pid : ℕ) (heard : List Heard)
      → max_no_packets ≤ breaks heard
      → (s : Stats a) × (rest : List Heard) × (pings a pid max_no_packets heard (init_statistics a)
          ≡ some (s, rest))
        × (s.nsend ≡ 5)
        × (s.nreceived ≤ 5)
  unfolding init_statistics
  first_pings pid heard h =
      let (s, rest, eq, n_sent, n_received, long) =
        pings_lem a pid max_no_packets heard (init_statistics a) (omega arith) h in
      (s, rest, eq, n_sent, n_received)

  -- The end of the round that left `s`.
  abbrev finish : ℕ → ℕ → Stats a → List Heard → Bool → Option (LinkStats a)
  finish fuel pid s rest b =
      finish_on a b (link_stats a (computer_rtt a s))
        (measure a fuel pid 0 rest (init_statistics a))

  get_link_stats_as :
      (pid : ℕ) (heard rest : List Heard) (s : Stats a) {b : Bool}
      → pings a pid max_no_packets heard (init_statistics a) ≡ some (s, rest)
      → less (a.of_ℤ (pos 500)) (computer_rtt a s).max ≡ b
      → get_link_stats a pid heard ≡ finish 1 pid s rest b
  unfolding get_link_stats measure
  get_link_stats_as pid heard rest s h k =
      ap
        (λ o. o >>= λ (r : Stats a × List Heard).
          finish 1 pid r.0 r.1 (less (a.of_ℤ (pos 500)) (computer_rtt a r.0).max))
        h
      ∙ ap (finish 1 pid s rest) k

  -- Where `<` is an order that rounding keeps: if at least five rounds of `select` end a wait, then five packets
  -- are sent and at most five answers counted. If the largest round trip is then not above 500, `get_link_stats`
  -- ends, and reports limits within which all counted ones lie, each cut to a `float`.
  pub get_link_stats_fast :
      (o : IsOrder a) (pid : ℕ) (heard rest : List Heard) (s : Stats a)
      → max_no_packets ≤ breaks heard
      → pings a pid max_no_packets heard (init_statistics a) ≡ some (s, rest)
      → less (a.of_ℤ (pos 500)) (computer_rtt a s).max ≡ false
      → (l : LinkStats a) × (get_link_stats a pid heard ≡ some l)
        × AreWithin l.rtt_min l.rtt_max (map a.to_float (take s.nreceived s.temp_rtt))
        × (s.nsend ≡ 5)
        × (s.nreceived ≤ 5)
  unfolding link_stats finish_on
  get_link_stats_fast o pid heard rest s h e fast =
      let (s', rest', e', n_sent, n_received) = first_pings pid heard h in
      let same : s' ≡ s = ap (λ (r : Stats a × List Heard). r.0) (some_inj (sym e' ∙ e)) in
      (
        link_stats a (computer_rtt a s),
        get_link_stats_as pid heard rest s e fast,
        AreWithin-to_float o _ _ _ (computer_rtt-AreWithin o s),
        subst (λ (t : Stats a). t.nsend ≡ 5) same n_sent,
        subst (λ (t : Stats a). t.nreceived ≤ 5) same n_received,
      )

  -- If the largest round trip of the packets is above 500, and 500 is not below 0, then the second round sends
  -- nothing, and what is reported is a loss of 0 out of 0 packets, and 0 for the other values.
  pub get_link_stats_slow :
      (pid : ℕ) (heard rest : List Heard) (s : Stats a)
      → less (a.of_ℤ (pos 500)) (a.of_ℤ (pos 0)) ≡ false
      → pings a pid max_no_packets heard (init_statistics a) ≡ some (s, rest)
      → less (a.of_ℤ (pos 500)) (computer_rtt a s).max ≡ true
      → get_link_stats a pid heard
        ≡ some (record {
          packet_loss = loss a (pos 0) 0;
          rtt_avg = a.to_float (a.of_ℤ (pos 0));
          rtt_min = a.to_float (a.of_ℤ (pos 0));
          rtt_max = a.to_float (a.of_ℤ (pos 0));
          rtt_mdev = a.to_float (a.of_ℤ (pos 0));
        })
  unfolding link_stats computer_rtt init_statistics measure pings extremes finish_on
  get_link_stats_slow pid heard rest s zero_small e slow =
      get_link_stats_as pid heard rest s e slow
      ∙ ap (finish 0 pid (init_statistics a) rest) zero_small
