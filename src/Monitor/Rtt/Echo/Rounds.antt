-- ===== src/Monitor/Rtt/Echo/Rounds.antt =====
-- Five packets are sent, and each is answered at most once.
use icnprototype.Prelude.{
  ℕ, zero, suc, ◌+◌, ◌*◌, ◌≤◌, ◌<◌, ◌≡◌, inl, inr, refl, sym, ap, ◌∙◌, ◌==◌, ◌&&◌, Bool-cases, List,
  [], ◌∷◌, Option, some, length, length-set, lt→ltb, subst, arith,
}
use icnprototype.Prelude.Int.{pos, ◌-ℤ◌, ltb_ℤ}
use icnprototype.Monitor.Rtt.Echo.{
  Arithmetic, Reply, Heard, failed, timeout, reply, Stats, add_reply, unpack, answered, recv_packet,
  pings, ◌>>=◌,
}

-- The rounds of `select` that end a wait whatever was received.
unfoldable pub breaks : List Heard → ℕ
breaks [] = 0
breaks (failed ∷ heard) = suc (breaks heard)
breaks (timeout ∷ heard) = suc (breaks heard)
breaks (reply r ∷ heard) = breaks heard

module _ (a : Arithmetic) where
  -- What a packet that is read changes: nothing, or it is one more answer.
  record Counts (s : Stats a) (k : ℕ) (s' : Stats a) : Type 0 where
    one_more : s'.nreceived ≡ s.nreceived + k
    at_most_one : k ≤ 1
    same_nsend : s'.nsend ≡ s.nsend
    same_length : length s'.temp_rtt ≡ length s.temp_rtt

  same : (s : Stats a) → Counts s 0 s
  same s = record {
    one_more = omega arith;
    at_most_one = omega arith;
    same_nsend = refl;
    same_length = refl;
  }

  unpack-Counts :
      (pid : ℕ) (r : Reply) (s : Stats a)
      → s.nreceived < length s.temp_rtt
      → (k : ℕ) × (s' : Stats a) × (unpack a pid r s ≡ some (k, s')) × Counts s k s'
  unfolding unpack
  unpack-Counts pid r s h = elim (Bool-cases (ltb_ℤ (r.len -ℤ pos (r.ip_hl * 4)) (pos 8))) [
    | inl b ↦ (0, s, rw b, same s)
    | inr b ↦ elim (Bool-cases (r.icmp_type == 0 && (r.icmp_id == pid && r.icmp_seq == s.nsend))) [
      | inl c ↦ (
        1,
        add_reply a r s,
        rw (b, c, lt→ltb s.nreceived (length s.temp_rtt) h) refl,
        record {
          one_more = refl;
          at_most_one = omega arith;
          same_nsend = refl;
          same_length = length-set s.temp_rtt s.nreceived _;
        },
      )
      | inr c ↦ (0, s, rw (b, c), same s)
    ]
  ]

  Counts-then : (s s' s'' : Stats a) (k : ℕ) → Counts s 0 s' → Counts s' k s'' → Counts s k s''
  Counts-then s s' s'' k c d = record {
    one_more = omega (arith, c.one_more, d.one_more);
    at_most_one = d.at_most_one;
    same_nsend = d.same_nsend ∙ c.same_nsend;
    same_length = d.same_length ∙ c.same_length;
  }

  -- A wait that ended, after one more answer at most, and with one round less that ends a wait.
  abbrev Ends : Stats a → List Heard → Option (Stats a × List Heard) → Type 0
  Ends s heard o =
      (k : ℕ) × (s' : Stats a) × (rest : List Heard) × (o ≡ some (s', rest))
      × Counts s k s'
      × (breaks heard ≤ suc (breaks rest))

  answered-Ends :
      (again : Stats a → Option (Stats a × List Heard)) (heard : List Heard) (s : Stats a) (k : ℕ)
      (s' : Stats a)
      → Counts s k s'
      → (k ≡ 0 → Ends s' heard (again s'))
      → Ends s heard (answered a again heard (some (k, s')))
  unfolding answered
  answered-Ends again heard s zero s' c more =
      let (j, s'', rest, eq, d, few) = more refl in
      (j, s'', rest, eq, Counts-then s s' s'' j c d, few)
  answered-Ends again heard s (suc n) s' c more = (suc n, s', heard, refl, c, omega arith)

  -- A wait ends if there is a round that ends it.
  recv_packet-Ends :
      (pid : ℕ) (heard : List Heard) (s : Stats a)
      → s.nreceived < length s.temp_rtt
      → 0 < breaks heard
      → Ends s heard (recv_packet a pid heard s)
  unfolding recv_packet breaks
  recv_packet-Ends pid [] s h e = absurd (omega arith)
  recv_packet-Ends pid (failed ∷ heard) s h e = (0, s, heard, refl, same s, omega arith)
  recv_packet-Ends pid (timeout ∷ heard) s h e = (0, s, heard, refl, same s, omega arith)
  recv_packet-Ends pid (reply r ∷ heard) s h e =
      let (k, s', eq, c) = unpack-Counts pid r s h in
      subst
        (λ (o : Option (ℕ × Stats a)). Ends s heard (answered a (recv_packet a pid heard) heard o))
        (sym eq)
        (answered-Ends (recv_packet a pid heard) heard s k s' c
          (λ z. recv_packet-Ends pid heard s' (omega (arith, h, c.one_more, c.same_length, z)) e))

  -- If at least `n` rounds end a wait, then `n` packets are sent, and at most as many are answered.
  pub pings_lem :
      (pid n : ℕ) (heard : List Heard) (s : Stats a)
      → s.nreceived + n ≤ length s.temp_rtt
      → n ≤ breaks heard
      → (s' : Stats a) × (rest : List Heard) × (pings a pid n heard s ≡ some (s', rest))
        × (s'.nsend ≡ s.nsend + n)
        × (s'.nreceived ≤ s.nreceived + n)
        × (length s'.temp_rtt ≡ length s.temp_rtt)
  unfolding pings
  pings_lem pid zero heard s h e = (s, heard, refl, omega arith, omega arith, refl)
  pings_lem pid (suc n) heard s h e =
      let (k, s', rest, eq, c, few) =
        recv_packet-Ends pid heard (record s { nsend = s.nsend + 1 }) (omega arith) (omega arith) in
      let (s'', rest', eq', n_sent, n_received, long) =
        pings_lem pid n rest s' (omega (arith, c.one_more, c.at_most_one, c.same_length, h))
          (omega (arith, few, e)) in
      (
        s'',
        rest',
        ap (λ o. o >>= λ (r : Stats a × List Heard). pings a pid n r.1 r.0) eq ∙ eq',
        omega (arith, n_sent, c.same_nsend),
        omega (arith, n_received, c.one_more, c.at_most_one),
        long ∙ c.same_length,
      )
