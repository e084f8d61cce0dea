-- ===== src/Rm/Forward/Get/Rotate.antt =====
-- Where successive requests go, and what is written into them.
use icnprototype.Prelude.{
  ℕ, ◌+◌, ◌-◌, ◌%◌, ◌^◌, ◌≡◌, ◌≤◌, ◌<◌, ◌⊎◌, inl, inr, suc, Bool, Option, if◌then◌else◌, refl, sym,
  ap, ◌∙◌, true, false, List, [], ◌∷◌, ◌++◌, length, length-append, length-take, ltb, take, drop,
  leb, some, arith,
}
use icnprototype.Prelude.Int.{pos}
use icnprototype.Rm.ByteOrder.{ByteOrder, little_endian, swap16}
use icnprototype.Rm.Select.{pid_bytes, Turn, start}
use icnprototype.Rm.Select.Rotation.{after, after-suc, lunxun_order}
use icnprototype.Rm.Forward.Get.{
  Mbuf, is_valid_ipv4_pkt, write, add_pid_to_get, put_pid, sent, counted, ipv4_192_168, to_port,
  Forwarded, is_negative, get_packets_forward,
}

-- A request that is taken: valid, with its headers, and with room for a path.
pub record IsTaken (order : ByteOrder) (m : Mbuf) : Type 0 where
  pub valid : is_valid_ipv4_pkt order (counted m).ip m.pkt_len ≡ pos 0
  pub headers : 130 ≤ m.data_len
  pub length_fits : m.data_len + 4 < 2 ^ 16
  pub room : m.data_len ≤ length m.room + 126

-- The data after the headers.
abbrev pub payload : Mbuf → List ℕ
payload m = take (m.data_len - 130) m.room

-- What the request becomes: the path is added to its data, and it goes to the path's network.
pub record Routes (order : ByteOrder) (k : ℕ) (before after : Mbuf) : Type 0 where
  pub data_len : after.data_len ≡ before.data_len + 4
  pub path : payload after ≡ payload before ++ pid_bytes k
  pub src_addr : after.ip.src_addr ≡ order.be32 (ipv4_192_168 (k + 1) 1)
  pub dst_addr : after.ip.dst_addr ≡ order.be32 (ipv4_192_168 (k + 1) 2)

take-append_length : (xs ys : List ℕ) → take (length xs) (xs ++ ys) ≡ xs
take-append_length [] ys = refl
take-append_length (x ∷ xs) ys = ap (λ l. x ∷ l) (take-append_length xs ys)

-- A path written after the data.
write_end :
    (room : List ℕ) (n k : ℕ)
    → n + 4 ≤ length room
    → (t : List ℕ) × (write room n (pid_bytes k) ≡ some t)
      × (take (n + 4) t ≡ take n room ++ pid_bytes k)
write_end room n k h =
    let fits : leb (n + 4) (length room) ≡ true = ground (arith, h) in
    let size : length (take n room ++ pid_bytes k) ≡ n + 4 =
      omega (arith, h, length-append (take n room) (pid_bytes k), length-take n room) in
    (
      take n room ++ pid_bytes k ++ drop (n + 4) room,
      rw fits refl,
      ap (λ i. take i (take n room ++ pid_bytes k ++ drop (n + 4) room)) (sym size)
          ∙ take-append_length (take n room ++ pid_bytes k) (drop (n + 4) room),
    )

put_pid_lem :
    (order : ByteOrder) (m : Mbuf) (k : ℕ)
    → 130 ≤ m.data_len
    → m.data_len + 4 < 2 ^ 16
    → m.data_len ≤ length m.room + 126
    → (u : Mbuf) × (put_pid order m k ≡ some (k, u))
      × (u.data_len ≡ m.data_len + 4)
      × (payload u ≡ payload m ++ pid_bytes k)
put_pid_lem order m k h l r =
    let (t, e, f) = write_end m.room (m.data_len - 130) k (omega arith) in
    let offset : (m.data_len - 20 - 14) % 2 ^ 16 - 96 ≡ m.data_len - 130 = omega arith in
    let size : (m.data_len + 4) % 2 ^ 16 ≡ m.data_len + 4 = omega arith in
    let grown : (m.data_len + 4) % 2 ^ 16 - 130 ≡ m.data_len - 130 + 4 = omega arith in
    (
      record m {
        data_len = (m.data_len + 4) % 2 ^ 16;
        pkt_len = (m.pkt_len + 4) % 2 ^ 32;
        get = record m.get {
          total_len = order.be16 (((m.data_len - 20 - 14) % 2 ^ 16 + 4) % 2 ^ 16);
        };
        room = t;
      },
      rw (put_pid, offset, e) refl,
      size,
      ap (λ i. take i t) grown ∙ f,
    )

one_request :
    (order : ByteOrder) (ports_eth_addr : List (List ℕ)) (n : ℕ) (m : Mbuf)
    → IsTaken order m
    → (u : Mbuf) × (get_packets_forward order ports_eth_addr (after n start) m
        ≡ (some (sent (n % 3 + 1) u), after (suc n) start))
      × Routes order (n % 3 + 1) m u
unfolding get_packets_forward add_pid_to_get
one_request order ports_eth_addr n m h =
    let (u, e, size, path) =
      put_pid_lem order (counted m) (n % 3 + 1) h.headers h.length_fits h.room in
    let long : ltb m.data_len 130 ≡ false = ground (arith, h.headers) in
    (
      to_port order ports_eth_addr (n % 3 + 1) u,
      rw (get_packets_forward, h.valid, add_pid_to_get, lunxun_order n, long, e)
          (ap (λ t. (some (sent (n % 3 + 1) (to_port order ports_eth_addr (n % 3 + 1) u)), t))
            (sym (after-suc n start))),
      record { data_len = size; path = path; src_addr = refl; dst_addr = refl },
    )

module _ (order : ByteOrder) (ports_eth_addr : List (List ℕ)) where
  -- The globals after requests that came one after another.
  pub turn_after : List Mbuf → Turn → Turn
  turn_after [] turn = turn
  turn_after (m ∷ ms) turn = turn_after ms (get_packets_forward order ports_eth_addr turn m).1

  abbrev pub is_freed : Mbuf → Bool
  is_freed m = is_negative (is_valid_ipv4_pkt order (counted m).ip m.pkt_len)

  -- Each request is taken or freed.
  abbrev pub AreHandled : List Mbuf → Type 0
  AreHandled [] = Unit
  AreHandled (m ∷ ms) = ((is_freed m ≡ true) ⊎ IsTaken order m) × AreHandled ms

  -- The number of requests that are not freed.
  unfoldable pub taken_count : List Mbuf → ℕ
  taken_count [] = 0
  taken_count (m ∷ ms) = let rest = taken_count ms in if is_freed m then rest else suc rest

  freed_turn :
      (m : Mbuf) (turn : Turn)
      → is_freed m ≡ true
      → (get_packets_forward order ports_eth_addr turn m).1 ≡ turn
  unfolding get_packets_forward
  freed_turn m turn h = rw h refl

  turn_after_lem :
      (ms : List Mbuf) (n : ℕ)
      → AreHandled ms
      → turn_after ms (after n start) ≡ after (taken_count ms + n) start
  unfolding turn_after taken_count
  turn_after_lem [] n h = ap (λ k. after k start) (omega arith)
  turn_after_lem (m ∷ ms) n (inl freed, h) =
      ap (λ r. turn_after ms r) (freed_turn m (after n start) freed)
      ∙ turn_after_lem ms n h
      ∙ rw freed refl
  turn_after_lem (m ∷ ms) n (inr taken, h) =
      let (u, e, r) = one_request order ports_eth_addr n m taken in
      ap (λ (r : Option Forwarded × Turn). turn_after ms r.1) e
      ∙ turn_after_lem ms (suc n) h
      ∙ rw taken.valid (ap (λ k. after k start) (omega arith))

  start_turn : (ms : List Mbuf) → AreHandled ms → turn_after ms start ≡ after (taken_count ms) start
  unfolding after
  start_turn ms h =
      let same : taken_count ms + 0 ≡ taken_count ms = omega arith in
      turn_after_lem ms 0 h ∙ ap (λ k. after k start) same

  -- From the start, after any requests that were each taken or freed as invalid, a request that is taken leaves on
  -- port n mod 3 + 1, where n is the number of those taken before it, with the path of that port added at the
  -- end of its data and the addresses of that port's network.
  pub get_packets_forward_order :
      (ms : List Mbuf) (m : Mbuf)
      → AreHandled ms
      → IsTaken order m
      → (u : Mbuf) × ((get_packets_forward order ports_eth_addr (turn_after ms start) m).0
          ≡ some (sent (taken_count ms % 3 + 1) u))
        × Routes order (taken_count ms % 3 + 1) m u
  get_packets_forward_order ms m h taken =
      let (u, e, r) = one_request order ports_eth_addr (taken_count ms) m taken in
      let turn : turn_after ms start ≡ after (taken_count ms) start = start_turn ms h in
      (
        u,
        ap (λ t. (get_packets_forward order ports_eth_addr t m).0) turn
            ∙ ap (λ (r : Option Forwarded × Turn). r.0) e,
        r,
      )

-- On a little-endian machine the addition to `total_length` adds 1024 to the length, where it carries no
-- bit over: the field is in network order.
pub counted_length :
    (m : Mbuf)
    → m.ip.total_length < 2 ^ 16
    → m.ip.total_length % 256 < 252
    → little_endian.be16 (counted m).ip.total_length ≡ little_endian.be16 m.ip.total_length + 1024
unfolding swap16
counted_length m h l = omega arith
