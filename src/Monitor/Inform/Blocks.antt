-- ===== src/Monitor/Inform/Blocks.antt =====
-- The blocks of ports in the datagrams that `main` of local_inform.c sends.
use mathlib.Core.List.{append_assoc, append-nil, map-append}
use icnprototype.Prelude.{
  ℕ, zero, suc, ◌+◌, ◌-◌, ◌*◌, ◌<◌, ◌≤◌, ◌≡◌, refl, sym, ap, ◌∙◌, true, false, List, [], ◌∷◌, ◌++◌,
  map, Option, none, some, length, leb, if◌then◌else◌, arith,
}
use native.Mathlib.Decide.{dec_lt}
use icnprototype.Prelude.Int.{pos, ◌-ℤ◌, ltb_ℤ}
use icnprototype.Monitor.Inform.{
  Middle, Tail, Datagram, Packing, send_message, renew, put_block, block, size_block, size_buf,
  ◌>>=◌,
}
use icnprototype.Monitor.Inform.Answer.Entries.{copies}

copies_snoc {ℓ} : {A : Type ℓ} (k : ℕ) (xs : List A) → copies k xs ++ xs ≡ copies (suc k) xs
unfolding copies
copies_snoc zero xs = sym (append-nil xs)
copies_snoc (suc k) xs = append_assoc xs (copies k xs) xs ∙ ap (λ l. xs ++ l) (copies_snoc k xs)

abbrev pub sum : List ℕ → ℕ
sum [] = 0
sum (k ∷ ks) = k + sum ks

pub sum_snoc : (ks : List ℕ) (k : ℕ) → sum (ks ++ (k ∷ [])) ≡ sum ks + k
sum_snoc [] k = omega arith
sum_snoc (j ∷ ks) k = omega (arith, sum_snoc ks k)

less_neg : (a b : ℕ) → a < b → ltb_ℤ (pos a -ℤ pos b) (pos 0) ≡ true
less_neg a b h = ground arith

less_pos : (a b : ℕ) → ltb_ℤ (pos (a + b) -ℤ pos b) (pos 0) ≡ false
less_pos a b = ground arith

nonneg : (a : ℕ) → ltb_ℤ (pos a) (pos 0) ≡ false
nonneg a = ground arith

le_leb : (a b : ℕ) → a ≤ b → leb a b ≡ true
le_leb a b h = ground arith

minus_pos : (a b : ℕ) → pos (a + b) -ℤ pos b ≡ pos a
minus_pos a b = ground arith

minus_le : (a b : ℕ) → b ≤ a → pos a -ℤ pos b ≡ pos (a - b)
minus_le a b h = ground arith

module _ (m : Middle) (ts : List Tail) (host_name : List ℕ) where
  -- The datagram for `k` ports.
  abbrev pub datagram : ℕ → Datagram
  datagram k = record {
    host_name = host_name;
    count = k;
    cells = copies k (block m ts);
    send_len = 40 + k * size_block (length ts);
  }

  -- As many ports as fit a datagram.
  abbrev pub Fit : List ℕ → Type 0
  Fit [] = Unit
  Fit (k ∷ ks) = (40 + k * size_block (length ts) ≤ size_buf) × Fit ks

  pub Fit-snoc :
      (ks : List ℕ) (k : ℕ)
      → Fit ks
      → 40 + k * size_block (length ts) ≤ size_buf
      → Fit (ks ++ (k ∷ []))
  Fit-snoc [] k f h = (h, tt)
  Fit-snoc (j ∷ ks) k f h = (f.0, Fit-snoc ks k f.1 h)

  -- The state with `k` ports in the datagram and `n` ports still to come, after datagrams for the `ks`.
  abbrev pub with_ports : List ℕ → ℕ → ℕ → ℕ → Tail → Packing
  with_ports ks k n space last = record {
    host_name = host_name;
    left = k + n;
    count = k + n;
    cells = copies k (block m ts);
    space_remain = pos space;
    port_count = k;
    inform_get_tail = last;
    sent = map datagram ks;
  }

  sent_snoc :
      (ks : List ℕ) (k len : ℕ)
      → len ≡ 40 + k * size_block (length ts)
      → map datagram ks
          ++ (record {
            host_name = host_name;
            count = k;
            cells = copies k (block m ts);
            send_len = len;
          }
              ∷ [])
        ≡ map datagram (ks ++ (k ∷ []))
  sent_snoc ks k len e = rw (e, map-append) refl

  pub send_message_lem :
      (ks : List ℕ) (k n left space : ℕ) (last : Tail)
      → space + 40 + k * size_block (length ts) ≡ size_buf
      → send_message (record (with_ports ks k n space last) { count = k; left = left })
        ≡ some (record (with_ports ks k n space last) {
          count = k;
          left = left;
          sent = map datagram (ks ++ (k ∷ []));
        })
  unfolding send_message
  send_message_lem ks k n left space last e =
      let snoc = sent_snoc ks k (size_buf - space) (omega (arith, e)) in
      let before = record (with_ports ks k n space last) { count = k; left = left } in
      ap
        (λ b.
          if b
          then none
          else some (record before {
            sent =
                map datagram ks
                ++ (record {
                  host_name = host_name;
                  count = k;
                  cells = copies k (block m ts);
                  send_len = size_buf - space;
                }
                    ∷ []);
          }))
        (nonneg space)
      ∙ (λ j. some (record before { sent = snoc j }))

  -- The next block fits.
  put_block_fits :
      (ks : List ℕ) (k n rest : ℕ) (last : Tail)
      → put_block m (length ts) ts (with_ports ks k (suc n) (rest + size_block (length ts)) last)
        ≡ some (with_ports ks (suc k) n rest last)
  unfolding put_block
  put_block_fits ks k n rest last =
      let before = with_ports ks k (suc n) (rest + size_block (length ts)) last in
      let left : k + suc n ≡ suc k + n = omega arith in
      let ports : k + 1 ≡ suc k = omega arith in
      let spaces = minus_pos rest (size_block (length ts)) in
      let snoc = copies_snoc k (block m ts) in
      ap
        (λ b.
          if b
          then send_message (record before { count = k; left = k + suc n - k })
            >>= renew m (length ts) ts
          else some (record before {
            cells = copies k (block m ts) ++ block m ts;
            space_remain = before.space_remain -ℤ pos (size_block (length ts));
            port_count = k + 1;
          }))
        (less_pos rest (size_block (length ts)))
      ∙ (λ j. some (record before {
        left = left j;
        count = left j;
        cells = snoc j;
        space_remain = spaces j;
        port_count = ports j;
      }))

  renew_lem :
      (ks : List ℕ) (k n left space : ℕ) (last : Tail)
      → left ≡ suc n
      → 40 + size_block (length ts) ≤ size_buf
      → renew m (length ts) ts (record (with_ports ks k n space last) { count = k; left = left })
        ≡ some (with_ports ks 1 n (size_buf - (40 + size_block (length ts))) last)
  unfolding renew copies
  renew_lem ks k n left space last e room =
      let before = with_ports ks 1 n space last in
      let lefts : left ≡ 1 + n = omega (arith, e) in
      let whole = sym (append-nil (block m ts)) in
      let spaces = minus_le size_buf (40 + size_block (length ts)) room in
      let bytes : 36 + size_block (length ts) + 4 ≡ 40 + size_block (length ts) = omega arith in
      ap
        (λ b.
          if b
          then some (record before {
            left = left;
            count = left;
            cells = block m ts;
            space_remain = pos size_buf -ℤ pos (36 + size_block (length ts) + 4);
          })
          else none)
        (le_leb (40 + size_block (length ts)) size_buf room)
      ∙ (λ j. some (record before {
        left = lefts j;
        count = lefts j;
        cells = whole j;
        space_remain = (ap (λ b. pos size_buf -ℤ pos b) bytes ∙ spaces) j;
      }))

  -- It does not.
  put_block_full :
      (ks : List ℕ) (k n space : ℕ) (last : Tail)
      → space < size_block (length ts)
      → space + 40 + k * size_block (length ts) ≡ size_buf
      → 40 + size_block (length ts) ≤ size_buf
      → put_block m (length ts) ts (with_ports ks k (suc n) space last)
        ≡ some (with_ports (ks ++ (k ∷ [])) 1 n (size_buf - (40 + size_block (length ts))) last)
  unfolding put_block
  put_block_full ks k n space last h e room =
      let before = with_ports ks k (suc n) space last in
      ap
        (λ b.
          if b
          then send_message (record before { count = k; left = k + suc n - k })
            >>= renew m (length ts) ts
          else some (record before {
            cells = copies k (block m ts) ++ block m ts;
            space_remain = before.space_remain -ℤ pos (size_block (length ts));
            port_count = k + 1;
          }))
        (less_neg space (size_block (length ts)) h)
      ∙ ap (λ o. o >>= renew m (length ts) ts)
          (send_message_lem ks k (suc n) (k + suc n - k) space last e)
      ∙ renew_lem (ks ++ (k ∷ [])) k n (k + suc n - k) space last (omega arith) room

  -- Some such state, with `total` ports so far.
  abbrev pub Leads : Option Packing → ℕ → ℕ → Type 0
  Leads o n total =
      (js : List ℕ) × (j : ℕ) × (rest : ℕ) × (last : Tail) × (o
        ≡ some (with_ports js j n rest last))
      × Fit js
      × (rest + 40 + j * size_block (length ts) ≡ size_buf)
      × (sum js + j ≡ total)

  -- A block goes into the datagram or a new one.
  pub put_block_lem :
      (ks : List ℕ) (k n space : ℕ) (last : Tail)
      → Fit ks
      → space + 40 + k * size_block (length ts) ≡ size_buf
      → 40 + size_block (length ts) ≤ size_buf
      → Leads (put_block m (length ts) ts (with_ports ks k (suc n) space last)) n (sum ks + suc k)
  put_block_lem ks k n space last f e room = elim (dec_lt space (size_block (length ts))) [
    | yes h ↦ (
      ks ++ (k ∷ []),
      1,
      size_buf - (40 + size_block (length ts)),
      last,
      put_block_full ks k n space last h e room,
      Fit-snoc ks k f (omega (arith, e)),
      omega arith,
      omega (arith, sum_snoc ks k),
    )
    | no h ↦
        let whole : space ≡ (space - size_block (length ts)) + size_block (length ts) =
          omega arith in
        (
          ks,
          suc k,
          space - size_block (length ts),
          last,
          (λ i. put_block m (length ts) ts (with_ports ks k (suc n) (whole i) last))
              ∙ put_block_fits ks k n (space - size_block (length ts)) last,
          f,
          omega (arith, e),
          omega arith,
        )
  ]
