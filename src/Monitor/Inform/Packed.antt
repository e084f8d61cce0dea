-- ===== src/Monitor/Inform/Packed.antt =====
-- What `main` of local_inform.c sends, and how the monitor answers it.
use icnprototype.Prelude.{
  ℕ, zero, suc, ◌+◌, ◌*◌, ◌≤◌, ◌≡◌, ◌≢◌, refl, sym, ap, ◌∙◌, List, [], ◌∷◌, ◌++◌, map, replicate,
  length-replicate, Option, some, length, arith,
}
use icnprototype.Prelude.Int.{ℤ, pos}
use icnprototype.Monitor.Requests.{insert_time}
use icnprototype.Monitor.Inform.{
  Middle, Tail, Asked, Datagram, Packing, zero_tail, scan, content_of, fill_tail,
  insert_inform_get_tail, send_message, put_block, pack_port, pack_ports, inform, size_block,
  size_buf, ◌>>=◌,
}
use icnprototype.Monitor.Inform.Bits.{ones, FitsBits}
use icnprototype.Monitor.Inform.Answer.{head, parse_inform_message}
use icnprototype.Monitor.Inform.Answer.Entries.{copies, answered, parse-copies}
use icnprototype.Monitor.Inform.Blocks.{
  sum, sum_snoc, datagram, Fit, Fit-snoc, with_ports, send_message_lem, Leads, put_block_lem,
}

-- The request, the count of names and the entry that the variables ask for: a duration, with times that can be
-- read, and few enough names for a datagram.
pub record Asks (asked : Asked) (request count : ℕ) (t : Tail) : Type 0 where
  pub scanned : scan [] asked.information 0 0 ≡ some (request, count)
  pub kind : content_of asked.type ≡ some t.content_type
  pub duration : t.content_type ≢ 0
  pub starts : insert_time asked.start_time ≡ some t.start
  pub ends : insert_time asked.end_time ≡ some t.end
  pub room : 40 + size_block count ≤ size_buf

fill_tail-same :
    (asked : Asked) (t before : Tail)
    → t.content_type ≢ 0
    → insert_time asked.start_time ≡ some t.start
    → insert_time asked.end_time ≡ some t.end
    → fill_tail asked t.content_type before ≡ some t
unfolding fill_tail
fill_tail-same asked t before h s e = ground arith

tails_lem :
    (asked : Asked) (t : Tail) (n : ℕ) (before : Tail)
    → content_of asked.type ≡ some t.content_type
    → ((b : Tail) → fill_tail asked t.content_type b ≡ some t)
    → (last : Tail) × (insert_inform_get_tail asked n before ≡ some (replicate n t, last))
unfolding insert_inform_get_tail
tails_lem asked t zero before kind fill = (before, refl)
tails_lem asked t (suc n) before kind fill =
    let (last, rest) = tails_lem asked t n zero_tail kind fill in
    (last, rw (kind, insert_inform_get_tail, fill before, rest) refl)

-- What the variables ask for of each port.
abbrev pub middle_of : Asked → ℕ → Middle
middle_of asked request = record { ip = asked.ip; request = request }

module _ (asked : Asked) (request count : ℕ) (t : Tail) (a : Asks asked request count t)
    (host_name : List ℕ) where
  pack_port_lem :
      (p : Packing)
      → (last : Tail) × (pack_port asked p
          ≡ put_block
              (middle_of asked request)
              (length (replicate count t))
              (replicate count t)
              (record p { inform_get_tail = last }))
  unfolding pack_port
  pack_port_lem p =
      let fill = λ (b : Tail). fill_tail-same asked t b a.duration a.starts a.ends in
      let (last, tails) = tails_lem asked t count p.inform_get_tail a.kind fill in
      (last, rw (a.scanned, ◌>>=◌, tails, length-replicate count t) refl)

  abbrev pub tails : List Tail
  tails = replicate count t

  abbrev pub asks_for : ℕ → Datagram
  asks_for = datagram (middle_of asked request) tails host_name

  room_lem : 40 + size_block (length tails) ≤ size_buf
  room_lem = rw (length-replicate count t) a.room

  pack_ports_lem :
      (n : ℕ) (ks : List ℕ) (k space : ℕ) (last : Tail)
      → Fit (middle_of asked request) tails host_name ks
      → space + 40 + k * size_block (length tails) ≡ size_buf
      → Leads
          (middle_of asked request)
          tails
          host_name
          (pack_ports asked n
            (with_ports (middle_of asked request) tails host_name ks k n space last))
          0
          (sum ks + k + n)
  unfolding pack_ports
  pack_ports_lem zero ks k space last f e = (ks, k, space, last, refl, f, e, omega arith)
  pack_ports_lem (suc n) ks k space last f e =
      let (next, port) =
        pack_port_lem
          (with_ports (middle_of asked request) tails host_name ks k (suc n) space last) in
      let (js, j, rest, next', put, f', e', s) =
        put_block_lem (middle_of asked request) tails host_name ks k n space next f e room_lem in
      let (is, i, left, next'', eq, f'', e'', s') = pack_ports_lem n js j rest next' f' e' in
      (
        is,
        i,
        left,
        next'',
        ap (λ o. o >>= pack_ports asked n) (port ∙ put) ∙ eq,
        f'',
        e'',
        omega (arith, s, s'),
      )

  inform_lem :
      (itnum : ℕ) (fresh : Tail)
      → (ks : List ℕ) × (inform asked host_name itnum fresh ≡ some (map asks_for ks))
        × Fit (middle_of asked request) tails host_name ks
        × (sum ks ≡ itnum)
  unfolding inform copies
  inform_lem itnum fresh =
      let (js, j, rest, last, eq, f, e, s) = pack_ports_lem itnum [] 0 984 fresh tt (omega arith) in
      let start : itnum ≡ 0 + itnum = omega arith in
      let end : j + 0 ≡ j = omega arith in
      let final = with_ports (middle_of asked request) tails host_name js j 0 rest last in
      let finish = λ (o : Option Packing). o >>= λ p. send_message p >>= λ q. some q.sent in
      (
        js ++ (j ∷ []),
        (λ i. finish (
              pack_ports asked itnum (record {
                host_name = host_name;
                left = start i;
                count = start i;
                cells = [];
                space_remain = pos 984;
                port_count = 0;
                inform_get_tail = fresh;
                sent = [];
              })))
            ∙ ap finish eq
            ∙ (λ i.
                send_message (record final { count = end i; left = end i }) >>= λ q. some q.sent)
            ∙ ap (λ o. o >>= λ q. some q.sent)
                (send_message_lem (middle_of asked request) tails host_name js j 0 j rest last e),
        Fit-snoc (middle_of asked request) tails host_name js j f (omega (arith, e)),
        omega (arith, s, sum_snoc js j),
      )

  -- Each of the datagrams is answered with the entries of all its ports.
  abbrev pub AreAnswered : ℤ → List ℕ → Type 0
  AreAnswered port_num [] = Unit
  AreAnswered port_num (k ∷ ks) =
      (parse_inform_message port_num (asks_for k)
        ≡ some (head host_name k ∷ answered (middle_of asked request) tails k))
      × AreAnswered port_num ks

  answered_lem :
      (port_num : ℤ) (ks : List ℕ)
      → FitsBits 8 request
      → ones 8 request ≡ count
      → Fit (middle_of asked request) tails host_name ks
      → AreAnswered port_num ks
  answered_lem port_num [] b o f = tt
  answered_lem port_num (k ∷ ks) b o f = (
    parse-copies port_num host_name (middle_of asked request) tails k _ b
        (o ∙ sym (length-replicate count t)) f.0,
    answered_lem port_num ks b o f.1,
  )

  -- `inform` asks for `itnum` ports in datagrams for some numbers of ports each, which sum up to `itnum`; none
  -- is longer than 1024 bytes. If each name was given once, then the monitor answers each datagram with the
  -- entries of all its ports, each with a value, and the answer fits its buffer.
  pub inform_answered :
      (itnum : ℕ) (fresh : Tail) (port_num : ℤ)
      → FitsBits 8 request
      → ones 8 request ≡ count
      → (ks : List ℕ) × (inform asked host_name itnum fresh ≡ some (map asks_for ks))
        × Fit (middle_of asked request) tails host_name ks
        × (sum ks ≡ itnum)
        × AreAnswered port_num ks
  inform_answered itnum fresh port_num b o =
      let (ks, eq, f, s) = inform_lem itnum fresh in (ks, eq, f, s, answered_lem port_num ks b o f)
