-- ===== src/Monitor/Listen/Orders.antt =====
-- The timers that the thread sets, and how it loses them.
use icnprototype.Prelude.{
  ℕ, zero, suc, ◌+◌, ◌*◌, ◌≤◌, ◌≡◌, refl, sym, ap, ◌∙◌, List, [], ◌∷◌, map, Option, none, some,
  take, length, length-map, Option-cases, inl, inr, subst, arith,
}
use icnprototype.Monitor.Requests.{Tm}
use icnprototype.Monitor.Timer.{Timer, TimerMessage, set_child_timer, set_timer_id}
use icnprototype.Monitor.Inform.Answer.{Item, parse_inform_message}
use icnprototype.Monitor.Timer.Insert.{IsSortedFrom, schedule, insert_a_timer-IsSorted}
use icnprototype.Monitor.Sender.{SendBuf, send, ◌>>=◌}
use icnprototype.Monitor.Sender.Written.{Line, AreLines, line_text, message_of, send-lines}
use icnprototype.Monitor.Listen.{
  Received, timers, ack, get, other, Setting, parse_timer_message, Ret, null, local_listen,
  Listener, after, listen, listen_all, arrived, max_received,
}

-- The timers that are set for messages, from the `i`-th on.
pub set_all : Setting → ℕ → List (TimerMessage Tm) → List Timer → List Timer
set_all s i [] head = head
set_all s i (m ∷ ms) head =
    set_all s (suc i) ms (set_child_timer s.mktime (s.now i) head m s.port_info)

parse-set_all :
    (s : Setting) (i : ℕ) (ms : List (TimerMessage Tm)) (head : List Timer)
    → parse_timer_message s i (length ms) ms head ≡ some (set_all s i ms head)
unfolding parse_timer_message set_all
parse-set_all s i [] head = refl
parse-set_all s i (m ∷ ms) head = parse-set_all s (suc i) ms _

take_all {ℓ} : {A : Type ℓ} (n : ℕ) (xs : List A) → length xs ≤ n → take n xs ≡ xs
take_all zero [] h = refl
take_all zero (x ∷ xs) h = absurd (omega arith)
take_all (suc n) [] h = refl
take_all (suc n) (x ∷ xs) h = ap (λ l. x ∷ l) (take_all n xs (omega arith))

arrived_all : (n : ℕ) → n ≤ max_received → n ≤ arrived (4 + n * 80)
unfolding arrived
arrived_all n h = ground (arith, h)

-- What a round makes of the result of `parse_timer_message`.
abbrev keep : Listener → Option (List Timer) → Option Listener
keep l o =
    (o >>= λ t. some (1, Ret.head t)) >>= λ (result : ℕ × Ret). some (after result.0 result.1 l)

-- A file has one line to twelve, each of fewer than 1024 characters, with a flag of one digit, an address of fewer
-- than 16 characters and numbers that an int holds. The program sends all of it but the last 4 bytes, and the
-- thread that takes the datagram handles the messages of the lines in their order, and answers nothing.
pub listen-send :
    (s : Setting) (l : Listener) (line : Line) (lines : List Line)
    → AreLines (line ∷ lines)
    → length (line ∷ lines) ≤ max_received
    → (send (map line_text (line ∷ lines)) >>= λ buf. listen s l (timers buf))
      ≡ some (record l {
        type = 1;
        timer_info = set_all s 0 (map message_of (line ∷ lines)) l.timer_info;
      })
unfolding listen local_listen after
listen-send s l line lines h k =
    let ms = map message_of (line ∷ lines) in
    let few : length ms ≤ max_received = omega (arith, length-map (line ∷ lines) message_of, k) in
    ap (λ o. o >>= λ buf. listen s l (timers buf)) (send-lines line lines h (omega (arith, k)))
    ∙ ap (λ us. keep l (parse_timer_message s 0 (length ms) us l.timer_info))
        (take_all (arrived (4 + length ms * 80)) ms (arrived_all (length ms) few))
    ∙ ap (keep l) (parse-set_all s 0 ms l.timer_info)

none-ne-some {ℓ} : {A : Type ℓ} {a : A} → none ≡ some a → ⊥
none-ne-some h = cc

some_inj {ℓ} : {A : Type ℓ} {a b : A} → some a ≡ some b → a ≡ b
some_inj h = cc

-- Inversion of a successful bind.
bind_some {ℓ κ} :
    {A : Type ℓ} {B : Type κ} (o : Option A) (f : A → Option B) {b : B}
    → (o >>= f) ≡ some b
    → (a : A) × (o ≡ some a) × (f a ≡ some b)
bind_some none f h = absurd (none-ne-some h)
bind_some (some a) f h = (a, refl, h)

listen-timers :
    (s : Setting) (l next : Listener) (buf : SendBuf)
    → listen s l (timers buf) ≡ some next
    → (t : List Timer) × (parse_timer_message s 0 buf.count
          (take (arrived buf.send_len) buf.timer_message)
          l.timer_info
        ≡ some t)
      × (next ≡ record l { type = 1; timer_info = t })
unfolding listen local_listen after
listen-timers s l next buf h =
    let (result, parsed, e) = bind_some _ _ h in
    let (t, went, e') = bind_some _ _ parsed in
    (t, went, sym (some_inj e) ∙ ap (λ (r : ℕ × Ret). after r.0 r.1 l) (sym (some_inj e')))

-- After a datagram of timers that it took, one of an unknown type makes the thread lose all timers.
pub listen_loses :
    (s : Setting) (l next : Listener) (buf : SendBuf)
    → listen s l (timers buf) ≡ some next
    → listen s next other ≡ some (record next { timer_info = [] })
unfolding listen local_listen after
listen_loses s l next buf h =
    let (t, went, e) = listen-timers s l next buf h in
    subst (λ (n : Listener). listen s n other ≡ some (record n { timer_info = [] })) (sym e) refl

set_child_timer-IsSorted :
    (s : Setting) (now : ℕ) (head : List Timer) (m : TimerMessage Tm)
    → IsSortedFrom 0 (schedule head)
    → IsSortedFrom 0 (schedule (set_child_timer s.mktime now head m s.port_info))
unfolding set_child_timer
set_child_timer-IsSorted s now head m h = elim (Option-cases (set_timer_id m s.port_info)) [
  | inl e ↦ rw (e, set_child_timer) h
  | inr (id, e) ↦ rw (e, set_child_timer) (insert_a_timer-IsSorted now head _ h)
]

parse-IsSorted :
    (s : Setting) (i count : ℕ) (ms : List (TimerMessage Tm)) (head : List Timer) {t : List Timer}
    → IsSortedFrom 0 (schedule head)
    → parse_timer_message s i count ms head ≡ some t
    → IsSortedFrom 0 (schedule t)
unfolding parse_timer_message
parse-IsSorted s i zero ms head h e =
    subst (λ (l : List Timer). IsSortedFrom 0 (schedule l)) (some_inj e) h
parse-IsSorted s i (suc count) [] head h e = absurd (none-ne-some e)
parse-IsSorted s i (suc count) (m ∷ ms) head h e =
    parse-IsSorted s (suc i) count ms _ (set_child_timer-IsSorted s (s.now i) head m h) e

after_null-IsSorted :
    (type : ℕ) (l : Listener)
    → IsSortedFrom 0 (schedule l.timer_info)
    → IsSortedFrom 0 (schedule (after type null l).timer_info)
unfolding after
after_null-IsSorted zero l h = h
after_null-IsSorted (suc zero) l h = tt
after_null-IsSorted (suc (suc zero)) l h = h
after_null-IsSorted (suc (suc (suc zero))) l h = h
after_null-IsSorted (suc (suc (suc (suc n)))) l h = h

listen-IsSorted :
    (s : Setting) (r : Received) (l next : Listener)
    → IsSortedFrom 0 (schedule l.timer_info)
    → listen s l r ≡ some next
    → IsSortedFrom 0 (schedule next.timer_info)
unfolding listen local_listen after
listen-IsSorted s (timers buf) l next h e =
    let (t, went, e') = listen-timers s l next buf e in
    subst (λ (n : Listener). IsSortedFrom 0 (schedule n.timer_info)) (sym e')
      (parse-IsSorted s 0 buf.count (take (arrived buf.send_len) buf.timer_message) l.timer_info h
        went)
listen-IsSorted s (ack n) l next h e =
    subst (λ (m : Listener). IsSortedFrom 0 (schedule m.timer_info)) (some_inj e) h
listen-IsSorted s (get d) l next h e =
    let finish = λ (result : ℕ × Ret). some (after result.0 result.1 l) in
    let answer : List Item → Option (ℕ × Ret) = λ out. some (3, Ret.inform_data out) in
    let (result, parsed, e') =
      bind_some (parse_inform_message s.port_num d >>= answer) finish {b = next} e in
    let (out, went, e'') =
      bind_some (parse_inform_message s.port_num d) answer {b = result} parsed in
    let end = ap (λ (r : ℕ × Ret). after r.0 r.1 l) (some_inj e'') ∙ some_inj e' in
    subst (λ (m : Listener). IsSortedFrom 0 (schedule m.timer_info)) end h
listen-IsSorted s other l next h e =
    subst (λ (m : Listener). IsSortedFrom 0 (schedule m.timer_info)) (some_inj e)
      (after_null-IsSorted l.type l h)

-- A datagram that holds the entries that it counts, or a request whose answer fits its buffer.
abbrev pub IsWhole : Setting → Received → Type 0
IsWhole s (timers buf) = buf.count ≤ length (take (arrived buf.send_len) buf.timer_message)
IsWhole s (ack n) = Unit
IsWhole s (get d) = (out : List Item) × (parse_inform_message s.port_num d ≡ some out)
IsWhole s other = Unit

abbrev pub AreWhole : Setting → List Received → Type 0
AreWhole s [] = Unit
AreWhole s (r ∷ rs) = IsWhole s r × AreWhole s rs

parse-ends :
    (s : Setting) (i count : ℕ) (ms : List (TimerMessage Tm)) (head : List Timer)
    → count ≤ length ms
    → (t : List Timer) × (parse_timer_message s i count ms head ≡ some t)
unfolding parse_timer_message
parse-ends s i zero ms head h = (head, refl)
parse-ends s i (suc count) [] head h = absurd (omega arith)
parse-ends s i (suc count) (m ∷ ms) head h = parse-ends s (suc i) count ms _ (omega arith)

listen-ends :
    (s : Setting) (l : Listener) (r : Received)
    → IsWhole s r
    → (next : Listener) × (listen s l r ≡ some next)
unfolding listen local_listen
listen-ends s l (timers buf) h =
    let (t, e) =
      parse-ends s 0 buf.count (take (arrived buf.send_len) buf.timer_message) l.timer_info h in
    (after 1 (Ret.head t) l, ap (keep l) e)
listen-ends s l (ack n) h = (_, refl)
listen-ends s l (get d) (out, e) =
    let finish = λ (o : Option (List Item)).
      (o >>= λ out. some (3, Ret.inform_data out)) >>= λ (result : ℕ × Ret).
      some (after result.0 result.1 l) in
    (after 3 (Ret.inform_data out) l, ap finish e)
listen-ends s l other h = (_, refl)

-- If each datagram of timers holds the entries that it counts and the answer to each request fits its buffer,
-- then the thread takes all datagrams, and the timers are in ascending order of their times afterwards, if they
-- were so before.
pub listen_all-IsSorted :
    (s : Setting) (rs : List Received) (l : Listener)
    → AreWhole s rs
    → IsSortedFrom 0 (schedule l.timer_info)
    → (last : Listener) × (listen_all s l rs ≡ some last)
      × IsSortedFrom 0 (schedule last.timer_info)
unfolding listen_all
listen_all-IsSorted s [] l w h = (l, refl, h)
listen_all-IsSorted s (r ∷ rs) l (w, ws) h =
    let (next, one) = listen-ends s l r w in
    let (last, rest, sorted) =
      listen_all-IsSorted s rs next ws (listen-IsSorted s r l next h one) in
    (last, ap (λ o. o >>= λ n. listen_all s n rs) one ∙ rest, sorted)
