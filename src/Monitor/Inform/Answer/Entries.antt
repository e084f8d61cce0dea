-- ===== src/Monitor/Inform/Answer/Entries.antt =====
-- Each bit of a request takes its entry, and each port its request.
use mathlib.Core.List.{append_assoc, append-nil}
use icnprototype.Prelude.{
  ℕ, zero, suc, ◌+◌, ◌*◌, ◌/◌, ◌%◌, ◌<◌, ◌≤◌, ◌≡◌, inl, inr, refl, sym, ap, ◌∙◌, ◌==◌, Bool-cases,
  false, List, [], ◌∷◌, ◌++◌, map, none, some, length, ltb, lt→ltb, if◌then◌else◌, arith,
}
use icnprototype.Prelude.Int.{ℤ, negsuc}
use icnprototype.Monitor.Inform.{Middle, Tail, Cell, tail, block, size_block, size_buf, ◌>>=◌}
use icnprototype.Monitor.Inform.Bits.{ones, ones-zero, FitsBits}
use icnprototype.Monitor.Inform.Answer.{
  Item, head, port, asked, value, unknown, size, size_answer, next_port, request_bits, answer_ports,
  parse_inform_message, answer_bits, fetch_inform_data, elements,
}

-- The entries with the values of their answers.
pub answers : List Tail → List Item
answers [] = []
answers (t ∷ ts) = asked t ∷ value (negsuc 0) ∷ answers ts

fetch_lem : (t : Tail) (port_num : ℤ) → fetch_inform_data t port_num ≡ negsuc 0
unfolding fetch_inform_data
fetch_lem t port_num = ground arith

-- With as many entries as bits, each bit takes one.
pub answer_bits-answers :
    (n fuel : ℕ) (port_num : ℤ) (j r : ℕ) (ts : List Tail) (rest : List Cell) (out : List Item)
    → n < fuel
    → j + n ≤ elements
    → FitsBits n r
    → ones n r ≡ length ts
    → answer_bits fuel port_num j r (map tail ts ++ rest) out ≡ some (rest, out ++ answers ts)
unfolding answer_bits ones answers
answer_bits-answers n zero port_num j r ts rest out h k f e = absurd (omega arith)
answer_bits-answers n (suc fuel) port_num j zero [] rest out h k f e =
    ap (λ o. some (rest, o)) (sym (append-nil out))
answer_bits-answers n (suc fuel) port_num j zero (t ∷ ts) rest out h k f e =
    absurd (omega (arith, ones-zero n))
answer_bits-answers zero (suc fuel) port_num j (suc r) ts rest out h k f e = absurd (omega arith)
answer_bits-answers (suc n) (suc fuel) port_num j (suc r) [] rest out h k f e =
    elim (Bool-cases (suc r % 2 == 1)) [
      | inl odd ↦ absurd (ground arith)
      | inr even ↦
          rw (even, answer_bits)
            (answer_bits-answers n fuel port_num (j + 1) (suc r / 2) [] rest out (omega arith)
              (omega arith) f (ground arith))
    ]
answer_bits-answers (suc n) (suc fuel) port_num j (suc r) (t ∷ ts) rest out h k f e =
    let next = λ (us : List Tail) (o : List Item) (e' : ones n (suc r / 2) ≡ length us).
      answer_bits-answers n fuel port_num (j + 1) (suc r / 2) us rest o (omega arith) (omega arith)
        f e' in
    elim (Bool-cases (suc r % 2 == 1)) [
      | inl odd ↦
          rw (odd, answer_bits, lt→ltb j elements (omega arith), fetch_lem t port_num)
            (next ts _ (ground arith)
              ∙ ap (λ o. some (rest, o))
                  (append_assoc out (asked t ∷ value (negsuc 0) ∷ []) (answers ts)))
      | inr even ↦ rw (even, answer_bits) (next (t ∷ ts) out (ground arith))
    ]

unfoldable pub copies {ℓ} : {A : Type ℓ} → ℕ → List A → List A
copies zero xs = []
copies (suc k) xs = xs ++ copies k xs

-- The answer to `k` ports that ask for the same.
pub answered : Middle → List Tail → ℕ → List Item
unfolding answers
answered m ts zero = unknown ∷ []
answered m ts (suc k) = port m ∷ answers ts ++ answered m ts k

answer_ports-answered :
    (port_num : ℤ) (m : Middle) (ts : List Tail) (k : ℕ) (out : List Item)
    → FitsBits 8 m.request
    → ones 8 m.request ≡ length ts
    → answer_ports port_num k
        (copies k (block m ts))
        (out ++ (next_port (copies k (block m ts)) ∷ []))
      ≡ some (out ++ answered m ts k)
unfolding answer_ports copies answered
answer_ports-answered port_num m ts zero out f e = refl
answer_ports-answered port_num m ts (suc k) out f e =
    rw
      (answer_bits-answers 8 (suc request_bits) port_num 0 m.request ts (copies k (block m ts))
        (out ++ (port m ∷ [])) (omega arith) (omega arith) f e)
      (answer_ports-answered port_num m ts k ((out ++ (port m ∷ [])) ++ answers ts) f e
        ∙ ap some (
            append_assoc (out ++ (port m ∷ [])) (answers ts) (answered m ts k)
            ∙ append_assoc out (port m ∷ []) (answers ts ++ answered m ts k)))

size-append : (xs ys : List Item) → size (xs ++ ys) ≡ size xs + size ys
unfolding size
size-append [] ys = omega arith
size-append (x ∷ xs) ys = omega (arith, size-append xs ys)

size-answers : (ts : List Tail) → size (answers ts) ≡ 60 * length ts
unfolding size answers
size-answers [] = refl
size-answers (t ∷ ts) = omega (arith, size-answers ts)

size-answered :
    (m : Middle) (ts : List Tail) (k : ℕ)
    → size (answered m ts k) ≡ 20 + 20 * k + 60 * (k * length ts)
unfolding size answered
size-answered m ts zero = omega arith
size-answered m ts (suc k) =
    omega (arith, size-append (answers ts) (answered m ts k), size-answers ts, size-answered m ts k)

-- A datagram for `k` ports that fits the sender's buffer is answered, and the answer fits its buffer.
pub parse-copies :
    (port_num : ℤ) (host_name : List ℕ) (m : Middle) (ts : List Tail) (k len : ℕ)
    → FitsBits 8 m.request
    → ones 8 m.request ≡ length ts
    → 40 + k * size_block (length ts) ≤ size_buf
    → parse_inform_message port_num
        (record { host_name = host_name; count = k; cells = copies k (block m ts); send_len = len })
      ≡ some (head host_name k ∷ answered m ts k)
unfolding parse_inform_message size
parse-copies port_num host_name m ts k len f e fits =
    rw (answer_ports-answered port_num m ts k (head host_name k ∷ []) f e, ◌>>=◌)
      (ap (λ b. if b then none else some (head host_name k ∷ answered m ts k)) fits_answer)
  where
    fits_answer : ltb size_answer (36 + size (answered m ts k)) ≡ false
    fits_answer = ground (arith, size-answered m ts k)
