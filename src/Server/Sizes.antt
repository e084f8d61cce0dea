-- ===== src/Server/Sizes.antt =====
-- How much of a flow its frames carry.
use Prim.Native.Nat.{max}
use icnprototype.Prelude.{
  ℕ, zero, suc, ◌+◌, ◌-◌, ◌*◌, ◌/◌, ◌%◌, ◌^◌, ◌≤◌, ◌<◌, ◌≡◌, refl, sym, ap, ◌∙◌, inl, inr,
  Bool-cases, false, ◌==◌, ◌||◌, List, [], ◌∷◌, ◌++◌, length, length-append, length-replicate,
  replicate, ltb, leb, some, if◌then◌else◌, arith,
}
use native.Mathlib.Omega.{div_any}
use icnprototype.Server.{
  Flow, size_data_header, at_most, int_at_most, Plan, plan, capped, duration_of, frames,
}

-- The data of the frames, without the 98 bytes of their headers.
unfoldable pub carried : List ℕ → ℕ
carried [] = 0
carried (len ∷ lens) = (len - 98) + carried lens

carried-replicate : (n len : ℕ) → carried (replicate n len) ≡ n * (len - 98)
unfolding carried
carried-replicate zero len = omega arith
carried-replicate (suc n) len =
    (let e : suc n * (len - 98) ≡ (len - 98) + n * (len - 98) = omega arith in
      omega (arith, e, carried-replicate n len))

carried-append : (xs ys : List ℕ) → carried (xs ++ ys) ≡ carried xs + carried ys
unfolding carried
carried-append [] ys = omega arith
carried-append (x ∷ xs) ys = omega (arith, carried-append xs ys)

-- A flow of at least one packet whose packets have at most 1302 bytes.
pub record IsSmall (b : Flow) : Type 0 where
  pub some_packets : 0 < b.flow_packets
  pub few : b.flow_packets < 2 ^ 31
  pub small : b.flow_size / b.flow_packets ≤ 1302
  pub small_rest : b.flow_size % b.flow_packets ≤ 1302

at_most_le : (bound n : ℕ) → at_most bound n ≤ bound
at_most_le bound n = ground arith

-- The longest of some frames.
unfoldable pub longest : List ℕ → ℕ
longest [] = 0
longest (len ∷ lens) = max len (longest lens)

longest-replicate : (n len : ℕ) → longest (replicate n len) ≤ len
unfolding longest
longest-replicate zero len = omega arith
longest-replicate (suc n) len = omega (arith, longest-replicate n len)

longest-append : (xs ys : List ℕ) → longest (xs ++ ys) ≡ max (longest xs) (longest ys)
unfolding longest
longest-append [] ys = omega arith
longest-append (x ∷ xs) ys = omega (arith, longest-append xs ys)

longest-frames : (p : Plan) → p.len ≤ 1400 → p.len2 ≤ 1400 → longest (frames p) ≤ 1400
unfolding longest
longest-frames p h k = elim (Bool-cases (p.lastpsize == 0)) [
  | inl b ↦ rw b (omega (arith, h, longest-replicate p.pieces p.len))
  | inr b ↦ rw b (
      omega (
        arith,
        h,
        k,
        longest-append (replicate (p.pieces - 1) p.len) (p.len2 ∷ []),
        longest-replicate (p.pieces - 1) p.len,
      ))
]

int_at_most_le : (n : ℕ) → n < 2 ^ 31 → int_at_most 1400 n ≤ 1400
int_at_most_le n h = ground arith

longest-capped :
    (psize lastpsize pieces len len2 duration : ℕ)
    → len < 2 ^ 31
    → len2 < 2 ^ 31
    → longest (frames (capped psize lastpsize pieces len len2 duration)) ≤ 1400
longest-capped psize lastpsize pieces len len2 duration h k =
    longest-frames (capped psize lastpsize pieces len len2 duration) (int_at_most_le len h)
      (int_at_most_le len2 k)

small_len : (n : ℕ) → ltb 1514 n ≡ false → 14 + size_data_header + n < 2 ^ 31
small_len n h = ground arith

mod_le : (n : ℕ) → n % 1514 < 1514
mod_le n = omega arith

-- A flow of at least one packet, for which the size of a packet fits an `int`, and the remainder with the 98
-- bytes of the headers as well, is cut into frames of which none is longer than 1400 bytes.
pub longest-frames_le :
    (b : Flow)
    → 0 < b.flow_packets
    → b.flow_size / b.flow_packets < 2 ^ 31
    → b.flow_size % b.flow_packets + 98 < 2 ^ 31
    → (p : Plan) × (plan b ≡ some p) × (longest (frames p) ≤ 1400)
unfolding plan
longest-frames_le b h k l =
    let psize = b.flow_size / b.flow_packets in
    let rest = b.flow_size % b.flow_packets in
    let runs : (b.flow_packets == 0 || leb (2 ^ 31) psize || leb (2 ^ 31) rest) ≡ false =
      ground (arith, h, k, l) in
    elim (Bool-cases (ltb 1514 psize)) [
      | inl d ↦
          (let last_large = b.flow_size % 1514 in
            let pieces = if last_large == 0 then b.flow_size / 1514 else b.flow_size / 1514 + 1 in
            (
              capped 1300 last_large pieces 1400 (14 + size_data_header + last_large)
                  (duration_of b pieces),
              rw (runs, d) refl,
              longest-capped 1300 last_large pieces 1400 (14 + size_data_header + last_large)
                  (duration_of b pieces) (omega arith) (omega (arith, mod_le b.flow_size)),
            ))
      | inr d ↦ (
        capped psize rest b.flow_packets (14 + size_data_header + psize)
            (14 + size_data_header + rest) (duration_of b b.flow_packets),
        rw (runs, d) refl,
        longest-capped psize rest b.flow_packets (14 + size_data_header + psize)
            (14 + size_data_header + rest) (duration_of b b.flow_packets) (small_len psize d)
            (omega (arith, l)),
      )
    ]

-- The frames of a flow that needs no caps.
carried-cut :
    (n psize rest duration : ℕ)
    → 0 < n
    → (length (
          frames (record {
            psize = psize;
            lastpsize = rest;
            pieces = n;
            len = 98 + psize;
            len2 = 98 + rest;
            duration = duration;
          }))
        ≡ n)
      × (carried (
            frames (record {
              psize = psize;
              lastpsize = rest;
              pieces = n;
              len = 98 + psize;
              len2 = 98 + rest;
              duration = duration;
            }))
          ≡ (if rest == 0 then n * psize else (n - 1) * psize + rest))
unfolding carried
carried-cut n psize rest duration h =
    let bare : 98 + psize - 98 ≡ psize = omega arith in
    elim (Bool-cases (rest == 0)) [
      | inl b ↦
          rw b (
            length-replicate n (98 + psize),
            carried-replicate n (98 + psize) ∙ ap (λ q. n * q) bare,
          )
      | inr b ↦ rw b (
        omega (
          arith,
          h,
          length-append (replicate (n - 1) (98 + psize)) ((98 + rest) ∷ []),
          length-replicate (n - 1) (98 + psize),
        ),
        omega (
          arith,
          carried-append (replicate (n - 1) (98 + psize)) ((98 + rest) ∷ []),
          carried-replicate (n - 1) (98 + psize) ∙ ap (λ q. (n - 1) * q) bare,
        ),
      )
    ]

pred_mul : (n q : ℕ) → 0 < n → (n - 1) * q + q ≡ n * q
pred_mul zero q h = absurd (omega arith)
pred_mul (suc n) q h =
    let e : suc n - 1 ≡ n = omega arith in
    let f : suc n * q ≡ n * q + q = omega arith in ap (λ k. k * q + q) e ∙ sym f

parts :
    (n psize rest size : ℕ)
    → 0 < n
    → n * psize + rest ≡ size
    → (if rest == 0 then n * psize else (n - 1) * psize + rest) + (if rest == 0 then 0 else psize)
      ≡ size
parts n psize rest size h e = elim (Bool-cases (rest == 0)) [
  | inl b ↦ rw b (ground (arith, b, e))
  | inr b ↦ rw b (omega (arith, e, pred_mul n psize h))
]

-- A flow of at least one packet and fewer than 2 ^ 31, of at most 1302 bytes each, is cut into as many frames as
-- it has packets.
-- They carry its size if the packets divide it, and else the size of a packet less: the last frame takes
-- the place of a whole one.
pub carried-frames :
    (b : Flow)
    → IsSmall b
    → (p : Plan) × (plan b ≡ some p)
      × (length (frames p) ≡ b.flow_packets)
      × (carried (frames p)
            + (if b.flow_size % b.flow_packets == 0 then 0 else b.flow_size / b.flow_packets)
          ≡ b.flow_size)
unfolding plan
carried-frames b h =
    let psize = b.flow_size / b.flow_packets in
    let rest = b.flow_size % b.flow_packets in
    let p : Plan = record {
      psize = psize;
      lastpsize = rest;
      pieces = b.flow_packets;
      len = 98 + psize;
      len2 = 98 + rest;
      duration = duration_of b b.flow_packets;
    } in
    let runs : (b.flow_packets == 0 || leb (2 ^ 31) psize || leb (2 ^ 31) rest) ≡ false =
      ground (arith, h.some_packets, h.small, h.small_rest) in
    let short : ltb 1514 psize ≡ false = ground (arith, h.small) in
    let fits : at_most 1514 rest ≡ rest = ground (arith, h.small_rest) in
    let whole : int_at_most 1400 (14 + size_data_header + psize) ≡ 98 + psize =
      ground (arith, h.small) in
    let last : int_at_most 1400 (14 + size_data_header + rest) ≡ 98 + rest =
      ground (arith, h.small_rest) in
    let cut = carried-cut b.flow_packets psize rest (duration_of b b.flow_packets) h.some_packets in
    let total : (if rest == 0 then b.flow_packets * psize else (b.flow_packets - 1) * psize + rest)
          + (if rest == 0 then 0 else psize)
        ≡ b.flow_size =
      parts b.flow_packets psize rest b.flow_size h.some_packets
        (div_any b.flow_size b.flow_packets) in
    (p, rw (runs, short, fits, whole, last) refl, cut.0, rw cut.1 total)
