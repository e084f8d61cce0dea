-- ===== src/Monitor/Rtt/Laws.antt =====
-- What the checksum and the difference of times give.
use icnprototype.Prelude.{
  ℕ, zero, suc, ◌+◌, ◌-◌, ◌*◌, ◌/◌, ◌%◌, ◌<◌, ◌≤◌, ◌≡◌, refl, List, [], ◌∷◌, length, take, drop,
  arith,
}
use icnprototype.Prelude.Int.{pos, negsuc, ◌-ℤ◌}
use icnprototype.Monitor.Rtt.{
  sum_words, fold_carry, cal_chksum, copy_over, icmp_header, datalen, pack, Timeval, tv_sub,
}

-- Bytes.
unfoldable pub AreBytes : List ℕ → Type 0
AreBytes [] = Unit
AreBytes (b ∷ w) = (b < 256) × AreBytes w

-- The receiver's test: the complement makes the sum of all words, taken modulo 2^16 - 1, zero.
fold_carry_lem : (s : ℕ) → s < 2147483648 → (s + (65535 - fold_carry s % 65536)) % 65535 ≡ 0
fold_carry_lem s h = omega arith

sum_words_bound : (w : List ℕ) → AreBytes w → sum_words w ≤ 32768 * length w
unfolding sum_words AreBytes
sum_words_bound [] h = omega arith
sum_words_bound (b ∷ []) (h, k) = omega arith
sum_words_bound (b ∷ c ∷ w) (h, (k, l)) = omega (arith, sum_words_bound w l)

-- The checksum of a packet of up to 65535 bytes is a 16-bit number, and with it the packet's words
-- sum up to a multiple of 2^16 - 1, the test for a packet without errors.
pub cal_chksum_lem :
    (packet : List ℕ)
    → AreBytes packet
    → length packet < 65536
    → (cal_chksum packet < 65536) × ((sum_words packet + cal_chksum packet) % 65535 ≡ 0)
unfolding cal_chksum
cal_chksum_lem packet h k =
    let bound = sum_words_bound packet h in
    (omega arith, fold_carry_lem (sum_words packet) (omega arith))

copy_over-AreBytes : (bs rest : List ℕ) → AreBytes bs → AreBytes rest → AreBytes (copy_over bs rest)
unfolding AreBytes copy_over
copy_over-AreBytes [] rest h k = k
copy_over-AreBytes (b ∷ bs) [] h k = tt
copy_over-AreBytes (b ∷ bs) (c ∷ rest) (h, l) (k, m) = (h, copy_over-AreBytes bs rest l m)

drop-AreBytes : (n : ℕ) (w : List ℕ) → AreBytes w → AreBytes (drop n w)
unfolding AreBytes
drop-AreBytes zero w h = h
drop-AreBytes (suc n) [] h = tt
drop-AreBytes (suc n) (b ∷ w) (h, k) = drop-AreBytes n w k

take-AreBytes : (n : ℕ) (w : List ℕ) → AreBytes w → AreBytes (take n w)
unfolding AreBytes
take-AreBytes zero w h = tt
take-AreBytes (suc n) [] h = tt
take-AreBytes (suc n) (b ∷ w) (h, k) = (h, take-AreBytes n w k)

length-take_le : (n : ℕ) (w : List ℕ) → length (take n w) ≤ n
length-take_le zero w = omega arith
length-take_le (suc n) [] = omega arith
length-take_le (suc n) (b ∷ w) = omega (arith, length-take_le n w)

byte_lem : (n : ℕ) → n % 256 < 256
byte_lem n = omega arith

icmp_header-AreBytes :
    (cksum id seq : ℕ) (icmp_data : List ℕ)
    → AreBytes icmp_data
    → AreBytes (icmp_header cksum id seq icmp_data)
unfolding AreBytes
icmp_header-AreBytes cksum id seq icmp_data h = (
  omega arith,
  (
    omega arith,
    (
      byte_lem cksum,
      (
        byte_lem (cksum / 256),
        (byte_lem id, (byte_lem (id / 256), (byte_lem seq, (byte_lem (seq / 256), h)))),
      ),
    ),
  ),
)

-- The checksum's word adds the checksum to the sum of the words.
with_cksum :
    (cksum rest : ℕ)
    → cksum < 65536
    → (8 + (0 + rest) + cksum) % 65535 ≡ 0
    → (8 + (cksum % 256 + 256 * (cksum / 256 % 256) + rest)) % 65535 ≡ 0
with_cksum cksum rest h k = omega arith

-- The datagram that `pack` makes, of 8 + 56 bytes, passes the receiver's test of its checksum: its words sum up
-- to a multiple of 2^16 - 1. Its header is that of an echo request with the lower 16 bits of `pid` and of the
-- number, and its data are those of the buffer with the time before them.
pub pack_lem :
    (pid pack_no : ℕ) (tval sendpacket : List ℕ)
    → AreBytes tval
    → AreBytes sendpacket
    → (cksum : ℕ) × (pack pid pack_no tval sendpacket
        ≡ icmp_header cksum pid pack_no (copy_over tval (drop 8 sendpacket)))
      × (cksum < 65536)
      × (sum_words (take (8 + datalen) (pack pid pack_no tval sendpacket)) % 65535 ≡ 0)
unfolding pack sum_words
pack_lem pid pack_no tval sendpacket h k =
    let icmp_data = copy_over tval (drop 8 sendpacket) in
    let bytes = copy_over-AreBytes tval (drop 8 sendpacket) h (drop-AreBytes 8 sendpacket k) in
    let packet = take (8 + datalen) (icmp_header 0 pid pack_no icmp_data) in
    let (small, sums) =
      cal_chksum_lem packet
        (take-AreBytes (8 + datalen) _ (icmp_header-AreBytes 0 pid pack_no icmp_data bytes))
        (omega (arith, length-take_le (8 + datalen) (icmp_header 0 pid pack_no icmp_data))) in
    (cal_chksum packet, refl, small, with_cksum (cal_chksum packet) _ small sums)

-- A time since 1970.
abbrev pub at_time : ℕ → ℕ → Timeval
at_time sec usec = record { tv_sec = pos sec; tv_usec = pos usec }

pos-sub_pos : (a d : ℕ) → pos (a + d) -ℤ pos a ≡ pos d
pos-sub_pos a d = ground arith

pos-sub_neg : (a d : ℕ) → pos a -ℤ pos (a + suc d) ≡ negsuc d
pos-sub_neg a d = ground arith

-- `tv_sub` gives the difference of two times where the later one has no fewer microseconds; where it
-- has fewer, by `du` + 1, it lowers the seconds by one, and leaves `du` + 1 microseconds instead of
-- the remaining 999999 - `du`.
pub tv_sub_lem :
    (s u ds du : ℕ)
    → (tv_sub (at_time (s + ds) (u + du)) (at_time s u) ≡ at_time ds du)
      × (tv_sub (at_time (s + suc ds) u) (at_time s (u + suc du)) ≡ at_time ds (suc du))
unfolding tv_sub
tv_sub_lem s u ds du = (
  rw (pos-sub_pos s ds, pos-sub_pos u du) (ground arith),
  rw (pos-sub_pos s (suc ds), pos-sub_neg u du) (ground arith),
)
