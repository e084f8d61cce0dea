-- ===== src/Monitor/Rtt.antt =====
-- The checksum of an echo request and the difference of two times, in
-- NetworkMonitoringTools/stats_send_ver_test1/get_link_stats.c.
pub mod Laws
pub mod Echo
use icnprototype.Prelude.{
  ℕ, ◌+◌, ◌-◌, ◌*◌, ◌/◌, ◌%◌, ◌^◌, ltb, List, [], ◌∷◌, take, drop, if◌then◌else◌,
}
use icnprototype.Prelude.Int.{ℤ, pos, negsuc, ◌+ℤ◌, ◌-ℤ◌, ltb_ℤ}

-- The loop: a packet's bytes as the 16-bit words of a little-endian machine, an odd last byte being
-- the low byte of the last word. (The int `sum` has room for every datagram.)
unfoldable pub sum_words : List ℕ → ℕ
sum_words [] = 0
sum_words (b ∷ []) = b
sum_words (b ∷ c ∷ w) = b + 256 * c + sum_words w

-- `sum = (sum >> 16) + (sum & 0xFFFF); sum += (sum >> 16)`
abbrev pub fold_carry : ℕ → ℕ
fold_carry sum = let once = sum / 65536 + sum % 65536 in once + once / 65536

-- `check_sum = ~sum`, cut to an unsigned short.
unfoldable pub cal_chksum : List ℕ → ℕ
cal_chksum packet = 65535 - fold_carry (sum_words packet) % 65536

-- The bytes from the start of the rest are replaced.
pub copy_over : List ℕ → List ℕ → List ℕ
copy_over [] rest = rest
copy_over (b ∷ bs) [] = []
copy_over (b ∷ bs) (c ∷ rest) = b ∷ copy_over bs rest

-- The ICMP header of an echo request, on a little-endian machine, before the data.
abbrev pub icmp_header : ℕ → ℕ → ℕ → List ℕ → List ℕ
icmp_header cksum id seq icmp_data =
    8
    ∷ 0
    ∷ cksum % 256
    ∷ cksum / 256 % 256
    ∷ id % 256
    ∷ id / 256 % 256
    ∷ seq % 256
    ∷ seq / 256 % 256
    ∷ icmp_data

abbrev pub datalen : ℕ
datalen = 56

-- The new contents of `sendpacket`; `tval` are the bytes that `gettimeofday` writes.
pub pack : ℕ → ℕ → List ℕ → List ℕ → List ℕ
unfolding cal_chksum copy_over
pack pid pack_no tval sendpacket =
    let icmp_data = copy_over tval (drop 8 sendpacket) in
    let packsize = 8 + datalen in
    icmp_header (cal_chksum (take packsize (icmp_header 0 pid pack_no icmp_data))) pid pack_no
      icmp_data

pub record Timeval : Type 0 where
  pub tv_sec : ℤ
  pub tv_usec : ℤ

-- The new value of `*recvtime`.
unfoldable pub tv_sub : Timeval → Timeval → Timeval
tv_sub recvtime sendtime =
    let sec = recvtime.tv_sec -ℤ sendtime.tv_sec in
    let usec = recvtime.tv_usec -ℤ sendtime.tv_usec in
    if ltb_ℤ usec (pos 0)
    then record { tv_sec = sec -ℤ pos 1; tv_usec = pos 0 -ℤ usec }
    else record { tv_sec = sec; tv_usec = usec }
