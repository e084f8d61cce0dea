-- ===== src/Rm/ByteOrder.antt =====
-- The conversions between host and network byte order that RM/main.c takes from DPDK and libc:
-- `rte_cpu_to_be_16`, `rte_cpu_to_be_32`, `htonl` and `ntohl`.
use icnprototype.Prelude.{ℕ, ◌+◌, ◌*◌, ◌/◌, ◌%◌, ◌^◌, ◌<◌, ◌≡◌, arith}

-- `htonl`, `ntohl` and `rte_cpu_to_be_32` are documented as one function on each machine: the byte
-- swap on a little-endian one, the identity on a big-endian one.
pub record ByteOrder : Type 0 where
  pub be16 : ℕ → ℕ
  pub be32 : ℕ → ℕ
  pub be32_lt : (x : ℕ) → x < 2 ^ 32 → be32 x < 2 ^ 32
  pub be32_be32 : (x : ℕ) → x < 2 ^ 32 → be32 (be32 x) ≡ x

unfoldable pub swap16 : ℕ → ℕ
swap16 x = (x % 256) * 256 + (x / 256) % 256

unfoldable pub swap32 : ℕ → ℕ
swap32 x =
    (x % 256) * 16777216
    + ((x / 256) % 256) * 65536
    + ((x / 65536) % 256) * 256
    + (x / 16777216) % 256

pub swap32-lt : (x : ℕ) → x < 2 ^ 32 → swap32 x < 2 ^ 32
unfolding swap32
swap32-lt x h = omega arith

pub swap32-swap32 : (x : ℕ) → x < 2 ^ 32 → swap32 (swap32 x) ≡ x
unfolding swap32
swap32-swap32 x h = omega arith

-- A little-endian machine.
abbrev pub little_endian : ByteOrder
little_endian = record {
  be16 = swap16;
  be32 = swap32;
  be32_lt = swap32-lt;
  be32_be32 = swap32-swap32;
}
