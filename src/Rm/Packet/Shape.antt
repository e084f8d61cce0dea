-- ===== src/Rm/Packet/Shape.antt =====
-- What the headers of a negotiation packet say.
use Prim.Native.Nat.{bit_and}
use icnprototype.Prelude.{
  ℕ, suc, ◌+◌, ◌-◌, ◌*◌, ◌/◌, ◌%◌, ◌^◌, ◌<◌, ◌≡◌, refl, List, [], ◌∷◌, ◌++◌, arith, take, drop,
  length,
}
use icnprototype.Rm.Nid.{Nid}
use icnprototype.Rm.ByteOrder.{ByteOrder}
use icnprototype.Rm.Packet.{
  Mbuf, option_of, option_kind_mask, add_pid_and_ip, sizeof_color_ctl_pub, sizeof_ether_hdr,
  sizeof_ipv4_hdr,
}

-- The mask gives back the kind that the sender's `switch` set.
pub kind-option_of :
    (bit_and (option_of 0) option_kind_mask ≡ 0x00)
    × (bit_and (option_of 1) option_kind_mask ≡ 0x10)
    × (bit_and (option_of 2) option_kind_mask ≡ 0x20)
    × (bit_and (option_of 3) option_kind_mask ≡ 0x30)
unfolding option_of
kind-option_of = (refl, refl, refl, refl)

take-end {ℓ} : {A : Type ℓ} (xs : List A) → take (length xs) xs ≡ xs
take-end [] = refl
take-end (x ∷ xs) = rw (take-end xs)

drop-end {ℓ} : {A : Type ℓ} (xs : List A) → drop (suc (length xs)) xs ≡ []
drop-end [] = refl
drop-end (x ∷ xs) = drop-end xs

-- If a packet's `data_len` counts its headers and its words, `add_pid_and_ip` puts the identifier
-- behind the last word, and the new `data_len` counts it too.
pub body-add_pid_and_ip :
    (order : ByteOrder) (host : Nid) (m : Mbuf) (pid ip : ℕ)
    → m.data_len ≡ sizeof_ether_hdr + sizeof_ipv4_hdr + sizeof_color_ctl_pub + 4 * length m.body
    → m.data_len + 4 < 2 ^ 16
    → let m' = add_pid_and_ip order host m pid ip in
      (m'.body ≡ m.body ++ (pid ∷ []))
      × (m'.data_len
          ≡ sizeof_ether_hdr + sizeof_ipv4_hdr + sizeof_color_ctl_pub + 4 * length m.body + 4)
      × (m'.ctl.option ≡ m.ctl.option)
      × (m'.ip.dst_addr ≡ ip)
unfolding add_pid_and_ip
body-add_pid_and_ip order host m pid ip h l =
    (rw at (rw (take-end m.body, drop-end m.body)), omega arith, refl, refl)
  where
    at : ((m.data_len - 20 - 14) % 2 ^ 16 - 140) / 4 ≡ length m.body
    at = omega arith
