-- ===== src/Rm/Config/Args/Legal.antt =====
-- The settings that the command line can lead to, and the fuel of the loop that reads the queues.
use icnprototype.Prelude.{
  ℕ, suc, ◌-◌, ◌^◌, ◌<◌, ◌≤◌, ◌≡◌, refl, subst, inl, inr, true, false, not, Bool-cases,
  Option-cases, ◌==◌, ◌&&◌, ◌||◌, List, [], ◌∷◌, length, Option, none, some, if◌then◌else◌, arith,
}
use icnprototype.Prelude.Int.{ℤ, pos, negsuc, ltb_ℤ, pos_part}
use icnprototype.Rm.Config.{LcoreParams}
use icnprototype.Rm.Config.Args.{
  Text, Libc, max_jumbo_pkt_len, l3fwd_hash_entries, to_uint32, parse_portmask,
  parse_hash_entry_number, parse_max_pkt_len, parse_config, Settings, Arg, set_len, set_hash,
  set_params, parse_arg, parse_args,
}
use icnprototype.Rm.Config.Args.Fits.{Fits, parse_groups-Fits}

pub record IsLegal (s : Settings) : Type 0 where
  pub mask : s.enabled_port_mask < 2 ^ 32
  pub least_len : 64 ≤ s.max_rx_pkt_len
  pub most_len : s.max_rx_pkt_len ≤ max_jumbo_pkt_len
  pub least_hash : 0 < s.hash_entry_number
  pub most_hash : s.hash_entry_number ≤ l3fwd_hash_entries
  pub params : Fits s.lcore_params

to_uint32_lt : (z : ℤ) → to_uint32 z < 2 ^ 32
to_uint32_lt (pos n) = omega arith
to_uint32_lt (negsuc n) = omega arith

set_mask-IsLegal :
    (s : Settings) (mask : ℕ) (t : Settings)
    → IsLegal s
    → mask < 2 ^ 32
    → (if mask == 0 then none else some (record s { enabled_port_mask = mask })) ≡ some t
    → IsLegal t
set_mask-IsLegal s mask t l b h = elim (Bool-cases (mask == 0)) [
  | inl c ↦ ground (arith, c, h)
  | inr c ↦
      (let e : record s { enabled_port_mask = mask } ≡ t = ground (arith, c, h) in
        subst IsLegal e (record {
          mask = b;
          least_len = l.least_len;
          most_len = l.most_len;
          least_hash = l.least_hash;
          most_hash = l.most_hash;
          params = l.params;
        }))
]

set_len-IsLegal :
    (s : Settings) (ret : ℤ) (t : Settings) → IsLegal s → set_len s ret ≡ some t → IsLegal t
set_len-IsLegal s ret t l h =
    elim (Bool-cases (ltb_ℤ ret (pos 64) || ltb_ℤ (pos max_jumbo_pkt_len) ret)) [
      | inl c ↦ ground (arith, c, h)
      | inr c ↦
          (let e : record s { max_rx_pkt_len = pos_part ret } ≡ t = ground (arith, c, h) in
            subst IsLegal e (record {
              mask = l.mask;
              least_len = ground (arith, c);
              most_len = ground (arith, c);
              least_hash = l.least_hash;
              most_hash = l.most_hash;
              params = l.params;
            }))
    ]

set_hash-IsLegal :
    (s : Settings) (ret : ℤ) (t : Settings) → IsLegal s → set_hash s ret ≡ some t → IsLegal t
set_hash-IsLegal s ret t l h =
    elim (Bool-cases (ltb_ℤ (pos 0) ret && not (ltb_ℤ (pos l3fwd_hash_entries) ret))) [
      | inl c ↦
          (let e : record s { hash_entry_number = pos_part ret } ≡ t = ground (arith, c, h) in
            subst IsLegal e (record {
              mask = l.mask;
              least_len = l.least_len;
              most_len = l.most_len;
              least_hash = ground (arith, c);
              most_hash = ground (arith, c);
              params = l.params;
            }))
      | inr c ↦ ground (arith, c, h)
    ]

set_params-IsLegal :
    (s : Settings) (o : Option (List LcoreParams)) (t : Settings)
    → IsLegal s
    → ((params : List LcoreParams) → o ≡ some params → Fits params)
    → set_params s o ≡ some t
    → IsLegal t
set_params-IsLegal s none t l f h = ground (arith, h)
set_params-IsLegal s (some params) t l f h =
    let e : record s { lcore_params = params } ≡ t = ground (arith, h) in
    subst IsLegal e (record {
      mask = l.mask;
      least_len = l.least_len;
      most_len = l.most_len;
      least_hash = l.least_hash;
      most_hash = l.most_hash;
      params = f params refl;
    })

-- A switch, which no bound is about.
set_switch-IsLegal :
    (s t u : Settings)
    → IsLegal s
    → t.enabled_port_mask ≡ s.enabled_port_mask
    → t.max_rx_pkt_len ≡ s.max_rx_pkt_len
    → t.hash_entry_number ≡ s.hash_entry_number
    → t.lcore_params ≡ s.lcore_params
    → some t ≡ some u
    → IsLegal u
set_switch-IsLegal s t u l a b c d h =
    let e : t ≡ u = ground (arith, h) in
    subst IsLegal e (record {
      mask = rw a l.mask;
      least_len = rw b l.least_len;
      most_len = rw b l.most_len;
      least_hash = rw c l.least_hash;
      most_hash = rw c l.most_hash;
      params = rw d l.params;
    })

parse_arg-IsLegal :
    (libc : Libc) (s : Settings) (arg : Arg) (t : Settings)
    → IsLegal s
    → parse_arg libc s arg ≡ some t
    → IsLegal t
unfolding parse_arg parse_config
parse_arg-IsLegal libc s (Arg.p text) t l h =
    set_mask-IsLegal s (to_uint32 (parse_portmask libc text)) t l
      (to_uint32_lt (parse_portmask libc text)) h
parse_arg-IsLegal libc s (Arg.config text) t l h =
    set_params-IsLegal s (parse_config libc text) t l
      (λ params e.
        parse_groups-Fits libc (suc (length text)) [] text params
          (record { entries = omega arith; bytes = tt }) e)
      h
parse_arg-IsLegal libc s (Arg.enable_jumbo (some text)) t l h =
    set_len-IsLegal (record s { jumbo_frame = true }) (parse_max_pkt_len libc text) t
      (set_switch-IsLegal s (record s { jumbo_frame = true }) (record s { jumbo_frame = true }) l
        refl refl refl refl refl)
      h
parse_arg-IsLegal libc s (Arg.hash_entry_num text) t l h =
    set_hash-IsLegal s (parse_hash_entry_number libc text) t l h
parse_arg-IsLegal libc s Arg.promiscuous t l h =
    set_switch-IsLegal s (record s { promiscuous_on = true }) t l refl refl refl refl h
parse_arg-IsLegal libc s Arg.no_numa t l h =
    set_switch-IsLegal s (record s { numa_on = false }) t l refl refl refl refl h
parse_arg-IsLegal libc s Arg.ipv6 t l h =
    set_switch-IsLegal s (record s { ipv6 = true }) t l refl refl refl refl h
parse_arg-IsLegal libc s (Arg.enable_jumbo none) t l h =
    set_switch-IsLegal s (record s { jumbo_frame = true }) t l refl refl refl refl h
parse_arg-IsLegal libc s Arg.other t l h = ground (arith, h)

-- Whatever `strtoul` and `rte_strsplit` return, settings within their bounds stay within them through any
-- options that `parse_args` accepts: a packet length of 64 to 9600, 1 to 4194304 hash entries, at most
-- 1024 queues of three bytes each, and a mask of 32 bits.
pub parse_args-IsLegal :
    (libc : Libc) (s : Settings) (args : List Arg) (t : Settings)
    → IsLegal s
    → parse_args libc s args ≡ some t
    → IsLegal t
unfolding parse_args
parse_args-IsLegal libc s [] t l h = (let r : s ≡ t = ground (arith, h) in subst IsLegal r l)
parse_args-IsLegal libc s (arg ∷ args) t l h = elim (Option-cases (parse_arg libc s arg)) [
  | inl e ↦ ground (arith, e, h)
  | inr (u, e) ↦
      parse_args-IsLegal libc u args t (parse_arg-IsLegal libc s arg u l e) (ground (arith, e, h))
]

-- A text that `parse_portmask` refuses, by returning -1, is accepted by `parse_args` as the mask of all 32 ports.
pub parse_args_portmask :
    (libc : Libc) (s : Settings) (text : Text)
    → parse_portmask libc text ≡ negsuc 0
    → parse_args libc s (Arg.p text ∷ []) ≡ some (record s { enabled_port_mask = 2 ^ 32 - 1 })
unfolding parse_args parse_arg
parse_args_portmask libc s text h = rw (parse_args, parse_arg, h) refl
