-- ===== src/Rm/Config/Args.antt =====
-- The command line of the RM: `parse_max_pkt_len`, `parse_portmask`, `parse_hash_entry_number`,
-- `parse_config` and `parse_args` of RM/main.c, on texts that are lists of bytes. `strtoul` of libc and
-- `rte_strsplit` of DPDK are parameters.
pub mod Fits
pub mod Legal
pub mod Fuel
use icnprototype.Prelude.{
  ℕ, zero, suc, ◌+◌, ◌-◌, ◌*◌, ◌/◌, ◌%◌, ◌^◌, Bool, true, false, not, ◌==◌, ◌&&◌, ◌||◌, List, [],
  ◌∷◌, ◌++◌, length, drop, ltb, leb, Option, none, some, if◌then◌else◌,
}
use icnprototype.Prelude.Int.{ℤ, pos, negsuc, ltb_ℤ, pos_part}
use icnprototype.Rm.Config.{LcoreParams}

abbrev pub Text : Type 0
Text = List ℕ

-- What `strtoul` leaves: the number, how many characters it read, and whether it set `errno`.
pub record Number : Type 0 where
  pub value : ℕ
  pub read : ℕ
  pub errno : Bool

-- A number base and a text give a number; a text and a bound give the fields between commas, at most as
-- many as the bound.
pub record Libc : Type 0 where
  pub strtoul : ℕ → Text → Number
  pub rte_strsplit : Text → ℕ → List Text

abbrev pub max_lcore_params : ℕ
max_lcore_params = 1024

abbrev pub max_jumbo_pkt_len : ℕ
max_jumbo_pkt_len = 9600

abbrev pub l3fwd_hash_entries : ℕ
l3fwd_hash_entries = 4194304

-- An `unsigned long` returned as an `int`.
abbrev pub to_int : ℕ → ℤ
to_int n = if ltb (n % 2 ^ 32) (2 ^ 31) then pos (n % 2 ^ 32) else negsuc (2 ^ 32 - 1 - n % 2 ^ 32)

-- An `int` assigned to a `uint32_t`.
abbrev pub to_uint32 : ℤ → ℕ
to_uint32 (pos n) = n % 2 ^ 32
to_uint32 (negsuc n) = 2 ^ 32 - 1 - n % 2 ^ 32

abbrev pub is_empty : Text → Bool
is_empty [] = true
is_empty (c ∷ s) = false

-- The three functions below are this one, in base 10 or 16.
abbrev pub parse_number : Text → Number → ℤ
parse_number s n =
    if is_empty s || not (is_empty (drop n.read s))
    then negsuc 0
    else if n.value == 0
    then negsuc 0
    else to_int n.value

abbrev pub parse_max_pkt_len : Libc → Text → ℤ
parse_max_pkt_len libc pktlen = parse_number pktlen (libc.strtoul 10 pktlen)

abbrev pub parse_portmask : Libc → Text → ℤ
parse_portmask libc portmask = parse_number portmask (libc.strtoul 16 portmask)

abbrev pub parse_hash_entry_number : Libc → Text → ℤ
parse_hash_entry_number libc hash_entry_num =
    parse_number hash_entry_num (libc.strtoul 16 hash_entry_num)

-- `strchr`: what stands before the first `c`, and what follows it.
unfoldable pub strchr : ℕ → Text → Option (Text × Text)
strchr c [] = none
strchr c (x ∷ s) =
    if x == c
    then some ([], s)
    else elim (strchr c s) [ none ↦ none | some (before, after) ↦ some (x ∷ before, after) ]

-- The value of a field, which must have a number of at most 255.
abbrev pub int_fld : Libc → Text → Option ℕ
int_fld libc s =
    let n = libc.strtoul 0 s in
    if n.errno || n.read == 0 || ltb 255 n.value then none else some n.value

abbrev pub params_of : Option ℕ → Option ℕ → Option ℕ → Option LcoreParams
params_of (some port) (some queue) (some lcore) =
    some (record { port_id = port; queue_id = queue; lcore_id = lcore })
params_of _ _ _ = none

-- The text between two parentheses.
abbrev pub parse_fields : Libc → List Text → Option LcoreParams
parse_fields libc (port ∷ queue ∷ lcore ∷ []) =
    params_of (int_fld libc port) (int_fld libc queue) (int_fld libc lcore)
parse_fields libc _ = none

-- One more entry of `lcore_params_array`, of which `params` are in use.
abbrev pub store : List LcoreParams → Option LcoreParams → Option (List LcoreParams)
store params none = none
store params (some p) =
    if leb max_lcore_params (length params) then none else some (params ++ (p ∷ []))

abbrev pub group : Libc → List LcoreParams → Text → Option (List LcoreParams)
group libc params s =
    if leb 256 (length s) then none else store params (parse_fields libc (libc.rte_strsplit s 3))

-- The loop; `none` where the source returns -1. The text from a closing parenthesis on starts the next
-- round, and the search for an opening one passes over it.
unfoldable pub parse_groups : Libc → ℕ → List LcoreParams → Text → Option (List LcoreParams)
unfolding strchr
parse_groups libc zero params s = none
parse_groups libc (suc fuel) params s = elim (strchr b'(' s) [
  | none ↦ some params
  | some (_, p) ↦ elim (strchr b')' p) [
    | none ↦ none
    | some (inside, after) ↦ elim (group libc params inside) [
      | none ↦ none
      | some more ↦ parse_groups libc fuel more after
    ]
  ]
]

unfoldable pub parse_config : Libc → Text → Option (List LcoreParams)
unfolding parse_groups
parse_config libc q_arg = parse_groups libc (suc (length q_arg)) [] q_arg

-- The globals that the options set.
pub record Settings : Type 0 where
  pub enabled_port_mask : ℕ
  pub promiscuous_on : Bool
  pub numa_on : Bool
  pub ipv6 : Bool
  pub jumbo_frame : Bool
  pub max_rx_pkt_len : ℕ
  pub hash_entry_number : ℕ
  pub lcore_params : List LcoreParams

-- An option as `getopt_long` finds it. After `--enable-jumbo` a second `getopt_long` may find
-- `--max-pkt-len`.
pub data Arg : Type 0 where
  p : Text → Arg
  promiscuous : Arg
  config : Text → Arg
  no_numa : Arg
  ipv6 : Arg
  enable_jumbo : Option Text → Arg
  hash_entry_num : Text → Arg
  other : Arg

abbrev pub set_params : Settings → Option (List LcoreParams) → Option Settings
set_params s none = none
set_params s (some params) = some (record s { lcore_params = params })

abbrev pub set_len : Settings → ℤ → Option Settings
set_len s ret =
    if ltb_ℤ ret (pos 64) || ltb_ℤ (pos max_jumbo_pkt_len) ret
    then none
    else some (record s { max_rx_pkt_len = pos_part ret })

abbrev pub set_hash : Settings → ℤ → Option Settings
set_hash s ret =
    if ltb_ℤ (pos 0) ret && not (ltb_ℤ (pos l3fwd_hash_entries) ret)
    then some (record s { hash_entry_number = pos_part ret })
    else none

-- One round of the loop of `parse_args`; `none` where it returns -1.
unfoldable pub parse_arg : Libc → Settings → Arg → Option Settings
unfolding parse_config
parse_arg libc s (p text) =
    let enabled_port_mask = to_uint32 (parse_portmask libc text) in
    if enabled_port_mask == 0
    then none
    else some (record s { enabled_port_mask = enabled_port_mask })
parse_arg libc s promiscuous = some (record s { promiscuous_on = true })
parse_arg libc s (config text) = set_params s (parse_config libc text)
parse_arg libc s no_numa = some (record s { numa_on = false })
parse_arg libc s ipv6 = some (record s { ipv6 = true })
parse_arg libc s (enable_jumbo none) = some (record s { jumbo_frame = true })
parse_arg libc s (enable_jumbo (some text)) =
    set_len (record s { jumbo_frame = true }) (parse_max_pkt_len libc text)
parse_arg libc s (hash_entry_num text) = set_hash s (parse_hash_entry_number libc text)
parse_arg libc s other = none

unfoldable pub parse_args : Libc → Settings → List Arg → Option Settings
unfolding parse_arg
parse_args libc s [] = some s
parse_args libc s (arg ∷ args) = elim (parse_arg libc s arg) [
  | none ↦ none
  | some t ↦ parse_args libc t args
]
