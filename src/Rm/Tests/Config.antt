-- ===== src/Rm/Tests/Config.antt =====
-- The start of RM on small inputs.
use icnprototype.Prelude.{
  ℕ, ◌-◌, ◌≡◌, ◌≤◌, ◌↔◌, refl, true, false, List, [], ◌∷◌, length, replicate, arith,
}
use icnprototype.Prelude.Int.{pos}
use icnprototype.Rm.Config.Checks.{needed, get_port_n_rx_queues_lem}
use icnprototype.Rm.Config.{
  check_lcore_params, get_port_n_rx_queues, LcoreParams, Confs, init_lcore_rx_queues,
}
use icnprototype.Rm.Config.Queues.{
  queues_of, entries, IsIdle, init_lcore_rx_queues_iff, init_lcore_rx_queues-entries,
}
use icnprototype.Rm.Config.Args.{Libc, Settings, Arg, parse_args, parse_arg}
use icnprototype.Rm.Config.Args.Legal.{IsLegal, parse_args-IsLegal}

abbrev params : List LcoreParams
params =
    record { port_id = 0; queue_id = 0; lcore_id = 2 }
    ∷ record { port_id = 3; queue_id = 0; lcore_id = 3 }
    ∷ record { port_id = 1; queue_id = 2; lcore_id = 2 }
    ∷ []

abbrev idle : Confs
idle i = record {
  n_rx_queue = 0;
  rx_queue_list = replicate 16 (record { port_id = 9; queue_id = 9 });
}

idle-IsIdle : (i : ℕ) → IsIdle (idle i)
idle-IsIdle i = record { size = refl; unused = refl }

init_lcore_rx_queues_iff_example :
    ((init_lcore_rx_queues idle params).0 ≡ pos 0)
    ↔ ((lcore : ℕ) → length (queues_of lcore params) ≤ 16)
init_lcore_rx_queues_iff_example = init_lcore_rx_queues_iff idle params idle-IsIdle

init_lcore_rx_queues-entries_example :
    entries ((init_lcore_rx_queues idle params).1 2)
    ≡ record { port_id = 0; queue_id = 0 } ∷ record { port_id = 1; queue_id = 2 } ∷ []
unfolding init_lcore_rx_queues queues_of
init_lcore_rx_queues-entries_example = init_lcore_rx_queues-entries idle params idle-IsIdle refl 2

-- Reads one digit and splits nothing.
abbrev one_digit : Libc
one_digit = record {
  strtoul = λ base s. elim s [
    | [] ↦ record { value = 0; read = 0; errno = false }
    | c ∷ _ ↦ record { value = c - b'0'; read = 1; errno = false }
  ];
  rte_strsplit = λ s n. s ∷ [];
}

abbrev settings : Settings
settings = record {
  enabled_port_mask = 0;
  promiscuous_on = true;
  numa_on = true;
  ipv6 = false;
  jumbo_frame = false;
  max_rx_pkt_len = 1518;
  hash_entry_number = 4;
  lcore_params = params;
}

settings-IsLegal : IsLegal settings
settings-IsLegal = record {
  mask = omega arith;
  least_len = omega arith;
  most_len = omega arith;
  least_hash = omega arith;
  most_hash = omega arith;
  params = record {
    entries = omega arith;
    bytes = (
      record { port = omega arith; queue = omega arith; lcore = omega arith },
      (
        record { port = omega arith; queue = omega arith; lcore = omega arith },
        (record { port = omega arith; queue = omega arith; lcore = omega arith }, tt),
      ),
    );
  };
}

parse_args-IsLegal_example :
    IsLegal (record settings { enabled_port_mask = 7; numa_on = false; hash_entry_number = 5 })
unfolding parse_args parse_arg
parse_args-IsLegal_example =
    parse_args-IsLegal one_digit settings
      (Arg.p (b'7' ∷ []) ∷ Arg.no_numa ∷ Arg.hash_entry_num (b'5' ∷ []) ∷ [])
      (record settings { enabled_port_mask = 7; numa_on = false; hash_entry_number = 5 })
      settings-IsLegal refl

get_port_n_rx_queues_lem_example : get_port_n_rx_queues 1 params ≡ 3
unfolding check_lcore_params needed
get_port_n_rx_queues_lem_example = get_port_n_rx_queues_lem (λ lcore. true) params 1 refl
