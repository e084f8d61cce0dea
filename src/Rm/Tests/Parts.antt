-- ===== src/Rm/Tests/Parts.antt =====
-- The parts of RM, each on a small input.
use icnprototype.Prelude.{◌≤◌, ◌≡◌, ◌≤◌, [], ◌∷◌, some, arith, length, length-replicate, replicate}
use icnprototype.Rm.Nid.{Nid}
use icnprototype.Rm.ByteOrder.{little_endian}
use icnprototype.Rm.Chain.Room.{IsRoomy}
use icnprototype.Rm.Chain.Init.{Build, read_configuration_init_pid_change_wxb}
use icnprototype.Rm.Chain.Init.Paths.{pids_to, path_pids}
use icnprototype.Rm.Chain.Init.Spec.{read_configuration_init_pid_change_wxb_lem}
use icnprototype.Rm.Table.{aligment_configure}
use icnprototype.Rm.Table.Align.{IsAligned, SamePaths, aligment_configure-IsAligned}
use icnprototype.Rm.Packet.{Mbuf, pkt_colorctl_setup}
use icnprototype.Rm.Send.{data_room, send_pid_a}
use icnprototype.Rm.Send.Layout.{IsMessage, send_pid_a_lem}
use icnprototype.Rm.Tests.{domain_a, route_a, route_b}

few : (e : Nid) → length (path_pids domain_a e (route_a ∷ [])) ≤ 20
few e = ground arith

read_configuration_init_pid_change_wxb_lem_example :
    (b : Build) × (read_configuration_init_pid_change_wxb domain_a
        (λ k. replicate 20 k)
        (route_a ∷ [])
      ≡ some b)
    × ((e : Nid) → pids_to b.head e ≡ path_pids domain_a e (route_a ∷ []))
    × IsRoomy b.head
read_configuration_init_pid_change_wxb_lem_example =
    read_configuration_init_pid_change_wxb_lem (λ k. replicate 20 k) (λ k. length-replicate 20 k)
      domain_a (route_a ∷ []) few

send_pid_a_lem_example :
    let m = (send_pid_a little_endian domain_a 0 0 0 (6 ∷ 7 ∷ []) 5 2 8 9).mbuf in
    IsMessage 0x10 domain_a (5 ∷ 6 ∷ 7 ∷ []) 8 9 m × (m.data_len ≡ 190) × (m.data_len ≤ data_room)
send_pid_a_lem_example =
    send_pid_a_lem little_endian domain_a 0 0 0 (6 ∷ 7 ∷ []) 5 8 9 (omega arith)

aligment_configure-IsAligned_example :
    IsAligned domain_a (aligment_configure domain_a (route_b ∷ []))
    × SamePaths (route_b ∷ []) (aligment_configure domain_a (route_b ∷ []))
aligment_configure-IsAligned_example = aligment_configure-IsAligned domain_a (route_b ∷ [])

packet : Mbuf
packet = pkt_colorctl_setup little_endian domain_a 0 2 3
