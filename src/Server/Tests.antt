-- ===== src/Server/Tests.antt =====
-- A flow of three packets and 100 bytes.
use icnprototype.Prelude.{◌+◌, ◌≡◌, ◌≤◌, length, some, arith}
use icnprototype.Server.{Flow, Plan, plan, frames}
use icnprototype.Server.Sizes.{carried, carried-frames, longest, longest-frames_le}

abbrev flow : Flow
flow = record { flow_packets = 3; flow_size = 100; flow_time = 60 }

carried-frames_example :
    (p : Plan) × (plan flow ≡ some p) × (length (frames p) ≡ 3) × (carried (frames p) + 33 ≡ 100)
carried-frames_example = carried-frames flow (record {
  some_packets = omega arith;
  few = omega arith;
  small = omega arith;
  small_rest = omega arith;
})

longest-frames_le_example : (p : Plan) × (plan flow ≡ some p) × (longest (frames p) ≤ 1400)
longest-frames_le_example = longest-frames_le flow (omega arith) (omega arith) (omega arith)
