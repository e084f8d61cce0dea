-- ===== src/Server.antt =====
-- The flow generator of the servers, server/flow_generator2.c: how `send_data_packets` cuts a flow into
-- frames, and the loop of `main` that starts it.
pub mod Sizes
mod Tests
use icnprototype.Prelude.{
  ℕ, ◌+◌, ◌-◌, ◌*◌, ◌/◌, ◌%◌, ◌^◌, Bool, true, false, ◌==◌, ◌&&◌, ◌||◌, List, [], ◌∷◌, ◌++◌,
  replicate, ltb, leb, Option, none, some, if◌then◌else◌,
}

-- `struct argc` without the pointer: three `uint32_t`.
pub record Flow : Type 0 where
  pub flow_packets : ℕ
  pub flow_size : ℕ
  pub flow_time : ℕ

-- `sizeof(struct data_header)`.
abbrev pub size_data_header : ℕ
size_data_header = 84

abbrev pub at_most : ℕ → ℕ → ℕ
at_most bound n = if ltb bound n then bound else n

-- The local variables after the sizes are set; `pieces` is `B.flow_packets`.
pub record Plan : Type 0 where
  pub psize : ℕ
  pub lastpsize : ℕ
  pub pieces : ℕ
  pub len : ℕ
  pub len2 : ℕ
  pub duration : ℕ

-- The duration of a frame, in microseconds.
abbrev pub duration_of : Flow → ℕ → ℕ
duration_of b pieces =
    let duration = b.flow_time / b.flow_packets in
    at_most 60000000 (if duration == 0 && ltb 1 pieces then 1 else duration)

-- The length that `sendto` gets of a `size_t` that was stored in an `int` and cut: one that is negative as an
-- `int` is not cut, and becomes a `size_t` again.
abbrev pub int_at_most : ℕ → ℕ → ℕ
int_at_most bound n =
    let low = n % 2 ^ 32 in if ltb low (2 ^ 31) then at_most bound low else low + (2 ^ 64 - 2 ^ 32)

abbrev pub capped : ℕ → ℕ → ℕ → ℕ → ℕ → ℕ → Plan
capped psize lastpsize pieces len len2 duration = record {
  psize = psize;
  lastpsize = at_most 1514 lastpsize;
  pieces = pieces;
  len = int_at_most 1400 len;
  len2 = int_at_most 1400 len2;
  duration = duration;
}

-- `none` for no packets, a division by zero, and for a size that is negative as an `int`.
unfoldable pub plan : Flow → Option Plan
plan b =
    let psize = b.flow_size / b.flow_packets in
    let rest = b.flow_size % b.flow_packets in
    let last_large = b.flow_size % 1514 in
    let pieces_large = if last_large == 0 then b.flow_size / 1514 else b.flow_size / 1514 + 1 in
    if b.flow_packets == 0 || leb (2 ^ 31) psize || leb (2 ^ 31) rest
    then none
    else if ltb 1514 psize
    then some (
        capped 1300 last_large pieces_large 1400 (14 + size_data_header + last_large)
          (duration_of b pieces_large))
    else some (
        capped psize rest b.flow_packets (14 + size_data_header + psize)
          (14 + size_data_header + rest) (duration_of b b.flow_packets))

-- The lengths of the frames that `sendto` gets, in order.
abbrev pub frames : Plan → List ℕ
frames p =
    if p.lastpsize == 0
    then replicate p.pieces p.len
    else replicate (p.pieces - 1) p.len ++ (p.len2 ∷ [])

-- The pause after a frame, in microseconds: in the loop of equal frames, and in the one before the last.
abbrev pub pause : Plan → ℕ
pause p =
    if p.lastpsize == 0
    then (if ltb 10000 p.duration
        then 1000
        else if ltb 0 p.duration && ltb p.duration 10000
        then 1
        else 0)
    else (if ltb 10000 p.duration
        then 1000
        else if ltb 0 p.duration && leb p.duration 10000
        then 1
        else 0)

-- What `main` does with a frame.
pub data Received : Type 0 where
  ignored : Received
  stopped : Received
  started : Flow → Received

-- A `get_header` starts a flow, unless it wants more than 10 packets in no time.
pub on_get : ℕ → Flow → Received
on_get version_type b =
    if version_type == 160
    then (if b.flow_time == 0 && ltb 10 b.flow_packets then stopped else started b)
    else ignored
