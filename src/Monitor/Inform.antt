-- ===== src/Monitor/Inform.antt =====
-- Requests for the data of ports: the program local_inform.c, which packs them into datagrams, in
-- NetworkMonitoringTools/stats_send_ver_test1. Its answers are in Inform/Answer.
pub mod Answer
pub mod Bits
pub mod Blocks
pub mod Packed
use Prim.Native.Char.{code}
use Prim.Native.String.{String}
use icnprototype.Prelude.{
  ℕ, zero, suc, ◌+◌, ◌-◌, ◌*◌, ◌/◌, ◌%◌, ◌^◌, ◌==◌, ◌&&◌, List, [], ◌∷◌, ◌++◌, Bool, true, false,
  Option, none, some, length, map, ltb, leb, if◌then◌else◌,
}
use icnprototype.Prelude.Int.{ℤ, pos, ◌+ℤ◌, ◌-ℤ◌, ltb_ℤ, pos_part}
use icnprototype.Monitor.Timer.{same_string}
use icnprototype.Monitor.Requests.{Tm, insert_time}

infixl 20 ◌>>=◌
abbrev pub ◌>>=◌ {ℓ κ} : {A : Type ℓ} → {B : Type κ} → Option A → (A → Option B) → Option B
none >>= f = none
some a >>= f = f a

-- `*request ^ (1 << k)`
pub toggle : ℕ → ℕ → ℕ
toggle k request = if request / 2 ^ k % 2 == 0 then request + 2 ^ k else request - 2 ^ k

-- A letter of any case in lower case, as `strcasecmp` compares.
abbrev pub lower : ℕ → ℕ
lower c = if leb b'A' c && leb c b'Z' then c + 32 else c

abbrev pub same_letters : List ℕ → List ℕ → Bool
same_letters [] [] = true
same_letters [] (y ∷ ys) = false
same_letters (x ∷ xs) [] = false
same_letters (x ∷ xs) (y ∷ ys) = lower x == lower y && same_letters xs ys

-- The names of the data, each with the place of its bit.
abbrev pub codes : String → List ℕ
codes String.[] = []
codes (String.◌∷◌ c s) = code c ∷ codes s

pub bit_of : List ℕ → Option ℕ
bit_of element =
    if same_letters element (codes "TOTAL_PACKETS")
    then some 0
    else if same_letters element (codes "RX_PACKETS")
    then some 1
    else if same_letters element (codes "TX_PACKETS")
    then some 2
    else if same_letters element (codes "TOTAL_BYTES")
    then some 3
    else if same_letters element (codes "RX_BYTES")
    then some 4
    else if same_letters element (codes "TX_BYTES")
    then some 5
    else if same_letters element (codes "RTT_AVG")
    then some 6
    else if same_letters element (codes "PACKETS_LOSS")
    then some 7
    else none

-- The request, and the value that is returned.
pub set_request : ℕ → List ℕ → ℕ × ℕ
unfolding bit_of toggle
set_request request element = elim (bit_of element) [
  | none ↦ (request, 0)
  | some k ↦ (toggle k request, 1)
]

abbrev pub size_element : ℕ
size_element = 16

-- The loop over `itstr`, the characters of `element` so far in `so_far`: the request and the count of names.
-- `none` where an element and its zero byte do not fit.
unfoldable pub scan : List ℕ → List ℕ → ℕ → ℕ → Option (ℕ × ℕ)
unfolding set_request
scan so_far [] request count =
    if ltb (length so_far) size_element
    then (let (request', ret) = set_request request so_far in some (request', count + ret))
    else none
scan so_far (c ∷ itstr) request count = elim (c == b' ') [
  | true ↦
      if ltb (length so_far) size_element
      then (let (request', ret) = set_request request so_far in
          scan [] itstr request' (count + ret))
      else none
  | false ↦ scan (so_far ++ (c ∷ [])) itstr request count
]

pub record Middle : Type 0 where
  pub ip : List ℕ
  pub request : ℕ

pub record Tail : Type 0 where
  pub content_type : ℕ
  pub start : Tm
  pub end : Tm

-- The number of a kind of content.
unfoldable pub content_of : List ℕ → Option ℕ
content_of tstr =
    if same_string tstr (codes "point")
    then some 0
    else if same_string tstr (codes "average")
    then some 1
    else if same_string tstr (codes "peak")
    then some 2
    else if same_string tstr (codes "nadir")
    then some 3
    else none

abbrev pub zero_tm : Tm
zero_tm = record {
  tm_sec = pos 0;
  tm_min = pos 0;
  tm_hour = pos 0;
  tm_mday = pos 0;
  tm_mon = pos 0;
  tm_year = pos 0;
}

abbrev pub zero_tail : Tail
zero_tail = record { content_type = 0; start = zero_tm; end = zero_tm }

-- The variables `_ip`, `_information`, `_type`, `_start_time` and `_end_time`.
pub record Asked : Type 0 where
  pub ip : List ℕ
  pub information : List ℕ
  pub type : List ℕ
  pub start_time : List ℕ
  pub end_time : List ℕ

-- What one round writes into `inform_get_tail`; `none` where a time cannot be read.
pub fill_tail : Asked → ℕ → Tail → Option Tail
fill_tail asked content_type tail = do
  start ← insert_time asked.start_time
  if content_type == 0
      then some (record tail { content_type = content_type; start = start })
      else (insert_time asked.end_time >>= λ end.
          some (record { content_type = content_type; start = start; end = end }))

-- The entries that are copied, and `inform_get_tail` afterwards. A kind that is not known is skipped.
pub insert_inform_get_tail : Asked → ℕ → Tail → Option (List Tail × Tail)
unfolding content_of fill_tail
insert_inform_get_tail asked zero tail = some ([], tail)
insert_inform_get_tail asked (suc count) tail = elim (content_of asked.type) [
  | none ↦ insert_inform_get_tail asked count tail
  | some content_type ↦ fill_tail asked content_type tail >>= λ t.
      insert_inform_get_tail asked count zero_tail >>= λ r. some (t ∷ r.0, r.1)
]

-- The sizes of `INFORM_GET_HEAD`, `INFORM_GET_MIDDLE`, `INFORM_GET_TAIL` and of the buffer.
abbrev pub size_head : ℕ
size_head = 36

abbrev pub size_middle : ℕ
size_middle = 20

abbrev pub size_tail : ℕ
size_tail = 52

abbrev pub size_int : ℕ
size_int = 4

abbrev pub size_buf : ℕ
size_buf = 1024

-- What stands behind the head in a datagram.
pub data Cell : Type 0 where
  middle : Middle → Cell
  tail : Tail → Cell

-- A datagram of type 3: its head, what stands behind it, and the number of bytes that are sent.
pub record Datagram : Type 0 where
  pub host_name : List ℕ
  pub count : ℕ
  pub cells : List Cell
  pub send_len : ℕ

-- The variables of `main`: `count` is that of the head in the buffer, and `left` that of `inform_get_head`.
pub record Packing : Type 0 where
  pub host_name : List ℕ
  pub left : ℕ
  pub count : ℕ
  pub cells : List Cell
  pub space_remain : ℤ
  pub port_count : ℕ
  pub inform_get_tail : Tail
  pub sent : List Datagram

-- `none` where bytes behind the buffer are sent.
pub send_message : Packing → Option Packing
send_message p =
    if ltb_ℤ p.space_remain (pos 0)
    then none
    else some (record p {
      sent =
          p.sent
          ++ (record {
            host_name = p.host_name;
            count = p.count;
            cells = p.cells;
            send_len = size_buf - pos_part p.space_remain;
          }
              ∷ []);
    })

abbrev pub block : Middle → List Tail → List Cell
block m tails = middle m ∷ map tail tails

abbrev pub size_block : ℕ → ℕ
size_block count = size_middle + count * size_tail

-- A new datagram with the block; `none` where it is written behind the buffer.
pub renew : Middle → ℕ → List Tail → Packing → Option Packing
renew m count tails p =
    if leb (size_int + size_head + size_block (length tails)) size_buf
    then some (record p {
      count = p.left;
      cells = block m tails;
      space_remain = pos size_buf -ℤ pos (size_head + size_block count + size_int);
      port_count = 1;
    })
    else none

-- The block of a port goes into the datagram, or into a new one if there is no space.
pub put_block : Middle → ℕ → List Tail → Packing → Option Packing
unfolding send_message renew
put_block m count tails p =
    if ltb_ℤ (p.space_remain -ℤ pos (size_block count)) (pos 0)
    then send_message (record p { count = p.port_count; left = p.left - p.port_count })
      >>= renew m count tails
    else some (record p {
      cells = p.cells ++ block m tails;
      space_remain = p.space_remain -ℤ pos (size_block count);
      port_count = p.port_count + 1;
    })

-- A round of the loop over the ports.
pub pack_port : Asked → Packing → Option Packing
unfolding scan insert_inform_get_tail put_block
pack_port asked p = do
  (request, count) ← scan [] asked.information 0 0
  (tails, last) ← insert_inform_get_tail asked count p.inform_get_tail
  put_block (record { ip = asked.ip; request = request }) count tails
      (record p { inform_get_tail = last })

pub pack_ports : Asked → ℕ → Packing → Option Packing
unfolding pack_port
pack_ports asked zero p = some p
pack_ports asked (suc n) p = pack_port asked p >>= pack_ports asked n

-- `fresh` is what `malloc` gives for `inform_get_tail`; `itnum` is taken not to be negative, and the
-- host's name to fit its 32 bytes.
pub inform : Asked → List ℕ → ℕ → Tail → Option (List Datagram)
unfolding pack_ports send_message
inform asked host_name itnum fresh = do
  p ← pack_ports asked itnum (record {
    host_name = host_name;
    left = itnum;
    count = itnum;
    cells = [];
    space_remain = pos size_buf -ℤ pos (size_head + size_int);
    port_count = 0;
    inform_get_tail = fresh;
    sent = [];
  })
  p ← send_message p
  some p.sent
