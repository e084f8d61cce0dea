-- ===== src/Monitor/Inform/Answer.antt =====
-- The answer to a request for data: `parse_inform_message` and `fetch_inform_data` of local_comm.c, in
-- NetworkMonitoringTools/stats_send_ver_test1.
pub mod Entries
use icnprototype.Prelude.{
  ℕ, zero, suc, ◌+◌, ◌/◌, ◌%◌, ◌==◌, List, [], ◌∷◌, ◌++◌, true, false, Option, none, some, ltb,
  if◌then◌else◌,
}
use icnprototype.Prelude.Int.{ℤ, pos, negsuc, ltb_ℤ}
use icnprototype.Monitor.Inform.{
  Middle, Tail, Cell, middle, tail, Datagram, ◌>>=◌, size_head, size_middle, size_tail,
}

-- What stands in the answer; `unknown` has the size of a `Middle` and is what stood behind the request.
pub data Item : Type 0 where
  head : List ℕ → ℕ → Item
  port : Middle → Item
  asked : Tail → Item
  value : ℤ → Item
  unknown : Item

abbrev pub size_value : ℕ
size_value = 8

abbrev pub size_answer : ℕ
size_answer = 1280

abbrev pub size_of : Item → ℕ
size_of (head name count) = size_head
size_of (port m) = size_middle
size_of (asked t) = size_tail
size_of (value v) = size_value
size_of unknown = size_middle

pub size : List Item → ℕ
size [] = 0
size (x ∷ xs) = size_of x + size xs

-- The queries of the database stand in comments, so the value is -1 in all branches.
pub fetch_inform_data : Tail → ℤ → ℤ
fetch_inform_data t port_num =
    if ltb_ℤ port_num (pos 0) then negsuc 0 else if t.content_type == 0 then negsuc 0 else negsuc 0

-- The entries of `inform_element`.
abbrev pub elements : ℕ
elements = 8

-- `while(request)`, from the `j`-th bit on: what is left of the request's cells, and the answer. `none` where a
-- cell is not an entry, or the element has no name.
pub answer_bits : ℕ → ℤ → ℕ → ℕ → List Cell → List Item → Option (List Cell × List Item)
unfolding fetch_inform_data
answer_bits zero port_num j request cells out = none
answer_bits (suc fuel) port_num j zero cells out = some (cells, out)
answer_bits (suc fuel) port_num j (suc r) cells out = elim (suc r % 2 == 1) [
  | false ↦ answer_bits fuel port_num (j + 1) (suc r / 2) cells out
  | true ↦ elim cells [
    | tail t ∷ rest ↦ elim (ltb j elements) [
      | true ↦
          answer_bits fuel port_num (j + 1) (suc r / 2) rest
            (out ++ (asked t ∷ value (fetch_inform_data t port_num) ∷ []))
      | false ↦ none
    ]
    | _ ↦ none
  ]
]

-- What is copied as the next `Middle`.
abbrev pub next_port : List Cell → Item
next_port [] = unknown
next_port (middle m ∷ cells) = port m
next_port (tail t ∷ cells) = unknown

-- A request has 32 bits.
abbrev pub request_bits : ℕ
request_bits = 32

pub answer_ports : ℤ → ℕ → List Cell → List Item → Option (List Item)
unfolding answer_bits
answer_ports port_num zero cells out = some out
answer_ports port_num (suc n) [] out = none
answer_ports port_num (suc n) (tail t ∷ cells) out = none
answer_ports port_num (suc n) (middle m ∷ cells) out =
    answer_bits (suc request_bits) port_num 0 m.request cells out >>= λ r.
    answer_ports port_num n r.0 (r.1 ++ (next_port r.0 ∷ []))

-- `port_num` is not set by the code. `none` also where the answer does not fit its buffer.
pub parse_inform_message : ℤ → Datagram → Option (List Item)
unfolding answer_ports size
parse_inform_message port_num d =
    answer_ports port_num d.count d.cells (head d.host_name d.count ∷ next_port d.cells ∷ [])
    >>= (λ out. if ltb size_answer (size out) then none else some out)
