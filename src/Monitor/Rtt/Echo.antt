-- ===== src/Monitor/Rtt/Echo.antt =====
-- The measurement of round trips: `unpack`, `recv_packet`, `send_packet`, `computer_rtt`, `init_statistics` and
-- `get_link_stats` of NetworkMonitoringTools/stats_send_ver_test1/get_link_stats.c. The type `double` is a
-- parameter. The socket is taken to be made; what `select` and `recvfrom` give is an argument.
pub mod Rounds
pub mod Extremes
use icnprototype.Prelude.{
  ℕ, zero, suc, ◌+◌, ◌-◌, ◌*◌, ◌%◌, ◌^◌, ◌==◌, ◌&&◌, Bool, true, false, List, [], ◌∷◌, Option, none,
  some, length, ltb, leb, set, take, replicate, if◌then◌else◌,
}
use icnprototype.Prelude.Int.{ℤ, pos, ◌-ℤ◌, ltb_ℤ}
use icnprototype.Monitor.Rtt.{Timeval, tv_sub}

-- The operations on `double` that the code uses. A `float` is a `double` that `to_float` gives, and an operation
-- on `float` is that on `double` with its result cut.
pub record Arithmetic : Type 1 where
  pub Double : Type 0
  pub of_ℤ : ℤ → Double
  pub to_float : Double → Double
  pub plus : Double → Double → Double
  pub minus : Double → Double → Double
  pub times : Double → Double → Double
  pub over : Double → Double → Double
  pub less : Double → Double → Bool

abbrev pub max_no_packets : ℕ
max_no_packets = 5

-- An answer that was received: its length, the length field of its IP header, its ICMP header, and the times that
-- it was sent and received.
pub record Reply : Type 0 where
  pub len : ℤ
  pub ip_hl : ℕ
  pub icmp_type : ℕ
  pub icmp_id : ℕ
  pub icmp_seq : ℕ
  pub sent : Timeval
  pub received : Timeval

-- What `select` tells in a round.
pub data Heard : Type 0 where
  failed : Heard
  timeout : Heard
  reply : Reply → Heard

infixl 20 ◌>>=◌
abbrev pub ◌>>=◌ {ℓ κ} : {A : Type ℓ} → {B : Type κ} → Option A → (A → Option B) → Option B
none >>= f = none
some x >>= f = f x

module _ (a : Arithmetic) where
  open a use {Double, of_ℤ, to_float, plus, minus, times, over, less}

  pub record Stats : Type 0 where
    pub nsend : ℕ
    pub nreceived : ℕ
    pub temp_rtt : List Double
    pub all_time : Double
    pub min : Double
    pub max : Double
    pub avg : Double
    pub mdev : Double

  pub record LinkStats : Type 0 where
    pub packet_loss : Double
    pub rtt_avg : Double
    pub rtt_min : Double
    pub rtt_max : Double
    pub rtt_mdev : Double

  -- `tv_sec*1000.0 + tv_usec/1000.0`
  unfoldable pub rtt_of : Timeval → Double
  rtt_of t =
      plus (times (of_ℤ t.tv_sec) (of_ℤ (pos 1000))) (over (of_ℤ t.tv_usec) (of_ℤ (pos 1000)))

  -- An answer that counts.
  abbrev pub add_reply : Reply → Stats → Stats
  add_reply r s =
      let rtt = rtt_of (tv_sub r.received r.sent) in
      record s {
        temp_rtt = set s.temp_rtt s.nreceived rtt;
        all_time = plus s.all_time rtt;
        nreceived = s.nreceived + 1;
      }

  -- The value that is returned, and the statistics. An answer of type 0 with our number and the last sequence
  -- number counts. `none` where the write is outside of `temp_rtt`.
  pub unpack : ℕ → Reply → Stats → Option (ℕ × Stats)
  unpack pid r s =
      if ltb_ℤ (r.len -ℤ pos (r.ip_hl * 4)) (pos 8)
      then some (0, s)
      else if r.icmp_type == 0 && (r.icmp_id == pid && r.icmp_seq == s.nsend)
      then (if ltb s.nreceived (length s.temp_rtt) then some (1, add_reply r s) else none)
      else some (0, s)

  -- What follows on an answer: the loop goes on, with `again`, if it does not count.
  pub answered :
      (Stats → Option (Stats × List Heard))
      → List Heard
      → Option (ℕ × Stats)
      → Option (Stats × List Heard)
  answered again heard none = none
  answered again heard (some (zero, s)) = again s
  answered again heard (some (suc n, s)) = some (s, heard)

  -- The loop until `recv_flag` is set, and what is heard after it; `none` where it still waits at the end.
  pub recv_packet : ℕ → List Heard → Stats → Option (Stats × List Heard)
  unfolding unpack answered
  recv_packet pid [] s = none
  recv_packet pid (failed ∷ heard) s = some (s, heard)
  recv_packet pid (timeout ∷ heard) s = some (s, heard)
  recv_packet pid (reply r ∷ heard) s = answered (recv_packet pid heard) heard (unpack pid r s)

  -- The rounds of `while(end_flag)`: a packet is sent and an answer awaited.
  unfoldable pub pings : ℕ → ℕ → List Heard → Stats → Option (Stats × List Heard)
  unfolding recv_packet
  pings pid zero heard s = some (s, heard)
  pings pid (suc n) heard s =
      recv_packet pid heard (record s { nsend = s.nsend + 1 }) >>= λ (r : Stats × List Heard).
      pings pid n r.1 r.0

  abbrev zero_double : Double
  zero_double = of_ℤ (pos 0)

  unfoldable pub init_statistics : Stats
  init_statistics = record {
    nsend = 0;
    nreceived = 0;
    temp_rtt = replicate max_no_packets zero_double;
    all_time = zero_double;
    min = zero_double;
    max = zero_double;
    avg = zero_double;
    mdev = zero_double;
  }

  -- The smallest and the largest value in the loop of `computer_rtt`, and the sum of the differences to `avg`.
  pub extremes : Double → List Double → Double × Double × Double → Double × Double × Double
  extremes avg [] acc = acc
  extremes avg (x ∷ xs) (low, high, sum) = extremes avg xs (
    if less x low then x else low,
    if less x low then high else if less high x then x else high,
    if less (minus x avg) zero_double then plus sum (minus avg x) else plus sum (minus x avg),
  )

  abbrev pub first : List Double → Double
  first [] = zero_double
  first (x ∷ xs) = x

  unfoldable pub computer_rtt : Stats → Stats
  unfolding extremes
  computer_rtt s =
      let count = of_ℤ (pos s.nreceived) in
      let avg = if s.nreceived == 0 then s.avg else over s.all_time count in
      let (low, high, sum) =
        extremes avg (take s.nreceived s.temp_rtt)
          (first s.temp_rtt, first s.temp_rtt, zero_double) in
      record s {
        min = low;
        max = high;
        avg = avg;
        mdev = if s.nreceived == 0 then s.mdev else over sum count;
      }

  -- A loss of so many packets out of so many: `(float)(nsend-nreceived)/nsend*100`.
  abbrev pub loss : ℤ → ℕ → Double
  loss lost n = to_float (
      times (to_float (over (to_float (of_ℤ lost)) (to_float (of_ℤ (pos n)))))
        (to_float (of_ℤ (pos 100))))

  pub link_stats : Stats → LinkStats
  link_stats s = record {
    packet_loss = loss (pos s.nsend -ℤ pos s.nreceived) s.nsend;
    rtt_avg = to_float s.avg;
    rtt_min = to_float s.min;
    rtt_max = to_float s.max;
    rtt_mdev = to_float s.mdev;
  }

  -- What ends a round of `while(start_flag)`: the test of the largest value, what is reported, and the next round.
  pub finish_on : Bool → LinkStats → Option LinkStats → Option LinkStats
  finish_on false l again = some l
  finish_on true l again = again

  -- The rounds of `while(start_flag)`: `rounds` packets are sent in this one, and none in another, since
  -- `end_flag` stays 0. The fuel is the number of rounds.
  pub measure : ℕ → ℕ → ℕ → List Heard → Stats → Option LinkStats
  unfolding pings computer_rtt link_stats init_statistics finish_on
  measure zero pid rounds heard s = none
  measure (suc fuel) pid rounds heard s = pings pid rounds heard s >>= λ (r : Stats × List Heard).
      finish_on (less (of_ℤ (pos 500)) (computer_rtt r.0).max) (link_stats (computer_rtt r.0))
        (measure fuel pid 0 r.1 init_statistics)

  -- Five packets are sent; two rounds are enough.
  pub get_link_stats : ℕ → List Heard → Option LinkStats
  unfolding measure init_statistics
  get_link_stats pid heard = measure 2 pid max_no_packets heard init_statistics
