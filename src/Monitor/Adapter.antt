-- ===== src/Monitor/Adapter.antt =====
-- The text on a network adapter: `dump_supported`, `dump_advertised`, `dump_speed`, `fdump_speed`,
-- `dump_duplex`, `dump_port`, `dump_transceiver`, `dump_autoneg` and `dump_adapter` of
-- NetworkMonitoringTools/stats_send_ver_test1/dump.c. The text is the list of its pieces, without the
-- headings.
-- The numbers of an adapter come from `dump_ecmd` of get_adapter.c.
pub mod Modes
use icnprototype.Prelude.{
  ℕ, ◌+◌, ◌*◌, ◌/◌, ◌%◌, ◌^◌, Bool, true, false, not, ◌==◌, ◌&&◌, ◌||◌, List, [], ◌∷◌, ◌++◌,
  if◌then◌else◌,
}

-- The bits of the two masks, of getnet.h.
pub data Mode : Type 0 where
  half_10 : Mode
  full_10 : Mode
  half_100 : Mode
  full_100 : Mode
  half_1000 : Mode
  full_1000 : Mode
  full_10000 : Mode

abbrev pub shift_of : Mode → ℕ
shift_of half_10 = 0
shift_of full_10 = 1
shift_of half_100 = 2
shift_of full_100 = 3
shift_of half_1000 = 4
shift_of full_1000 = 5
shift_of full_10000 = 12

pub data Port : Type 0 where
  tp : Port
  aui : Port
  bnc : Port
  mii : Port
  fibre : Port

abbrev pub port_shift : Port → ℕ
port_shift tp = 7
port_shift aui = 8
port_shift mii = 9
port_shift fibre = 10
port_shift bnc = 11

-- A piece of the text: a name, the break of a line, `Not reported`, and the words that are chosen.
pub data Piece : Type 0 where
  port_name : Port → Piece
  mode_name : Mode → Piece
  new_line : Piece
  not_reported : Piece
  yes : Piece
  no : Piece
  mbits : ℕ → Piece
  half : Piece
  full : Piece
  twisted_pair : Piece
  port_word : Port → Piece
  internal : Piece
  external : Piece
  off : Piece
  on : Piece
  unknown : ℕ → Piece
  unknown_transceiver : Piece

-- `struct ADAPTER`, as far as it is printed.
pub record Adapter : Type 0 where
  pub supported : ℕ
  pub advertising : ℕ
  pub speed : ℕ
  pub duplex : ℕ
  pub port : ℕ
  pub transceiver : ℕ
  pub autoneg : ℕ

abbrev pub has : ℕ → ℕ → Bool
has mask shift = (mask / 2 ^ shift) % 2 == 1

abbrev pub when : Bool → List Piece → List Piece
when b text = if b then text else []

abbrev pub mode_if : ℕ → Mode → List Piece
mode_if mask mode = when (has mask (shift_of mode)) (mode_name mode ∷ [])

-- Modes of 10, 100 and 1000 Mb/s; a line ends before the modes of a speed if a mode was printed before.
-- `did1` is not 0 exactly after a mode.
abbrev pub up_to_1000 : ℕ → List Piece
up_to_1000 mask =
    let did_10 = has mask 0 || has mask 1 in
    let did_100 = did_10 || (has mask 2 || has mask 3) in
    mode_if mask half_10
    ++ mode_if mask full_10
    ++ when (did_10 && (has mask 2 || has mask 3)) (new_line ∷ [])
    ++ mode_if mask half_100
    ++ mode_if mask full_100
    ++ when (did_100 && (has mask 4 || has mask 5)) (new_line ∷ [])
    ++ mode_if mask half_1000
    ++ mode_if mask full_1000

abbrev pub any_mode : ℕ → Bool
any_mode mask =
    has mask 0
    || (has mask 1 || (has mask 2 || (has mask 3 || (has mask 4 || (has mask 5 || has mask 12)))))

-- The link modes of both functions.
pub link_modes : ℕ → List Piece
link_modes mask =
    up_to_1000 mask
    ++ when (has mask 12) (new_line ∷ mode_name full_10000 ∷ [])
    ++ when (not (any_mode mask)) (not_reported ∷ [])
    ++ (new_line ∷ [])

abbrev pub port_if : ℕ → Port → List Piece
port_if mask port = when (has mask (port_shift port)) (port_name port ∷ [])

abbrev pub negotiates : ℕ → List Piece
negotiates mask = if has mask 6 then yes ∷ [] else no ∷ []

pub dump_supported : ℕ → List Piece
unfolding link_modes
dump_supported mask =
    port_if mask tp
    ++ port_if mask aui
    ++ port_if mask bnc
    ++ port_if mask mii
    ++ port_if mask fibre
    ++ link_modes mask
    ++ negotiates mask

pub dump_advertised : ℕ → List Piece
unfolding link_modes
dump_advertised mask = link_modes mask ++ negotiates mask

-- 0 for another speed.
pub fdump_speed : ℕ → ℕ
fdump_speed speed =
    if speed == 10
    then 10
    else if speed == 100
    then 100
    else if speed == 1000
    then 1000
    else if speed == 10000
    then 10000
    else 0

pub dump_speed : ℕ → List Piece × ℕ
unfolding fdump_speed
dump_speed speed = (
  if fdump_speed speed == 0 then unknown speed ∷ [] else mbits (fdump_speed speed) ∷ [],
  fdump_speed speed,
)

abbrev pub dump_duplex : ℕ → List Piece
dump_duplex duplex =
    (if duplex == 1 then half else if duplex == 2 then full else unknown duplex) ∷ []

abbrev pub dump_port : ℕ → List Piece
dump_port port =
    (if port == 1
      then twisted_pair
      else if port == 2
      then port_word aui
      else if port == 3
      then port_word bnc
      else if port == 4
      then port_word mii
      else if port == 5
      then port_word fibre
      else unknown port)
    ∷ []

abbrev pub dump_transceiver : ℕ → List Piece
dump_transceiver transceiver =
    (if transceiver == 1
      then internal
      else if transceiver == 2
      then external
      else unknown_transceiver)
    ∷ []

-- `AUTONEG_DISABLE` is 0.
abbrev pub dump_autoneg : ℕ → List Piece
dump_autoneg autoneg = (if autoneg == 0 then off else on) ∷ []

pub dump_adapter : Adapter → List Piece
unfolding dump_supported dump_advertised dump_speed
dump_adapter a =
    dump_supported a.supported
    ++ dump_advertised a.advertising
    ++ (dump_speed a.speed).0
    ++ dump_duplex a.duplex
    ++ dump_port a.port
    ++ dump_transceiver a.transceiver
    ++ dump_autoneg a.autoneg

-- `struct ethtool_cmd`, as far as `dump_ecmd` of get_adapter.c reads it.
pub record EthtoolCmd : Type 0 where
  pub supported : ℕ
  pub advertising : ℕ
  pub speed : ℕ
  pub duplex : ℕ
  pub port : ℕ
  pub transceiver : ℕ
  pub autoneg : ℕ

-- The functions `dump_duplex`, `dump_port` and `dump_transceiver` of get_adapter.c, which number anew.
abbrev pub duplex_of : ℕ → ℕ
duplex_of duplex = if duplex == 0 then 1 else if duplex == 1 then 2 else 0

abbrev pub port_of : ℕ → ℕ
port_of port =
    if port == 0
    then 1
    else if port == 1
    then 2
    else if port == 4
    then 3
    else if port == 2
    then 4
    else if port == 3
    then 5
    else 0

abbrev pub transceiver_of : ℕ → ℕ
transceiver_of transceiver = if transceiver == 0 then 1 else if transceiver == 1 then 2 else 0

abbrev pub dump_ecmd : EthtoolCmd → Adapter
dump_ecmd ep = record {
  supported = ep.supported;
  advertising = ep.advertising;
  speed = ep.speed;
  duplex = duplex_of ep.duplex;
  port = port_of ep.port;
  transceiver = transceiver_of ep.transceiver;
  autoneg = ep.autoneg;
}
