-- ===== src/Rm/Table/Path.antt =====
-- The functions of RM/main.c over the table's rows for one neighbour: `find_ip_or_pid`,
-- `update_nid_ip_nid_ip_nid` and `announce_ip_nid_ip`.
pub mod Update
pub mod Announce
use icnprototype.Prelude.{
  ℕ, zero, suc, ◌+◌, ◌*◌, ◌%◌, Bool, true, false, ◌&&◌, List, [], ◌∷◌, ◌++◌, Option, none, some,
  length, get_or, leb, ◌==◌, if◌then◌else◌,
}
use icnprototype.Rm.Nid.{Nid, same_nid}
use icnprototype.Rm.ByteOrder.{ByteOrder}
use icnprototype.Rm.Packet.{ColorCtlPub}
use icnprototype.Rm.Send.{Sent, AnnounceItem, send_ip_nid_ip}
use icnprototype.Rm.Chain.{PidInfo}
use icnprototype.Rm.Table.{Route, Table}

-- What `find_ip_or_pid` returns for the first row that matches; a type other than 0 and 1 goes on.
-- `none` where the function ends without a `return`.
unfoldable pub find_ip_or_pid : ByteOrder → Nid → Nid → Table → ℕ → Option ℕ
find_ip_or_pid order host nid_temp [] type = none
find_ip_or_pid order host nid_temp (item ∷ t) type =
    let rest = find_ip_or_pid order host nid_temp t type in
    if same_nid host item.eid1 && same_nid nid_temp item.eid2
    then (if type == 0
        then some (order.be32 item.ip1)
        else if type == 1
        then some (order.be32 item.pid)
        else rest)
    else rest

-- The loops run over `number` rows, where `number` is a uint8_t.
abbrev pub number_of : Table → ℕ
number_of t = length t % 256

-- The loop of `update_nid_ip_nid_ip_nid` with its rounds left and its `counter`.
pub update_rows : Nid → PidInfo → ℕ → ℕ → Table → Table
update_rows host node zero counter t = t
update_rows host node (suc k) counter [] = []
update_rows host node (suc k) counter (item ∷ t) =
    let hit = same_nid item.eid1 host && same_nid item.eid2 node.eid in
    (if hit then record item { pid = get_or node.pid counter 0 } else item)
    ∷ update_rows host node k (if hit then counter + 1 else counter) t

pub update_nid_ip_nid_ip_nid : Nid → PidInfo → Table → Table
unfolding update_rows
update_nid_ip_nid_ip_nid host node t = update_rows host node (number_of t) 0 t

-- `pid_change_period`
abbrev pub pid_change_period : ℕ
pid_change_period = 1

-- The uninitialised memory that `announce_ip_nid_ip` sends along: the field `pid_original` of its
-- local `announce`, and the local header of `send_ip_nid_ip`.
pub record Junk : Type 0 where
  pub pid_original : ℕ
  pub header : ColorCtlPub

module _ (order : ByteOrder) (host : Nid) (junk : Junk) where
  pub announce_item : Route → AnnounceItem
  announce_item item = record {
    pid_original = junk.pid_original;
    pid_current = order.be32 item.pid;
    ip_inside = order.be32 item.ip1;
    ip_outside = order.be32 item.ip2;
    time_to_live = order.be32 (pid_change_period * 2);
  }

  -- The inner loop: one packet for each row of the host among the first `k`, on port 0 and queue 0.
  pub announce_to : AnnounceItem → ℕ → Table → List Sent
  announce_to announce zero t = []
  announce_to announce (suc k) [] = []
  announce_to announce (suc k) (item_j ∷ t) =
      let rest = announce_to announce k t in
      if same_nid item_j.eid1 host
      then send_ip_nid_ip order host 0 0 0 junk.header announce (order.be32 item_j.ip1) ∷ rest
      else rest

  -- The outer loop; `all` is the table that the inner loop goes through.
  pub announce_rows : PidInfo → Table → ℕ → ℕ → Table → List Sent
  announce_rows node all zero counter t = []
  announce_rows node all (suc k) counter [] = []
  announce_rows node all (suc k) counter (item ∷ t) =
      let hit =
        same_nid item.eid1 host
        && same_nid item.eid2 node.eid
        && (get_or node.pid counter 0 == item.pid) in
      let rest = announce_rows node all k (if hit then counter + 1 else counter) t in
      if hit
      then announce_to (announce_item item) (number_of all) all
        ++ (if leb node.number_pid (counter + 1) then [] else rest)
      else rest

  pub announce_ip_nid_ip : PidInfo → Table → List Sent
  unfolding announce_item announce_to announce_rows
  announce_ip_nid_ip node t = announce_rows node t (number_of t) 0 t
