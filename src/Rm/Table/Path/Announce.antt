-- ===== src/Rm/Table/Path/Announce.antt =====
-- Which packets `announce_ip_nid_ip` sends.
use icnprototype.Prelude.{
  ℕ, ◌+◌, ◌≤◌, ◌<◌, ◌≡◌, refl, List, [], ◌∷◌, ◌++◌, arith, length, map, take, drop, if◌then◌else◌,
}
use native.Mathlib.Nat.{mod-eq_of_lt}
use mathlib.Core.List.{append-nil}
use icnprototype.Rm.Nid.{Nid, same_nid}
use icnprototype.Rm.ByteOrder.{ByteOrder}
use icnprototype.Rm.Send.{Sent, send_ip_nid_ip}
use icnprototype.Rm.Chain.{PidInfo, used}
use icnprototype.Rm.Chain.Init.Paths.{path_pids}
use icnprototype.Rm.Table.{Route, Table}
use icnprototype.Rm.Table.Path.{
  Junk, number_of, announce_item, announce_to, announce_rows, announce_ip_nid_ip,
}
use icnprototype.Rm.Table.Path.Update.{same_nid_comm, drop-step}

module _ (order : ByteOrder) (host : Nid) (junk : Junk) where
  -- The addresses of the routers of the host, one for each row of the table that names it first.
  unfoldable pub routers : Table → List ℕ
  routers [] = []
  routers (r ∷ t) =
      let rest = routers t in if same_nid host r.eid1 then order.be32 r.ip1 ∷ rest else rest

  -- The packet to a router that tells it of a path.
  abbrev pub announcement : Route → ℕ → Sent
  announcement r router =
      send_ip_nid_ip order host 0 0 0 junk.header
        (record {
          pid_original = junk.pid_original;
          pid_current = order.be32 r.pid;
          ip_inside = order.be32 r.ip1;
          ip_outside = order.be32 r.ip2;
          time_to_live = order.be32 2;
        })
        router

  -- For each path of the table to the domain `e`, a packet to each router of the host.
  abbrev pub announcements : Nid → List ℕ → Table → List Sent
  announcements e to [] = []
  announcements e to (r ∷ t) =
      let rest = announcements e to t in
      if same_nid host r.eid1
      then if same_nid r.eid2 e then map (announcement r) to ++ rest else rest
      else rest

  announce_to_lem :
      (r : Route) (t : Table)
      → announce_to order host junk (announce_item order host junk r) (length t) t
        ≡ map (announcement r) (routers t)
  unfolding announce_to announce_item routers
  announce_to_lem r [] = refl
  announce_to_lem r (q ∷ t) = ground (arith, same_nid_comm host q.eid1, announce_to_lem r t)

  announce_to_all :
      (r : Route) (t : Table)
      → length t < 256
      → announce_to order host junk (announce_item order host junk r) (number_of t) t
        ≡ map (announcement r) (routers t)
  announce_to_all r t k = rw (mod-eq_of_lt k) (announce_to_lem r t)

  announcements-nil :
      (e : Nid) (to : List ℕ) (t : Table)
      → length (path_pids host e t) ≡ 0
      → announcements e to t ≡ []
  announcements-nil e to [] h = refl
  announcements-nil e to (r ∷ t) h = ground (arith, announcements-nil e to t)

  announce_rows_lem :
      (node : PidInfo) (all : Table) (c : ℕ) (t : Table)
      → length all < 256
      → c + length (path_pids host node.eid t) ≡ node.number_pid
      → node.number_pid ≤ length node.pid
      → take (length (path_pids host node.eid t)) (drop c node.pid) ≡ path_pids host node.eid t
      → announce_rows order host junk node all (length t) c t
        ≡ announcements node.eid (routers all) t
  unfolding announce_rows
  announce_rows_lem node all c [] k s l h = refl
  announce_rows_lem node all c (r ∷ t) k s l h = ground (
    arith,
    same_nid_comm host r.eid1,
    announce_rows_lem node all (c + 1) t k,
    announce_rows_lem node all c t k,
    drop-step node.pid c,
    announcements-nil node.eid (routers all) t,
    announce_to_all r all k,
    append-nil (map (announcement r) (routers all)),
  )

  -- In a table of fewer than 256 rows, if the node's identifiers in use are those of the table's paths
  -- to its domain, then `announce_ip_nid_ip` announces each of these paths, in the table's order, to
  -- the router of each row that names the host first, in the rows' order, and sends nothing else.
  pub announce_ip_nid_ip_lem :
      (node : PidInfo) (t : Table)
      → length t < 256
      → node.number_pid ≤ length node.pid
      → length (path_pids host node.eid t) ≡ node.number_pid
      → used node ≡ path_pids host node.eid t
      → announce_ip_nid_ip order host junk node t ≡ announcements node.eid (routers t) t
  unfolding announce_ip_nid_ip
  announce_ip_nid_ip_lem node t k l s h =
      rw (mod-eq_of_lt k) (announce_rows_lem node t 0 t k (omega arith) l (rw s h))
