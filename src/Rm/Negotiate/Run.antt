-- ===== src/Rm/Negotiate/Run.antt =====
-- The control packets that `main_loop` of RM/main.c handles one after another.
use icnprototype.Prelude.{
  ℕ, ◌<◌, ◌≤◌, ◌≡◌, sym, ◌∙◌, subst, List, [], ◌∷◌, Option, none, some, length,
}
use icnprototype.Rm.Nid.{Nid}
use icnprototype.Rm.ByteOrder.{ByteOrder}
use icnprototype.Rm.Chain.{max_pid_number}
use icnprototype.Rm.Chain.Init.{Build, read_configuration_init_pid_change_wxb}
use icnprototype.Rm.Chain.Init.Paths.{path_pids}
use icnprototype.Rm.Chain.Init.Spec.{read_configuration_init_pid_change_wxb_lem}
use icnprototype.Rm.Table.{Table}
use icnprototype.Rm.Table.Path.{Junk}
use icnprototype.Rm.Packet.{Mbuf}
use icnprototype.Rm.Negotiate.{State, Locals, Outcome, undefined, stuck, done, on_control}
use icnprototype.Rm.Negotiate.Invariant.{IsInStep}
use icnprototype.Rm.Negotiate.Steps.{IsSized, Ensures, on_control-IsInStep}

-- A packet, the value of `rand()`, and what the memory of the block's variables held.
pub record Arrival : Type 0 where
  pub loc : Locals
  pub packet : Mbuf
  pub random : ℕ

abbrev pub AreSized : List Arrival → Type 0
AreSized [] = Unit
AreSized (a ∷ arrivals) = IsSized a.loc × AreSized arrivals

-- `none` where a handler does not get to its end.
abbrev pub state_of : Outcome → Option State
state_of undefined = none
state_of stuck = none
state_of (done st loc sent) = some st

module _ (order : ByteOrder) (host : Nid) (junk : Junk) (raw port_id queue_id fuel : ℕ) where
  -- The state after the packets, in their order.
  unfoldable pub run : Option State → List Arrival → Option State
  run none arrivals = none
  run (some st) [] = some st
  run (some st) (a ∷ arrivals) =
      run
        (state_of (on_control order host junk raw port_id queue_id fuel st a.loc a.packet a.random))
        arrivals

  -- Every state that there is, is in step.
  Keeps : Option State → Type 0
  Keeps none = Unit
  Keeps (some st) = IsInStep host st

  state_of-Keeps :
      (o : Outcome) → Ensures (λ st loc. IsInStep host st × IsSized loc) o → Keeps (state_of o)
  unfolding Keeps
  state_of-Keeps undefined h = tt
  state_of-Keeps stuck h = tt
  state_of-Keeps (done st loc sent) h = h.0

  run-Keeps :
      (o : Option State) (arrivals : List Arrival)
      → Keeps o
      → AreSized arrivals
      → Keeps (run o arrivals)
  unfolding run Keeps
  run-Keeps none arrivals h k = tt
  run-Keeps (some st) [] h k = h
  run-Keeps (some st) (a ∷ arrivals) h k =
      run-Keeps
        (state_of (on_control order host junk raw port_id queue_id fuel st a.loc a.packet a.random))
        arrivals
        (state_of-Keeps _ (
          on_control-IsInStep order host junk raw port_id queue_id fuel st a.loc a.packet a.random h
            k.0))
        k.1

  -- The state after the start.
  abbrev pub started : Build → Table → State
  started b table = record { head = b.head; table = table }

  some_inj : {a b : Build} → some a ≡ some b → a ≡ b
  some_inj h = cc

  started-IsInStep :
      (contents : ℕ → List ℕ) (size : (k : ℕ) → length (contents k) ≡ max_pid_number)
      (table : Table) (b : Build)
      → length table < 256
      → ((e : Nid) → length (path_pids host e table) ≤ max_pid_number)
      → read_configuration_init_pid_change_wxb host contents table ≡ some b
      → IsInStep host (started b table)
  started-IsInStep contents size table b l few h =
      let (b', e, paths, roomy) =
        read_configuration_init_pid_change_wxb_lem contents size host table few in
      subst (λ c. IsInStep host (started c table)) (some_inj (sym e ∙ h))
        (record { roomy = roomy; small = l; paths = paths })

  -- From the start with a table of fewer than 256 rows and at most 20 paths to each neighbour, where
  -- the memory of each node holds an array of 20 identifiers and the local arrays have their sizes:
  -- after any sequence of control packets whose handlers all get to their ends, the chain and the
  -- table are in step.
  pub run_from_start :
      (contents : ℕ → List ℕ) (size : (k : ℕ) → length (contents k) ≡ max_pid_number)
      (table : Table) (b : Build) (arrivals : List Arrival) (st : State)
      → length table < 256
      → ((e : Nid) → length (path_pids host e table) ≤ max_pid_number)
      → read_configuration_init_pid_change_wxb host contents table ≡ some b
      → AreSized arrivals
      → run (some (started b table)) arrivals ≡ some st
      → IsInStep host st
  unfolding Keeps
  run_from_start contents size table b arrivals st l few h sized r = subst Keeps r (
      run-Keeps (some (started b table)) arrivals (started-IsInStep contents size table b l few h)
        sized)
