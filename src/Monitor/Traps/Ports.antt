-- ===== src/Monitor/Traps/Ports.antt =====
-- The levels of the ports' traps and the choice of a port by them.
use icnprototype.Prelude.{
  ◌≤◌, ◌≡◌, ◌⊎◌, refl, ap, sym, subst, inl, inr, Bool, true, false, Bool-cases, List, [], ◌∷◌, ltb,
  ltb→lt, tests, arith, if◌then◌else◌,
}
use icnprototype.Monitor.Devices.{PortState}
use icnprototype.Monitor.Traps.{choose_from, choose_port}

-- The port's name and level are in the list, and no level of the list is lower.
pub IsLowest : PortState → List PortState → Type 0
IsLowest p [] = Unit
IsLowest p (port ∷ ports) = (p.trap_level ≤ port.trap_level) × IsLowest p ports

abbrev pub IsAmong : PortState → List PortState → Type 0
IsAmong p [] = ⊥
IsAmong p (port ∷ ports) =
    ((p.dev_name ≡ port.dev_name) × (p.trap_level ≡ port.trap_level)) ⊎ IsAmong p ports

-- What the loop of `choose_port` finds, from `p` on.
abbrev Chosen : PortState → List PortState → PortState → Type 0
Chosen p ports r =
    (r.trap_level ≤ p.trap_level)
    × IsLowest r ports
    × (((r.dev_name ≡ p.dev_name) × (r.trap_level ≡ p.trap_level)) ⊎ IsAmong r ports)

took :
    (p port : PortState) (ports : List PortState) (r : PortState)
    → ltb port.trap_level p.trap_level ≡ true
    → Chosen (record p { trap_level = port.trap_level; dev_name = port.dev_name }) ports r
    → Chosen p (port ∷ ports) r
unfolding IsLowest
took p port ports r h (a, b, inl c) =
    (omega (tests, a, ltb→lt port.trap_level p.trap_level h), (a, b), inr (inl c))
took p port ports r h (a, b, inr c) =
    (omega (tests, a, ltb→lt port.trap_level p.trap_level h), (a, b), inr (inr c))

kept :
    (p port : PortState) (ports : List PortState) (r : PortState)
    → ltb port.trap_level p.trap_level ≡ false
    → Chosen p ports r
    → Chosen p (port ∷ ports) r
unfolding IsLowest
kept p port ports r h (a, b, inl c) = (a, (ground arith, b), inl c)
kept p port ports r h (a, b, inr c) = (a, (ground arith, b), inr (inr c))

abbrev better : PortState → PortState → PortState
better p port = record p { trap_level = port.trap_level; dev_name = port.dev_name }

choose_from-cons :
    (p port : PortState) (ports : List PortState) {b : Bool}
    → ltb port.trap_level p.trap_level ≡ b
    → choose_from p (port ∷ ports) ≡ choose_from (if b then better p port else p) ports
unfolding choose_from
choose_from-cons p port ports h = ap (λ c. choose_from (if c then better p port else p) ports) h

choose_from_lem : (p : PortState) (ports : List PortState) → Chosen p ports (choose_from p ports)
unfolding choose_from IsLowest
choose_from_lem p [] = (omega arith, tt, inl (refl, refl))
choose_from_lem p (port ∷ ports) = elim (Bool-cases (ltb port.trap_level p.trap_level)) [
  | inl h ↦ subst (Chosen p (port ∷ ports)) (sym (choose_from-cons p port ports h)) (
      took p port ports (choose_from (better p port) ports) h
        (choose_from_lem (better p port) ports))
  | inr h ↦
      subst (Chosen p (port ∷ ports)) (sym (choose_from-cons p port ports h))
        (kept p port ports (choose_from p ports) h (choose_from_lem p ports))
]

-- `choose_port` gives a level that no port is below: that of one of the ports, with this port's name,
-- or 2 with the name that the caller passed.
pub choose_port_lem :
    (ports : List PortState) (p : PortState)
    → let r = choose_port ports p in
      IsLowest r ports × (((r.dev_name ≡ p.dev_name) × (r.trap_level ≡ 2)) ⊎ IsAmong r ports)
unfolding choose_port
choose_port_lem ports p =
    let (a, b, c) = choose_from_lem (record p { trap_level = 2 }) ports in (b, c)
