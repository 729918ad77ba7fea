-- ===== src/Acp/Availability.antt =====
-- The availability that src/acp_interface.rs reports, against the table of ports.
use rooster.Base.{
  ℕ, Bool, true, false, ◌||◌, ◌≡◌, ◌↔◌, ◌⊎◌, inl, inr, refl, List, [], ◌∷◌, none, some, arith,
  Bool-cases, equality_list, equality_nat,
}
use rooster.Net.{IpAddr, v4, v6, Ipv6Addr, is_v6_iff}
use rooster.Acp.{
  RegistrarType, http_registrar, Registrar, AcpInterface, Available, none_available, note_rtype,
  note_rtypes, note_registrars, calculate_available_registrar, empty_acp,
}
use rooster.Acp.Ports.{Kind, http, coap, stateless, kind, kind_eq, port, port_among, port_of}
use rooster.Acp.Table.{AreRegistrars, IsTable, IsAbsent, IsIpv6Address}

-- The field of a kind.
abbrev pub available : Kind → Available → Bool
available http av = av.http_avail
available coap av = av.stateful_avail
available stateless av = av.stateless_avail

unfoldable pub lists_kind : Kind → List RegistrarType → Bool
lists_kind k [] = false
lists_kind k (rt ∷ rts) = kind_eq (kind rt) k || lists_kind k rts

-- Some registrar of the table serves the kind.
unfoldable pub offers : Kind → List Registrar → Bool
offers k [] = false
offers k (r ∷ rs) = lists_kind k r.rtypes || offers k rs

note_rtype-available :
    (k : Kind) (av : Available) (rt : RegistrarType)
    → available k (note_rtype av rt) ≡ (available k av || kind_eq (kind rt) k)
unfolding note_rtype
note_rtype-available http av (http_registrar p) = ground arith
note_rtype-available k av rt = ground arith

note_rtypes-available :
    (k : Kind) (av : Available) (rts : List RegistrarType)
    → available k (note_rtypes av rts) ≡ (available k av || lists_kind k rts)
unfolding note_rtypes lists_kind
note_rtypes-available k av [] = ground arith
note_rtypes-available k av (rt ∷ rts) =
    ground (arith, note_rtypes-available k (note_rtype av rt) rts, note_rtype-available k av rt)

pub note_registrars-available :
    (k : Kind) (av : Available) (rs : List Registrar)
    → available k (note_registrars av rs) ≡ (available k av || offers k rs)
unfolding note_registrars offers
note_registrars-available k av [] = ground arith
note_registrars-available k av (r ∷ rs) = ground (
  arith,
  note_registrars-available k (note_rtypes av r.rtypes) rs,
  note_rtypes-available k av r.rtypes,
)

pub available-none : (k : Kind) → available k none_available ≡ false
available-none http = refl
available-none _ = refl

pub calculate-available :
    (k : Kind) (acp : AcpInterface)
    → available k (calculate_available_registrar acp) ≡ offers k acp.registrars
unfolding calculate_available_registrar
calculate-available k acp =
    ground (arith, note_registrars-available k none_available acp.registrars, available-none k)

lists_kind-port :
    (k : Kind) (rts : List RegistrarType)
    → ((lists_kind k rts ≡ true) × ((p : ℕ) × (port_among k rts ≡ some p)))
      ⊎ ((lists_kind k rts ≡ false) × (port_among k rts ≡ none))
unfolding lists_kind port_among
lists_kind-port k [] = inr (refl, refl)
lists_kind-port k (rt ∷ rts) = elim (Bool-cases (kind_eq (kind rt) k)) [
  | inl e ↦ rw e (inl (refl, (port rt, refl)))
  | inr e ↦ rw e (lists_kind-port k rts)
]

pub absent-port :
    (k : Kind) (a : Ipv6Addr) (rs : List Registrar) → IsAbsent (v6 a) rs → port_of k a rs ≡ none
unfolding port_of
absent-port k a [] h = refl
absent-port k a (r ∷ rs) h = ground (arith, is_v6_iff r.addr a, absent-port k a rs h.1)

pub v6_form : (a : IpAddr) → IsIpv6Address a → (b : Ipv6Addr) × (a ≡ v6 b)
v6_form (v6 b) h = (b, refl)
v6_form (v4 b) h = absurd h

offered-port :
    (k : Kind) (rs : List Registrar)
    → AreRegistrars rs
    → offers k rs ≡ true
    → (a : Ipv6Addr) × (p : ℕ) × (port_of k a rs ≡ some p)
unfolding offers port_of
offered-port k [] h e = cc
offered-port k (r ∷ rs) h e = elim (lists_kind-port k r.rtypes) [
  | inl (_, (p, ep)) ↦
      let (b, eb) = v6_form r.addr h.0 in (b, p, ground (arith, is_v6_iff r.addr b))
  | inr (no_kind, _) ↦
      let (a, p, ep) = offered-port k rs h.4 (ground arith) in
      (a, p, ground (arith, is_v6_iff r.addr a, absent-port k a rs))
]

port-offered :
    (k : Kind) (a : Ipv6Addr) (p : ℕ) (rs : List Registrar)
    → port_of k a rs ≡ some p
    → offers k rs ≡ true
unfolding offers port_of
port-offered k a p [] e = cc
port-offered k a p (r ∷ rs) e = ground (arith, lists_kind-port k r.rtypes, port-offered k a p rs)

-- In a well-formed table, a kind is reported available exactly when some address has a port for it.
pub calculate_available_iff :
    (k : Kind) (acp : AcpInterface)
    → IsTable acp
    → (available k (calculate_available_registrar acp) ≡ true)
      ↔ ((a : Ipv6Addr) × (p : ℕ) × (port_of k a acp.registrars ≡ some p))
calculate_available_iff k acp h = rw (calculate-available k acp) (
  offered-port k acp.registrars h.registrars_fit,
  (λ w. port-offered k w.0 w.1 acp.registrars w.2),
)

pub calculate-empty : calculate_available_registrar empty_acp ≡ none_available
unfolding calculate_available_registrar note_registrars
calculate-empty = refl
