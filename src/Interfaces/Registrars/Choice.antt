-- ===== src/Interfaces/Registrars/Choice.antt =====
-- The registrar that src/interfaces.rs picks for a pledge, and the availability that it announces.
use rooster.Base.{
  In, subst, ℕ, true, ◌||◌, ◌≡◌, ◌≢◌, ◌↔◌, ◌⊎◌, inl, inr, refl, List, [], ◌∷◌, Option, none, some,
  arith,
}
use rooster.Net.{Ipv6Addr, is_v6_iff, IpAddr, v6, SocketAddr}
use rooster.Acp.{
  RegistrarType, http_registrar, coap_registrar, stateless_coap_registrar, Registrar, Available,
  none_available,
}
use rooster.Acp.Ports.{Kind, http, coap, stateless, port_of, port_among}
use rooster.Acp.Table.{AreRegistrars, IsTable}
use rooster.Acp.Availability.{
  v6_form, absent-port, available, offers, lists_kind, calculate-available,
}
use rooster.Interface.{Ref, World, Map}
use rooster.Interfaces.{cell}
use rooster.Interfaces.Registrars.{
  acp, interface_available, or_available, available_among, sockaddr_from_addr, pick_type, or_next,
  pick_registrar, pick_daemon, daemon_available, pick_among, InMap, YieldsValues,
  calculate_available_registrars, pick_available_https_registrar,
}

pick_type-lists :
    (a : IpAddr) (rts : List RegistrarType)
    → (pick_type a rts ≢ none) ↔ (lists_kind http rts ≡ true)
unfolding pick_type lists_kind
pick_type-lists a [] = ground arith
pick_type-lists a (http_registrar p ∷ rts) = ground arith
pick_type-lists a (coap_registrar p ∷ rts) = ground (arith, pick_type-lists a rts)
pick_type-lists a (stateless_coap_registrar p ∷ rts) = ground (arith, pick_type-lists a rts)

pick_registrar-offers :
    (regs : List Registrar) → (pick_registrar regs ≢ none) ↔ (offers http regs ≡ true)
unfolding pick_registrar offers
pick_registrar-offers [] = ground arith
pick_registrar-offers (r ∷ rs) =
    ground (arith, pick_type-lists r.addr r.rtypes, pick_registrar-offers rs)

pick_daemon-available :
    (w : World) (d : Option Ref)
    → (pick_daemon w d ≢ none) ↔ (available http (daemon_available w d) ≡ true)
unfolding pick_daemon daemon_available
pick_daemon-available w none = ground arith
pick_daemon-available w (some a) =
    ground (arith, pick_registrar-offers (acp w a).registrars, calculate-available http (acp w a))

pub or_available-available :
    (k : Kind) (x y : Available) → available k (or_available x y) ≡ (available k x || available k y)
unfolding or_available
or_available-available http x y = refl
or_available-available coap x y = refl
or_available-available stateless x y = refl

pick_among-available :
    (w : World) (av : Available) (rs : List Ref)
    → ((available http av ≡ true) ⊎ (pick_among w rs ≢ none))
      ↔ (available http (available_among w av rs) ≡ true)
unfolding pick_among available_among
pick_among-available w av [] = ground arith
pick_among-available w av (r ∷ rs) = ground (
  arith,
  pick_among-available w (or_available av (interface_available w (cell w r))) rs,
  pick_daemon-available w (cell w r).acp_daemon,
  or_available-available http av (interface_available w (cell w r)),
)

-- A pledge gets a registrar exactly when an HTTP registrar is reported as available.
pub pick_available_iff :
    (values : Map → List Ref) (w : World)
    → (pick_available_https_registrar values w ≢ none)
      ↔ (available http (calculate_available_registrars values w) ≡ true)
unfolding pick_available_https_registrar calculate_available_registrars
pick_available_iff values w =
    ground (arith, pick_among-available w none_available (values w.all.acp_interfaces))

pick_type-port :
    (a : IpAddr) (rts : List RegistrarType)
    → (pick_type a rts ≡ none)
      ⊎ ((p : ℕ) × (pick_type a rts ≡ some (sockaddr_from_addr a p))
          × (port_among http rts ≡ some p))
unfolding pick_type port_among
pick_type-port a [] = inl refl
pick_type-port a (http_registrar p ∷ rts) = inr (p, refl, refl)
pick_type-port a (coap_registrar p ∷ rts) = pick_type-port a rts
pick_type-port a (stateless_coap_registrar p ∷ rts) = pick_type-port a rts

abbrev at_v6 : Ipv6Addr → ℕ → SocketAddr
at_v6 a p = record { ip = v6 a; port = p }

pick_registrar-port :
    (regs : List Registrar)
    → AreRegistrars regs
    → (pick_registrar regs ≡ none)
      ⊎ ((a : Ipv6Addr) × (p : ℕ) × (pick_registrar regs ≡ some (at_v6 a p))
          × (port_of http a regs ≡ some p))
unfolding pick_registrar port_of sockaddr_from_addr
pick_registrar-port [] h = inl refl
pick_registrar-port (r ∷ rs) h =
    let (b, eb) = v6_form r.addr h.0 in
    elim (pick_type-port r.addr r.rtypes) [
      | inr (p, picked, found) ↦
          inr (b, p, rw (picked, eb) refl, ground (arith, is_v6_iff r.addr b))
      | inl nothing ↦ elim (pick_registrar-port rs h.4) [
        | inl none_left ↦ inl (rw nothing none_left)
        | inr (a, p, picked, found) ↦
            inr (a, p, rw nothing picked, ground (arith, is_v6_iff r.addr a, absent-port http a rs))
      ]
    ]

-- Every table of the world is well formed.
abbrev pub AreTables : World → Type 0
AreTables w = (a : Ref) → IsTable (acp w a)

-- The interface behind `r` has a daemon whose table has the HTTP registrar at `s`.
pub record Knows (w : World) (r : Ref) (s : SocketAddr) : Type 0 where
  pub daemon : Ref
  pub addr : Ipv6Addr
  pub port : ℕ
  pub has_daemon : (cell w r).acp_daemon ≡ some daemon
  pub picked : s ≡ at_v6 addr port
  pub found : port_of http addr (acp w daemon).registrars ≡ some port

pick_daemon-Knows :
    (w : World) (r : Ref) (d : Option Ref)
    → (cell w r).acp_daemon ≡ d
    → AreTables w
    → (pick_daemon w d ≡ none) ⊎ ((s : SocketAddr) × (pick_daemon w d ≡ some s) × Knows w r s)
unfolding pick_daemon
pick_daemon-Knows w r none e tables = inl refl
pick_daemon-Knows w r (some a) e tables =
    elim (pick_registrar-port (acp w a).registrars (tables a).registrars_fit) [
      | inl nothing ↦ inl nothing
      | inr (addr, port, picked, found) ↦ inr (
        at_v6 addr port,
        picked,
        record {
          daemon = a;
          addr = addr;
          port = port;
          has_daemon = e;
          picked = refl;
          found = found;
        },
      )
    ]

pick_among-Knows :
    (w : World) (rs : List Ref) (s : SocketAddr)
    → AreTables w
    → pick_among w rs ≡ some s
    → (r : Ref) × In r rs × Knows w r s
unfolding pick_among
pick_among-Knows w [] s tables e = cc
pick_among-Knows w (r ∷ rs) s tables e =
    elim (pick_daemon-Knows w r (cell w r).acp_daemon refl tables) [
      | inl nothing ↦
          let (r', i, known) = pick_among-Knows w rs s tables (rw (nothing, or_next) at e) in
          (r', inr i, known)
      | inr (t, picked, known) ↦
          let same : t ≡ s = ground arith in (r, inl refl, subst (Knows w r) same known)
    ]

-- With well-formed tables, the registrar that is picked is one that the daemon of some ACP
-- interface has in its table, at the port that the table holds for HTTP, in whatever order the map
-- yields the interfaces.
pub pick_registrar-known :
    (values : Map → List Ref) (w : World) (s : SocketAddr)
    → YieldsValues values
    → AreTables w
    → pick_available_https_registrar values w ≡ some s
    → (r : Ref) × InMap r w.all.acp_interfaces × Knows w r s
unfolding pick_available_https_registrar
pick_registrar-known values w s yields tables e =
    let (r, i, known) = pick_among-Knows w (values w.all.acp_interfaces) s tables e in
    (r, (yields w.all.acp_interfaces r).0 i, known)
