-- ===== src/Acp/Dump.antt =====
-- `AcpInterface::dump_registrar_list` of src/acp_interface.rs: the table, as lines of debug output.
pub mod Lines
pub mod Lists
use rooster.Base.{
  ℕ, String, Bool, true, false, ◌≡◌, ◌≢◌, ◌↔◌, ◌⊎◌, inl, inr, refl, sym, ap, ◌∙◌, subst, List, [],
  ◌∷◌, ◌++◌, Option, none, some, In, arith, Bool-cases, if◌then◌else◌, ◌==◌, equality_string,
}
use rooster.Net.{IpAddr, v6, Ipv6Addr, is_v6, is_v6_iff}
use rooster.Args.{RoosterOptions}
use rooster.Debug.{
  Piece, text, number, address, Line, DebugOptions, debug_registrars, debug_options_of,
  debug_options-registrars,
}
use rooster.Acp.{
  RegistrarType, http_registrar, coap_registrar, stateless_coap_registrar, Registrar, AcpInterface,
}
use rooster.Acp.Ports.{
  Kind, http, coap, stateless, kind, port, kind_eq, kind_eq_iff, port_among, port_of,
}
use rooster.Acp.Table.{IsAbsent, IsFresh, AreDistinct, AreRegistrars, IsTable}
use rooster.Acp.Availability.{absent-port, v6_form}

module _ (o : DebugOptions) where
  -- The line for one kind of registrar at an address; the counter is never moved on.
  pub dump_rtype : IpAddr → RegistrarType → List Line
  dump_rtype addr (http_registrar tcp_port) = debug_registrars o (
      text "  "
      ∷ number 1
      ∷ text " announced from ["
      ∷ address addr
      ∷ text "]:"
      ∷ number tcp_port
      ∷ text " proto HTTP"
      ∷ [])
  dump_rtype addr (coap_registrar udp_port) = debug_registrars o (
      text "  "
      ∷ number 1
      ∷ text " announced from ["
      ∷ address addr
      ∷ text "]:"
      ∷ number udp_port
      ∷ text " proto CoAP"
      ∷ [])
  dump_rtype addr (stateless_coap_registrar udp_port) = debug_registrars o (
      text "  "
      ∷ number 1
      ∷ text " announced from ["
      ∷ address addr
      ∷ text "]:"
      ∷ number udp_port
      ∷ text " proto StatelessCoAP"
      ∷ [])

  pub dump_rtypes : IpAddr → List RegistrarType → List Line
  unfolding dump_rtype
  dump_rtypes addr [] = []
  dump_rtypes addr (rt ∷ rts) = dump_rtype addr rt ++ dump_rtypes addr rts

  pub dump_registrars : List Registrar → List Line
  unfolding dump_rtypes
  dump_registrars [] = []
  dump_registrars (r ∷ rs) = dump_rtypes r.addr r.rtypes ++ dump_registrars rs

  pub dump_registrar_list : AcpInterface → List Line
  unfolding dump_registrars
  dump_registrar_list acp =
      debug_registrars o (text "List of registrars:" ∷ []) ++ dump_registrars acp.registrars

abbrev pub proto_name : Kind → String
proto_name http = " proto HTTP"
proto_name coap = " proto CoAP"
proto_name stateless = " proto StatelessCoAP"

-- The line that says that an address has a registrar of the kind at the port.
abbrev pub registrar_line : Kind → Ipv6Addr → ℕ → Line
registrar_line k a p = record {
  tag = "R: ";
  message =
      text "  "
      ∷ number 1
      ∷ text " announced from ["
      ∷ address (v6 a)
      ∷ text "]:"
      ∷ number p
      ∷ text (proto_name k)
      ∷ [];
}
