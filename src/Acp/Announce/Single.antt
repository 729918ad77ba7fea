-- ===== src/Acp/Announce/Single.antt =====
-- `AcpInterface::registrar_announce` of src/acp_interface.rs on floods with one objective, or none.
use rooster.Base.{
  ℕ, ◌≡◌, refl, [], ◌∷◌, some, arith, ◌∙◌, equality_string, equality_list, equality_nat,
  list_beq_iff,
}
use rooster.Net.{Ipv6Addr}
use rooster.Grasp.{GraspObjective, GraspMessage, ipv6_locator, m_flood}
use rooster.Acp.{
  http_registrar, Millis, Heard, heard, hearing, announced, announced_type, announce,
  registrar_announce, announce_objectives, is_flood,
}
use rooster.Acp.Ports.{http, port_of}
use rooster.Acp.Announce.{announce_ports, last_heard}

hearing-http :
    (o : GraspObjective) {a : Ipv6Addr} {proto p : ℕ}
    → o.objective_value ≡ some ""
    → o.locator ≡ some (ipv6_locator a proto p)
    → hearing o ≡ heard (http_registrar p) a
unfolding hearing announced announced_type
hearing-http o value locator = rw (locator, value) refl

-- A flood whose objective has an empty value sets the HTTP port of its address.
pub announce-http :
    (clock : ℕ → Millis) (msg : GraspMessage) (s : Heard) (o : GraspObjective) {a : Ipv6Addr}
    {proto p : ℕ}
    → msg.mtype ≡ m_flood
    → msg.objectives ≡ o ∷ []
    → o.objective_value ≡ some ""
    → o.locator ≡ some (ipv6_locator a proto p)
    → port_of http a (announce clock msg s).0.registrars ≡ some p
unfolding announce is_flood registrar_announce last_heard
announce-http clock msg s o {a} {proto} {p} flood only value locator =
    let e = hearing-http o value locator in
    rw (flood, only)
      (announce_ports clock msg.ttl 1 (o ∷ []) s http a
        ∙ rw (e, last_heard) (ground (arith, list_beq_iff a a)))

-- A flood without objectives changes nothing.
pub announce-empty :
    (clock : ℕ → Millis) (msg : GraspMessage) (s : Heard)
    → msg.mtype ≡ m_flood
    → msg.objectives ≡ []
    → announce clock msg s ≡ s
unfolding announce is_flood registrar_announce announce_objectives
announce-empty clock msg s flood nothing = rw (flood, nothing) refl
