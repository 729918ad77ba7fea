-- ===== src/Acp/Announce/First.antt =====
-- `AcpInterface::registrar_announce` of src/acp_interface.rs on floods whose first objective is
-- understood.
use rooster.Base.{
  ℕ, true, ◌≡◌, ◌≢◌, refl, List, ◌∷◌, none, arith, equality_list, equality_nat, list_beq_iff,
}
use rooster.Net.{Ipv6Addr}
use rooster.Grasp.{GraspObjective, GraspMessage, m_flood}
use rooster.Acp.{
  RegistrarType, Millis, Heard, heard, hearing, add_registrar, announce, registrar_announce,
  announce_objectives, is_flood,
}
use rooster.Acp.Ports.{Kind, http, coap, stateless, kind, kind_eq, port_of, port_of-add_registrar}
use rooster.Acp.Announce.{announce_objectives-keeps}

-- The flag is set, and the address has a port for the kind.
abbrev pub IsHeard : RegistrarType → Ipv6Addr → Heard → Type 0
IsHeard rt b s = (s.1 ≡ true) × (port_of (kind rt) b s.0.registrars ≢ none)

kind_eq-same : (k : Kind) → kind_eq k k ≡ true
kind_eq-same http = refl
kind_eq-same coap = refl
kind_eq-same stateless = refl

add-IsHeard :
    (rt : RegistrarType) (b : Ipv6Addr) (ttl now : Millis) (s : Heard)
    → IsHeard rt b (add_registrar rt b ttl now s.0, true)
add-IsHeard rt b ttl now s = (
  refl,
  ground (
    arith,
    port_of-add_registrar (kind rt) b rt b ttl now s.0,
    list_beq_iff b b,
    kind_eq-same (kind rt),
  ),
)

-- The registrar that the first objective announces is known after the flood, whatever the others
-- say, and the flag is set.
pub announce-IsHeard :
    (clock : ℕ → Millis) (msg : GraspMessage) (s : Heard) (o : GraspObjective)
    (os : List GraspObjective) (rt : RegistrarType) (b : Ipv6Addr)
    → msg.mtype ≡ m_flood
    → msg.objectives ≡ o ∷ os
    → hearing o ≡ heard rt b
    → IsHeard rt b (announce clock msg s)
unfolding announce registrar_announce announce_objectives is_flood
announce-IsHeard clock msg s o os rt b floods listed says =
    rw (floods, listed)
      (rw (says, announce_objectives)
        (announce_objectives-keeps (IsHeard rt b)
          (λ rt' b' ttl now t known.
            (refl, ground (arith, port_of-add_registrar (kind rt) b rt' b' ttl now t.0, known.1)))
          clock msg.ttl 2 os (add_registrar rt b msg.ttl (clock 1) s.0, true)
          (add-IsHeard rt b msg.ttl (clock 1) s)))
