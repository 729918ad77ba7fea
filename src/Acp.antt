-- ===== src/Acp.antt =====
-- src/acp_interface.rs: the registrars that an ACP interface has heard of. Debug output is left out.
-- The flag `invalidate`, which is shared by all interfaces, is passed beside the table.
pub mod Ports
pub mod Table
pub mod Availability
pub mod Announce
pub mod Daemon
pub mod Sources
pub mod Objective
pub mod Socket
pub mod Dump
pub mod Sample
mod Tests
use rooster.Base.{
  ℕ, suc, String, Bool, true, false, ◌||◌, List, [], ◌∷◌, ◌++◌, Option, none, some, ◌==◌,
  equality_string, if◌then◌else◌,
}
use rooster.Net.{IpAddr, v6, Ipv6Addr, is_v6}
use rooster.Grasp.{
  GraspLocator, ipv6_locator, GraspObjective, GraspMessage, GraspMessageType, m_flood,
}

pub data RegistrarType : Type 0 where
  http_registrar : ℕ → RegistrarType
  coap_registrar : ℕ → RegistrarType
  stateless_coap_registrar : ℕ → RegistrarType

-- `SystemTime` and `Duration`, in milliseconds.
abbrev pub Millis : Type 0
Millis = ℕ

pub record Registrar : Type 0 where
  pub rtypes : List RegistrarType
  pub addr : IpAddr
  pub last_announce : Millis
  pub ttl : Millis

pub record AcpInterface : Type 0 where
  pub registrars : List Registrar

-- `AcpInterface::default`.
abbrev pub empty_acp : AcpInterface
empty_acp = record { registrars = [] }

-- The availability of HTTP, stateful and stateless CoAP registrars.
pub record Available : Type 0 where
  pub http_avail : Bool
  pub stateful_avail : Bool
  pub stateless_avail : Bool

abbrev pub none_available : Available
none_available = record { http_avail = false; stateful_avail = false; stateless_avail = false }

unfoldable pub note_rtype : Available → RegistrarType → Available
note_rtype av (http_registrar _) = record av { http_avail = true }
note_rtype av (coap_registrar _) = record av { stateful_avail = true }
note_rtype av (stateless_coap_registrar _) = record av { stateless_avail = true }

unfoldable pub note_rtypes : Available → List RegistrarType → Available
note_rtypes av [] = av
note_rtypes av (rt ∷ rts) = note_rtypes (note_rtype av rt) rts

unfoldable pub note_registrars : Available → List Registrar → Available
note_registrars av [] = av
note_registrars av (reg ∷ regs) = note_registrars (note_rtypes av reg.rtypes) regs

unfoldable pub calculate_available_registrar : AcpInterface → Available
unfolding note_registrars
calculate_available_registrar acp = note_registrars none_available acp.registrars

-- `mem::discriminant(a) == mem::discriminant(b)`.
unfoldable pub same_discriminant : RegistrarType → RegistrarType → Bool
same_discriminant (http_registrar _) (http_registrar _) = true
same_discriminant (coap_registrar _) (coap_registrar _) = true
same_discriminant (stateless_coap_registrar _) (stateless_coap_registrar _) = true
same_discriminant _ _ = false

-- The loop that overwrites every entry of the announced kind, and says whether there was one.
unfoldable pub replace_rtypes : RegistrarType → List RegistrarType → List RegistrarType × Bool
replace_rtypes rtype [] = ([], false)
replace_rtypes rtype (rt ∷ rts) =
    let (rts', found) = replace_rtypes rtype rts in
    if same_discriminant rt rtype then (rtype ∷ rts', true) else (rt ∷ rts', found)

unfoldable pub update_rtypes : RegistrarType → List RegistrarType → List RegistrarType
update_rtypes rtype rts =
    let (rts', found) = replace_rtypes rtype rts in if found then rts' else rts' ++ (rtype ∷ [])

-- The first registrar with the address is updated in place; if there is none, one is pushed.
unfoldable pub add_to_registrars :
    RegistrarType → Ipv6Addr → Millis → Millis → List Registrar → List Registrar
add_to_registrars rtype v6addr ttl now [] =
    record { rtypes = rtype ∷ []; addr = v6 v6addr; last_announce = now; ttl = ttl } ∷ []
add_to_registrars rtype v6addr ttl now (r ∷ rs) =
    if is_v6 r.addr v6addr
    then record r { rtypes = update_rtypes rtype r.rtypes; last_announce = now; ttl = ttl } ∷ rs
    else r ∷ add_to_registrars rtype v6addr ttl now rs

unfoldable pub add_registrar :
    RegistrarType → Ipv6Addr → Millis → Millis → AcpInterface → AcpInterface
unfolding add_to_registrars
add_registrar rtype v6addr ttl now acp = record acp {
  registrars = add_to_registrars rtype v6addr ttl now acp.registrars;
}

-- The protocol that an objective's value stands for, with the port of its locator.
unfoldable pub announced_type : Option String → ℕ → Option RegistrarType
announced_type none port = none
announced_type (some value) port =
    if value == "" || value == "BRSKI"
    then some (http_registrar port)
    else if value == "BRSKI_JP"
    then some (coap_registrar port)
    else if value == "BRSKI_RJP"
    then some (stateless_coap_registrar port)
    else none

-- Only IPv6 locators are understood.
unfoldable pub announced : GraspLocator → Option String → Option (RegistrarType × Ipv6Addr)
announced (ipv6_locator v6addr _ port) value = elim (announced_type value port) [
  | none ↦ none
  | some rtype ↦ some (rtype, v6addr)
]
announced _ _ = none

-- The table, and the shared flag.
abbrev pub Heard : Type 0
Heard = AcpInterface × Bool

-- What an objective says: nothing, for want of a locator; something that is not understood; or that
-- there is a registrar.
pub data Hearing : Type 0 where
  no_locator : Hearing
  not_understood : Hearing
  heard : RegistrarType → Ipv6Addr → Hearing

unfoldable pub hearing : GraspObjective → Hearing
hearing o = elim o.locator [
  | none ↦ no_locator
  | some locator ↦ elim (announced locator o.objective_value) [
    | none ↦ not_understood
    | some (rtype, v6addr) ↦ heard rtype v6addr
  ]
]

-- The loop over the objectives, which returns at the first that is not understood. The clock is
-- read once for each objective.
unfoldable pub announce_objectives : (ℕ → Millis) → Millis → ℕ → List GraspObjective → Heard → Heard
announce_objectives clock ttl objcnt [] s = s
announce_objectives clock ttl objcnt (o ∷ os) s = elim (hearing o) [
  | no_locator ↦ announce_objectives clock ttl (suc objcnt) os s
  | not_understood ↦ s
  | heard rtype v6addr ↦
      announce_objectives clock ttl (suc objcnt) os
        (add_registrar rtype v6addr ttl (clock objcnt) s.0, true)
]

unfoldable pub registrar_announce : (ℕ → Millis) → GraspMessage → Heard → Heard
registrar_announce clock msg s = announce_objectives clock msg.ttl 1 msg.objectives s

unfoldable pub is_flood : GraspMessageType → Bool
is_flood m_flood = true
is_flood _ = false

unfoldable pub announce : (ℕ → Millis) → GraspMessage → Heard → Heard
announce clock msg s = if is_flood msg.mtype then registrar_announce clock msg s else s
