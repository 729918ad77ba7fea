-- ===== src/Acp/Ports.antt =====
-- The registrar table of src/acp_interface.rs as a map from kind and address to a port.
use rooster.Base.{
  ℕ, Bool, true, false, ◌≡◌, refl, List, [], ◌∷◌, ◌++◌, Option, none, some, ◌==◌, arith,
  if◌then◌else◌, ◌&&◌, ◌⊎◌, inr, equality_list, equality_nat, list_beq_iff,
}
use rooster.Net.{Ipv6Addr, is_v6, is_v6_iff}
use rooster.Acp.{
  RegistrarType, http_registrar, coap_registrar, stateless_coap_registrar, Registrar, AcpInterface,
  same_discriminant, replace_rtypes, update_rtypes, add_to_registrars, add_registrar, Millis,
}

abbrev pub port : RegistrarType → ℕ
port (http_registrar p) = p
port (coap_registrar p) = p
port (stateless_coap_registrar p) = p

pub data Kind : Type 0 where
  http coap stateless : Kind

abbrev pub kind : RegistrarType → Kind
kind (http_registrar _) = http
kind (coap_registrar _) = coap
kind (stateless_coap_registrar _) = stateless

abbrev pub kind_eq : Kind → Kind → Bool
kind_eq http http = true
kind_eq coap coap = true
kind_eq stateless stateless = true
kind_eq _ _ = false

unfoldable pub port_among : Kind → List RegistrarType → Option ℕ
port_among k [] = none
port_among k (rt ∷ rts) = if kind_eq (kind rt) k then some (port rt) else port_among k rts

unfoldable pub port_of : Kind → Ipv6Addr → List Registrar → Option ℕ
port_of k a [] = none
port_of k a (r ∷ rs) = if is_v6 r.addr a then port_among k r.rtypes else port_of k a rs

pub same_discriminant-kind :
    (a b : RegistrarType) → same_discriminant a b ≡ kind_eq (kind a) (kind b)
unfolding same_discriminant
same_discriminant-kind (http_registrar _) (http_registrar _) = refl
same_discriminant-kind (http_registrar _) (coap_registrar _) = refl
same_discriminant-kind (http_registrar _) (stateless_coap_registrar _) = refl
same_discriminant-kind (coap_registrar _) (http_registrar _) = refl
same_discriminant-kind (coap_registrar _) (coap_registrar _) = refl
same_discriminant-kind (coap_registrar _) (stateless_coap_registrar _) = refl
same_discriminant-kind (stateless_coap_registrar _) (http_registrar _) = refl
same_discriminant-kind (stateless_coap_registrar _) (coap_registrar _) = refl
same_discriminant-kind (stateless_coap_registrar _) (stateless_coap_registrar _) = refl

pub kind_eq_iff : (a b : Kind) → kind_eq a b ≡ true → a ≡ b
kind_eq_iff a b h = ground arith

port_among-append :
    (k : Kind) (rts : List RegistrarType) (rt : RegistrarType)
    → port_among k (rts ++ (rt ∷ [])) ≡ (elim (port_among k rts) [
      | some p ↦ some p
      | none ↦ if kind_eq (kind rt) k then some (port rt) else none
    ])
unfolding port_among
port_among-append k [] rt = ground arith
port_among-append k (x ∷ rts) rt = ground (arith, port_among-append k rts rt)

replace-found :
    (rt : RegistrarType) (rts : List RegistrarType)
    → (((replace_rtypes rt rts).1 ≡ true)
        × (port_among (kind rt) (replace_rtypes rt rts).0 ≡ some (port rt)))
      ⊎ (((replace_rtypes rt rts).1 ≡ false)
          × (port_among (kind rt) (replace_rtypes rt rts).0 ≡ none))
unfolding replace_rtypes port_among
replace-found rt [] = inr (refl, refl)
replace-found rt (x ∷ rts) = ground (arith, same_discriminant-kind x rt, replace-found rt rts)

replace_other :
    (rt : RegistrarType) (rts : List RegistrarType) (k : Kind)
    → kind_eq (kind rt) k ≡ false
    → port_among k (replace_rtypes rt rts).0 ≡ port_among k rts
unfolding replace_rtypes port_among
replace_other rt [] k h = refl
replace_other rt (x ∷ rts) k h =
    ground
      (arith, same_discriminant-kind x rt, kind_eq_iff (kind x) (kind rt), replace_other rt rts k h)

pub port_among-update :
    (k : Kind) (rt : RegistrarType) (rts : List RegistrarType)
    → port_among k (update_rtypes rt rts)
      ≡ (if kind_eq (kind rt) k then some (port rt) else port_among k rts)
unfolding update_rtypes
port_among-update k rt rts = ground (
  arith,
  replace-found rt rts,
  replace_other rt rts k,
  port_among-append k (replace_rtypes rt rts).0 rt,
  kind_eq_iff (kind rt) k,
)

port_of-add_to :
    (k : Kind) (a : Ipv6Addr) (rt : RegistrarType) (b : Ipv6Addr) (ttl now : Millis)
    (rs : List Registrar)
    → port_of k a (add_to_registrars rt b ttl now rs)
      ≡ (if b == a && kind_eq (kind rt) k then some (port rt) else port_of k a rs)
unfolding add_to_registrars port_of port_among
port_of-add_to k a rt b ttl now [] = ground arith
port_of-add_to k a rt b ttl now (r ∷ rs) = ground (
  arith,
  port_of-add_to k a rt b ttl now rs,
  port_among-update k rt r.rtypes,
  is_v6_iff r.addr a,
  is_v6_iff r.addr b,
  list_beq_iff b a,
)

-- An announcement sets the port of its kind at its address, and leaves every other entry alone.
pub port_of-add_registrar :
    (k : Kind) (a : Ipv6Addr) (rt : RegistrarType) (b : Ipv6Addr) (ttl now : Millis)
    (acp : AcpInterface)
    → port_of k a (add_registrar rt b ttl now acp).registrars
      ≡ (if b == a && kind_eq (kind rt) k then some (port rt) else port_of k a acp.registrars)
unfolding add_registrar
port_of-add_registrar k a rt b ttl now acp = port_of-add_to k a rt b ttl now acp.registrars
