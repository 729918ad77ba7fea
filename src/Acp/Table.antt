-- ===== src/Acp/Table.antt =====
-- The invariant of the registrar table of src/acp_interface.rs.
use rooster.Base.{false, ◌≡◌, ◌≢◌, List, [], ◌∷◌, ◌++◌, arith}
use rooster.Net.{IpAddr, v4, v6, Ipv6Addr, is_v6_iff}
use rooster.Acp.{
  RegistrarType, Registrar, AcpInterface, Millis, replace_rtypes, update_rtypes, add_to_registrars,
  add_registrar, empty_acp,
}
use rooster.Acp.Ports.{Kind, kind, kind_eq, kind_eq_iff, same_discriminant-kind}

abbrev pub IsFresh : Kind → List RegistrarType → Type 0
IsFresh k [] = Unit
IsFresh k (rt ∷ rts) = (kind_eq (kind rt) k ≡ false) × IsFresh k rts

-- No kind of registrar is listed twice.
abbrev pub AreDistinct : List RegistrarType → Type 0
AreDistinct [] = Unit
AreDistinct (rt ∷ rts) = IsFresh (kind rt) rts × AreDistinct rts

abbrev pub IsAbsent : IpAddr → List Registrar → Type 0
IsAbsent a [] = Unit
IsAbsent a (r ∷ rs) = (r.addr ≢ a) × IsAbsent a rs

abbrev pub IsIpv6Address : IpAddr → Type 0
IsIpv6Address (v6 _) = Unit
IsIpv6Address (v4 _) = ⊥

-- Every address is an IPv6 address and stands in one entry only; an entry lists at least one kind,
-- and each kind once.
abbrev pub AreRegistrars : List Registrar → Type 0
AreRegistrars [] = Unit
AreRegistrars (r ∷ rs) =
    IsIpv6Address r.addr
    × AreDistinct r.rtypes
    × (r.rtypes ≢ [])
    × IsAbsent r.addr rs
    × AreRegistrars rs

pub record IsTable (acp : AcpInterface) : Type 0 where
  pub registrars_fit : AreRegistrars acp.registrars

replace-IsFresh :
    (k : Kind) (rt : RegistrarType) (rts : List RegistrarType)
    → IsFresh k rts
    → IsFresh k (replace_rtypes rt rts).0
unfolding replace_rtypes
replace-IsFresh k rt [] h = tt
replace-IsFresh k rt (x ∷ rts) h = ground (
  arith,
  replace-IsFresh k rt rts h.1,
  same_discriminant-kind x rt,
  kind_eq_iff (kind x) (kind rt),
)

replace-AreDistinct :
    (rt : RegistrarType) (rts : List RegistrarType)
    → AreDistinct rts
    → AreDistinct (replace_rtypes rt rts).0
unfolding replace_rtypes
replace-AreDistinct rt [] h = tt
replace-AreDistinct rt (x ∷ rts) h = ground (
  arith,
  replace-AreDistinct rt rts h.1,
  replace-IsFresh (kind x) rt rts h.0,
  same_discriminant-kind x rt,
  kind_eq_iff (kind x) (kind rt),
)

-- If the loop found no entry of the kind, there is none.
replace_fresh :
    (rt : RegistrarType) (rts : List RegistrarType)
    → (replace_rtypes rt rts).1 ≡ false
    → IsFresh (kind rt) (replace_rtypes rt rts).0
unfolding replace_rtypes
replace_fresh rt [] h = tt
replace_fresh rt (x ∷ rts) h = ground (arith, replace_fresh rt rts, same_discriminant-kind x rt)

append-IsFresh :
    (k : Kind) (rts : List RegistrarType) (rt : RegistrarType)
    → IsFresh k rts
    → kind_eq (kind rt) k ≡ false
    → IsFresh k (rts ++ (rt ∷ []))
append-IsFresh k [] rt h e = (e, tt)
append-IsFresh k (x ∷ rts) rt h e = (h.0, append-IsFresh k rts rt h.1 e)

kind_eq_comm : (a b : Kind) → kind_eq a b ≡ kind_eq b a
kind_eq_comm a b = ground arith

append-AreDistinct :
    (rts : List RegistrarType) (rt : RegistrarType)
    → AreDistinct rts
    → IsFresh (kind rt) rts
    → AreDistinct (rts ++ (rt ∷ []))
append-AreDistinct [] rt h f = (tt, tt)
append-AreDistinct (x ∷ rts) rt h f = (
  append-IsFresh (kind x) rts rt h.0 (rw (kind_eq_comm (kind rt) (kind x)) f.0),
  append-AreDistinct rts rt h.1 f.1,
)

update-AreDistinct :
    (rt : RegistrarType) (rts : List RegistrarType)
    → AreDistinct rts
    → AreDistinct (update_rtypes rt rts)
unfolding update_rtypes
update-AreDistinct rt rts h = ground (
  arith,
  replace-AreDistinct rt rts h,
  replace_fresh rt rts,
  append-AreDistinct (replace_rtypes rt rts).0 rt,
)

update-ne-nil : (rt : RegistrarType) (rts : List RegistrarType) → update_rtypes rt rts ≢ []
unfolding update_rtypes replace_rtypes
update-ne-nil rt [] = λ e. cc
update-ne-nil rt (x ∷ rts) = λ e. ground arith

add-IsAbsent :
    (a : IpAddr) (rt : RegistrarType) (b : Ipv6Addr) (ttl now : Millis) (rs : List Registrar)
    → v6 b ≢ a
    → IsAbsent a rs
    → IsAbsent a (add_to_registrars rt b ttl now rs)
unfolding add_to_registrars
add-IsAbsent a rt b ttl now [] ne h = (ne, tt)
add-IsAbsent a rt b ttl now (r ∷ rs) ne h = ground (arith, add-IsAbsent a rt b ttl now rs ne h.1)

add-AreRegistrars :
    (rt : RegistrarType) (b : Ipv6Addr) (ttl now : Millis) (rs : List Registrar)
    → AreRegistrars rs
    → AreRegistrars (add_to_registrars rt b ttl now rs)
unfolding add_to_registrars
add-AreRegistrars rt b ttl now [] h = (tt, (tt, tt), (λ e. cc), tt, tt)
add-AreRegistrars rt b ttl now (r ∷ rs) h = ground (
  arith,
  add-AreRegistrars rt b ttl now rs,
  add-IsAbsent r.addr rt b ttl now rs,
  update-AreDistinct rt r.rtypes,
  update-ne-nil rt r.rtypes,
  is_v6_iff r.addr b,
)

pub empty-IsTable : IsTable empty_acp
empty-IsTable = record { registrars_fit = tt }

pub add_registrar-IsTable :
    (rt : RegistrarType) (b : Ipv6Addr) (ttl now : Millis) (acp : AcpInterface)
    → IsTable acp
    → IsTable (add_registrar rt b ttl now acp)
unfolding add_registrar
add_registrar-IsTable rt b ttl now acp h = record {
  registrars_fit = add-AreRegistrars rt b ttl now acp.registrars h.registrars_fit;
}
