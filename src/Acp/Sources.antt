-- ===== src/Acp/Sources.antt =====
-- Where the entries of the table of src/acp_interface.rs come from: of every announcement that is
-- kept, what held of it when it was heard.
use rooster.Base.{
  ℕ, suc, true, ◌≡◌, refl, sym, subst, List, [], ◌∷◌, All, All-imp, All-append, In, arith, inl, inr,
  Bool-cases,
}
use rooster.Net.{v6, Ipv6Addr, is_v6, is_v6_iff}
use rooster.Grasp.{GraspObjective, GraspMessage}
use rooster.Acp.{
  RegistrarType, Registrar, AcpInterface, Millis, Heard, replace_rtypes, update_rtypes,
  add_to_registrars, add_registrar, hearing, heard, announce_objectives, registrar_announce,
  is_flood, announce, same_discriminant,
}
use rooster.Acp.Announce.{Hearing-cases}

-- What an announcement may be.
abbrev pub Source : Type 1
Source = RegistrarType → Ipv6Addr → Type 0

-- The address of the registrar is an IPv6 address, and all that it serves comes from the source.
abbrev pub IsSourced : Source → Registrar → Type 0
IsSourced P r = (b : Ipv6Addr) × (r.addr ≡ v6 b) × All (λ rt. P rt b) r.rtypes

abbrev pub AreSourced : Source → AcpInterface → Type 0
AreSourced P acp = All (IsSourced P) acp.registrars

pub AreSourced-imp :
    (P Q : Source)
    → ((rt : RegistrarType) (b : Ipv6Addr) → P rt b → Q rt b)
    → (acp : AcpInterface) → AreSourced P acp
    → AreSourced Q acp
AreSourced-imp P Q f acp h =
    All-imp (λ r (b, e, all). (b, e, All-imp (λ rt. f rt b) r.rtypes all)) acp.registrars h

module _ (P : RegistrarType → Type 0) (rt : RegistrarType) (h : P rt) where
  replace_rtypes-All : (rts : List RegistrarType) → All P rts → All P (replace_rtypes rt rts).0
  unfolding replace_rtypes
  replace_rtypes-All [] all = tt
  replace_rtypes-All (x ∷ rts) all = elim (Bool-cases (same_discriminant x rt)) [
    | inl e ↦ rw e (h, replace_rtypes-All rts all.1)
    | inr e ↦ rw e (all.0, replace_rtypes-All rts all.1)
  ]

  update_rtypes-All : (rts : List RegistrarType) → All P rts → All P (update_rtypes rt rts)
  unfolding update_rtypes
  update_rtypes-All rts all = elim (Bool-cases (replace_rtypes rt rts).1) [
    | inl e ↦ rw e (replace_rtypes-All rts all)
    | inr e ↦
        rw e (All-append P (replace_rtypes rt rts).0 (rt ∷ []) (replace_rtypes-All rts all) (h, tt))
  ]

add_to_registrars-AreSourced :
    (P : Source) (rt : RegistrarType) (b : Ipv6Addr) (ttl now : Millis)
    → P rt b
    → (rs : List Registrar) → All (IsSourced P) rs
    → All (IsSourced P) (add_to_registrars rt b ttl now rs)
unfolding add_to_registrars
add_to_registrars-AreSourced P rt b ttl now p [] h = ((b, refl, (p, tt)), tt)
add_to_registrars-AreSourced P rt b ttl now p (r ∷ rs) h = elim (Bool-cases (is_v6 r.addr b)) [
  | inr e ↦ rw e (h.0, add_to_registrars-AreSourced P rt b ttl now p rs h.1)
  | inl e ↦
      let (c, same, all) = h.0 in
      let agree : c ≡ b = ground (arith, is_v6_iff r.addr b) in
      rw e (
        (c, same, update_rtypes-All (λ x. P x c) rt (subst (P rt) (sym agree) p) r.rtypes all),
        h.1,
      )
]

announce_objectives-AreSourced :
    (P : Source) (clock : ℕ → Millis) (ttl n : ℕ) (os : List GraspObjective) (s : Heard)
    → ((o : GraspObjective) (rt : RegistrarType) (b : Ipv6Addr)
        → In o os
        → hearing o ≡ heard rt b
        → P rt b)
    → AreSourced P s.0
    → AreSourced P (announce_objectives clock ttl n os s).0
unfolding announce_objectives add_registrar
announce_objectives-AreSourced P clock ttl n [] s f h = h
announce_objectives-AreSourced P clock ttl n (o ∷ os) s f h = elim (Hearing-cases (hearing o)) [
  | inl e ↦
      rw (e, announce_objectives)
        (announce_objectives-AreSourced P clock ttl (suc n) os s (λ x rt b i. f x rt b (inr i)) h)
  | inr (inl e) ↦ rw (e, announce_objectives) h
  | inr (inr (rt, b, e)) ↦
      rw (e, announce_objectives)
        (announce_objectives-AreSourced P clock ttl (suc n) os
          (add_registrar rt b ttl (clock n) s.0, true) (λ x rt' b' i. f x rt' b' (inr i))
          (add_to_registrars-AreSourced P rt b ttl (clock n) (f o rt b (inl refl) e) s.0.registrars
            h))
]

-- If all that a flood announces comes from the source, then so does all that the table has after it.
pub announce-AreSourced :
    (P : Source) (clock : ℕ → Millis) (msg : GraspMessage) (s : Heard)
    → ((o : GraspObjective) (rt : RegistrarType) (b : Ipv6Addr)
        → is_flood msg.mtype ≡ true
        → In o msg.objectives
        → hearing o ≡ heard rt b
        → P rt b)
    → AreSourced P s.0
    → AreSourced P (announce clock msg s).0
unfolding announce registrar_announce
announce-AreSourced P clock msg s f h = elim (Bool-cases (is_flood msg.mtype)) [
  | inl e ↦ rw e (
      announce_objectives-AreSourced P clock msg.ttl 1 msg.objectives s (λ o rt b i. f o rt b e i)
        h)
  | inr e ↦ rw e h
]
