-- ===== src/Overlap/Serial/Tables.antt =====
-- The tables and the flag of src/acp_interface.rs, and the availability of src/interfaces.rs, as far as
-- they depend on one another.
use rooster.Base.{
  ℕ, suc, Bool, true, false, ◌||◌, ◌≡◌, refl, ap, ◌∙◌, ◌⊎◌, inl, inr, List, [], ◌∷◌, ◌++◌, Option,
  none, some, In, length, get_or, set, arith, get_or-set-cases, Bool-cases, ◌==◌, equality_nat,
  nat_beq_iff,
}
use rooster.Grasp.{GraspObjective, GraspMessage}
use rooster.Net.{Ipv6Addr}
use rooster.Acp.{
  RegistrarType, Hearing, no_locator, not_understood, heard, Millis, AcpInterface, empty_acp,
  Available, hearing, add_registrar, announce_objectives, registrar_announce, announce, is_flood,
  Heard, calculate_available_registrar,
}
use rooster.Interface.{Ref, World, empty_interface}
use rooster.Interfaces.{cell}
use rooster.Interfaces.Registrars.{
  acp, interface_available, daemon_available, or_available, available_among,
}

Hearing-cases :
    (h : Hearing)
    → (h ≡ no_locator)
      ⊎ ((h ≡ not_understood)
          ⊎ ((rtype : RegistrarType) × (v6addr : Ipv6Addr) × (h ≡ heard rtype v6addr)))
Hearing-cases no_locator = inl refl
Hearing-cases not_understood = inr (inl refl)
Hearing-cases (heard rtype v6addr) = inr (inr (rtype, v6addr, refl))

-- What a flood does to the flag is to set it or not.
abbrev pub with_flag : Bool → Heard → Heard
with_flag f t = (t.0, f || t.1)

pub announce_objectives-flag :
    (clock : ℕ → Millis) (ttl : Millis) (n : ℕ) (os : List GraspObjective) (t : AcpInterface)
    (f : Bool)
    → announce_objectives clock ttl n os (t, f)
      ≡ with_flag f (announce_objectives clock ttl n os (t, false))
unfolding announce_objectives
announce_objectives-flag clock ttl n [] t f = ap (λ b. (t, b)) (ground arith)
announce_objectives-flag clock ttl n (o ∷ os) t f = elim (Hearing-cases (hearing o)) [
  | inl e ↦ rw (e, announce_objectives) (announce_objectives-flag clock ttl (suc n) os t f)
  | inr (inl e) ↦ rw (e, announce_objectives) (ap (λ b. (t, b)) (ground arith))
  | inr (inr (rtype, v6addr, e)) ↦
      let t' = add_registrar rtype v6addr ttl (clock n) t in
      let set : (announce_objectives clock ttl (suc n) os (t', true)).1 ≡ true =
        ap (λ x. x.1) (announce_objectives-flag clock ttl (suc n) os t' true) in
      rw (e, announce_objectives)
        (ap (λ b. ((announce_objectives clock ttl (suc n) os (t', true)).0, b)) (ground arith))
]

pub announce-flag :
    (clock : ℕ → Millis) (msg : GraspMessage) (t : AcpInterface) (f : Bool)
    → announce clock msg (t, f) ≡ with_flag f (announce clock msg (t, false))
unfolding announce registrar_announce
announce-flag clock msg t f = elim (Bool-cases (is_flood msg.mtype)) [
  | inl e ↦ rw e (announce_objectives-flag clock msg.ttl 1 msg.objectives t f)
  | inr e ↦ rw e (ap (λ b. (t, b)) (ground arith))
]

-- Tables of which each is the same are the same.
pub same_tables :
    (ts us : List AcpInterface)
    → length ts ≡ length us
    → ((a : Ref) → get_or ts a empty_acp ≡ get_or us a empty_acp)
    → ts ≡ us
same_tables [] [] e h = refl
same_tables [] (u ∷ us) e h = absurd (omega arith)
same_tables (t ∷ ts) [] e h = absurd (omega arith)
same_tables (t ∷ ts) (u ∷ us) e h =
    ap (λ x. x ∷ ts) (h 0) ∙ ap (◌∷◌ u) (same_tables ts us (omega arith) (λ a. h (suc a)))

pub daemon_available-same :
    (w w' : World) (d : Option Ref)
    → ((a : Ref) → d ≡ some a → acp w a ≡ acp w' a)
    → daemon_available w d ≡ daemon_available w' d
unfolding daemon_available
daemon_available-same w w' none h = refl
daemon_available-same w w' (some a) h = ap calculate_available_registrar (h a refl)

-- What interfaces have given depends on their tables.
pub available_among-same :
    (w w' : World) (av : Available) (rs : List Ref)
    → w.cells ≡ w'.cells
    → ((r a : Ref) → In r rs → (cell w r).acp_daemon ≡ some a → acp w a ≡ acp w' a)
    → available_among w av rs ≡ available_among w' av rs
unfolding available_among
available_among-same w w' av [] e h = refl
available_among-same w w' av (r ∷ rs) e h =
    let first : interface_available w (cell w r) ≡ interface_available w' (cell w' r) =
      daemon_available-same w w' (cell w r).acp_daemon (λ a. h r a (inl refl))
      ∙ ap (λ cs. daemon_available w' (get_or cs r (empty_interface 0)).acp_daemon) e in
    ap (λ x. available_among w (or_available av x) rs) first
    ∙ available_among-same w w' (or_available av (interface_available w' (cell w' r))) rs e
        (λ q a i. h q a (inr i))

pub available_among-append :
    (w : World) (av : Available) (rs : List Ref) (r : Ref)
    → available_among w av (rs ++ (r ∷ []))
      ≡ or_available (available_among w av rs) (interface_available w (cell w r))
unfolding available_among
available_among-append w av [] r = refl
available_among-append w av (q ∷ rs) r =
    available_among-append w (or_available av (interface_available w (cell w q))) rs r

pub In-append : (r q : Ref) (rs : List Ref) → In r (rs ++ (q ∷ [])) → In r rs ⊎ (q ≡ r)
In-append r q [] (inl e) = inr e
In-append r q [] (inr i) = absurd i
In-append r q (p ∷ rs) (inl e) = inl (inl e)
In-append r q (p ∷ rs) (inr i) = elim (In-append r q rs i) [ inl j ↦ inl (inr j) | inr e ↦ inr e ]

-- A write at one place keeps the others.
pub get_or-set-other :
    (ts : List AcpInterface) (a b : Ref) (t : AcpInterface)
    → (b == a) ≡ false
    → get_or (set ts a t) b empty_acp ≡ get_or ts b empty_acp
get_or-set-other ts a b t e = elim (get_or-set-cases ts a b t empty_acp) [
  | inl (same, _) ↦ absurd (ground (arith, nat_beq_iff b a))
  | inr h ↦ h
]
