-- ===== src/Acp/Announce.antt =====
-- What a message does to the registrar table of src/acp_interface.rs.
pub mod First
pub mod Single
use rooster.Base.{
  ℕ, suc, Bool, true, false, ◌≡◌, ◌≢◌, refl, List, [], ◌∷◌, ◌++◌, Option, none, some, ◌==◌, arith,
  ◌∙◌, ap, sym, ◌&&◌, equality_list, equality_nat, if◌then◌else◌, Bool-cases, ◌⊎◌, inl, inr,
  equality_string,
}
use rooster.Net.{Ipv6Addr}
use rooster.Grasp.{GraspObjective, GraspMessage}
use rooster.Acp.{
  RegistrarType, AcpInterface, Millis, Heard, add_registrar, Hearing, no_locator, not_understood,
  heard, hearing, announce_objectives, registrar_announce, is_flood, announce,
}
use rooster.Acp.Ports.{Kind, kind, kind_eq, port, port_of, port_of-add_registrar}
use rooster.Acp.Table.{IsTable, add_registrar-IsTable}

pub Hearing-cases :
    (x : Hearing)
    → (x ≡ no_locator)
      ⊎ (x ≡ not_understood)
      ⊎ ((rt : RegistrarType) × (a : Ipv6Addr) × (x ≡ heard rt a))
Hearing-cases no_locator = inl refl
Hearing-cases not_understood = inr (inl refl)
Hearing-cases (heard rt a) = inr (inr (rt, a, refl))

-- What every registrar that is added keeps, the loop keeps.
pub announce_objectives-keeps :
    (P : Heard → Type 0)
    → ((rt : RegistrarType) (a : Ipv6Addr) (ttl now : Millis) (s : Heard)
        → P s
        → P (add_registrar rt a ttl now s.0, true))
    → (clock : ℕ → Millis) (ttl n : ℕ) (os : List GraspObjective) (s : Heard) → P s
    → P (announce_objectives clock ttl n os s)
unfolding announce_objectives
announce_objectives-keeps P keep clock ttl n [] s h = h
announce_objectives-keeps P keep clock ttl n (o ∷ os) s h = elim (Hearing-cases (hearing o)) [
  | inl e ↦ rw (e, announce_objectives) (announce_objectives-keeps P keep clock ttl (suc n) os s h)
  | inr (inl e) ↦ rw (e, announce_objectives) h
  | inr (inr (rt, a, e)) ↦
      rw (e, announce_objectives)
        (announce_objectives-keeps P keep clock ttl (suc n) os
          (add_registrar rt a ttl (clock n) s.0, true) (keep rt a ttl (clock n) s h))
]

pub announce-keeps :
    (P : Heard → Type 0)
    → ((rt : RegistrarType) (a : Ipv6Addr) (ttl now : Millis) (s : Heard)
        → P s
        → P (add_registrar rt a ttl now s.0, true))
    → (clock : ℕ → Millis) (msg : GraspMessage) (s : Heard) → P s
    → P (announce clock msg s)
unfolding announce registrar_announce
announce-keeps P keep clock msg s h = elim (Bool-cases (is_flood msg.mtype)) [
  | inl e ↦ rw e (announce_objectives-keeps P keep clock msg.ttl 1 msg.objectives s h)
  | inr e ↦ rw e h
]

-- Whatever message arrives, the table stays well formed.
pub announce-IsTable :
    (clock : ℕ → Millis) (msg : GraspMessage) (s : Heard)
    → IsTable s.0
    → IsTable (announce clock msg s).0
announce-IsTable clock msg s h =
    announce-keeps (λ t. IsTable t.0) (λ rt a ttl now t. add_registrar-IsTable rt a ttl now t.0)
      clock msg s h

-- A registrar that is known stays known, though its port may change: nothing in the program ever
-- drops one, whatever its time to live.
pub announce_forgets_none :
    (clock : ℕ → Millis) (msg : GraspMessage) (s : Heard) (k : Kind) (a : Ipv6Addr)
    → port_of k a s.0.registrars ≢ none
    → port_of k a (announce clock msg s).0.registrars ≢ none
announce_forgets_none clock msg s k a h =
    announce-keeps (λ t. port_of k a t.0.registrars ≢ none)
      (λ rt b ttl now t known. ground (arith, port_of-add_registrar k a rt b ttl now t.0)) clock msg
      s h

-- If the flag is still clear after a message, the message has changed nothing.
pub announce_flag :
    (clock : ℕ → Millis) (msg : GraspMessage) (acp : AcpInterface) (b : Bool)
    → (announce clock msg (acp, b)).1 ≡ false
    → (announce clock msg (acp, b)) ≡ (acp, b)
announce_flag clock msg acp b =
    announce-keeps (λ t. t.1 ≡ false → t ≡ (acp, b)) (λ rt a ttl now t h e. cc) clock msg (acp, b)
      (λ _. refl)

-- An objective that is not understood hides all that come after it in the same message.
pub announce_stops :
    (clock : ℕ → Millis) (ttl n : ℕ) (os after : List GraspObjective) (o : GraspObjective)
    (s : Heard)
    → hearing o ≡ not_understood
    → announce_objectives clock ttl n (os ++ (o ∷ after)) s ≡ announce_objectives clock ttl n os s
unfolding announce_objectives
announce_stops clock ttl n [] after o s e = rw (e, announce_objectives)
announce_stops clock ttl n (x ∷ os) after o s e = elim (Hearing-cases (hearing x)) [
  | inl ex ↦ rw (ex, announce_objectives) (announce_stops clock ttl (suc n) os after o s e)
  | inr (inl ex) ↦ rw (ex, announce_objectives)
  | inr (inr (rt, a, ex)) ↦
      rw (ex, announce_objectives)
        (announce_stops clock ttl (suc n) os after o (add_registrar rt a ttl (clock n) s.0, true) e)
]

-- What a list of objectives says of one kind at one address: the last port that is announced before
-- the first objective that is not understood, or else the port known before.
pub last_heard : Kind → Ipv6Addr → List GraspObjective → Option ℕ → Option ℕ
last_heard k a [] known = known
last_heard k a (o ∷ os) known = elim (hearing o) [
  | no_locator ↦ last_heard k a os known
  | not_understood ↦ known
  | heard rt b ↦ last_heard k a os (if b == a && kind_eq (kind rt) k then some (port rt) else known)
]

-- As a map from kind and address to a port, the table after the loop is what the objectives say.
pub announce_ports :
    (clock : ℕ → Millis) (ttl n : ℕ) (os : List GraspObjective) (s : Heard) (k : Kind)
    (a : Ipv6Addr)
    → port_of k a (announce_objectives clock ttl n os s).0.registrars
      ≡ last_heard k a os (port_of k a s.0.registrars)
unfolding announce_objectives last_heard
announce_ports clock ttl n [] s k a = refl
announce_ports clock ttl n (o ∷ os) s k a = elim (Hearing-cases (hearing o)) [
  | inl e ↦ rw (e, announce_objectives, last_heard) (announce_ports clock ttl (suc n) os s k a)
  | inr (inl e) ↦ rw (e, announce_objectives, last_heard)
  | inr (inr (rt, b, e)) ↦
      rw (e, announce_objectives, last_heard)
        (announce_ports clock ttl (suc n) os (add_registrar rt b ttl (clock n) s.0, true) k a
          ∙ ap (last_heard k a os) (port_of-add_registrar k a rt b ttl (clock n) s.0))
]

settled :
    (m y x : Option ℕ) (p : ℕ)
    → y ≡ (elim m [ some q ↦ some q | none ↦ some p ])
    → y ≡ (elim y [ some q ↦ some q | none ↦ x ])
settled (some q) y x p e = rw e
settled none y x p e = rw e

last_heard-known :
    (k : Kind) (a : Ipv6Addr) (os : List GraspObjective) (x : Option ℕ)
    → last_heard k a os x ≡ (elim (last_heard k a os none) [ some p ↦ some p | none ↦ x ])
unfolding last_heard
last_heard-known k a [] x = refl
last_heard-known k a (o ∷ os) x = elim (Hearing-cases (hearing o)) [
  | inl e ↦ rw (e, last_heard) (last_heard-known k a os x)
  | inr (inl e) ↦ rw (e, last_heard)
  | inr (inr (rt, b, e)) ↦ elim (Bool-cases (b == a && kind_eq (kind rt) k)) [
    | inl t ↦
        rw (e, t, last_heard) (settled _ _ x (port rt) (last_heard-known k a os (some (port rt))))
    | inr t ↦ rw (e, t, last_heard) (last_heard-known k a os x)
  ]
]

-- A message that is heard again changes no port.
pub announce_twice :
    (clock later : ℕ → Millis) (msg : GraspMessage) (s : Heard) (k : Kind) (a : Ipv6Addr)
    → port_of k a (announce later msg (announce clock msg s)).0.registrars
      ≡ port_of k a (announce clock msg s).0.registrars
unfolding announce registrar_announce
announce_twice clock later msg s k a = elim (Bool-cases (is_flood msg.mtype)) [
  | inl e ↦
      let os = msg.objectives in
      let once = announce_ports clock msg.ttl 1 os s k a in
      let twice =
        announce_ports later msg.ttl 1 os (announce_objectives clock msg.ttl 1 os s) k a in
      let known = port_of k a s.0.registrars in
      rw e (
        twice
        ∙ ap (last_heard k a os) once
        ∙ ground (
          arith,
          last_heard-known k a os known,
          last_heard-known k a os (last_heard k a os known),
        )
        ∙ sym once)
  | inr e ↦ rw e
]
