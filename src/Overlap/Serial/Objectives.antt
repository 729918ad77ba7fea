-- ===== src/Overlap/Serial/Objectives.antt =====
-- The loop over the objectives in src/acp_interface.rs, one objective at a time.
use rooster.Base.{
  ℕ, suc, Bool, true, false, ◌≡◌, inl, inr, refl, sym, ap, ◌∙◌, List, [], ◌∷◌, Bool-cases,
}
use rooster.Net.{Ipv6Addr}
use rooster.Grasp.{GraspMessage, GraspObjective}
use rooster.Acp.{
  Millis, AcpInterface, Heard, RegistrarType, no_locator, not_understood, heard, hearing,
  add_registrar, announce, registrar_announce, announce_objectives, is_flood,
}
use rooster.Overlap.{begins}
use rooster.Overlap.Serial.{At}

module _ (clock : ℕ → Millis) (ttl : Millis) (n : ℕ) (o : GraspObjective)
    (os : List GraspObjective) where
  pub objectives-passes :
      (x : Heard)
      → hearing o ≡ no_locator
      → announce_objectives clock ttl n (o ∷ os) x ≡ announce_objectives clock ttl (suc n) os x
  unfolding announce_objectives
  objectives-passes x e = rw (e, announce_objectives) refl

  pub objectives-gives_up :
      (x : Heard) → hearing o ≡ not_understood → announce_objectives clock ttl n (o ∷ os) x ≡ x
  unfolding announce_objectives
  objectives-gives_up x e = rw (e, announce_objectives) refl

  pub objectives-adds :
      (t : AcpInterface) (b : Bool) (rtype : RegistrarType) (v6addr : Ipv6Addr)
      → hearing o ≡ heard rtype v6addr
      → announce_objectives clock ttl n (o ∷ os) (t, b)
        ≡ announce_objectives clock ttl
            (suc n)
            os
            (add_registrar rtype v6addr ttl (clock n) t, true)
  unfolding announce_objectives
  objectives-adds t b rtype v6addr e = rw (e, announce_objectives) refl

pub objectives-ends :
    (clock : ℕ → Millis) (ttl : Millis) (n : ℕ) (x : Heard)
    → announce_objectives clock ttl n [] x ≡ x
unfolding announce_objectives
objectives-ends clock ttl n x = refl

-- A daemon that begins with a message has done nothing of it yet.
pub begins-At :
    (clock : ℕ → Millis) (msg : GraspMessage) (b : Bool) (t u : AcpInterface)
    → b ≡ false
    → t ≡ u
    → At b (begins clock msg) t u
unfolding announce registrar_announce
begins-At clock msg b t u clear same = elim (Bool-cases (is_flood msg.mtype)) [
  | inl e ↦ rw e (
    msg,
    rw e (
        ap (λ x. announce_objectives clock msg.ttl 1 msg.objectives x)
          (ap (λ y. (y, false)) (sym same) ∙ ap (λ c. (t, c)) (sym clear))),
    (λ f. same),
  )
  | inr e ↦ rw e (clear, same)
]
