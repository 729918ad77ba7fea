-- ===== src/Acp/Objective.antt =====
-- What an objective looks like that src/acp_interface.rs takes for a registrar.
use rooster.Base.{
  ℕ, String, ◌⊎◌, ap, ◌∙◌, Option-cases, refl, eq_iff, ◌≡◌, Option, none, some, arith, inl, inr,
}
use rooster.Net.{Ipv6Addr}
use rooster.Grasp.{
  GraspObjective, GraspLocator, ipv6_locator, ipv4_locator, fqdn_locator, uri_locator,
}
use rooster.Acp.{RegistrarType, http_registrar, announced_type, announced, hearing, heard}
use rooster.Acp.Ports.{port}

announced_type-http :
    (v : Option String) (n p : ℕ)
    → announced_type v n ≡ some (http_registrar p)
    → (n ≡ p) × ((v ≡ some "") ⊎ (v ≡ some "BRSKI"))
unfolding announced_type
announced_type-http none n p e = cc
announced_type-http (some v) n p e = ground (arith, eq_iff v "", eq_iff v "BRSKI")

announced-http :
    (l : GraspLocator) (v : Option String) (p : ℕ) (b : Ipv6Addr)
    → announced l v ≡ some (http_registrar p, b)
    → ((proto : ℕ) × (l ≡ ipv6_locator b proto p)) × ((v ≡ some "") ⊎ (v ≡ some "BRSKI"))
unfolding announced
announced-http (ipv6_locator c proto n) v p b e = elim (Option-cases (announced_type v n)) [
  | inl nothing ↦ absurd (ground arith)
  | inr (rt, s) ↦
      let is_http : rt ≡ http_registrar p = ground arith in
      let (same, valued) = announced_type-http v n p (s ∙ ap some is_http) in
      ((proto, ground arith), valued)
]
announced-http (ipv4_locator c proto n) v p b e = cc
announced-http (fqdn_locator c proto n) v p b e = cc
announced-http (uri_locator c proto n) v p b e = cc

-- What an objective that says there is an HTTP registrar looks like.
pub hearing-http :
    (o : GraspObjective) (p : ℕ) (b : Ipv6Addr)
    → hearing o ≡ heard (http_registrar p) b
    → ((proto : ℕ) × (o.locator ≡ some (ipv6_locator b proto p)))
      × ((o.objective_value ≡ some "") ⊎ (o.objective_value ≡ some "BRSKI"))
unfolding hearing
hearing-http o p b e = elim (Option-cases o.locator) [
  | inl n ↦ absurd (ground arith)
  | inr (l, s) ↦ elim (Option-cases (announced l o.objective_value)) [
    | inl n ↦ absurd (ground arith)
    | inr ((rt, c), t) ↦
        let ((proto, same), valued) = announced-http l o.objective_value p b (t ∙ ground arith) in
        ((proto, s ∙ ap some same), valued)
  ]
]

announced_type-port :
    (v : Option String) (n : ℕ) (rt : RegistrarType) → announced_type v n ≡ some rt → port rt ≡ n
unfolding announced_type
announced_type-port none n rt e = cc
announced_type-port (some v) n rt e = ground arith

announced-port :
    (l : GraspLocator) (v : Option String) (rt : RegistrarType) (b : Ipv6Addr)
    → announced l v ≡ some (rt, b)
    → (proto : ℕ) × (l ≡ ipv6_locator b proto (port rt))
unfolding announced
announced-port (ipv6_locator c proto n) v rt b e = elim (Option-cases (announced_type v n)) [
  | inl nothing ↦ absurd (ground arith)
  | inr (rt', s) ↦
      let same : rt' ≡ rt = ground arith in
      let at : port rt ≡ n = announced_type-port v n rt (s ∙ ap some same) in (proto, ground arith)
]
announced-port (ipv4_locator c proto n) v rt b e = cc
announced-port (fqdn_locator c proto n) v rt b e = cc
announced-port (uri_locator c proto n) v rt b e = cc

-- Where an objective says that there is a registrar.
pub hearing-port :
    (o : GraspObjective) (rt : RegistrarType) (b : Ipv6Addr)
    → hearing o ≡ heard rt b
    → (proto : ℕ) × (o.locator ≡ some (ipv6_locator b proto (port rt)))
unfolding hearing
hearing-port o rt b e = elim (Option-cases o.locator) [
  | inl n ↦ absurd (ground arith)
  | inr (l, s) ↦ elim (Option-cases (announced l o.objective_value)) [
    | inl n ↦ absurd (ground arith)
    | inr ((rt', c), t) ↦
        let (proto, same) = announced-port l o.objective_value rt b (t ∙ ground arith) in
        (proto, s ∙ ap some same)
  ]
]

-- And the other way round.
pub http-hearing :
    (o : GraspObjective) {b : Ipv6Addr} {proto p : ℕ}
    → o.locator ≡ some (ipv6_locator b proto p)
    → ((o.objective_value ≡ some "") ⊎ (o.objective_value ≡ some "BRSKI"))
    → hearing o ≡ heard (http_registrar p) b
unfolding hearing announced announced_type
http-hearing o located (inl value) = rw (located, value) refl
http-hearing o located (inr value) = rw (located, value) refl
