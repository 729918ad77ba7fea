-- ===== src/Acp/Dump/Lines.antt =====
-- Which lines the loops of the dump of src/acp_interface.rs write.
use rooster.Base.{
  ℕ, String, true, false, ◌≡◌, ◌≢◌, ◌↔◌, ◌⊎◌, inl, inr, refl, sym, ap, ◌∙◌, subst, List, [], ◌∷◌,
  ◌++◌, none, some, In, arith, Bool-cases, if◌then◌else◌, ◌==◌, equality_string,
}
use rooster.Net.{v6, Ipv6Addr, is_v6, is_v6_iff}
use rooster.Debug.{DebugOptions}
use rooster.Acp.{RegistrarType, http_registrar, coap_registrar, stateless_coap_registrar, Registrar}
use rooster.Acp.Ports.{
  Kind, http, coap, stateless, kind, port, kind_eq, kind_eq_iff, port_among, port_of,
}
use rooster.Acp.Table.{IsAbsent, IsFresh, AreDistinct, AreRegistrars}
use rooster.Acp.Availability.{absent-port, v6_form}
use rooster.Acp.Dump.{dump_rtype, dump_rtypes, dump_registrars, proto_name, registrar_line}

abbrev kind_named : String → Kind
kind_named s = if s == " proto HTTP" then http else if s == " proto CoAP" then coap else stateless

kind_named-proto_name : (k : Kind) → kind_named (proto_name k) ≡ k
kind_named-proto_name http = refl
kind_named-proto_name coap = refl
kind_named-proto_name stateless = refl

proto_name-inj : (k j : Kind) → proto_name k ≡ proto_name j → k ≡ j
proto_name-inj k j e = sym (kind_named-proto_name k) ∙ ap kind_named e ∙ kind_named-proto_name j

registrar_line-inj :
    (k j : Kind) (a b : Ipv6Addr) (p q : ℕ)
    → registrar_line k a p ≡ registrar_line j b q
    → (k ≡ j) × (a ≡ b) × (p ≡ q)
registrar_line-inj k j a b p q e = (proto_name-inj k j cc, cc, cc)

dump_rtype-line :
    (o : DebugOptions) (a : Ipv6Addr) (rt : RegistrarType)
    → o.debug_registrars ≡ true
    → dump_rtype o (v6 a) rt ≡ registrar_line (kind rt) a (port rt) ∷ []
unfolding dump_rtype
dump_rtype-line o a (http_registrar p) e = rw e refl
dump_rtype-line o a (coap_registrar p) e = rw e refl
dump_rtype-line o a (stateless_coap_registrar p) e = rw e refl

fresh-port : (k : Kind) (rts : List RegistrarType) → IsFresh k rts → port_among k rts ≡ none
unfolding port_among
fresh-port k [] h = refl
fresh-port k (rt ∷ rts) h = rw h.0 (fresh-port k rts h.1)

In-append_iff : {A : Type 0} (x : A) (xs ys : List A) → In x (xs ++ ys) ↔ (In x xs ⊎ In x ys)
In-append_iff x [] ys = ((λ i. inr i), (λ i. elim i [ inl n ↦ absurd n | inr j ↦ j ]))
In-append_iff x (z ∷ xs) ys = let rest = In-append_iff x xs ys in ground (arith, rest.0, rest.1)

line-cong :
    {k j : Kind} {a b : Ipv6Addr} {p q : ℕ}
    → k ≡ j
    → a ≡ b
    → p ≡ q
    → registrar_line k a p ≡ registrar_line j b q
line-cong e f g = λ i. registrar_line (e i) (f i) (g i)

differ : (rt : RegistrarType) (k : Kind) → kind_eq (kind rt) k ≡ false → kind rt ≢ k
differ rt k e same = ground arith

module _ (o : DebugOptions) (on : o.debug_registrars ≡ true) (k : Kind) (a : Ipv6Addr) (p : ℕ) where
  dump_rtypes_iff :
      (b : Ipv6Addr) (rts : List RegistrarType)
      → AreDistinct rts
      → In (registrar_line k a p) (dump_rtypes o (v6 b) rts)
        ↔ ((b ≡ a) × (port_among k rts ≡ some p))
  unfolding dump_rtypes port_among
  dump_rtypes_iff b [] h = ((λ i. absurd i), (λ (e, n). cc))
  dump_rtypes_iff b (rt ∷ rts) h =
      let (there, back) = dump_rtypes_iff b rts h.1 in
      rw (dump_rtype-line o b rt on) (elim (Bool-cases (kind_eq (kind rt) k)) [
        | inl e ↦
            let same = kind_eq_iff (kind rt) k e in
            rw e (
              (λ i. elim i [
                | inl l ↦
                    let (_, at, port_is) = registrar_line-inj (kind rt) k b a (port rt) p l in
                    (at, ap some port_is)
                | inr later ↦
                    let none_left = fresh-port k rts (subst (λ j. IsFresh j rts) same h.0) in
                    absurd (ground (arith, there later))
              ]),
              (λ (at, is). inl (line-cong same at (ground arith))),
            )
        | inr e ↦ rw e (
          (λ i. elim i [
            | inl l ↦
                let (same, _, _) = registrar_line-inj (kind rt) k b a (port rt) p l in
                absurd (differ rt k e same)
            | inr later ↦ there later
          ]),
          (λ h. inr (back h)),
        )
      ])

  pub dump_registrars_iff :
      (rs : List Registrar)
      → AreRegistrars rs
      → In (registrar_line k a p) (dump_registrars o rs) ↔ (port_of k a rs ≡ some p)
  unfolding dump_registrars port_of
  dump_registrars_iff [] h = ((λ i. absurd i), (λ e. cc))
  dump_registrars_iff (r ∷ rs) h =
      let (b, form) = v6_form r.addr h.0 in
      let rest = dump_registrars_iff rs h.4 in
      let here = dump_rtypes_iff b r.rtypes h.1 in
      let split =
        In-append_iff (registrar_line k a p) (dump_rtypes o r.addr r.rtypes)
          (dump_registrars o rs) in
      let this : In (registrar_line k a p) (dump_rtypes o r.addr r.rtypes)
          ↔ ((b ≡ a) × (port_among k r.rtypes ≡ some p)) =
        rw form here in
      elim (Bool-cases (is_v6 r.addr a)) [
        | inl e ↦
            let at = (is_v6_iff r.addr a).0 e in
            let same : b ≡ a = ground (arith, is_v6_iff r.addr b) in
            let none_left = absent-port k a rs (subst (λ x. IsAbsent x rs) at h.3) in
            rw e (
              (λ i. elim (split.0 i) [
                | inl l ↦ (this.0 l).1
                | inr later ↦ absurd (ground (arith, rest.0 later))
              ]),
              (λ q. split.1 (inl (this.1 (same, q)))),
            )
        | inr e ↦ rw e (
          (λ i. elim (split.0 i) [
            | inl l ↦ absurd (ground (arith, this.0 l, is_v6_iff r.addr a))
            | inr later ↦ rest.0 later
          ]),
          (λ q. split.1 (inr (rest.1 q))),
        )
      ]
