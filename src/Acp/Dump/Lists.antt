-- ===== src/Acp/Dump/Lists.antt =====
-- What the dump of the table of src/acp_interface.rs lists, and when.
use rooster.Base.{
  ℕ, true, false, ◌≡◌, ◌≢◌, ◌↔◌, inl, inr, refl, sym, ◌∙◌, List, [], ◌∷◌, some, In, arith,
  Bool-cases, equality_string,
}
use rooster.Net.{IpAddr, Ipv6Addr}
use rooster.Args.{RoosterOptions}
use rooster.Debug.{text, Line, DebugOptions, debug_options_of, debug_options-registrars}
use rooster.Acp.{
  RegistrarType, http_registrar, coap_registrar, stateless_coap_registrar, Registrar, AcpInterface,
}
use rooster.Acp.Ports.{Kind, port_of}
use rooster.Acp.Table.{IsTable}
use rooster.Acp.Dump.{dump_rtype, dump_rtypes, dump_registrars, dump_registrar_list, registrar_line}
use rooster.Acp.Dump.Lines.{dump_registrars_iff}

cons-nil : {x : Line} {xs : List Line} → x ∷ xs ≢ []
cons-nil e = cc

dump_rtype-off :
    (o : DebugOptions) (addr : IpAddr) (rt : RegistrarType)
    → o.debug_registrars ≡ false
    → dump_rtype o addr rt ≡ []
unfolding dump_rtype
dump_rtype-off o addr (http_registrar p) e = rw e refl
dump_rtype-off o addr (coap_registrar p) e = rw e refl
dump_rtype-off o addr (stateless_coap_registrar p) e = rw e refl

dump_rtypes-off :
    (o : DebugOptions) (addr : IpAddr) (rts : List RegistrarType)
    → o.debug_registrars ≡ false
    → dump_rtypes o addr rts ≡ []
unfolding dump_rtypes
dump_rtypes-off o addr [] e = refl
dump_rtypes-off o addr (rt ∷ rts) e = rw (dump_rtype-off o addr rt e) (dump_rtypes-off o addr rts e)

dump_registrars-off :
    (o : DebugOptions) (rs : List Registrar)
    → o.debug_registrars ≡ false
    → dump_registrars o rs ≡ []
unfolding dump_registrars
dump_registrars-off o [] e = refl
dump_registrars-off o (r ∷ rs) e =
    rw (dump_rtypes-off o r.addr r.rtypes e) (dump_registrars-off o rs e)

dump_registrar_list-off :
    (o : DebugOptions) (acp : AcpInterface)
    → o.debug_registrars ≡ false
    → dump_registrar_list o acp ≡ []
unfolding dump_registrar_list
dump_registrar_list-off o acp e = rw (dump_registrars-off o acp.registrars e, e) refl

dump_registrar_list-on :
    (o : DebugOptions) (acp : AcpInterface)
    → o.debug_registrars ≡ true
    → dump_registrar_list o acp
      ≡ record { tag = "R: "; message = text "List of registrars:" ∷ [] }
        ∷ dump_registrars o acp.registrars
unfolding dump_registrar_list
dump_registrar_list-on o acp e = rw e refl

dump_iff :
    (o : DebugOptions) (acp : AcpInterface) (k : Kind) (a : Ipv6Addr) (p : ℕ)
    → IsTable acp
    → o.debug_registrars ≡ true
    → In (registrar_line k a p) (dump_registrar_list o acp) ↔ (port_of k a acp.registrars ≡ some p)
dump_iff o acp k a p h on =
    let (there, back) = dump_registrars_iff o on k a p acp.registrars h.registrars_fit in
    rw (dump_registrar_list-on o acp on)
      ((λ i. elim i [ inl e ↦ cc | inr j ↦ there j ]), (λ q. inr (back q)))

-- In a well-formed table: a rooster dumps a line for a kind of registrar, an address and a port
-- exactly when it is started with the option for it and the table has that port for that kind at
-- that address; it dumps nothing at all exactly when it is started without the option.
pub dump_registrar_list-lists :
    (mainargs : RoosterOptions) (acp : AcpInterface) (k : Kind) (a : Ipv6Addr) (p : ℕ)
    → IsTable acp
    → (In (registrar_line k a p) (dump_registrar_list (debug_options_of mainargs) acp)
        ↔ ((mainargs.debug_registrars ≡ true) × (port_of k a acp.registrars ≡ some p)))
      × ((dump_registrar_list (debug_options_of mainargs) acp ≡ [])
          ↔ (mainargs.debug_registrars ≡ false))
dump_registrar_list-lists mainargs acp k a p h =
    let o = debug_options_of mainargs in
    let same = debug_options-registrars mainargs in
    elim (Bool-cases mainargs.debug_registrars) [
      | inl e ↦
          let (there, back) = dump_iff o acp k a p h (same ∙ e) in
          let printed = dump_registrar_list-on o acp (same ∙ e) in
          (
            ((λ i. (e, there i)), (λ (_, q). back q)),
            ((λ n. absurd (cons-nil (sym printed ∙ n))), (λ off. absurd (ground arith))),
          )
      | inr e ↦
          let silent = dump_registrar_list-off o acp (same ∙ e) in
          (
            ((λ i. absurd (rw silent at i)), (λ (on, _). absurd (ground arith))),
            ((λ _. e), (λ _. silent)),
          )
    ]
