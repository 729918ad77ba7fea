-- ===== src/Grasp/Decode/Accepted.antt =====
-- Which items the decoder of locators in src/grasp.rs accepts.
use rooster.Base.{
  ℕ, ◌%◌, ◌^◌, false, ◌≡◌, ◌↔◌, inl, inr, refl, sym, ap, ◌∙◌, List, [], ◌∷◌, none, some, length,
  ltb, ◌==◌, equality_nat, nat_beq_iff, Bool-cases, arith,
}
use rooster.Error.{ConnectError, ok, err, passed, misformed_grasp_objective, misformed_ipv6_addr}
use rooster.Net.{Ipv6Addr}
use rooster.Cbor.{Cbor, View, integer, bytes, string, array, other, on_array, on_bytes, on_integer}
use rooster.Grasp.{GraspLocator, ipv6_locator}
use rooster.Grasp.Locators.{
  decode_ipv6_bytes, decode_ipv6_cbytes, as_integer, grasp_parse_ipv4_locator,
  grasp_parse_fqdn_locator, grasp_parse_uri_locator, grasp_parse_ipv6_locator, parse_locator_option,
  parse_locator_array, grasp_parse_locator,
}
use rooster.Grasp.Decode.Wire.{decode_ipv6_bytes_lem}

on_integer-ok :
    {C : Type 0} (v : View C) (w : ConnectError) {n : ℕ}
    → on_integer v ok (err w) ≡ ok n
    → v ≡ integer n
on_integer-ok (integer k) w e = cc
on_integer-ok (bytes b) w e = cc
on_integer-ok (string s) w e = cc
on_integer-ok (array xs) w e = cc
on_integer-ok other w e = cc

decode_ipv6_bytes-ok :
    (octets addr : List ℕ)
    → decode_ipv6_bytes octets ≡ ok addr
    → (octets ≡ addr) × (length addr ≡ 16)
unfolding decode_ipv6_bytes
decode_ipv6_bytes-ok octets addr e = elim (Bool-cases (length octets == 16)) [
  | inl q ↦
      let six = (nat_beq_iff (length octets) 16).0 q in
      let same : octets ≡ addr = cc (decode_ipv6_bytes_lem octets six) in
      (same, ap length (sym same) ∙ six)
  | inr q ↦ absurd (ground arith)
]

on_bytes-ok :
    {C : Type 0} (v : View C) {addr : Ipv6Addr}
    → on_bytes v decode_ipv6_bytes (err misformed_ipv6_addr) ≡ ok addr
    → (v ≡ bytes addr) × (length addr ≡ 16)
on_bytes-ok (bytes b) {addr} e =
    let (same, sixteen) = decode_ipv6_bytes-ok b addr e in (ap bytes same, sixteen)
on_bytes-ok (integer k) e = cc
on_bytes-ok (string s) e = cc
on_bytes-ok (array xs) e = cc
on_bytes-ok other e = cc

module _ ⦃cbor : Cbor⦄ where
  open cbor use {CborType, view}

  -- `[O_IPV6_LOCATOR, address, protocol, port, …]`, with an address of 16 octets.
  pub record IsIpv6Item (c : CborType) (addr : Ipv6Addr) (proto port : ℕ) : Type 0 where
    pub option : CborType
    pub address : CborType
    pub transport : CborType
    pub number : CborType
    pub rest : List CborType
    pub transport_proto : ℕ
    pub port_number : ℕ
    pub is_array : view c ≡ array (option ∷ address ∷ transport ∷ number ∷ rest)
    pub named : view option ≡ integer 103
    pub addressed : view address ≡ bytes addr
    pub sixteen : length addr ≡ 16
    pub transported : view transport ≡ integer transport_proto
    pub numbered : view number ≡ integer port_number
    pub low_octet : proto ≡ transport_proto % 2 ^ 8
    pub low_octets : port ≡ port_number % 2 ^ 16

  -- The item is that of an IPv6 locator, which is the locator.
  abbrev pub IsItemOf : CborType → GraspLocator → Type 0
  IsItemOf c l =
      (addr : Ipv6Addr) × (proto : ℕ) × (port : ℕ) × (l ≡ ipv6_locator addr proto port)
      × IsIpv6Item c addr proto port

  parse_locator_option-ok :
      (n : ℕ) (items : List CborType) {l : GraspLocator}
      → parse_locator_option n items ≡ ok (some l)
      → (n ≡ 103) × (grasp_parse_ipv6_locator items ≡ ok (some l))
  unfolding parse_locator_option grasp_parse_ipv4_locator grasp_parse_fqdn_locator
      grasp_parse_uri_locator
  parse_locator_option-ok n items e = ground (arith, nat_beq_iff n 103)

  grasp_parse_ipv6_locator-ok :
      (c o : CborType) (os : List CborType) {l : GraspLocator}
      → view c ≡ array (o ∷ os)
      → view o ≡ integer 103
      → grasp_parse_ipv6_locator (o ∷ os) ≡ ok (some l)
      → IsItemOf c l
  unfolding grasp_parse_ipv6_locator decode_ipv6_cbytes as_integer
  grasp_parse_ipv6_locator-ok c o [] a n e = ground arith
  grasp_parse_ipv6_locator-ok c o (x ∷ []) a n e = ground arith
  grasp_parse_ipv6_locator-ok c o (x ∷ y ∷ []) a n e = ground arith
  grasp_parse_ipv6_locator-ok c o (x ∷ y ∷ z ∷ rest) {l} a n e =
      let enough : ltb (length (o ∷ x ∷ y ∷ z ∷ rest)) 4 ≡ false = ground arith in
      let a1 = passed (decode_ipv6_cbytes x) _ (rw enough at e) in
      let a2 = passed (as_integer misformed_grasp_objective y) _ a1.returned in
      let a3 = passed (as_integer misformed_grasp_objective z) _ a2.returned in
      let (addressed, sixteen) = on_bytes-ok (view x) a1.given in
      (
        a1.value,
        a2.value % 2 ^ 8,
        a3.value % 2 ^ 16,
        cc a3.returned,
        record {
          option = o;
          address = x;
          transport = y;
          number = z;
          rest = rest;
          transport_proto = a2.value;
          port_number = a3.value;
          is_array = a;
          named = n;
          addressed = addressed;
          sixteen = sixteen;
          transported = on_integer-ok (view y) misformed_grasp_objective a2.given;
          numbered = on_integer-ok (view z) misformed_grasp_objective a3.given;
          low_octet = refl;
          low_octets = refl;
        },
      )

  array-ok :
      (c : CborType) (v : View CborType) {l : GraspLocator}
      → view c ≡ v
      → on_array v parse_locator_array (ok none) ≡ ok (some l)
      → IsItemOf c l
  unfolding parse_locator_array as_integer
  array-ok c (integer k) a e = cc
  array-ok c (bytes b) a e = cc
  array-ok c (string s) a e = cc
  array-ok c other a e = cc
  array-ok c (array []) a e = cc
  array-ok c (array (o ∷ os)) a e =
      let a1 = passed (as_integer misformed_grasp_objective o) _ e in
      let (named, e2) = parse_locator_option-ok a1.value (o ∷ os) a1.returned in
      grasp_parse_ipv6_locator-ok c o os a
        (on_integer-ok (view o) misformed_grasp_objective a1.given ∙ ap integer named) e2

  IsIpv6Item-ok :
      (c : CborType) (addr : Ipv6Addr) (proto port : ℕ)
      → IsIpv6Item c addr proto port
      → grasp_parse_locator c ≡ ok (some (ipv6_locator addr proto port))
  unfolding grasp_parse_locator parse_locator_array parse_locator_option grasp_parse_ipv6_locator
      decode_ipv6_cbytes as_integer
  IsIpv6Item-ok c addr proto port i =
      let enough : ltb (length (i.option ∷ i.address ∷ i.transport ∷ i.number ∷ i.rest)) 4 ≡ false =
        ground arith in
      rw
        (
          i.is_array,
          i.named,
          enough,
          i.addressed,
          decode_ipv6_bytes_lem addr i.sixteen,
          i.transported,
          i.numbered,
          i.low_octet,
          i.low_octets,
        )
        refl

  -- An item is decoded to a locator exactly when it is an array that has the number 103 of an IPv6
  -- locator, a byte string of 16 octets, and two integers first, whatever follows; the locator is then
  -- the IPv6 locator with these octets, the low 8 bits of the first integer as its protocol and the low
  -- 16 bits of the second as its port.
  pub grasp_parse_locator_iff :
      (c : CborType) (l : GraspLocator) → grasp_parse_locator c ≡ ok (some l) ↔ IsItemOf c l
  unfolding grasp_parse_locator
  grasp_parse_locator_iff c l = (
    array-ok c (view c) refl,
    λ (addr, proto, port, same, i).
        IsIpv6Item-ok c addr proto port i ∙ sym (ap (λ x. ok (some x)) same),
  )
