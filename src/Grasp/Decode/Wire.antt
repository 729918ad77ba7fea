-- ===== src/Grasp/Decode/Wire.antt =====
-- The parts of a flood of src/grasp.rs that survive encoding and decoding.
use mathlib.Core.List.{append-nil, append_assoc}
use rooster.Base.{
  ℕ, zero, suc, ◌<◌, ◌^◌, ◌%◌, String, ◌≡◌, refl, ap, ◌∙◌, List, [], ◌∷◌, ◌++◌, map, Option, none,
  some, arith, length, replicate, set, get_or, All,
}
use rooster.Error.{ok}
use rooster.Net.{Ipv6Addr, IsIpv6}
use rooster.Cbor.{Cbor}
use rooster.Grasp.{
  GraspMessage, GraspObjective, GraspLocator, ipv6_locator, ipv4_locator, fqdn_locator, uri_locator,
  m_flood,
}
use rooster.Grasp.Locators.{
  copy_octets, decode_ipv6_bytes, decode_ipv6_cbytes, as_integer, as_string,
  grasp_parse_ipv6_locator, parse_locator_option, grasp_parse_locator,
}
use rooster.Grasp.Objectives.{
  objective_value_of, decode_objective_array, decode_objective, decode_objective_item,
  decode_objectives_loop, decode_objectives, conclude_objectives, Progress,
}
use rooster.Grasp.Encode.{encode_grasp_locator, encode_grasp_objective}

copy_octets-cons :
    (n b x y : ℕ) (src dst : List ℕ)
    → copy_octets n (suc b) (x ∷ src) (y ∷ dst) ≡ y ∷ copy_octets n b src dst
unfolding copy_octets
copy_octets-cons zero b x y src dst = refl
copy_octets-cons (suc n) b x y src dst =
    copy_octets-cons n (suc b) x y src (set dst b (get_or src b 0))

copy_octets_all :
    (src dst : List ℕ) → length src ≡ length dst → copy_octets (length src) 0 src dst ≡ src
unfolding copy_octets
copy_octets_all [] [] h = refl
copy_octets_all [] (y ∷ dst) h = absurd (omega arith)
copy_octets_all (x ∷ src) [] h = absurd (omega arith)
copy_octets_all (x ∷ src) (y ∷ dst) h =
    copy_octets-cons (length src) 0 x x src dst ∙ ap (◌∷◌ x) (copy_octets_all src dst (omega arith))

-- The loop that copies sixteen octets copies them all.
pub decode_ipv6_bytes_lem : (a : Ipv6Addr) → IsIpv6 a → decode_ipv6_bytes a ≡ ok a
unfolding decode_ipv6_bytes
decode_ipv6_bytes_lem a h = rw h (ap ok (rw h at (copy_octets_all a (replicate 16 0) h)))

-- What the 16-octet address, the protocol and the port of a locator must be to survive the wire.
abbrev pub IsWireLocator : Option GraspLocator → Type 0
IsWireLocator (some (ipv6_locator a proto port)) = IsIpv6 a × (proto < 2 ^ 8) × (port < 2 ^ 16)
IsWireLocator _ = ⊥

abbrev pub IsPresent : Option String → Type 0
IsPresent (some _) = Unit
IsPresent none = ⊥

pub record IsWireObjective (o : GraspObjective) : Type 0 where
  pub flags_fit : o.objective_flags < 2 ^ 32
  pub loops_fit : o.loop_count < 2 ^ 8
  pub has_value : IsPresent o.objective_value
  pub has_locator : IsWireLocator o.locator

pub record IsWireFlood (m : GraspMessage) : Type 0 where
  pub floods : m.mtype ≡ m_flood
  pub id_fits : m.session_id < 2 ^ 32
  pub ttl_fits : m.ttl < 2 ^ 32
  pub initiator_fits : IsIpv6 m.initiator
  pub objectives_fit : All IsWireObjective m.objectives

wire_value : (v : Option String) → IsPresent v → (s : String) × (v ≡ some s)
wire_value (some s) h = (s, refl)
wire_value none h = absurd h

pub wire_locator :
    (l : Option GraspLocator)
    → IsWireLocator l
    → (a : Ipv6Addr) × (p : ℕ) × (n : ℕ) × (l ≡ some (ipv6_locator a p n))
      × IsIpv6 a
      × (p < 2 ^ 8)
      × (n < 2 ^ 16)
wire_locator (some (ipv6_locator a p n)) h = (a, p, n, refl, h.0, h.1, h.2)
wire_locator (some (ipv4_locator a p n)) h = absurd h
wire_locator (some (fqdn_locator a p n)) h = absurd h
wire_locator (some (uri_locator a p n)) h = absurd h
wire_locator none h = absurd h

module _ ⦃cbor : Cbor⦄ where
  open cbor use {
    CborType, view, make_integer, make_bytes, make_string, make_array, view-integer, view-bytes,
    view-string, view-array,
  }

  -- A locator for IPv6 is read back as it was written.
  pub parse-encode_locator :
      (a : Ipv6Addr) (proto port : ℕ)
      → IsIpv6 a
      → proto < 2 ^ 8
      → port < 2 ^ 16
      → grasp_parse_locator (encode_grasp_locator (ipv6_locator a proto port))
        ≡ ok (some (ipv6_locator a proto port))
  unfolding grasp_parse_locator grasp_parse_ipv6_locator parse_locator_option as_integer
      decode_ipv6_cbytes encode_grasp_locator
  parse-encode_locator a proto port ha hp hn =
      let p' : proto % 2 ^ 8 ≡ proto = omega arith in
      let n' : port % 2 ^ 16 ≡ port = omega arith in
      simp (
        grasp_parse_locator,
        decode_ipv6_cbytes,
        as_integer,
        view-array,
        view-integer,
        view-bytes,
        decode_ipv6_bytes_lem a ha,
        p',
        n',
      )

  decode-encode_fields :
      (name value : String) (flags loops : ℕ) (l : GraspLocator)
      → flags < 2 ^ 32
      → loops < 2 ^ 8
      → grasp_parse_locator (encode_grasp_locator l) ≡ ok (some l)
      → decode_objective (
          make_array
            (make_string name ∷ make_integer flags ∷ make_integer loops ∷ make_string value ∷ [])
          ∷ encode_grasp_locator l
          ∷ [])
        ≡ ok (record {
          objective_name = name;
          objective_flags = flags;
          loop_count = loops;
          objective_value = some value;
          locator = some l;
        })
  unfolding decode_objective decode_objective_array objective_value_of as_integer as_string
  decode-encode_fields name value flags loops l hf hl hp =
      let f' : flags % 2 ^ 32 ≡ flags = omega arith in
      let l' : loops % 2 ^ 8 ≡ loops = omega arith in
      simp
        (decode_objective, as_integer, as_string, view-array, view-integer, view-string, hp, f', l')

  -- One round of the loop over the objectives takes up a complete objective as it was encoded.
  pub decode-encode_objective :
      (s : Progress) (o : GraspObjective)
      → IsWireObjective o
      → decode_objective_item s (encode_grasp_objective o) ≡ ok (s.0 ++ (o ∷ []), s.1)
  unfolding encode_grasp_objective decode_objective_item
  decode-encode_objective s o h =
      let (v, ev) = wire_value o.objective_value h.has_value in
      let (a, p, n, el, ha, hp, hn) = wire_locator o.locator h.has_locator in
      rw (ev, el, encode_grasp_objective)
        (simp (
          decode_objective_item,
          view-array,
          decode-encode_fields o.objective_name v o.objective_flags o.loop_count
              (ipv6_locator a p n) h.flags_fit h.loops_fit (parse-encode_locator a p n ha hp hn),
        ))

  pub decode-encode_loop :
      (s : Progress) (os : List GraspObjective)
      → All IsWireObjective os
      → decode_objectives_loop s (map encode_grasp_objective os) ≡ ok (s.0 ++ os, s.1)
  unfolding decode_objectives_loop
  decode-encode_loop s [] h = simp append-nil
  decode-encode_loop s (o ∷ os) h =
      rw (decode-encode_objective s o h.0)
        (rw (decode-encode_loop (s.0 ++ (o ∷ []), s.1) os h.1) (simp append_assoc))

  pub decode-encode_objectives :
      (os : List GraspObjective)
      → All IsWireObjective os
      → decode_objectives (map encode_grasp_objective os) ≡ ok os
  unfolding decode_objectives
  decode-encode_objectives os h = rw (decode-encode_loop ([], none) os h) (conclude os)
    where
      conclude : (os : List GraspObjective) → conclude_objectives (os, none) ≡ ok os
      conclude [] = refl
      conclude (o ∷ os) = refl
