-- ===== src/Grasp/Locators.antt =====
-- The decoders of src/grasp.rs for addresses and locators. A read `v[i]` out of range panics.
use rooster.Base.{
  ℕ, zero, suc, ◌%◌, ◌^◌, String, List, Option, none, some, ◌==◌, equality_nat, ltb, if◌then◌else◌,
  length, get_or, set, replicate,
}
use rooster.Error.{
  ConnectError, misformed_grasp_objective, unimplemented_grasp_stuff, misformed_ipv6_addr, Outcome,
  ok, err, ◌>>=◌, index,
}
use rooster.Net.{Ipv6Addr}
use rooster.Cbor.{Cbor, on_array, on_bytes, on_integer, on_string}
use rooster.Grasp.{
  GraspLocator, ipv6_locator, o_ipv6_locator, o_ipv4_locator, o_fqdn_locator, o_uri_locator,
}

-- `for b in 0..n { dst[b] = src[b]; }`, from round `b` on with `n` rounds left.
unfoldable pub copy_octets : ℕ → ℕ → List ℕ → List ℕ → List ℕ
copy_octets zero b src dst = dst
copy_octets (suc n) b src dst = copy_octets n (suc b) src (set dst b (get_or src b 0))

unfoldable pub decode_ipv6_bytes : List ℕ → Outcome Ipv6Addr
unfolding copy_octets
decode_ipv6_bytes octets =
    if length octets == 16
    then ok (copy_octets 16 0 octets (replicate 16 0))
    else err misformed_ipv6_addr

module _ ⦃cbor : Cbor⦄ where
  open cbor use {CborType, view}

  unfoldable pub decode_ipv6_cbytes : CborType → Outcome Ipv6Addr
  decode_ipv6_cbytes c = on_bytes (view c) decode_ipv6_bytes (err misformed_ipv6_addr)

  -- `match c { Integer(num) => num, _ => return Err(e) }`.
  unfoldable pub as_integer : ConnectError → CborType → Outcome ℕ
  as_integer e c = on_integer (view c) ok (err e)

  -- `match c { String(name) => name, _ => return Err(e) }`.
  unfoldable pub as_string : ConnectError → CborType → Outcome String
  as_string e c = on_string (view c) ok (err e)

  unfoldable pub grasp_parse_ipv4_locator : List CborType → Outcome (Option GraspLocator)
  grasp_parse_ipv4_locator _ = err unimplemented_grasp_stuff

  unfoldable pub grasp_parse_fqdn_locator : List CborType → Outcome (Option GraspLocator)
  grasp_parse_fqdn_locator _ = err unimplemented_grasp_stuff

  unfoldable pub grasp_parse_uri_locator : List CborType → Outcome (Option GraspLocator)
  grasp_parse_uri_locator _ = err unimplemented_grasp_stuff

  unfoldable pub grasp_parse_ipv6_locator : List CborType → Outcome (Option GraspLocator)
  grasp_parse_ipv6_locator items =
      if ltb (length items) 4 then err misformed_grasp_objective else do
        v6addr ← decode_ipv6_cbytes (← index items 1)
        transport_proto ← as_integer misformed_grasp_objective (← index items 2)
        port_number ← as_integer misformed_grasp_objective (← index items 3)
        ok (some (ipv6_locator v6addr (transport_proto % 2 ^ 8) (port_number % 2 ^ 16)))

  -- The option number at the head of a locator says which kind it is.
  unfoldable pub parse_locator_option : ℕ → List CborType → Outcome (Option GraspLocator)
  parse_locator_option n items =
      if n == o_ipv6_locator
      then grasp_parse_ipv6_locator items
      else if n == o_ipv4_locator
      then grasp_parse_ipv4_locator items
      else if n == o_fqdn_locator
      then grasp_parse_fqdn_locator items
      else if n == o_uri_locator
      then grasp_parse_uri_locator items
      else err misformed_grasp_objective

  unfoldable pub parse_locator_array : List CborType → Outcome (Option GraspLocator)
  parse_locator_array items = do
    n ← as_integer misformed_grasp_objective (← index items 0)
    parse_locator_option n items

  -- What is no array is no locator.
  unfoldable pub grasp_parse_locator : CborType → Outcome (Option GraspLocator)
  unfolding parse_locator_array
  grasp_parse_locator c = on_array (view c) parse_locator_array (ok none)
