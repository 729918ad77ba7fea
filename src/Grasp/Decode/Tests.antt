-- ===== src/Grasp/Decode/Tests.antt =====
-- Examples for src/grasp.rs.
use rooster.Base.{◌≡◌, ◌↔◌, refl, List, [], ◌∷◌, none, some, All, arith}
use rooster.Error.{ok, panic, ◌>>=◌}
use rooster.Cbor.Sample.{Tree, num, octets, text, items, of_list, null, sample_cbor}
use rooster.Grasp.{GraspMessage, GraspObjective, ipv6_locator}
use rooster.Grasp.Locators.{
  as_string, as_integer, grasp_parse_locator, parse_locator_array, parse_locator_option,
  grasp_parse_ipv6_locator, decode_ipv6_cbytes, decode_ipv6_bytes, copy_octets,
}
use rooster.Grasp.Objectives.{
  decode_objective, decode_objective_array, objective_value_of, decode_objectives,
}
use rooster.Grasp.Decode.{decode_grasp_message, decode_dull_grasp_message}
use rooster.Grasp.Encode.{encode_dull_grasp_message}
use rooster.Grasp.Decode.RoundTrip.{decode-encode}
use rooster.Grasp.Decode.Faults.{flood_without_initiator, flood_without_ttl, no_value-panic}
use rooster.Grasp.Decode.Accepted.{IsItemOf, grasp_parse_locator_iff}
use rooster.Grasp.Decode.Dull.{decode_dull-eq-ok}
use rooster.Grasp.Sample.{
  host, registrar, flood, flood-IsWireFlood, registrar_item, flood_item, encode_flood, two_items,
}
use rooster.Grasp.Decode.Partial.{IsReadable, kept, kept_or_refused, decode_objectives-kept}

decode-encode_example :
    ((encode_dull_grasp_message flood >>= decode_grasp_message) ≡ ok flood)
    × ((encode_dull_grasp_message flood >>= decode_dull_grasp_message) ≡ ok flood)
decode-encode_example = decode-encode flood flood-IsWireFlood

decode_flood_item : decode_grasp_message flood_item ≡ ok flood
decode_flood_item = rw encode_flood at (decode-encode flood flood-IsWireFlood).0

decode_dull-eq-ok_example :
    (decode_dull_grasp_message flood_item ≡ ok flood) ↔ (decode_grasp_message flood_item ≡ ok flood)
decode_dull-eq-ok_example = decode_dull-eq-ok flood_item flood

flood_without_initiator_test :
    (decode_grasp_message two_items ≡ panic) × (decode_dull_grasp_message two_items ≡ panic)
flood_without_initiator_test =
    flood_without_initiator {c0 = num 9} {c1 = num 42} refl refl refl refl

abbrev three_items : Tree
three_items = items (of_list (num 9 ∷ num 42 ∷ octets host ∷ []))

flood_without_ttl_test :
    (decode_grasp_message three_items ≡ panic) × (decode_dull_grasp_message three_items ≡ panic)
flood_without_ttl_test =
    flood_without_ttl {c0 = num 9} {c1 = num 42} {c2 = octets host} refl refl refl refl refl refl

-- An objective without a value, behind a complete one.
abbrev bare : GraspObjective
bare = record registrar { objective_value = none }

abbrev bare_flood : GraspMessage
bare_flood = record flood { objectives = registrar ∷ bare ∷ [] }

no_value-panic_example :
    ((encode_dull_grasp_message bare_flood >>= decode_grasp_message) ≡ panic)
    × ((encode_dull_grasp_message bare_flood >>= decode_dull_grasp_message) ≡ panic)
no_value-panic_example =
    no_value-panic bare_flood (registrar ∷ []) [] bare refl refl flood-IsWireFlood.objectives_fit
      refl (refl, omega arith, omega arith) refl

-- An item that is no objective, and one that is.
abbrev mixed : List Tree
mixed = items (of_list (num 1 ∷ num 2 ∷ [])) ∷ registrar_item ∷ []

mixed-IsReadable : All IsReadable mixed
unfolding decode_objective decode_objective_array objective_value_of as_string as_integer
    grasp_parse_locator parse_locator_array parse_locator_option grasp_parse_ipv6_locator
    decode_ipv6_cbytes decode_ipv6_bytes copy_octets
mixed-IsReadable = (
  record { pair = num 1 ∷ num 2 ∷ []; is_array = refl; reads = cc },
  (
    record {
      pair =
          items (of_list (text "AN_join_registrar" ∷ num 4 ∷ num 255 ∷ text "BRSKI" ∷ []))
          ∷ items (of_list (num 103 ∷ octets host ∷ num 6 ∷ num 8993 ∷ []))
          ∷ [];
      is_array = refl;
      reads = cc;
    },
    tt,
  ),
)

decode_objectives-kept_example : decode_objectives mixed ≡ kept_or_refused mixed (kept mixed)
decode_objectives-kept_example = decode_objectives-kept mixed mixed-IsReadable

kept-mixed : kept mixed ≡ registrar ∷ []
unfolding kept decode_objective decode_objective_array objective_value_of as_string as_integer
    grasp_parse_locator parse_locator_array parse_locator_option grasp_parse_ipv6_locator
    decode_ipv6_cbytes decode_ipv6_bytes copy_octets
kept-mixed = refl

-- A locator with an item more, whose protocol and port have bits that are cut.
abbrev locator_item : Tree
locator_item = items (of_list (num 103 ∷ octets host ∷ num 262 ∷ num 65979 ∷ null ∷ []))

grasp_parse_locator_iff_example :
    (grasp_parse_locator locator_item ≡ ok (some (ipv6_locator host 6 443)))
    ↔ IsItemOf locator_item (ipv6_locator host 6 443)
grasp_parse_locator_iff_example = grasp_parse_locator_iff locator_item (ipv6_locator host 6 443)

locator_is_item : IsItemOf locator_item (ipv6_locator host 6 443)
locator_is_item = (
  host,
  6,
  443,
  refl,
  record {
    option = num 103;
    address = octets host;
    transport = num 262;
    number = num 65979;
    rest = null ∷ [];
    transport_proto = 262;
    port_number = 65979;
    is_array = refl;
    named = refl;
    addressed = refl;
    sixteen = refl;
    transported = refl;
    numbered = refl;
    low_octet = refl;
    low_octets = refl;
  },
)

locator_is_parsed : grasp_parse_locator locator_item ≡ ok (some (ipv6_locator host 6 443))
locator_is_parsed =
    (grasp_parse_locator_iff locator_item (ipv6_locator host 6 443)).1 locator_is_item
