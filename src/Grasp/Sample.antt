-- ===== src/Grasp/Sample.antt =====
-- A flood that a registrar sends, for the examples.
use rooster.Base.{◌≡◌, refl, [], ◌∷◌, some, arith}
use rooster.Error.{ok}
use rooster.Net.{Ipv6Addr}
use rooster.Cbor.Sample.{Tree, num, octets, text, items, of_list, sample_cbor}
use rooster.Grasp.{GraspMessage, GraspObjective, ipv6_locator, m_flood}
use rooster.Grasp.Encode.{
  encode_grasp_mtype, locator_items, value_items, locator_item, encode_grasp_locator,
  encode_grasp_objective, encode_dull_grasp_message,
}
use rooster.Grasp.Decode.Wire.{IsWireFlood}

abbrev pub host : Ipv6Addr
host = 0xfe ∷ 0x80 ∷ 0 ∷ 0 ∷ 0 ∷ 0 ∷ 0 ∷ 0 ∷ 0 ∷ 0 ∷ 0 ∷ 0 ∷ 0 ∷ 0 ∷ 0 ∷ 7 ∷ []

abbrev pub registrar : GraspObjective
registrar = record {
  objective_name = "AN_join_registrar";
  objective_flags = 4;
  loop_count = 255;
  objective_value = some "BRSKI";
  locator = some (ipv6_locator host 6 8993);
}

abbrev pub flood : GraspMessage
flood = record {
  mtype = m_flood;
  session_id = 42;
  initiator = host;
  ttl = 180000;
  objectives = registrar ∷ [];
}

pub flood-IsWireFlood : IsWireFlood flood
flood-IsWireFlood = record {
  floods = refl;
  id_fits = omega arith;
  ttl_fits = omega arith;
  initiator_fits = refl;
  objectives_fit = (
    record {
      flags_fit = omega arith;
      loops_fit = omega arith;
      has_value = tt;
      has_locator = (refl, omega arith, omega arith);
    },
    tt,
  );
}

abbrev pub registrar_item : Tree
registrar_item = items (
    of_list (
      items (of_list (text "AN_join_registrar" ∷ num 4 ∷ num 255 ∷ text "BRSKI" ∷ []))
      ∷ items (of_list (num 103 ∷ octets host ∷ num 6 ∷ num 8993 ∷ []))
      ∷ []))

abbrev pub flood_item : Tree
flood_item = items (of_list (num 9 ∷ num 42 ∷ octets host ∷ num 180000 ∷ registrar_item ∷ []))

pub encode_flood : encode_dull_grasp_message flood ≡ ok flood_item
unfolding encode_dull_grasp_message encode_grasp_objective encode_grasp_locator locator_items
    value_items locator_item encode_grasp_mtype
encode_flood = refl

abbrev pub two_items : Tree
two_items = items (of_list (num 9 ∷ num 42 ∷ []))
