-- ===== src/Suite/Grasp.antt =====
-- The unit tests of src/grasp.rs.
use rooster.Base.{ℕ, ◌≡◌, refl, List, [], ◌∷◌, drop, get_or, some}
use rooster.Error.{ok, err, misformed_ipv6_addr, unimplemented_grasp_stuff}
use rooster.Net.{Ipv6Addr}
use rooster.Cbor.Sample.{Tree, num, octets, text, items, of_list, sample_cbor}
use rooster.Cbor.Octets.{serialize, decode}
use rooster.Grasp.{
  GraspMessage, GraspLocator, ipv6_locator, m_flood, f_sync, o_ipv6_locator, o_ipv4_locator,
}
use rooster.Grasp.Locators.{
  copy_octets, decode_ipv6_bytes, decode_ipv6_cbytes, as_integer, as_string,
  grasp_parse_ipv4_locator, grasp_parse_ipv6_locator, parse_locator_option, parse_locator_array,
  grasp_parse_locator,
}
use rooster.Grasp.Objectives.{
  collect, conclude_objectives, objective_value_of, decode_objective_array, decode_objective,
  decode_objective_item, decode_objectives_loop, decode_objectives,
}
use rooster.Grasp.Decode.{
  decode_base_grasp, decode_grasp_noop, flood_initiator, decode_grasp_flood, decode_by_type,
  decode_message_array, decode_grasp_message,
}
use rooster.Grasp.Encode.{
  encode_grasp_mtype, locator_items, encode_grasp_locator, value_items, locator_item,
  encode_grasp_objective, encode_dull_grasp_message,
}
use rooster.Join.{ipproto_tcp}
use rooster.Suite.Packets.{packet_000, packet_s01, packet_s02, packet_420}

abbrev ipproto_udp : ℕ
ipproto_udp = 17

-- `decode(slice).unwrap()` and `decode_grasp_message(thing)?`, without an error.
abbrev Parses : List ℕ → Type 0
Parses slice =
    (thing : Tree) × (msg : GraspMessage) × (decode slice ≡ some thing)
    × (decode_grasp_message thing ≡ ok msg)

abbrev TestParseGrasp000 : Type 0
TestParseGrasp000 =
    let slice = drop 62 packet_000 in
    (get_or packet_000 14 0 ≡ 0x60) × (get_or slice 0 0 ≡ 0x85) × Parses slice

abbrev TestParseGrasp420 : Type 0
TestParseGrasp420 =
    let slice = drop 62 packet_420 in
    (get_or packet_420 14 0 ≡ 0x60) × (get_or slice 0 0 ≡ 0x85) × Parses slice

abbrev TestParseGraspS01 : Type 0
TestParseGraspS01 = (get_or packet_s01 0 0 ≡ 0x85) × Parses packet_s01

abbrev TestParseGraspS02 : Type 0
TestParseGraspS02 = (get_or packet_s02 0 0 ≡ 0x81) × Parses packet_s02

parses_hold : TestParseGrasp000 × TestParseGrasp420 × TestParseGraspS01 × TestParseGraspS02
unfolding decode_grasp_message decode_message_array decode_base_grasp decode_by_type
    decode_grasp_noop decode_grasp_flood flood_initiator decode_objectives decode_objectives_loop
    decode_objective_item collect conclude_objectives decode_objective decode_objective_array
    objective_value_of as_integer as_string grasp_parse_locator parse_locator_array
    parse_locator_option grasp_parse_ipv4_locator grasp_parse_ipv6_locator decode_ipv6_cbytes
    decode_ipv6_bytes copy_octets
parses_hold = (
  (refl, refl, (_, _, refl, refl)),
  (refl, refl, (_, _, refl, refl)),
  (refl, (_, _, refl, refl)),
  (refl, (_, _, refl, refl)),
)

-- FE80::1, that without its last octet, and with one more.
abbrev v6_01 : Ipv6Addr
v6_01 = 0xfe ∷ 0x80 ∷ 0 ∷ 0 ∷ 0 ∷ 0 ∷ 0 ∷ 0 ∷ 0 ∷ 0 ∷ 0 ∷ 0 ∷ 0 ∷ 0 ∷ 0 ∷ 1 ∷ []

abbrev v6_02 : List ℕ
v6_02 = 0xfe ∷ 0x80 ∷ 0 ∷ 0 ∷ 0 ∷ 0 ∷ 0 ∷ 0 ∷ 0 ∷ 0 ∷ 0 ∷ 0 ∷ 0 ∷ 0 ∷ 0 ∷ []

abbrev v6_03 : List ℕ
v6_03 = 0xfe ∷ 0x80 ∷ 0 ∷ 0 ∷ 0 ∷ 0 ∷ 0 ∷ 0 ∷ 0 ∷ 0 ∷ 0 ∷ 0 ∷ 0 ∷ 0 ∷ 0 ∷ 0 ∷ 0 ∷ []

abbrev TestValidIpv6Bytes : Type 0
TestValidIpv6Bytes =
    (decode_ipv6_bytes v6_01 ≡ ok v6_01)
    × (decode_ipv6_bytes v6_02 ≡ err misformed_ipv6_addr)
    × (decode_ipv6_bytes v6_03 ≡ err misformed_ipv6_addr)

abbrev TestValidIpv6CborBytes : Type 0
TestValidIpv6CborBytes =
    (decode_ipv6_cbytes (octets v6_01) ≡ ok v6_01)
    × (decode_ipv6_cbytes (octets v6_02) ≡ err misformed_ipv6_addr)
    × (decode_ipv6_cbytes (octets v6_03) ≡ err misformed_ipv6_addr)

-- FE80::1122
abbrev expectv6 : Ipv6Addr
expectv6 = 0xfe ∷ 0x80 ∷ 0 ∷ 0 ∷ 0 ∷ 0 ∷ 0 ∷ 0 ∷ 0 ∷ 0 ∷ 0 ∷ 0 ∷ 0 ∷ 0 ∷ 0x11 ∷ 0x22 ∷ []

abbrev build_locator_01 : List Tree
build_locator_01 = num o_ipv6_locator ∷ octets expectv6 ∷ num ipproto_tcp ∷ num 4598 ∷ []

abbrev build_locator_c02 : Tree
build_locator_c02 = items (of_list build_locator_01)

abbrev exp_locator : GraspLocator
exp_locator = ipv6_locator expectv6 ipproto_tcp 4598

abbrev TestIpv6Locator01 : Type 0
TestIpv6Locator01 = grasp_parse_ipv6_locator build_locator_01 ≡ ok (some exp_locator)

abbrev TestIpv6Locator02 : Type 0
TestIpv6Locator02 = grasp_parse_locator build_locator_c02 ≡ ok (some exp_locator)

abbrev TestIpv4Locator03 : Type 0
TestIpv4Locator03 =
    let locator4 =
      num o_ipv4_locator ∷ octets (127 ∷ 0 ∷ 0 ∷ 1 ∷ []) ∷ num ipproto_tcp ∷ num 4598 ∷ [] in
    (grasp_parse_ipv6_locator locator4 ≡ err misformed_ipv6_addr)
    × (grasp_parse_locator (items (of_list locator4)) ≡ err unimplemented_grasp_stuff)

locators_hold :
    TestValidIpv6Bytes × TestValidIpv6CborBytes × TestIpv6Locator01 × TestIpv6Locator02
    × TestIpv4Locator03
unfolding as_integer grasp_parse_locator parse_locator_array parse_locator_option
    grasp_parse_ipv4_locator grasp_parse_ipv6_locator decode_ipv6_cbytes decode_ipv6_bytes
    copy_octets
locators_hold = ((refl, refl, refl), (refl, refl, refl), refl, refl, (refl, refl))

abbrev build_objective_c01 : Tree
build_objective_c01 = items (of_list (text "EX1@example" ∷ num 4 ∷ num 32 ∷ text "HELP!" ∷ []))

abbrev build_objective_c03 : Tree
build_objective_c03 = items (of_list (text "EX2@example" ∷ num 6 ∷ num 31 ∷ text "Goaway!" ∷ []))

abbrev TestFloodObjective : Type 0
TestFloodObjective =
    decode_objectives (
      items (of_list (build_objective_c01 ∷ build_locator_c02 ∷ []))
      ∷ items (of_list (build_objective_c03 ∷ build_locator_c02 ∷ []))
      ∷ [])
    ≡ ok (
        record {
          objective_name = "EX1@example";
          objective_flags = 4;
          loop_count = 32;
          objective_value = some "HELP!";
          locator = some exp_locator;
        }
        ∷ record {
          objective_name = "EX2@example";
          objective_flags = 6;
          loop_count = 31;
          objective_value = some "Goaway!";
          locator = some exp_locator;
        }
        ∷ [])

TestFloodObjective-holds : TestFloodObjective
unfolding decode_objectives decode_objectives_loop decode_objective_item collect conclude_objectives
    decode_objective decode_objective_array objective_value_of as_integer as_string
    grasp_parse_locator parse_locator_array parse_locator_option grasp_parse_ipv6_locator
    decode_ipv6_cbytes decode_ipv6_bytes copy_octets
TestFloodObjective-holds = refl

abbrev create_mflood : GraspMessage
create_mflood = record {
  mtype = m_flood;
  session_id = 14;
  initiator = expectv6;
  ttl = 1;
  objectives =
      record {
        objective_name = "AN_ACP";
        objective_flags = f_sync;
        loop_count = 1;
        objective_value = some "IKEv2";
        locator = some (ipv6_locator expectv6 ipproto_udp 500);
      }
      ∷ [];
}

-- `msg.encode_dull_grasp_message().unwrap()`, serialized, is the sample packet.
abbrev TestCreateMflood : Type 0
TestCreateMflood =
    (cbor : Tree) × (encode_dull_grasp_message create_mflood ≡ ok cbor)
    × (serialize cbor ≡ packet_s01)

TestCreateMflood-holds : TestCreateMflood
unfolding encode_dull_grasp_message encode_grasp_objective encode_grasp_locator locator_items
    value_items locator_item encode_grasp_mtype
TestCreateMflood-holds = (_, refl, refl)
