-- ===== src/Suite/Acp.antt =====
-- The unit tests of src/acp_interface.rs that feed messages to an ACP interface. Those that only
-- open sockets are left out.
use rooster.Base.{Bool, true, false, ◌≡◌, refl, [], ◌∷◌, some, length}
use rooster.Net.{Ipv6Addr}
use rooster.Grasp.{GraspMessage, ipv6_locator, m_flood}
use rooster.Acp.{
  empty_acp, Available, Heard, note_rtype, note_rtypes, note_registrars,
  calculate_available_registrar, same_discriminant, replace_rtypes, update_rtypes,
  add_to_registrars, add_registrar, announced_type, announced, hearing, announce_objectives,
  registrar_announce,
}
use rooster.Acp.Sample.{clock}

-- fda3:79a6:f6ee:0:200:0:6400:1, and the next.
abbrev pub host_1 : Ipv6Addr
host_1 = 0xfd ∷ 0xa3 ∷ 0x79 ∷ 0xa6 ∷ 0xf6 ∷ 0xee ∷ 0 ∷ 0 ∷ 2 ∷ 0 ∷ 0 ∷ 0 ∷ 0x64 ∷ 0 ∷ 0 ∷ 1 ∷ []

abbrev host_2 : Ipv6Addr
host_2 = 0xfd ∷ 0xa3 ∷ 0x79 ∷ 0xa6 ∷ 0xf6 ∷ 0xee ∷ 0 ∷ 0 ∷ 2 ∷ 0 ∷ 0 ∷ 0 ∷ 0x64 ∷ 0 ∷ 0 ∷ 2 ∷ []

abbrev pub msg1 : GraspMessage
msg1 = record {
  mtype = m_flood;
  session_id = 1;
  initiator = host_1;
  ttl = 180000;
  objectives =
      record {
        objective_name = "AN_join_registrar";
        objective_flags = 4;
        loop_count = 255;
        objective_value = some "";
        locator = some (ipv6_locator host_1 6 8993);
      }
      ∷ [];
}

abbrev msg2 : GraspMessage
msg2 = record msg1 { session_id = 2 }

abbrev msg3 : GraspMessage
msg3 = record {
  mtype = m_flood;
  session_id = 3;
  initiator = host_2;
  ttl = 180000;
  objectives =
      record {
        objective_name = "AN_join_registrar";
        objective_flags = 4;
        loop_count = 255;
        objective_value = some "";
        locator = some (ipv6_locator host_2 6 8993);
      }
      ∷ record {
        objective_name = "AN_join_registrar";
        objective_flags = 4;
        loop_count = 255;
        objective_value = some "BRSKI_RJP";
        locator = some (ipv6_locator host_2 17 2345);
      }
      ∷ record {
        objective_name = "AN_join_registrar";
        objective_flags = 4;
        loop_count = 255;
        objective_value = some "BRSKI_JP";
        locator = some (ipv6_locator host_2 17 3456);
      }
      ∷ [];
}

-- A table that has heard nothing, with the flag that the tests set.
abbrev fresh : Heard
fresh = (empty_acp, true)

abbrev kinds : Bool → Bool → Bool → Available
kinds http coap stateless = record {
  http_avail = http;
  stateful_avail = coap;
  stateless_avail = stateless;
}

abbrev ProcessMflood1 : Type 0
ProcessMflood1 =
    let (aifn, _) = registrar_announce clock msg1 fresh in
    (length aifn.registrars ≡ 1) × (calculate_available_registrar aifn ≡ kinds true false false)

abbrev ProcessMflood2 : Type 0
ProcessMflood2 =
    let once = registrar_announce clock msg1 fresh in
    let (aifn, _) = registrar_announce clock msg2 once in
    (length once.0.registrars ≡ 1)
    × (length aifn.registrars ≡ 1)
    × (calculate_available_registrar aifn ≡ kinds true false false)

abbrev ProcessMflood3 : Type 0
ProcessMflood3 =
    let (aifn, _) = registrar_announce clock msg3 fresh in
    (length aifn.registrars ≡ 1) × (calculate_available_registrar aifn ≡ kinds true true true)

abbrev ProcessMflood13 : Type 0
ProcessMflood13 =
    let (aifn, _) = registrar_announce clock msg3 (registrar_announce clock msg1 fresh) in
    (length aifn.registrars ≡ 2) × (calculate_available_registrar aifn ≡ kinds true true true)

mfloods_hold : ProcessMflood1 × ProcessMflood2 × ProcessMflood3 × ProcessMflood13
unfolding note_rtype note_rtypes note_registrars calculate_available_registrar same_discriminant
    replace_rtypes update_rtypes add_to_registrars add_registrar announced_type announced hearing
    announce_objectives registrar_announce
mfloods_hold = ((refl, refl), (refl, refl, refl), (refl, refl), (refl, refl))
