-- ===== src/Grasp/Decode/RoundTrip.antt =====
-- The decoder of src/grasp.rs on what its encoder writes.
use rooster.Base.{◌^◌, ◌%◌, ◌≡◌, ◌∙◌, List, ◌∷◌, map, arith}
use rooster.Error.{ok, ◌>>=◌}
use rooster.Net.{IsIpv6}
use rooster.Cbor.{Cbor}
use rooster.Grasp.{GraspMessage, GraspObjective, m_flood}
use rooster.Grasp.Locators.{as_integer}
use rooster.Grasp.Objectives.{decode_objectives}
use rooster.Grasp.Decode.{
  flood_initiator, decode_grasp_flood, decode_grasp_message, decode_dull_grasp_message,
}
use rooster.Grasp.Decode.Steps.{decode_flood, decode_dull_flood}
use rooster.Grasp.Encode.{encode_grasp_mtype, encode_grasp_objective, encode_dull_grasp_message}
use rooster.Grasp.Decode.Wire.{decode_ipv6_bytes_lem, IsWireFlood, decode-encode_objectives}

module _ ⦃cbor : Cbor⦄ where
  open cbor use {
    CborType, view, make_integer, make_bytes, make_string, make_array, view-integer, view-bytes,
    view-string, view-array,
  }

  -- The header that the decoder reads back, with the objectives that it makes of the rest.
  abbrev pub reread : GraspMessage → List GraspObjective → GraspMessage
  reread m os = record {
    mtype = m_flood;
    session_id = m.session_id % 2 ^ 32;
    initiator = m.initiator;
    ttl = m.ttl % 2 ^ 32;
    objectives = os;
  }

  module _ (m : GraspMessage) (floods : m.mtype ≡ m_flood) (fits : IsIpv6 m.initiator) where
    flood_of_encoded :
        (t : CborType)
        → decode_grasp_flood (m.session_id % 2 ^ 32) (
            t
            ∷ make_integer m.session_id
            ∷ make_bytes m.initiator
            ∷ make_integer m.ttl
            ∷ map encode_grasp_objective m.objectives)
          ≡ (decode_objectives (map encode_grasp_objective m.objectives) >>= λ os. ok (reread m os))
    unfolding decode_grasp_flood as_integer
    flood_of_encoded t = simp (
      flood_initiator,
      as_integer,
      view-bytes,
      view-integer,
      decode_ipv6_bytes_lem m.initiator fits,
    )

    -- Of an encoded flood the decoders read the header, and then the objectives one by one.
    pub decode_encoded :
        ((encode_dull_grasp_message m >>= decode_grasp_message) ≡ (
          decode_objectives (map encode_grasp_objective m.objectives) >>= λ os. ok (reread m os)))
        × ((encode_dull_grasp_message m >>= decode_dull_grasp_message) ≡ (
            decode_objectives (map encode_grasp_objective m.objectives) >>= λ os. ok (reread m os)))
    unfolding encode_dull_grasp_message encode_grasp_mtype
    decode_encoded =
        let is_type = view-integer (encode_grasp_mtype m.mtype) in
        let is_flood : encode_grasp_mtype m.mtype % 2 ^ 32 ≡ 9 = rw floods in
        let id = view-integer m.session_id in
        (
          decode_flood (view-array _) is_type id is_flood ∙ flood_of_encoded _,
          decode_dull_flood (view-array _) is_type id is_flood ∙ flood_of_encoded _,
        )

  -- A flood that fits the wire, with a value and an IPv6 locator in each objective, is decoded to
  -- what was encoded, by the decoder for all messages and by the one for DULL mode.
  pub decode-encode :
      (m : GraspMessage)
      → IsWireFlood m
      → ((encode_dull_grasp_message m >>= decode_grasp_message) ≡ ok m)
        × ((encode_dull_grasp_message m >>= decode_dull_grasp_message) ≡ ok m)
  decode-encode m h =
      let (full, dull) = decode_encoded m h.floods h.initiator_fits in (full ∙ same, dull ∙ same)
    where
      same :
          (decode_objectives (map encode_grasp_objective m.objectives) >>= λ os. ok (reread m os))
          ≡ ok m
      same =
          let id' : m.session_id % 2 ^ 32 ≡ m.session_id = omega (arith, h.id_fits) in
          let ttl' : m.ttl % 2 ^ 32 ≡ m.ttl = omega (arith, h.ttl_fits) in
          rw (decode-encode_objectives m.objectives h.objectives_fit) (cc (h.floods, id', ttl'))
