-- ===== src/Grasp/Decode.antt =====
-- The decoders of src/grasp.rs for messages, from a CBOR value.
pub mod Steps
pub mod Wire
pub mod RoundTrip
pub mod Faults
pub mod Dull
pub mod Partial
pub mod Accepted
mod Tests
use rooster.Base.{
  ℕ, zero, suc, ◌+◌, ◌%◌, ◌^◌, String, Bool, true, false, List, [], ◌∷◌, ◌++◌, Option, none, some,
  ◌==◌, equality_nat, ltb, leb, if◌then◌else◌, length, get_or, set, drop, replicate,
}
use rooster.Error.{
  ConnectError, misformed_grasp_message, misformed_grasp_objective, unimplemented_grasp_stuff,
  misformed_ipv6_addr, illegal_dull_grasp_message, Outcome, ok, err, panic, ◌>>=◌, index,
}
use rooster.Net.{Ipv6Addr, unspecified}
use rooster.Cbor.{Cbor, on_array, on_bytes, on_integer, on_string}
use rooster.Grasp.{
  GraspMessage, GraspObjective, GraspLocator, ipv6_locator, m_noop, m_flood, o_ipv6_locator,
  o_ipv4_locator, o_fqdn_locator, o_uri_locator,
}
use rooster.Grasp.Locators.{
  copy_octets, decode_ipv6_bytes, decode_ipv6_cbytes, as_integer, as_string,
  grasp_parse_ipv4_locator, grasp_parse_fqdn_locator, grasp_parse_uri_locator,
  grasp_parse_ipv6_locator, parse_locator_option, parse_locator_array, grasp_parse_locator,
}
use rooster.Grasp.Objectives.{
  Progress, collect, conclude_objectives, objective_value_of, decode_objective_array,
  decode_objective, decode_objective_item, decode_objectives_loop, decode_objectives,
}

module _ ⦃cbor : Cbor⦄ where
  open cbor use {CborType, view}

  -- Message type and session id, both cut to 32 bits.
  unfoldable pub decode_base_grasp : List CborType → Outcome (ℕ × ℕ)
  decode_base_grasp contents = do
    num ← as_integer misformed_grasp_message (← index contents 0)
    let msgtype = num % 2 ^ 32
    if msgtype == 0
        then ok (msgtype, 0)
        else if ltb (length contents) 2
        then err misformed_grasp_message
        else do
          id ← as_integer misformed_grasp_message (← index contents 1)
          ok (msgtype, id % 2 ^ 32)

  unfoldable pub decode_grasp_noop : ℕ → List CborType → Outcome GraspMessage
  decode_grasp_noop session_id _ = ok (record {
    mtype = m_noop;
    session_id = session_id;
    initiator = unspecified;
    ttl = 0;
    objectives = [];
  })

  pub decode_grasp_discovery : ℕ → List CborType → Outcome GraspMessage
  decode_grasp_discovery _ _ = err misformed_grasp_message

  pub decode_grasp_response : ℕ → List CborType → Outcome GraspMessage
  decode_grasp_response _ _ = err misformed_grasp_message

  pub decode_grasp_req_neg : ℕ → List CborType → Outcome GraspMessage
  decode_grasp_req_neg _ _ = err misformed_grasp_message

  pub decode_grasp_req_syn : ℕ → List CborType → Outcome GraspMessage
  decode_grasp_req_syn _ _ = err misformed_grasp_message

  pub decode_grasp_negotiate : ℕ → List CborType → Outcome GraspMessage
  decode_grasp_negotiate _ _ = err misformed_grasp_message

  pub decode_grasp_end : ℕ → List CborType → Outcome GraspMessage
  decode_grasp_end _ _ = err misformed_grasp_message

  pub decode_grasp_wait : ℕ → List CborType → Outcome GraspMessage
  decode_grasp_wait _ _ = err misformed_grasp_message

  pub decode_grasp_synch : ℕ → List CborType → Outcome GraspMessage
  decode_grasp_synch _ _ = err misformed_grasp_message

  unfoldable pub flood_initiator : CborType → Outcome Ipv6Addr
  flood_initiator c = on_bytes (view c) decode_ipv6_bytes (err misformed_grasp_message)

  unfoldable pub decode_grasp_flood : ℕ → List CborType → Outcome GraspMessage
  unfolding flood_initiator
  decode_grasp_flood session_id contents = do
    initiator ← flood_initiator (← index contents 2)
    ttl ← as_integer misformed_grasp_message (← index contents 3)
    objectives ← decode_objectives (drop 4 contents)
    ok (record {
      mtype = m_flood;
      session_id = session_id;
      initiator = initiator;
      ttl = ttl % 2 ^ 32;
      objectives = objectives;
    })

  -- The ten message types of `decode_grasp_message`.
  unfoldable pub decode_by_type : ℕ → ℕ → List CborType → Outcome GraspMessage
  unfolding decode_grasp_noop decode_grasp_discovery decode_grasp_response decode_grasp_req_neg
      decode_grasp_req_syn decode_grasp_negotiate decode_grasp_end decode_grasp_wait
      decode_grasp_synch
  decode_by_type msgtype session_id contents =
      if msgtype == 0
      then decode_grasp_noop session_id contents
      else if msgtype == 1
      then decode_grasp_discovery session_id contents
      else if msgtype == 2
      then decode_grasp_response session_id contents
      else if msgtype == 3
      then decode_grasp_req_neg session_id contents
      else if msgtype == 4
      then decode_grasp_req_syn session_id contents
      else if msgtype == 5
      then decode_grasp_negotiate session_id contents
      else if msgtype == 6
      then decode_grasp_end session_id contents
      else if msgtype == 7
      then decode_grasp_wait session_id contents
      else if msgtype == 8
      then decode_grasp_synch session_id contents
      else if msgtype == 9
      then decode_grasp_flood session_id contents
      else err misformed_grasp_message

  -- The two guards on the length: two items, or one that must be a NOOP.
  unfoldable pub decode_message_array : List CborType → Outcome GraspMessage
  unfolding decode_grasp_noop
  decode_message_array contents =
      if leb 2 (length contents)
      then (do base ← decode_base_grasp contents; decode_by_type base.0 base.1 contents)
      else if leb 1 (length contents)
      then (do
        base ← decode_base_grasp contents
        if base.0 == 0 then decode_grasp_noop base.1 contents else err misformed_grasp_message)
      else err misformed_grasp_message

  unfoldable pub decode_grasp_message : CborType → Outcome GraspMessage
  unfolding decode_message_array
  decode_grasp_message thing =
      on_array (view thing) decode_message_array (err misformed_grasp_message)

  -- The two message types of `decode_dull_grasp_message`.
  pub decode_dull_by_type : ℕ → ℕ → List CborType → Outcome GraspMessage
  unfolding decode_grasp_noop
  decode_dull_by_type msgtype session_id contents =
      if msgtype == 0
      then decode_grasp_noop session_id contents
      else if msgtype == 9
      then decode_grasp_flood session_id contents
      else err illegal_dull_grasp_message

  pub decode_dull_array : List CborType → Outcome GraspMessage
  decode_dull_array contents =
      if leb 1 (length contents)
      then (do base ← decode_base_grasp contents; decode_dull_by_type base.0 base.1 contents)
      else err misformed_grasp_message

  pub decode_dull_grasp_message : CborType → Outcome GraspMessage
  unfolding decode_dull_array
  decode_dull_grasp_message thing =
      on_array (view thing) decode_dull_array (err misformed_grasp_message)
