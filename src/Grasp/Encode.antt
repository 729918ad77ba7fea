-- ===== src/Grasp/Encode.antt =====
-- The encoder of src/grasp.rs, from a message to a CBOR value.
use rooster.Base.{ℕ, String, List, [], ◌∷◌, ◌++◌, map, Option, none, some}
use rooster.Error.{Outcome, ok}
use rooster.Cbor.{Cbor}
use rooster.Grasp.{
  GraspMessage, GraspMessageType, GraspObjective, GraspLocator, ipv6_locator, ipv4_locator,
  fqdn_locator, uri_locator, m_noop, m_discovery, m_response, m_req_neg, m_req_syn, m_negotiate,
  m_end, m_wait, m_synch, m_flood, o_ipv6_locator, o_ipv4_locator, o_fqdn_locator, o_uri_locator,
}

unfoldable pub encode_grasp_mtype : GraspMessageType → ℕ
encode_grasp_mtype m_noop = 0
encode_grasp_mtype m_discovery = 1
encode_grasp_mtype m_response = 2
encode_grasp_mtype m_req_neg = 3
encode_grasp_mtype m_req_syn = 4
encode_grasp_mtype m_negotiate = 5
encode_grasp_mtype m_end = 6
encode_grasp_mtype m_wait = 7
encode_grasp_mtype m_synch = 8
encode_grasp_mtype m_flood = 9

module _ ⦃cbor : Cbor⦄ where
  open cbor use {CborType, make_integer, make_bytes, make_string, make_array}

  -- The four items of every locator.
  unfoldable pub locator_items : ℕ → CborType → ℕ → ℕ → CborType
  locator_items option target proto port =
      make_array (make_integer option ∷ target ∷ make_integer proto ∷ make_integer port ∷ [])

  unfoldable pub encode_grasp_locator : GraspLocator → CborType
  unfolding locator_items
  encode_grasp_locator (ipv6_locator v6addr proto port) =
      locator_items o_ipv6_locator (make_bytes v6addr) proto port
  encode_grasp_locator (ipv4_locator v4addr proto port) =
      locator_items o_ipv4_locator (make_bytes v4addr) proto port
  encode_grasp_locator (fqdn_locator fqdn proto port) =
      locator_items o_fqdn_locator (make_string fqdn) proto port
  encode_grasp_locator (uri_locator uri proto port) =
      locator_items o_uri_locator (make_string uri) proto port

  -- What `push` adds for an `Option`.
  unfoldable pub value_items : Option String → List CborType
  value_items none = []
  value_items (some value) = make_string value ∷ []

  unfoldable pub locator_item : Option GraspLocator → List CborType
  locator_item none = []
  locator_item (some locator) = encode_grasp_locator locator ∷ []

  unfoldable pub encode_grasp_objective : GraspObjective → CborType
  unfolding value_items locator_item
  encode_grasp_objective obj =
      let objbase =
        (make_string obj.objective_name
          ∷ make_integer obj.objective_flags
          ∷ make_integer obj.loop_count
          ∷ [])
        ++ value_items obj.objective_value in
      make_array ((make_array objbase ∷ []) ++ locator_item obj.locator)

  unfoldable pub encode_dull_grasp_message : GraspMessage → Outcome CborType
  encode_dull_grasp_message msg = ok (
      make_array (
        (make_integer (encode_grasp_mtype msg.mtype)
          ∷ make_integer msg.session_id
          ∷ make_bytes msg.initiator
          ∷ make_integer msg.ttl
          ∷ [])
        ++ map encode_grasp_objective msg.objectives))
