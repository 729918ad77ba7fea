-- ===== src/Grasp/Decode/Steps.antt =====
-- The first steps of the decoder of src/grasp.rs: an array with at least two items.
use rooster.Base.{ℕ, ◌%◌, ◌^◌, ◌≡◌, List, ◌∷◌, arith, equality_nat}
use rooster.Error.{ok, misformed_grasp_message}
use rooster.Cbor.{Cbor, integer, array}
use rooster.Grasp.Locators.{as_integer}
use rooster.Grasp.Decode.{
  decode_base_grasp, decode_by_type, decode_dull_by_type, decode_grasp_message,
  decode_dull_grasp_message, decode_grasp_flood,
}

module _ ⦃cbor : Cbor⦄ where
  open cbor use {CborType, view}

  pub as_integer_lem :
      (c : CborType) {n : ℕ} → view c ≡ integer n → as_integer misformed_grasp_message c ≡ ok n
  unfolding as_integer
  as_integer_lem c e = rw (e, as_integer)

  module _ {thing c0 c1 : CborType} {rest : List CborType} {n id : ℕ}
      (is_array : view thing ≡ array (c0 ∷ c1 ∷ rest)) (is_type : view c0 ≡ integer n)
      (is_id : view c1 ≡ integer id) (flood : n % 2 ^ 32 ≡ 9) where
    decode_base : decode_base_grasp (c0 ∷ c1 ∷ rest) ≡ ok (9, id % 2 ^ 32)
    unfolding decode_base_grasp
    decode_base = ground (arith, as_integer_lem c0 is_type, as_integer_lem c1 is_id)

    -- A message of type 9 goes to the flood decoder.
    pub decode_flood :
        decode_grasp_message thing ≡ decode_grasp_flood (id % 2 ^ 32) (c0 ∷ c1 ∷ rest)
    unfolding decode_grasp_message decode_by_type
    decode_flood = ground (arith, is_array, decode_base)

    pub decode_dull_flood :
        decode_dull_grasp_message thing ≡ decode_grasp_flood (id % 2 ^ 32) (c0 ∷ c1 ∷ rest)
    unfolding decode_dull_grasp_message decode_dull_by_type
    decode_dull_flood = ground (arith, is_array, decode_base)
