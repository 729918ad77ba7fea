-- ===== src/Grasp/Decode/Dull.antt =====
-- The two entry points of the decoder of src/grasp.rs: for all messages, and for DULL mode.
use rooster.Base.{
  ℕ, ◌≡◌, ◌↔◌, List, [], ◌∷◌, arith, length, leb-two, leb-one, if◌then◌else◌, ◌==◌, equality_nat,
}
use rooster.Error.{
  ok, err, panic, Outcome, ◌>>=◌, Ensures, Ensures-then, Ensures-any, misformed_grasp_message,
}
use rooster.Cbor.{Cbor, View, array, on_array}
use rooster.Grasp.{GraspMessage}
use rooster.Grasp.Locators.{as_integer}
use rooster.Grasp.Decode.{
  decode_grasp_message, decode_dull_grasp_message, decode_message_array, decode_dull_array,
  decode_by_type, decode_dull_by_type, decode_base_grasp, decode_grasp_noop,
}

-- Two calls return the same values.
abbrev Agree : Outcome GraspMessage → Outcome GraspMessage → Type 0
Agree x y = (m : GraspMessage) → (x ≡ ok m) ↔ (y ≡ ok m)

Agree-bind :
    {A : Type 0} (P : A → Type 0) (r : Outcome A) (f g : A → Outcome GraspMessage)
    → Ensures P r
    → ((a : A) → P a → Agree (f a) (g a))
    → Agree (r >>= f) (r >>= g)
Agree-bind P (ok a) f g p h m = h a p m
Agree-bind P (err e) f g p h m = ((λ x. x), (λ x. x))
Agree-bind P panic f g p h m = ((λ x. x), (λ x. x))

module _ ⦃cbor : Cbor⦄ where
  open cbor use {CborType, view}

  by_type-Agree :
      (t id : ℕ) (contents : List CborType)
      → Agree (decode_dull_by_type t id contents) (decode_by_type t id contents)
  unfolding decode_dull_by_type decode_by_type
  by_type-Agree t id contents m = (ground arith, ground arith)

  -- Behind a single item there can only be a NOOP.
  base_single : (c : CborType) → Ensures (λ b. b.0 ≡ 0) (decode_base_grasp (c ∷ []))
  unfolding decode_base_grasp
  base_single c =
      Ensures-then (λ b. b.0 ≡ 0) (as_integer misformed_grasp_message c) _ λ num. ground arith

  single-Agree :
      (b : ℕ × ℕ) (c : CborType)
      → b.0 ≡ 0
      → Agree
          (decode_dull_by_type b.0 b.1 (c ∷ []))
          (if b.0 == 0 then decode_grasp_noop b.1 (c ∷ []) else err misformed_grasp_message)
  unfolding decode_dull_by_type
  single-Agree b c e m = rw e ((λ x. x), (λ x. x))

  array-Agree :
      (contents : List CborType)
      → Agree (decode_dull_array contents) (decode_message_array contents)
  unfolding decode_dull_array decode_message_array
  array-Agree [] m = ((λ h. cc), (λ h. cc))
  array-Agree (c ∷ []) m =
      Agree-bind (λ b. b.0 ≡ 0) (decode_base_grasp (c ∷ [])) _ _ (base_single c)
        (λ b e. single-Agree b c e) m
  array-Agree (c ∷ c' ∷ rest) m =
      let contents = c ∷ c' ∷ rest in
      rw (leb-two (length rest), leb-one (length (c' ∷ rest)))
        (Agree-bind (λ _. Unit {0}) (decode_base_grasp contents) _ _
          (Ensures-any (decode_base_grasp contents)) (λ b _. by_type-Agree b.0 b.1 contents) m)

  -- DULL mode accepts the same messages: it only answers the other types by another error.
  pub decode_dull-eq-ok :
      (thing : CborType) (m : GraspMessage)
      → (decode_dull_grasp_message thing ≡ ok m) ↔ (decode_grasp_message thing ≡ ok m)
  unfolding decode_dull_grasp_message decode_grasp_message
  decode_dull-eq-ok thing m = go (view thing)
    where
      go :
          (v : View CborType)
          → (on_array v decode_dull_array (err misformed_grasp_message) ≡ ok m)
            ↔ (on_array v decode_message_array (err misformed_grasp_message) ≡ ok m)
      go (array contents) = array-Agree contents m
      go _ = ((λ h. cc), (λ h. cc))
