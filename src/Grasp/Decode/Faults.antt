-- ===== src/Grasp/Decode/Faults.antt =====
-- Where the decoder of src/grasp.rs reads past the end of an array and panics.
use mathlib.Core.List.{map-append}
use rooster.Base.{ℕ, ◌%◌, ◌^◌, ◌≡◌, refl, sym, ◌∙◌, List, [], ◌∷◌, ◌++◌, map, none, All}
use rooster.Error.{ok, panic, ◌>>=◌, >>=_cong, >>=_assoc}
use rooster.Net.{Ipv6Addr, IsIpv6}
use rooster.Cbor.{Cbor, integer, bytes, array}
use rooster.Grasp.{GraspMessage, GraspObjective, m_flood}
use rooster.Grasp.Encode.{encode_grasp_objective, encode_dull_grasp_message}
use rooster.Grasp.Locators.{as_integer, as_string}
use rooster.Grasp.Objectives.{
  Progress, decode_objective, decode_objective_array, objective_value_of, decode_objective_item,
  decode_objectives_loop, decode_objectives,
}
use rooster.Grasp.Decode.{
  flood_initiator, decode_grasp_flood, decode_grasp_message, decode_dull_grasp_message,
}
use rooster.Grasp.Decode.Steps.{decode_flood, decode_dull_flood}
use rooster.Grasp.Decode.Wire.{
  IsWireLocator, IsWireObjective, wire_locator, parse-encode_locator, decode-encode_loop,
  decode_ipv6_bytes_lem,
}
use rooster.Grasp.Decode.RoundTrip.{decode_encoded, reread}

module _ ⦃cbor : Cbor⦄ where
  open cbor use {
    CborType, view, make_integer, make_bytes, make_string, make_array, view-integer, view-bytes,
    view-string, view-array,
  }

  -- A flood of two items, type and session id, has no initiator to read: both decoders panic.
  pub flood_without_initiator :
      {thing c0 c1 : CborType} {n id : ℕ}
      → view thing ≡ array (c0 ∷ c1 ∷ [])
      → view c0 ≡ integer n
      → view c1 ≡ integer id
      → n % 2 ^ 32 ≡ 9
      → (decode_grasp_message thing ≡ panic) × (decode_dull_grasp_message thing ≡ panic)
  unfolding decode_grasp_flood
  flood_without_initiator t a b f = (decode_flood t a b f, decode_dull_flood t a b f)

  -- A flood of three items, the third an address of 16 octets, has no time to live: both decoders
  -- panic.
  pub flood_without_ttl :
      {thing c0 c1 c2 : CborType} {n id : ℕ} {initiator : Ipv6Addr}
      → view thing ≡ array (c0 ∷ c1 ∷ c2 ∷ [])
      → view c0 ≡ integer n
      → view c1 ≡ integer id
      → view c2 ≡ bytes initiator
      → n % 2 ^ 32 ≡ 9
      → IsIpv6 initiator
      → (decode_grasp_message thing ≡ panic) × (decode_dull_grasp_message thing ≡ panic)
  unfolding decode_grasp_flood
  flood_without_ttl {c0 = c0} {c1 = c1} {c2 = c2} {id = id} {initiator = a} t e0 e1 e2 f h =
      (decode_flood t e0 e1 f ∙ stops, decode_dull_flood t e0 e1 f ∙ stops)
    where
      stops : decode_grasp_flood (id % 2 ^ 32) (c0 ∷ c1 ∷ c2 ∷ []) ≡ panic
      stops = rw (e2, flood_initiator, decode_ipv6_bytes_lem a h)

  -- An objective with no value: its array has three items, and the decoder reads the fourth.
  no_value_item :
      (s : Progress) (o : GraspObjective)
      → o.objective_value ≡ none
      → IsWireLocator o.locator
      → decode_objective_item s (encode_grasp_objective o) ≡ panic
  unfolding encode_grasp_objective decode_objective_item decode_objective decode_objective_array
      objective_value_of as_integer as_string
  no_value_item s o ev hl =
      let (a, p, n, el, ha, hp, hn) = wire_locator o.locator hl in
      rw (ev, el, encode_grasp_objective)
        (simp (
          decode_objective_item,
          decode_objective,
          as_integer,
          as_string,
          view-array,
          view-integer,
          view-string,
          parse-encode_locator a p n ha hp hn,
        ))

  loop-append :
      (s : Progress) (xs ys : List CborType)
      → decode_objectives_loop s (xs ++ ys)
        ≡ (decode_objectives_loop s xs >>= λ s'. decode_objectives_loop s' ys)
  unfolding decode_objectives_loop
  loop-append s [] ys = refl
  loop-append s (x ∷ xs) ys =
      >>=_cong (decode_objective_item s x) (λ s'. loop-append s' xs ys)
      ∙ sym (>>=_assoc (decode_objective_item s x) _ _)

  -- An encoded flood in which an objective without a value, with an IPv6 locator, stands behind any
  -- number of complete ones makes both decoders panic: the program cannot read back what it
  -- encodes.
  pub no_value-panic :
      (m : GraspMessage) (before after : List GraspObjective) (o : GraspObjective)
      → m.mtype ≡ m_flood
      → m.objectives ≡ before ++ (o ∷ after)
      → All IsWireObjective before
      → o.objective_value ≡ none
      → IsWireLocator o.locator
      → IsIpv6 m.initiator
      → ((encode_dull_grasp_message m >>= decode_grasp_message) ≡ panic)
        × ((encode_dull_grasp_message m >>= decode_dull_grasp_message) ≡ panic)
  unfolding decode_objectives decode_objectives_loop
  no_value-panic m before after o floods split hb ev hl hi =
      let (full, dull) = decode_encoded m floods hi in (full ∙ stops, dull ∙ stops)
    where
      stops :
          (decode_objectives (map encode_grasp_objective m.objectives) >>= λ os. ok (reread m os))
          ≡ panic
      stops = rw (
        split,
        map-append encode_grasp_objective before (o ∷ after),
        loop-append ([], none) (map encode_grasp_objective before) _,
        decode-encode_loop ([], none) before hb,
        no_value_item (before, none) o ev hl,
      )
