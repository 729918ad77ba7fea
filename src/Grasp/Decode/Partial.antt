-- ===== src/Grasp/Decode/Partial.antt =====
-- A flood of which only some objectives decode, in src/grasp.rs.
use mathlib.Core.List.{append-nil, append_assoc}
use rooster.Base.{
  ◌≡◌, ◌≢◌, refl, List, [], ◌∷◌, ◌++◌, Option, none, some, length, ltb, if◌then◌else◌, All,
}
use rooster.Error.{
  ConnectError, ok, err, panic, Outcome, misformed_grasp_message, misformed_grasp_objective,
}
use rooster.Cbor.{Cbor, array, on_array}
use rooster.Grasp.{GraspObjective}
use rooster.Grasp.Objectives.{
  collect, decode_objective, decode_objective_item, decode_objectives_loop, decode_objectives,
  conclude_objectives,
}

abbrev is_ok {ℓ} : {A : Type ℓ} → Outcome A → List A
is_ok (ok a) = a ∷ []
is_ok _ = []

append-eq-nil {ℓ} : {A : Type ℓ} (xs ys : List A) → xs ++ ys ≡ [] → xs ≡ []
append-eq-nil [] ys h = refl
append-eq-nil (x ∷ xs) ys h = cc

module _ ⦃cbor : Cbor⦄ where
  open cbor use {CborType, view}

  -- What one item of the flood stands for, if it is an array.
  abbrev item_of : List CborType → Outcome GraspObjective
  item_of pair =
      if ltb (length pair) 2 then err misformed_grasp_objective else decode_objective pair

  -- The item is an array, and reading it does not run past its end.
  pub record IsReadable (c : CborType) : Type 0 where
    pub pair : List CborType
    pub is_array : view c ≡ array pair
    pub reads : item_of pair ≢ panic

  -- The objectives that decode, in order: the others are skipped.
  unfoldable pub kept : List CborType → List GraspObjective
  kept [] = []
  kept (c ∷ cs) = on_array (view c) (λ pair. is_ok (item_of pair)) [] ++ kept cs

  -- The outcome that the comments of the source promise for these.
  abbrev pub kept_or_refused : List CborType → List GraspObjective → Outcome (List GraspObjective)
  kept_or_refused (c ∷ cs) [] = err misformed_grasp_message
  kept_or_refused _ os = ok os

  collect_step :
      (vec : List GraspObjective) (e : Option ConnectError) (r : Outcome GraspObjective)
      → r ≢ panic
      → (e' : Option ConnectError) × (collect (vec, e) r ≡ ok (vec ++ is_ok r, e'))
        × (is_ok r ≡ [] → e' ≢ none)
        × (e ≢ none → e' ≢ none)
  unfolding collect
  collect_step vec e (ok o) h = (e, refl, (λ x. cc), (λ x. x))
  collect_step vec e (err x) h = (some x, simp append-nil, (λ _ y. cc), (λ _ y. cc))
  collect_step vec e panic h = absurd (h refl)

  loop_kept :
      (vec : List GraspObjective) (e : Option ConnectError) (cs : List CborType)
      → All IsReadable cs
      → (e' : Option ConnectError) × (decode_objectives_loop (vec, e) cs ≡ ok (vec ++ kept cs, e'))
        × (cs ≢ [] → kept cs ≡ [] → e' ≢ none)
        × (e ≢ none → e' ≢ none)
  unfolding decode_objectives_loop kept decode_objective_item
  loop_kept vec e [] h = (e, simp append-nil, (λ x. absurd (x refl)), (λ x. x))
  loop_kept vec e (c ∷ cs) h =
      let r = item_of h.0.pair in
      let (e1, step, empty1, keep1) = collect_step vec e r h.0.reads in
      let (e2, rest, empty2, keep2) = loop_kept (vec ++ is_ok r) e1 cs h.1 in
      (
        e2,
        rw (h.0.is_array, step, rest) (simp append_assoc),
        (λ _ x. keep2 (empty1 (append-eq-nil (is_ok r) (kept cs) (rw h.0.is_array at x)))),
        (λ x. keep2 (keep1 x)),
      )

  conclude_kept :
      (c : CborType) (cs : List CborType) (os : List GraspObjective) (e : Option ConnectError)
      → (os ≡ [] → e ≢ none)
      → conclude_objectives (os, e) ≡ kept_or_refused (c ∷ cs) os
  unfolding conclude_objectives
  conclude_kept c cs [] none h = absurd (h refl refl)
  conclude_kept c cs [] (some x) h = refl
  conclude_kept c cs (o ∷ os) e h = refl

  -- Where every item is an array that can be read, the objectives that decode are returned in order
  -- and the others are skipped; a flood of which none decodes is refused as a whole.
  pub decode_objectives-kept :
      (cs : List CborType) → All IsReadable cs → decode_objectives cs ≡ kept_or_refused cs (kept cs)
  unfolding decode_objectives decode_objectives_loop conclude_objectives kept
  decode_objectives-kept [] h = refl
  decode_objectives-kept (c ∷ cs) h =
      let (e, loop, empty, _) = loop_kept [] none (c ∷ cs) h in
      rw loop (conclude_kept c cs (kept (c ∷ cs)) e (empty (λ x. cc)))
