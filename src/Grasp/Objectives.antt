-- ===== src/Grasp/Objectives.antt =====
-- The decoder of src/grasp.rs for the objectives of a flood.
use rooster.Base.{
  ◌%◌, ◌^◌, String, List, [], ◌∷◌, ◌++◌, Option, none, some, equality_nat, ltb, leb, if◌then◌else◌,
  length,
}
use rooster.Error.{
  ConnectError, misformed_grasp_message, misformed_grasp_objective, Outcome, ok, err, panic, ◌>>=◌,
  index,
}
use rooster.Cbor.{Cbor, on_array, on_string}
use rooster.Grasp.{GraspObjective}
use rooster.Grasp.Locators.{as_integer, as_string, grasp_parse_locator}

-- The objectives decoded so far, and the last error.
abbrev pub Progress : Type 0
Progress = List GraspObjective × Option ConnectError

-- An objective that decodes is pushed; an `Err` is kept and the loop goes on.
unfoldable pub collect : Progress → Outcome GraspObjective → Outcome Progress
collect (vec, e) (ok obj) = ok (vec ++ (obj ∷ []), e)
collect (vec, e) (err x) = ok (vec, some x)
collect (vec, e) panic = panic

-- If there is no objective and an error was seen, the whole message is refused.
unfoldable pub conclude_objectives : Progress → Outcome (List GraspObjective)
conclude_objectives ([], some _) = err misformed_grasp_message
conclude_objectives (vec, _) = ok vec

module _ ⦃cbor : Cbor⦄ where
  open cbor use {CborType, view}

  unfoldable pub objective_value_of : List CborType → Outcome (Option String)
  objective_value_of obj =
      if leb 3 (length obj)
      then (do c ← index obj 3; ok (on_string (view c) some none))
      else ok none

  -- The fields of an objective whose first item is the array `obj`.
  unfoldable pub decode_objective_array : List CborType → List CborType → Outcome GraspObjective
  decode_objective_array obj pair = do
    name ← as_string misformed_grasp_objective (← index obj 0)
    flags ← as_integer misformed_grasp_objective (← index obj 1)
    loopcnt ← as_integer misformed_grasp_objective (← index obj 2)
    locator ← grasp_parse_locator (← index pair 1)
    value ← objective_value_of obj
    ok (record {
      objective_name = name;
      objective_flags = flags % 2 ^ 32;
      loop_count = loopcnt % 2 ^ 8;
      objective_value = value;
      locator = locator;
    })

  unfoldable pub decode_objective : List CborType → Outcome GraspObjective
  decode_objective pair = do
    c ← index pair 0
    on_array (view c) (λ obj. decode_objective_array obj pair) (err misformed_grasp_objective)

  -- One round of the loop over the objectives.
  unfoldable pub decode_objective_item : Progress → CborType → Outcome Progress
  unfolding collect
  decode_objective_item s stuff =
      on_array (view stuff)
        (λ objective. collect s (
          if ltb (length objective) 2
          then err misformed_grasp_objective
          else decode_objective objective))
        (err misformed_grasp_message)

  unfoldable pub decode_objectives_loop : Progress → List CborType → Outcome Progress
  decode_objectives_loop s [] = ok s
  decode_objectives_loop s (stuff ∷ rest) = do
    s' ← decode_objective_item s stuff
    decode_objectives_loop s' rest

  unfoldable pub decode_objectives : List CborType → Outcome (List GraspObjective)
  unfolding conclude_objectives
  decode_objectives objectives = do
    s ← decode_objectives_loop ([], none) objectives
    conclude_objectives s
