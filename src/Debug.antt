-- ===== src/Debug.antt =====
-- src/debugoptions.rs, and the part of src/main.rs that sets its options. A message is the list of
-- its pieces, so that the text of a number or an address is left to the standard library; the
-- output is the lines in order. A write that fails is left out.
use rooster.Base.{◌≡◌, arith, ℕ, String, Bool, true, false, List, [], ◌∷◌, if◌then◌else◌}
use rooster.Net.{IpAddr}
use rooster.Args.{RoosterOptions}

pub data Piece : Type 0 where
  text : String → Piece
  number : ℕ → Piece
  address : IpAddr → Piece

pub record Line : Type 0 where
  pub tag : String
  pub message : List Piece

-- The switches; the writer is left out.
pub record DebugOptions : Type 0 where
  pub debug_interfaces : Bool
  pub debug_registrars : Bool
  pub debug_joininterfaces : Bool
  pub debug_proxyactions : Bool

pub default_debug : DebugOptions
default_debug = record {
  debug_interfaces = false;
  debug_registrars = false;
  debug_joininterfaces = false;
  debug_proxyactions = false;
}

-- Each function, as the lines that it writes.
abbrev pub debug_interfaces : DebugOptions → List Piece → List Line
debug_interfaces o msg =
    if o.debug_interfaces then record { tag = "I: "; message = msg } ∷ [] else []

abbrev pub debug_interfaces_detailed : DebugOptions → List Piece → List Line
debug_interfaces_detailed o msg =
    if o.debug_interfaces then record { tag = "I: "; message = msg } ∷ [] else []

abbrev pub debug_registrars : DebugOptions → List Piece → List Line
debug_registrars o msg =
    if o.debug_registrars then record { tag = "R: "; message = msg } ∷ [] else []

abbrev pub debug_registrars_detailed : DebugOptions → List Piece → List Line
debug_registrars_detailed o msg =
    if o.debug_registrars then record { tag = "R: "; message = msg } ∷ [] else []

abbrev pub debug_joininterfaces : DebugOptions → List Piece → List Line
debug_joininterfaces o msg =
    if o.debug_joininterfaces then record { tag = "J: "; message = msg } ∷ [] else []

abbrev pub debug_proxyactions : DebugOptions → List Piece → List Line
debug_proxyactions o msg =
    if o.debug_proxyactions then record { tag = "P: "; message = msg } ∷ [] else []

abbrev pub debug_info : DebugOptions → List Piece → List Line
debug_info o msg = record { tag = "I: "; message = msg } ∷ []

abbrev pub debug_error : DebugOptions → List Piece → List Line
debug_error o msg = record { tag = "E: "; message = msg } ∷ []

-- The switches that `main` sets from the options of the command line.
pub debug_options_of : RoosterOptions → DebugOptions
unfolding default_debug
debug_options_of mainargs =
    let o0 = default_debug in
    let o1 = if mainargs.debug_interfaces then record o0 { debug_interfaces = true } else o0 in
    let o2 = if mainargs.debug_registrars then record o1 { debug_registrars = true } else o1 in
    let o3 =
      if mainargs.debug_joininterfaces then record o2 { debug_joininterfaces = true } else o2 in
    if mainargs.debug_proxyactions then record o3 { debug_proxyactions = true } else o3

pub debug_options-registrars :
    (mainargs : RoosterOptions)
    → (debug_options_of mainargs).debug_registrars ≡ mainargs.debug_registrars
unfolding debug_options_of default_debug
debug_options-registrars mainargs = ground arith
