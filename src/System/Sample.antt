-- ===== src/System/Sample.antt =====
-- A run of the tasks for the examples: a link of the ACP comes up, and the daemon on it hears a flood.
use rooster.Base.{ℕ, ◌≡◌, refl, subst, List, [], ◌∷◌, Option, some, arith}
use rooster.Acp.Daemon.Sample.{sample_decode}
use rooster.Cbor.Sample.{Tree, sample_cbor}
use rooster.Args.Sample.{options}
use rooster.Acp.Sample.{clock}
use rooster.Acp.Daemon.{datagram}
use rooster.Interfaces.Sample.{values, first_up, first_up-starts, fresh_world}
use rooster.Join.{ErrorKind, addr_not_available, Transmission, sending, io_ok}
use rooster.System.{Program, initial_program, told_by, read_by}
use rooster.System.Steps.{Reaches, started, told, read}

abbrev pub serialize : Tree → List ℕ
serialize _ = 2 ∷ []

abbrev pub absent : Transmission → Option ErrorKind
absent _ = some addr_not_available

pub is_absent : (t : Transmission) → sending (absent t) ≡ io_ok
unfolding sending
is_absent t = refl

-- The program once the link is up.
abbrev pub up_program : Program
up_program = record initial_program { world = fresh_world }

pub told-up : told_by options first_up initial_program ≡ up_program
unfolding told_by
told-up = rw first_up-starts refl

pub up_reached : Reaches options sample_decode serialize absent values [] up_program
up_reached =
    subst (Reaches options sample_decode serialize absent values []) told-up
      (told first_up started refl refl)

abbrev pub arrival : List (List ℕ)
arrival = (2 ∷ []) ∷ []

-- The program once the flood has been heard.
abbrev pub after_flood : Program
after_flood = read_by sample_decode 0 clock (datagram (2 ∷ [])) up_program

pub flood_reached : Reaches options sample_decode serialize absent values arrival after_flood
flood_reached = read 0 clock (datagram (2 ∷ [])) up_reached refl (omega arith)
