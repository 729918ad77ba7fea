-- ===== src/System/Tests.antt =====
-- Examples for the tasks together: a link of the ACP comes up, the daemon on it hears a flood, and
-- the main loop goes through a round.
use rooster.Base.{
  sym, ◌≢◌, inl, inr, ℕ, ◌+◌, true, false, ◌≡◌, refl, ◌∙◌, subst, List, [], ◌∷◌, none, some, In,
}
use rooster.Interfaces.Registrars.Serving.{Serves}
use rooster.Interfaces.Registrars.Sample.{heard-Serves, heard_world, picks_heard, target}
use rooster.System.Persistence.{GoesOn, rests, woke_then, proxy_https-GoesOn}
use rooster.Grasp.Sample.{flood, registrar, flood-IsWireFlood, encode_flood}
use rooster.Acp.Daemon.Sample.{decode_flood, sample_decode, hears_flood}
use rooster.System.Service.{flood-serves}
use rooster.Net.{SocketAddr}
use rooster.Cbor.Sample.{sample_cbor}
use rooster.Args.Sample.{options}
use rooster.Acp.Sample.{clock}
use rooster.Interfaces.Sample.{values, values-YieldsValues, first_up}
use rooster.Interfaces.Invariant.{WellFormed}
use rooster.Interfaces.Registrars.{InMap}
use rooster.Interface.{Ref}
use rooster.Interfaces.Registrars.Choice.{AreTables, Knows}
use rooster.Interfaces.Registrars.Coherence.{Coherent}
use rooster.Join.Pledge.{Connection, connected, proxy_https, proxy_https-target}
use rooster.System.{Program, initial_program, told_by, read_by, woken_by}
use rooster.System.Sample.{
  serialize, absent, is_absent, up_program, told-up, up_reached, arrival, after_flood,
  flood_reached,
}
use rooster.System.Steps.{Reaches, started, told, woke}
use rooster.System.Sources.{Offered, pledge-Offered}
use rooster.System.Invariant.{Reaches-WellFormed}
use rooster.System.Loop.{Reaches-looping}
use rooster.System.Coherence.{Reaches-Coherent}

after_flood-world : after_flood.world ≡ heard_world
unfolding read_by
after_flood-world = rw (hears_flood true) refl

abbrev connect : SocketAddr → Connection
connect _ = connected none

proxies_heard : (proxy_https values connect after_flood.world).0 ≡ some target
proxies_heard = rw after_flood-world (proxy_https-target values connect heard_world ∙ picks_heard)

pledge-Offered_example :
    (octets : List ℕ) × In octets arrival
    × Offered options sample_decode serialize absent values octets target
pledge-Offered_example =
    pledge-Offered options sample_decode serialize absent values connect arrival after_flood target
      flood_reached proxies_heard

Reaches-WellFormed_example : WellFormed after_flood.world × AreTables after_flood.world
Reaches-WellFormed_example =
    Reaches-WellFormed options sample_decode serialize absent values arrival after_flood
      flood_reached

abbrev id : ℕ → ℕ
id n = 42 + n

abbrev awake : Program
awake = woken_by serialize absent values id after_flood

awake_reached : Reaches options sample_decode serialize absent values arrival awake
unfolding read_by
awake_reached = woke id flood_reached refl

Reaches-looping_example : (awake.looping ≡ true) × (awake.world.all.exitnow ≡ false)
Reaches-looping_example =
    Reaches-looping options sample_decode serialize absent values arrival awake is_absent
      awake_reached

-- The program after a link came up and the main loop went through a round.
abbrev told_program : Program
told_program = told_by options first_up initial_program

told_looping : told_program.looping ≡ true
told_looping = rw told-up refl

abbrev round :
    Reaches options sample_decode serialize absent values []
      (woken_by serialize absent values id told_program)
round = woke id (told first_up started refl refl) told_looping

Reaches-Coherent_example : Coherent values (woken_by serialize absent values id told_program).world
Reaches-Coherent_example =
    Reaches-Coherent options sample_decode serialize absent values []
      (woken_by serialize absent values id told_program) values-YieldsValues round
      ((λ r e was now. cc), tt)

flood-serves_example :
    ((proxy_https values connect after_flood.world).0 ≢ none)
    × (awake.world.all.proxies.http_avail ≡ true)
flood-serves_example =
    flood-serves options sample_decode serialize absent values connect id [] up_program 0 0 clock
      (2 ∷ []) flood registrar [] values-YieldsValues up_reached refl (inl refl) refl
      flood-IsWireFlood encode_flood decode_flood refl refl (inr refl)

after_flood-Serves : Serves after_flood.world
after_flood-Serves = subst Serves (sym after_flood-world) heard-Serves

awake_follows : GoesOn options sample_decode serialize absent values after_flood awake
unfolding read_by
awake_follows = woke_then id rests refl

proxy_https-GoesOn_example :
    (s : SocketAddr) × ((proxy_https values connect awake.world).0 ≡ some s)
    × ((r : Ref) × InMap r awake.world.all.acp_interfaces × Knows awake.world r s)
proxy_https-GoesOn_example =
    proxy_https-GoesOn options sample_decode serialize absent values connect arrival after_flood
      awake values-YieldsValues flood_reached after_flood-Serves awake_follows
