-- ===== src/System/Persistence.antt =====
-- What the tasks of src/main.rs, src/interfaces.rs and src/acp_interface.rs leave of a registrar
-- that is known.
use rooster.Base.{
  some, ◌∙◌, Option-cases, ℕ, true, ◌≡◌, inl, inr, sym, subst, List, Option, ◌<◌, length,
}
use rooster.Net.{SocketAddr}
use rooster.Cbor.{Cbor}
use rooster.Args.{RoosterOptions}
use rooster.Acp.{Millis}
use rooster.Acp.Daemon.{Received}
use rooster.Interface.{Ref, Map}
use rooster.Interfaces.{Message}
use rooster.Interfaces.Registrars.{YieldsValues, InMap}
use rooster.Interfaces.Registrars.Serving.{Serves, Serves-picks, hear-Serves, update-Serves}
use rooster.Interfaces.Registrars.Starts.Links.{IsFirstStart, handle_message-Serves}
use rooster.Interfaces.Registrars.Choice.{Knows}
use rooster.Join.{ErrorKind, Transmission}
use rooster.Join.Pledge.{Connection, proxy_https, proxy_https-target, proxy_https-known}
use rooster.Main.Round.{main_round-world}
use rooster.System.{Program, told_by, read_by, woken_by}
use rooster.System.Steps.{Reaches, told, read, woke, arrived, read_by-cases}
use rooster.System.Invariant.{Reaches-WellFormed}

module _ ⦃cbor : Cbor⦄ (options : RoosterOptions) (cbor_decode : List ℕ → Option cbor.CborType)
    (serialize : cbor.CborType → List ℕ) (send_to : Transmission → Option ErrorKind)
    (values : Map → List Ref) where
  -- The tasks go on from a program, and no link that had a daemon comes up again.
  pub data GoesOn (s : Program) : Program → Type 0 where
    rests : GoesOn s s
    told_then :
        {t : Program} (m : Message)
        → GoesOn s t
        → t.looping ≡ true
        → t.listening ≡ true
        → IsFirstStart m t.world
        → GoesOn s (told_by options m t)
    read_then :
        {t : Program} (a : Ref) (clock : ℕ → Millis) (event : Received)
        → GoesOn s t
        → t.looping ≡ true
        → a < length t.world.acps
        → GoesOn s (read_by cbor_decode a clock event t)
    woke_then :
        {t : Program} (id : ℕ → ℕ)
        → GoesOn s t
        → t.looping ≡ true
        → GoesOn s (woken_by serialize send_to values id t)

  abbrev Reached : Program → Type 0
  Reached s = (h : List (List ℕ)) × Reaches options cbor_decode serialize send_to values h s

  GoesOn-Reached : (s t : Program) → GoesOn s t → Reached s → Reached t
  GoesOn-Reached s _ rests r = r
  GoesOn-Reached s _ (told_then {t} m g looping listening first) r =
      let (h, reached) = GoesOn-Reached s t g r in (h, told m reached looping listening)
  GoesOn-Reached s _ (read_then {t} a clock event g looping fits) r =
      let (h, reached) = GoesOn-Reached s t g r in
      (arrived event h, read a clock event reached looping fits)
  GoesOn-Reached s _ (woke_then {t} id g looping) r =
      let (h, reached) = GoesOn-Reached s t g r in (h, woke id reached looping)

  GoesOn-Serves : (s t : Program) → GoesOn s t → Reached s → Serves s.world → Serves t.world
  unfolding told_by woken_by
  GoesOn-Serves s _ rests r serves = serves
  GoesOn-Serves s _ (told_then {t} m g looping listening first) r serves =
      handle_message-Serves options m t.world first (GoesOn-Serves s t g r serves)
  GoesOn-Serves s _ (read_then {t} a clock event g looping fits) r serves =
      let before = GoesOn-Serves s t g r serves in
      let (h, reached) = GoesOn-Reached s t g r in
      let tables =
        (Reaches-WellFormed options cbor_decode serialize send_to values h t reached).1 in
      elim (read_by-cases cbor_decode a clock event t) [
        | inl e ↦ subst Serves (sym e) before
        | inr (octets, msg, arrives, reads, e) ↦
            subst Serves (sym e) (hear-Serves a clock msg t.world tables before)
      ]
  GoesOn-Serves s _ (woke_then {t} id g looping) r serves =
      subst Serves (sym (main_round-world serialize send_to values id t.world))
        (update-Serves values t.world (GoesOn-Serves s t g r serves))

  -- Once the daemon of an interface of the ACP map knows an HTTP registrar, then whatever the main
  -- loop, the listener and the daemons do from there, each handler at once, in whatever order and for
  -- however long, as long as no link that had a daemon comes up again: the proxy picks for a pledge an
  -- address, and the daemon of an interface of the ACP map has it in its table as an HTTP registrar.
  -- Whether the connection is granted, and whether a handler gets the locks that it waits for, is not
  -- said.
  pub proxy_https-GoesOn :
      (connect : SocketAddr → Connection) (h : List (List ℕ)) (s t : Program)
      → YieldsValues values
      → Reaches options cbor_decode serialize send_to values h s
      → Serves s.world
      → GoesOn s t
      → (target : SocketAddr) × ((proxy_https values connect t.world).0 ≡ some target)
        × ((r : Ref) × InMap r t.world.all.acp_interfaces × Knows t.world r target)
  proxy_https-GoesOn connect h s t yields reached serves g =
      let (h', later) = GoesOn-Reached s t g (h, reached) in
      let tables = (Reaches-WellFormed options cbor_decode serialize send_to values h' t later).1 in
      elim (Option-cases (proxy_https values connect t.world).0) [
        | inl e ↦ absurd (
            Serves-picks values t.world yields (GoesOn-Serves s t g (h, reached) serves)
              (sym (proxy_https-target values connect t.world) ∙ e))
        | inr (target, e) ↦
            (target, e, proxy_https-known values connect t.world target yields tables e)
      ]
