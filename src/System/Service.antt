-- ===== src/System/Service.antt =====
-- What a flood does for pledges, through the tasks of src/acp_interface.rs, src/main.rs and
-- src/join_interface.rs.
use rooster.Base.{ℕ, true, ◌≡◌, ◌≢◌, ◌⊎◌, refl, sym, ap, ◌∙◌, subst, List, ◌∷◌, Option, none, some}
use rooster.Error.{ok}
use rooster.Net.{Ipv6Addr, SocketAddr}
use rooster.Cbor.{Cbor}
use rooster.Grasp.{GraspObjective, GraspMessage, ipv6_locator}
use rooster.Grasp.Encode.{encode_dull_grasp_message}
use rooster.Grasp.Decode.Wire.{IsWireFlood}
use rooster.Grasp.Decode.RoundTrip.{decode-encode}
use rooster.Args.{RoosterOptions}
use rooster.Acp.{http_registrar, Millis}
use rooster.Acp.Announce.First.{announce-IsHeard}
use rooster.Acp.Objective.{http-hearing}
use rooster.Acp.Daemon.{buffer, datagram}
use rooster.Acp.Daemon.Outcomes.{Reads, daemon_step-Reads}
use rooster.Interface.{Ref, Map}
use rooster.Interfaces.{cell}
use rooster.Interfaces.Registrars.{acp, hear, InMap, YieldsValues, update_available_registrars}
use rooster.Interfaces.Registrars.Serving.{hear-Offers, serves}
use rooster.Join.{ErrorKind, Transmission}
use rooster.Join.Pledge.{Connection, proxy_https, proxy_https-target}
use rooster.Main.Round.{main_round-world}
use rooster.System.{Program, daemon_of, read_by, woken_by}
use rooster.System.Steps.{Reaches}
use rooster.System.Invariant.{Reaches-WellFormed}

module _ ⦃cbor : Cbor⦄ (options : RoosterOptions) (cbor_decode : List ℕ → Option cbor.CborType)
    (serialize : cbor.CborType → List ℕ) (send_to : Transmission → Option ErrorKind)
    (values : Map → List Ref) where
  read_by-Reads :
      (a : Ref) (clock : ℕ → Millis) (octets : List ℕ) (msg : GraspMessage) (s : Program)
      → (s.tasks a).running ≡ true
      → Reads cbor_decode octets msg
      → (read_by cbor_decode a clock (datagram octets) s).world ≡ hear a clock msg s.world
  unfolding read_by hear
  read_by-Reads a clock octets msg s runs reads =
      rw (daemon_step-Reads cbor_decode (daemon_of a s) clock octets msg runs reads) refl

  -- A flood that fits the wire, whose first objective is for an HTTP registrar at an IPv6 locator,
  -- arrives as it was encoded at the daemon of an ACP interface, whose task runs. Then, however the
  -- program got there: for a pledge that comes next a socket address is picked, and when the main loop
  -- wakes next, the proxies that it announces offer HTTP. Each handler runs at once.
  pub flood-serves :
      (connect : SocketAddr → Connection) (id : ℕ → ℕ) (h : List (List ℕ)) (s : Program) (a r : Ref)
      (clock : ℕ → Millis) (octets : List ℕ) (msg : GraspMessage) (o : GraspObjective)
      (os : List GraspObjective) {thing : cbor.CborType} {b : Ipv6Addr} {proto port : ℕ}
      → YieldsValues values
      → Reaches options cbor_decode serialize send_to values h s
      → (s.tasks a).running ≡ true
      → InMap r s.world.all.acp_interfaces
      → (cell s.world r).acp_daemon ≡ some a
      → IsWireFlood msg
      → encode_dull_grasp_message msg ≡ ok thing
      → cbor_decode (buffer octets) ≡ some thing
      → msg.objectives ≡ o ∷ os
      → o.locator ≡ some (ipv6_locator b proto port)
      → ((o.objective_value ≡ some "") ⊎ (o.objective_value ≡ some "BRSKI"))
      → let s' = read_by cbor_decode a clock (datagram octets) s in
        ((proxy_https values connect s'.world).0 ≢ none)
        × ((woken_by serialize send_to values id s').world.all.proxies.http_avail ≡ true)
  unfolding woken_by hear
  flood-serves connect id h s a r clock octets msg o os {thing} {b} {proto} {port} yields reached
        runs listed daemon fits sent arrived first located valued =
      let (formed, tables) =
        Reaches-WellFormed options cbor_decode serialize send_to values h s reached in
      let back = rw sent at (decode-encode msg fits).0 in
      let reads : Reads cbor_decode octets msg = record {
        thing = thing;
        is_cbor = arrived;
        is_grasp = back;
      } in
      let heard_world = read_by-Reads a clock octets msg s runs reads in
      let known =
        announce-IsHeard clock msg (acp s.world a, s.world.all.invalidate_avail) o os
          (http_registrar port) b fits.floods first (http-hearing o located valued) in
      let (offers, flag) =
        hear-Offers a r clock msg s.world b port (formed.acp_daemons_fit r a daemon) tables daemon
          known in
      let (picked, announced) =
        serves values (hear a clock msg s.world) r yields listed offers flag in
      (
        subst (λ v. (proxy_https values connect v).0 ≢ none) (sym heard_world)
            (subst (λ t. t ≢ none)
              (sym (proxy_https-target values connect (hear a clock msg s.world))) picked),
        ap (λ v. v.all.proxies.http_avail)
              (main_round-world serialize send_to values id
                (read_by cbor_decode a clock (datagram octets) s).world)
            ∙ ap (λ v. (update_available_registrars values v).all.proxies.http_avail) heard_world
            ∙ announced,
      )
