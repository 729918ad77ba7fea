-- ===== src/Acp/Tests.antt =====
-- Examples for src/acp_interface.rs.
use rooster.Base.{
  In, ℕ, true, false, ◌≡◌, ◌≢◌, ◌↔◌, ◌&&◌, ◌==◌, equality_list, equality_nat, refl, [], ◌∷◌, none,
  some, arith, if◌then◌else◌,
}
use rooster.Args.Sample.{options}
use rooster.Debug.{debug_options_of}
use rooster.Acp.Dump.{registrar_line, dump_registrar_list}
use rooster.Acp.Dump.Lists.{dump_registrar_list-lists}
use rooster.Net.{Ipv6Addr}
use rooster.Cbor.Sample.{num, sample_cbor}
use rooster.Grasp.{GraspMessage, GraspObjective, fqdn_locator}
use rooster.Grasp.Sample.{host, registrar, flood, flood-IsWireFlood, encode_flood}
use rooster.Grasp.Decode.Faults.{flood_without_initiator}
use rooster.Acp.{
  coap_registrar, empty_acp, add_registrar, calculate_available_registrar, hearing, not_understood,
  announced, announce, announce_objectives, registrar_announce, is_flood,
}
use rooster.Acp.Sample.{known, known-IsTable, clock}
use rooster.Acp.Ports.{http, coap, kind_eq, port_among, port_of, port_of-add_registrar}
use rooster.Acp.Table.{IsTable}
use rooster.Acp.Availability.{available, calculate_available_iff}
use rooster.Acp.Announce.{
  last_heard, announce_ports, announce_twice, announce_forgets_none, announce_flag, announce_stops,
}
use rooster.Acp.Daemon.Sample.{sample_decode, decode_two, decode_flood}
use rooster.Acp.Daemon.{
  datagram, read_error, Daemon, daemon_step, daemon_run, daemon_run-IsTable, panic-daemon_run,
  short_flood-daemon_run, flood-daemon_step,
}

port_of-add_registrar_example :
    port_of http host (add_registrar (coap_registrar 5683) host 180000 9 known).registrars
    ≡ (if host == host && kind_eq coap http then some 5683 else port_of http host known.registrars)
port_of-add_registrar_example =
    port_of-add_registrar http host (coap_registrar 5683) host 180000 9 known

calculate_available_iff_test :
    (available http (calculate_available_registrar known) ≡ true)
    ↔ ((a : Ipv6Addr) × (p : ℕ) × (port_of http a known.registrars ≡ some p))
calculate_available_iff_test = calculate_available_iff http known known-IsTable

announce_ports_example :
    port_of http host
      (announce_objectives clock 180000 1 (registrar ∷ []) (empty_acp, false)).0.registrars
    ≡ last_heard http host (registrar ∷ []) (port_of http host [])
announce_ports_example = announce_ports clock 180000 1 (registrar ∷ []) (empty_acp, false) http host

announce_twice_test :
    port_of http host (announce clock flood (announce clock flood (known, false))).0.registrars
    ≡ port_of http host (announce clock flood (known, false)).0.registrars
announce_twice_test = announce_twice clock clock flood (known, false) http host

port_of_known : port_of http host known.registrars ≡ some 8993
unfolding port_of port_among
port_of_known = refl

is_known : port_of http host known.registrars ≢ none
is_known = ground (arith, port_of_known)

announce_forgets_none_test :
    port_of http host (announce clock flood (known, false)).0.registrars ≢ none
announce_forgets_none_test = announce_forgets_none clock flood (known, false) http host is_known

-- A flood without objectives.
abbrev empty_flood : GraspMessage
empty_flood = record flood { objectives = [] }

flag_clear : (announce clock empty_flood (known, false)).1 ≡ false
unfolding announce registrar_announce announce_objectives is_flood
flag_clear = refl

announce_flag_test : announce clock empty_flood (known, false) ≡ (known, false)
announce_flag_test = announce_flag clock empty_flood known false flag_clear

-- An objective whose locator is a name.
abbrev named : GraspObjective
named = record registrar { locator = some (fqdn_locator "registrar.example" 6 8993) }

hearing-named : hearing named ≡ not_understood
unfolding hearing announced
hearing-named = refl

announce_stops_example :
    announce_objectives clock 180000 1 (registrar ∷ named ∷ registrar ∷ []) (empty_acp, false)
    ≡ announce_objectives clock 180000 1 (registrar ∷ []) (empty_acp, false)
announce_stops_example =
    announce_stops clock 180000 1 (registrar ∷ []) (registrar ∷ []) named (empty_acp, false)
      hearing-named

abbrev running : Daemon
running = record { heard = (known, false); cnt = 3; running = true }

daemon_run-IsTable_test :
    IsTable
      (daemon_run sample_decode running
        ((clock, datagram (2 ∷ [])) ∷ (clock, read_error) ∷ [])).heard.0
daemon_run-IsTable_test =
    daemon_run-IsTable sample_decode running ((clock, datagram (2 ∷ [])) ∷ (clock, read_error) ∷ [])
      known-IsTable

panic-daemon_run_test :
    daemon_run sample_decode running ((clock, datagram (1 ∷ [])) ∷ (clock, datagram (2 ∷ [])) ∷ [])
    ≡ record running { running = false }
panic-daemon_run_test =
    panic-daemon_run sample_decode running clock (1 ∷ []) ((clock, datagram (2 ∷ [])) ∷ []) refl
      decode_two (flood_without_initiator {c0 = num 9} {c1 = num 42} refl refl refl refl).0

short_flood-daemon_run_example :
    daemon_run sample_decode running ((clock, datagram (1 ∷ [])) ∷ (clock, datagram (2 ∷ [])) ∷ [])
    ≡ record running { running = false }
short_flood-daemon_run_example =
    short_flood-daemon_run sample_decode running clock (1 ∷ []) {c0 = num 9} {c1 = num 42}
      ((clock, datagram (2 ∷ [])) ∷ []) refl decode_two refl refl refl refl

flood-daemon_step_test :
    (daemon_step sample_decode running (clock, datagram (2 ∷ []))).heard
    ≡ registrar_announce clock flood (known, false)
flood-daemon_step_test =
    flood-daemon_step sample_decode running clock (2 ∷ []) flood refl flood-IsWireFlood encode_flood
      decode_flood

dump_registrar_list-lists_example :
    (In (registrar_line http host 8993) (dump_registrar_list (debug_options_of options) known)
      ↔ ((options.debug_registrars ≡ true) × (port_of http host known.registrars ≡ some 8993)))
    × ((dump_registrar_list (debug_options_of options) known ≡ [])
        ↔ (options.debug_registrars ≡ false))
dump_registrar_list-lists_example =
    dump_registrar_list-lists options known http host 8993 known-IsTable
