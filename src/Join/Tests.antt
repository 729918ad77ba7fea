-- ===== src/Join/Tests.antt =====
-- Examples for src/join_interface.rs.
use rooster.Base.{ℕ, true, false, ◌≡◌, refl, ◌∙◌, List, [], ◌∷◌, none, some, arith}
use rooster.Error.{other_error, ok}
use rooster.Join.Pledge.{
  refused, Connection, connected, proxy_https, proxy_https-target, proxy_https-known,
}
use rooster.Join.Accept.{
  Accepting, accepted, not_accepted, new_listener, accept_loop, AreServed, accept_loop-AreServed,
}
use rooster.Net.{SocketAddr}
use rooster.Cbor.Sample.{Tree, sample_cbor}
use rooster.Grasp.Decode.{decode_grasp_message, decode_dull_grasp_message}
use rooster.Grasp.Sample.{host}
use rooster.Acp.{announce, empty_acp}
use rooster.Acp.Ports.{http, port_of}
use rooster.Acp.Sample.{clock, known}
use rooster.Interface.{Ref, ProxiesEnabled}
use rooster.Interfaces.Registrars.{InMap}
use rooster.Interfaces.Registrars.Choice.{Knows}
use rooster.Interfaces.Sample.{world, values, values-YieldsValues, world-AreTables, join0, listener}
use rooster.Interfaces.Registrars.Sample.{target, picks_target}
use rooster.Join.{an_proxy_message, build_an_proxy}
use rooster.Join.Announcement.{build_an_proxy-decode, proxy_is_registrar, silent_announcement}

abbrev serialize : Tree → List ℕ
serialize _ = 2 ∷ []

abbrev with_http : ProxiesEnabled
with_http = record { http_avail = true; stateful_avail = false; stateless_avail = false }

abbrev without_http : ProxiesEnabled
without_http = record { http_avail = false; stateful_avail = true; stateless_avail = false }

build_an_proxy-decode_example :
    (thing : Tree) × (build_an_proxy serialize listener join0 with_http 42 ≡ ok (serialize thing))
    × (decode_grasp_message thing ≡ ok (an_proxy_message listener join0 with_http 42))
    × (decode_dull_grasp_message thing ≡ ok (an_proxy_message listener join0 with_http 42))
build_an_proxy-decode_example =
    build_an_proxy-decode serialize listener join0 with_http 42 refl (omega arith) (omega arith)

proxy_is_registrar_example :
    port_of http host
      (announce clock
        (an_proxy_message listener join0 with_http 42)
        (empty_acp, false)).0.registrars
    ≡ some 8443
proxy_is_registrar_example =
    proxy_is_registrar listener join0 with_http 42 clock (empty_acp, false) refl

silent_announcement_test :
    announce clock (an_proxy_message listener join0 without_http 42) (known, false) ≡ (known, false)
silent_announcement_test =
    silent_announcement listener join0 without_http 42 clock (known, false) refl

abbrev connect : SocketAddr → Connection
connect _ = connected none

proxies_target : (proxy_https values connect world).0 ≡ some target
proxies_target = proxy_https-target values connect world ∙ picks_target

proxy_https-known_test : (r : Ref) × InMap r world.all.acp_interfaces × Knows world r target
proxy_https-known_test =
    proxy_https-known values connect world target values-YieldsValues world-AreTables proxies_target

-- Three rounds: a pledge whose registrar refuses, an error, and a pledge that is served.
abbrev refuse : SocketAddr → Connection
refuse _ = refused other_error

abbrev rounds : List Accepting
rounds = accepted world refuse ∷ not_accepted other_error ∷ accepted world connect ∷ []

accept_loop-AreServed_example :
    AreServed values rounds (accept_loop values new_listener rounds).served
accept_loop-AreServed_example =
    accept_loop-AreServed values rounds values-YieldsValues (world-AreTables, (world-AreTables, tt))
