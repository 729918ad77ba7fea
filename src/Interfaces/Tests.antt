-- ===== src/Interfaces/Tests.antt =====
-- Examples for src/interfaces.rs.
use rooster.Base.{
  List, take, ◌⊎◌, ℕ, ◌++◌, map, Option, some, true, false, ◌≡◌, ◌≢◌, ◌↔◌, refl, [], ◌∷◌, none,
}
use rooster.Net.{Ipv6Addr, v6, SocketAddr}
use rooster.Sys.{Answers}
use rooster.Sys.Opens.{Grants}
use rooster.Acp.Socket.{grasp_calls}
use rooster.Join.Ports.{ports_calls}
use rooster.Interfaces.Learning.{known, learn_all}
use rooster.Interfaces.Learning.Messages.{listen_network-learn}
use rooster.Interfaces.{
  Message, done, panicked, start_acp, start_joinlink, cell, new_link, new_address, ignored_message,
  store_link, store_links, store_addr_info, store_link_info, listen_network,
}
use rooster.Interfaces.Opening.{sockets_of, ListensAt, start_acp_iff, start_joinlink_iff}
use rooster.Interfaces.Scan.{as_link, network_task, network_task-listens, network_task-broken}
use rooster.Netlink.{up, LinkNla, AddressNla, LinkMessage, AddressMessage}
use rooster.Grasp.Sample.{host, flood}
use rooster.Args.{is_valid_acp_interface}
use rooster.Args.Sample.{options}
use rooster.Acp.{none_available}
use rooster.Acp.Sample.{clock}
use rooster.Acp.Ports.{http}
use rooster.Acp.Availability.{available}
use rooster.Interface.{Ref, IfIndex}
use rooster.Interfaces.Sample.{
  world, values, values-YieldsValues, world-AreTables, world-WellFormed, sockets,
}
use rooster.Interfaces.Invariant.{WellFormed}
use rooster.Interfaces.Invariant.Messages.{listen_network-WellFormed}
use rooster.Interfaces.Registrars.{
  InMap, interface_available, proxies_of, hear, calculate_available_registrars,
  update_available_registrars, pick_available_https_registrar,
}
use rooster.Interfaces.Registrars.Choice.{Knows, pick_available_iff, pick_registrar-known}
use rooster.Interfaces.Registrars.Coherence.{Coherent, update-Coherent, hear-Coherent}
use rooster.Interfaces.Registrars.Sample.{target, picks_target, world-Coherent}
use rooster.Interfaces.Registrars.Alike.{store_addr_info-Coherent}
use rooster.Interfaces.Registrars.Restart.{restart-forgets}

pick_available_iff_test :
    (pick_available_https_registrar values world ≢ none)
    ↔ (available http (calculate_available_registrars values world) ≡ true)
pick_available_iff_test = pick_available_iff values world

pick_registrar-known_example : (r : Ref) × InMap r world.all.acp_interfaces × Knows world r target
pick_registrar-known_example =
    pick_registrar-known values world target values-YieldsValues world-AreTables picks_target

update-Coherent_test :
    (update_available_registrars values world).all.invalidate_avail ≡ false
    × (update_available_registrars values world).all.proxies
      ≡ proxies_of
          (calculate_available_registrars values (update_available_registrars values world))
update-Coherent_test = update-Coherent values world world-Coherent

hear-Coherent_test : Coherent values (hear 0 clock flood world)
hear-Coherent_test = hear-Coherent values 0 clock flood world world-Coherent

abbrev new_host : AddressMessage
new_host = record { index = 2; nlas = AddressNla.address host ∷ [] }

store_addr_info-Coherent_test : Coherent values (store_addr_info new_host world)
store_addr_info-Coherent_test = store_addr_info-Coherent values new_host world world-Coherent

abbrev acp_up : LinkMessage
acp_up = record { index = 2; nlas = LinkNla.oper_state up ∷ [] }

restart-forgets_example :
    (interface_available
        (store_link_info sockets options acp_up world).0
        (cell (store_link_info sockets options acp_up world).0 0)
      ≡ none_available)
    × ((store_link_info sockets options acp_up world).0.all.invalidate_avail
        ≡ world.all.invalidate_avail)
    × ((store_link_info sockets options acp_up world).0.all.proxies ≡ world.all.proxies)
unfolding store_links store_link is_valid_acp_interface
restart-forgets_example =
    restart-forgets sockets options acp_up world {r = 0} world-WellFormed refl refl refl refl refl
      refl

listen_network-WellFormed_test :
    WellFormed
      (listen_network options
        (new_link sockets acp_up ∷ new_address new_host ∷ ignored_message ∷ [])
        world).0
listen_network-WellFormed_test =
    listen_network-WellFormed options
      (new_link sockets acp_up ∷ new_address new_host ∷ ignored_message ∷ []) world world-WellFormed

-- The messages that the sample world gets.
abbrev told : List Message
told = new_link sockets acp_up ∷ new_address new_host ∷ ignored_message ∷ []

listen_network-learn_example :
    (n : ℕ) × ((k : IfIndex)
      → known k (listen_network options told world).0 ≡ learn_all k (take n told) (known k world))
    × (((listen_network options told world).1 ≡ panicked) ⊎ (take n told ≡ told))
listen_network-learn_example = listen_network-learn options told world world-WellFormed

-- A system that grants every call.
abbrev granting : Answers
granting calls c = none

abbrev listens : Option SocketAddr
listens = some (record { ip = v6 host; port = 8443 })

start_acp_iff_example :
    ((start_acp (sockets_of granting [] listens (cell world 0)) 0 world).1 ≡ done)
    ↔ Grants granting [] (grasp_calls 2)
start_acp_iff_example = start_acp_iff granting [] listens 0 world

start_joinlink_iff_example :
    ((start_joinlink (sockets_of granting [] listens (cell world 1)) 1 world).1 ≡ done) ↔ (
      Grants granting [] (ports_calls host 3)
      × ((a : Ipv6Addr) × (port : ℕ) × ListensAt granting [] listens a port))
start_joinlink_iff_example = start_joinlink_iff granting [] listens 1 world

network_task-listens_example :
    network_task options true
      (map some ((sockets, acp_up) ∷ []))
      (map some (new_host ∷ []))
      (ignored_message ∷ [])
      world
    ≡ listen_network options
        (map as_link ((sockets, acp_up) ∷ [])
          ++ (map new_address (new_host ∷ []) ++ (ignored_message ∷ [])))
        world
network_task-listens_example =
    network_task-listens options ((sockets, acp_up) ∷ []) (new_host ∷ []) (ignored_message ∷ [])
      world

network_task-broken_example :
    network_task options true (map some ((sockets, acp_up) ∷ []) ++ (none ∷ [])) [] [] world
    ≡ ((listen_network options (map as_link ((sockets, acp_up) ∷ [])) world).0, panicked)
network_task-broken_example = network_task-broken options ((sockets, acp_up) ∷ []) [] [] [] world
