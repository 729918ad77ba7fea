-- ===== src/Suite/Interfaces.antt =====
-- The unit tests of src/interfaces.rs. The sockets of a new daemon are granted, as they are to the
-- tests of the source.
use rooster.Base.{String, true, ◌≡◌, refl, [], ◌∷◌, some, length}
use rooster.Net.{unspecified}
use rooster.Netlink.{up, LinkNla, AddressNla, LinkMessage, AddressMessage}
use rooster.Cbor.Sample.{sample_cbor}
use rooster.Grasp.Locators.{copy_octets}
use rooster.Args.{default_options, is_empty, is_valid_acp_interface, is_valid_joinlink_interface}
use rooster.Interface.{Ref, World, initial_world}
use rooster.Interfaces.{
  cell, set_cell, count_active, count_active_interfaces, get_entry_by_ifindex, store_address,
  store_addresses, store_addr_info, store_link, store_links, Sockets, start_acp, start_joinlink,
  open_acp, open_joinlink, start_roles, store_link_info,
}
use rooster.Interfaces.Sample.{values}
use rooster.Interfaces.Scan.{gather_link_info, gather_addr_info}

abbrev pub granted : Sockets
granted = record { grasp_bound = true; https_local = some (unspecified, 40000) }

abbrev pub setup_am : AddressMessage
setup_am = record {
  index = 10;
  nlas =
      AddressNla.address (0xfe ∷ 0x80 ∷ 0 ∷ 0 ∷ 0 ∷ 0 ∷ 0 ∷ 0 ∷ 0 ∷ 0 ∷ 0 ∷ 0 ∷ 0 ∷ 0 ∷ 0 ∷ 1 ∷ [])
      ∷ [];
}

abbrev pub setup_am_2 : AddressMessage
setup_am_2 = record {
  index = 12;
  nlas =
      AddressNla.address (0xfe ∷ 0x80 ∷ 0 ∷ 0 ∷ 0 ∷ 0 ∷ 0 ∷ 0 ∷ 0 ∷ 0 ∷ 0 ∷ 0 ∷ 0 ∷ 0 ∷ 0 ∷ 2 ∷ [])
      ∷ [];
}

abbrev pub setup_lm : LinkMessage
setup_lm = record {
  index = 10;
  nlas =
      LinkNla.if_name "eth0"
      ∷ LinkNla.mtu 1500
      ∷ LinkNla.address (0x52 ∷ 0x54 ∷ 0x00 ∷ 0x99 ∷ 0x9b ∷ 0xba ∷ [])
      ∷ LinkNla.oper_state up
      ∷ [];
}

abbrev setup_lm_bridge_slave : LinkMessage
setup_lm_bridge_slave = record {
  index = 10;
  nlas =
      LinkNla.if_name "lan0"
      ∷ LinkNla.mtu 1500
      ∷ LinkNla.address (0x52 ∷ 0x54 ∷ 0x00 ∷ 0x99 ∷ 0x9b ∷ 0xba ∷ [])
      ∷ LinkNla.master 15
      ∷ LinkNla.oper_state up
      ∷ [];
}

abbrev pub setup_lm_2 : LinkMessage
setup_lm_2 = record {
  index = 12;
  nlas =
      LinkNla.if_name "join0"
      ∷ LinkNla.mtu 1500
      ∷ LinkNla.address (0x52 ∷ 0x54 ∷ 0x00 ∷ 0x99 ∷ 0xa1 ∷ 0xab ∷ [])
      ∷ LinkNla.oper_state up
      ∷ [];
}

abbrev setup_lm_19 : LinkMessage
setup_lm_19 = record {
  index = 19;
  nlas =
      LinkNla.if_name "fun0"
      ∷ LinkNla.mtu 1500
      ∷ LinkNla.address (0x52 ∷ [])
      ∷ LinkNla.oper_state up
      ∷ [];
}

abbrev AddInterface : Type 0
AddInterface =
    (length initial_world.all.interfaces ≡ 0)
    × (length (store_addr_info setup_am initial_world).all.interfaces ≡ 1)

abbrev LockedAddInterface : Type 0
LockedAddInterface =
    (length initial_world.all.interfaces ≡ 0)
    × (length (gather_addr_info setup_am initial_world).0.all.interfaces ≡ 1)

abbrev gathered : LinkMessage → World
gathered lm = (gather_link_info default_options (granted, lm) initial_world).0

abbrev LockedAddLink : Type 0
LockedAddLink =
    (length initial_world.all.interfaces ≡ 0) × (length (gathered setup_lm).all.interfaces ≡ 1)

abbrev FunkyEtherAddLink : Type 0
FunkyEtherAddLink =
    (count_active_interfaces values initial_world ≡ 0)
    × (count_active_interfaces values (gathered setup_lm_19) ≡ 1)

abbrev AddSlaveLink : Type 0
AddSlaveLink =
    (count_active_interfaces values initial_world ≡ 0)
    × (count_active_interfaces values (gathered setup_lm_bridge_slave) ≡ 0)

-- `ifname = "eth0"` on an entry.
abbrev named : Ref → World → World
named r w = set_cell r (record (cell w r) { ifname = "eth0" }) w

abbrev SearchEntry : Type 0
SearchEntry =
    let (w1, r1) = get_entry_by_ifindex 1 initial_world in
    let (w2, r2) = get_entry_by_ifindex 2 (named r1 w1) in
    let (w3, r3) = get_entry_by_ifindex 1 (named r2 w2) in
    ((cell w1 r1).ifindex ≡ 1)
    × ((cell w2 r2).ifindex ≡ 2)
    × (◌≡◌ {A = String} (cell w3 r3).ifname "eth0")
    × (length w3.all.interfaces ≡ 2)

table_holds :
    AddInterface × LockedAddInterface × LockedAddLink × FunkyEtherAddLink × AddSlaveLink
    × SearchEntry
unfolding copy_octets default_options is_empty is_valid_acp_interface is_valid_joinlink_interface
    count_active count_active_interfaces get_entry_by_ifindex store_address store_addresses
    store_addr_info store_link store_links start_acp start_joinlink open_acp open_joinlink
    start_roles store_link_info gather_link_info gather_addr_info
table_holds =
    ((refl, refl), (refl, refl), (refl, refl), (refl, refl), (refl, refl), (refl, refl, refl, refl))
