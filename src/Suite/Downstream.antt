-- ===== src/Suite/Downstream.antt =====
-- The unit test of src/interfaces.rs that goes through the whole program: links come up, a registrar
-- is heard, the proxy is announced, and a registrar is picked.
use rooster.Base.{ℕ, true, false, ◌≡◌, refl, List, [], ◌∷◌, Option, none, some, length, get_or, set}
use rooster.Error.{Outcome, ok}
use rooster.Net.{v6}
use rooster.Cbor.Sample.{sample_cbor}
use rooster.Cbor.Octets.{serialize}
use rooster.Grasp.Locators.{copy_octets}
use rooster.Grasp.Encode.{
  encode_grasp_mtype, locator_items, encode_grasp_locator, value_items, locator_item,
  encode_grasp_objective, encode_dull_grasp_message,
}
use rooster.Args.{
  RoosterOptions, default_options, is_empty, add_acp_interface, add_joinlink_interface,
  is_valid_acp_interface, is_valid_joinlink_interface,
}
use rooster.Acp.{
  note_rtype, note_rtypes, note_registrars, calculate_available_registrar, same_discriminant,
  replace_rtypes, update_rtypes, add_to_registrars, add_registrar, announced_type, announced,
  hearing, announce_objectives, registrar_announce,
}
use rooster.Acp.Sample.{clock}
use rooster.Interface.{Ref, Interface, JoinInterface, World, initial_world}
use rooster.Interfaces.{
  cell, get_entry_by_ifindex, store_address, store_addresses, store_addr_info, store_link,
  store_links, start_acp, start_joinlink, open_acp, open_joinlink, start_roles, store_link_info,
}
use rooster.Interfaces.Sample.{values}
use rooster.Interfaces.Registrars.{
  acp, daemon_available, or_available, available_among, sockaddr_from_addr, pick_type,
  pick_registrar, pick_daemon, pick_among, calculate_available_registrars,
  update_available_registrars, pick_available_https_registrar,
}
use rooster.Join.{no_daemon, an_proxy_message, build_an_proxy}
use rooster.Suite.Acp.{host_1, msg1}
use rooster.Suite.Interfaces.{granted, setup_am, setup_am_2, setup_lm, setup_lm_2}

abbrev options : RoosterOptions
options = add_joinlink_interface (add_acp_interface default_options "eth0") "join0"

-- The two links have come up, and have got their addresses.
abbrev with_links : World
with_links =
    let w1 = (store_link_info granted options setup_lm initial_world).0 in
    let w2 = (store_link_info granted options setup_lm_2 (store_addr_info setup_am w1)).0 in
    store_addr_info setup_am_2 w2

abbrev updated : World
updated = update_available_registrars values with_links

-- The daemon of an interface, if it has one, is fed the message.
abbrev feed : Option Ref → World → World
feed none w = w
feed (some a) w =
    let (acp', flag) = registrar_announce clock msg1 (acp w a, w.all.invalidate_avail) in
    record w { acps = set w.acps a acp'; all = record w.all { invalidate_avail = flag } }

abbrev fed : World
fed = let (w, li10) = get_entry_by_ifindex 10 updated in feed (cell w li10).acp_daemon w

abbrev told : World
told = update_available_registrars values fed

-- What the join daemon of an interface announces, at the port that the test gives it.
abbrev announced_by : Option Ref → Interface → World → Outcome (List ℕ)
announced_by none i12 w = ok (1 ∷ [])
announced_by (some j) i12 w =
    let jd : JoinInterface = record (get_or w.joins j no_daemon) { https_port = 1234 } in
    build_an_proxy serialize jd i12 w.all.proxies 1

abbrev mflood : Outcome (List ℕ)
mflood =
    let (w, li12) = get_entry_by_ifindex 12 told in
    announced_by (cell w li12).join_daemon (cell w li12) w

abbrev expected_flood : List ℕ
expected_flood =
    0x85 ∷ 0x09 ∷ 0x01 ∷ 0x50 ∷ 0xfe ∷ 0x80 ∷ 0 ∷ 0 ∷ 0 ∷ 0 ∷ 0 ∷ 0 ∷ 0 ∷ 0 ∷ 0 ∷ 0 ∷ 0 ∷ 0 ∷ 0 ∷ 2
    ∷ 0x01 ∷ 0x82 ∷ 0x84 ∷ 0x68 ∷ 0x41 ∷ 0x4e ∷ 0x5f ∷ 0x50 ∷ 0x72 ∷ 0x6f ∷ 0x78 ∷ 0x79 ∷ 0x00
    ∷ 0x01 ∷ 0x60 ∷ 0x84 ∷ 0x18 ∷ 0x67 ∷ 0x50 ∷ 0xfe ∷ 0x80 ∷ 0 ∷ 0 ∷ 0 ∷ 0 ∷ 0 ∷ 0 ∷ 0 ∷ 0 ∷ 0 ∷ 0
    ∷ 0 ∷ 0 ∷ 0 ∷ 2 ∷ 0x06 ∷ 0x19 ∷ 0x04 ∷ 0xd2 ∷ []

abbrev EnableJoinDownstream : Type 0
EnableJoinDownstream =
    (length with_links.all.interfaces ≡ 2)
    × (updated.all.proxies.http_avail ≡ false)
    × (updated.all.invalidate_avail ≡ false)
    × (fed.all.invalidate_avail ≡ true)
    × (told.all.proxies.http_avail ≡ true)
    × (mflood ≡ ok expected_flood)
    × (pick_available_https_registrar values told ≡ some (record { ip = v6 host_1; port = 8993 }))

EnableJoinDownstream-holds : EnableJoinDownstream
unfolding copy_octets default_options is_empty add_acp_interface add_joinlink_interface
    is_valid_acp_interface is_valid_joinlink_interface get_entry_by_ifindex store_address
    store_addresses store_addr_info store_link store_links start_acp start_joinlink open_acp
    open_joinlink start_roles store_link_info note_rtype note_rtypes note_registrars
    calculate_available_registrar same_discriminant replace_rtypes update_rtypes add_to_registrars
    add_registrar announced_type announced hearing announce_objectives registrar_announce
    daemon_available or_available available_among sockaddr_from_addr pick_type pick_registrar
    pick_daemon pick_among calculate_available_registrars update_available_registrars
    pick_available_https_registrar encode_grasp_mtype locator_items encode_grasp_locator value_items
    locator_item encode_grasp_objective encode_dull_grasp_message an_proxy_message build_an_proxy
EnableJoinDownstream-holds = (refl, refl, refl, refl, refl, refl, refl)
