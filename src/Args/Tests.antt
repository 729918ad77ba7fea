-- ===== src/Args/Tests.antt =====
-- Examples for src/args.rs.
use rooster.Base.{String, true, ◌≡◌, ◌↔◌, ◌⊎◌, refl, []}
use rooster.Args.{is_valid_acp_interface, is_valid_joinlink_interface, add_joinlink_interface}
use rooster.Args.Choice.{
  Lists, is_valid_acp_interface_iff, is_valid_joinlink_interface_iff, acp_is_joinlink,
  add_joinlink_interface-valid,
}
use rooster.Args.Sample.{options}

is_valid_acp_interface_iff_test :
    (is_valid_acp_interface options "acp0" ≡ true)
    ↔ (¬ Lists options.ignored_interfaces "acp0" × Lists options.acp_interfaces "acp0")
is_valid_acp_interface_iff_test = is_valid_acp_interface_iff options "acp0"

is_valid_joinlink_interface_iff_test : (is_valid_joinlink_interface options "lo" ≡ true) ↔ (
    ¬ Lists options.ignored_interfaces "lo"
    × (Lists options.joinlink_interfaces "lo" ⊎ (options.joinlink_interfaces ≡ [])))
is_valid_joinlink_interface_iff_test = is_valid_joinlink_interface_iff options "lo"

valid_acp0 : is_valid_acp_interface options "acp0" ≡ true
unfolding is_valid_acp_interface
valid_acp0 = refl

acp_is_joinlink_test : is_valid_joinlink_interface options "acp0" ≡ true
acp_is_joinlink_test = acp_is_joinlink options "acp0" refl valid_acp0

add_joinlink_interface-valid_test :
    (is_valid_joinlink_interface (add_joinlink_interface options "join0") "acp0" ≡ true) ↔ (
      ¬ Lists options.ignored_interfaces "acp0"
      × (Lists options.joinlink_interfaces "acp0" ⊎ (◌≡◌ {A = String} "join0" "acp0")))
add_joinlink_interface-valid_test = add_joinlink_interface-valid options "join0" "acp0"
