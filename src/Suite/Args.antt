-- ===== src/Suite/Args.antt =====
-- The unit tests of src/args.rs on the choice of interfaces. Those that parse a command line are left
-- out, like the parser, which structopt generates.
use rooster.Base.{String, true, false, ◌≡◌, refl, List, [], ◌∷◌}
use rooster.Args.{RoosterOptions, is_empty, is_valid_acp_interface, is_valid_joinlink_interface}

-- Options without debug output, and with these lists of interfaces.
abbrev ro1 : List String → List String → List String → RoosterOptions
ro1 ignored acp joinlink = record {
  debug_interfaces = false;
  debug_registrars = false;
  debug_joininterfaces = false;
  debug_proxyactions = false;
  ignored_interfaces = ignored;
  acp_interfaces = acp;
  joinlink_interfaces = joinlink;
}

abbrev TestEth0IsIgnored : Type 0
TestEth0IsIgnored =
    let o = ro1 ("eth0" ∷ []) [] ("eth0" ∷ []) in
    (is_valid_joinlink_interface o "eth0" ≡ false)
    × (is_valid_acp_interface o "eth0" ≡ false)
    × (is_valid_joinlink_interface o "eth1" ≡ false)

abbrev TestEth0IsJoinlink : Type 0
TestEth0IsJoinlink =
    let o = ro1 ("eth1" ∷ []) [] ("eth0" ∷ []) in
    (is_valid_joinlink_interface o "eth0" ≡ true) × (is_valid_acp_interface o "eth0" ≡ false)

abbrev TestEth0IsAcp : Type 0
TestEth0IsAcp =
    let o = ro1 ("eth1" ∷ []) ("eth2" ∷ []) ("eth0" ∷ []) in
    (is_valid_joinlink_interface o "eth2" ≡ false) × (is_valid_acp_interface o "eth2" ≡ true)

abbrev TestEth0IsImplicitJoinlink : Type 0
TestEth0IsImplicitJoinlink =
    let o = ro1 [] [] [] in
    (is_valid_joinlink_interface o "eth2" ≡ true) × (is_valid_acp_interface o "eth2" ≡ false)

args_hold : TestEth0IsIgnored × TestEth0IsJoinlink × TestEth0IsAcp × TestEth0IsImplicitJoinlink
unfolding is_empty is_valid_acp_interface is_valid_joinlink_interface
args_hold = ((refl, refl, refl), (refl, refl), (refl, refl), (refl, refl))
