-- ===== src/Args.antt =====
-- src/args.rs: the options, and which interfaces they choose. The parsing of the command line is
-- generated by structopt and is left out.
pub mod Choice
pub mod Sample
mod Tests
use rooster.Base.{
  String, Bool, true, false, List, [], ◌∷◌, ◌++◌, contains, equality_string, if◌then◌else◌,
}

pub record RoosterOptions : Type 0 where
  pub debug_interfaces : Bool
  pub debug_registrars : Bool
  pub debug_joininterfaces : Bool
  pub debug_proxyactions : Bool
  pub ignored_interfaces : List String
  pub acp_interfaces : List String
  pub joinlink_interfaces : List String

-- `RoosterOptions::default`.
unfoldable pub default_options : RoosterOptions
default_options = record {
  debug_interfaces = true;
  debug_registrars = true;
  debug_joininterfaces = true;
  debug_proxyactions = false;
  ignored_interfaces = [];
  acp_interfaces = [];
  joinlink_interfaces = [];
}

unfoldable pub is_empty : List String → Bool
is_empty [] = true
is_empty (x ∷ xs) = false

unfoldable pub is_valid_acp_interface : RoosterOptions → String → Bool
is_valid_acp_interface o ifname =
    if contains o.ignored_interfaces ifname
    then false
    else if contains o.acp_interfaces ifname
    then true
    else false

unfoldable pub is_valid_joinlink_interface : RoosterOptions → String → Bool
unfolding is_empty
is_valid_joinlink_interface o ifname =
    if contains o.ignored_interfaces ifname
    then false
    else if contains o.joinlink_interfaces ifname
    then true
    else if is_empty o.joinlink_interfaces
    then true
    else false

unfoldable pub add_joinlink_interface : RoosterOptions → String → RoosterOptions
add_joinlink_interface o ifname = record o {
  joinlink_interfaces = o.joinlink_interfaces ++ (ifname ∷ []);
}

unfoldable pub add_acp_interface : RoosterOptions → String → RoosterOptions
add_acp_interface o ifname = record o { acp_interfaces = o.acp_interfaces ++ (ifname ∷ []) }
