-- ===== src/Args/Sample.antt =====
-- Options, for the examples.
use rooster.Base.{true, false, [], ◌∷◌}
use rooster.Args.{RoosterOptions}

abbrev pub options : RoosterOptions
options = record {
  debug_interfaces = true;
  debug_registrars = true;
  debug_joininterfaces = true;
  debug_proxyactions = false;
  ignored_interfaces = "lo" ∷ [];
  acp_interfaces = "acp0" ∷ [];
  joinlink_interfaces = [];
}
