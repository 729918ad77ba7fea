-- ===== src/Suite/Debug.antt =====
-- The unit test of src/debugoptions.rs, and that of src/acp_interface.rs which opens a socket.
use rooster.Base.{◌≡◌, refl, [], ◌∷◌, none}
use rooster.Debug.{text, DebugOptions, debug_info}
use rooster.Sys.{Answers, finished}
use rooster.Acp.{empty_acp}
use rooster.Acp.Socket.{open_grasp_port, show_network, join_group}
use rooster.Base.{true, false}

abbrev db1 : DebugOptions
db1 = record {
  debug_interfaces = true;
  debug_registrars = false;
  debug_joininterfaces = false;
  debug_proxyactions = false;
}

-- A line is written as its tag and its message.
abbrev TestDebugInfo : Type 0
TestDebugInfo =
    debug_info db1 (text "hello" ∷ []) ≡ record { tag = "I: "; message = text "hello" ∷ [] } ∷ []

-- The system grants the calls.
abbrev granting : Answers
granting calls c = none

abbrev OpenSocket : Type 0
OpenSocket = (open_grasp_port granting 1 []).1 ≡ finished empty_acp

debug_holds : TestDebugInfo × OpenSocket
unfolding open_grasp_port show_network join_group
debug_holds = (refl, refl)
