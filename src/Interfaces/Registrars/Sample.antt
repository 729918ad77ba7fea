-- ===== src/Interfaces/Registrars/Sample.antt =====
-- What the sample rooster picks and announces.
use rooster.Base.{◌≡◌, refl, inl, inr, some, [], ◌∷◌}
use rooster.Net.{v6, SocketAddr}
use rooster.Grasp.Sample.{host}
use rooster.Acp.{calculate_available_registrar, note_registrars, note_rtypes, note_rtype}
use rooster.Interfaces.Sample.{world, values, fresh_world}
use rooster.Acp.Sample.{heard_acp}
use rooster.Interface.{World}
use rooster.Interfaces.Registrars.{
  daemon_available, available_among, or_available, calculate_available_registrars,
  sockaddr_from_addr, pick_type, pick_registrar, pick_daemon, pick_among,
  pick_available_https_registrar,
}
use rooster.Interfaces.Registrars.Coherence.{Coherent}
use rooster.Interfaces.Registrars.Serving.{Serves}

abbrev pub target : SocketAddr
target = record { ip = v6 host; port = 8993 }

pub picks_target : pick_available_https_registrar values world ≡ some target
unfolding pick_available_https_registrar pick_among pick_daemon pick_registrar pick_type
    sockaddr_from_addr
picks_target = refl

pub world-Coherent : Coherent values world
unfolding calculate_available_registrars available_among or_available daemon_available
    calculate_available_registrar note_registrars note_rtypes note_rtype
world-Coherent = inr refl

-- The rooster after its first link of the ACP came up and the daemon on it heard a flood.
abbrev pub heard_world : World
heard_world = record fresh_world { acps = heard_acp ∷ [] }

pub picks_heard : pick_available_https_registrar values heard_world ≡ some target
unfolding pick_available_https_registrar pick_among pick_daemon pick_registrar pick_type
    sockaddr_from_addr
picks_heard = refl

pub heard-Serves : Serves heard_world
unfolding daemon_available calculate_available_registrar note_registrars note_rtypes note_rtype
heard-Serves = (0, inl refl, refl)
