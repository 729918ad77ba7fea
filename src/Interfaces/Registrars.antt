-- ===== src/Interfaces/Registrars.antt =====
-- src/interfaces.rs: which kinds of registrar are available, and which registrar a pledge gets. In
-- which order `HashMap::values` yields the entries is a parameter.
pub mod Choice
pub mod Coherence
pub mod Alike
pub mod Restart
pub mod Tables
pub mod Serving
pub mod Quiet
pub mod Starts
pub mod Sources
pub mod Listing
pub mod Sample
use rooster.Base.{
  ℕ, String, Bool, true, false, ◌||◌, ◌≡◌, ◌↔◌, ◌⊎◌, List, [], ◌∷◌, Option, none, some,
  if◌then◌else◌, get_or, set, In,
}
use rooster.Net.{IpAddr, v4, v6, SocketAddr}
use rooster.Grasp.{GraspMessage}
use rooster.Acp.{
  Millis, announce, RegistrarType, http_registrar, Registrar, AcpInterface, empty_acp, Available,
  none_available, calculate_available_registrar,
}
use rooster.Interface.{Ref, Interface, ProxiesEnabled, World, Map}
use rooster.Interfaces.{cell}

abbrev pub acp : World → Ref → AcpInterface
acp w a = get_or w.acps a empty_acp

unfoldable pub daemon_available : World → Option Ref → Available
daemon_available w (some a) = calculate_available_registrar (acp w a)
daemon_available w none = none_available

-- `Interface::calculate_available_registrar`.
abbrev pub interface_available : World → Interface → Available
interface_available w ifn = daemon_available w ifn.acp_daemon

unfoldable pub or_available : Available → Available → Available
or_available x y = record {
  http_avail = x.http_avail || y.http_avail;
  stateful_avail = x.stateful_avail || y.stateful_avail;
  stateless_avail = x.stateless_avail || y.stateless_avail;
}

-- The loop of `calculate_available_registrars`.
unfoldable pub available_among : World → Available → List Ref → Available
available_among w av [] = av
available_among w av (r ∷ rs) =
    available_among w (or_available av (interface_available w (cell w r))) rs

unfoldable pub sockaddr_from_addr : IpAddr → ℕ → SocketAddr
sockaddr_from_addr (v4 a) port = record { ip = v4 a; port = port }
sockaddr_from_addr (v6 a) port = record { ip = v6 a; port = port }

-- The three nested loops of `pick_available_https_registrar`, innermost first.
unfoldable pub pick_type : IpAddr → List RegistrarType → Option SocketAddr
pick_type addr [] = none
pick_type addr (http_registrar port ∷ rts) = some (sockaddr_from_addr addr port)
pick_type addr (rt ∷ rts) = pick_type addr rts

-- The first that is found, else what comes next.
abbrev pub or_next {ℓ} : {A : Type ℓ} → Option A → Option A → Option A
or_next (some x) y = some x
or_next none y = y

unfoldable pub pick_registrar : List Registrar → Option SocketAddr
unfolding pick_type
pick_registrar [] = none
pick_registrar (reg ∷ regs) = or_next (pick_type reg.addr reg.rtypes) (pick_registrar regs)

unfoldable pub pick_daemon : World → Option Ref → Option SocketAddr
unfolding pick_registrar
pick_daemon w (some a) = pick_registrar (acp w a).registrars
pick_daemon w none = none

unfoldable pub pick_among : World → List Ref → Option SocketAddr
unfolding pick_daemon
pick_among w [] = none
pick_among w (r ∷ rs) = or_next (pick_daemon w (cell w r).acp_daemon) (pick_among w rs)

-- `r` is a value of the map.
abbrev pub InMap : Ref → Map → Type 0
InMap r [] = ⊥
InMap r ((k, s) ∷ m) = (s ≡ r) ⊎ InMap r m

-- `HashMap::values` yields the values, in any order.
abbrev pub YieldsValues : (Map → List Ref) → Type 0
YieldsValues values = (m : Map) (r : Ref) → In r (values m) ↔ InMap r m

abbrev pub proxies_of : Available → ProxiesEnabled
proxies_of av = record {
  http_avail = av.http_avail;
  stateful_avail = av.stateful_avail;
  stateless_avail = av.stateless_avail;
}

-- The daemon behind `a` hears a message: its table and the shared flag change.
unfoldable pub hear : Ref → (ℕ → Millis) → GraspMessage → World → World
hear a clock msg w =
    let (acp', invalidated) = announce clock msg (acp w a, w.all.invalidate_avail) in
    record w { acps = set w.acps a acp'; all = record w.all { invalidate_avail = invalidated } }

module _ (values : Map → List Ref) where
  unfoldable pub calculate_available_registrars : World → Available
  calculate_available_registrars w = available_among w none_available (values w.all.acp_interfaces)

  -- The proxies are computed anew if the flag is set, and the flag is cleared.
  unfoldable pub update_available_registrars : World → World
  update_available_registrars w = record w {
    all = record w.all {
      proxies =
          if w.all.invalidate_avail
          then proxies_of (calculate_available_registrars w)
          else w.all.proxies;
      invalidate_avail = false;
    };
  }

  unfoldable pub pick_available_https_registrar : World → Option SocketAddr
  pick_available_https_registrar w = pick_among w (values w.all.acp_interfaces)
