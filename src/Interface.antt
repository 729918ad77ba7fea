-- ===== src/Interface.antt =====
-- src/interface.rs: one network interface, and the types of src/interfaces.rs and
-- src/join_interface.rs that it leads to. An `Arc<Mutex<T>>` is a number, the place of the `T` in
-- the list of its kind in `World`.
use rooster.Base.{ℕ, String, Bool, true, false, List, [], Option, none}
use rooster.Net.{Ipv6Addr, unspecified}
use rooster.Netlink.{State, down}
use rooster.Acp.{AcpInterface}

abbrev pub IfIndex : Type 0
IfIndex = ℕ

abbrev pub Ref : Type 0
Ref = ℕ

pub record Interface : Type 0 where
  pub ifindex : IfIndex
  pub ifname : String
  pub ignored : Bool
  pub mtu : ℕ
  pub linklocal6 : Ipv6Addr
  pub oper_state : State
  pub acp_daemon : Option Ref
  pub join_daemon : Option Ref

-- `Interface::default`.
abbrev pub default_interface : Interface
default_interface = record {
  ifindex = 0;
  ifname = "";
  ignored = false;
  mtu = 0;
  linklocal6 = unspecified;
  oper_state = down;
  acp_daemon = none;
  join_daemon = none;
}

-- `Interface::empty`.
abbrev pub empty_interface : IfIndex → Interface
empty_interface ifi = record default_interface { ifindex = ifi }

pub record ProxiesEnabled : Type 0 where
  pub http_avail : Bool
  pub stateful_avail : Bool
  pub stateless_avail : Bool

abbrev pub no_proxies : ProxiesEnabled
no_proxies = record { http_avail = false; stateful_avail = false; stateless_avail = false }

-- The address and the port that its listener got; the sockets themselves are left out.
pub record JoinInterface : Type 0 where
  pub https_v6addr : Ipv6Addr
  pub https_port : ℕ

-- A `HashMap` by interface index, as an association list.
abbrev pub Map : Type 0
Map = List (IfIndex × Ref)

-- `AllInterfaces`, with the content of the flag `invalidate_avail`, which every `AcpInterface`
-- shares, and of the mutex around `joinlink_interfaces`.
pub record AllInterfaces : Type 0 where
  pub exitnow : Bool
  pub invalidate_avail : Bool
  pub proxies : ProxiesEnabled
  pub interfaces : Map
  pub acp_interfaces : Map
  pub joinlink_interfaces : Map

-- `AllInterfaces::default`.
abbrev pub default_all : AllInterfaces
default_all = record {
  exitnow = false;
  invalidate_avail = true;
  proxies = no_proxies;
  interfaces = [];
  acp_interfaces = [];
  joinlink_interfaces = [];
}

-- `all`, and what the references lead to.
pub record World : Type 0 where
  pub all : AllInterfaces
  pub cells : List Interface
  pub acps : List AcpInterface
  pub joins : List JoinInterface

abbrev pub initial_world : World
initial_world = record { all = default_all; cells = []; acps = []; joins = [] }
