-- ===== src/Interfaces.antt =====
-- src/interfaces.rs: the table of interfaces and what netlink messages do to it. Debug output is left
-- out. Sockets come from the system: whether a bind succeeds is an argument.
pub mod Registrars
pub mod Invariant
pub mod Learning
pub mod Opening
pub mod Scan
pub mod Blind
pub mod Sample
mod Tests
use rooster.Base.{
  ℕ, ◌+◌, ◌*◌, ◌%◌, ◌^◌, String, Bool, true, false, not, ◌&&◌, ◌≡◌, List, [], ◌∷◌, ◌++◌, Option,
  none, some, ◌==◌, equality_nat, if◌then◌else◌, length, get_or, set, replicate,
}
use rooster.Net.{Ipv6Addr, first_segment}
use rooster.Netlink.{State, is_up, LinkNla, LinkMessage, AddressNla, AddressMessage}
use rooster.Args.{RoosterOptions, is_valid_acp_interface, is_valid_joinlink_interface}
use rooster.Acp.{AcpInterface, empty_acp}
use rooster.Interface.{
  IfIndex, Ref, Interface, empty_interface, JoinInterface, AllInterfaces, World, Map,
}
use rooster.Grasp.Locators.{copy_octets}

abbrev pub lookup : IfIndex → Map → Option Ref
lookup k [] = none
lookup k ((j, r) ∷ m) = if j == k then some r else lookup k m

-- `m.entry(k).or_insert_with(|| r)`.
abbrev pub or_insert : IfIndex → Ref → Map → Map
or_insert k r m = elim (lookup k m) [ some _ ↦ m | none ↦ m ++ ((k, r) ∷ []) ]

-- The interface behind a reference.
abbrev pub cell : World → Ref → Interface
cell w r = get_or w.cells r (empty_interface 0)

abbrev pub set_cell : Ref → Interface → World → World
set_cell r ifn w = record w { cells = set w.cells r ifn }

-- The loop of `count_active_interfaces`.
unfoldable pub count_active : World → ℕ → List Ref → ℕ
count_active w count [] = count
count_active w count (r ∷ rs) =
    count_active w (if (cell w r).ignored then count else (count + 1) % 2 ^ 32) rs

-- In which order `HashMap::values` yields the entries is an argument.
unfoldable pub count_active_interfaces : (Map → List Ref) → World → ℕ
unfolding count_active
count_active_interfaces values w = count_active w 0 (values w.all.interfaces)

-- The world, and the entry for the index, which is made if there is none.
unfoldable pub get_entry_by_ifindex : IfIndex → World → World × Ref
get_entry_by_ifindex ifindex w = elim (lookup ifindex w.all.interfaces) [
  | some r ↦ (w, r)
  | none ↦
      let r = length w.cells in
      (
        record w {
          cells = w.cells ++ (empty_interface ifindex ∷ []);
          all = record w.all { interfaces = w.all.interfaces ++ ((ifindex, r) ∷ []) };
        },
        r,
      )
]

-- A link-local IPv6 address is kept; any other attribute is passed over.
unfoldable pub store_address : Interface → AddressNla → Interface
unfolding copy_octets
store_address ifn (AddressNla.address addrset) =
    if length addrset == 16
    then (let llv6 = copy_octets 16 0 addrset (replicate 16 0) in
        if first_segment llv6 == 0xfe80 then record ifn { linklocal6 = llv6 } else ifn)
    else ifn
store_address ifn AddressNla.other = ifn

unfoldable pub store_addresses : Interface → List AddressNla → Interface
store_addresses ifn [] = ifn
store_addresses ifn (nla ∷ nlas) = store_addresses (store_address ifn nla) nlas

unfoldable pub store_addr_info : AddressMessage → World → World
store_addr_info am w =
    let (w', r) = get_entry_by_ifindex am.index w in
    set_cell r (store_addresses (cell w' r) am.nlas) w'

-- The attributes that change the interface: its name, its MTU, its state, and that it is part of a
-- bridge.
unfoldable pub store_link : Interface → LinkNla → Interface
store_link ifn (LinkNla.if_name name) = record ifn { ifname = name }
store_link ifn (LinkNla.mtu bytes) = record ifn { mtu = bytes }
store_link ifn (LinkNla.oper_state state) = record ifn { oper_state = state }
store_link ifn (LinkNla.master _) = record ifn { ignored = true }
store_link ifn _ = ifn

unfoldable pub store_links : Interface → List LinkNla → Interface
store_links ifn [] = ifn
store_links ifn (nla ∷ nlas) = store_links (store_link ifn nla) nlas

-- What the system answers to the sockets that a new daemon opens: whether the GRASP port is bound,
-- and the local address of the HTTPS listener, unless one of the sockets fails.
pub record Sockets : Type 0 where
  pub grasp_bound : Bool
  pub https_local : Option (Ipv6Addr × ℕ)

-- How the handler of a message ends: `unwrap` panics on a socket that failed.
pub data Ending : Type 0 where
  done panicked : Ending

-- `Interface::start_acp`, with the daemon that `AcpInterface::start_daemon` returns.
unfoldable pub start_acp : Sockets → Ref → World → World × Ending
start_acp os r w =
    if os.grasp_bound
    then (
      set_cell r (record (cell w r) { acp_daemon = some (length w.acps) })
          (record w { acps = w.acps ++ (empty_acp ∷ []) }),
      done,
    )
    else (w, panicked)

-- `Interface::start_joinlink`, with `JoinInterface::start_daemon` and `open_ports`.
unfoldable pub start_joinlink : Sockets → Ref → World → World × Ending
start_joinlink os r w = elim os.https_local [
  | some (v6addr, port) ↦ (
    set_cell r (record (cell w r) { join_daemon = some (length w.joins) })
        (record w {
          joins = w.joins ++ (record { https_v6addr = v6addr; https_port = port } ∷ []);
        }),
    done,
  )
  | none ↦ (w, panicked)
]

-- `acp_interfaces.entry(ifindex).or_insert_with(…)`, and the listener.
unfoldable pub open_acp : Sockets → IfIndex → Ref → World → World × Ending
unfolding start_acp
open_acp os ifindex r w =
    start_acp os r (record w {
      all = record w.all { acp_interfaces = or_insert ifindex r w.all.acp_interfaces };
    })

unfoldable pub open_joinlink : Sockets → IfIndex → Ref → World → World × Ending
unfolding start_joinlink
open_joinlink os ifindex r w = start_joinlink os r (record w {
  all = record w.all { joinlink_interfaces = or_insert ifindex r w.all.joinlink_interfaces };
})

-- The two roles of an interface that has come up. A panic in the first skips the second.
unfoldable pub start_roles : Sockets → RoosterOptions → IfIndex → Ref → World → World × Ending
start_roles os options ifindex r w =
    let ifname = (cell w r).ifname in
    let (w1, ending) =
      if is_valid_acp_interface options ifname then open_acp os ifindex r w else (w, done) in
    elim ending [
      | panicked ↦ (w1, panicked)
      | done ↦
          if is_valid_joinlink_interface options ifname
          then open_joinlink os ifindex r w1
          else (w1, done)
    ]

unfoldable pub store_link_info : Sockets → RoosterOptions → LinkMessage → World → World × Ending
store_link_info os options lm w =
    let (w0, r) = get_entry_by_ifindex lm.index w in
    let old = cell w0 r in
    let ifn = store_links old lm.nlas in
    let w1 = set_cell r ifn w0 in
    if not (is_up old.oper_state) && is_up ifn.oper_state
    then (if ifn.ignored then (w1, done) else start_roles os options lm.index r w1)
    else (w1, done)

-- What `listen_network` receives.
pub data Message : Type 0 where
  new_link : Sockets → LinkMessage → Message
  new_address : AddressMessage → Message
  ignored_message : Message

pub handle_message : RoosterOptions → Message → World → World × Ending
handle_message options (new_link os lm) w = store_link_info os options lm w
handle_message options (new_address am) w = (store_addr_info am w, done)
handle_message options ignored_message w = (w, done)

-- The messages in turn, those of the scan first; a panic ends the listener.
pub listen_network : RoosterOptions → List Message → World → World × Ending
listen_network options [] w = (w, done)
listen_network options (m ∷ ms) w =
    let (w', ending) = handle_message options m w in
    let rest = listen_network options ms w' in
    elim ending [ done ↦ rest | panicked ↦ (w', panicked) ]
