-- ===== src/Interfaces/Sample.antt =====
-- A rooster with an ACP interface that knows a registrar, and a join interface, for the examples.
use rooster.Base.{
  zero, suc, length, ◌<◌, true, false, ◌≡◌, refl, inl, inr, List, [], ◌∷◌, none, some, arith,
}
use rooster.Grasp.Sample.{host}
use rooster.Netlink.{up, down, LinkNla}
use rooster.Acp.Sample.{known, known-IsTable}
use rooster.Acp.Table.{empty-IsTable}
use rooster.Interface.{
  Ref, Interface, JoinInterface, World, Map, default_all, initial_world, empty_interface,
}
use rooster.Acp.{empty_acp}
use rooster.Args.{is_valid_acp_interface, is_valid_joinlink_interface}
use rooster.Args.Sample.{options}
use rooster.Interfaces.{
  cell, Sockets, Message, new_link, done, handle_message, store_link_info, get_entry_by_ifindex,
  store_links, store_link, start_roles, open_acp, start_acp, open_joinlink, start_joinlink,
}
use rooster.Interfaces.Invariant.{WellFormed}
use rooster.Interfaces.Registrars.{YieldsValues}
use rooster.Interfaces.Registrars.Choice.{AreTables}

abbrev pub acp0 : Interface
acp0 = record {
  ifindex = 2;
  ifname = "acp0";
  ignored = false;
  mtu = 1500;
  linklocal6 = host;
  oper_state = down;
  acp_daemon = some 0;
  join_daemon = none;
}

abbrev pub join0 : Interface
join0 = record {
  ifindex = 3;
  ifname = "join0";
  ignored = false;
  mtu = 1500;
  linklocal6 = host;
  oper_state = up;
  acp_daemon = none;
  join_daemon = some 0;
}

abbrev pub listener : JoinInterface
listener = record { https_v6addr = host; https_port = 8443 }

abbrev pub world : World
world = record {
  all = record {
    exitnow = false;
    invalidate_avail = false;
    proxies = record { http_avail = true; stateful_avail = false; stateless_avail = false };
    interfaces = (2, 0) ∷ (3, 1) ∷ [];
    acp_interfaces = (2, 0) ∷ [];
    joinlink_interfaces = (3, 1) ∷ [];
  };
  cells = acp0 ∷ join0 ∷ [];
  acps = known ∷ [];
  joins = listener ∷ [];
}

-- The values of a map, in the order of the list.
abbrev pub values : Map → List Ref
values [] = []
values ((k, r) ∷ m) = r ∷ values m

pub values-YieldsValues : YieldsValues values
values-YieldsValues [] r = ((λ i. i), (λ i. i))
values-YieldsValues ((k, s) ∷ m) r =
    let (there, back) = values-YieldsValues m r in
    (
      (λ i. elim i [ inl e ↦ inl e | inr j ↦ inr (there j) ]),
      (λ i. elim i [ inl e ↦ inl e | inr j ↦ inr (back j) ]),
    )

pub world-AreTables : AreTables world
world-AreTables zero = known-IsTable
world-AreTables (suc a) = empty-IsTable

acp_fit : (r : Ref) (a : Ref) → (cell world r).acp_daemon ≡ some a → a < length world.acps
acp_fit zero a e = ground arith
acp_fit (suc zero) a e = cc
acp_fit (suc (suc r)) a e = cc

join_fit : (r : Ref) (j : Ref) → (cell world r).join_daemon ≡ some j → j < length world.joins
join_fit zero j e = cc
join_fit (suc zero) j e = ground arith
join_fit (suc (suc r)) j e = cc

pub world-WellFormed : WellFormed world
world-WellFormed = record {
  interfaces_lead = ((omega arith, refl), ((omega arith, refl), tt));
  acp_aliases = (refl, tt);
  joinlink_aliases = (refl, tt);
  acp_daemons_fit = acp_fit;
  join_daemons_fit = join_fit;
}

abbrev pub sockets : Sockets
sockets = record { grasp_bound = true; https_local = some (host, 8443) }

-- A link of the ACP comes up, in a rooster that knows nothing.
abbrev pub first_up : Message
first_up =
    new_link sockets
      (record { index = 2; nlas = LinkNla.if_name "acp0" ∷ LinkNla.oper_state up ∷ [] })

abbrev pub fresh_world : World
fresh_world = record {
  all = record default_all {
    interfaces = (2, 0) ∷ [];
    acp_interfaces = (2, 0) ∷ [];
    joinlink_interfaces = (2, 0) ∷ [];
  };
  cells =
      record (empty_interface 2) {
        ifname = "acp0";
        oper_state = up;
        acp_daemon = some 0;
        join_daemon = some 0;
      }
      ∷ [];
  acps = empty_acp ∷ [];
  joins = listener ∷ [];
}

pub first_up-starts : handle_message options first_up initial_world ≡ (fresh_world, done)
unfolding handle_message store_link_info get_entry_by_ifindex store_links store_link start_roles
    open_acp start_acp open_joinlink start_joinlink is_valid_acp_interface
    is_valid_joinlink_interface
first_up-starts = refl
