-- ===== src/Locks.antt =====
-- The mutexes of src/main.rs, src/interfaces.rs, src/interface.rs, src/acp_interface.rs and
-- src/join_interface.rs, and the order in which the tasks take them: the main loop, which updates
-- the proxies and then announces them, the daemon of each ACP interface, the proxy that picks a
-- registrar for a pledge, and the listener of netlink messages. The table of an ACP interface has the
-- number of its daemon. Pledges are served one at a time, as they are under the mutex of
-- `AllInterfaces`. The mutexes of the debug writer and of a `JoinInterface` are left out: no other is
-- waited for under them.
pub mod Steps
pub mod Links
pub mod Exclusion
pub mod Deadlock
pub mod Crossing
pub mod Progress
pub mod Release
pub mod Silence
pub mod Stuck
mod Tests
pub mod Work
use rooster.Base.{
  ℕ, suc, Bool, true, false, ◌||◌, ◌≡◌, ◌↔◌, ◌<◌, List, [], ◌∷◌, ◌++◌, Option, none, some, In,
  contains, length, get_or, set, replicate, equality_nat, ◌==◌, if◌then◌else◌,
}
use rooster.Interface.{Ref}

-- An interface of the ACP map, and the table of its daemon, if it has one.
abbrev pub Entry : Type 0
Entry = Ref × Option Ref

-- The main loop. `update_available_registrars`, under the lock of `AllInterfaces`: with that lock,
-- with the flag's too, with that of an interface and with that of its table besides, and the entries
-- still to visit. Then the announcements: with the lock of the map of join interfaces, and with that
-- of one of them besides, and those still to visit.
pub data MainAt : Type 0 where
  main_sleeps : MainAt
  main_has_all main_has_flag : List Entry → MainAt
  main_has_link : Ref → Option Ref → List Entry → MainAt
  main_reads : Ref → Ref → List Entry → MainAt
  main_wants_map : MainAt
  main_has_map : List Ref → MainAt
  main_sends : Ref → List Ref → MainAt

-- `AcpInterface::start_daemon`: waiting for a datagram, with the lock of the table and so many
-- registrars still to be added, and with the lock of the flag besides.
pub data DaemonAt : Type 0 where
  daemon_listens : DaemonAt
  daemon_has_acp : ℕ → DaemonAt
  daemon_sets : ℕ → DaemonAt

-- `AllInterfaces::locked_pick_available_https_registrar`: outside, with the lock of `AllInterfaces`,
-- with that of an interface too, and with that of its table besides.
pub data PledgeAt : Type 0 where
  pledge_away : PledgeAt
  pledge_has_all : List Entry → PledgeAt
  pledge_has_link : Ref → Option Ref → List Entry → PledgeAt
  pledge_reads : Ref → Ref → List Entry → PledgeAt

-- How far the listener is with an interface: storing what the message says, or, where the link has
-- come up, with the interface locked again, before and after it starts a daemon.
pub data LinkAt : Type 0 where
  link_stores link_rises link_served : LinkAt

abbrev pub is_again : LinkAt → Bool
is_again link_stores = false
is_again _ = true

-- `AllInterfaces::listen_network` on a message: outside; with the lock of `AllInterfaces`, before and
-- after it has stored what the message says of an interface; with that of the interface too; and where
-- a link has come up that is a join interface, waiting for the lock of the map, and with it.
pub data ListenerAt : Type 0 where
  listener_away : ListenerAt
  listener_has_all : Option Ref → ListenerAt
  listener_has_link : LinkAt → Ref → ListenerAt
  listener_wants_map listener_has_map : Ref → ListenerAt

pub record Tasks : Type 0 where
  pub main : MainAt
  pub daemons : List DaemonAt
  pub pledge : PledgeAt
  pub listener : ListenerAt
  pub joinlinks : List Ref
  pub flag : Bool

abbrev pub daemon_at : Tasks → Ref → DaemonAt
daemon_at s a = get_or s.daemons a daemon_listens

-- The flag is set, and nobody holds a lock.
abbrev pub start : ℕ → List Ref → Tasks
start interfaces joinlinks = record {
  main = main_sleeps;
  daemons = replicate interfaces daemon_listens;
  pledge = pledge_away;
  listener = listener_away;
  joinlinks = joinlinks;
  flag = true;
}

-- Who holds which lock: that of `AllInterfaces`, of the flag, of an interface, of a table, and of the
-- map of join interfaces.
abbrev pub main_holds_all : MainAt → Bool
main_holds_all (main_has_all _) = true
main_holds_all (main_has_flag _) = true
main_holds_all (main_has_link _ _ _) = true
main_holds_all (main_reads _ _ _) = true
main_holds_all _ = false

abbrev pub main_holds_flag : MainAt → Bool
main_holds_flag (main_has_flag _) = true
main_holds_flag (main_has_link _ _ _) = true
main_holds_flag (main_reads _ _ _) = true
main_holds_flag _ = false

abbrev pub main_holds_link : Ref → MainAt → Bool
main_holds_link r (main_has_link i _ _) = i == r
main_holds_link r (main_reads i _ _) = i == r
main_holds_link r (main_sends i _) = i == r
main_holds_link r _ = false

abbrev pub main_holds_acp : Ref → MainAt → Bool
main_holds_acp a (main_reads _ b _) = b == a
main_holds_acp a _ = false

abbrev pub main_holds_map : MainAt → Bool
main_holds_map (main_has_map _) = true
main_holds_map (main_sends _ _) = true
main_holds_map _ = false

abbrev pub daemon_holds_acp : DaemonAt → Bool
daemon_holds_acp daemon_listens = false
daemon_holds_acp _ = true

abbrev pub daemon_holds_flag : DaemonAt → Bool
daemon_holds_flag (daemon_sets _) = true
daemon_holds_flag _ = false

abbrev pub some_daemon_holds_flag : List DaemonAt → Bool
some_daemon_holds_flag [] = false
some_daemon_holds_flag (d ∷ ds) = daemon_holds_flag d || some_daemon_holds_flag ds

abbrev pub pledge_holds_all : PledgeAt → Bool
pledge_holds_all pledge_away = false
pledge_holds_all _ = true

abbrev pub pledge_holds_link : Ref → PledgeAt → Bool
pledge_holds_link r (pledge_has_link i _ _) = i == r
pledge_holds_link r (pledge_reads i _ _) = i == r
pledge_holds_link r _ = false

abbrev pub pledge_holds_acp : Ref → PledgeAt → Bool
pledge_holds_acp a (pledge_reads _ b _) = b == a
pledge_holds_acp a _ = false

abbrev pub listener_holds_all : ListenerAt → Bool
listener_holds_all listener_away = false
listener_holds_all _ = true

abbrev pub listener_holds_link : Ref → ListenerAt → Bool
listener_holds_link r (listener_has_link _ i) = i == r
listener_holds_link r (listener_wants_map i) = i == r
listener_holds_link r (listener_has_map i) = i == r
listener_holds_link r _ = false

abbrev pub listener_holds_map : ListenerAt → Bool
listener_holds_map (listener_has_map _) = true
listener_holds_map _ = false
