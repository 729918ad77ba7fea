-- ===== src/Lib.antt =====
-- Rooster, the join proxy of RFC 8995: it hears on ACP interfaces, by GRASP, of registrars, and
-- announces on join interfaces that it will connect pledges to one of them. This library models the
-- program's own logic and shows that it does so, and where it does not.
--
-- The parts, how they meet, and the files that model them:
-- * Grasp models src/grasp.rs: the messages, the decoders `decode_grasp_message` and
--   `decode_dull_grasp_message` (Grasp/Decode, with Grasp/Locators and Grasp/Objectives for their
--   parts), and `encode_dull_grasp_message` (Grasp/Encode). An integer of 64 bits that is cut to a
--   narrower one keeps its `% 2 ^ w`. A read past the end of an array is the outcome `panic` of
--   Error, which also has the `Err` of src/error.rs. Cbor states what is used of the CBOR crate;
--   Cbor/Sample is a concrete instance of it, for examples.
-- * Acp models `AcpInterface` of src/acp_interface.rs: the table of registrars, `add_registrar`,
--   `registrar_announce`, (Acp/Daemon) the receive loop of `start_daemon`, in which the decoder is
--   called, (Acp/Socket) `open_grasp_port`, and (Acp/Dump) `dump_registrar_list`. Acp/Ports reads
--   the table as a map from kind and address to a port. The flag `invalidate`, which all interfaces
--   share, is passed beside the table.
-- * Args models the choice of interfaces in src/args.rs, and Debug the switches and functions of
--   src/debugoptions.rs, as the lines that they write.
-- * Netlink, Interface and Interfaces model src/interface.rs and src/interfaces.rs: an
--   `Arc<Mutex<T>>` is a place in a list of `World`, so that the three maps of `AllInterfaces` share
--   their interfaces. Interfaces has what netlink messages do, Interfaces/Learning what they say of
--   one interface, Interfaces/Scan the task from `scan_existing_interfaces` on, and
--   Interfaces/Registrars the availability, its update, and the registrar that is picked. The order
--   of `HashMap::values` is a parameter.
-- * Join models src/join_interface.rs: `build_an_proxy`, `registrar_all_announce`, `proxy_https`
--   (Join/Pledge), the accept loop of `start_daemon` (Join/Accept) and `open_ports` (Join/Ports).
-- * Sys has the calls to the system that open sockets, with what the system answers as a parameter;
--   Interfaces/Opening joins them to `start_acp` and `start_joinlink`.
-- * Main models one round of the loop of src/main.rs.
-- * System puts the main loop, the listener and the daemons together: `Reaches` of System/Steps says
--   which states they can reach in any order, with the datagrams that have arrived, and `GoesOn` of
--   System/Persistence how they go on from a state.
-- * Locks models the order in which the main loop with its announcements, the daemons of any number
--   of ACP interfaces, the proxy of a pledge and the listener of netlink messages take the mutexes, as
--   a step relation (Locks/Steps) on what each of them holds. Pledges are served one at a time there,
--   as they are under the mutex of `AllInterfaces`.
-- * Overlap takes the update of the proxies and the daemons apart into the steps between which the
--   mutexes let another task come (Overlap/Steps), with the tables and the flag that they change;
--   Overlap/Serial relates them to the handlers one after the other (`Handled`), with what of
--   Interfaces/Blind and Interfaces/Registrars/Listing it needs of netlink messages.
-- * Suite runs the unit tests of the source on the model, and the packets of src/graspsamples.rs;
--   Cbor/Octets stands there for the CBOR crate.
-- * Base has the lists, tests and equality that all share; Net the addresses of `std::net`.
--
-- Every loop of the source runs over a list, and is structural recursion; no fuel is used. The
-- endless loops, the receive loop, the accept loop and the listener, run over the list of what they
-- receive, or take their steps in `Reaches`.
--
-- Not modelled: the debug output of functions other than `dump_registrar_list`, the parsing of
-- options, copying between streams beyond how it ends, and, outside Locks and Overlap, the
-- interleaving of tasks within a handler: every handler runs to its end, as it does under the mutex
-- that it holds.
pub mod Acp
pub mod Args
pub mod Base
pub mod Cbor
pub mod Debug
pub mod Error
pub mod Grasp
pub mod Interface
pub mod Interfaces
pub mod Join
pub mod Locks
pub mod Main
pub mod Net
pub mod Netlink
pub mod Overlap
pub mod Suite
pub mod Sys
pub mod System
