-- ===== src/Join.antt =====
-- src/join_interface.rs: what a join interface announces, and what it does for a pledge. Also
-- `Interface::registrar_all_announce` of src/interface.rs. Sockets, and the serializer of the CBOR
-- crate, are parameters.
pub mod Accept
pub mod Announcement
pub mod Pledge
pub mod Ports
pub mod Sending
mod Tests
use rooster.Base.{
  ℕ, String, Bool, true, false, ◌≡◌, List, [], ◌∷◌, ◌++◌, Option, none, some, if◌then◌else◌, get_or,
}
pub use rooster.Error.{ErrorKind, not_connected, addr_not_available, other_error}
use rooster.Error.{Outcome, ok, err, panic, ◌>>=◌}
use rooster.Net.{Ipv6Addr, unspecified, SocketAddr}
use rooster.Cbor.{Cbor}
use rooster.Grasp.{GraspMessage, GraspObjective, ipv6_locator, m_flood, grasp_port}
use rooster.Grasp.Encode.{encode_dull_grasp_message}
use rooster.Interface.{IfIndex, Interface, JoinInterface, ProxiesEnabled, World}

-- `Result<(), std::io::Error>` of a call that may also panic.
pub data IoResult : Type 0 where
  io_ok : IoResult
  io_err : ErrorKind → IoResult
  io_panic : IoResult

-- `.unwrap()` and `.expect(…)`.
abbrev pub io_unwrap : IoResult → IoResult
io_unwrap (io_err _) = io_panic
io_unwrap r = r

abbrev pub unwrap {ℓ} : {A : Type ℓ} → Outcome A → Outcome A
unwrap (err _) = panic
unwrap r = r

abbrev pub ipproto_tcp : ℕ
ipproto_tcp = 6

abbrev pub an_proxy_objective : JoinInterface → Interface → GraspObjective
an_proxy_objective ji ifn = record {
  objective_name = "AN_Proxy";
  objective_flags = 0;
  loop_count = 1;
  objective_value = some "";
  locator = some (ipv6_locator ifn.linklocal6 ipproto_tcp ji.https_port);
}

-- The message that `build_an_proxy` encodes: nothing but the HTTP proxy is announced.
unfoldable pub an_proxy_message : JoinInterface → Interface → ProxiesEnabled → ℕ → GraspMessage
an_proxy_message ji ifn proxies id = record {
  mtype = m_flood;
  session_id = id;
  initiator = ifn.linklocal6;
  ttl = 1;
  objectives = if proxies.http_avail then an_proxy_objective ji ifn ∷ [] else [];
}

-- What stands for a missing daemon; no reference leads to one.
abbrev pub no_daemon : JoinInterface
no_daemon = record { https_v6addr = unspecified; https_port = 0 }

-- A datagram to the GRASP multicast group on one interface.
pub record Transmission : Type 0 where
  pub payload : List ℕ
  pub group : Ipv6Addr
  pub port : ℕ
  pub scope : IfIndex

-- ff02::13
abbrev pub all_grasp_neighbors : Ipv6Addr
all_grasp_neighbors = 0xff ∷ 0x02 ∷ 0 ∷ 0 ∷ 0 ∷ 0 ∷ 0 ∷ 0 ∷ 0 ∷ 0 ∷ 0 ∷ 0 ∷ 0 ∷ 0 ∷ 0 ∷ 0x13 ∷ []

-- How sending it ends: an address that is not available is passed over.
unfoldable pub sending : Option ErrorKind → IoResult
sending none = io_ok
sending (some addr_not_available) = io_ok
sending (some e) = io_err e

module _ ⦃cbor : Cbor⦄ where
  open cbor use {CborType}

  module _ (serialize : CborType → List ℕ) where
    unfoldable pub build_an_proxy :
        JoinInterface → Interface → ProxiesEnabled → ℕ → Outcome (List ℕ)
    unfolding an_proxy_message
    build_an_proxy ji ifn proxies id = do
      ct ← unwrap (encode_dull_grasp_message (an_proxy_message ji ifn proxies id))
      ok (serialize ct)

    abbrev pub flood_of : Interface → List ℕ → Transmission
    flood_of ifn mflood = record {
      payload = mflood;
      group = all_grasp_neighbors;
      port = 7017;
      scope = ifn.ifindex;
    }

    module _ (send_to : Transmission → Option ErrorKind) where
      -- `JoinInterface::registrar_all_announce`: what is sent, and how it ends.
      pub registrar_all_announce :
          JoinInterface → Interface → ProxiesEnabled → ℕ → List Transmission × IoResult
      unfolding build_an_proxy sending
      registrar_all_announce ji ifn proxies id = elim (build_an_proxy ji ifn proxies id) [
        | ok mflood ↦ (flood_of ifn mflood ∷ [], sending (send_to (flood_of ifn mflood)))
        | err _ ↦ ([], io_panic)
        | panic ↦ ([], io_panic)
      ]

      -- `Interface::registrar_all_announce`.
      pub announce_interface : World → Interface → ProxiesEnabled → ℕ → List Transmission × IoResult
      unfolding registrar_all_announce
      announce_interface w ifn proxies id = elim ifn.join_daemon [
        | none ↦ ([], io_ok)
        | some j ↦
            let ji = get_or w.joins j no_daemon in
            let (sent, result) = registrar_all_announce ji ifn proxies id in
            (sent, io_unwrap result)
      ]
