-- ===== src/Acp/Socket.antt =====
-- `AcpInterface::open_grasp_port` of src/acp_interface.rs. What it prints is left out.
use rooster.Base.{ℕ, List, [], ◌∷◌, arith}
use rooster.Error.{ErrorKind}
use rooster.Net.{Ipv6Addr, unspecified}
use rooster.Sys.{
  dgram, Call, socket, set_reuse_port, set_reuse_address, set_nonblocking, from_std, bind,
  join_multicast_v6, command, Os, Answers, call, pure, fail, unwrap, match_result, ◌>>=◌,
}
use rooster.Sys.Opens.{
  Never, Opens, call-Opens, unwrap-Opens, match_result-Opens, bind-Opens, pure-Opens,
}
use rooster.Grasp.{grasp_port}
use rooster.Acp.{AcpInterface, empty_acp}

-- FF02:0:0:0:0:0:0:13
abbrev pub grasp_mcast : Ipv6Addr
grasp_mcast = 0xff ∷ 0x02 ∷ 0 ∷ 0 ∷ 0 ∷ 0 ∷ 0 ∷ 0 ∷ 0 ∷ 0 ∷ 0 ∷ 0 ∷ 0 ∷ 0 ∷ 0 ∷ 0x13 ∷ []

-- The calls of a socket that is bound to the GRASP port and has joined the group, on one
-- interface.
abbrev pub grasp_calls : ℕ → List Call
grasp_calls ifindex =
    socket dgram
    ∷ set_reuse_port
    ∷ set_reuse_address
    ∷ set_nonblocking
    ∷ bind unspecified grasp_port ifindex
    ∷ from_std
    ∷ join_multicast_v6 grasp_mcast ifindex
    ∷ []

module _ (answers : Answers) where
  -- The commands that show the state of the network after a bind that failed.
  unfoldable pub show_network : ErrorKind → Os AcpInterface
  show_network e = do
    _ ← unwrap (call answers (command ("ss" ∷ "-uan" ∷ [])))
    _ ← unwrap (call answers (command ("ip" ∷ "link" ∷ "ls" ∷ [])))
    _ ← unwrap (call answers (command ("ip" ∷ "addr" ∷ "ls" ∷ [])))
    fail e

  -- The part after the bind.
  unfoldable pub join_group : ℕ → Os AcpInterface
  join_group ifindex = do
    _ ← unwrap (call answers from_std)
    _ ← unwrap (call answers (join_multicast_v6 grasp_mcast ifindex))
    pure empty_acp

  unfoldable pub open_grasp_port : ℕ → Os AcpInterface
  unfolding show_network join_group
  open_grasp_port ifindex = do
    _ ← unwrap (call answers (socket dgram))
    _ ← unwrap (call answers set_reuse_port)
    _ ← unwrap (call answers set_reuse_address)
    _ ← unwrap (call answers set_nonblocking)
    match_result (call answers (bind unspecified grasp_port ifindex)) (λ _. join_group ifindex)
        show_network

  unwrapped : (c : Call) → Opens answers (unwrap (call answers c)) (c ∷ []) tt
  unwrapped c = unwrap-Opens answers (call answers c) (c ∷ []) (call-Opens answers c)

  show_network-Never : (e : ErrorKind) → Never (show_network e)
  unfolding show_network
  show_network-Never e calls = ground arith

  -- If the system grants the calls that bind a socket to the GRASP port and join the group on the
  -- interface, open_grasp_port makes just these and ends well; if not, it fails or panics.
  pub open_grasp_port-Opens :
      (ifindex : ℕ) → Opens answers (open_grasp_port ifindex) (grasp_calls ifindex) empty_acp
  unfolding open_grasp_port join_group
  open_grasp_port-Opens ifindex =
      bind-Opens answers _ _ (socket dgram ∷ []) _ (unwrapped (socket dgram)) (
        bind-Opens answers _ _ (set_reuse_port ∷ []) _ (unwrapped set_reuse_port) (
          bind-Opens answers _ _ (set_reuse_address ∷ []) _ (unwrapped set_reuse_address) (
            bind-Opens answers _ _ (set_nonblocking ∷ []) _ (unwrapped set_nonblocking) (
              match_result-Opens answers _ _ _ (bind unspecified grasp_port ifindex ∷ []) _
                (call-Opens answers (bind unspecified grasp_port ifindex))
                (bind-Opens answers _ _ (from_std ∷ []) _ (unwrapped from_std) (
                  bind-Opens answers _ _ (join_multicast_v6 grasp_mcast ifindex ∷ []) []
                    (unwrapped (join_multicast_v6 grasp_mcast ifindex))
                    (pure-Opens answers empty_acp)))
                show_network-Never))))
