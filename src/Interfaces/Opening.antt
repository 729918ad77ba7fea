-- ===== src/Interfaces/Opening.antt =====
-- When the daemons of an interface start: `Interface::start_acp` and `Interface::start_joinlink`
-- of src/interface.rs, on the sockets that the system grants.
use rooster.Base.{
  ℕ, Bool, true, false, ◌≡◌, ◌≢◌, ◌↔◌, ◌⊎◌, inl, inr, refl, List, Option, none, some, arith,
}
use rooster.Net.{Ipv6Addr, v6, SocketAddr}
use rooster.Sys.{Call, Result, finished, failed, unwound, Answers, unwrap, unwrap_result}
use rooster.Sys.Opens.{Grants, IsFinished}
use rooster.Acp.Socket.{open_grasp_port, grasp_calls, open_grasp_port-Opens}
use rooster.Interface.{Ref, Interface, JoinInterface, World}
use rooster.Interfaces.{cell, Sockets, done, panicked, start_acp, start_joinlink}
use rooster.Join.Ports.{
  open_ports, ports_calls, own_address-cases, own_address-listens, open_ports-Opens,
  open_ports-Never,
}

-- What is left of an `unwrap`: whether the ACP socket is there, and the address of the listener.
abbrev pub is_bound {ℓ} : {A : Type ℓ} → Result A → Bool
is_bound (finished _) = true
is_bound _ = false

abbrev pub address_of : Result JoinInterface → Option (Ipv6Addr × ℕ)
address_of (finished ji) = some (ji.https_v6addr, ji.https_port)
address_of _ = none

is_bound-unfinished {ℓ} :
    {A : Type ℓ} (r : Result A) → ¬ IsFinished r → is_bound (unwrap_result r) ≡ false
is_bound-unfinished (finished a) u = absurd (u tt)
is_bound-unfinished (failed e) u = refl
is_bound-unfinished unwound u = refl

address_of-unfinished :
    (r : Result JoinInterface) → ¬ IsFinished r → address_of (unwrap_result r) ≡ none
address_of-unfinished (finished a) u = absurd (u tt)
address_of-unfinished (failed e) u = refl
address_of-unfinished unwound u = refl

ending-panicked : panicked ≢ done
ending-panicked = λ h. cc

module _ (answers : Answers) (calls : List Call) (local : Option SocketAddr) where
  -- The sockets of an interface, as the system grants them after the calls before.
  pub sockets_of : Interface → Sockets
  sockets_of ifn = record {
    grasp_bound = is_bound (unwrap (open_grasp_port answers ifn.ifindex) calls).1;
    https_local = address_of (unwrap (open_ports answers local ifn.linklocal6 ifn.ifindex) calls).1;
  }

  -- The listener of an interface for GRASP messages starts exactly when the system grants the calls
  -- that bind a socket to the GRASP port and join the multicast group on that interface; else it
  -- panics.
  pub start_acp_iff :
      (r : Ref) (w : World)
      → ((start_acp (sockets_of (cell w r)) r w).1 ≡ done)
        ↔ Grants answers calls (grasp_calls (cell w r).ifindex)
  unfolding start_acp sockets_of
  start_acp_iff r w = elim (open_grasp_port-Opens answers (cell w r).ifindex calls) [
    | inl (g, e) ↦ ((λ _. g), (λ _. rw e refl))
    | inr (g, u) ↦
        let unbound = is_bound-unfinished (open_grasp_port answers (cell w r).ifindex calls).1 u in
        ((λ e. absurd (ground arith)), (λ h. absurd (g h)))
  ]

  -- The listener has the IPv6 address and the port.
  abbrev pub ListensAt : Ipv6Addr → ℕ → Type 0
  ListensAt a port = local ≡ some (record { ip = v6 a; port = port })

  https_local-cases :
      (ifn : Interface)
      → let https = (sockets_of ifn).https_local in
        ((a : Ipv6Addr) × (port : ℕ) × ListensAt a port
          × Grants answers calls (ports_calls ifn.linklocal6 ifn.ifindex)
          × (https ≡ some (a, port)))
        ⊎ ((¬ (
              Grants answers calls (ports_calls ifn.linklocal6 ifn.ifindex)
              × ((a : Ipv6Addr) × (port : ℕ) × ListensAt a port)))
            × (https ≡ none))
  unfolding sockets_of
  https_local-cases ifn = elim (own_address-cases local) [
    | inr e ↦
        let never = open_ports-Never answers local ifn.linklocal6 ifn.ifindex e calls in
        inr (
          λ (g, (a, port, l)). own_address-listens a port (rw l at e),
          address_of-unfinished (open_ports answers local ifn.linklocal6 ifn.ifindex calls).1 never,
        )
    | inl (a, port, l) ↦ elim (open_ports-Opens answers ifn.linklocal6 a port ifn.ifindex calls) [
      | inl (g, e) ↦ inl (a, port, l, g, rw (l, e) refl)
      | inr (g, u) ↦ inr (
        λ (g', rest). g g',
        rw l (
            address_of-unfinished
              (open_ports answers (some (record { ip = v6 a; port = port })) ifn.linklocal6
                ifn.ifindex calls).1
              u),
      )
    ]
  ]

  -- The listener of an interface for pledges starts exactly when the system grants its three UDP
  -- sockets on the link-local address and the TCP listener, and the listener has an IPv6 address;
  -- else it panics.
  pub start_joinlink_iff :
      (r : Ref) (w : World)
      → ((start_joinlink (sockets_of (cell w r)) r w).1 ≡ done) ↔ (
          Grants answers calls (ports_calls (cell w r).linklocal6 (cell w r).ifindex)
          × ((a : Ipv6Addr) × (port : ℕ) × ListensAt a port))
  unfolding start_joinlink
  start_joinlink_iff r w = elim (https_local-cases (cell w r)) [
    | inl (a, port, l, g, e) ↦ ((λ _. (g, (a, port, l))), (λ _. rw (e, start_joinlink) refl))
    | inr (missing, e) ↦
        ((λ h. absurd (ending-panicked (rw (e, start_joinlink) at h))), (λ h. absurd (missing h)))
  ]
